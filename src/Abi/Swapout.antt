-- ===== src/Abi/Swapout.antt =====
-- parseSwapoutToBtcEncodedData of tokens/eth/verifyswapouttx.go: the bind address and the value in the
-- data of a log of a swapout to a string address.
pub mod Panics
pub mod RoundTrip
use cross_chain_bridge.Common.{
  ℕ, ◌+◌, ◌%◌, ◌^◌, Bool, true, false, not, ◌&&◌, ◌||◌, ◌==◌, Option, none, some, Text, length, leb,
  ltb, if◌then◌else◌,
}
use cross_chain_bridge.Common.Exec.{Result, ok, err, panic}
use cross_chain_bridge.Tokens.Errors.{Err, sentinel, tx_with_wrong_input, tx_with_wrong_log_data}
use cross_chain_bridge.Abi.Bytes.{get_data, get_big_int, add_u64}
use cross_chain_bridge.Abi.Parse.{◌>>=◌, or_panic, word}

unfoldable pub parse_swapout_to_btc_encoded_data : Text → Bool → Result Err (Text × ℕ)
parse_swapout_to_btc_encoded_data enc is_in_tx_input =
    let e = sentinel (if is_in_tx_input then tx_with_wrong_input else tx_with_wrong_log_data) in
    if ltb (length enc) 96 || not (length enc % 32 == 0) then err e else do
      value ← or_panic (get_big_int enc 0 32)
      offset ← word e enc 32
      if ltb (length enc) (add_u64 offset 32) then err e else do
        n ← word e enc offset
        let end = add_u64 (add_u64 offset 32) n
        if ltb (length enc) end || leb (add_u64 end 32) (length enc)
            then err e
            else do bind ← or_panic (get_data enc (add_u64 offset 32) n); ok (bind, value)
