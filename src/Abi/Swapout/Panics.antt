-- ===== src/Abi/Swapout/Panics.antt =====
-- The sum of offset and length in parseSwapoutToBtcEncodedData of tokens/eth/verifyswapouttx.go.
use cross_chain_bridge.Common.{
  ℕ, ◌+◌, ◌%◌, ◌^◌, ◌≤◌, ◌<◌, ◌≡◌, refl, Bool, true, false, not, ◌||◌, ◌==◌, none, some, Text,
  length, leb, ltb, if◌then◌else◌, arith,
}
use cross_chain_bridge.Common.Exec.{panic}
use cross_chain_bridge.Tokens.Errors.{sentinel, tx_with_wrong_input, tx_with_wrong_log_data}
use cross_chain_bridge.Abi.Bytes.{slice, get_big_int, get_data, add_u64}
use cross_chain_bridge.Abi.Words.{word-some, get_big_int-starts}
use cross_chain_bridge.Abi.Swapout.{parse_swapout_to_btc_encoded_data}

-- A slice that would end before it starts.
get_data-none :
    (bs : Text) (start size : ℕ)
    → start ≤ length bs
    → start + size < 2 ^ 64 + start
    → 2 ^ 64 ≤ start + size
    → get_data bs start size ≡ none
unfolding get_data slice
get_data-none bs start size h k l =
    let first : leb start (length bs) ≡ true = ground arith in
    let last : leb (add_u64 start size) (length bs) ≡ true = ground arith in
    let back : leb start (add_u64 start size) ≡ false = ground arith in
    ground (arith, first, last, back)

-- The sum of the offset, 32 and the length wraps round at 2 ^ 64, so that a long length passes the
-- checks: the parse panics on data whose length word brings the end of the string, modulo 2 ^ 64, to
-- less than 32 bytes before the end of the data and before the start of the string.
pub parse_swapout_to_btc_encoded_data-panics :
    (enc : Text) (is_in_tx_input : Bool) (offset n : ℕ)
    → 96 ≤ length enc
    → length enc < 2 ^ 63
    → length enc % 32 ≡ 0
    → get_big_int enc 32 32 ≡ some offset
    → offset + 32 ≤ length enc
    → get_big_int enc offset 32 ≡ some n
    → n < 2 ^ 64
    → 2 ^ 64 + length enc < offset + 64 + n
    → parse_swapout_to_btc_encoded_data enc is_in_tx_input ≡ panic
unfolding parse_swapout_to_btc_encoded_data
parse_swapout_to_btc_encoded_data-panics enc is_in_tx_input offset n long short whole o inside l
      fits wraps =
    let e = sentinel (if is_in_tx_input then tx_with_wrong_input else tx_with_wrong_log_data) in
    let shape : ltb (length enc) 96 || not (length enc % 32 == 0) ≡ false = ground arith in
    let start : add_u64 offset 32 ≡ offset + 32 = omega arith in
    let room : ltb (length enc) (offset + 32) ≡ false = ground arith in
    let ends : ltb (length enc) (add_u64 (offset + 32) n)
          || leb (add_u64 (add_u64 (offset + 32) n) 32) (length enc)
        ≡ false =
      ground arith in
    let (v, w) = get_big_int-starts enc in
    rw
      (
        shape,
        w,
        word-some e enc 32 offset o (omega arith),
        start,
        room,
        word-some e enc offset n l fits,
        ends,
        get_data-none enc (offset + 32) n inside (omega arith) (omega arith),
      )
      refl
