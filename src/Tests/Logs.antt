-- ===== src/Tests/Logs.antt =====
-- Logs of a swapout: one that is packed, and one that brings the parser down.
use cross_chain_bridge.Common.{
  ◌-◌, ◌^◌, ◌≡◌, refl, true, none, some, [], ◌∷◌, ◌++◌, Text, lit, arith,
}
use cross_chain_bridge.Common.Int.{pos}
use cross_chain_bridge.Common.Exec.{ok, panic}
use cross_chain_bridge.Abi.Bytes.{zeros, get_big_int}
use cross_chain_bridge.Abi.Pack.{big, string, pack_data}
use cross_chain_bridge.Abi.Logs.{Log, SwapoutLogs, parse_swapout_tx_logs}
use cross_chain_bridge.Abi.Swapout.{parse_swapout_to_btc_encoded_data}
use cross_chain_bridge.Abi.Swapout.RoundTrip.{parse_swapout_to_btc_encoded_data-pack_data}
use cross_chain_bridge.Abi.Swapout.Panics.{parse_swapout_to_btc_encoded_data-panics}

parse_swapout_to_btc_encoded_data-pack_data_example :
    parse_swapout_to_btc_encoded_data (pack_data (big (some (pos 7)) ∷ string (lit "r1") ∷ [])) true
    ≡ ok (lit "r1", 7)
unfolding lit
parse_swapout_to_btc_encoded_data-pack_data_example =
    parse_swapout_to_btc_encoded_data-pack_data 7 (lit "r1") true (omega arith) (omega arith)

-- The value 0, the offset 64 and the length 2 ^ 64 - 16.
abbrev long_log : Text
long_log =
    zeros 32
    ++ ((zeros 31 ++ (64 ∷ []))
        ++ (zeros 24 ++ (255 ∷ 255 ∷ 255 ∷ 255 ∷ 255 ∷ 255 ∷ 255 ∷ 240 ∷ [])))

parse_swapout_to_btc_encoded_data-panics_example :
    parse_swapout_to_btc_encoded_data long_log true ≡ panic
unfolding get_big_int cross_chain_bridge.Abi.Bytes.replicate
parse_swapout_to_btc_encoded_data-panics_example =
    parse_swapout_to_btc_encoded_data-panics long_log true 64 (2 ^ 64 - 16) (omega arith)
      (omega arith) refl refl (omega arith) refl (omega arith) (omega arith)

abbrev contract_logs : SwapoutLogs
contract_logs = record {
  to_string_address = true;
  topic = lit "swapout";
  address_of_bytes = λ b. b;
}

abbrev removed_log : Log
removed_log = record {
  address = lit "0xc";
  topics = lit "swapout" ∷ lit "a" ∷ [];
  log_data = some (zeros 96);
  removed = some true;
}

abbrev swapout_log : Log
swapout_log = record removed_log {
  log_data = some (pack_data (big (some (pos 7)) ∷ string (lit "r1") ∷ []));
  removed = none;
}

first_log :
    parse_swapout_tx_logs contract_logs (lit "0xC") (removed_log ∷ swapout_log ∷ [])
    ≡ ok (lit "r1", 7)
unfolding parse_swapout_tx_logs lit cross_chain_bridge.Common.equal_fold
    cross_chain_bridge.Common.text_eq parse_swapout_to_btc_encoded_data pack_data
    cross_chain_bridge.Abi.Pack.pack_big_int get_big_int cross_chain_bridge.Abi.Parse.word
    cross_chain_bridge.Abi.Bytes.get_uint64 cross_chain_bridge.Abi.Bytes.get_data
first_log = refl
