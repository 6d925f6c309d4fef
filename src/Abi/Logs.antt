-- ===== src/Abi/Logs.antt =====
-- parseSwapoutTxLogs of tokens/eth/verifyswapouttx.go: the first log of a receipt that reports a swapout
-- of a contract.
use cross_chain_bridge.Common.{
  ℕ, ◌==◌, Bool, false, not, ◌||◌, Option, none, some, List, [], ◌∷◌, Text, equal_fold, text_eq,
  length, get_elem?, if◌then◌else◌,
}
use cross_chain_bridge.Common.Exec.{Result, ok, err, panic}
use cross_chain_bridge.Tokens.Errors.{Err, sentinel, swapout_log_not_found}
use cross_chain_bridge.Abi.Bytes.{get_big_int}
use cross_chain_bridge.Abi.Parse.{◌>>=◌, or_panic}
use cross_chain_bridge.Abi.Swapout.{parse_swapout_to_btc_encoded_data}

-- RPCLog, with its address, which is never nil, as a text
pub record Log : Type 0 where
  pub address : Text
  pub topics : List Text
  pub log_data : Option Text
  pub removed : Option Bool

-- What the contracts of the bridge are like: whether a swapout goes to a string address, and the topic
-- of its log; and common.BytesToAddress with String.
pub record SwapoutLogs : Type 0 where
  pub to_string_address : Bool
  pub topic : Text
  pub address_of_bytes : Text → Text

-- getLogSwapoutTopic: the number of topics
abbrev pub topics_len : Bool → ℕ
topics_len to_string_address = if to_string_address then 2 else 3

-- The data of a log that the loop does not pass over.
unfoldable pub swapout_data : SwapoutLogs → Text → Log → Result Err (Option Text)
swapout_data c target log =
    if elim log.removed [ none ↦ false | some r ↦ r ]
      || not (equal_fold log.address target)
      || not (length log.topics == topics_len c.to_string_address)
    then ok none
    else elim log.log_data [
      | none ↦ ok none
      | some d ↦ elim log.topics [
        | [] ↦ panic
        | topic ∷ _ ↦ ok (if text_eq topic c.topic then some d else none)
      ]
    ]

unfoldable pub parse_log : SwapoutLogs → Log → Text → Result Err (Text × ℕ)
parse_log c log d = if c.to_string_address then parse_swapout_to_btc_encoded_data d false else do
  bind ← or_panic (get_elem? log.topics 2)
  value ← or_panic (get_big_int d 0 32)
  ok (c.address_of_bytes bind, value)

-- parseSwapoutTxLogs
unfoldable pub parse_swapout_tx_logs : SwapoutLogs → Text → List Log → Result Err (Text × ℕ)
unfolding swapout_data parse_log
parse_swapout_tx_logs c target [] = err (sentinel swapout_log_not_found)
parse_swapout_tx_logs c target (log ∷ logs) = elim (swapout_data c target log) [
  | err e ↦ err e
  | panic ↦ panic
  | ok none ↦ parse_swapout_tx_logs c target logs
  | ok (some d) ↦ parse_log c log d
]
