-- ===== src/Bitcoin/Received.antt =====
-- tokens/btc/verifytx.go: what the outputs of a transaction pay to an address, and the address that
-- its inputs spend from.
pub mod Total
use cross_chain_bridge.Common.{
  ℕ, ◌+◌, ◌%◌, ◌^◌, Bool, true, false, not, Option, none, some, List, [], ◌∷◌, Text, lit, is_empty,
  text_eq, if◌then◌else◌,
}
use cross_chain_bridge.Bitcoin.Electrs.{ElectTxOut, ElectTxin, op_return_type}

-- What GetReceivedValue collects: the value (uint64), the last memo script, and whether some output
-- went to the receiver.
pub record Received : Type 0 where
  pub value : ℕ
  pub memo_script : Text
  pub right_receiver : Bool

-- An output of the type that is looked for.
unfoldable pub receive : Text → ElectTxOut → Received → Option Received
receive receiver output r = elim output.scriptpubkey_address [
  | none ↦ some r
  | some address ↦ if not (text_eq address receiver) then some r else elim output.value [
    | none ↦ none
    | some v ↦ some (record r { value = (r.value + v) % 2 ^ 64; right_receiver = true })
  ]
]

-- One output; `none` is a panic.
unfoldable pub receive_output : Text → Text → ElectTxOut → Received → Option Received
unfolding receive
receive_output receiver pubkey_type output r = elim output.scriptpubkey_type [
  | none ↦ none
  | some t ↦
      if text_eq t op_return_type
      then elim output.scriptpubkey_asm [
        | none ↦ none
        | some script ↦ some (record r { memo_script = script })
      ]
      else if text_eq t pubkey_type
      then receive receiver output r
      else some r
]

unfoldable pub received_from : Text → Text → List ElectTxOut → Received → Option Received
unfolding receive_output
received_from receiver pubkey_type [] r = some r
received_from receiver pubkey_type (output ∷ outputs) r =
    elim (receive_output receiver pubkey_type output r) [
      | none ↦ none
      | some r' ↦ received_from receiver pubkey_type outputs r'
    ]

-- GetReceivedValue
unfoldable pub get_received_value : List ElectTxOut → Text → Text → Option Received
unfolding received_from lit
get_received_value vout receiver pubkey_type =
    received_from receiver pubkey_type vout
      (record { value = 0; memo_script = lit ""; right_receiver = false })

-- The address that an input spends from, if it is known.
unfoldable pub input_address : Option ElectTxin → Option Text
input_address none = none
input_address (some input) = elim input.prevout [
  | none ↦ none
  | some out ↦ out.scriptpubkey_address
]

unfoldable pub tx_from_loop : List (Option ElectTxin) → Text → Text → Text
unfolding input_address
tx_from_loop [] priority from = from
tx_from_loop (input ∷ inputs) priority from = elim (input_address input) [
  | none ↦ tx_from_loop inputs priority from
  | some address ↦
      let rest = tx_from_loop inputs priority (if is_empty from then address else from) in
      if text_eq address priority then priority else rest
]

-- getTxFrom
unfoldable pub get_tx_from : List (Option ElectTxin) → Text → Text
unfolding tx_from_loop lit
get_tx_from vin priority = tx_from_loop vin priority (lit "")
