-- ===== src/Bitcoin/Unsigned.antt =====
-- NewUnsignedTransaction of tokens/btc/buildtx.go: the choice of inputs, fee and change for given
-- outputs. The rules for sizes, fees and dust are those of btcwallet, and parameters here.
pub mod Fees
use cross_chain_bridge.Common.{
  ℕ, zero, suc, ◌+◌, ◌*◌, ◌-◌, ◌==◌, Bool, true, false, not, ◌||◌, Option, none, some, List, [],
  ◌∷◌, ◌++◌, Text, lit, length, ltb, if◌then◌else◌,
}
use cross_chain_bridge.Common.Int.{ℤ, pos, negsuc, ltb_ℤ, add64, sub64, is_positive, is_negative}
use cross_chain_bridge.Common.Exec.{Result, ok, err, panic, Exec, pure, ◌>>=◌}
use cross_chain_bridge.Tokens.Errors.{Err, message}

abbrev pub redeem_aggregate_p2sh_input_size : ℕ
redeem_aggregate_p2sh_input_size = 198

-- txsizes, txrules and txauthor of btcwallet, and wire.NewTxOut. Amounts are int64. The dust
-- threshold is the one at the default relay fee.
pub record Wallet : Type 1 where
  pub TxIn : Type 0
  pub TxOut : Type 0
  pub sum_output_values : List TxOut → ℤ
  pub estimate_serialize_size : ℕ → List TxOut → Bool → ℕ
  pub fee_for_serialize_size : ℤ → ℕ → ℤ
  pub dust_threshold : ℕ → ℤ
  pub new_tx_out : ℤ → Text → TxOut
  pub is_pay_to_script_hash : Text → Bool
  pub previous_out_point : TxIn → Text × ℕ

insufficient_funds : Err
insufficient_funds = message (lit "insufficient funds available to construct transaction")

module _ (b : Wallet) where
  -- What an InputSource gives for a target.
  pub record Inputs : Type 0 where
    pub total : ℤ
    pub inputs : List b.TxIn
    pub input_values : List ℤ
    pub scripts : List Text

  -- txauthor.AuthoredTx; the change index is -1 without a change.
  pub record AuthoredTx : Type 0 where
    pub tx_in : List b.TxIn
    pub tx_out : List b.TxOut
    pub prev_scripts : List Text
    pub prev_input_values : List ℤ
    pub total_input : ℤ
    pub change_index : ℤ

  count_p2sh : List Text → ℕ
  count_p2sh [] = 0
  count_p2sh (s ∷ ss) = if b.is_pay_to_script_hash s then 1 + count_p2sh ss else count_p2sh ss

  -- estimateSize
  unfoldable pub estimate_size : List Text → List b.TxOut → Bool → Bool → ℕ
  unfolding count_p2sh
  estimate_size scripts tx_outs add_change is_aggregate =
      let p2sh = count_p2sh scripts in
      let size = b.estimate_serialize_size (length scripts - p2sh) tx_outs add_change in
      if not is_aggregate
      then b.estimate_serialize_size (length scripts) tx_outs add_change
      else if ltb 0 p2sh
      then size + p2sh * redeem_aggregate_p2sh_input_size
      else size

  -- The fee for a transaction with these inputs, at least the configured minimum.
  unfoldable pub required_fee : ℤ → ℤ → List b.TxOut → Bool → List Text → ℤ
  unfolding estimate_size
  required_fee min_relay_fee relay_fee_per_kb outputs is_aggregate scripts =
      let fee =
        b.fee_for_serialize_size relay_fee_per_kb
          (estimate_size scripts outputs true is_aggregate) in
      if ltb_ℤ fee min_relay_fee then min_relay_fee else fee

  abbrev pub authored : List b.TxOut → ℤ → Inputs → AuthoredTx
  authored outputs change_index i = record {
    tx_in = i.inputs;
    tx_out = outputs;
    prev_scripts = i.scripts;
    prev_input_values = i.input_values;
    total_input = i.total;
    change_index = change_index;
  }

  -- What is left over goes back in a change output, unless it is dust.
  with_change : List b.TxOut → ℤ → Inputs → Text → AuthoredTx
  with_change outputs change i script =
      if ltb_ℤ change (b.dust_threshold (length script))
      then authored outputs (negsuc 0) i
      else authored (outputs ++ (b.new_tx_out change script ∷ [])) (pos (length outputs)) i

  -- What a round of the loop comes to: an error, another target fee, or the amount of the change.
  pub data Round : Type 0 where
    failed : Err → Round
    again : ℤ → Round
    enough : ℤ → Round

  module _ (relay_fee_per_kb min_relay_fee : ℤ) (is_aggregate : Bool) (outputs : List b.TxOut) where
    -- By the amounts: of the inputs, of the outputs, the fee aimed at and the fee required.
    unfoldable pub judge_amounts : ℤ → ℤ → ℤ → ℤ → Round
    unfolding insufficient_funds
    judge_amounts total target target_fee fee =
        if ltb_ℤ total (add64 target target_fee)
        then failed insufficient_funds
        else if not (ltb_ℤ (sub64 total target) fee)
        then enough (sub64 (sub64 total target) fee)
        else if is_aggregate
        then failed insufficient_funds
        else again fee

    unfoldable pub judge : ℤ → Inputs → Round
    judge target_fee i =
        judge_amounts i.total (b.sum_output_values outputs) target_fee
          (required_fee min_relay_fee relay_fee_per_kb outputs is_aggregate i.scripts)

    module _ {S : Type 0} (fetch_inputs : ℤ → Exec Err S Inputs)
        (fetch_change : Exec Err S Text) where
      change_or_none : Inputs → ℤ → Exec Err S AuthoredTx
      unfolding with_change pure
      change_or_none i change =
          if is_positive change || is_negative change
          then (fetch_change >>= λ script. pure (with_change outputs change i script))
          else pure (authored outputs (negsuc 0) i)

      -- The loop; `none` means that the fuel ran out.
      unfoldable pub unsigned_loop : ℕ → ℤ → S → Option (Result Err AuthoredTx × S)
      unfolding judge change_or_none
      unsigned_loop zero target_fee s = none
      unsigned_loop (suc n) target_fee s =
          let r = fetch_inputs (add64 (b.sum_output_values outputs) target_fee) s in
          elim r.0 [
            | err e ↦ some (err e, r.1)
            | panic ↦ some (panic, r.1)
            | ok i ↦ elim (judge target_fee i) [
              | failed e ↦ some (err e, r.1)
              | again fee ↦ unsigned_loop n fee r.1
              | enough change ↦ some (change_or_none i change r.1)
            ]
          ]

      -- NewUnsignedTransaction, with as many rounds as the fuel allows
      unfoldable pub new_unsigned_transaction : ℕ → S → Option (Result Err AuthoredTx × S)
      unfolding unsigned_loop
      new_unsigned_transaction n =
          unsigned_loop n
            (b.fee_for_serialize_size relay_fee_per_kb (b.estimate_serialize_size 1 outputs true))
