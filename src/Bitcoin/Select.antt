-- ===== src/Bitcoin/Select.antt =====
-- tokens/btc/buildtx.go: the unspent outputs that pay a transaction, and BuildTransaction.
pub mod Paid
pub mod Spent
pub mod Settled
use cross_chain_bridge.Common.{
  ℕ, zero, suc, ◌-◌, ◌%◌, ◌^◌, ◌==◌, Bool, true, false, not, ◌&&◌, ◌||◌, Option, none, some, List,
  [], ◌∷◌, ◌++◌, Text, lit, is_empty, text_eq, length, get_elem?, leb, ltb, if◌then◌else◌,
}
use cross_chain_bridge.Common.Int.{ℤ, pos, ltb_ℤ, add64, wrap64, big_string, is_positive}
use cross_chain_bridge.Common.Exec.{
  Result, ok, err, panic, Exec, pure, fail, crash, attempt, lift, ◌>>=◌, ◌>>◌,
}
use cross_chain_bridge.Tokens.Errors.{Err, message}
use cross_chain_bridge.Bitcoin.Electrs.{
  ElectTx, ElectTxOut, ElectUtxo, ElectOutspend, deref, p2pkh_type,
}
use cross_chain_bridge.Bitcoin.Unsigned.{Wallet, Inputs, AuthoredTx, new_unsigned_transaction}

-- btcutil.MaxSatoshi
abbrev pub max_satoshi : ℕ
max_satoshi = 2100000000000000

abbrev pub retry_count : ℕ
retry_count = 3

unfoldable pub is_valid_value : ℤ → Bool
is_valid_value value = is_positive value && not (ltb_ℤ (pos max_satoshi) value)

-- The server of the chain, over a state of everything outside, and the btcsuite functions that make
-- scripts and inputs.
pub record Node (b : Wallet) (S : Type 0) : Type 0 where
  pub estimate_fee_per_kb : Exec Err S ℤ
  pub find_utxos : Text → Exec Err S (List ElectUtxo)
  pub get_outspend : Text → ℕ → Exec Err S ElectOutspend
  pub get_transaction_by_hash : Text → Exec Err S ElectTx
  pub get_pay_to_addr_script : Text → Result Err Text
  pub null_data_script : Text → Result Err Text
  pub new_tx_in : Text → ℕ → Text → Result Err b.TxIn

module _ {S : Type 0} where
  unfoldable pub again_on_error : {A : Type 0} → Exec Err S A → Result Err A → Exec Err S A
  unfolding pure crash
  again_on_error m (ok a) = pure a
  again_on_error m (err e) = m
  again_on_error m panic = crash

  -- At most n + 1 calls, until one gives no error.
  unfoldable pub with_retry : {A : Type 0} → ℕ → Exec Err S A → Exec Err S A
  unfolding again_on_error attempt
  with_retry zero m = m
  with_retry (suc n) m = attempt m >>= again_on_error (with_retry n m)

module _ (b : Wallet) {S : Type 0} (node : Node b S) where
  unfoldable pub with_input : Inputs b → ℤ → b.TxIn → Text → Inputs b
  with_input acc value tx_in script = record {
    total = add64 acc.total value;
    inputs = acc.inputs ++ (tx_in ∷ []);
    input_values = acc.input_values ++ (value ∷ []);
    scripts = acc.scripts ++ (script ∷ []);
  }

  -- Whether an output pays to the address.
  unfoldable pub pays_to : Text → ElectTxOut → Exec Err S Bool
  unfolding deref pure
  pays_to from output = do
    output_type ← deref output.scriptpubkey_type
    pure (
        text_eq output_type p2pkh_type
        && elim output.scriptpubkey_address [ none ↦ false | some a ↦ text_eq a from ])

  -- The input that spends an output, unless it is passed over.
  usable_in : Text → Text → ElectUtxo → ElectTx → Exec Err S (Option b.TxIn)
  unfolding pays_to deref pure crash
  usable_in from script utxo tx = do
    vout ← deref utxo.vout
    if leb (length tx.vout % 2 ^ 32) vout then pure none else elim (get_elem? tx.vout vout) [
      | none ↦ crash
      | some output ↦ do
        mine ← pays_to from output
        txid ← deref utxo.txid
        pure (
            if mine
            then elim (node.new_tx_in txid vout script) [ ok i ↦ some i | _ ↦ none ]
            else none)
    ]

  found_tx : Text → Text → ElectUtxo → Result Err ElectTx → Exec Err S (Option b.TxIn)
  unfolding usable_in pure crash
  found_tx from script utxo (ok tx) = usable_in from script utxo tx
  found_tx from script utxo (err e) = pure none
  found_tx from script utxo panic = crash

  unfoldable pub usable : Text → Text → ElectUtxo → ℤ → Exec Err S (Option b.TxIn)
  unfolding found_tx is_valid_value deref pure attempt with_retry
  usable from script utxo value = if not (is_valid_value value) then pure none else do
    txid ← deref utxo.txid
    r ← attempt (with_retry (retry_count - 1) (node.get_transaction_by_hash txid))
    found_tx from script utxo r

  -- An output that is usable is added, and the loop ends when the target is reached.
  unfoldable pub take_or_skip :
      ℤ
      → Text
      → ℤ
      → Inputs b
      → (Inputs b → Exec Err S (Inputs b))
      → Option b.TxIn
      → Exec Err S (Inputs b)
  unfolding with_input pure
  take_or_skip target script value acc rest none = rest acc
  take_or_skip target script value acc rest (some tx_in) =
      let acc' = with_input acc value tx_in script in
      if not (ltb_ℤ acc'.total target) then pure acc' else rest acc'

  -- The loop over the unspent outputs
  unfoldable pub select_loop : Text → ℤ → Text → List ElectUtxo → Inputs b → Exec Err S (Inputs b)
  unfolding take_or_skip usable deref fail
  select_loop from target script [] acc = fail (
      message (
        lit "not enough balance, total "
        ++ (big_string acc.total ++ (lit " < target " ++ big_string target))))
  select_loop from target script (utxo ∷ utxos) acc = do
    v ← deref utxo.value
    let value = wrap64 (pos v)
    o ← usable from script utxo value
    take_or_skip target script value acc (select_loop from target script utxos) o

  abbrev pub no_inputs : Inputs b
  no_inputs = record { total = pos 0; inputs = []; input_values = []; scripts = [] }

  -- selectUtxos
  unfoldable pub select_utxos : Text → ℤ → Exec Err S (Inputs b)
  unfolding select_loop with_retry lift
  select_utxos from target = do
    script ← lift (node.get_pay_to_addr_script from)
    utxos ← with_retry (retry_count - 1) (node.find_utxos from)
    select_loop from target script utxos no_inputs

  -- addPayToAddrOutput
  unfoldable pub add_pay_to_addr_output : List b.TxOut → Text → ℤ → Result Err (List b.TxOut)
  add_pay_to_addr_output outs to amount =
      if not (is_positive amount) then ok outs else elim (node.get_pay_to_addr_script to) [
        | ok script ↦ ok (outs ++ (b.new_tx_out amount script ∷ []))
        | err e ↦ err e
        | panic ↦ panic
      ]

  -- addMemoOutput
  unfoldable pub add_memo_output : List b.TxOut → Text → Result Err (List b.TxOut)
  add_memo_output outs memo = if is_empty memo then ok outs else elim (node.null_data_script memo) [
    | ok script ↦ ok (outs ++ (b.new_tx_out (pos 0) script ∷ []))
    | err e ↦ err e
    | panic ↦ panic
  ]

  -- The outputs for receivers and amounts of the same number.
  unfoldable pub add_outputs : List Text → List ℤ → List b.TxOut → Result Err (List b.TxOut)
  unfolding add_pay_to_addr_output
  add_outputs (to ∷ tos) (amount ∷ amounts) outs = elim (add_pay_to_addr_output outs to amount) [
    | ok outs' ↦ add_outputs tos amounts outs'
    | err e ↦ err e
    | panic ↦ panic
  ]
  add_outputs [] _ outs = ok outs
  add_outputs _ [] outs = ok outs

  unfoldable pub built_outputs : List Text → List ℤ → Text → Result Err (List b.TxOut)
  unfolding add_outputs add_memo_output
  built_outputs receivers amounts memo =
      if not (length receivers == length amounts)
      then err (message (lit "count of receivers and amounts are not equal"))
      else elim (add_outputs receivers amounts []) [
        | ok outs ↦ add_memo_output outs memo
        | err e ↦ err e
        | panic ↦ panic
      ]

  -- BuildTransaction, with as many rounds of NewUnsignedTransaction as the fuel allows
  unfoldable pub build_transaction :
      ℤ → ℕ → Text → List Text → List ℤ → Text → ℤ → S → Option (Result Err (AuthoredTx b) × S)
  unfolding built_outputs select_utxos new_unsigned_transaction lift
  build_transaction min_relay_fee fuel from receivers amounts memo relay_fee_per_kb s =
      elim (built_outputs receivers amounts memo) [
        | err e ↦ some (err e, s)
        | panic ↦ some (panic, s)
        | ok outs ↦
            new_unsigned_transaction b relay_fee_per_kb min_relay_fee false outs (select_utxos from)
              (lift (node.get_pay_to_addr_script from)) fuel s
      ]
