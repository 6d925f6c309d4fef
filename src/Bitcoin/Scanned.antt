-- ===== src/Bitcoin/Scanned.antt =====
-- tokens/btc/processtx.go: the deposits that the scanner finds in a transaction, to the deposit address
-- or to the p2sh addresses of bind addresses.
use cross_chain_bridge.Common.{
  Bool, false, ◌&&◌, Option, none, some, List, [], ◌∷◌, ◌++◌, Text, lit, is_empty, text_eq,
  contains, if◌then◌else◌,
}
use cross_chain_bridge.Common.Exec.{Result, ok, err, panic, Exec, pure, fail, crash, attempt, ◌>>=◌}
use cross_chain_bridge.Tokens.Errors.{Err, sentinel, message, tx_with_wrong_receiver}
use cross_chain_bridge.Tokens.Types.{get_token_config}
use cross_chain_bridge.Bitcoin.Electrs.{
  ElectTx, ElectTxOut, deref, p2pkh_type, p2sh_type, op_return_type,
}
use cross_chain_bridge.Bitcoin.Received.{get_tx_from}
use cross_chain_bridge.Bitcoin.Memo.{get_bind_address_from_memo_script}
use cross_chain_bridge.Bitcoin.Deposit.{Chain}

-- What the scanner registers: a deposit by memo, or one to the p2sh address of a bind address.
pub data Found : Type 0 where
  by_memo : Text → Found
  by_p2sh : Text → Text → Found

unfoldable pub all_by_p2sh : Text → List Text → List Found
all_by_p2sh txid [] = []
all_by_p2sh txid (bind ∷ binds) = by_p2sh txid bind ∷ all_by_p2sh txid binds

backwards : List ElectTxOut → List ElectTxOut → List ElectTxOut
backwards [] done = done
backwards (output ∷ outputs) done = backwards outputs (output ∷ done)

module _ {S : Type 0} (b : Chain S) where
  -- The first memo script of outputs in reverse.
  memo_in : List ElectTxOut → Exec Err S Text
  unfolding deref pure
  memo_in [] = pure (lit "")
  memo_in (output ∷ outputs) = do
    t ← deref output.scriptpubkey_type
    if text_eq t op_return_type then deref output.scriptpubkey_asm else memo_in outputs

  -- isP2pkhSwapinPrior
  unfoldable pub is_p2pkh_swapin_prior : ElectTx → Text → Exec Err S Bool
  unfolding memo_in backwards get_tx_from pure
  is_p2pkh_swapin_prior tx deposit =
      if text_eq (get_tx_from tx.vin deposit) deposit then pure false else do
        script ← memo_in (backwards tx.vout [])
        pure (elim (get_bind_address_from_memo_script script) [
          | none ↦ false
          | some bind ↦ b.is_valid_address bind
        ])

  -- A p2sh address that was not seen before in the transaction.
  note_bind : Text → List Text → Exec Err S (List Text)
  unfolding pure
  note_bind address binds = do
    bind ← b.get_p2sh_bind_address address
    pure (if is_empty bind then binds else binds ++ (bind ∷ []))

  -- The loop over the outputs, with the p2sh addresses seen and the bind addresses found; `none` is the
  -- return for a deposit by memo.
  unfoldable pub swapin_loop :
      Bool → Text → List ElectTxOut → List Text → List Text → Exec Err S (Option (List Text))
  unfolding note_bind deref pure
  swapin_loop prior deposit [] seen binds = pure (some binds)
  swapin_loop prior deposit (output ∷ outputs) seen binds = elim output.scriptpubkey_address [
    | none ↦ swapin_loop prior deposit outputs seen binds
    | some address ↦ do
      t ← deref output.scriptpubkey_type
      if text_eq t p2sh_type
          then (if contains address seen then swapin_loop prior deposit outputs seen binds else do
            binds' ← note_bind address binds
            swapin_loop prior deposit outputs (address ∷ seen) binds')
          else if text_eq t p2pkh_type && prior && text_eq address deposit
          then pure none
          else swapin_loop prior deposit outputs seen binds
  ]

  found_or_error : Option (List Text) → Exec Err S (List Text)
  unfolding pure fail
  found_or_error none = pure []
  found_or_error (some []) = fail (sentinel tx_with_wrong_receiver)
  found_or_error (some (bind ∷ binds)) = pure (bind ∷ binds)

  -- CheckSwapinTxType, of the one pair of the bridge
  unfoldable pub check_swapin_tx_type : Text → ElectTx → Exec Err S (List Text)
  unfolding is_p2pkh_swapin_prior swapin_loop found_or_error fail
  check_swapin_tx_type pair_id tx = elim (get_token_config b.config pair_id b.is_src) [
    | none ↦ fail (message (lit "swap pair '" ++ (pair_id ++ lit "' is not configed")))
    | some token ↦ do
      prior ← is_p2pkh_swapin_prior tx token.deposit_address
      o ← swapin_loop prior token.deposit_address tx.vout [] []
      found_or_error o
  ]

  registered : ElectTx → Result Err (List Text) → Exec Err S (List Found)
  unfolding all_by_p2sh deref pure crash
  registered tx (err e) = pure []
  registered tx panic = crash
  registered tx (ok []) = do txid ← deref tx.txid; pure (by_memo txid ∷ [])
  registered tx (ok (bind ∷ binds)) = do
    txid ← deref tx.txid
    pure (all_by_p2sh txid (bind ∷ binds))

  -- processTransactionImpl: what it hands to processSwapin and processP2shSwapin, in order
  unfoldable pub process_transaction_impl : Text → ElectTx → Exec Err S (List Found)
  unfolding check_swapin_tx_type registered attempt
  process_transaction_impl pair_id tx = attempt (check_swapin_tx_type pair_id tx) >>= registered tx
