-- ===== src/Worker/Send.antt =====
-- worker/common.go: sendSignedTransaction and the loop that sends a transaction again until it is on
-- the chain; and worker/swap.go: reverifySwap.
pub mod Unsent
pub mod Kept
pub mod Sends
pub mod Count
use cross_chain_bridge.Common.{
  ℕ, zero, suc, ◌+◌, ◌%◌, ◌^◌, ◌==◌, Bool, true, false, not, Option, none, some, ◌∷◌, Text, lit,
  is_empty, ltb, if◌then◌else◌,
}
use cross_chain_bridge.Common.Exec.{
  Result, ok, err, panic, ◌>>=◌, ◌>>◌, pure, fail, attempt, gets, modify,
}
use cross_chain_bridge.Tokens.Errors.{
  Err, errors_is, error_text, tx_not_stable as err_tx_not_stable, rpc_query_error,
}
use cross_chain_bridge.Tokens.Types.{
  BuildTxArgs, get_tx_nonce, is_swapin_type, is_nonce_setter, TxStatus,
}
use cross_chain_bridge.Platform.{Platform, World, M, Sent, call, call_result, now}
use cross_chain_bridge.Mongodb.Status.{tx_not_stable}
use cross_chain_bridge.Mongodb.Swaps.{update_swap_status}
use cross_chain_bridge.Mongodb.Results.{update_swap_result_status}
use cross_chain_bridge.Mongodb.Histories.{add_swap_history_item}
use cross_chain_bridge.Worker.Cache.{add_swap_history}
use cross_chain_bridge.Worker.Updates.{update_swap_result, verify_swap_transaction}

abbrev pub u64_mod : ℕ
u64_mod = 2 ^ 64

module _ (p : Platform) where
  -- A call of SendTransaction, which is kept in `sent`.
  unfoldable pub send : BuildTxArgs → p.SignedTx → M p (Text × Option Err)
  unfolding call
  send args signed_tx w =
      let is_swapin = is_swapin_type args.swap_type in
      let sending : Sent p.SignedTx = record {
        is_swapin = is_swapin;
        tx_id = args.swap_id;
        bind = args.bind;
        signed_tx = signed_tx;
      } in
      call p (p.send_transaction (not is_swapin) signed_tx) (record w { sent = sending ∷ w.sent })

  -- Up to `n` calls, until one has no error; the outcome of the last one made.
  send_retry : ℕ → BuildTxArgs → p.SignedTx → Text × Option Err → M p (Text × Option Err)
  unfolding send pure
  send_retry zero args signed_tx last = pure last
  send_retry (suc n) args signed_tx last = do
    r ← send args signed_tx
    elim r.1 [ none ↦ pure r | some e ↦ send_retry n args signed_tx r ]

  -- What is noted of a transaction with a hash.
  note_history : BuildTxArgs → Text → M p (Unit {0})
  unfolding attempt pure
  note_history args tx_hash =
      let is_swapin = is_swapin_type args.swap_type in
      if is_empty tx_hash then pure tt else do
        add_swap_history p is_swapin args.swap_id args.bind
        attempt (add_swap_history_item p is_swapin args.swap_id args.bind tx_hash)
        pure tt

  -- The nonce is increased for the next use, at a bridge that sets nonces.
  next_nonce : BuildTxArgs → M p (Unit {0})
  unfolding modify
  next_nonce args =
      let is_src = not (is_swapin_type args.swap_type) in
      modify λ w.
        if is_nonce_setter w.config is_src
        then record w {
          env = p.set_nonce is_src args.pair_id ((get_tx_nonce args + 1) % u64_mod) w.env;
        }
        else w

  -- `go sendTxLoopUntilSuccess(...)`: a goroutine that runs `send_tx_loop` below is started.
  start_send_loop : Text → p.SignedTx → BuildTxArgs → M p (Unit {0})
  unfolding modify
  start_send_loop tx_hash signed_tx args = modify λ w. record w {
    send_loops = record { tx_hash = tx_hash; signed_tx = signed_tx; args = args } ∷ w.send_loops;
  }

  -- After a send without an error.
  after_success : p.SignedTx → BuildTxArgs → Text × Option Err → M p (Text × Option Err)
  unfolding next_nonce start_send_loop pure
  after_success signed_tx args r = do next_nonce args; start_send_loop r.0 signed_tx args; pure r

  -- sendSignedTransaction
  unfoldable pub send_signed_transaction : p.SignedTx → BuildTxArgs → M p (Text × Option Err)
  unfolding send_retry note_history after_success pure
  send_signed_transaction signed_tx args = do
    r ← send_retry 3 args signed_tx (lit "", none)
    note_history args r.0
    elim r.1 [ none ↦ after_success signed_tx args r | some e ↦ pure r ]

  -- A round of sendTxLoopUntilSuccess with the status: once the transaction is in a block its height
  -- is written, and until then it is sent again.
  look_again : Text → BuildTxArgs → M p (Unit {0}) → Result Err TxStatus → M p (Unit {0})
  unfolding attempt pure
  look_again tx_hash args again (ok s) =
      if ltb 0 s.block_height
      then (do
        attempt (
            update_swap_result p args.swap_id args.pair_id args.bind (record {
              swap_tx = tx_hash;
              swap_height = s.block_height;
              swap_time = s.block_time;
              swap_value = lit "";
              swap_type = args.swap_type;
              swap_nonce = 0;
            }))
        pure tt)
      else again
  look_again tx_hash args again _ = again

  -- sendTxLoopUntilSuccess, with the rounds that are left.
  unfoldable pub send_tx_loop : ℕ → Text → p.SignedTx → BuildTxArgs → M p (Unit {0})
  unfolding send look_again attempt call_result pure
  send_tx_loop zero tx_hash signed_tx args = pure tt
  send_tx_loop (suc n) tx_hash signed_tx args = do
    r ←
        attempt
          (call_result p (p.get_transaction_status (not (is_swapin_type args.swap_type)) tx_hash))
    look_again tx_hash args (do s ← send args signed_tx; send_tx_loop n s.0 signed_tx args) r

  after_reverify : BuildTxArgs → Option Err → M p (Unit {0})
  unfolding pure attempt now
  after_reverify args none = pure tt
  after_reverify args (some e) =
      let is_swapin = is_swapin_type args.swap_type in
      if errors_is e err_tx_not_stable
      then pure tt
      else if errors_is e rpc_query_error
      then pure tt
      else do
        t ← now p
        attempt (
            update_swap_status p is_swapin args.swap_id args.pair_id args.bind tx_not_stable t
              (lit ""))
        t' ← now p
        attempt (
            update_swap_result_status p is_swapin args.swap_id args.pair_id args.bind tx_not_stable
              t' (error_text e))
        pure tt

  -- reverifySwap
  unfoldable pub reverify_swap : BuildTxArgs → M p (Unit {0})
  unfolding after_reverify
  reverify_swap args = do
    r ←
        verify_swap_transaction p (is_swapin_type args.swap_type) args.pair_id args.swap_id
          args.bind args.tx_type
    after_reverify args r.1
