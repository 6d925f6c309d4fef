-- ===== src/Worker/Swap/Resends.antt =====
-- How often doSwap hands a transaction to SendTransaction.
use cross_chain_bridge.Common.{
  ◌≡◌, ℕ, inl, refl, ◌∙◌, false, Option, none, some, Text, lit, is_empty, text_eq,
}
use cross_chain_bridge.Common.Exec.{Result, ok, err, panic, attempt, crash, ◌>>=◌, ◌>>◌}
use cross_chain_bridge.Tokens.Errors.{Err}
use cross_chain_bridge.Tokens.Types.{BuildTxArgs, is_swapin_type}
use cross_chain_bridge.Platform.{Platform, M, World, now}
use cross_chain_bridge.Platform.Database.{IsAtomic}
use cross_chain_bridge.Platform.Frame.{
  IsUnsent, IsUnsent-IsFrame, IsFrame, Within, Within-bind, Within-if, Within-fail, Within-lift,
  Within-attempt, Within-quiet, Within-now,
}
use cross_chain_bridge.Mongodb.Status.{tx_processed}
use cross_chain_bridge.Mongodb.Swaps.{update_swap_status}
use cross_chain_bridge.Mongodb.Swaps.Quiet.{update_swap_status-IsQuiet}
use cross_chain_bridge.Mongodb.Results.{update_swap_result_old_txs}
use cross_chain_bridge.Mongodb.Results.Unsent.{update_swap_result_old_txs-IsUnsent}
use cross_chain_bridge.Worker.Cache.{get_swap_cache_key, check_and_update_cache}
use cross_chain_bridge.Worker.Send.{send_signed_transaction}
use cross_chain_bridge.Worker.Send.Sends.{Sends, Sends-before, Sends-after, Sends-moved}
use cross_chain_bridge.Worker.Send.Count.{send_signed_transaction-Sends}
use cross_chain_bridge.Worker.Swap.{
  prepare_swap, error_result, after_send, finish_swap, after_prepare, do_swap,
}
use cross_chain_bridge.Worker.Swap.Record.{prepare_swap-IsUnsent}
use cross_chain_bridge.Worker.Swap.Signed.{SignsWithHash, IsPrepared, prepare_swap-ok}
use cross_chain_bridge.Worker.Swap.Once.{
  delete_cached_swap-IsUnsent, check_and_update_cache-IsQuiet,
}

module _ (p : Platform) where
  U : IsFrame {p = p} IsUnsent
  U = IsUnsent-IsFrame p

  after_send-IsUnsent :
      (args : BuildTxArgs) (hash value : Text) (r : Text × Option Err)
      → Within IsUnsent (after_send p args hash value r)
  unfolding after_send
  after_send-IsUnsent args hash value (tx_hash, some e) = Within-lift U (error_result p (some e))
  after_send-IsUnsent args hash value (tx_hash, none) =
      Within-if U (text_eq tx_hash hash) _ _ (Within-lift U (error_result p none)) (
        Within-bind U _ _
          (Within-attempt U
            (update_swap_result_old_txs p (is_swapin_type args.swap_type) args.swap_id args.pair_id
              args.bind tx_hash value)
            (update_swap_result_old_txs-IsUnsent p (is_swapin_type args.swap_type) args.swap_id
              args.pair_id args.bind tx_hash value))
          λ r. Within-lift U (error_result p none))

  finish_swap-Sends :
      (r : p.SignedTx × Text × Text × BuildTxArgs) (w : World p)
      → Sends p r.3 w (finish_swap p r w).1
  unfolding finish_swap
  finish_swap-Sends (signed_tx, hash, value, args) w =
      let is_swapin = is_swapin_type args.swap_type in
      let send_it : M p (Unit {0}) =
        send_signed_transaction p signed_tx args >>= after_send p args hash value in
      let register : ℕ → M p (Unit {0}) = λ t.
        update_swap_status p is_swapin args.swap_id args.pair_id args.bind tx_processed t
          (lit "") in
      Sends-before p args (now p) (λ t. register t >> send_it) w (Within-now U)
        λ t v.
          Sends-before p args (register t) (λ u. send_it) v
            (Within-quiet U _ (
              update_swap_status-IsQuiet p is_swapin args.swap_id args.pair_id args.bind
                tx_processed t (lit "")))
            λ u x.
              Sends-after p args (send_signed_transaction p signed_tx args)
                (after_send p args hash value) x (send_signed_transaction-Sends p args signed_tx x)
                λ s. after_send-IsUnsent args hash value s

module _ (p : Platform) (laws : IsAtomic p.results) (signs : SignsWithHash p) where
  after_prepare-Sends :
      (args : BuildTxArgs) (key : Text) (w : World p)
      → is_empty args.bind ≡ false
      → Sends p args w ((attempt (prepare_swap p args) >>= after_prepare p key) w).1
  unfolding attempt after_prepare crash IsPrepared
  after_prepare-Sends args key w b = go (prepare_swap p args w).0 refl
    where
      unsent : IsUnsent w (prepare_swap p args w).1
      unsent = (prepare_swap-IsUnsent p args).at w

      go :
          (r : Result Err (p.SignedTx × Text × Text × BuildTxArgs))
          → (prepare_swap p args w).0 ≡ r
          → Sends p args w ((attempt (prepare_swap p args) >>= after_prepare p key) w).1
      go (ok r) q =
          let (info, _, _) = prepare_swap-ok p laws signs args w r b q in
          rw q (
            Sends-moved p args r.3 w (prepare_swap p args w).1
              (finish_swap p r (prepare_swap p args w).1).1 unsent info
              (finish_swap-Sends p r (prepare_swap p args w).1))
      go (err e) q =
          let after =
            (Within-bind (U p) _ _ (delete_cached_swap-IsUnsent p key)
                (λ u. Within-fail (U p) (Unit {0}) e)).at
              (prepare_swap p args w).1 in
          inl (rw q (after.sent ∙ unsent.sent, after.send_loops ∙ unsent.send_loops))
      go panic q = inl (rw q (unsent.sent, unsent.send_loops))

  -- One call of doSwap itself hands at most one signed transaction to SendTransaction, at most three
  -- times, for the swap of its arguments; and it starts at most one goroutine of
  -- sendTxLoopUntilSuccess, which hands only the same transaction, for the same swap, to
  -- SendTransaction: in n rounds at most n times. The bind address is not empty; the writes are atomic; and a
  -- signed transaction comes with its hash.
  pub do_swap-Sends :
      (args : BuildTxArgs) (w : World p)
      → is_empty args.bind ≡ false
      → Sends p args w (do_swap p args w).1
  unfolding do_swap
  do_swap-Sends args w b =
      let key = get_swap_cache_key (is_swapin_type args.swap_type) args.swap_id args.bind in
      Sends-before p args (check_and_update_cache p key) _ w
        (Within-quiet (U p) _ (check_and_update_cache-IsQuiet p key))
        λ u v. after_prepare-Sends args key v b
