-- ===== src/Worker/Swap/Finish.antt =====
-- What doSwap does after the record: the result keeps its transaction.
use cross_chain_bridge.Common.{◌≡◌, Bool, false, Option, none, some, Text, lit, is_empty, text_eq}
use cross_chain_bridge.Tokens.Errors.{Err}
use cross_chain_bridge.Tokens.Types.{BuildTxArgs, is_swapin_type}
use cross_chain_bridge.Platform.{Platform}
use cross_chain_bridge.Platform.Database.{IsAtomic}
use cross_chain_bridge.Platform.Frame.{
  IsFrame, Within, Within-bind, Within-lift, Within-quiet, Within-attempt, Within-if, Within-now,
}
use cross_chain_bridge.Mongodb.Status.{tx_processed}
use cross_chain_bridge.Mongodb.Documents.{MgoSwapResult}
use cross_chain_bridge.Mongodb.Swaps.Quiet.{update_swap_status-IsQuiet}
use cross_chain_bridge.Mongodb.Results.{update_swap_result_old_txs}
use cross_chain_bridge.Mongodb.Results.History.{update_swap_result_old_txs-KeptAt}
use cross_chain_bridge.Worker.Send.Kept.{
  StillKept, StillKept-IsFrame, send_signed_transaction-StillKept,
}
use cross_chain_bridge.Worker.Swap.{error_result, after_send, finish_swap}

module _ (p : Platform) (laws : IsAtomic p.results) (dir : Bool) (key : Text)
    (d : MgoSwapResult) where
  K : IsFrame {p = p} (StillKept p dir key d)
  K = StillKept-IsFrame p dir key d

  after_send-StillKept :
      (args : BuildTxArgs) (hash value : Text) (r : Text × Option Err)
      → is_empty args.bind ≡ false
      → Within (StillKept p dir key d) (after_send p args hash value r)
  unfolding after_send
  after_send-StillKept args hash value (tx_hash, some e) b = Within-lift K _
  after_send-StillKept args hash value (tx_hash, none) b =
      Within-if K (text_eq tx_hash hash) _ _ (Within-lift K (error_result p none)) (
        Within-bind K _ _
          (Within-attempt K
            (update_swap_result_old_txs p (is_swapin_type args.swap_type) args.swap_id args.pair_id
              args.bind tx_hash value)
            (record {
              at = λ w.
                  update_swap_result_old_txs-KeptAt p laws w (is_swapin_type args.swap_type)
                    args.swap_id args.pair_id args.bind tx_hash value dir key d b;
            }))
          λ r. Within-lift K (error_result p none))

  pub finish_swap-StillKept :
      (r : p.SignedTx × Text × Text × BuildTxArgs)
      → is_empty (r.3).bind ≡ false
      → Within (StillKept p dir key d) (finish_swap p r)
  unfolding finish_swap
  finish_swap-StillKept (signed_tx, hash, value, args) b = Within-bind K _ _ (Within-now K) λ t.
      Within-bind K _ _
        (Within-quiet K _ (
          update_swap_status-IsQuiet p (is_swapin_type args.swap_type) args.swap_id args.pair_id
            args.bind tx_processed t (lit "")))
        λ u.
          Within-bind K _ _ (send_signed_transaction-StillKept p dir key d signed_tx args)
            λ s. after_send-StillKept args hash value s b
