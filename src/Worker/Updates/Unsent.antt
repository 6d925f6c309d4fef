-- ===== src/Worker/Updates/Unsent.antt =====
-- The writes of the jobs to the results send nothing, and the verification changes nothing.
use cross_chain_bridge.Common.{Bool, true, false, Text}
use cross_chain_bridge.Common.Exec.{gets}
use cross_chain_bridge.Tokens.Types.{
  SwapType, no_swap_type, swapin_type, swapout_type, SwapTxType, swapin_tx, swapout_tx,
  p2sh_swapin_tx,
}
use cross_chain_bridge.Platform.{Platform}
use cross_chain_bridge.Platform.Frame.{
  IsUnsent, IsUnsent-IsFrame, IsQuiet, IsQuiet-IsFrame, Within, IsFrame, Within-bind, Within-if,
  Within-pure, Within-fail, Within-gets, Within-now, Within-call,
}
use cross_chain_bridge.Mongodb.Documents.{SwapResultUpdateItems}
use cross_chain_bridge.Worker.Updates.{
  MatchTx, match_items, update_by_type, update_swap_result, verify_swap_transaction,
  checked_swap_info,
}
use cross_chain_bridge.Mongodb.Results.Unsent.{update_swap_result-IsUnsent as store_update-IsUnsent}

module _ (p : Platform) where
  Q : IsFrame {p = p} IsQuiet
  Q = IsQuiet-IsFrame p

  U : IsFrame {p = p} IsUnsent
  U = IsUnsent-IsFrame p

  pub verify_swap_transaction-IsQuiet :
      (is_src : Bool) (pair_id tx_id bind : Text) (tx_type : SwapTxType)
      → Within IsQuiet (verify_swap_transaction p is_src pair_id tx_id bind tx_type)
  unfolding verify_swap_transaction
  verify_swap_transaction-IsQuiet is_src pair_id tx_id bind p2sh_swapin_tx =
      Within-bind Q (gets λ w. w.config) _ (Within-gets Q _) λ cfg.
        Within-if Q cfg.has_btc_bridge _ _
          (Within-bind Q _ _ (Within-call Q (p.verify_p2sh_transaction pair_id tx_id bind false))
            λ r. Within-pure Q (checked_swap_info bind r))
          (Within-pure Q _)
  verify_swap_transaction-IsQuiet is_src pair_id tx_id bind swapin_tx =
      Within-bind Q _ _ (Within-call Q (p.verify_transaction is_src pair_id tx_id false))
        λ r. Within-pure Q (checked_swap_info bind r)
  verify_swap_transaction-IsQuiet is_src pair_id tx_id bind swapout_tx =
      Within-bind Q _ _ (Within-call Q (p.verify_transaction is_src pair_id tx_id false))
        λ r. Within-pure Q (checked_swap_info bind r)

  pub update_swap_result-IsUnsent :
      (tx_id pair_id bind : Text) (mtx : MatchTx)
      → Within IsUnsent (update_swap_result p tx_id pair_id bind mtx)
  unfolding update_swap_result update_by_type
  update_swap_result-IsUnsent tx_id pair_id bind mtx =
      Within-bind U _ _ (Within-now U) λ t. by_type mtx.swap_type (match_items mtx t)
    where
      by_type :
          (s : SwapType) (items : SwapResultUpdateItems)
          → Within IsUnsent (update_by_type p s tx_id pair_id bind items)
      by_type swapin_type items = store_update-IsUnsent p true tx_id pair_id bind items
      by_type swapout_type items = store_update-IsUnsent p false tx_id pair_id bind items
      by_type no_swap_type items = Within-fail U _ _
