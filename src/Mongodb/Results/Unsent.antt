-- ===== src/Mongodb/Results/Unsent.antt =====
-- The calls on the swap results send nothing, and the searches change nothing.
use cross_chain_bridge.Common.{
  ℕ, Bool, true, false, Text, to_lower, is_empty, equal_fold, ◌||◌, arith,
}
use cross_chain_bridge.Platform.{Platform}
use cross_chain_bridge.Platform.Frame.{
  IsUnsent, IsUnsent-IsFrame, IsQuiet, IsQuiet-refl, Within, IsFrame, Within-bind, Within-if,
  Within-quiet, Within-lift, Within-pure, Within-now,
}
use cross_chain_bridge.Mongodb.Status
use cross_chain_bridge.Mongodb.Documents.{MgoSwapResult, SwapResultUpdateItems, get_swap_key}
use cross_chain_bridge.Mongodb.Results.{
  find_swap_result, update_result, check_unassigned, update_swap_result_status, update_swap_result,
  assigns, update_swap_result_old_txs, contains_fold, with_old_tx,
}

module _ (p : Platform) where
  U : IsFrame {p = p} IsUnsent
  U = IsUnsent-IsFrame p

  pub find_swap_result-IsQuiet :
      (is_swapin : Bool) (tx_id pair_id bind : Text)
      → Within IsQuiet (find_swap_result p is_swapin tx_id pair_id bind)
  unfolding find_swap_result
  find_swap_result-IsQuiet is_swapin tx_id pair_id bind = record { at = IsQuiet-refl }

  update_result-IsUnsent :
      (is_swapin : Bool) (key : Text) (f : MgoSwapResult → MgoSwapResult)
      → Within IsUnsent (update_result p is_swapin key f)
  unfolding update_result
  update_result-IsUnsent true key f = record { at = λ w. ground arith }
  update_result-IsUnsent false key f = record { at = λ w. ground arith }

  pub update_swap_result_status-IsUnsent :
      (is_swapin : Bool) (tx_id pair_id bind : Text) (status : Status.SwapStatus) (t : ℕ)
      (memo : Text)
      → Within IsUnsent (update_swap_result_status p is_swapin tx_id pair_id bind status t memo)
  unfolding update_swap_result_status
  update_swap_result_status-IsUnsent is_swapin tx_id pair_id bind status t memo =
      update_result-IsUnsent is_swapin _ _

  pub update_swap_result-IsUnsent :
      (is_swapin : Bool) (tx_id pair_id bind : Text) (items : SwapResultUpdateItems)
      → Within IsUnsent (update_swap_result p is_swapin tx_id pair_id bind items)
  unfolding update_swap_result
  update_swap_result-IsUnsent is_swapin tx_id pair_id bind items =
      Within-if U (assigns items) _ _
        (Within-bind U _ _
          (Within-quiet U _ (find_swap_result-IsQuiet is_swapin tx_id (to_lower pair_id) bind))
          λ d.
            Within-bind U _ _ (Within-lift U (check_unassigned p d))
              λ u. update_result-IsUnsent is_swapin _ _)
        (update_result-IsUnsent is_swapin _ _)

  pub update_swap_result_old_txs-IsUnsent :
      (is_swapin : Bool) (tx_id pair_id bind tx value : Text)
      → Within IsUnsent (update_swap_result_old_txs p is_swapin tx_id pair_id bind tx value)
  unfolding update_swap_result_old_txs
  update_swap_result_old_txs-IsUnsent is_swapin tx_id pair_id bind tx value =
      Within-if U (is_empty tx) _ _ (Within-pure U tt) (
        Within-bind U _ _ (Within-quiet U _ (find_swap_result-IsQuiet is_swapin tx_id pair_id bind))
          λ d.
            Within-if U (equal_fold tx d.swap_tx || contains_fold tx d.old_swap_txs) _ _
              (Within-pure U tt)
              (Within-bind U _ _ (Within-now U) λ t.
                update_result-IsUnsent is_swapin (get_swap_key tx_id pair_id bind)
                  (with_old_tx d tx value t)))
