-- ===== src/Mongodb/Swaps/Quiet.antt =====
-- The calls on the register leave the swap results and the transactions sent alone.
use cross_chain_bridge.Common.{ℕ, Bool, true, false, Text, to_lower, arith}
use cross_chain_bridge.Common.Exec.{Result, ok, err, panic}
use cross_chain_bridge.Tokens.Errors.{Err}
use cross_chain_bridge.Platform.{Platform}
use cross_chain_bridge.Platform.Frame.{IsQuiet, IsQuiet-IsFrame, IsQuiet-refl, Within}
use cross_chain_bridge.Platform.Frame
use cross_chain_bridge.Mongodb.Status.{SwapStatus}
use cross_chain_bridge.Mongodb.Documents.{MgoSwap}
use cross_chain_bridge.Mongodb.Swaps.{find_swap, update_swap, may_restart, update_swap_status}

module _ (p : Platform) where
  update_swap-IsQuiet :
      (is_swapin : Bool) (key : Text) (f : MgoSwap → MgoSwap)
      → Within IsQuiet (update_swap p is_swapin key f)
  unfolding update_swap
  update_swap-IsQuiet true key f = record { at = λ w. ground arith }
  update_swap-IsQuiet false key f = record { at = λ w. ground arith }

  pub find_swap-IsQuiet :
      (is_swapin : Bool) (tx_id pair_id bind : Text)
      → Within IsQuiet (find_swap p is_swapin tx_id pair_id bind)
  unfolding find_swap
  find_swap-IsQuiet is_swapin tx_id pair_id bind = record { at = IsQuiet-refl }

  may_restart-IsQuiet : (r : Result Err MgoSwap) → Within IsQuiet (may_restart p r)
  unfolding may_restart
  may_restart-IsQuiet (ok swap) = record { at = IsQuiet-refl }
  may_restart-IsQuiet (err e) = record { at = IsQuiet-refl }
  may_restart-IsQuiet panic = record { at = IsQuiet-refl }

  pub update_swap_status-IsQuiet :
      (is_swapin : Bool) (tx_id pair_id bind : Text) (status : SwapStatus) (timestamp : ℕ)
      (memo : Text)
      → Within IsQuiet (update_swap_status p is_swapin tx_id pair_id bind status timestamp memo)
  unfolding update_swap_status
  update_swap_status-IsQuiet is_swapin tx_id pair_id bind status timestamp memo =
      Frame.Within-if F _ _ _
        (Frame.Within-bind F _ _
          (Frame.Within-attempt F _ (find_swap-IsQuiet is_swapin tx_id (to_lower pair_id) bind))
          λ swap. Frame.Within-bind F _ _ (may_restart-IsQuiet swap) λ restart.
            Frame.Within-if F restart _ _ (update_swap-IsQuiet is_swapin _ _)
              (Frame.Within-pure F tt))
        (update_swap-IsQuiet is_swapin _ _)
    where
      F : Frame.IsFrame {p = p} IsQuiet
      F = IsQuiet-IsFrame p
