-- ===== src/Mongodb/Admin/Manual.antt =====
-- ManualManageSwap on a swap that was failed by hand.
use cross_chain_bridge.Common.{
  ◌≡◌, inl, inr, refl, sym, ◌∙◌, Bool, true, false, some, Text, is_empty, arith,
}
use cross_chain_bridge.Platform.{Platform, World, call, now}
use cross_chain_bridge.Platform.Database.{IsAtomic}
use cross_chain_bridge.Mongodb.Status.{manual_make_fail, status_eq, can_retry, can_reverify}
use cross_chain_bridge.Mongodb.Documents.{MgoSwap, get_swap_key}
use cross_chain_bridge.Mongodb.Access.{swap_at}
use cross_chain_bridge.Mongodb.Swaps.Register.{find_swap_cases, update_swap_status_restart}
use cross_chain_bridge.Mongodb.Admin.{set_status, manual_manage_swap}

module _ (p : Platform) (laws : IsAtomic p.swaps) where
  -- A pass of a swap that was failed by hand leaves the swap as it is in the register, whatever the
  -- call returns: updateSwapStatus skips the update to TxNotStable for that status. The bind address
  -- is not empty and the writes are atomic.
  pub manual_manage_swap_pass :
      (is_swapin : Bool) (tx_id pair_id bind memo : Text) (w : World p) (swap : MgoSwap)
      → is_empty bind ≡ false
      → swap_at p is_swapin w (get_swap_key tx_id pair_id bind) ≡ some swap
      → swap.status ≡ manual_make_fail
      → swap_at p is_swapin
          (manual_manage_swap p is_swapin true tx_id pair_id bind memo w).1
          (get_swap_key tx_id pair_id bind)
        ≡ some swap
  unfolding manual_manage_swap set_status now call status_eq can_reverify can_retry
  manual_manage_swap_pass is_swapin tx_id pair_id bind memo w swap b at failed =
      elim (find_swap_cases p laws w is_swapin tx_id pair_id bind b) [
        | inl (e, q) ↦ rw q at
        | inr (d, q, there) ↦
            let same : some d ≡ some swap = sym there ∙ at in
            let status : d.status ≡ manual_make_fail = ground arith in
            rw (q, status)
              (update_swap_status_restart p laws (record w { env = (p.clock w.env).1 }) is_swapin
                tx_id pair_id bind (p.clock w.env).0 memo is_swapin
                (get_swap_key tx_id pair_id bind) swap b (rw failed refl) at)
      ]
