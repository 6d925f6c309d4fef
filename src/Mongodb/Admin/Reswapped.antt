-- ===== src/Mongodb/Admin/Reswapped.antt =====
-- What reswap asks of a swap and what it leaves.
use cross_chain_bridge.Common.{
  ◌≡◌, refl, ap, ◌∙◌, Bool, false, some, [], Text, lit, is_empty, to_lower, text_eq_refl, arith,
  Bool-cases, inl, inr,
}
use cross_chain_bridge.Common.Exec.{ok, is_ok, fail, ◌>>◌}
use cross_chain_bridge.Platform.{Platform, World, call, now}
use cross_chain_bridge.Platform.Database.{IsAtomic}
use cross_chain_bridge.Platform.Frame.{
  IsQuiet, IsQuiet-IsFrame, Within, Within-bind, Within-now, after_ok,
}
use cross_chain_bridge.Mongodb.Status.{
  SwapStatus, match_tx_failed, reswapping, tx_not_swapped, can_reswap, status_eq,
}
use cross_chain_bridge.Mongodb.Documents.{
  MgoSwap, MgoSwapResult, get_swap_key, get_swap_key-to_lower,
}
use cross_chain_bridge.Mongodb.Access.{result_at}
use cross_chain_bridge.Mongodb.Swaps.{find_swap}
use cross_chain_bridge.Mongodb.Swaps.Quiet.{update_swap_status-IsQuiet}
use cross_chain_bridge.Mongodb.Results.{with_result_status, update_swap_result_status}
use cross_chain_bridge.Mongodb.Results.Assignment.{
  quiet_at, find_swap_result_cases, update_result-done,
}
use cross_chain_bridge.Mongodb.Reswap.{check_can_reswap}
use cross_chain_bridge.Mongodb.Reswap.Refusal.{check_can_reswap-ok}
use cross_chain_bridge.Mongodb.Admin.{
  set_status, set_result_status, reswap_result, reswap_found, reswap,
}

-- A result whose payment failed was cleared for another payment.
pub record IsReswapped (p : Platform) (is_swapin : Bool) (key : Text) (w w' : World p)
    : Type 0 where
  pub before : MgoSwapResult
  pub before_at : result_at p is_swapin w key ≡ some before
  pub before_failed : before.status ≡ match_tx_failed
  pub before_paid : is_empty before.swap_tx ≡ false
  pub after : MgoSwapResult
  pub after_at : result_at p is_swapin w' key ≡ some after
  pub after_status : after.status ≡ reswapping
  pub after_tx : after.swap_tx ≡ []
  pub after_old : after.old_swap_txs ≡ []
  pub after_nonce : after.swap_nonce ≡ 0
  pub after_height : after.swap_height ≡ 0
  pub after_value : after.value ≡ before.value

module _ (p : Platform) where
  pub set_status-IsQuiet :
      (is_swapin : Bool) (tx_id pair_id bind : Text) (status : SwapStatus) (memo : Text)
      → Within IsQuiet (set_status p is_swapin tx_id pair_id bind status memo)
  unfolding set_status
  set_status-IsQuiet is_swapin tx_id pair_id bind status memo =
      Within-bind (IsQuiet-IsFrame p) _ _ (Within-now (IsQuiet-IsFrame p))
        λ t. update_swap_status-IsQuiet p is_swapin tx_id pair_id bind status t memo

module _ (p : Platform) (laws : IsAtomic p.results) where
  -- A status that is set without an error is in the result.
  pub set_result_status-ok :
      (is_swapin : Bool) (tx_id pair_id bind : Text) (status : SwapStatus) (memo : Text)
      (w : World p) (d : MgoSwapResult)
      → let key = get_swap_key tx_id pair_id bind in
        let (r, w') = set_result_status p is_swapin tx_id pair_id bind status memo w in
        r ≡ ok tt
        → result_at p is_swapin w key ≡ some d
        → result_at p is_swapin w' key ≡ some (with_result_status status (p.clock w.env).0 memo d)
  unfolding set_result_status update_swap_result_status now call
  set_result_status-ok is_swapin tx_id pair_id bind status memo w d h at =
      let key = get_swap_key tx_id pair_id bind in
      let key' = get_swap_key tx_id (to_lower pair_id) bind in
      let f = with_result_status status (p.clock w.env).0 memo in
      let u = record w { env = (p.clock w.env).1 } in
      let same : key' ≡ key = get_swap_key-to_lower tx_id pair_id bind in
      update_result-done p laws u is_swapin key' f key (ap is_ok h)
      ∙ rw (same, text_eq_refl key, at) refl

  reswap_result-ok :
      (is_swapin : Bool) (tx_id pair_id bind : Text) (d : MgoSwapResult) (w : World p)
      → let key = get_swap_key tx_id pair_id bind in
        result_at p is_swapin w key ≡ some d
        → (reswap_result p is_swapin tx_id pair_id bind d w).0 ≡ ok tt
        → IsReswapped p is_swapin key w (reswap_result p is_swapin tx_id pair_id bind d w).1
  unfolding reswap_result with_result_status status_eq lit
  reswap_result-ok is_swapin tx_id pair_id bind d w at h =
      let key = get_swap_key tx_id pair_id bind in
      let check = check_can_reswap p is_swapin d in
      let clear = set_result_status p is_swapin tx_id pair_id bind reswapping (lit "") in
      let register = set_status p is_swapin tx_id pair_id bind tx_not_swapped (lit "") in
      let (_, checked, e1) = after_ok p check (λ _. clear >> register) w tt h in
      let w1 = (check w).1 in
      let (failed, paid, quiet) = check_can_reswap-ok p is_swapin d w checked in
      let (_, cleared, e2) = after_ok p clear (λ _. register) w1 tt (rw e1 at h) in
      let w2 = (clear w1).1 in
      let changed =
        set_result_status-ok is_swapin tx_id pair_id bind reswapping (lit "") w1 d cleared
          (quiet_at p is_swapin w w1 key quiet ∙ at) in
      let kept =
        quiet_at p is_swapin w2 (register w2).1 key
          ((set_status-IsQuiet p is_swapin tx_id pair_id bind tx_not_swapped (lit "")).at w2) in
      rw (e1, e2)
        (record {
          before = d;
          before_at = at;
          before_failed = failed;
          before_paid = paid;
          after = with_result_status reswapping (p.clock w1.env).0 (lit "") d;
          after_at = kept ∙ changed;
          after_status = refl;
          after_tx = refl;
          after_old = refl;
          after_nonce = refl;
          after_height = refl;
          after_value = refl;
        })

  reswap_found-ok :
      (is_swapin : Bool) (tx_id pair_id bind : Text) (swap : MgoSwap) (w : World p)
      → is_empty bind ≡ false
      → (reswap_found p is_swapin tx_id pair_id bind swap w).0 ≡ ok tt
      → IsReswapped p is_swapin
          (get_swap_key tx_id pair_id bind)
          w
          (reswap_found p is_swapin tx_id pair_id bind swap w).1
  unfolding reswap_found fail
  reswap_found-ok is_swapin tx_id pair_id bind swap w b h =
      elim (Bool-cases (can_reswap swap.status)) [
        | inr never ↦ absurd (ground arith)
        | inl can ↦ elim (find_swap_result_cases p laws w is_swapin tx_id pair_id bind b) [
          | inl (e, q) ↦ absurd (ground arith)
          | inr (d, q, at) ↦
              rw (can, q) (reswap_result-ok is_swapin tx_id pair_id bind d w at (rw (can, q) at h))
        ]
      ]

  -- A reswap that reports no error found a result whose payment failed, and leaves it with the
  -- status Reswapping and without the hash, the nonce, the height and the earlier hashes of that
  -- payment, its value unchanged. The bind address is not empty and the writes are atomic.
  pub reswap-ok :
      (is_swapin : Bool) (tx_id pair_id bind : Text) (w : World p)
      → is_empty bind ≡ false
      → (reswap p is_swapin tx_id pair_id bind w).0 ≡ ok tt
      → IsReswapped p is_swapin
          (get_swap_key tx_id pair_id bind)
          w
          (reswap p is_swapin tx_id pair_id bind w).1
  unfolding reswap find_swap
  reswap-ok is_swapin tx_id pair_id bind w b h =
      let (swap, q, e) =
        after_ok p (find_swap p is_swapin tx_id pair_id bind)
          (reswap_found p is_swapin tx_id pair_id bind) w tt h in
      rw e (reswap_found-ok is_swapin tx_id pair_id bind swap w b (rw e at h))
