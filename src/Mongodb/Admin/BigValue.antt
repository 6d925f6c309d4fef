-- ===== src/Mongodb/Admin/BigValue.antt =====
-- What passBigValue asks of a swap and what it leaves.
use cross_chain_bridge.Common.{
  ◌≡◌, ◌≢◌, ◌⊎◌, refl, sym, ap, ◌∙◌, Bool, true, false, not, ◌&&◌, some, Text, lit, is_empty, arith,
  Bool-cases, inl, inr,
}
use cross_chain_bridge.Common.Exec.{ok, is_ok, fail, ◌>>◌}
use cross_chain_bridge.Platform.{Platform, World, call, now}
use cross_chain_bridge.Platform.Database.{IsAtomic}
use cross_chain_bridge.Platform.Frame.{after_ok}
use cross_chain_bridge.Mongodb.Status.{
  SwapStatus, tx_with_big_value, match_tx_empty, tx_not_swapped, tx_not_stable, status_eq,
  status_eq_iff,
}
use cross_chain_bridge.Mongodb.Documents.{
  MgoSwap, MgoSwapResult, get_swap_key, get_swap_key-to_lower,
}
use cross_chain_bridge.Mongodb.Access.{result_at, swap_at, write_or_fail}
use cross_chain_bridge.Mongodb.Swaps.{with_status}
use cross_chain_bridge.Mongodb.Swaps.Register.{find_swap_cases, update_swap_status-done}
use cross_chain_bridge.Mongodb.Results.{
  with_result_status, update_swap_result_status, update_result,
}
use cross_chain_bridge.Mongodb.Results.Assignment.{quiet_at, find_swap_result_cases}
use cross_chain_bridge.Mongodb.Admin.{
  is_paid_out, set_status, set_result_status, accept_big_value, pass_big_value,
}
use cross_chain_bridge.Mongodb.Admin.Reswapped.{set_status-IsQuiet, set_result_status-ok}

-- A swap of a big value was released to be paid out.
pub record IsReleased (p : Platform) (is_swapin : Bool) (key : Text) (w w' : World p) : Type 0 where
  pub swap : MgoSwap
  pub swap_at_key : swap_at p is_swapin w key ≡ some swap
  pub before : MgoSwapResult
  pub before_at : result_at p is_swapin w key ≡ some before
  pub big : (swap.status ≡ tx_with_big_value) ⊎ (before.status ≡ tx_with_big_value)
  pub before_free : is_paid_out before ≡ false
  pub released : MgoSwap
  pub released_at : swap_at p is_swapin w' key ≡ some released
  pub released_status : released.status ≡ tx_not_swapped
  pub after : MgoSwapResult
  pub after_at : result_at p is_swapin w' key ≡ some after
  pub after_status : after.status ≡ match_tx_empty
  pub after_value : after.value ≡ before.value
  pub after_tx : after.swap_tx ≡ before.swap_tx

module _ (p : Platform) (results : IsAtomic p.results) (swaps : IsAtomic p.swaps) where
  -- The writes to the results leave the register alone.
  set_result_status_swap :
      (is_swapin : Bool) (tx_id pair_id bind : Text) (status : SwapStatus) (memo : Text)
      (w : World p) (dir : Bool) (key : Text)
      → swap_at p dir (set_result_status p is_swapin tx_id pair_id bind status memo w).1 key
        ≡ swap_at p dir w key
  unfolding set_result_status update_swap_result_status update_result write_or_fail now call
  set_result_status_swap true tx_id pair_id bind status memo w dir key = refl
  set_result_status_swap false tx_id pair_id bind status memo w dir key = refl

  set_status-ok :
      (is_swapin : Bool) (tx_id pair_id bind : Text) (status : SwapStatus) (memo : Text)
      (w : World p) (d : MgoSwap)
      → status ≢ tx_not_stable
      → let key = get_swap_key tx_id pair_id bind in
        let (r, w') = set_status p is_swapin tx_id pair_id bind status memo w in
        r ≡ ok tt
        → swap_at p is_swapin w key ≡ some d
        → swap_at p is_swapin w' key ≡ some (with_status status (p.clock w.env).0 memo d)
  unfolding set_status now call
  set_status-ok is_swapin tx_id pair_id bind status memo w d n h at =
      let same = get_swap_key-to_lower tx_id pair_id bind in
      rw (sym same) (
        update_swap_status-done p swaps (record w { env = (p.clock w.env).1 }) is_swapin tx_id
          pair_id bind status (p.clock w.env).0 memo d n (ap is_ok h) (rw same at))

  big_status :
      (swap : MgoSwap) (d : MgoSwapResult)
      → (not (status_eq swap.status tx_with_big_value)
          && not (status_eq d.status tx_with_big_value))
        ≡ false
      → (swap.status ≡ tx_with_big_value) ⊎ (d.status ≡ tx_with_big_value)
  big_status swap d h = elim (Bool-cases (status_eq swap.status tx_with_big_value)) [
    | inl big ↦ inl ((status_eq_iff swap.status tx_with_big_value).0 big)
    | inr other ↦ inr ((status_eq_iff d.status tx_with_big_value).0 (ground arith))
  ]

  release :
      (is_swapin : Bool) (tx_id pair_id bind : Text) (swap : MgoSwap) (d : MgoSwapResult)
      (w : World p)
      → let key = get_swap_key tx_id pair_id bind in
        let m =
          set_result_status p is_swapin tx_id pair_id bind match_tx_empty (lit "")
          >> set_status p is_swapin tx_id pair_id bind tx_not_swapped (lit "") in
        swap_at p is_swapin w key ≡ some swap
        → result_at p is_swapin w key ≡ some d
        → (swap.status ≡ tx_with_big_value) ⊎ (d.status ≡ tx_with_big_value)
        → is_paid_out d ≡ false
        → (m w).0 ≡ ok tt
        → IsReleased p is_swapin key w (m w).1
  unfolding with_result_status with_status status_eq
  release is_swapin tx_id pair_id bind swap d w there at big free h =
      let key = get_swap_key tx_id pair_id bind in
      let mark = set_result_status p is_swapin tx_id pair_id bind match_tx_empty (lit "") in
      let register = set_status p is_swapin tx_id pair_id bind tx_not_swapped (lit "") in
      let (_, marked, e) = after_ok p mark (λ _. register) w tt h in
      let w1 = (mark w).1 in
      let changed =
        set_result_status-ok p results is_swapin tx_id pair_id bind match_tx_empty (lit "") w d
          marked at in
      let kept =
        quiet_at p is_swapin w1 (register w1).1 key
          ((set_status-IsQuiet p is_swapin tx_id pair_id bind tx_not_swapped (lit "")).at w1) in
      let still =
        set_result_status_swap is_swapin tx_id pair_id bind match_tx_empty (lit "") w is_swapin
          key in
      let registered =
        set_status-ok is_swapin tx_id pair_id bind tx_not_swapped (lit "") w1 swap distinct
          (rw e at h) (still ∙ there) in
      rw e (record {
        swap = swap;
        swap_at_key = there;
        before = d;
        before_at = at;
        big = big;
        before_free = free;
        released = with_status tx_not_swapped (p.clock w1.env).0 (lit "") swap;
        released_at = registered;
        released_status = refl;
        after = with_result_status match_tx_empty (p.clock w.env).0 (lit "") d;
        after_at = kept ∙ changed;
        after_status = refl;
        after_value = refl;
        after_tx = refl;
      })
    where
      distinct : tx_not_swapped ≢ tx_not_stable
      distinct q = ground arith

  accept_big_value-ok :
      (is_swapin : Bool) (tx_id pair_id bind : Text) (swap : MgoSwap) (d : MgoSwapResult)
      (w : World p)
      → let key = get_swap_key tx_id pair_id bind in
        swap_at p is_swapin w key ≡ some swap
        → result_at p is_swapin w key ≡ some d
        → (accept_big_value p is_swapin tx_id pair_id bind swap d w).0 ≡ ok tt
        → IsReleased p is_swapin key w (accept_big_value p is_swapin tx_id pair_id bind swap d w).1
  unfolding accept_big_value fail
  accept_big_value-ok is_swapin tx_id pair_id bind swap d w there at h =
      elim (Bool-cases (
        not (status_eq swap.status tx_with_big_value)
        && not (status_eq d.status tx_with_big_value))) [
          | inl small ↦ absurd (ground arith)
          | inr big ↦ elim (Bool-cases (is_paid_out d)) [
            | inl paid ↦ absurd (ground arith)
            | inr free ↦
                rw (big, free)
                  (release is_swapin tx_id pair_id bind swap d w there at (big_status swap d big)
                    free (rw (big, free) at h))
          ]
        ]

  -- A big value that is released without an error was held as such, in the register or in its result,
  -- and had not been paid out; afterwards the register has it waiting to be swapped, and its result is
  -- without a match, its value and its hash unchanged. The bind address is not empty and the
  -- writes are atomic.
  pub pass_big_value-ok :
      (is_swapin : Bool) (tx_id pair_id bind : Text) (w : World p)
      → is_empty bind ≡ false
      → (pass_big_value p is_swapin tx_id pair_id bind w).0 ≡ ok tt
      → IsReleased p is_swapin
          (get_swap_key tx_id pair_id bind)
          w
          (pass_big_value p is_swapin tx_id pair_id bind w).1
  unfolding pass_big_value
  pass_big_value-ok is_swapin tx_id pair_id bind w b h =
      elim (find_swap_cases p swaps w is_swapin tx_id pair_id bind b) [
        | inl (e, q) ↦ absurd (ground arith)
        | inr (swap, q, there) ↦
            elim (find_swap_result_cases p results w is_swapin tx_id pair_id bind b) [
              | inl (e, r) ↦ absurd (ground arith)
              | inr (d, r, at) ↦
                  rw (q, r)
                    (accept_big_value-ok is_swapin tx_id pair_id bind swap d w there at
                      (rw (q, r) at h))
            ]
      ]
