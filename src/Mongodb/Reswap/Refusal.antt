-- ===== src/Mongodb/Reswap/Refusal.antt =====
-- When checkCanReswap refuses, and that it changes no result when it agrees.
use cross_chain_bridge.Common.{
  ℕ, ◌<◌, ◌≡◌, inl, inr, refl, Bool, true, false, not, ◌&&◌, Option, none, some, ◌∷◌, ◌++◌, Text,
  lit, is_empty, ltb, arith, Bool-cases,
}
use cross_chain_bridge.Common.Exec.{
  Result, ok, is_ok, is_err, attempted, attempt, pure, gets, fail, ◌>>=◌,
}
use cross_chain_bridge.Tokens.Errors.{Err, message}
use cross_chain_bridge.Tokens.Types.{TxStatus, get_token_config, is_swap_tx_on_chain_and_failed}
use cross_chain_bridge.Platform.{Platform, World, M, call, call_result, now}
use cross_chain_bridge.Platform.Frame.{IsQuiet, IsQuiet-IsFrame, after_ok, then_fails}
use cross_chain_bridge.Mongodb.Status.{
  SwapStatus, match_tx_failed, match_tx_not_stable, status_eq, status_eq_iff,
}
use cross_chain_bridge.Platform.Database.{Written, done, duplicate_key, write_failed}
use cross_chain_bridge.Mongodb.Documents.{MgoSwapResult}
use cross_chain_bridge.Mongodb.Access.{write_or_fail, write_result}
use cross_chain_bridge.Mongodb.Results.{update_swap_result_status, update_result}
use cross_chain_bridge.Mongodb.Reswap.{
  first_status, get_swap_results_tx_status, check_tx_failed, check_can_reswap, is_swap_type_of,
}
use cross_chain_bridge.Mongodb.Reswap.Quiet.{first_status-IsQuiet, check_reswap_nonce-IsQuiet}

written_returns : (r : Written) → (x : Result Err (Unit {0})) × (attempted (write_result r) ≡ ok x)
unfolding write_result attempted
written_returns done = (_, refl)
written_returns duplicate_key = (_, refl)
written_returns (write_failed e) = (_, refl)

module _ (p : Platform) where
  -- A transaction in a block that did not fail is enough to refuse.
  check_tx_failed-settled :
      (is_swapin : Bool) (res : MgoSwapResult) (s : TxStatus) (tx : Text) (w : World p)
      → 0 < s.block_height
      → is_swap_tx_on_chain_and_failed
          (some s)
          (get_token_config w.config res.pair_id (not is_swapin))
        ≡ false
      → is_ok (check_tx_failed p is_swapin res (some (s, tx)) w).0 ≡ false
  unfolding check_tx_failed gets now call
  check_tx_failed-settled is_swapin res s tx w h f =
      let t = (p.clock w.env).0 in
      let on_chain : ltb 0 s.block_height ≡ true = ground arith in
      rw (on_chain, f)
        (then_fails p (Unit {0})
          (attempt (
            update_swap_result_status p is_swapin res.tx_id res.pair_id res.bind match_tx_not_stable
              t (lit "")))
          (message (lit "swap succeed with swaptx " ++ tx)) (record w { env = (p.clock w.env).1 }))

  -- The update is tried in any case.
  status_update-returns :
      (is_swapin : Bool) (tx_id pair_id bind : Text) (status : SwapStatus) (t : ℕ) (memo : Text)
      (w : World p)
      → (r : Result Err (Unit {0})) × ((attempt
            (update_swap_result_status p is_swapin tx_id pair_id bind status t memo)
            w).0
          ≡ ok r)
  unfolding attempt attempted update_swap_result_status update_result write_or_fail write_result
  status_update-returns is_swapin tx_id pair_id bind status t memo w = written_returns _

  check_tx_failed-refuses :
      (is_swapin : Bool) (res : MgoSwapResult) (s : TxStatus) (tx : Text) (w : World p)
      → 0 < s.block_height
      → is_swap_tx_on_chain_and_failed
          (some s)
          (get_token_config w.config res.pair_id (not is_swapin))
        ≡ false
      → is_err (check_tx_failed p is_swapin res (some (s, tx)) w).0 ≡ true
  unfolding check_tx_failed gets now call fail
  check_tx_failed-refuses is_swapin res s tx w h f =
      let t = (p.clock w.env).0 in
      let on_chain : ltb 0 s.block_height ≡ true = ground arith in
      let (r, q) =
        status_update-returns is_swapin res.tx_id res.pair_id res.bind match_tx_not_stable t
          (lit "") (record w { env = (p.clock w.env).1 }) in
      rw (on_chain, f, q) refl

  check_tx_failed-ok :
      (is_swapin : Bool) (res : MgoSwapResult) (found : Option (TxStatus × Text)) (w : World p)
      → (check_tx_failed p is_swapin res found w).0 ≡ ok tt
      → IsQuiet w (check_tx_failed p is_swapin res found w).1
  unfolding check_tx_failed gets
  check_tx_failed-ok is_swapin res none w h =
      (check_reswap_nonce-IsQuiet p (not is_swapin) res).at w
  check_tx_failed-ok is_swapin res (some (s, tx)) w h =
      elim (Bool-cases (
        ltb 0 s.block_height
        && not (
            is_swap_tx_on_chain_and_failed (some s)
              (get_token_config w.config res.pair_id (not is_swapin))))) [
                | inl settled ↦
                    let refused =
                      check_tx_failed-settled is_swapin res s tx w (ground arith) (ground arith) in
                    absurd (ground arith)
                | inr open_ ↦ rw open_ ((check_reswap_nonce-IsQuiet p (not is_swapin) res).at w)
              ]

  after_first_status :
      (is_swapin : Bool) (res : MgoSwapResult) (w : World p)
      → let m : M p (Unit {0}) =
          get_swap_results_tx_status p (not is_swapin) res >>= check_tx_failed p is_swapin res in
        (m w).0 ≡ ok tt → IsQuiet w (m w).1
  unfolding get_swap_results_tx_status
  after_first_status is_swapin res w h =
      let find = get_swap_results_tx_status p (not is_swapin) res in
      let (found, q, e) = after_ok p find (check_tx_failed p is_swapin res) w tt h in
      rw e (
        (IsQuiet-IsFrame p).trans w (find w).1 _
          ((first_status-IsQuiet p (not is_swapin) (res.swap_tx ∷ res.old_swap_txs)).at w)
          (check_tx_failed-ok is_swapin res found (find w).1 (rw e at h)))

  -- While the bridge knows the transaction that stands in the result as one in a block that did not
  -- fail, checkCanReswap returns an error. (Of the earlier transactions of the result it asks only
  -- while the bridge knows none before them.)
  pub check_can_reswap-settled :
      (is_swapin : Bool) (res : MgoSwapResult) (s : TxStatus) (w : World p)
      → (p.get_transaction_status (not is_swapin) res.swap_tx w.env).0 ≡ ok s
      → 0 < s.block_height
      → is_swap_tx_on_chain_and_failed
          (some s)
          (get_token_config w.config res.pair_id (not is_swapin))
        ≡ false
      → is_err (check_can_reswap p is_swapin res w).0 ≡ true
  unfolding check_can_reswap get_swap_results_tx_status first_status attempt call_result fail pure
  check_can_reswap-settled is_swapin res s w known h f =
      let u = record w { env = (p.get_transaction_status (not is_swapin) res.swap_tx w.env).1 } in
      let refused = check_tx_failed-refuses is_swapin res s res.swap_tx u h f in
      elim (Bool-cases (is_swap_type_of is_swapin res.swap_type)) [
        | inr wrong ↦ rw wrong refl
        | inl right ↦ elim (Bool-cases (status_eq res.status match_tx_failed)) [
          | inr other ↦ rw (right, other) refl
          | inl failed ↦ elim (Bool-cases (is_empty res.swap_tx)) [
            | inl without ↦ rw (right, failed, without) refl
            | inr tx ↦ rw (right, failed, tx, known) refused
          ]
        ]
      ]

  -- A result that may be paid out again is one of the direction whose payment failed, and the check
  -- has changed no result.
  pub check_can_reswap-ok :
      (is_swapin : Bool) (res : MgoSwapResult) (w : World p)
      → (check_can_reswap p is_swapin res w).0 ≡ ok tt
      → (res.status ≡ match_tx_failed)
        × (is_empty res.swap_tx ≡ false)
        × IsQuiet w (check_can_reswap p is_swapin res w).1
  unfolding check_can_reswap get_swap_results_tx_status fail
  check_can_reswap-ok is_swapin res w h =
      elim (Bool-cases (is_swap_type_of is_swapin res.swap_type)) [
        | inr wrong ↦ absurd (ground arith)
        | inl right ↦ elim (Bool-cases (status_eq res.status match_tx_failed)) [
          | inr other ↦ absurd (ground arith)
          | inl failed ↦ elim (Bool-cases (is_empty res.swap_tx)) [
            | inl without ↦ absurd (ground arith)
            | inr tx ↦ (
              (status_eq_iff res.status match_tx_failed).0 failed,
              tx,
              rw (right, failed, tx)
                  (after_first_status is_swapin res w (rw (right, failed, tx) at h)),
            )
          ]
        ]
      ]
