-- ===== src/Worker/Prevent/Quiet.antt =====
-- preventReswap touches the register at most, and what passes it has not been paid out.
use cross_chain_bridge.Common.{
  ◌≡◌, ◌<◌, ◌⊎◌, some, Text, arith, is_empty, get_elem?, length, inl, inr, Bool-cases, Bool, true,
  false, not, ◌&&◌, List, [], ◌∷◌, lit, if◌then◌else◌,
}
use cross_chain_bridge.Common.Exec.{Result, ok, err, panic, is_ok, attempt, pure, gets, fail, ◌>>◌}
use cross_chain_bridge.Tokens.Errors.{Err, sentinel, already_swapped}
use cross_chain_bridge.Tokens.Types.{TxStatus}
use cross_chain_bridge.Platform.{Platform, World, M}
use cross_chain_bridge.Platform.Frame.{
  IsQuiet, IsQuiet-IsFrame, Within, IsFrame, Within-bind, Within-if, Within-pure, Within-fail,
  Within-gets, Within-attempt, Within-call_result, Within-now, then_fails,
}
use cross_chain_bridge.Mongodb.Status.{SwapStatus, tx_processed, reswapping, status_eq}
use cross_chain_bridge.Mongodb.Documents.{MgoSwapResult, MgoSwapHistory}
use cross_chain_bridge.Mongodb.Swaps.Quiet.{update_swap_status-IsQuiet}
use cross_chain_bridge.Mongodb.Histories.{get_swap_history}
use cross_chain_bridge.Mongodb.Histories.Quiet.{get_swap_history-IsQuiet}
use cross_chain_bridge.Worker.Cache.{is_swap_history_exist}
use cross_chain_bridge.Worker.Prevent.{
  any_paid, has_paid, set_status_anyway, refuse_swapped, history_or_empty, check_history,
  prevent_reswap_by_history, prevent_reswap, is_swapped, is_forbidden,
}

-- The result has been given a transaction: a nonce, a hash, a height, or earlier transactions.
abbrev pub IsGiven : MgoSwapResult → Type 0
IsGiven res =
    (0 < res.swap_nonce)
    ⊎ (is_empty res.swap_tx ≡ false)
    ⊎ (0 < res.swap_height)
    ⊎ ((old : Text) × (get_elem? res.old_swap_txs 0 ≡ some old))

long_enough : (xs : List Text) (x : Text) → get_elem? xs 0 ≡ some x → 0 < length xs
long_enough [] x h = absurd (ground arith)
long_enough (y ∷ xs) x h = ground arith

module _ (p : Platform) where
  F : IsFrame {p = p} IsQuiet
  F = IsQuiet-IsFrame p

  -- What follows one look at the chain.
  after_status-IsQuiet :
      (r : Result Err TxStatus) (rest : M p Bool)
      → Within IsQuiet rest
      → Within IsQuiet (elim r [
        | ok s ↦ if has_paid s then pure true else rest
        | err e ↦ rest
        | panic ↦ pure false
      ])
  after_status-IsQuiet (ok s) rest h =
      Within-if F (has_paid s) (pure true) rest (Within-pure F true) h
  after_status-IsQuiet (err e) rest h = h
  after_status-IsQuiet panic rest h = Within-pure F false

  any_paid-IsQuiet :
      (is_src : Bool) (hs : List MgoSwapHistory) → Within IsQuiet (any_paid p is_src hs)
  unfolding any_paid
  any_paid-IsQuiet is_src [] = Within-pure F false
  any_paid-IsQuiet is_src (h ∷ hs) =
      Within-bind F _ _
        (Within-attempt F _ (Within-call_result F (p.get_transaction_status is_src h.swap_tx)))
        λ r. after_status-IsQuiet r (any_paid p is_src hs) (any_paid-IsQuiet is_src hs)

  set_status_anyway-IsQuiet :
      (is_swapin : Bool) (res : MgoSwapResult) (status : SwapStatus)
      → Within IsQuiet (set_status_anyway p is_swapin res status)
  unfolding set_status_anyway
  set_status_anyway-IsQuiet is_swapin res status = Within-bind F _ _ (Within-now F) λ t.
      Within-bind F _ _
        (Within-attempt F _
          (update_swap_status-IsQuiet p is_swapin res.tx_id res.pair_id res.bind status t (lit "")))
        λ r. Within-pure F tt

  refuse_swapped-IsQuiet :
      (is_swapin : Bool) (res : MgoSwapResult) → Within IsQuiet (refuse_swapped p is_swapin res)
  unfolding refuse_swapped
  refuse_swapped-IsQuiet is_swapin res =
      Within-bind F _ _ (set_status_anyway-IsQuiet is_swapin res _) λ u. Within-fail F _ _

  check_history-IsQuiet :
      (is_swapin : Bool) (res : MgoSwapResult) (hs : List MgoSwapHistory)
      → Within IsQuiet (check_history p is_swapin res hs)
  unfolding check_history
  check_history-IsQuiet is_swapin res [] = Within-pure F tt
  check_history-IsQuiet is_swapin res (h ∷ hs) =
      Within-if F _ _ _ (refuse_swapped-IsQuiet is_swapin res) (
        Within-bind F _ _ (any_paid-IsQuiet (not is_swapin) (h ∷ hs))
          λ paid. Within-if F paid _ _ (refuse_swapped-IsQuiet is_swapin res) (Within-pure F tt))

  prevent_reswap_by_history-IsQuiet :
      (is_swapin : Bool) (res : MgoSwapResult)
      → Within IsQuiet (prevent_reswap_by_history p is_swapin res)
  unfolding prevent_reswap_by_history
  prevent_reswap_by_history-IsQuiet is_swapin res =
      Within-bind F _ _
        (Within-attempt F _ (get_swap_history-IsQuiet p is_swapin res.tx_id res.bind))
        λ r. check_history-IsQuiet is_swapin res (history_or_empty p r)

  forbid-IsQuiet :
      (is_swapin : Bool) (res : MgoSwapResult) (e : Err)
      → Within {A = Unit {0}} IsQuiet (set_status_anyway p is_swapin res res.status >> fail e)
  forbid-IsQuiet is_swapin res e =
      Within-bind F _ _ (set_status_anyway-IsQuiet is_swapin res res.status) λ u. Within-fail F _ e

  pub prevent_reswap-IsQuiet :
      (is_swapin : Bool) (res : MgoSwapResult) → Within IsQuiet (prevent_reswap p is_swapin res)
  unfolding prevent_reswap
  prevent_reswap-IsQuiet is_swapin res =
      Within-if F (is_swapped res) _ _ (refuse_swapped-IsQuiet is_swapin res) (
        Within-if F (is_forbidden res.status) _ _ (forbid-IsQuiet is_swapin res _) (
          Within-bind F (gets (is_swap_history_exist p is_swapin res.tx_id res.bind)) _
            (Within-gets F _)
            λ known.
              Within-if F (not (status_eq res.status reswapping) && known) _ _
                (refuse_swapped-IsQuiet is_swapin res)
                (prevent_reswap_by_history-IsQuiet is_swapin res)))

  pub prevent_reswap-is_swapped :
      (is_swapin : Bool) (res : MgoSwapResult) (w : World p)
      → is_swapped res ≡ true
      → is_ok (prevent_reswap p is_swapin res w).0 ≡ false
  unfolding prevent_reswap refuse_swapped
  prevent_reswap-is_swapped is_swapin res w h = rw h (
      then_fails p (Unit {0}) (set_status_anyway p is_swapin res tx_processed)
        (sentinel already_swapped) w)

  IsGiven-is_swapped : (res : MgoSwapResult) → IsGiven res → is_swapped res ≡ true
  unfolding is_swapped
  IsGiven-is_swapped res (inl h) = ground arith
  IsGiven-is_swapped res (inr (inl h)) = rw h (ground arith)
  IsGiven-is_swapped res (inr (inr (inl h))) = ground arith
  IsGiven-is_swapped res (inr (inr (inr (old, at)))) =
      let more = long_enough res.old_swap_txs old at in ground arith

  -- A result that has a nonce, a transaction hash, a height or an earlier transaction is refused: the
  -- call does not return without an error, and it leaves the results, the transactions sent and the
  -- send loops alone.
  pub prevent_reswap-IsGiven :
      (is_swapin : Bool) (res : MgoSwapResult) (w : World p)
      → IsGiven res
      → (is_ok (prevent_reswap p is_swapin res w).0 ≡ false)
        × IsQuiet w (prevent_reswap p is_swapin res w).1
  prevent_reswap-IsGiven is_swapin res w h = (
    prevent_reswap-is_swapped is_swapin res w (IsGiven-is_swapped res h),
    (prevent_reswap-IsQuiet is_swapin res).at w,
  )

  -- A swap with a transaction in its history that is not being paid out again is refused: the history
  -- is read by the lower-case transaction id, and it is enough that it is not empty.
  pub prevent_reswap-history :
      (is_swapin : Bool) (res : MgoSwapResult) (h : MgoSwapHistory) (hs : List MgoSwapHistory)
      (w : World p)
      → (get_swap_history p is_swapin res.tx_id res.bind w).0 ≡ ok (h ∷ hs)
      → status_eq res.status reswapping ≡ false
      → is_ok (prevent_reswap p is_swapin res w).0 ≡ false
  unfolding prevent_reswap prevent_reswap_by_history check_history refuse_swapped gets attempt
      get_swap_history history_or_empty
  prevent_reswap-history is_swapin res h hs w there ordinary =
      let refuse =
        then_fails p (Unit {0}) (set_status_anyway p is_swapin res tx_processed)
          (sentinel already_swapped) w in
      elim (Bool-cases (is_swapped res)) [
        | inl swapped ↦ rw swapped refuse
        | inr free ↦ elim (Bool-cases (is_forbidden res.status)) [
          | inl forbidden ↦
              rw (free, forbidden)
                (then_fails p (Unit {0}) (set_status_anyway p is_swapin res res.status) _ w)
          | inr allowed ↦
              elim (Bool-cases (is_swap_history_exist p is_swapin res.tx_id res.bind w)) [
                | inl known ↦ rw (free, allowed, ordinary, known) refuse
                | inr unknown ↦ rw (free, allowed, ordinary, unknown, there, ordinary) refuse
              ]
        ]
      ]
