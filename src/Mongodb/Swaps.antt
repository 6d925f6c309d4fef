-- ===== src/Mongodb/Swaps.antt =====
-- mongodb/api.go, the register of swaps: AddSwapin, AddSwapout, UpdateSwapStatus, FindSwap and the
-- searches by status. The locks are held for the whole of a call, and a call is one step here.
pub mod Quiet
pub mod Register
use cross_chain_bridge.Common.{
  ℕ, ◌+◌, ◌*◌, Bool, true, false, not, ◌&&◌, ◌||◌, List, Text, lit, is_empty, to_lower, text_eq,
  leb, ltb, if◌then◌else◌,
}
use cross_chain_bridge.Common.Exec.{
  Result, ok, err, panic, ◌>>=◌, ◌>>◌, pure, fail, crash, attempt, gets, lift,
}
use cross_chain_bridge.Tokens.Errors.{Err, sentinel, wrong_key}
use cross_chain_bridge.Platform.{Platform, World, M, call, now}
use cross_chain_bridge.Platform.Database.{
  Reply, Written, done, duplicate_key, write_failed, found, no_documents, read_failed,
}
use cross_chain_bridge.Mongodb.Status.{
  SwapStatus, tx_not_stable, tx_not_swapped, status_eq, can_retry, can_reverify,
}
use cross_chain_bridge.Mongodb.Documents.{MgoSwap, get_swap_key}
use cross_chain_bridge.Mongodb.Access.{
  read_result, write_result, write, write_or_fail, swap_coll, put_swap_coll,
  find_swap_or_swap_result,
}

-- The memo that an update of a status writes.
unfoldable pub status_memo : SwapStatus → Text → Text → Text
status_memo status memo old =
    if not (is_empty memo)
    then memo
    else if status_eq status tx_not_swapped || status_eq status tx_not_stable
    then lit ""
    else old

-- The change of updateSwapStatus in a document.
unfoldable pub with_status : SwapStatus → ℕ → Text → MgoSwap → MgoSwap
unfolding status_memo
with_status status timestamp memo swap = record swap {
  status = status;
  timestamp = timestamp;
  memo = status_memo status memo swap.memo;
}

abbrev pub three_days : ℕ
three_days = 3 * 24 * 3600

abbrev pub max_count_of_results : ℕ
max_count_of_results = 1000

module _ (p : Platform) where
  unfoldable pub find_swap : Bool → Text → Text → Text → M p MgoSwap
  unfolding find_swap_or_swap_result
  find_swap is_swapin tx_id pair_id bind w = (
    find_swap_or_swap_result p.swaps (λ d. d.tx_id) (λ d. d.pair_id) (swap_coll p is_swapin w) tx_id
        pair_id bind,
    w,
  )

  unfoldable pub update_swap : Bool → Text → (MgoSwap → MgoSwap) → M p (Unit {0})
  unfolding write_or_fail
  update_swap is_swapin key f =
      write_or_fail (swap_coll p is_swapin) (put_swap_coll p is_swapin)
        λ c. p.swaps.update_by_id c key f

  -- A swap that waits to be swapped and is registered again after three days gets a new timestamp.
  refresh_old : Bool → Text → Reply MgoSwap → M p (Unit {0})
  unfolding update_swap status_eq pure
  refresh_old is_swapin key no_documents = pure tt
  refresh_old is_swapin key (read_failed e) = pure tt
  refresh_old is_swapin key (found swap) =
      if status_eq swap.status tx_not_swapped
      then (do
        t ← now p
        if ltb (swap.timestamp + three_days) t
            then (do attempt (update_swap is_swapin key λ d. record d { timestamp = t }); pure tt)
            else pure tt)
      else pure tt

  after_insert : Bool → Text → Written → M p (Unit {0})
  unfolding refresh_old write_result lift
  after_insert is_swapin key done = pure tt
  after_insert is_swapin key (write_failed e) = lift (write_result (write_failed e))
  after_insert is_swapin key duplicate_key = do
    old ← gets λ w. p.swaps.find_by_id (swap_coll p is_swapin w) key
    refresh_old is_swapin key old
    lift (write_result duplicate_key)

  -- AddSwapin, AddSwapout: addSwap
  unfoldable pub add_swap : Bool → MgoSwap → M p (Unit {0})
  unfolding after_insert fail write
  add_swap is_swapin ms =
      if is_empty ms.tx_id || is_empty ms.pair_id || is_empty ms.bind
      then fail (sentinel wrong_key)
      else do
        let pair_id = to_lower ms.pair_id
        let key = get_swap_key ms.tx_id pair_id ms.bind
        init_time ← call p p.clock_milli
        written ← write (swap_coll p is_swapin) (put_swap_coll p is_swapin) λ c.
            p.swaps.insert_one c key
              (record ms { pair_id = pair_id; key = key; init_time = init_time })
        after_insert is_swapin key written

  -- Whether the update to TxNotStable is skipped. Without the swap the code reads a nil pointer.
  may_restart : Result Err MgoSwap → M p Bool
  unfolding pure crash
  may_restart (ok swap) = pure (can_retry swap.status || can_reverify swap.status)
  may_restart (err e) = crash
  may_restart panic = crash

  -- UpdateSwapStatus, UpdateSwapinStatus, UpdateSwapoutStatus: updateSwapStatus
  unfoldable pub update_swap_status :
      Bool → Text → Text → Text → SwapStatus → ℕ → Text → M p (Unit {0})
  unfolding update_swap may_restart status_eq pure
  update_swap_status is_swapin tx_id pair_id bind status timestamp memo =
      let key = get_swap_key tx_id (to_lower pair_id) bind in
      let update = update_swap is_swapin key (with_status status timestamp memo) in
      if status_eq status tx_not_stable
      then (do
        swap ← attempt (find_swap is_swapin tx_id (to_lower pair_id) bind)
        restart ← may_restart swap
        if restart then update else pure tt)
      else update

  -- FindSwapinsWithStatus, FindSwapoutsWithStatus
  unfoldable pub find_swaps_with_status : Bool → SwapStatus → ℕ → M p (List MgoSwap)
  unfolding read_result status_eq
  find_swaps_with_status is_swapin status septime w = (
    read_result (
        p.swaps.find_sorted (swap_coll p is_swapin w)
          (λ d. leb septime d.timestamp && status_eq d.status status) (λ d. d.init_time)
          max_count_of_results),
    w,
  )

  -- FindSwapinsWithPairIDAndStatus, FindSwapoutsWithPairIDAndStatus
  unfoldable pub find_swaps_with_pair_id_and_status :
      Bool → Text → SwapStatus → ℕ → M p (List MgoSwap)
  unfolding read_result status_eq
  find_swaps_with_pair_id_and_status is_swapin pair_id status septime w = (
    read_result (
        p.swaps.find_sorted (swap_coll p is_swapin w)
          (λ d.
            text_eq d.pair_id (to_lower pair_id)
            && leb septime d.timestamp
            && status_eq d.status status)
          (λ d. d.init_time) max_count_of_results),
    w,
  )
