-- ===== src/Mongodb/Results.antt =====
-- mongodb/api.go, the swap results: AddSwapinResult and AddSwapoutResult, UpdateSwapResult,
-- UpdateSwapResultStatus, UpdateSwapResultOldTxs, and the searches.
pub mod Unsent
pub mod Assignment
pub mod History
use cross_chain_bridge.Common.{
  ℕ, Bool, true, false, not, ◌&&◌, ◌||◌, List, [], ◌∷◌, ◌++◌, Text, lit, is_empty, to_lower,
  equal_fold, leb, ltb, ◌==◌, if◌then◌else◌, Option, none, some,
}
use cross_chain_bridge.Common.Exec.{Result, ok, err, panic, ◌>>=◌, ◌>>◌, pure, fail, lift}
use cross_chain_bridge.Tokens.Errors.{
  Err, sentinel, wrong_key, forbid_update_nonce, forbid_update_swap_tx,
}
use cross_chain_bridge.Tokens.Types.{SwapType, no_swap_type, swapin_type, swapout_type}
use cross_chain_bridge.Platform.{Platform, World, M, call, now}
use cross_chain_bridge.Mongodb.Status.{
  SwapStatus, keep_status, reswapping, match_tx_not_stable, status_eq,
}
use cross_chain_bridge.Mongodb.Documents.{MgoSwapResult, SwapResultUpdateItems, get_swap_key}
use cross_chain_bridge.Mongodb.Access.{
  read_result, write_result, write_or_fail, result_coll, put_result_coll, find_swap_or_swap_result,
}
use cross_chain_bridge.Mongodb.Swaps.{max_count_of_results}

-- A field of the updates map is there when it is not its type's zero value.
abbrev pub text_or : Text → Text → Text
text_or new old = if is_empty new then old else new

abbrev pub number_or : ℕ → ℕ → ℕ
number_or new old = if new == 0 then old else new

abbrev pub swap_type_or : SwapType → SwapType → SwapType
swap_type_or no_swap_type old = old
swap_type_or swapin_type old = swapin_type
swap_type_or swapout_type old = swapout_type

-- The change of updateSwapResult in a document.
unfoldable pub with_items : SwapResultUpdateItems → MgoSwapResult → MgoSwapResult
unfolding status_eq
with_items items d = record d {
  timestamp = items.timestamp;
  status = if status_eq items.status keep_status then d.status else items.status;
  swap_tx = text_or items.swap_tx d.swap_tx;
  swap_height = number_or items.swap_height d.swap_height;
  swap_time = number_or items.swap_time d.swap_time;
  swap_value = text_or items.swap_value d.swap_value;
  swap_type = swap_type_or items.swap_type d.swap_type;
  swap_nonce = number_or items.swap_nonce d.swap_nonce;
  memo =
      if not (is_empty items.memo)
      then items.memo
      else if status_eq items.status match_tx_not_stable
      then lit ""
      else d.memo;
}

-- Whether the update assigns a transaction to the result: it carries a nonce or makes it unstable.
unfoldable pub assigns : SwapResultUpdateItems → Bool
unfolding status_eq
assigns items = not (items.swap_nonce == 0) || status_eq items.status match_tx_not_stable

-- The change of updateSwapResultStatus in a document. Reswapping clears what was paid out before.
unfoldable pub with_result_status : SwapStatus → ℕ → Text → MgoSwapResult → MgoSwapResult
unfolding status_eq
with_result_status status timestamp memo d =
    let changed = record d { status = status; timestamp = timestamp; memo = text_or memo d.memo } in
    if status_eq status reswapping
    then record changed {
      memo = lit "";
      swap_tx = lit "";
      old_swap_txs = [];
      old_swap_vals = [];
      swap_height = 0;
      swap_time = 0;
      swap_nonce = 0;
    }
    else changed

-- `contains` up to case: the loop over the old transactions.
unfoldable pub contains_fold : Text → List Text → Bool
unfolding equal_fold
contains_fold tx [] = false
contains_fold tx (old ∷ olds) = equal_fold tx old || contains_fold tx olds

-- The change of updateSwapResultOldTxs in a document; `found` is the document read before.
unfoldable pub with_old_tx : MgoSwapResult → Text → Text → ℕ → MgoSwapResult → MgoSwapResult
with_old_tx found swap_tx swap_value timestamp d = elim found.old_swap_txs [
  | [] ↦ record d {
    swap_tx = swap_tx;
    timestamp = timestamp;
    old_swap_txs = found.swap_tx ∷ swap_tx ∷ [];
    old_swap_vals =
        if is_empty swap_value then d.old_swap_vals else found.swap_value ∷ swap_value ∷ [];
  }
  | _ ↦ record d {
    swap_tx = swap_tx;
    timestamp = timestamp;
    old_swap_txs = d.old_swap_txs ++ swap_tx ∷ [];
    old_swap_vals =
        if is_empty swap_value then d.old_swap_vals else d.old_swap_vals ++ swap_value ∷ [];
  }
]

module _ (p : Platform) where
  unfoldable pub find_swap_result : Bool → Text → Text → Text → M p MgoSwapResult
  unfolding find_swap_or_swap_result
  find_swap_result is_swapin tx_id pair_id bind w = (
    find_swap_or_swap_result p.results (λ d. d.tx_id) (λ d. d.pair_id) (result_coll p is_swapin w)
        tx_id pair_id bind,
    w,
  )

  unfoldable pub update_result : Bool → Text → (MgoSwapResult → MgoSwapResult) → M p (Unit {0})
  unfolding write_or_fail
  update_result is_swapin key f =
      write_or_fail (result_coll p is_swapin) (put_result_coll p is_swapin)
        λ c. p.results.update_by_id c key f

  unfoldable pub insert_result : Bool → Text → MgoSwapResult → M p (Unit {0})
  unfolding write_or_fail
  insert_result is_swapin key d =
      write_or_fail (result_coll p is_swapin) (put_result_coll p is_swapin)
        λ c. p.results.insert_one c key d

  -- AddSwapinResult, AddSwapoutResult: addSwapResult
  unfoldable pub add_swap_result : Bool → MgoSwapResult → M p (Unit {0})
  unfolding call fail
  add_swap_result is_swapin ms =
      if is_empty ms.tx_id || is_empty ms.pair_id || is_empty ms.bind
      then fail (sentinel wrong_key)
      else do
        let pair_id = to_lower ms.pair_id
        let key = get_swap_key ms.tx_id pair_id ms.bind
        init_time ← call p p.clock_milli
        insert_result is_swapin key
            (record ms { pair_id = pair_id; key = key; init_time = init_time })

  -- What updateSwapResult asks of the document before it assigns a transaction.
  check_unassigned : MgoSwapResult → Result Err (Unit {0})
  check_unassigned d =
      if not (d.swap_nonce == 0)
      then err (sentinel forbid_update_nonce)
      else if not (is_empty d.swap_tx)
      then err (sentinel forbid_update_swap_tx)
      else ok tt

  -- UpdateSwapinResult, UpdateSwapoutResult: updateSwapResult
  unfoldable pub update_swap_result :
      Bool → Text → Text → Text → SwapResultUpdateItems → M p (Unit {0})
  unfolding check_unassigned lift
  update_swap_result is_swapin tx_id pair_id bind items =
      let key = get_swap_key tx_id (to_lower pair_id) bind in
      let update = update_result is_swapin key (with_items items) in
      if assigns items
      then (do
        d ← find_swap_result is_swapin tx_id (to_lower pair_id) bind
        lift (check_unassigned d)
        update)
      else update

  -- UpdateSwapResultStatus: updateSwapResultStatus
  unfoldable pub update_swap_result_status :
      Bool → Text → Text → Text → SwapStatus → ℕ → Text → M p (Unit {0})
  update_swap_result_status is_swapin tx_id pair_id bind status timestamp memo =
      update_result is_swapin (get_swap_key tx_id (to_lower pair_id) bind)
        (with_result_status status timestamp memo)

  -- UpdateSwapResultOldTxs: updateSwapResultOldTxs under its lock
  unfoldable pub update_swap_result_old_txs :
      Bool → Text → Text → Text → Text → Text → M p (Unit {0})
  unfolding now pure equal_fold
  update_swap_result_old_txs is_swapin tx_id pair_id bind swap_tx swap_value =
      if is_empty swap_tx then pure tt else do
        d ← find_swap_result is_swapin tx_id pair_id bind
        if equal_fold swap_tx d.swap_tx || contains_fold swap_tx d.old_swap_txs then pure tt else do
          t ← now p
          update_result is_swapin (get_swap_key tx_id pair_id bind)
              (with_old_tx d swap_tx swap_value t)

  -- FindSwapinResultsWithStatus, FindSwapoutResultsWithStatus
  unfoldable pub find_swap_results_with_status : Bool → SwapStatus → ℕ → M p (List MgoSwapResult)
  unfolding read_result status_eq
  find_swap_results_with_status is_swapin status septime w = (
    read_result (
        p.results.find_sorted (result_coll p is_swapin w)
          (λ d. leb septime d.timestamp && status_eq d.status status) (λ d. d.init_time)
          max_count_of_results),
    w,
  )

  -- FindSwapResultsToReplace
  unfoldable pub find_swap_results_to_replace : Bool → SwapStatus → ℕ → M p (List MgoSwapResult)
  unfolding read_result status_eq
  find_swap_results_to_replace is_swapin status septime w = (
    read_result (
        p.results.find_sorted (result_coll p is_swapin w)
          (λ d. leb septime d.init_time && status_eq d.status status && d.swap_height == 0)
          (λ d. d.swap_nonce) 20),
    w,
  )
