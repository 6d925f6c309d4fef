-- ===== src/Mongodb/Results/Assignment.antt =====
-- A swap result is given a transaction once: what updateSwapResult reads before it writes.
use cross_chain_bridge.Common.{
  ◌↔◌, ◌<◌, ◌≡◌, ◌⊎◌, inl, inr, refl, Bool, true, false, some, Text, is_empty, to_lower, arith,
}
use cross_chain_bridge.Common.Exec.{ok, err, is_err, is_ok}
use cross_chain_bridge.Tokens.Errors.{Err}
use cross_chain_bridge.Platform.{Platform, World}
use cross_chain_bridge.Platform.Frame.{IsQuiet}
use cross_chain_bridge.Platform.Database.{
  IsAtomic, Reply, found, no_documents, read_failed, updated,
}
use cross_chain_bridge.Mongodb.Documents.{MgoSwapResult, SwapResultUpdateItems, get_swap_key}
use cross_chain_bridge.Mongodb.Access.{
  read_result, write_result-done, write_or_fail, result_coll, result_at, find_swap_or_swap_result,
}
use cross_chain_bridge.Mongodb.Status.{match_tx_not_stable, status_eq_iff}
use cross_chain_bridge.Mongodb.Results.{
  with_items, assigns, find_swap_result, update_result, check_unassigned, update_swap_result,
}

-- A result that has been given a transaction: it has a nonce or a transaction hash.
abbrev pub IsAssigned : MgoSwapResult → Type 0
IsAssigned d = (0 < d.swap_nonce) ⊎ (is_empty d.swap_tx ≡ false)

-- The updates that are meant to give a result its first transaction.
abbrev pub IsAssignment : SwapResultUpdateItems → Type 0
IsAssignment items = (0 < items.swap_nonce) ⊎ (items.status ≡ match_tx_not_stable)

assigns_iff : (items : SwapResultUpdateItems) → (assigns items ≡ true) ↔ IsAssignment items
unfolding assigns
assigns_iff items = ground (arith, status_eq_iff items.status match_tx_not_stable)

module _ (p : Platform) where
  -- A quiet change leaves the documents alone.
  pub quiet_at :
      (dir : Bool) (w w' : World p) (key : Text)
      → IsQuiet w w'
      → result_at p dir w' key ≡ result_at p dir w key
  quiet_at true w w' key q = rw q.swapin_result refl
  quiet_at false w w' key q = rw q.swapout_result refl

module _ (p : Platform) (laws : IsAtomic p.results) where
  read_result_cases :
      (r : Reply MgoSwapResult)
      → ((e : Err) × (read_result r ≡ err e)) ⊎ ((d : MgoSwapResult) × (r ≡ found d))
  unfolding read_result
  read_result_cases (found d) = inr (d, refl)
  read_result_cases no_documents = inl (_, refl)
  read_result_cases (read_failed e) = inl (_, refl)

  -- A search with a bind address gives the document under the key, or an error.
  pub find_swap_result_cases :
      (w : World p) (is_swapin : Bool) (tx_id pair_id bind : Text)
      → is_empty bind ≡ false
      → ((e : Err) × (find_swap_result p is_swapin tx_id pair_id bind w ≡ (err e, w)))
        ⊎ ((d : MgoSwapResult) × (find_swap_result p is_swapin tx_id pair_id bind w ≡ (ok d, w))
            × (result_at p is_swapin w (get_swap_key tx_id pair_id bind) ≡ some d))
  unfolding find_swap_result find_swap_or_swap_result read_result
  find_swap_result_cases w is_swapin tx_id pair_id bind b =
      let coll = result_coll p is_swapin w in
      let key = get_swap_key tx_id pair_id bind in
      elim (read_result_cases (p.results.find_by_id coll key)) [
        | inl (e, q) ↦ inl (e, ground arith)
        | inr (d, q) ↦ inr (d, ground arith, laws.find_by_id-found coll key d q)
      ]

  -- The guard of updateSwapResult at work.
  pub update_swap_result_assigned :
      (w : World p) (is_swapin : Bool) (tx_id pair_id bind : Text) (items : SwapResultUpdateItems)
      (d : MgoSwapResult)
      → is_empty bind ≡ false
      → assigns items ≡ true
      → result_at p is_swapin w (get_swap_key tx_id (to_lower pair_id) bind) ≡ some d
      → IsAssigned d
      → let (r, w') = update_swap_result p is_swapin tx_id pair_id bind items w in
        (is_err r ≡ true) × (w' ≡ w)
  unfolding update_swap_result check_unassigned
  update_swap_result_assigned w is_swapin tx_id pair_id bind items d b a at h =
      ground (arith, find_swap_result_cases w is_swapin tx_id (to_lower pair_id) bind b)

  -- A write to one direction leaves the other alone, and in its own is made whole or not at all.
  pub update_result_cases :
      (w : World p) (is_swapin : Bool) (key : Text) (f : MgoSwapResult → MgoSwapResult) (dir : Bool)
      (j : Text)
      → let w' = (update_result p is_swapin key f w).1 in
        (result_at p dir w' j ≡ result_at p dir w j)
        ⊎ ((dir ≡ is_swapin) × (result_at p dir w' j ≡ updated (result_at p dir w) key f j))
  unfolding update_result write_or_fail
  update_result_cases w true key f true j = elim (laws.update_by_id_cases w.swapin_result key f) [
    | inl same ↦ inl (same j)
    | inr changed ↦ inr (refl, changed j)
  ]
  update_result_cases w true key f false j = inl refl
  update_result_cases w false key f true j = inl refl
  update_result_cases w false key f false j =
      elim (laws.update_by_id_cases w.swapout_result key f) [
        | inl same ↦ inl (same j)
        | inr changed ↦ inr (refl, changed j)
      ]

  -- A write that reports no error is made.
  pub update_result-done :
      (w : World p) (is_swapin : Bool) (key : Text) (f : MgoSwapResult → MgoSwapResult) (j : Text)
      → is_ok (update_result p is_swapin key f w).0 ≡ true
      → result_at p is_swapin (update_result p is_swapin key f w).1 j
        ≡ updated (result_at p is_swapin w) key f j
  unfolding update_result write_or_fail
  update_result-done w true key f j h =
      laws.update_by_id-done w.swapin_result key f (write_result-done _ h) j
  update_result-done w false key f j h =
      laws.update_by_id-done w.swapout_result key f (write_result-done _ h) j

  -- Behind the guard of updateSwapResult.
  pub update_swap_result-assigns :
      (w : World p) (is_swapin : Bool) (tx_id pair_id bind : Text) (items : SwapResultUpdateItems)
      → is_empty bind ≡ false
      → assigns items ≡ true
      → is_ok (update_swap_result p is_swapin tx_id pair_id bind items w).0 ≡ true
      → let key = get_swap_key tx_id (to_lower pair_id) bind in
        let w' = (update_swap_result p is_swapin tx_id pair_id bind items w).1 in
        ((d : MgoSwapResult) × (result_at p is_swapin w key ≡ some d)
          × (¬ IsAssigned d)
          × ((j : Text)
              → result_at p is_swapin w' j
                ≡ updated (result_at p is_swapin w) key (with_items items) j))
  unfolding update_swap_result check_unassigned
  update_swap_result-assigns w is_swapin tx_id pair_id bind items b a h =
      let key = get_swap_key tx_id (to_lower pair_id) bind in
      elim (find_swap_result_cases w is_swapin tx_id (to_lower pair_id) bind b) [
        | inl (e, q) ↦ absurd (ground arith)
        | inr (d, q, at) ↦ (
          d,
          at,
          ground arith,
          λ j. ground (arith, update_result-done w is_swapin key (with_items items) j),
        )
      ]

  -- An update with a nonce or with the status MatchTxNotStable that reports no error found a result
  -- with neither a nonce nor a transaction hash, and has made its changes in that result and in no
  -- other. The bind address is not empty, and the writes are atomic.
  pub update_swap_result-IsAssignment :
      (w : World p) (is_swapin : Bool) (tx_id pair_id bind : Text) (items : SwapResultUpdateItems)
      → is_empty bind ≡ false
      → IsAssignment items
      → is_ok (update_swap_result p is_swapin tx_id pair_id bind items w).0 ≡ true
      → let key = get_swap_key tx_id (to_lower pair_id) bind in
        let w' = (update_swap_result p is_swapin tx_id pair_id bind items w).1 in
        ((d : MgoSwapResult) × (result_at p is_swapin w key ≡ some d)
          × (¬ IsAssigned d)
          × ((j : Text)
              → result_at p is_swapin w' j
                ≡ updated (result_at p is_swapin w) key (with_items items) j))
  update_swap_result-IsAssignment w is_swapin tx_id pair_id bind items b a =
      update_swap_result-assigns w is_swapin tx_id pair_id bind items b ((assigns_iff items).1 a)
