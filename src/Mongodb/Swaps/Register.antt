-- ===== src/Mongodb/Swaps/Register.antt =====
-- The register of swaps under updateSwapStatus.
use cross_chain_bridge.Common.{
  ℕ, ◌≡◌, ◌≢◌, ◌⊎◌, inl, inr, refl, sym, ◌∙◌, Bool, true, false, ◌||◌, none, some, Text, is_empty,
  to_lower, text_eq, text_eq_refl, text_eq_iff, arith, Bool-cases,
}
use cross_chain_bridge.Common.Exec.{ok, err, panic, is_ok, attempt, pure, crash}
use cross_chain_bridge.Tokens.Errors.{Err}
use cross_chain_bridge.Platform.{Platform, World}
use cross_chain_bridge.Platform.Database.{
  IsAtomic, Reply, found, no_documents, read_failed, Written, done, updated,
}
use cross_chain_bridge.Mongodb.Status.{
  SwapStatus, tx_not_stable, status_eq, status_eq_iff, can_retry, can_reverify,
}
use cross_chain_bridge.Mongodb.Documents.{MgoSwap, get_swap_key}
use cross_chain_bridge.Mongodb.Access.{
  read_result, write_result, write_or_fail, swap_coll, swap_at, find_swap_or_swap_result,
}
use cross_chain_bridge.Mongodb.Swaps.{
  with_status, find_swap, update_swap, may_restart, update_swap_status,
}

module _ (p : Platform) (laws : IsAtomic p.swaps) where
  write_done : (r : Written) → is_ok (write_result r) ≡ true → r ≡ done
  unfolding write_result
  write_done r h = ground arith

  -- A write is made whole or not at all, in its own direction.
  pub update_swap_cases :
      (w : World p) (is_swapin : Bool) (key : Text) (f : MgoSwap → MgoSwap) (dir : Bool) (j : Text)
      → let w' = (update_swap p is_swapin key f w).1 in
        (swap_at p dir w' j ≡ swap_at p dir w j)
        ⊎ ((dir ≡ is_swapin) × (swap_at p dir w' j ≡ updated (swap_at p dir w) key f j))
  unfolding update_swap write_or_fail
  update_swap_cases w true key f true j = elim (laws.update_by_id_cases w.swapin key f) [
    | inl same ↦ inl (same j)
    | inr changed ↦ inr (refl, changed j)
  ]
  update_swap_cases w true key f false j = inl refl
  update_swap_cases w false key f true j = inl refl
  update_swap_cases w false key f false j = elim (laws.update_by_id_cases w.swapout key f) [
    | inl same ↦ inl (same j)
    | inr changed ↦ inr (refl, changed j)
  ]

  update_swap-done :
      (w : World p) (is_swapin : Bool) (key : Text) (f : MgoSwap → MgoSwap) (j : Text)
      → is_ok (update_swap p is_swapin key f w).0 ≡ true
      → swap_at p is_swapin (update_swap p is_swapin key f w).1 j
        ≡ updated (swap_at p is_swapin w) key f j
  unfolding update_swap write_or_fail
  update_swap-done w true key f j h = laws.update_by_id-done w.swapin key f (write_done _ h) j
  update_swap-done w false key f j h = laws.update_by_id-done w.swapout key f (write_done _ h) j

  read_swap_cases :
      (r : Reply MgoSwap) → ((e : Err) × (read_result r ≡ err e)) ⊎ ((d : MgoSwap) × (r ≡ found d))
  unfolding read_result
  read_swap_cases (found d) = inr (d, refl)
  read_swap_cases no_documents = inl (_, refl)
  read_swap_cases (read_failed e) = inl (_, refl)

  -- A search with a bind address gives the document under the key, or an error.
  pub find_swap_cases :
      (w : World p) (is_swapin : Bool) (tx_id pair_id bind : Text)
      → is_empty bind ≡ false
      → ((e : Err) × (find_swap p is_swapin tx_id pair_id bind w ≡ (err e, w)))
        ⊎ ((d : MgoSwap) × (find_swap p is_swapin tx_id pair_id bind w ≡ (ok d, w))
            × (swap_at p is_swapin w (get_swap_key tx_id pair_id bind) ≡ some d))
  unfolding find_swap find_swap_or_swap_result read_result
  find_swap_cases w is_swapin tx_id pair_id bind b =
      let coll = swap_coll p is_swapin w in
      let key = get_swap_key tx_id pair_id bind in
      elim (read_swap_cases (p.swaps.find_by_id coll key)) [
        | inl (e, q) ↦ inl (e, ground arith)
        | inr (d, q) ↦ inr (d, ground arith, laws.find_by_id-found coll key d q)
      ]

  -- An update to another status than TxNotStable that reports no error has been made.
  pub update_swap_status-done :
      (w : World p) (is_swapin : Bool) (tx_id pair_id bind : Text) (status : SwapStatus) (t : ℕ)
      (memo : Text) (d : MgoSwap)
      → status ≢ tx_not_stable
      → let key = get_swap_key tx_id (to_lower pair_id) bind in
        let (r, w') = update_swap_status p is_swapin tx_id pair_id bind status t memo w in
        is_ok r ≡ true
        → swap_at p is_swapin w key ≡ some d
        → swap_at p is_swapin w' key ≡ some (with_status status t memo d)
  unfolding update_swap_status
  update_swap_status-done w is_swapin tx_id pair_id bind status t memo d h returned at =
      let key = get_swap_key tx_id (to_lower pair_id) bind in
      elim (Bool-cases (status_eq status tx_not_stable)) [
        | inl restart ↦ absurd (h ((status_eq_iff status tx_not_stable).0 restart))
        | inr other ↦ rw other (
            update_swap-done w is_swapin key (with_status status t memo) key (rw other at returned)
            ∙ rw (text_eq_refl key, at) refl)
      ]

  -- An update to TxNotStable changes no swap but one whose status can be retried or verified again;
  -- any other swap keeps its document.
  pub update_swap_status_restart :
      (w : World p) (is_swapin : Bool) (tx_id pair_id bind : Text) (t : ℕ) (memo : Text)
      (dir : Bool) (key : Text) (d : MgoSwap)
      → is_empty bind ≡ false
      → can_retry d.status || can_reverify d.status ≡ false
      → swap_at p dir w key ≡ some d
      → swap_at p dir
          (update_swap_status p is_swapin tx_id pair_id bind tx_not_stable t memo w).1
          key
        ≡ some d
  unfolding update_swap_status attempt may_restart crash pure status_eq
  update_swap_status_restart w is_swapin tx_id pair_id bind t memo dir key d b keep at =
      let k = get_swap_key tx_id (to_lower pair_id) bind in
      let f = with_status tx_not_stable t memo in
      elim (find_swap_cases w is_swapin tx_id (to_lower pair_id) bind b) [
        | inl (e, q) ↦ rw q at
        | inr (d', q, at') ↦ elim (Bool-cases (can_retry d'.status || can_reverify d'.status)) [
          | inr skipped ↦ rw (q, skipped) at
          | inl allowed ↦
              rw (q, allowed)
                (elim (update_swap_cases w is_swapin k f dir key) [
                  | inl same ↦ same ∙ at
                  | inr (own, changed) ↦ elim (Bool-cases (text_eq key k)) [
                    | inr miss ↦ changed ∙ rw (miss, at) refl
                    | inl hit ↦
                        let there : some d ≡ some d' =
                          sym at ∙ rw (own, (text_eq_iff key k).0 hit) at' in
                        let same : d ≡ d' = ground arith in
                        absurd (let x = rw same at keep in ground arith)
                  ]
                ])
        ]
      ]

  -- An update to TxNotStable of a swap that is not in the register does not return: the code reads
  -- the swap that was not found.
  pub update_swap_status-missing :
      (w : World p) (is_swapin : Bool) (tx_id pair_id bind : Text) (t : ℕ) (memo : Text)
      → is_empty bind ≡ false
      → swap_at p is_swapin w (get_swap_key tx_id (to_lower pair_id) bind) ≡ none
      → update_swap_status p is_swapin tx_id pair_id bind tx_not_stable t memo w ≡ (panic, w)
  unfolding update_swap_status attempt may_restart crash status_eq
  update_swap_status-missing w is_swapin tx_id pair_id bind t memo b missing =
      elim (find_swap_cases w is_swapin tx_id (to_lower pair_id) bind b) [
        | inl (e, q) ↦ rw q refl
        | inr (d, q, at) ↦ let clash : some d ≡ none = sym at ∙ missing in absurd (ground arith)
      ]
