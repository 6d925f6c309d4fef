-- ===== src/Mongodb/Results/History.antt =====
-- What any sequence of calls on the swap results does to a result that has been paid out: the calls
-- of all jobs, in any order, each a step of its own.
use cross_chain_bridge.Common.{
  ℕ, ◌≡◌, ◌≢◌, ◌⊎◌, inl, inr, refl, sym, Bool, true, false, not, some, none, List, [], ◌∷◌, Text,
  is_empty, to_lower, equal_fold, ◌||◌, text_eq, arith, ◌==◌, Bool-cases, All, text_eq_iff, ◌∙◌,
}
use cross_chain_bridge.Common.Exec.{ok, err, lift, ◌>>◌}
use cross_chain_bridge.Tokens.Errors.{Err, sentinel, forbid_update_nonce, forbid_update_swap_tx}
use cross_chain_bridge.Platform.{Platform, World, M, call}
use cross_chain_bridge.Platform.Database.{IsAtomic}
use cross_chain_bridge.Mongodb.Status.{SwapStatus, reswapping, status_eq_iff}
use cross_chain_bridge.Mongodb.Documents.{MgoSwapResult, SwapResultUpdateItems, get_swap_key}
use cross_chain_bridge.Mongodb.Access.{write_or_fail, result_at}
use cross_chain_bridge.Mongodb.Results.Assignment.{
  IsAssigned, find_swap_result_cases, update_result_cases,
}
use cross_chain_bridge.Mongodb.Results.{
  with_items, assigns, with_result_status, with_old_tx, contains_fold, insert_result, update_result,
  check_unassigned, add_swap_result, update_swap_result, update_swap_result_status,
  update_swap_result_old_txs,
}

-- A call of package mongodb that writes a swap result.
pub data ResultCall : Type 0 where
  add : Bool → MgoSwapResult → ResultCall
  update : Bool → Text → Text → Text → SwapResultUpdateItems → ResultCall
  set_status : Bool → Text → Text → Text → SwapStatus → ℕ → Text → ResultCall
  add_old_tx : Bool → Text → Text → Text → Text → Text → ResultCall

module _ (p : Platform) where
  unfoldable pub run_call : ResultCall → M p (Unit {0})
  run_call (add is_swapin d) = add_swap_result p is_swapin d
  run_call (update is_swapin tx_id pair_id bind items) =
      update_swap_result p is_swapin tx_id pair_id bind items
  run_call (set_status is_swapin tx_id pair_id bind status timestamp memo) =
      update_swap_result_status p is_swapin tx_id pair_id bind status timestamp memo
  run_call (add_old_tx is_swapin tx_id pair_id bind swap_tx swap_value) =
      update_swap_result_old_txs p is_swapin tx_id pair_id bind swap_tx swap_value

  -- The calls one after the other, whatever each returns.
  unfoldable pub run_calls : List ResultCall → World p → World p
  run_calls [] w = w
  run_calls (c ∷ cs) w = run_calls cs (run_call c w).1

-- The calls that ordinary processing makes: with a bind address, and no reswap.
abbrev pub IsOrdinary : ResultCall → Type 0
IsOrdinary (add _ d) = Unit
IsOrdinary (update _ _ _ bind _) = is_empty bind ≡ false
IsOrdinary (set_status _ _ _ _ status _ _) = status ≢ reswapping
IsOrdinary (add_old_tx _ _ _ bind _ _) = is_empty bind ≡ false

-- The result `d` with its nonce, and its transaction if it has one, still there in `e`.
abbrev pub Keeps : MgoSwapResult → MgoSwapResult → Type 0
Keeps d e =
    (e.swap_nonce ≡ d.swap_nonce) × (is_empty d.swap_tx ≡ false → is_empty e.swap_tx ≡ false)

-- A document that keeps what `d` holds is still under the key.
abbrev pub KeptAt : (p : Platform) → Bool → World p → Text → MgoSwapResult → Type 0
KeptAt p dir w key d = (e : MgoSwapResult) × (result_at p dir w key ≡ some e) × Keeps d e

with_result_status-Keeps :
    (status : SwapStatus) (timestamp : ℕ) (memo : Text) (d : MgoSwapResult)
    → status ≢ reswapping
    → Keeps d (with_result_status status timestamp memo d)
unfolding with_result_status
with_result_status-Keeps status timestamp memo d h = ground (arith, status_eq_iff status reswapping)

-- An update of another kind than an assignment carries no nonce.
with_items-Keeps :
    (items : SwapResultUpdateItems) (d : MgoSwapResult)
    → assigns items ≡ false
    → Keeps d (with_items items d)
unfolding with_items assigns
with_items-Keeps items d h = ground arith

with_old_tx-Keeps :
    (r : MgoSwapResult) (tx value : Text) (timestamp : ℕ) (d : MgoSwapResult)
    → is_empty tx ≡ false
    → Keeps d (with_old_tx r tx value timestamp d)
unfolding with_old_tx
with_old_tx-Keeps r tx value timestamp d h = ground arith

check_unassigned_cases :
    (p : Platform) (r : MgoSwapResult)
    → ((e : Err) × (check_unassigned p r ≡ err e))
      ⊎ ((check_unassigned p r ≡ ok tt) × (¬ IsAssigned r))
unfolding check_unassigned
check_unassigned_cases p r = elim (Bool-cases (r.swap_nonce == 0)) [
  | inl zero_nonce ↦ elim (Bool-cases (is_empty r.swap_tx)) [
    | inl no_tx ↦ inr (ground arith, ground arith)
    | inr tx ↦ inl (sentinel forbid_update_swap_tx, rw (zero_nonce, tx))
  ]
  | inr nonce ↦ inl (sentinel forbid_update_nonce, rw nonce)
]

module _ (p : Platform) (laws : IsAtomic p.results) where
  update_result-KeptAt :
      (w : World p) (is_swapin : Bool) (k : Text) (f : MgoSwapResult → MgoSwapResult) (dir : Bool)
      (key : Text) (d : MgoSwapResult)
      → ((e : MgoSwapResult)
          → dir ≡ is_swapin
          → key ≡ k
          → result_at p dir w key ≡ some e
          → Keeps d e
          → Keeps d (f e))
      → KeptAt p dir w key d
      → KeptAt p dir (update_result p is_swapin k f w).1 key d
  update_result-KeptAt w is_swapin k f dir key d h (e, at, kept) =
      elim (update_result_cases p laws w is_swapin k f dir key) [
        | inl same ↦ (e, same ∙ at, kept)
        | inr (own, changed) ↦ elim (Bool-cases (text_eq key k)) [
          | inl hit ↦ (f e, changed ∙ rw (hit, at), h e own ((text_eq_iff key k).0 hit) at kept)
          | inr miss ↦ (e, changed ∙ rw (miss, at), kept)
        ]
      ]

  -- An insertion never replaces a document.
  insert_one_at :
      (s : p.results.Coll) (k : Text) (ms : MgoSwapResult) (key : Text) (e : MgoSwapResult)
      → p.results.document s key ≡ some e
      → p.results.document (p.results.insert_one s k ms).0 key ≡ some e
  insert_one_at s k ms key e at = elim (laws.insert_one_cases s k ms) [
    | inl same ↦ same key ∙ at
    | inr (absent, changed) ↦ elim (Bool-cases (text_eq key k)) [
      | inl hit ↦
          let missing : p.results.document s key ≡ none = rw ((text_eq_iff key k).0 hit) absent in
          cc
      | inr miss ↦ changed key ∙ rw (miss, at)
    ]
  ]

  insert_result_at :
      (w : World p) (is_swapin : Bool) (k : Text) (ms : MgoSwapResult) (dir : Bool) (key : Text)
      (e : MgoSwapResult)
      → result_at p dir w key ≡ some e
      → result_at p dir (insert_result p is_swapin k ms w).1 key ≡ some e
  unfolding insert_result write_or_fail
  insert_result_at w true k ms true key e at = insert_one_at w.swapin_result k ms key e at
  insert_result_at w true k ms false key e at = at
  insert_result_at w false k ms true key e at = at
  insert_result_at w false k ms false key e at = insert_one_at w.swapout_result k ms key e at

  add_swap_result_at :
      (w : World p) (is_swapin : Bool) (ms : MgoSwapResult) (dir : Bool) (key : Text)
      (e : MgoSwapResult)
      → result_at p dir w key ≡ some e
      → result_at p dir (add_swap_result p is_swapin ms w).1 key ≡ some e
  unfolding add_swap_result call
  add_swap_result_at w is_swapin ms dir key e at =
      let pair_id = to_lower ms.pair_id in
      let k = get_swap_key ms.tx_id pair_id ms.bind in
      let stamped = record ms { pair_id = pair_id; key = k; init_time = (p.clock_milli w.env).0 } in
      ground (
        arith,
        insert_result_at (record w { env = (p.clock_milli w.env).1 }) is_swapin k stamped dir key e,
      )

  assign_unassigned-KeptAt :
      (w : World p) (is_swapin : Bool) (k : Text) (items : SwapResultUpdateItems)
      (r : MgoSwapResult) (dir : Bool) (key : Text) (d : MgoSwapResult)
      → IsAssigned d
      → result_at p is_swapin w k ≡ some r
      → KeptAt p dir w key d
      → KeptAt p dir
          ((lift (check_unassigned p r) >> update_result p is_swapin k (with_items items)) w).1
          key
          d
  unfolding lift
  assign_unassigned-KeptAt w is_swapin k items r dir key d a at kept =
      elim (check_unassigned_cases p r) [
        | inl (e, refused) ↦ rw refused kept
        | inr (passed, free) ↦ rw passed (
            update_result-KeptAt w is_swapin k (with_items items) dir key d
              (λ e own hit there h. absurd (free (reassigned e own hit there h))) kept)
      ]
    where
      reassigned :
          (e : MgoSwapResult)
          → dir ≡ is_swapin
          → key ≡ k
          → result_at p dir w key ≡ some e
          → Keeps d e
          → IsAssigned r
      reassigned e own hit there h =
          let same : some e ≡ some r = sym there ∙ rw (own, hit) at in ground arith

  update_swap_result-KeptAt :
      (w : World p) (is_swapin : Bool) (tx_id pair_id bind : Text) (items : SwapResultUpdateItems)
      (dir : Bool) (key : Text) (d : MgoSwapResult)
      → is_empty bind ≡ false
      → IsAssigned d
      → KeptAt p dir w key d
      → KeptAt p dir (update_swap_result p is_swapin tx_id pair_id bind items w).1 key d
  unfolding update_swap_result
  update_swap_result-KeptAt w is_swapin tx_id pair_id bind items dir key d b a kept =
      elim (Bool-cases (assigns items)) [
        | inl assigning ↦
            elim (find_swap_result_cases p laws w is_swapin tx_id (to_lower pair_id) bind b) [
              | inl (e, q) ↦ rw (assigning, q) kept
              | inr (r, q, at) ↦
                  rw (assigning, q)
                    (assign_unassigned-KeptAt w is_swapin _ items r dir key d a at kept)
            ]
        | inr other ↦ rw other (
            update_result-KeptAt w is_swapin _ (with_items items) dir key d
              (λ e own hit at h. ground (arith, with_items-Keeps items e other)) kept)
      ]

  pub update_swap_result_old_txs-KeptAt :
      (w : World p) (is_swapin : Bool) (tx_id pair_id bind tx value : Text) (dir : Bool)
      (key : Text) (d : MgoSwapResult)
      → is_empty bind ≡ false
      → KeptAt p dir w key d
      → KeptAt p dir (update_swap_result_old_txs p is_swapin tx_id pair_id bind tx value w).1 key d
  unfolding update_swap_result_old_txs
  update_swap_result_old_txs-KeptAt w is_swapin tx_id pair_id bind tx value dir key d b kept =
      elim (Bool-cases (is_empty tx)) [
        | inl nothing ↦ rw nothing kept
        | inr given ↦ elim (find_swap_result_cases p laws w is_swapin tx_id pair_id bind b) [
          | inl (e, q) ↦ rw (given, q) kept
          | inr (r, q, at) ↦
              elim (Bool-cases (equal_fold tx r.swap_tx || contains_fold tx r.old_swap_txs)) [
                | inl known ↦ rw (given, q, known) kept
                | inr new ↦
                    rw (given, q, new)
                      (update_result-KeptAt (record w { env = (p.clock w.env).1 }) is_swapin _ _ dir
                        key d
                        (λ e own hit there h.
                          ground (arith, with_old_tx-Keeps r tx value (p.clock w.env).0 e given))
                        kept)
              ]
        ]
      ]

  run_call-KeptAt :
      (w : World p) (c : ResultCall) (dir : Bool) (key : Text) (d : MgoSwapResult)
      → IsOrdinary c
      → IsAssigned d
      → KeptAt p dir w key d
      → KeptAt p dir (run_call p c w).1 key d
  unfolding run_call
  run_call-KeptAt w (add is_swapin ms) dir key d o a (e, at, kept) =
      (e, add_swap_result_at w is_swapin ms dir key e at, kept)
  run_call-KeptAt w (update is_swapin tx_id pair_id bind items) dir key d o a kept =
      update_swap_result-KeptAt w is_swapin tx_id pair_id bind items dir key d o a kept
  run_call-KeptAt w (set_status is_swapin tx_id pair_id bind status timestamp memo) dir key d o a
        kept =
      unfold update_swap_result_status in
      update_result-KeptAt w is_swapin _ (with_result_status status timestamp memo) dir key d
        (λ e own hit there h. ground (arith, with_result_status-Keeps status timestamp memo e o))
        kept
  run_call-KeptAt w (add_old_tx is_swapin tx_id pair_id bind tx value) dir key d o a kept =
      update_swap_result_old_txs-KeptAt w is_swapin tx_id pair_id bind tx value dir key d o kept

  run_calls-KeptAt :
      (cs : List ResultCall) (w : World p) (dir : Bool) (key : Text) (d : MgoSwapResult)
      → All IsOrdinary cs
      → IsAssigned d
      → KeptAt p dir w key d
      → KeptAt p dir (run_calls p cs w) key d
  unfolding run_calls
  run_calls-KeptAt [] w dir key d o a kept = kept
  run_calls-KeptAt (c ∷ cs) w dir key d o a kept =
      run_calls-KeptAt cs (run_call p c w).1 dir key d o.1 a
        (run_call-KeptAt w c dir key d o.0 a kept)

  kept_tx : (a b : Bool) → (a ≡ false → b ≡ false) → (a || not b) ≡ true
  kept_tx true b h = refl
  kept_tx false b h = rw (h refl) refl

  -- Whatever ordinary calls are made on the results, in any order and of any jobs, a result that has
  -- a nonce or a transaction stays in its collection with the same nonce, and with a transaction if
  -- it had one.
  pub run_calls_keep_assigned :
      (cs : List ResultCall) (w : World p) (dir : Bool) (key : Text) (d : MgoSwapResult)
      → All IsOrdinary cs
      → IsAssigned d
      → result_at p dir w key ≡ some d
      → (e : MgoSwapResult) × (result_at p dir (run_calls p cs w) key ≡ some e)
        × (e.swap_nonce ≡ d.swap_nonce)
        × ((is_empty d.swap_tx || not (is_empty e.swap_tx)) ≡ true)
  run_calls_keep_assigned cs w dir key d o a at =
      let (e, there, kept) = run_calls-KeptAt cs w dir key d o a (d, at, (refl, λ h. h)) in
      (e, there, kept.0, kept_tx (is_empty d.swap_tx) (is_empty e.swap_tx) kept.1)
