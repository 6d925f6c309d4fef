-- ===== src/Platform/Memory.antt =====
-- A collection in memory, which has the behaviour that is asked of the database.
use cross_chain_bridge.Common.{
  ℕ, zero, suc, ◌≡◌, ◌⊎◌, inl, inr, refl, Bool, Option, none, some, List, [], ◌∷◌, Text, text_eq,
  text_eq_iff, leb, if◌then◌else◌, arith,
}
use cross_chain_bridge.Platform.Database.{
  Collection, IsAtomic, Reply, found, no_documents, Written, done, duplicate_key, inserted, updated,
  deleted,
}

unfoldable pub reply : {A : Type 0} → Option A → Reply A
reply none = no_documents
reply (some d) = found d

module _ {D : Type 0} where
  unfoldable pub lookup : List (Text × D) → Text → Option D
  lookup [] k = none
  lookup ((j, d) ∷ s) k = if text_eq k j then some d else lookup s k

  unfoldable pub first : List (Text × D) → (D → Bool) → Option D
  first [] q = none
  first ((j, d) ∷ s) q = if q d then some d else first s q

  unfoldable pub select : List (Text × D) → (D → Bool) → List D
  select [] q = []
  select ((j, d) ∷ s) q = if q d then d ∷ select s q else select s q

  unfoldable pub insert_sorted : (D → ℕ) → D → List D → List D
  insert_sorted key d [] = d ∷ []
  insert_sorted key d (e ∷ es) =
      if leb (key d) (key e) then d ∷ e ∷ es else e ∷ insert_sorted key d es

  unfoldable pub sort_by : (D → ℕ) → List D → List D
  unfolding insert_sorted
  sort_by key [] = []
  sort_by key (d ∷ ds) = insert_sorted key d (sort_by key ds)

  unfoldable pub at_most : ℕ → List D → List D
  at_most zero ds = []
  at_most (suc n) [] = []
  at_most (suc n) (d ∷ ds) = d ∷ at_most n ds

  unfoldable pub update_docs : List (Text × D) → Text → (D → D) → List (Text × D)
  update_docs [] k f = []
  update_docs ((j, d) ∷ s) k f = (j, if text_eq j k then f d else d) ∷ update_docs s k f

  unfoldable pub delete_docs : List (Text × D) → Text → List (Text × D)
  delete_docs [] k = []
  delete_docs ((j, d) ∷ s) k = if text_eq j k then delete_docs s k else (j, d) ∷ delete_docs s k

  unfoldable pub insert_docs : List (Text × D) → Text → D → List (Text × D) × Written
  unfolding lookup
  insert_docs s k d = elim (lookup s k) [ none ↦ ((k, d) ∷ s, done) | some e ↦ (s, duplicate_key) ]

  lookup-update :
      (s : List (Text × D)) (k : Text) (f : D → D) (j : Text)
      → lookup (update_docs s k f) j ≡ updated (lookup s) k f j
  unfolding lookup update_docs
  lookup-update [] k f j = ground arith
  lookup-update ((i, d) ∷ s) k f j =
      ground (arith, lookup-update s k f j, text_eq_iff j i, text_eq_iff i k, text_eq_iff j k)

  lookup-delete :
      (s : List (Text × D)) (k j : Text) → lookup (delete_docs s k) j ≡ deleted (lookup s) k j
  unfolding lookup delete_docs
  lookup-delete [] k j = ground arith
  lookup-delete ((i, d) ∷ s) k j =
      ground (arith, lookup-delete s k j, text_eq_iff j i, text_eq_iff i k, text_eq_iff j k)

  insert_docs_cases :
      (s : List (Text × D)) (k : Text) (d : D)
      → ((j : Text) → lookup (insert_docs s k d).0 j ≡ lookup s j)
        ⊎ ((lookup s k ≡ none)
            × ((j : Text) → lookup (insert_docs s k d).0 j ≡ inserted (lookup s) k d j))
  unfolding insert_docs lookup
  insert_docs_cases s k d = go (lookup s k) refl
    where
      go :
          (r : Option D)
          → lookup s k ≡ r
          → ((j : Text) → lookup (insert_docs s k d).0 j ≡ lookup s j)
            ⊎ ((lookup s k ≡ none)
                × ((j : Text) → lookup (insert_docs s k d).0 j ≡ inserted (lookup s) k d j))
      go (some e) q = inl (λ j. ground arith)
      go none q = inr (q, λ j. ground arith)

abbrev pub memory : (D : Type 0) → Collection D
memory D = record {
  Coll = List (Text × D);
  document = lookup;
  find_by_id = λ s k. reply (lookup s k);
  find_one = λ s q. reply (first s q);
  find_sorted = λ s q key n. found (at_most n (sort_by key (select s q)));
  find_all = λ s q. found (select s q);
  insert_one = insert_docs;
  update_by_id = λ s k f. (update_docs s k f, done);
  delete_by_id = λ s k. (delete_docs s k, done);
}

pub memory-IsAtomic : (D : Type 0) → IsAtomic (memory D)
unfolding lookup reply insert_docs
memory-IsAtomic D = record {
  find_by_id-found = λ s k d h. ground arith;
  find_by_id-no_documents = λ s k h. ground arith;
  insert_one-done = λ s k d h j. ground arith;
  insert_one-done_absent = λ s k d h. ground arith;
  insert_one_cases = insert_docs_cases;
  insert_one-duplicate_key = λ s k d h q. ground arith;
  update_by_id-done = λ s k f h j. lookup-update s k f j;
  update_by_id_cases = λ s k f. inr (lookup-update s k f);
  delete_by_id-done = λ s k h j. lookup-delete s k j;
}
