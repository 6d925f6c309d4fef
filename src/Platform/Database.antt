-- ===== src/Platform/Database.antt =====
-- The calls of the MongoDB driver that package mongodb makes, as an interface. The driver and the
-- server are not code of the repository: a collection is a parameter, with the documented
-- behaviour of single-document reads and writes as laws.
use mathlib.Core.Option
use cross_chain_bridge.Common.{
  ℕ, ◌≡◌, ◌⊎◌, Bool, Option, none, some, List, Text, text_eq, if◌then◌else◌,
}

-- What a read gives: documents, mongo.ErrNoDocuments, or another error with its text.
pub data Reply (A : Type 0) : Type 0 where
  found : A → Reply A
  no_documents : Reply A
  read_failed : Text → Reply A

-- What a write gives: no error, a duplicate key, or another error with its text.
pub data Written : Type 0 where
  done : Written
  duplicate_key : Written
  write_failed : Text → Written

pub record Collection (D : Type 0) : Type 1 where
  pub Coll : Type 0
  -- The document stored under an _id, which the laws speak of.
  pub document : Coll → Text → Option D
  -- FindOne by _id, and by another query.
  pub find_by_id : Coll → Text → Reply D
  pub find_one : Coll → (D → Bool) → Reply D
  -- Find with a query, a sort key and a limit, read whole; and with a query alone.
  pub find_sorted : Coll → (D → Bool) → (D → ℕ) → ℕ → Reply (List D)
  pub find_all : Coll → (D → Bool) → Reply (List D)
  pub insert_one : Coll → Text → D → Coll × Written
  -- UpdateByID with `$set` and `$push`, as the change that it makes in the document.
  pub update_by_id : Coll → Text → (D → D) → Coll × Written
  pub delete_by_id : Coll → Text → Coll × Written

module _ {D : Type 0} where
  -- The content of a collection when the document under `k` is inserted, changed or deleted.
  abbrev pub inserted : (Text → Option D) → Text → D → Text → Option D
  inserted content k d j = if text_eq j k then some d else content j

  abbrev pub updated : (Text → Option D) → Text → (D → D) → Text → Option D
  updated content k f j = if text_eq j k then Option.map f (content j) else content j

  abbrev pub deleted : (Text → Option D) → Text → Text → Option D
  deleted content k j = if text_eq j k then none else content j

-- A write of one document is atomic: it is made whole or not at all, and it is made when the driver
-- reports no error. An update of a missing document is no error and changes nothing. A key is
-- inserted once.
pub record IsAtomic {D : Type 0} (c : Collection D) : Type 0 where
  pub find_by_id-found :
      (s : c.Coll) (k : Text) (d : D) → c.find_by_id s k ≡ found d → c.document s k ≡ some d
  pub find_by_id-no_documents :
      (s : c.Coll) (k : Text) → c.find_by_id s k ≡ no_documents → c.document s k ≡ none
  pub insert_one-done :
      (s : c.Coll) (k : Text) (d : D)
      → (c.insert_one s k d).1 ≡ done
      → (j : Text) → c.document (c.insert_one s k d).0 j ≡ inserted (c.document s) k d j
  pub insert_one-done_absent :
      (s : c.Coll) (k : Text) (d : D) → (c.insert_one s k d).1 ≡ done → c.document s k ≡ none
  pub insert_one_cases :
      (s : c.Coll) (k : Text) (d : D)
      → ((j : Text) → c.document (c.insert_one s k d).0 j ≡ c.document s j)
        ⊎ ((c.document s k ≡ none)
            × ((j : Text) → c.document (c.insert_one s k d).0 j ≡ inserted (c.document s) k d j))
  pub insert_one-duplicate_key :
      (s : c.Coll) (k : Text) (d : D)
      → c.document s k ≡ none
      → (c.insert_one s k d).1 ≡ duplicate_key
      → ⊥
  pub update_by_id-done :
      (s : c.Coll) (k : Text) (f : D → D)
      → (c.update_by_id s k f).1 ≡ done
      → (j : Text) → c.document (c.update_by_id s k f).0 j ≡ updated (c.document s) k f j
  pub update_by_id_cases :
      (s : c.Coll) (k : Text) (f : D → D)
      → ((j : Text) → c.document (c.update_by_id s k f).0 j ≡ c.document s j)
        ⊎ ((j : Text) → c.document (c.update_by_id s k f).0 j ≡ updated (c.document s) k f j)
  pub delete_by_id-done :
      (s : c.Coll) (k : Text)
      → (c.delete_by_id s k).1 ≡ done
      → (j : Text) → c.document (c.delete_by_id s k).0 j ≡ deleted (c.document s) k j
