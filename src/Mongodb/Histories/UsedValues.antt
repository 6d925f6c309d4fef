-- ===== src/Mongodb/Histories/UsedValues.antt =====
-- An r value is used once with a key.
use cross_chain_bridge.Common.{
  ◌≡◌, inl, inr, refl, sym, ◌∙◌, true, false, Option, none, some, Text, text_eq_refl, arith,
}
use cross_chain_bridge.Common.Exec.{is_ok, gets, pure, fail, lift}
use cross_chain_bridge.Platform.{Platform, World, call}
use cross_chain_bridge.Platform.Database.{
  IsAtomic, Reply, found, no_documents, read_failed, Written, done, duplicate_key, write_failed,
}
use cross_chain_bridge.Mongodb.Access.{write, write_result}
use cross_chain_bridge.Mongodb.Documents.{MgoUsedRValue, get_used_r_key}
use cross_chain_bridge.Mongodb.Histories.{
  put_used_r, insert_used_r, retry_used_r, after_used_r, add_used_r_value,
}

abbrev pub r_at : (p : Platform) → World p → Text → Option MgoUsedRValue
r_at p w key = p.used_r_values.document w.used_r_value key

module _ (p : Platform) (laws : IsAtomic p.used_r_values) where
  -- A value that is there cannot be inserted.
  no_insert :
      (s : p.used_r_values.Coll) (key : Text) (d e : MgoUsedRValue)
      → p.used_r_values.document s key ≡ some e
      → ((p.used_r_values.insert_one s key d).1 ≡ done → ⊥)
        × (p.used_r_values.document (p.used_r_values.insert_one s key d).0 key ≡ some e)
  no_insert s key d e at = (never, kept)
    where
      never : (p.used_r_values.insert_one s key d).1 ≡ done → ⊥
      never h =
          let clash : some e ≡ none = sym at ∙ laws.insert_one-done_absent s key d h in ground arith

      kept : p.used_r_values.document (p.used_r_values.insert_one s key d).0 key ≡ some e
      kept = elim (laws.insert_one_cases s key d) [
        | inl same ↦ same key ∙ at
        | inr (absent, changed) ↦
            let clash : some e ≡ none = sym at ∙ absent in absurd (ground arith)
      ]

  refuse :
      (key : Text) (d : MgoUsedRValue) (r : Written) (w : World p)
      → (r ≡ done → ⊥)
      → (p.used_r_values.find_by_id w.used_r_value key ≡ no_documents → ⊥)
      → ((p.used_r_values.insert_one w.used_r_value key d).1 ≡ done → ⊥)
      → is_ok (after_used_r p key d r w).0 ≡ false
  unfolding after_used_r insert_used_r write put_used_r fail gets retry_used_r lift write_result
  refuse key d done w never missing again = absurd (never refl)
  refuse key d duplicate_key w never missing again = refl
  refuse key d (write_failed t) w never missing again =
      retried (p.used_r_values.find_by_id w.used_r_value key) refl
    where
      unwritten :
          (r : Written)
          → (p.used_r_values.insert_one w.used_r_value key d).1 ≡ r
          → is_ok (write_result r) ≡ false
      unwritten done q = absurd (again q)
      unwritten duplicate_key q = refl
      unwritten (write_failed u) q = refl

      retried :
          (r : Reply MgoUsedRValue)
          → p.used_r_values.find_by_id w.used_r_value key ≡ r
          → is_ok (retry_used_r p key d r w).0 ≡ false
      retried (found e) q = refl
      retried no_documents q = absurd (missing q)
      retried (read_failed u) q = unwritten _ refl

  -- An r value that has been used with a public key cannot be used again: AddUsedRValue of a value
  -- and a key whose entry is there returns an error. The writes are atomic.
  pub add_used_r_value-used :
      (pubkey r : Text) (w : World p) (e : MgoUsedRValue)
      → r_at p w (get_used_r_key pubkey r) ≡ some e
      → is_ok (add_used_r_value p pubkey r w).0 ≡ false
  unfolding add_used_r_value call insert_used_r write after_used_r put_used_r fail gets retry_used_r
      lift write_result
  add_used_r_value-used pubkey r w e at =
      let key = get_used_r_key pubkey r in
      let d : MgoUsedRValue = record { key = key; timestamp = (p.clock_milli w.env).0 } in
      let (never, kept) = no_insert w.used_r_value key d e at in
      let s = (p.used_r_values.insert_one w.used_r_value key d).0 in
      let again = (no_insert s key d e kept).0 in
      let missing = laws.find_by_id-no_documents s key in
      refuse key d _ _ never (λ q. let clash : some e ≡ none = sym kept ∙ missing q in ground arith)
        again

  accepted :
      (key : Text) (d : MgoUsedRValue) (r : Written) (w : World p)
      → (r ≡ done → r_at p w key ≡ some d)
      → is_ok (after_used_r p key d r w).0 ≡ true
      → (e : MgoUsedRValue) × (r_at p (after_used_r p key d r w).1 key ≡ some e)
  unfolding after_used_r insert_used_r write put_used_r fail gets retry_used_r lift write_result
      pure
  accepted key d done w at h = (d, at refl)
  accepted key d duplicate_key w at h = absurd (ground arith)
  accepted key d (write_failed t) w at h = retried (p.used_r_values.find_by_id w.used_r_value key) h
    where
      inserted_now : (r : Written) → is_ok (write_result r) ≡ true → r ≡ done
      inserted_now r h = ground arith

      second :
          is_ok (write_result (p.used_r_values.insert_one w.used_r_value key d).1) ≡ true
          → (e : MgoUsedRValue) × (p.used_r_values.document
                (p.used_r_values.insert_one w.used_r_value key d).0
                key
              ≡ some e)
      second h = (
        d,
        laws.insert_one-done w.used_r_value key d (inserted_now _ h) key
            ∙ rw (text_eq_refl key) refl,
      )

      retried :
          (r : Reply MgoUsedRValue)
          → is_ok (retry_used_r p key d r w).0 ≡ true
          → (e : MgoUsedRValue) × (r_at p (retry_used_r p key d r w).1 key ≡ some e)
      retried (found e) h = absurd (ground arith)
      retried no_documents h = second h
      retried (read_failed u) h = second h

  -- Adding an r value without an error leaves its entry in the collection. The writes are atomic.
  pub add_used_r_value-ok :
      (pubkey r : Text) (w : World p)
      → is_ok (add_used_r_value p pubkey r w).0 ≡ true
      → (e : MgoUsedRValue) × (r_at p (add_used_r_value p pubkey r w).1 (get_used_r_key pubkey r)
          ≡ some e)
  unfolding add_used_r_value call insert_used_r write after_used_r put_used_r fail gets retry_used_r
      lift write_result pure
  add_used_r_value-ok pubkey r w h =
      let key = get_used_r_key pubkey r in
      let d : MgoUsedRValue = record { key = key; timestamp = (p.clock_milli w.env).0 } in
      accepted key d _ _
        (λ q. laws.insert_one-done w.used_r_value key d q key ∙ rw (text_eq_refl key) refl) h
