-- ===== src/Mongodb/Histories/Nonces.antt =====
-- The latest nonces increase, unless two calls of UpdateLatestSwapNonce meet.
use cross_chain_bridge.Common.{
  ℕ, ◌≤◌, ◌<◌, false, ◌≡◌, inl, inr, refl, sym, ◌∙◌, Bool, Option, none, some, Text, to_lower,
  text_eq, text_eq_iff, text_eq_refl, leb, arith, Bool-cases,
}
use cross_chain_bridge.Common.Exec.{ok, gets, pure, ◌>>=◌, ◌>>◌}
use cross_chain_bridge.Platform.{Platform, World, M, call, now}
use cross_chain_bridge.Platform.Database.{IsAtomic, Reply, found, no_documents, read_failed}
use cross_chain_bridge.Mongodb.Access.{write_or_fail, write_result-done}
use cross_chain_bridge.Mongodb.Documents.{MgoLatestSwapNonce, get_swap_nonce_key}
use cross_chain_bridge.Mongodb.Histories.{
  put_nonces, find_nonce, write_nonce, update_latest_swap_nonce,
}
use cross_chain_bridge.Platform.Frame.{after_ok}

abbrev pub nonce_at : (p : Platform) → World p → Text → Option MgoLatestSwapNonce
nonce_at p w j = p.nonces.document w.latest_swap_nonces j

-- Two calls that both read before either writes: the nonce of the first write, and of the second.
unfoldable pub both_read : (p : Platform) → Text → Bool → ℕ → ℕ → M p (Unit {0})
unfolding find_nonce write_nonce
both_read p address is_swapin first second = do
  old ← find_nonce p address is_swapin
  old' ← find_nonce p address is_swapin
  write_nonce p address is_swapin first old
  write_nonce p address is_swapin second old'

module _ (p : Platform) (laws : IsAtomic p.nonces) where
  inserted_mono :
      (key : Text) (n : MgoLatestSwapNonce) (w : World p) (j : Text) (d : MgoLatestSwapNonce)
      → nonce_at p w j ≡ some d
      → (e : MgoLatestSwapNonce) × (p.nonces.document
            (p.nonces.insert_one w.latest_swap_nonces key n).0
            j
          ≡ some e)
        × (d.swap_nonce ≤ e.swap_nonce)
  inserted_mono key n w j d at = elim (laws.insert_one_cases w.latest_swap_nonces key n) [
    | inl same ↦ (d, same j ∙ at, ground arith)
    | inr (absent, changed) ↦ elim (Bool-cases (text_eq j key)) [
      | inl hit ↦
          let clash : some d ≡ none = sym at ∙ rw ((text_eq_iff j key).0 hit) absent in
          absurd (ground arith)
      | inr miss ↦ (d, changed j ∙ rw (miss, at) refl, ground arith)
    ]
  ]

  write_nonce_mono :
      (address : Text) (is_swapin : Bool) (nonce : ℕ) (r : Reply MgoLatestSwapNonce) (w : World p)
      (j : Text) (d : MgoLatestSwapNonce)
      → p.nonces.find_by_id w.latest_swap_nonces (get_swap_nonce_key address is_swapin) ≡ r
      → nonce_at p w j ≡ some d
      → (e : MgoLatestSwapNonce) × (nonce_at p (write_nonce p address is_swapin nonce r w).1 j
          ≡ some e)
        × (d.swap_nonce ≤ e.swap_nonce)
  unfolding write_nonce now call write_or_fail put_nonces pure
  write_nonce_mono address is_swapin nonce (found old) w j d q at =
      let s = w.latest_swap_nonces in
      let key = get_swap_nonce_key address is_swapin in
      let t = (p.clock w.env).0 in
      let f : MgoLatestSwapNonce → MgoLatestSwapNonce = λ x. record x {
        address = to_lower address;
        is_swapin = is_swapin;
        swap_nonce = nonce;
        timestamp = t;
      } in
      elim (Bool-cases (leb nonce old.swap_nonce)) [
        | inl lower ↦ rw lower (d, at, ground arith)
        | inr higher ↦ rw higher (elim (laws.update_by_id_cases s key f) [
          | inl same ↦ (d, same j ∙ at, ground arith)
          | inr changed ↦ elim (Bool-cases (text_eq j key)) [
            | inl hit ↦
                let there : some d ≡ some old =
                  sym at ∙ rw ((text_eq_iff j key).0 hit) (laws.find_by_id-found s key old q) in
                (f d, changed j ∙ rw (hit, at) refl, ground arith)
            | inr miss ↦ (d, changed j ∙ rw (miss, at) refl, ground arith)
          ]
        ])
      ]
  write_nonce_mono address is_swapin nonce no_documents w j d q at =
      inserted_mono (get_swap_nonce_key address is_swapin) _ w j d at
  write_nonce_mono address is_swapin nonce (read_failed e) w j d q at =
      inserted_mono (get_swap_nonce_key address is_swapin) _ w j d at

  -- A call that no other call meets does not lower a nonce.
  update_latest_swap_nonce_mono :
      (address : Text) (is_swapin : Bool) (nonce : ℕ) (w : World p) (j : Text)
      (d : MgoLatestSwapNonce)
      → nonce_at p w j ≡ some d
      → (e : MgoLatestSwapNonce) × (nonce_at p
            (update_latest_swap_nonce p address is_swapin nonce w).1
            j
          ≡ some e)
        × (d.swap_nonce ≤ e.swap_nonce)
  unfolding update_latest_swap_nonce find_nonce gets
  update_latest_swap_nonce_mono address is_swapin nonce w j d at =
      write_nonce_mono address is_swapin nonce
        (p.nonces.find_by_id w.latest_swap_nonces (get_swap_nonce_key address is_swapin)) w j d refl
        at

  -- A write over an older item that reports no error leaves its nonce.
  write_nonce-ok :
      (address : Text) (is_swapin : Bool) (nonce : ℕ) (old d : MgoLatestSwapNonce) (w : World p)
      → let key = get_swap_nonce_key address is_swapin in
        let (r, w') = write_nonce p address is_swapin nonce (found old) w in
        old.swap_nonce < nonce
        → nonce_at p w key ≡ some d
        → r ≡ ok tt
        → (e : MgoLatestSwapNonce) × (nonce_at p w' key ≡ some e) × (e.swap_nonce ≡ nonce)
  unfolding write_nonce now call write_or_fail put_nonces pure
  write_nonce-ok address is_swapin nonce old d w low at q =
      let key = get_swap_nonce_key address is_swapin in
      let f : MgoLatestSwapNonce → MgoLatestSwapNonce = λ x. record x {
        address = to_lower address;
        is_swapin = is_swapin;
        swap_nonce = nonce;
        timestamp = (p.clock w.env).0;
      } in
      let higher : leb nonce old.swap_nonce ≡ false = ground arith in
      let written =
        laws.update_by_id-done w.latest_swap_nonces key f
          (write_result-done _ (rw (rw higher at q) refl)) in
      rw higher (f d, written key ∙ rw (text_eq_refl key, at) refl, refl)

  -- Two calls of UpdateLatestSwapNonce for one account, with a higher nonce and then with a lower one,
  -- both above the nonce that is kept. One after the other they leave at least the higher nonce. But
  -- the function takes no lock: when both have read the old item before either writes, the lower nonce
  -- replaces the higher one. The calls report no error, and the writes are atomic.
  pub update_latest_swap_nonce_race :
      (address : Text) (is_swapin : Bool) (low high : ℕ) (w : World p) (d : MgoLatestSwapNonce)
      → let key = get_swap_nonce_key address is_swapin in
        let first = update_latest_swap_nonce p address is_swapin high w in
        let second = update_latest_swap_nonce p address is_swapin low first.1 in
        let both = both_read p address is_swapin high low w in
        p.nonces.find_by_id w.latest_swap_nonces key ≡ found d
        → d.swap_nonce < low
        → low < high
        → first.0 ≡ ok tt
        → both.0 ≡ ok tt
        → ((e : MgoLatestSwapNonce) × (nonce_at p second.1 key ≡ some e) × (high ≤ e.swap_nonce))
          × ((e : MgoLatestSwapNonce) × (nonce_at p both.1 key ≡ some e) × (e.swap_nonce ≡ low))
  unfolding update_latest_swap_nonce both_read find_nonce gets
  update_latest_swap_nonce_race address is_swapin low high w d there l h q r =
      let key = get_swap_nonce_key address is_swapin in
      let at = laws.find_by_id-found w.latest_swap_nonces key d there in
      let write_high = write_nonce p address is_swapin high (found d) in
      let write_low = write_nonce p address is_swapin low (found d) in
      let (e, at', n) =
        write_nonce-ok address is_swapin high d d w (omega arith) at (rw there at q) in
      let (u, _, same) = after_ok p write_high (λ _. write_low) w tt (rw there at r) in
      (
        (let (e', at'', m) =
              update_latest_swap_nonce_mono address is_swapin low (write_high w).1 key e at' in
            (e', rw there at'', omega arith)),
        rw there (
            rw same (
              write_nonce-ok address is_swapin low d e (write_high w).1 l at'
                (rw same at (rw there at r)))),
      )
