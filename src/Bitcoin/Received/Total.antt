-- ===== src/Bitcoin/Received/Total.antt =====
-- GetReceivedValue sums up what the outputs pay.
use cross_chain_bridge.Common.{
  ℕ, ◌+◌, ◌%◌, ◌^◌, ◌≡◌, ◌<◌, refl, Bool, false, ◌&&◌, ◌||◌, Option, none, some, List, [], ◌∷◌,
  Text, lit, text_eq, text_eq_iff, if◌then◌else◌, Option-cases, inl, inr, arith,
}
use cross_chain_bridge.Bitcoin.Electrs.{ElectTxOut, op_return_type}
use cross_chain_bridge.Bitcoin.Received.{
  Received, receive, receive_output, received_from, get_received_value,
}

-- Whether an output is of the type and goes to the address.
unfoldable pub goes_to : Text → Text → ElectTxOut → Bool
goes_to receiver pubkey_type output =
    elim output.scriptpubkey_type [ none ↦ false | some t ↦ text_eq t pubkey_type ]
    && elim output.scriptpubkey_address [ none ↦ false | some a ↦ text_eq a receiver ]

-- The sum of the outputs that go to the address, and whether there is one.
unfoldable pub total_to : Text → Text → List ElectTxOut → ℕ
total_to receiver pubkey_type [] = 0
total_to receiver pubkey_type (output ∷ outputs) =
    (if goes_to receiver pubkey_type output then elim output.value [ none ↦ 0 | some v ↦ v ] else 0)
    + total_to receiver pubkey_type outputs

unfoldable pub any_to : Text → Text → List ElectTxOut → Bool
any_to receiver pubkey_type [] = false
any_to receiver pubkey_type (output ∷ outputs) =
    goes_to receiver pubkey_type output || any_to receiver pubkey_type outputs

module _ (receiver pubkey_type : Text) (other : text_eq op_return_type pubkey_type ≡ false) where
  -- What one output adds.
  abbrev Adds : ElectTxOut → Received → Received → Type 0
  Adds output r r' =
      (r'.value
        ≡ (r.value
            + (if goes_to receiver pubkey_type output
                then elim output.value [ none ↦ 0 | some v ↦ v ]
                else 0))
          % 2 ^ 64)
      × (r'.right_receiver ≡ r.right_receiver || goes_to receiver pubkey_type output)

  receive_output-Adds :
      (output : ElectTxOut) (r r' : Received)
      → r.value < 2 ^ 64
      → receive_output receiver pubkey_type output r ≡ some r'
      → Adds output r r'
  unfolding receive_output receive goes_to
  receive_output-Adds output r r' b h =
      by_fields output.scriptpubkey_type output.scriptpubkey_address output.value refl refl refl
    where
      by_fields :
          (t a : Option Text) (v : Option ℕ)
          → output.scriptpubkey_type ≡ t
          → output.scriptpubkey_address ≡ a
          → output.value ≡ v
          → Adds output r r'
      by_fields none a v e f g = cc
      by_fields (some t) none v e f g = ground (
        arith,
        text_eq_iff t op_return_type,
        text_eq_iff t pubkey_type,
        text_eq_iff op_return_type pubkey_type,
      )
      by_fields (some t) (some a) none e f g = ground (
        arith,
        text_eq_iff t op_return_type,
        text_eq_iff t pubkey_type,
        text_eq_iff op_return_type pubkey_type,
      )
      by_fields (some t) (some a) (some v) e f g = ground (
        arith,
        text_eq_iff t op_return_type,
        text_eq_iff t pubkey_type,
        text_eq_iff op_return_type pubkey_type,
      )

  received_from-total :
      (outputs : List ElectTxOut) (r r' : Received)
      → r.value < 2 ^ 64
      → received_from receiver pubkey_type outputs r ≡ some r'
      → (r'.value ≡ (r.value + total_to receiver pubkey_type outputs) % 2 ^ 64)
        × (r'.right_receiver ≡ r.right_receiver || any_to receiver pubkey_type outputs)
  unfolding received_from total_to any_to
  received_from-total [] r r' b h = ground arith
  received_from-total (output ∷ outputs) r r' b h =
      elim (Option-cases (receive_output receiver pubkey_type output r)) [
        | inl e ↦ absurd (cc (rw (received_from, e) at h))
        | inr (q, e) ↦
            let (v, g) = receive_output-Adds output r q b e in
            let (w, k) =
              received_from-total outputs q r' (omega (arith, v)) (rw (received_from, e) at h) in
            (omega (arith, v, w), ground arith)
      ]

  -- GetReceivedValue gives the sum of the outputs of the type that go to the address, modulo 2 ^ 64,
  -- and says whether there is one, when it does not panic on a missing field. The type is not that of
  -- a memo.
  pub get_received_value-total :
      (vout : List ElectTxOut) (r : Received)
      → get_received_value vout receiver pubkey_type ≡ some r
      → (r.value ≡ total_to receiver pubkey_type vout % 2 ^ 64)
        × (r.right_receiver ≡ any_to receiver pubkey_type vout)
  unfolding get_received_value
  get_received_value-total vout r h =
      let (v, g) =
        received_from-total vout
          (record { value = 0; memo_script = lit ""; right_receiver = false }) r (omega arith) h in
      (omega (arith, v), g)
