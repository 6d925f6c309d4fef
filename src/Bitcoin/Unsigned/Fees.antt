-- ===== src/Bitcoin/Unsigned/Fees.antt =====
-- The loop of NewUnsignedTransaction ends, and its transaction pays the outputs and the fee.
use cross_chain_bridge.Common.{
  ℕ, zero, suc, ◌+◌, ◌-◌, ◌^◌, ◌≤◌, ◌<◌, ◌≡◌, ◌⊎◌, inl, inr, refl, Bool, true, false, Option, some,
  List, [], ◌∷◌, ◌++◌, Text, length, if◌then◌else◌, Bool-cases, arith,
}
use cross_chain_bridge.Common.Int.{ℤ, pos, ltb_ℤ, add64, add64-pos, sub64-pos, is_positive}
use cross_chain_bridge.Common.Exec.{Result, ok, err, panic, Exec, pure, after}
use cross_chain_bridge.Tokens.Errors.{Err}
use cross_chain_bridge.Bitcoin.Unsigned.{
  Wallet, Inputs, AuthoredTx, required_fee, estimate_size, with_change, Round, failed, again,
  enough, judge, judge_amounts, change_or_none, unsigned_loop, new_unsigned_transaction,
  insufficient_funds,
}

module _ (b : Wallet) (relay_fee_per_kb min_relay_fee : ℤ) (is_aggregate : Bool)
    (outputs : List b.TxOut) where
  abbrev pub fee_of : List Text → ℤ
  fee_of = required_fee b min_relay_fee relay_fee_per_kb outputs is_aggregate

  -- The outputs and the fees are amounts, none above the bound.
  pub record AreAmounts (bound : ℕ) : Type 0 where
    pub small : bound < 2 ^ 61
    pub target : ℕ
    pub target_lem : b.sum_output_values outputs ≡ pos target
    pub target_bound : target ≤ bound
    pub fee :
        (size : ℕ)
        → (f : ℕ) × (b.fee_for_serialize_size relay_fee_per_kb size ≡ pos f) × (f ≤ bound)
    pub min_fee : (m : ℕ) × (min_relay_fee ≡ pos m) × (m ≤ bound)

  required_fee-pos :
      {bound : ℕ}
      → AreAmounts bound
      → (scripts : List Text) → (f : ℕ) × (fee_of scripts ≡ pos f) × (f ≤ bound)
  unfolding required_fee
  required_fee-pos {bound} amounts scripts =
      let size = estimate_size b scripts outputs true is_aggregate in
      let (f, e, h) = amounts.fee size in
      let (m, e', h') = amounts.min_fee in
      elim (Bool-cases (ltb_ℤ (pos f) (pos m))) [
        | inl low ↦ (m, rw (e, e', low), h')
        | inr high ↦ (f, rw (e, e', high), h)
      ]

  -- What a round may come to, with inputs of `a` and the fee `f`.
  IsSoundRound : (a target target_fee f : ℕ) → Round b → Type 0
  IsSoundRound a target target_fee f (failed e) = Unit
  IsSoundRound a target target_fee f (again fee) = (fee ≡ pos f) × (target_fee < f)
  IsSoundRound a target target_fee f (enough change) =
      (c : ℕ) × (change ≡ pos c) × (a ≡ target + f + c)

  unless :
      (g : Bool) (a target target_fee f : ℕ)
      → target_fee < f
      → IsSoundRound a target target_fee f (if g then failed insufficient_funds else again (pos f))
  unfolding IsSoundRound
  unless true a target target_fee f h = tt
  unless false a target target_fee f h = (refl, h)

  judge_amounts-IsSoundRound :
      (a target target_fee f : ℕ)
      → a < 2 ^ 63
      → target + target_fee < 2 ^ 63
      → IsSoundRound a target target_fee f (
          judge_amounts b relay_fee_per_kb min_relay_fee is_aggregate outputs
            (pos a)
            (pos target)
            (pos target_fee)
            (pos f))
  unfolding judge_amounts IsSoundRound
  judge_amounts-IsSoundRound a target target_fee f ha ht =
      rw (add64-pos target target_fee ht)
        (elim (Bool-cases (ltb_ℤ (pos a) (pos (target + target_fee)))) [
          | inl short ↦ rw short tt
          | inr more ↦
              let low : target + target_fee ≤ a = ground arith in
              rw (more, sub64-pos a target (omega arith) ha)
                (elim (Bool-cases (ltb_ℤ (pos (a - target)) (pos f))) [
                  | inl small ↦ rw small (unless is_aggregate a target target_fee f (ground arith))
                  | inr big ↦
                      let e : f ≤ a - target = ground arith in
                      rw (big, sub64-pos (a - target) f e (omega arith)) (_, refl, omega arith)
                ])
        ])

  abbrev pub IsDust : ℕ → Text → Type 0
  IsDust c script = ltb_ℤ (pos c) (b.dust_threshold (length script)) ≡ true

  -- What becomes of the change `c`: it is nothing or dust and stays with the fee, or it is an output.
  abbrev pub HasChange : AuthoredTx b → ℕ → Type 0
  HasChange tx c =
      (tx.tx_out ≡ outputs) × ((c ≡ 0) ⊎ (script : Text) × IsDust c script)
      ⊎ (script : Text) × (tx.tx_out ≡ outputs ++ (b.new_tx_out (pos c) script ∷ []))
        × ¬ IsDust c script

  -- The transaction spends the inputs `i`, and records their scripts, values and total.
  abbrev pub Spends : AuthoredTx b → Inputs b → Type 0
  Spends tx i =
      (tx.tx_in ≡ i.inputs)
      × (tx.prev_input_values ≡ i.input_values)
      × (tx.prev_scripts ≡ i.scripts)
      × (tx.total_input ≡ i.total)

  -- The inputs `i` are an answer of the source.
  abbrev pub IsFetched : {S : Type 0} → (ℤ → Exec Err S (Inputs b)) → Inputs b → Type 0
  IsFetched {S} fetch_inputs i = (target : ℤ) × (s : S) × ((fetch_inputs target s).0 ≡ ok i)

  -- The transaction spends inputs of the source, and they pay the outputs, the fee that is required for
  -- them, and the change.
  abbrev pub Pays :
      {S : Type 0}
      → (ℤ → Exec Err S (Inputs b))
      → {bound : ℕ} → AreAmounts bound
      → Result Err (AuthoredTx b)
      → Type 0
  Pays fetch_inputs amounts (ok tx) =
      ((i : Inputs b) × IsFetched fetch_inputs i × Spends tx i)
      × ((a f c : ℕ) × (tx.total_input ≡ pos a)
          × (fee_of tx.prev_scripts ≡ pos f)
          × (a ≡ amounts.target + f + c)
          × HasChange tx c)
  Pays fetch_inputs amounts (err e) = Unit
  Pays fetch_inputs amounts panic = Unit

  module _ {S : Type 0} (fetch_inputs : ℤ → Exec Err S (Inputs b)) (fetch_change : Exec Err S Text)
      {bound : ℕ} (amounts : AreAmounts bound)
      (inputs : (target : ℤ) (s : S) (i : Inputs b)
        → (fetch_inputs target s).0 ≡ ok i
        → (a : ℕ) × (i.total ≡ pos a) × (a ≤ bound)) where
    with_change-Pays :
        (i : Inputs b) (a f c : ℕ) (script : Text)
        → IsFetched fetch_inputs i
        → i.total ≡ pos a
        → fee_of i.scripts ≡ pos f
        → a ≡ amounts.target + f + c
        → Pays fetch_inputs amounts (ok (with_change b outputs (pos c) i script))
    unfolding with_change
    with_change-Pays i a f c script from e g h =
        elim (Bool-cases (ltb_ℤ (pos c) (b.dust_threshold (length script)))) [
          | inl dust ↦ rw dust (
            (i, from, (refl, refl, refl, refl)),
            (a, f, c, e, g, h, inl (refl, inr (script, dust))),
          )
          | inr more ↦ rw more (
            (i, from, (refl, refl, refl, refl)),
            (a, f, c, e, g, h, inr (script, refl, λ dust. cc (more, dust))),
          )
        ]

    change_or_none-Pays :
        (i : Inputs b) (a f c : ℕ) (s : S)
        → IsFetched fetch_inputs i
        → i.total ≡ pos a
        → fee_of i.scripts ≡ pos f
        → a ≡ amounts.target + f + c
        → Pays fetch_inputs amounts
            (change_or_none b relay_fee_per_kb min_relay_fee is_aggregate outputs fetch_inputs
              fetch_change i
              (pos c)
              s).0
    unfolding change_or_none pure
    change_or_none-Pays i a f c s from e g h = elim (Bool-cases (is_positive (pos c))) [
      | inl some_change ↦ rw some_change (go (fetch_change s).0)
      | inr no_change ↦
          let z : c ≡ 0 = ground arith in
          rw no_change ((i, from, (refl, refl, refl, refl)), (a, f, c, e, g, h, inl (refl, inl z)))
    ]
      where
        go :
            (r : Result Err Text)
            → Pays fetch_inputs amounts
                (after r
                  (λ script. pure {E = Err} {S = S} (with_change b outputs (pos c) i script))
                  (fetch_change s).1).0
        go (ok script) = with_change-Pays i a f c script from e g h
        go (err e) = tt
        go panic = tt

    loop : ℕ → ℤ → S → Option (Result Err (AuthoredTx b) × S)
    loop =
        unsigned_loop b relay_fee_per_kb min_relay_fee is_aggregate outputs fetch_inputs
          fetch_change

    abbrev pub Ends : Option (Result Err (AuthoredTx b) × S) → Type 0
    Ends o = (r : Result Err (AuthoredTx b) × S) × (o ≡ some r) × Pays fetch_inputs amounts r.0

    -- The rest of the loop behind a round.
    round-Ends :
        (n target_fee : ℕ) (i : Inputs b) (a f : ℕ) (s : S) (round : Round b)
        → bound < suc n + target_fee
        → IsFetched fetch_inputs i
        → i.total ≡ pos a
        → fee_of i.scripts ≡ pos f
        → f ≤ bound
        → IsSoundRound a amounts.target target_fee f round
        → ((target_fee : ℕ)
            → target_fee ≤ bound
            → bound < n + target_fee
            → Ends (loop n (pos target_fee) s))
        → Ends (elim round [
          | failed e ↦ some (err e, s)
          | again fee ↦ loop n fee s
          | enough change ↦ some (
              change_or_none b relay_fee_per_kb min_relay_fee is_aggregate outputs fetch_inputs
                fetch_change i change s)
        ])
    unfolding IsSoundRound
    round-Ends n target_fee i a f s (failed e) k from t g m sound rec = (_, refl, tt)
    round-Ends n target_fee i a f s (again fee) k from t g m (z, h) rec =
        rw z (rec f m (omega arith))
    round-Ends n target_fee i a f s (enough change) k from t g m (c, z, h) rec =
        rw z (_, refl, change_or_none-Pays i a f c s from t g h)

    unsigned_loop-Ends :
        (n target_fee : ℕ) (s : S)
        → target_fee ≤ bound
        → bound < n + target_fee
        → Ends (loop n (pos target_fee) s)
    unfolding loop unsigned_loop judge
    unsigned_loop-Ends zero target_fee s h k = absurd (omega arith)
    unsigned_loop-Ends (suc n) target_fee s h k =
        go (fetch_inputs (add64 (b.sum_output_values outputs) (pos target_fee)) s).0 refl
          (λ f x y. unsigned_loop-Ends n f _ x y)
      where
        r : Result Err (Inputs b) × S
        r = fetch_inputs (add64 (b.sum_output_values outputs) (pos target_fee)) s

        go :
            (o : Result Err (Inputs b))
            → r.0 ≡ o
            → ((f : ℕ) → f ≤ bound → bound < n + f → Ends (loop n (pos f) r.1))
            → Ends (loop (suc n) (pos target_fee) s)
        go (err e) q rec = rw (unsigned_loop, q) (_, refl, tt)
        go panic q rec = rw (unsigned_loop, q) (_, refl, tt)
        go (ok i) q rec =
            let from : IsFetched fetch_inputs i =
              (add64 (b.sum_output_values outputs) (pos target_fee), s, q) in
            let (a, t, m) = inputs _ s i q in
            let (f, g, fb) = required_fee-pos amounts i.scripts in
            let sound =
              judge_amounts-IsSoundRound a amounts.target target_fee f
                (omega (arith, amounts.small))
                (omega (arith, amounts.small, amounts.target_bound)) in
            rw (unsigned_loop, q)
              (round-Ends n target_fee i a f r.1 _ k from t g fb
                (rw (t, amounts.target_lem, g) sound) rec)

    -- NewUnsignedTransaction ends, and a transaction that it gives spends the inputs of one answer of
    -- InputSource, with their scripts, values and total; and it pays for itself: that total is the
    -- outputs, the fee that is required for the inputs, and a change that is nothing, or dust that is
    -- left to the miners, or the last output. What InputSource gives and all amounts stay below the
    -- bound, which is below 2 ^ 61, and one round more than the bound is fuel enough.
    pub new_unsigned_transaction-Ends :
        (s : S)
        → Ends (
            new_unsigned_transaction b relay_fee_per_kb min_relay_fee is_aggregate outputs
              fetch_inputs fetch_change
              (bound + 1)
              s)
    unfolding new_unsigned_transaction loop
    new_unsigned_transaction-Ends s =
        let (f, e, h) = amounts.fee (b.estimate_serialize_size 1 outputs true) in
        rw e (unsigned_loop-Ends (bound + 1) f s h (omega arith))
