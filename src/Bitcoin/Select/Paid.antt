-- ===== src/Bitcoin/Select/Paid.antt =====
-- The inputs that selectUtxos gives.
use cross_chain_bridge.Common.{
  ℕ, zero, suc, ◌+◌, ◌%◌, ◌^◌, ◌≤◌, ◌<◌, ◌≡◌, refl, subst, true, false, Option, none, some, List,
  [], ◌∷◌, ◌++◌, All, Text, ltb, Bool-cases, inl, inr, arith,
}
use cross_chain_bridge.Common.Int.{ℤ, pos, pos_part, ltb_ℤ, add64-pos, wrap64}
use cross_chain_bridge.Common.Exec.{
  Result, ok, err, panic, Exec, pure, fail, crash, after, attempt, attempted, lift, ◌>>=◌,
}
use cross_chain_bridge.Tokens.Errors.{Err}
use cross_chain_bridge.Bitcoin.Electrs.{ElectUtxo, deref}
use cross_chain_bridge.Bitcoin.Unsigned.{Wallet, Inputs}
use cross_chain_bridge.Bitcoin.Select.{
  Node, is_valid_value, with_input, take_or_skip, usable, select_loop, select_utxos, with_retry,
  again_on_error, no_inputs,
}

-- What unspent outputs are worth together.
unfoldable pub worth : List ElectUtxo → ℕ
worth [] = 0
worth (u ∷ us) = elim u.value [ none ↦ 0 | some v ↦ v ] + worth us

unfoldable pub values_total : List ℤ → ℕ
values_total [] = 0
values_total (v ∷ vs) = pos_part v + values_total vs

values_total-snoc :
    (vs : List ℤ) (v : ℤ) → values_total (vs ++ (v ∷ [])) ≡ values_total vs + pos_part v
unfolding values_total
values_total-snoc [] v = omega arith
values_total-snoc (w ∷ vs) v = omega (arith, values_total-snoc vs v)

All-snoc {ℓ} :
    {A : Type 0} (P : A → Type ℓ) (xs : List A) (x : A) → All P xs → P x → All P (xs ++ (x ∷ []))
All-snoc P [] x a h = (h, tt)
All-snoc P (y ∷ xs) x (hy, a) h = (hy, All-snoc P xs x a h)

valid-wrap64 :
    (v : ℕ) → is_valid_value (wrap64 (pos v)) ≡ true → (k : ℕ) × (wrap64 (pos v) ≡ pos k) × (k ≤ v)
unfolding is_valid_value wrap64
valid-wrap64 v h = elim (Bool-cases (ltb (v % 2 ^ 64) (2 ^ 63))) [
  | inl low ↦ (v % 2 ^ 64, rw low, omega arith)
  | inr high ↦ absurd (ground arith)
]

module _ {S A : Type 0} where
  -- What a call with retries gives, one of the calls gave.
  pub with_retry-ok :
      (n : ℕ) (m : Exec Err S A) (s : S) (a : A)
      → (with_retry n m s).0 ≡ ok a
      → (s' : S) × ((m s').0 ≡ ok a)
  unfolding with_retry attempt pure crash
  with_retry-ok zero m s a q = (s, q)
  with_retry-ok (suc n) m s a q = go (m s).0 refl q (λ s'. with_retry-ok n m s' a)
    where
      go :
          (r : Result Err A)
          → (m s).0 ≡ r
          → (after (attempted r) (again_on_error (with_retry n m)) (m s).1).0 ≡ ok a
          → ((s' : S) → (with_retry n m s').0 ≡ ok a → (s'' : S) × ((m s'').0 ≡ ok a))
          → (s'' : S) × ((m s'').0 ≡ ok a)
      go (ok x) e q' rec = (s, cc)
      go (err x) e q' rec = rec (m s).1 q'
      go panic e q' rec = cc

module _ (b : Wallet) {S : Type 0} (node : Node b S) where
  usable-valid :
      (from script : Text) (utxo : ElectUtxo) (value : ℤ) (s : S) (i : b.TxIn)
      → (usable b node from script utxo value s).0 ≡ ok (some i)
      → is_valid_value value ≡ true
  unfolding usable pure
  usable-valid from script utxo value s i h = elim (Bool-cases (is_valid_value value)) [
    | inl yes' ↦ yes'
    | inr no' ↦ absurd (cc (rw no' at h))
  ]

  -- The inputs come from outputs worth at least the target, and not more than the outputs on hand.
  pub record IsPaid (target : ℤ) (script : Text) (on_hand : ℕ) (i : Inputs b) : Type 0 where
    pub amount : ℕ
    pub total : i.total ≡ pos amount
    pub reached : ltb_ℤ (pos amount) target ≡ false
    pub covered : amount ≤ on_hand
    pub values : values_total i.input_values ≡ amount
    pub scripts : All (λ s. s ≡ script) i.scripts

  -- Before the target is reached.
  record IsGathered (script : Text) (amount : ℕ) (i : Inputs b) : Type 0 where
    total : i.total ≡ pos amount
    values : values_total i.input_values ≡ amount
    scripts : All (λ s. s ≡ script) i.scripts

  with_input-IsGathered :
      (script : Text) (amount k : ℕ) (i : Inputs b) (tx_in : b.TxIn)
      → amount + k < 2 ^ 61
      → IsGathered script amount i
      → IsGathered script (amount + k) (with_input b node i (pos k) tx_in script)
  unfolding with_input
  with_input-IsGathered script amount k i tx_in h g = record {
    total = rw g.total (add64-pos amount k (omega arith));
    values = omega (arith, values_total-snoc i.input_values (pos k), g.values);
    scripts = All-snoc (λ s. s ≡ script) i.scripts script g.scripts refl;
  }

  take_or_skip-IsPaid :
      (target : ℤ) (script : Text) (k amount on_hand : ℕ) (acc : Inputs b)
      (rest : Inputs b → Exec Err S (Inputs b)) (o : Option b.TxIn) (s : S) (i : Inputs b)
      → amount + k ≤ on_hand
      → on_hand < 2 ^ 61
      → IsGathered script amount acc
      → ((amount' : ℕ) (acc' : Inputs b)
          → amount' ≤ amount + k
          → IsGathered script amount' acc'
          → (rest acc' s).0 ≡ ok i
          → IsPaid target script on_hand i)
      → (take_or_skip b node target script (pos k) acc rest o s).0 ≡ ok i
      → IsPaid target script on_hand i
  unfolding take_or_skip pure
  take_or_skip-IsPaid target script k amount on_hand acc rest none s i h l g rec q =
      rec amount acc (omega arith) g q
  take_or_skip-IsPaid target script k amount on_hand acc rest (some tx_in) s i h l g rec q =
      let acc' = with_input b node acc (pos k) tx_in script in
      let g' = with_input-IsGathered script amount k acc tx_in (omega arith) g in
      elim (Bool-cases (ltb_ℤ acc'.total target)) [
        | inl short ↦ rec (amount + k) acc' (omega arith) g' (rw short at q)
        | inr enough ↦
            let e : acc' ≡ i = cc (rw enough at q) in
            subst (IsPaid target script on_hand) e (record {
              amount = amount + k;
              total = g'.total;
              reached = rw g'.total at enough;
              covered = h;
              values = g'.values;
              scripts = g'.scripts;
            })
      ]

  select_loop-IsPaid :
      (from : Text) (target : ℤ) (script : Text) (utxos : List ElectUtxo) (acc : Inputs b) (s : S)
      (amount on_hand : ℕ) (i : Inputs b)
      → amount + worth utxos ≤ on_hand
      → on_hand < 2 ^ 61
      → IsGathered script amount acc
      → (select_loop b node from target script utxos acc s).0 ≡ ok i
      → IsPaid target script on_hand i
  unfolding select_loop worth deref pure fail crash
  select_loop-IsPaid from target script [] acc s amount on_hand i h l g q = cc
  select_loop-IsPaid from target script (utxo ∷ utxos) acc s amount on_hand i h l g q =
      by_value utxo.value h q
        (λ a acc' s' h'. select_loop-IsPaid from target script utxos acc' s' a on_hand i h' l)
    where
      Rec : Type 0
      Rec =
          (a : ℕ) (acc' : Inputs b) (s' : S)
          → a + worth utxos ≤ on_hand
          → IsGathered script a acc'
          → (select_loop b node from target script utxos acc' s').0 ≡ ok i
          → IsPaid target script on_hand i

      by_usable :
          (v : ℕ) (r : Result Err (Option b.TxIn)) (s' : S)
          → ((tx_in : b.TxIn) → r ≡ ok (some tx_in) → is_valid_value (wrap64 (pos v)) ≡ true)
          → amount + (v + worth utxos) ≤ on_hand
          → (after r
              (take_or_skip b node target script
                (wrap64 (pos v))
                acc
                (select_loop b node from target script utxos))
              s').0
            ≡ ok i
          → Rec
          → IsPaid target script on_hand i
      by_usable v (ok none) s' valid h' q' rec = rec amount acc s' (omega arith) g q'
      by_usable v (ok (some tx_in)) s' valid h' q' rec =
          let (k, e, m) = valid-wrap64 v (valid tx_in refl) in
          take_or_skip-IsPaid target script k amount on_hand acc
            (select_loop b node from target script utxos) (some tx_in) s' i (omega arith) l g
            (λ a acc' m' g' q''. rec a acc' s' (omega arith) g' q'') (rw e at q')
      by_usable v (err e) s' valid h' q' rec = cc
      by_usable v panic s' valid h' q' rec = cc

      by_value :
          (o : Option ℕ)
          → amount + (elim o [ none ↦ 0 | some v ↦ v ] + worth utxos) ≤ on_hand
          → (after
              (deref {E = Err} {S = S} o s).0
              (λ v.
                usable b node from script utxo (wrap64 (pos v))
                >>= take_or_skip b node target script
                    (wrap64 (pos v))
                    acc
                    (select_loop b node from target script utxos))
              (deref {E = Err} {S = S} o s).1).0
            ≡ ok i
          → Rec
          → IsPaid target script on_hand i
      by_value none h' q' rec = cc
      by_value (some v) h' q' rec =
          by_usable v (usable b node from script utxo (wrap64 (pos v)) s).0 _
            (λ tx_in e. usable-valid from script utxo (wrap64 (pos v)) s tx_in e) h' q' rec

  pub select_utxos-IsPaid :
      (from : Text) (target : ℤ) (s : S) (on_hand : ℕ) (i : Inputs b)
      → on_hand < 2 ^ 61
      → ((s' : S) (utxos : List ElectUtxo)
          → (node.find_utxos from s').0 ≡ ok utxos
          → worth utxos ≤ on_hand)
      → (select_utxos b node from target s).0 ≡ ok i
      → (script : Text) × (node.get_pay_to_addr_script from ≡ ok script)
        × IsPaid target script on_hand i
  unfolding select_utxos lift values_total
  select_utxos-IsPaid from target s on_hand i l hand q =
      by_script (node.get_pay_to_addr_script from) refl q
    where
      fetch : Exec Err S (List ElectUtxo)
      fetch = with_retry 2 (node.find_utxos from)

      by_utxos :
          (script : Text) (r : Result Err (List ElectUtxo))
          → (fetch s).0 ≡ r
          → (after r
              (λ utxos. select_loop b node from target script utxos (no_inputs b node))
              (fetch s).1).0
            ≡ ok i
          → IsPaid target script on_hand i
      by_utxos script (ok utxos) e q' =
          let (s', e') = with_retry-ok 2 (node.find_utxos from) s utxos e in
          select_loop-IsPaid from target script utxos _ (fetch s).1 0 on_hand i
            (omega (arith, hand s' utxos e')) l
            (record { total = refl; values = refl; scripts = tt }) q'
      by_utxos script (err x) e q' = cc
      by_utxos script panic e q' = cc

      by_script :
          (o : Result Err Text)
          → node.get_pay_to_addr_script from ≡ o
          → (after o
              (λ script.
                fetch >>= λ utxos. select_loop b node from target script utxos (no_inputs b node))
              s).0
            ≡ ok i
          → (script : Text) × (node.get_pay_to_addr_script from ≡ ok script)
            × IsPaid target script on_hand i
      by_script (ok script) e q' = (script, e, by_utxos script (fetch s).0 refl q')
      by_script (err x) e q' = cc
      by_script panic e q' = cc
