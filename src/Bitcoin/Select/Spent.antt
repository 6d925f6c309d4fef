-- ===== src/Bitcoin/Select/Spent.antt =====
-- Which unspent outputs the inputs of selectUtxos spend.
use mathlib.Core.List.{append_assoc, append-nil}
use cross_chain_bridge.Common.{
  ℕ, ◌%◌, ◌^◌, ◌≡◌, ◌⊎◌, inl, inr, refl, subst, sym, ◌∙◌, Bool, true, false, Option, none, some,
  List, [], ◌∷◌, ◌++◌, Text, length, leb, get_elem?, Bool-cases, arith, if◌then◌else◌,
}
use cross_chain_bridge.Common.Int.{ℤ, pos, ltb_ℤ, wrap64}
use cross_chain_bridge.Common.Exec.{
  Result, ok, err, panic, Exec, pure, fail, crash, attempt, lift, ◌>>=◌,
}
use cross_chain_bridge.Tokens.Errors.{Err}
use cross_chain_bridge.Platform.Frame.{>>=_cases}
use cross_chain_bridge.Bitcoin.Electrs.{ElectUtxo, ElectTx, ElectTxOut, deref}
use cross_chain_bridge.Bitcoin.Unsigned.{Wallet, Inputs}
use cross_chain_bridge.Bitcoin.Select.{
  Node, is_valid_value, with_input, take_or_skip, usable, usable_in, found_tx, pays_to, select_loop,
  select_utxos, with_retry,
}
use cross_chain_bridge.Bitcoin.Select.Paid.{with_retry-ok}

-- What the second of two actions returned, it returned behind the value of the first.
bind-ok :
    {S A B : Type 0} (m : Exec Err S A) (f : A → Exec Err S B) (s : S) (b : B)
    → ((m >>= f) s).0 ≡ ok b
    → (a : A) × ((m s).0 ≡ ok a) × ((f a (m s).1).0 ≡ ok b)
bind-ok m f s b h = elim (>>=_cases m f s) [
  | inl (a, q, e) ↦ (a, q, rw e at h)
  | inr (_, failed, _) ↦ absurd (cc (rw h at failed))
]

deref-ok :
    {S A : Type 0} (o : Option A) (s : S) (a : A) → (deref {E = Err} o s).0 ≡ ok a → o ≡ some a
unfolding deref pure crash
deref-ok none s a h = absurd (cc h)
deref-ok (some x) s a h = ground arith

ok_injective : {A : Type 0} {x y : A} → Path (Result Err A) (ok x) (ok y) → x ≡ y
ok_injective h = cc h

module _ (b : Wallet) {S : Type 0} (node : Node b S) where
  -- The input spends the output and is recorded with its value, an int64.
  abbrev pub SpendsOutput : Text → ElectUtxo → b.TxIn → ℤ → Type 0
  SpendsOutput script u i v =
      (txid : Text) × (vout : ℕ) × (value : ℕ) × (u.txid ≡ some txid)
      × (u.vout ≡ some vout)
      × (u.value ≡ some value)
      × (node.new_tx_in txid vout script ≡ ok i)
      × (v ≡ wrap64 (pos value))

  -- The inputs spend some of the outputs, in their order and each at most once.
  abbrev pub SpendsSome : Text → List ElectUtxo → List b.TxIn → List ℤ → Type 0
  SpendsSome script [] is vs = (is ≡ []) × (vs ≡ [])
  SpendsSome script (u ∷ us) is vs =
      ((i : b.TxIn) × (is' : List b.TxIn) × (v : ℤ) × (vs' : List ℤ) × (is ≡ i ∷ is')
        × (vs ≡ v ∷ vs')
        × SpendsOutput script u i v
        × SpendsSome script us is' vs')
      ⊎ SpendsSome script us is vs

  SpendsSome-none : (script : Text) (us : List ElectUtxo) → SpendsSome script us [] []
  SpendsSome-none script [] = (refl, refl)
  SpendsSome-none script (u ∷ us) = inr (SpendsSome-none script us)

  made_by :
      (mine : Bool) (r : Result Err b.TxIn) (i : b.TxIn)
      → (if mine then elim r as (λ _. Option b.TxIn) [ ok i ↦ some i | _ ↦ none ] else none)
        ≡ some i
      → r ≡ ok i
  made_by true (ok x) i h = ground arith
  made_by true (err e) i h = absurd (cc h)
  made_by true panic i h = absurd (cc h)
  made_by false r i h = absurd (cc h)

  abbrev IsMade : Text → ElectUtxo → b.TxIn → Type 0
  IsMade script u i =
      (txid : Text) × (vout : ℕ) × (u.txid ≡ some txid)
      × (u.vout ≡ some vout)
      × (node.new_tx_in txid vout script ≡ ok i)

  by_output :
      (from script : Text) (utxo : ElectUtxo) (vout : ℕ) (o : Option ElectTxOut) (s : S)
      (i : b.TxIn)
      → utxo.vout ≡ some vout
      → ((elim o as (λ _. Exec Err S (Option b.TxIn)) [
        | none ↦ crash
        | some output ↦ do
          mine ← pays_to b node from output
          txid ← deref utxo.txid
          pure (
              if mine
              then elim (node.new_tx_in txid vout script) [ ok i ↦ some i | _ ↦ none ]
              else none)
      ])
          s).0
        ≡ ok (some i)
      → IsMade script utxo i
  unfolding pure crash
  by_output from script utxo vout none s i at h = absurd (cc h)
  by_output from script utxo vout (some output) s i at h =
      let (mine, q, h') = bind-ok (pays_to b node from output) _ s (some i) h in
      let (txid, q', h'') = bind-ok (deref utxo.txid) _ _ (some i) h' in
      (
        txid,
        vout,
        deref-ok utxo.txid _ txid q',
        at,
        made_by mine (node.new_tx_in txid vout script) i (ok_injective h''),
      )

  usable_in-IsMade :
      (from script : Text) (utxo : ElectUtxo) (tx : ElectTx) (s : S) (i : b.TxIn)
      → (usable_in b node from script utxo tx s).0 ≡ ok (some i)
      → IsMade script utxo i
  unfolding usable_in pure
  usable_in-IsMade from script utxo tx s i h =
      let (vout, q, h') = bind-ok (deref utxo.vout) _ s (some i) h in
      elim (Bool-cases (leb (length tx.vout % 2 ^ 32) vout)) [
        | inl beyond ↦ absurd (cc (rw beyond at h'))
        | inr there ↦
            by_output from script utxo vout (get_elem? tx.vout vout) _ i
              (deref-ok utxo.vout s vout q) (rw there at h')
      ]

  found_tx-IsMade :
      (from script : Text) (utxo : ElectUtxo) (r : Result Err ElectTx) (s : S) (i : b.TxIn)
      → (found_tx b node from script utxo r s).0 ≡ ok (some i)
      → IsMade script utxo i
  unfolding found_tx pure crash
  found_tx-IsMade from script utxo (ok tx) s i h = usable_in-IsMade from script utxo tx s i h
  found_tx-IsMade from script utxo (err e) s i h = absurd (cc h)
  found_tx-IsMade from script utxo panic s i h = absurd (cc h)

  usable-IsMade :
      (from script : Text) (utxo : ElectUtxo) (value : ℤ) (s : S) (i : b.TxIn)
      → (usable b node from script utxo value s).0 ≡ ok (some i)
      → IsMade script utxo i
  unfolding usable pure
  usable-IsMade from script utxo value s i h = elim (Bool-cases (is_valid_value value)) [
    | inr no' ↦ absurd (cc (rw no' at h))
    | inl yes' ↦
        let (txid, q, h') = bind-ok (deref utxo.txid) _ s (some i) (rw yes' at h) in
        let (r, q', h'') =
          bind-ok (attempt (with_retry 2 (node.get_transaction_by_hash txid))) _ _ (some i) h' in
        found_tx-IsMade from script utxo r _ i h''
  ]

  -- The inputs added to `acc` spend some of the outputs.
  abbrev Adds : Text → List ElectUtxo → Inputs b → Inputs b → Type 0
  Adds script us acc i =
      (is : List b.TxIn) × (vs : List ℤ) × (i.inputs ≡ acc.inputs ++ is)
      × (i.input_values ≡ acc.input_values ++ vs)
      × SpendsSome script us is vs

  Adds-skip :
      (script : Text) (u : ElectUtxo) (us : List ElectUtxo) (acc i : Inputs b)
      → Adds script us acc i
      → Adds script (u ∷ us) acc i
  Adds-skip script u us acc i (is, vs, e, e', h) = (is, vs, e, e', inr h)

  Adds-take :
      (script : Text) (u : ElectUtxo) (us : List ElectUtxo) (acc i : Inputs b) (tx_in : b.TxIn)
      (v : ℤ)
      → SpendsOutput script u tx_in v
      → Adds script us (with_input b node acc v tx_in script) i
      → Adds script (u ∷ us) acc i
  unfolding with_input
  Adds-take script u us acc i tx_in v one (is, vs, e, e', h) = (
    tx_in ∷ is,
    v ∷ vs,
    e ∙ append_assoc acc.inputs (tx_in ∷ []) is,
    e' ∙ append_assoc acc.input_values (v ∷ []) vs,
    inl (tx_in, is, v, vs, refl, refl, one, h),
  )

  Adds-none : (script : Text) (us : List ElectUtxo) (acc : Inputs b) → Adds script us acc acc
  Adds-none script us acc = (
    [],
    [],
    sym (append-nil acc.inputs),
    sym (append-nil acc.input_values),
    SpendsSome-none script us,
  )

  select_loop-Adds :
      (from : Text) (target : ℤ) (script : Text) (us : List ElectUtxo) (acc : Inputs b) (s : S)
      (i : Inputs b)
      → (select_loop b node from target script us acc s).0 ≡ ok i
      → Adds script us acc i
  unfolding select_loop take_or_skip pure fail
  select_loop-Adds from target script [] acc s i h = absurd (cc h)
  select_loop-Adds from target script (u ∷ us) acc s i h =
      let (n, q, h') = bind-ok (deref u.value) _ s i h in
      let v = wrap64 (pos n) in
      let s' = (deref {E = Err} u.value s).1 in
      let (o, q', h'') = bind-ok (usable b node from script u v) _ s' i h' in
      go n o _ (deref-ok u.value s n q)
        (λ tx_in e. usable-IsMade from script u v s' tx_in (q' ∙ rw e refl)) h''
        (λ acc' s'' h. select_loop-Adds from target script us acc' s'' i h)
    where
      go :
          (n : ℕ) (o : Option b.TxIn) (s' : S)
          → u.value ≡ some n
          → ((tx_in : b.TxIn) → o ≡ some tx_in → IsMade script u tx_in)
          → (take_or_skip b node target script
              (wrap64 (pos n))
              acc
              (select_loop b node from target script us)
              o
              s').0
            ≡ ok i
          → ((acc' : Inputs b) (s'' : S)
              → (select_loop b node from target script us acc' s'').0 ≡ ok i
              → Adds script us acc' i)
          → Adds script (u ∷ us) acc i
      go n none s' at made h rec = Adds-skip script u us acc i (rec acc s' h)
      go n (some tx_in) s' at made h rec =
          let (txid, vout, t, o', m) = made tx_in refl in
          let acc' = with_input b node acc (wrap64 (pos n)) tx_in script in
          Adds-take script u us acc i tx_in (wrap64 (pos n)) (txid, vout, n, t, o', at, m, refl)
            (elim (Bool-cases (ltb_ℤ acc'.total target)) [
              | inl short ↦ rec acc' s' (rw short at h)
              | inr enough ↦
                  let e : acc' ≡ i = ok_injective (rw enough at h) in
                  subst (Adds script us acc') e (Adds-none script us acc')
            ])

  -- The inputs are of outputs that the server gave for the sender.
  pub select_utxos-SpendsSome :
      (from : Text) (target : ℤ) (s : S) (i : Inputs b)
      → (select_utxos b node from target s).0 ≡ ok i
      → (script : Text) × (utxos : List ElectUtxo) × (s' : S) × (node.get_pay_to_addr_script from
          ≡ ok script)
        × ((node.find_utxos from s').0 ≡ ok utxos)
        × SpendsSome script utxos i.inputs i.input_values
  unfolding select_utxos lift
  select_utxos-SpendsSome from target s i h =
      let (script, q, h') = bind-ok (lift (node.get_pay_to_addr_script from)) _ s i h in
      let (utxos, q', h'') = bind-ok (with_retry 2 (node.find_utxos from)) _ s i h' in
      let (s', e) = with_retry-ok 2 (node.find_utxos from) s utxos q' in
      let (is, vs, a, a', some') = select_loop-Adds from target script utxos _ _ i h'' in
      (script, utxos, s', q, e, rw (a, a') some')
