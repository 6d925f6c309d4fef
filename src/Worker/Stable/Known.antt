-- ===== src/Worker/Stable/Known.antt =====
-- What getSwapTxStatus may find.
use cross_chain_bridge.Common.{
  ℕ, suc, get_elem?, ap, ◌∙◌, ◌<◌, ◌≡◌, ◌≢◌, ◌⊎◌, inl, inr, refl, Bool, Option, none, some, List,
  [], ◌∷◌, Text, text_eq, ltb, arith, Bool-cases,
}
use cross_chain_bridge.Common.Exec.{Result, ok, err, panic, attempt, pure, ◌>>=◌}
use cross_chain_bridge.Tokens.Errors.{Err}
use cross_chain_bridge.Tokens.Types.{TxStatus}
use cross_chain_bridge.Platform.{Platform, World, M, call_result}
use cross_chain_bridge.Mongodb.Documents.{MgoSwapResult}
use cross_chain_bridge.Worker.Stable.{
  in_block, with_old, rest_of, old_tx_status, get_swap_tx_status,
}

-- The result with one of the earlier transactions, and with the value at the same place where there is
-- one.
abbrev pub IsOld : MgoSwapResult → List Text → List Text → MgoSwapResult → Type 0
IsOld swap olds values found =
    (i : ℕ) × (old : Text) × (get_elem? olds i ≡ some old)
    × (found ≡ record swap {
      swap_tx = old;
      swap_value = elim (get_elem? values i) [ none ↦ swap.swap_value | some v ↦ v ];
    })

-- The bridge has answered with the status when it was asked for the transaction, which is in a block.
abbrev pub IsAnswer : (p : Platform) → Bool → Text → TxStatus → Type 0
IsAnswer p is_src tx s =
    (0 < s.block_height) × ((e : p.Env) × ((p.get_transaction_status is_src tx e).0 ≡ ok s))

-- The status of the transaction of the result as it is found: the result itself, or the result with
-- an earlier transaction; without a status, the result itself.
abbrev pub IsFound :
    (p : Platform)
    → Bool
    → MgoSwapResult
    → List Text
    → List Text
    → Option TxStatus × MgoSwapResult
    → Type 0
IsFound p is_src swap olds values (none, found) = found ≡ swap
IsFound p is_src swap olds values (some s, found) =
    IsAnswer p is_src found.swap_tx s × ((found ≡ swap) ⊎ IsOld swap olds values found)

in_block_cases :
    (r : Result Err TxStatus)
    → (in_block r ≡ none)
      ⊎ ((s : TxStatus) × (in_block r ≡ some s) × (0 < s.block_height) × (r ≡ ok s))
unfolding in_block
in_block_cases (ok s) = elim (Bool-cases (ltb 0 s.block_height)) [
  | inl high ↦ inr (s, rw high refl, ground arith, refl)
  | inr low ↦ inl (rw low refl)
]
in_block_cases (err e) = inl refl
in_block_cases panic = inl refl

get_elem?-rest_of :
    (values : List Text) (i : ℕ) → get_elem? (rest_of values) i ≡ get_elem? values (suc i)
unfolding rest_of
get_elem?-rest_of [] i = refl
get_elem?-rest_of (v ∷ vs) i = refl

IsFound-cons :
    (p : Platform) (is_src : Bool) (swap : MgoSwapResult) (tx : Text) (txs values : List Text)
    (r : Option TxStatus × MgoSwapResult)
    → IsFound p is_src swap txs (rest_of values) r
    → IsFound p is_src swap (tx ∷ txs) values r
IsFound-cons p is_src swap tx txs values (none, found) h = h
IsFound-cons p is_src swap tx txs values (some s, found) (a, inl same) = (a, inl same)
IsFound-cons p is_src swap tx txs values (some s, found) (a, inr (i, old, at, e)) =
    (a, inr (suc i, old, at, e ∙ rw (get_elem?-rest_of values i) refl))

with_old-IsOld :
    (swap : MgoSwapResult) (old : Text) (olds values : List Text)
    → IsOld swap (old ∷ olds) values (with_old swap old values)
unfolding with_old
with_old-IsOld swap old olds [] = (0, old, refl, refl)
with_old-IsOld swap old olds (v ∷ vs) = (0, old, refl, refl)

with_old-swap_tx :
    (swap : MgoSwapResult) (old : Text) (values : List Text)
    → (with_old swap old values).swap_tx ≡ old
unfolding with_old
with_old-swap_tx swap old [] = refl
with_old-swap_tx swap old (v ∷ vs) = refl

-- The height is that of the result looked for.
pub IsFound-swap_height :
    (p : Platform) (is_src : Bool) (swap : MgoSwapResult) (olds values : List Text)
    (x : Option TxStatus × MgoSwapResult)
    → IsFound p is_src swap olds values x
    → x.1.swap_height ≡ swap.swap_height
IsFound-swap_height p is_src swap olds values (none, found) h = ap (λ r. r.swap_height) h
IsFound-swap_height p is_src swap olds values (some s, found) (a, inl same) =
    ap (λ r. r.swap_height) same
IsFound-swap_height p is_src swap olds values (some s, found) (a, inr (i, old, at, e)) =
    ap (λ r. r.swap_height) e

module _ (p : Platform) (is_src : Bool)
    (answers : (tx : Text) (e : p.Env) → (p.get_transaction_status is_src tx e).0 ≢ panic) where
  -- One look at the chain, and what follows it.
  look :
      {A : Type 0} (tx : Text) (f : Result Err TxStatus → M p A) (w : World p)
      → (r : Result Err TxStatus) × ((p.get_transaction_status is_src tx w.env).0 ≡ r)
        × ((attempt (call_result p (p.get_transaction_status is_src tx)) >>= f) w
            ≡ f r (record w { env = (p.get_transaction_status is_src tx w.env).1 }))
  unfolding attempt call_result
  look tx f w = go (p.get_transaction_status is_src tx w.env).0 refl
    where
      go :
          (r : Result Err TxStatus)
          → (p.get_transaction_status is_src tx w.env).0 ≡ r
          → (r : Result Err TxStatus) × ((p.get_transaction_status is_src tx w.env).0 ≡ r)
            × ((attempt (call_result p (p.get_transaction_status is_src tx)) >>= f) w
                ≡ f r (record w { env = (p.get_transaction_status is_src tx w.env).1 }))
      go (ok s) q = (ok s, q, rw q refl)
      go (err e) q = (err e, q, rw q refl)
      go panic q = absurd (answers tx w.env q)

  -- The outcome of one look: a status with a block, or what the rest gives.
  either :
      (swap found : MgoSwapResult) (olds values : List Text) (env : p.Env) (r : Result Err TxStatus)
      (rest : M p (Option TxStatus × MgoSwapResult)) (w : World p)
      → (p.get_transaction_status is_src found.swap_tx env).0 ≡ r
      → (found ≡ swap) ⊎ IsOld swap olds values found
      → (x : Option TxStatus × MgoSwapResult) × ((rest w).0 ≡ ok x)
        × IsFound p is_src swap olds values x
      → let m : M p (Option TxStatus × MgoSwapResult) = elim (in_block r) [
        | some s ↦ pure (some s, found)
        | none ↦ rest
      ] in
        (x : Option TxStatus × MgoSwapResult) × ((m w).0 ≡ ok x)
        × IsFound p is_src swap olds values x
  unfolding pure
  either swap found olds values env r rest w asked one later = elim (in_block_cases r) [
    | inl nothing ↦ rw nothing later
    | inr (s, there, high, e) ↦ rw there ((some s, found), refl, ((high, (env, asked ∙ e)), one))
  ]

  old_tx_status-IsFound :
      (swap : MgoSwapResult) (olds values : List Text) (w : World p)
      → (x : Option TxStatus × MgoSwapResult) × ((old_tx_status p is_src swap olds values w).0
          ≡ ok x)
        × IsFound p is_src swap olds values x
  unfolding old_tx_status pure
  old_tx_status-IsFound swap [] values w = ((none, swap), refl, refl)
  old_tx_status-IsFound swap (old ∷ olds) values w = elim (Bool-cases (text_eq swap.swap_tx old)) [
    | inl same ↦ rw same (
        let (x, q, h) = old_tx_status-IsFound swap olds (rest_of values) w in
        (x, q, IsFound-cons p is_src swap old olds values x h))
    | inr other ↦
        let rest = old_tx_status p is_src swap olds (rest_of values) in
        let next : Result Err TxStatus → M p (Option TxStatus × MgoSwapResult) = λ r.
          elim (in_block r) [ some s ↦ pure (some s, with_old swap old values) | none ↦ rest ] in
        let u = record w { env = (p.get_transaction_status is_src old w.env).1 } in
        let (r, asked, e) = look old next w in
        let (x, q, h) = old_tx_status-IsFound swap olds (rest_of values) u in
        rw (other, e)
          (either swap (with_old swap old values) (old ∷ olds) values w.env r rest u
            (rw (with_old-swap_tx swap old values) asked)
            (inr (with_old-IsOld swap old olds values))
            (x, q, IsFound-cons p is_src swap old olds values x h))
  ]

  -- getSwapTxStatus returns, and a status that it gives is the bridge's answer for the transaction of
  -- the result that it leaves, and shows a block. That result is the one looked for; or it is that
  -- one with one of its earlier transactions, and with the value at the place of the transaction if
  -- there is one. Without a status the result is unchanged. The bridge answers each question with a
  -- status or an error.
  pub get_swap_tx_status-IsFound :
      (swap : MgoSwapResult) (w : World p)
      → (x : Option TxStatus × MgoSwapResult) × ((get_swap_tx_status p is_src swap w).0 ≡ ok x)
        × IsFound p is_src swap swap.old_swap_txs swap.old_swap_vals x
  unfolding get_swap_tx_status
  get_swap_tx_status-IsFound swap w =
      let rest = old_tx_status p is_src swap swap.old_swap_txs swap.old_swap_vals in
      let next : Result Err TxStatus → M p (Option TxStatus × MgoSwapResult) =
        λ r. elim (in_block r) [ some s ↦ pure (some s, swap) | none ↦ rest ] in
      let u = record w { env = (p.get_transaction_status is_src swap.swap_tx w.env).1 } in
      let (r, asked, e) = look swap.swap_tx next w in
      rw e (
        either swap swap swap.old_swap_txs swap.old_swap_vals w.env r rest u asked (inl refl)
          (old_tx_status-IsFound swap swap.old_swap_txs swap.old_swap_vals u))
