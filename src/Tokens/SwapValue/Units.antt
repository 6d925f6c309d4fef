-- ===== src/Tokens/SwapValue/Units.antt =====
-- ConvertTokenValue: amounts in the decimals of two tokens.
use native.Mathlib.Nat.{div-mul-le_self, mul-le-mul_right, lt-div-mul-add, pow-suc}
use native.Mathlib.Numerals.{unary_clauses}
use cross_chain_bridge.Common.{
  ℕ, zero, suc, ◌+◌, ◌-◌, ◌*◌, ◌/◌, ◌^◌, ◌≤◌, ◌<◌, ◌==◌, ◌≡◌, inl, inr, refl, sym, arith,
  Bool-cases, ltb,
}
use cross_chain_bridge.Common.Int.{ℤ, pos, negsuc, ◌≤ℤ◌, ◌*ℤ◌, div_ℕ}
use cross_chain_bridge.Tokens.SwapValue.{convert_token_value}

pow_add : (k m n : ℕ) → k ^ (m + n) ≡ k ^ m * k ^ n
pow_add k zero n = simp unary_clauses (let z : 0 + n ≡ n = omega arith in rw z (omega arith))
pow_add k (suc m) n =
    let z : suc m + n ≡ suc (m + n) = omega arith in
    rw (z, pow-suc k (m + n), pow-suc k m, pow_add k m n) (grind arith)

-- An amount of the other token is worth as much, less than one unit of it left out.
abbrev pub IsWorth : ℕ → ℕ → ℕ → ℕ → Type 0
IsWorth amount n from_decimals to_decimals =
    (amount * 10 ^ from_decimals ≤ n * 10 ^ to_decimals)
    × (n * 10 ^ to_decimals < suc amount * 10 ^ from_decimals)

pub pow10_positive : (n : ℕ) → 0 < 10 ^ n
pow10_positive zero = omega arith
pow10_positive (suc n) = omega (arith, pow10_positive n)

scaled :
    (a n k r : ℕ)
    → a * k ≤ n
    → n < suc a * k
    → 0 < r
    → (a * (k * r) ≤ n * r) × (n * r < suc a * (k * r))
scaled a n k zero h l p = absurd (omega arith)
scaled a n k (suc r) h l p =
    (grind (arith, mul-le-mul_right (suc r) h), grind (arith, mul-le-mul_right (suc r) l))

mul_pos : (n k : ℕ) → pos n *ℤ pos k ≡ pos (n * k)
unfolding ◌*ℤ◌
mul_pos n k = ground arith

divided : (n k : ℕ) → 0 < k → ((n / k) * k ≤ n) × (n < suc (n / k) * k)
divided n k p = (div-mul-le_self n k, grind (arith, lt-div-mul-add {a = n} p))

pub convert_token_value-IsWorth :
    (n from_decimals to_decimals : ℕ)
    → (amount : ℕ) × (convert_token_value (pos n) from_decimals to_decimals ≡ pos amount)
      × IsWorth amount n from_decimals to_decimals
unfolding convert_token_value div_ℕ
convert_token_value-IsWorth n f t = elim (Bool-cases (f == t)) [
  | inl same ↦ (
    n,
    rw same refl,
    (let e : f ≡ t = ground arith in (rw e (omega arith), rw e (omega (arith, pow10_positive t)))),
  )
  | inr differ ↦ elim (Bool-cases (ltb t f)) [
    | inl less ↦ (
      n / 10 ^ (f - t),
      rw (differ, less) refl,
      (let (h, l) = divided n (10 ^ (f - t)) (pow10_positive (f - t)) in
          let both = scaled _ n _ (10 ^ t) h l (pow10_positive t) in
          let e : f - t + t ≡ f = ground arith in
          let split = pow_add 10 (f - t) t in (grind arith, grind arith)),
    )
    | inr more ↦ (
      n * 10 ^ (t - f),
      rw (differ, more) (mul_pos n (10 ^ (t - f))),
      (let e : t - f + f ≡ t = ground arith in
          let split = pow_add 10 (t - f) f in
          let pos_f = pow10_positive f in (grind arith, grind arith)),
    )
  ]
]

pub positive_net : (amount net f t : ℕ) → 0 < amount → 0 < f → amount * f ≤ net * t → 0 < net
positive_net (suc a) zero (suc f) t p q h = absurd (grind arith)
positive_net zero net f t p q h = absurd (omega arith)
positive_net (suc a) zero zero t p q h = absurd (omega arith)
positive_net (suc a) (suc net) f t p q h = omega arith

pub sandwich :
    (amount net kept v lo hi f t : ℕ)
    → net + kept ≡ v
    → lo ≤ kept
    → kept ≤ hi
    → amount * f ≤ net * t
    → net * t < suc amount * f
    → (amount * f + lo * t ≤ v * t) × (v * t < suc amount * f + hi * t)
sandwich amount net kept v lo hi f t e l h b u =
    let split : v * t ≡ net * t + kept * t = rw (sym e) (grind arith) in
    let below = mul-le-mul_right t l in
    let above = mul-le-mul_right t h in (omega arith, omega arith)

pub one_unit :
    (amount net kept v f t : ℕ)
    → net + kept ≡ v
    → f + kept * t ≤ v * t
    → net * t < suc amount * f
    → 0 < amount
one_unit zero net kept v f t e h u =
    let split : v * t ≡ net * t + kept * t = rw (sym e) (grind arith) in
    let one : 1 * f ≡ f = omega arith in absurd (omega arith)
one_unit (suc amount) net kept v f t e h u = omega arith

pub at_least_one : (amount f : ℕ) → 0 < amount → f ≤ amount * f
at_least_one zero f p = absurd (omega arith)
at_least_one (suc a) f p = grind arith

pub rest_is_positive : (kept v f t : ℕ) → 0 < f → f + kept * t ≤ v * t → kept < v
rest_is_positive kept v f t p h = elim (Bool-cases (ltb kept v)) [
  | inl less ↦ ground arith
  | inr more ↦
      let above : v ≤ kept = ground arith in absurd (omega (arith, mul-le-mul_right t above))
]

pub amount_between :
    (lo hi : ℕ) (z : ℤ) → pos lo ≤ℤ z → z ≤ℤ pos hi → (n : ℕ) × (z ≡ pos n) × (lo ≤ n) × (n ≤ hi)
amount_between lo hi (pos n) l h = (n, refl, omega arith, omega arith)
amount_between lo hi (negsuc n) l h = absurd (omega arith)

pub pos_injective : {m n : ℕ} → pos m ≡ pos n → m ≡ n
pos_injective h = ground arith
