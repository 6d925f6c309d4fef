-- ===== src/Tokens/SwapValue/Monotone.antt =====
-- A larger value in range is never paid out less.
use native.Mathlib.Nat.{div-zero, le-div_iff_mul-le, div-mul-le_self, mul-le-mul_right, le_trans}
use cross_chain_bridge.Common.{
  ℕ, ◌+◌, ◌-◌, ◌*◌, ◌/◌, ◌^◌, zero, suc, ◌≤◌, ◌≡◌, ◌⊎◌, Bool, true, false, arith,
}
use cross_chain_bridge.Common.Int.{ℤ, pos, negsuc, ◌≤ℤ◌, ◌+ℤ◌, ◌*ℤ◌, +ℤ_parts, -ℤ_parts, div_ℕ}
use cross_chain_bridge.Tokens.Types.{TokenConfig}
use cross_chain_bridge.Tokens.SwapValue.{
  rate_fee, adjust_fee, swap_fee, deduct_fee, net_value, convert_token_value, one_e18,
  token_swapped_value,
}
use cross_chain_bridge.Tokens.SwapValue.Bounds.{
  IsChecked, swap_fee_nonneg, deduct_fee_bounds, net_value_bounds,
}

-- A share r / 10^18 of at most one grows no faster than what it is taken of.
share_step : (a e r : ℕ) → r ≤ one_e18 → ((a + e) * r) / one_e18 ≤ (a * r) / one_e18 + e
share_step a e r h = omega (arith, product)
  where
    product : e * r ≤ e * one_e18
    product = grind arith

rate_fee_step :
    (token : TokenConfig) (a e : ℕ)
    → token.swap_fee_rate.mul_1e18 ≤ one_e18
    → IsChecked token
    → rate_fee token (pos (a + e)) ≤ℤ rate_fee token (pos a) +ℤ pos e
unfolding rate_fee ◌*ℤ◌ div_ℕ ◌+ℤ◌
rate_fee_step token a e h v = ground (arith, share_step a e token.swap_fee_rate.mul_1e18 h)

-- The adjustment is one number for all values, and the fee that it leaves is at least nothing.
adjust_fee_step :
    (token : TokenConfig) (eth_like : Bool) (percent f g : ℤ) (e : ℕ)
    → g ≤ℤ f +ℤ pos e
    → adjust_fee token eth_like percent g ≤ℤ adjust_fee token eth_like percent f +ℤ pos e
unfolding adjust_fee
adjust_fee_step token eth_like percent f g e h =
    let adj = div_ℕ (token.min_swap_fee *ℤ percent) 100 in
    ground (
      arith,
      +ℤ_parts f (pos e),
      +ℤ_parts f adj,
      +ℤ_parts g adj,
      +ℤ_parts (f +ℤ adj) (pos e),
      +ℤ_parts (pos 0) (pos e),
    )

swap_fee_step :
    (token : TokenConfig) (whitelisted eth_like : Bool) (percent : ℤ) (a e : ℕ)
    → token.swap_fee_rate.mul_1e18 ≤ one_e18
    → IsChecked token
    → swap_fee token whitelisted eth_like percent (pos (a + e))
      ≤ℤ swap_fee token whitelisted eth_like percent (pos a) +ℤ pos e
unfolding swap_fee
swap_fee_step token true eth_like percent a e h v =
    omega (arith, +ℤ_parts token.min_swap_fee (pos e))
swap_fee_step token false eth_like percent a e h v =
    adjust_fee_step token eth_like percent _ _ e (rate_fee_step token a e h v)

-- With one fee at most as much higher as the value is, the larger value leaves at least as much.
deduct_fee_step :
    (token : TokenConfig) (whitelisted : Bool) (f g : ℤ) (a e : ℕ)
    → pos 0 ≤ℤ f
    → pos 0 ≤ℤ g
    → g ≤ℤ f +ℤ pos e
    → (whitelisted ≡ true) ⊎ (pos (a + e) ≤ℤ token.max_swap)
    → deduct_fee token whitelisted f (pos a) ≤ℤ deduct_fee token whitelisted g (pos (a + e))
unfolding deduct_fee
deduct_fee_step token whitelisted f g a e hf hg h r =
    ground (arith, -ℤ_parts (pos a) f, -ℤ_parts (pos (a + e)) g, +ℤ_parts f (pos e))

-- Of two values in range the larger leaves at least as much.
net_value_step :
    (token : TokenConfig) (whitelisted eth_like : Bool) (percent : ℤ) (a e : ℕ)
    → token.swap_fee_rate.mul_1e18 ≤ one_e18
    → IsChecked token
    → (whitelisted ≡ true) ⊎ (pos (a + e) ≤ℤ token.max_swap)
    → net_value token whitelisted eth_like percent (pos a)
      ≤ℤ net_value token whitelisted eth_like percent (pos (a + e))
unfolding net_value
net_value_step token whitelisted eth_like percent a e h v r =
    let fee = swap_fee token whitelisted eth_like percent in
    ground (
      arith,
      deduct_fee_step token whitelisted (fee (pos a)) (fee (pos (a + e))) a e
          (swap_fee_nonneg token whitelisted eth_like percent (pos a) v)
          (swap_fee_nonneg token whitelisted eth_like percent (pos (a + e)) v)
          (swap_fee_step token whitelisted eth_like percent a e h v) r,
      deduct_fee_bounds token whitelisted (fee (pos (a + e))) (pos (a + e)),
    )

div_mono : (a b k : ℕ) → a ≤ b → a / k ≤ b / k
div_mono a b zero h = rw (div-zero a) (omega arith)
div_mono a b (suc k) h =
    (le-div_iff_mul-le (omega arith)).1 (le_trans (div-mul-le_self a (suc k)) h)

convert_token_value_mono :
    (a b m n : ℕ) → a ≤ b → convert_token_value (pos a) m n ≤ℤ convert_token_value (pos b) m n
unfolding convert_token_value div_ℕ ◌*ℤ◌
convert_token_value_mono a b m n h =
    ground (arith, div_mono a b (10 ^ (m - n)) h, mul-le-mul_right (10 ^ (n - m)) h)

convert_mono_nonneg :
    (v w : ℤ) (m n : ℕ)
    → pos 0 ≤ℤ v
    → v ≤ℤ w
    → convert_token_value v m n ≤ℤ convert_token_value w m n
convert_mono_nonneg (pos a) (pos b) m n p h = convert_token_value_mono a b m n (omega arith)
convert_mono_nonneg (pos a) (negsuc b) m n p h = absurd (omega arith)
convert_mono_nonneg (negsuc a) w m n p h = absurd (omega arith)

-- Of two values up to the limit of the token the larger is swapped for at least as much, in whatever
-- decimals, when the fee rate is at most one. (A value below the minimum is swapped for nothing.)
pub token_swapped_value_mono :
    (token cp_token : TokenConfig) (whitelisted eth_like : Bool) (percent : ℤ) (a e : ℕ)
    → token.swap_fee_rate.mul_1e18 ≤ one_e18
    → IsChecked token
    → (whitelisted ≡ true) ⊎ (pos (a + e) ≤ℤ token.max_swap)
    → token_swapped_value token cp_token whitelisted eth_like percent (pos a)
      ≤ℤ token_swapped_value token cp_token whitelisted eth_like percent (pos (a + e))
unfolding token_swapped_value
token_swapped_value_mono token cp_token whitelisted eth_like percent a e h v r =
    convert_mono_nonneg _ _ token.decimals cp_token.decimals
      (net_value_bounds token whitelisted eth_like percent (pos a) (omega arith)).0
      (net_value_step token whitelisted eth_like percent a e h v r)
