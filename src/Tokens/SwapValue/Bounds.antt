-- ===== src/Tokens/SwapValue/Bounds.antt =====
-- The fee and the swapped value stay within the bounds that the token's config sets.
use cross_chain_bridge.Common.{Bool, arith}
use cross_chain_bridge.Common.Int.{ℤ, pos, ◌≤ℤ◌, -ℤ_parts}
use cross_chain_bridge.Tokens.Types.{TokenConfig}
use cross_chain_bridge.Tokens.SwapValue.{rate_fee, adjust_fee, swap_fee, deduct_fee, net_value}

-- What TokenConfig.CheckConfig makes sure of: the bounds of the fee and of the swap are ordered.
pub record IsChecked (token : TokenConfig) : Type 0 where
  pub min_fee_nonneg : pos 0 ≤ℤ token.min_swap_fee
  pub fee_ordered : token.min_swap_fee ≤ℤ token.max_swap_fee
  pub min_swap_nonneg : pos 0 ≤ℤ token.min_swap
  pub swap_ordered : token.min_swap ≤ℤ token.max_swap

-- The fee by the rate lies between the minimum and the maximum fee.
pub rate_fee_bounds :
    (token : TokenConfig) (value : ℤ)
    → IsChecked token
    → (token.min_swap_fee ≤ℤ rate_fee token value) × (rate_fee token value ≤ℤ token.max_swap_fee)
unfolding rate_fee
rate_fee_bounds token value v = ground arith

pub swap_fee_nonneg :
    (token : TokenConfig) (whitelisted eth_like : Bool) (percent value : ℤ)
    → IsChecked token
    → pos 0 ≤ℤ swap_fee token whitelisted eth_like percent value
unfolding swap_fee adjust_fee
swap_fee_nonneg token whitelisted eth_like percent value v =
    ground (arith, rate_fee_bounds token value v)

pub deduct_fee_bounds :
    (token : TokenConfig) (whitelisted : Bool) (fee value : ℤ)
    → pos 0 ≤ℤ value
    → (pos 0 ≤ℤ deduct_fee token whitelisted fee value)
      × (deduct_fee token whitelisted fee value ≤ℤ value)
unfolding deduct_fee
deduct_fee_bounds token whitelisted fee value h = ground (arith, -ℤ_parts value fee)

-- What is left without the fee lies between nothing and what came in.
pub net_value_bounds :
    (token : TokenConfig) (whitelisted eth_like : Bool) (percent value : ℤ)
    → pos 0 ≤ℤ value
    → (pos 0 ≤ℤ net_value token whitelisted eth_like percent value)
      × (net_value token whitelisted eth_like percent value ≤ℤ value)
unfolding net_value
net_value_bounds token whitelisted eth_like percent value h = ground (
  arith,
  deduct_fee_bounds token whitelisted (swap_fee token whitelisted eth_like percent value) value h,
)
