-- ===== src/Tokens/SwapValue.antt =====
-- tokens/base.go: CalcSwappedValue, with ConvertTokenValue and the tests that use it.
pub mod Bounds
pub mod Units
pub mod Converted
pub mod Monotone
use cross_chain_bridge.Common.{
  ℕ, ◌-◌, ◌*◌, ◌^◌, Bool, true, false, not, ◌&&◌, ◌||◌, Option, none, some, Text, ltb, ◌==◌,
  if◌then◌else◌,
}
use cross_chain_bridge.Common.Int.{ℤ, pos, ◌+ℤ◌, ◌-ℤ◌, ◌*ℤ◌, ltb_ℤ, div_ℕ, is_positive, is_negative}
use cross_chain_bridge.Tokens.Types.{
  TokenConfig, TxSwapInfo, Config, get_token_configs_by_direction, get_token_config,
  is_in_big_value_whitelist, get_chain_config, is_nonce_setter,
}

abbrev pub one_e18 : ℕ
one_e18 = 1000000000000000000

-- The decimals are uint8, so the subtractions are exact where they are made.
unfoldable pub convert_token_value : ℤ → ℕ → ℕ → ℤ
convert_token_value from_value from_decimals to_decimals =
    if from_decimals == to_decimals
    then from_value
    else if ltb to_decimals from_decimals
    then div_ℕ from_value (10 ^ (from_decimals - to_decimals))
    else from_value *ℤ pos (10 ^ (to_decimals - from_decimals))

-- The fee by the rate, held within the bounds that the token sets.
unfoldable pub rate_fee : TokenConfig → ℤ → ℤ
rate_fee token value =
    let swap_fee = div_ℕ (value *ℤ pos token.swap_fee_rate.mul_1e18) one_e18 in
    if ltb_ℤ swap_fee token.min_swap_fee
    then token.min_swap_fee
    else if ltb_ℤ token.max_swap_fee swap_fee
    then token.max_swap_fee
    else swap_fee

-- The adjustment for an eth-like destination; `percent` is its BaseFeePercent.
unfoldable pub adjust_fee : TokenConfig → Bool → ℤ → ℤ → ℤ
adjust_fee token eth_like percent swap_fee =
    let adjusted = swap_fee +ℤ div_ℕ (token.min_swap_fee *ℤ percent) 100 in
    if eth_like && (is_positive percent || is_negative percent) && is_positive token.min_swap_fee
    then (if is_negative adjusted then pos 0 else adjusted)
    else swap_fee

unfoldable pub swap_fee : TokenConfig → Bool → Bool → ℤ → ℤ → ℤ
swap_fee token whitelisted eth_like percent value =
    if whitelisted
    then token.min_swap_fee
    else adjust_fee token eth_like percent (rate_fee token value)

-- What is left of a value in range when the fee is taken, before the conversion.
unfoldable pub deduct_fee : TokenConfig → Bool → ℤ → ℤ → ℤ
deduct_fee token whitelisted fee value =
    let swapped = value -ℤ fee in
    if not (ltb_ℤ fee value)
    then pos 0
    else if ltb_ℤ value swapped || not whitelisted && ltb_ℤ token.max_swap swapped
    then pos 0
    else swapped

-- The value without its fee, in the decimals of the token that comes in.
unfoldable pub net_value : TokenConfig → Bool → Bool → ℤ → ℤ → ℤ
net_value token whitelisted eth_like percent value =
    if not (is_positive value)
    then pos 0
    else if ltb_ℤ value token.min_swap
    then pos 0
    else if not whitelisted && ltb_ℤ token.max_swap value
    then pos 0
    else if token.swap_fee_rate.is_zero
    then value
    else deduct_fee token whitelisted (swap_fee token whitelisted eth_like percent value) value

unfoldable pub is_big_value_whitelisted : TokenConfig → Text → Text → Bool
is_big_value_whitelisted token from tx_to =
    is_in_big_value_whitelist token from || is_in_big_value_whitelist token tx_to

unfoldable pub token_swapped_value : TokenConfig → TokenConfig → Bool → Bool → ℤ → ℤ → ℤ
token_swapped_value token cp_token whitelisted eth_like percent value =
    convert_token_value (net_value token whitelisted eth_like percent value) token.decimals
      cp_token.decimals

-- CalcSwappedValue. `none` is the panic on the nil config of an unknown pair.
unfoldable pub calc_swapped_value : Config → Text → ℤ → Bool → Text → Text → Option ℤ
calc_swapped_value cfg pair_id value is_src from tx_to =
    if not (is_positive value)
    then some (pos 0)
    else elim (get_token_configs_by_direction cfg pair_id is_src) [
      | none ↦ none
      | some (token, cp_token) ↦ some (
          token_swapped_value token cp_token (is_big_value_whitelisted token from tx_to)
            (is_nonce_setter cfg (not is_src)) (get_chain_config cfg (not is_src)).base_fee_percent
            value)
    ]

-- CheckSwapValue
unfoldable pub check_swap_value : Config → TxSwapInfo → Bool → Option Bool
check_swap_value cfg inf is_src =
    elim (calc_swapped_value cfg inf.pair_id inf.value is_src inf.from inf.tx_to) [
      | none ↦ none
      | some v ↦ some (is_positive v)
    ]

-- GetBigValueThreshold, with the same panic.
unfoldable pub get_big_value_threshold : Config → Text → Bool → Option ℤ
get_big_value_threshold cfg pair_id is_src = elim (get_token_config cfg pair_id is_src) [
  | none ↦ none
  | some token ↦ some token.big_val_threshold
]
