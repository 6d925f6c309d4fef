-- ===== src/Tokens/SwapValue/Converted.antt =====
-- What CalcSwappedValue pays out, in the decimals of the token that goes out.
use native.Mathlib.Nat.{le_trans, le_refl, mul-le-mul_right}
use cross_chain_bridge.Common.{
  ℕ, suc, ◌+◌, ◌-◌, ◌*◌, ◌^◌, ◌≤◌, ◌<◌, ◌≡◌, ◌⊎◌, ◌↔◌, refl, sym, ◌∙◌, Bool, true, false, arith,
  if◌then◌else◌,
}
use cross_chain_bridge.Common.Int.{ℤ, pos, negsuc, ◌≤ℤ◌, -ℤ_parts, is_positive}
use cross_chain_bridge.Tokens.Types.{TokenConfig}
use cross_chain_bridge.Tokens.SwapValue.{
  rate_fee, adjust_fee, swap_fee, deduct_fee, net_value, token_swapped_value,
}
use cross_chain_bridge.Tokens.SwapValue.Bounds.{net_value_bounds}
use cross_chain_bridge.Tokens.SwapValue.Units.{
  IsWorth, pow10_positive, convert_token_value-IsWorth, positive_net, sandwich, one_unit,
  at_least_one, rest_is_positive, amount_between, pos_injective,
}

module _ (token cp_token : TokenConfig) (whitelisted eth_like : Bool) (percent : ℤ) where
  pays : ℕ → ℤ
  pays v = token_swapped_value token cp_token whitelisted eth_like percent (pos v)

  -- What is paid out for a net value.
  paid_of :
      (v net : ℕ)
      → net_value token whitelisted eth_like percent (pos v) ≡ pos net
      → (amount : ℕ) × (pays v ≡ pos amount) × IsWorth amount net token.decimals cp_token.decimals
  unfolding pays token_swapped_value
  paid_of v net e = rw e (convert_token_value-IsWorth net token.decimals cp_token.decimals)

  net_of :
      (v : ℕ)
      → (net : ℕ) × (net_value token whitelisted eth_like percent (pos v) ≡ pos net) × (net ≤ v)
  net_of v = go (net_value token whitelisted eth_like percent (pos v)) refl
    where
      go :
          (n : ℤ)
          → net_value token whitelisted eth_like percent (pos v) ≡ n
          → (net : ℕ) × (net_value token whitelisted eth_like percent (pos v) ≡ pos net) × (net ≤ v)
      go (pos net) e =
          let h = net_value_bounds token whitelisted eth_like percent (pos v) (omega arith) in
          (net, e, omega (arith, rw e at h))
      go (negsuc k) e =
          let h = net_value_bounds token whitelisted eth_like percent (pos v) (omega arith) in
          absurd (omega (arith, rw e at h))

  -- The part of a value that is not paid out.
  kept : ℕ → ℕ
  kept fee = if token.swap_fee_rate.is_zero then 0 else fee

  kept_all : (fee : ℕ) → token.swap_fee_rate.is_zero ≡ false → kept fee ≡ fee
  unfolding kept
  kept_all fee r = rw r refl

  net_kept :
      (v net fee : ℕ)
      → swap_fee token whitelisted eth_like percent (pos v) ≡ pos fee
      → net_value token whitelisted eth_like percent (pos v) ≡ pos net
      → 0 < net
      → net + kept fee ≡ v
  unfolding net_value deduct_fee kept
  net_kept v net fee q e p = ground (arith, -ℤ_parts (pos v) (pos fee))

  InRange : ℕ → Type 0
  InRange v = (token.min_swap ≤ℤ pos v) × ((whitelisted ≡ true) ⊎ (pos v ≤ℤ token.max_swap))

  net-InRange :
      (v net fee : ℕ)
      → net_value token whitelisted eth_like percent (pos v) ≡ pos net
      → 0 < net
      → InRange v
  unfolding net_value InRange
  net-InRange v net fee e p = ground arith

  InRange-net :
      (v fee : ℕ)
      → swap_fee token whitelisted eth_like percent (pos v) ≡ pos fee
      → InRange v
      → kept fee < v
      → net_value token whitelisted eth_like percent (pos v) ≡ pos (v - kept fee)
  unfolding net_value deduct_fee kept InRange
  InRange-net v fee q e p = ground (arith, -ℤ_parts (pos v) (pos fee))

  -- Nothing is created: what CalcSwappedValue pays out for a value is at least nothing, and worth at
  -- most the value, both counted in units of both tokens' decimals together.
  pub token_swapped_value_bounds :
      (v : ℕ)
      → (amount : ℕ) × (token_swapped_value token cp_token whitelisted eth_like percent (pos v)
          ≡ pos amount)
        × (amount * 10 ^ token.decimals ≤ v * 10 ^ cp_token.decimals)
  unfolding pays
  token_swapped_value_bounds v =
      let (net, e, h) = net_of v in
      let (amount, q, (worth, _)) = paid_of v net e in
      (amount, q, le_trans worth (mul-le-mul_right (10 ^ cp_token.decimals) h))

  fee_between :
      (v min max : ℕ)
      → token.min_swap_fee ≡ pos min
      → token.max_swap_fee ≡ pos max
      → min ≤ max
      → eth_like ≡ false
      → (fee : ℕ) × (swap_fee token whitelisted eth_like percent (pos v) ≡ pos fee)
        × (min ≤ fee)
        × (fee ≤ max)
  unfolding swap_fee adjust_fee rate_fee
  fee_between v min max em ex o n =
      amount_between min max (swap_fee token whitelisted eth_like percent (pos v)) (ground arith)
        (ground arith)

  -- The share that the bridge keeps of a swap is at least the minimum fee, and less than the maximum
  -- fee and one unit of the token that goes out. The fee rate is not 0, the two fees are ordered, the
  -- destination does not adjust the fee, and something is paid out.
  pub token_swapped_value_fee :
      (v amount min max : ℕ)
      → token.min_swap_fee ≡ pos min
      → token.max_swap_fee ≡ pos max
      → min ≤ max
      → token.swap_fee_rate.is_zero ≡ false
      → eth_like ≡ false
      → token_swapped_value token cp_token whitelisted eth_like percent (pos v) ≡ pos amount
      → 0 < amount
      → (amount * 10 ^ token.decimals + min * 10 ^ cp_token.decimals ≤ v * 10 ^ cp_token.decimals)
        × (v * 10 ^ cp_token.decimals
            < suc amount * 10 ^ token.decimals + max * 10 ^ cp_token.decimals)
  unfolding pays
  token_swapped_value_fee v amount min max em ex o r n q p =
      let (net, e, _) = net_of v in
      let (amount', q', (worth, less)) = paid_of v net e in
      let same : amount' ≡ amount = pos_injective (sym q' ∙ q) in
      let positive =
        positive_net amount' net (10 ^ token.decimals) (10 ^ cp_token.decimals) (rw same p)
          (pow10_positive token.decimals) worth in
      let (fee, qf, lo, hi) = fee_between v min max em ex o n in
      rw (sym same) (
        sandwich amount' net fee v min max (10 ^ token.decimals) (10 ^ cp_token.decimals)
          (rw (sym (kept_all fee r)) (net_kept v net fee qf e positive)) lo hi worth less)

  -- CalcSwappedValue pays something out exactly when the value is at least the minimum, at most the
  -- maximum unless the account may pass it, and what is left of it without the fee, which is nothing
  -- for a rate of 0, is worth at least one unit of the token that goes out. `fee` is the
  -- fee of the value, at least nothing.
  pub token_swapped_value-positive_iff :
      (v fee : ℕ)
      → swap_fee token whitelisted eth_like percent (pos v) ≡ pos fee
      → (is_positive (token_swapped_value token cp_token whitelisted eth_like percent (pos v))
          ≡ true)
        ↔ ((token.min_swap ≤ℤ pos v)
            × ((whitelisted ≡ true) ⊎ (pos v ≤ℤ token.max_swap))
            × (let kept = if token.swap_fee_rate.is_zero then 0 else fee in
                10 ^ token.decimals + kept * 10 ^ cp_token.decimals ≤ v * 10 ^ cp_token.decimals))
  unfolding pays kept InRange
  token_swapped_value-positive_iff v fee q =
      let (net, e, _) = net_of v in
      let (amount, q', (worth, less)) = paid_of v net e in
      (
        (λ h.
            let p : 0 < amount = ground (arith, rw q' at h) in
            let positive =
              positive_net amount net (10 ^ token.decimals) (10 ^ cp_token.decimals) p
                (pow10_positive token.decimals) worth in
            let (low, high) = net-InRange v net fee e positive in
            let k = net_kept v net fee q e positive in
            let unit = at_least_one amount (10 ^ token.decimals) p in
            let (b, _) =
              sandwich amount net (kept fee) v (kept fee) (kept fee) (10 ^ token.decimals)
                (10 ^ cp_token.decimals) k (le_refl _) (le_refl _) worth less in
            (low, high, le_trans (omega (arith, unit)) b)),
        (λ (low, high, unit).
            let less' =
              rest_is_positive (kept fee) v (10 ^ token.decimals) (10 ^ cp_token.decimals)
                (pow10_positive token.decimals) unit in
            let same : pos net ≡ pos (v - kept fee) =
              sym e ∙ InRange-net v fee q (low, high) less' in
            let k : net + kept fee ≡ v = omega (arith, pos_injective same) in
            let p =
              one_unit amount net (kept fee) v (10 ^ token.decimals) (10 ^ cp_token.decimals) k unit
                less in
            rw q' (ground arith)),
      )
