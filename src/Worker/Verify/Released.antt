-- ===== src/Worker/Verify/Released.antt =====
-- When a verification lets a swap be paid out.
use cross_chain_bridge.Common.{
  ℕ, ◌≡◌, ◌⊎◌, inl, inr, refl, sym, ◌∙◌, Bool, true, false, Option, none, some, Text, to_lower,
  text_eq, Bool-cases, Option-cases, arith,
}
use cross_chain_bridge.Common.Int.{◌≤ℤ◌}
use cross_chain_bridge.Common.Exec.{gets, crash, fail}
use cross_chain_bridge.Tokens.Errors.{Err}
use cross_chain_bridge.Tokens.Types.{
  TokenConfig, TxSwapInfo, get_token_config, is_in_big_value_whitelist,
}
use cross_chain_bridge.Platform.{Platform, World, M, call, now}
use cross_chain_bridge.Platform.Database.{IsAtomic}
use cross_chain_bridge.Platform.Frame.{>>=_cases}
use cross_chain_bridge.Mongodb.Status.{
  SwapStatus, tx_not_swapped, tx_not_stable, status_eq, status_eq_iff,
}
use cross_chain_bridge.Mongodb.Documents.{MgoSwap, get_swap_key}
use cross_chain_bridge.Mongodb.Access.{swap_at, write_or_fail}
use cross_chain_bridge.Mongodb.Swaps.{with_status, update_swap_status as store_status}
use cross_chain_bridge.Mongodb.Swaps.Register.{update_swap_cases}
use cross_chain_bridge.Mongodb.Results.{add_swap_result, insert_result}
use cross_chain_bridge.Worker.Updates.{add_initial_swap_result}
use cross_chain_bridge.Worker.Verify.{
  Verdict, later, settle, reject, error_verdict, value_verdict, apply_verdict, update_swap_status,
}

-- A value that needs no release by an administrator.
abbrev pub IsSmall : TokenConfig → TxSwapInfo → Type 0
IsSmall token info =
    (info.value ≤ℤ token.big_val_threshold)
    ⊎ (is_in_big_value_whitelist token info.from ≡ true)
    ⊎ (is_in_big_value_whitelist token info.tx_to ≡ true)

-- The status that a verdict gives to the register.
abbrev Gives : Verdict → SwapStatus → Type 0
Gives (later e) status = ⊥
Gives (settle s memo r) status = s ≡ status
Gives (reject s memo) status = s ≡ status

error_verdict-Gives : (e : Err) → ¬ Gives (error_verdict e) tx_not_swapped
unfolding error_verdict
error_verdict-Gives e = ground arith

error_verdict-other : (e : Err) → ¬ Gives (error_verdict e) tx_not_stable
unfolding error_verdict
error_verdict-other e = ground arith

value_verdict-Gives :
    (token : TokenConfig) (info : TxSwapInfo)
    → Gives (value_verdict token info) tx_not_swapped
    → IsSmall token info
unfolding value_verdict
value_verdict-Gives token info h = ground arith

value_verdict-other :
    (token : TokenConfig) (info : TxSwapInfo) → ¬ Gives (value_verdict token info) tx_not_stable
unfolding value_verdict
value_verdict-other token info = ground arith

module _ (p : Platform) where
  -- A write of a result leaves the register alone.
  result_written :
      (is_swapin : Bool) (info : TxSwapInfo) (status : SwapStatus) (w : World p) (dir : Bool)
      (j : Text)
      → swap_at p dir (add_initial_swap_result p is_swapin info status w).1 j ≡ swap_at p dir w j
  unfolding add_initial_swap_result add_swap_result insert_result write_or_fail now call fail
  result_written is_swapin info status w dir j = ground arith

module _ (p : Platform) (laws : IsAtomic p.swaps) where
  -- The register at a place is as before, or has been given the status.
  IsGivenAt : SwapStatus → Bool → Text → World p → World p → Type 0
  IsGivenAt status dir j w w' =
      (swap_at p dir w' j ≡ swap_at p dir w j)
      ⊎ ((d : MgoSwap) × (swap_at p dir w' j ≡ some d) × (d.status ≡ status))
      ⊎ (swap_at p dir w' j ≡ none)

  store_status-IsGivenAt :
      (is_swapin : Bool) (tx_id pair_id bind : Text) (status : SwapStatus) (t : ℕ) (memo : Text)
      (w : World p) (dir : Bool) (j : Text)
      → status_eq status tx_not_stable ≡ false
      → IsGivenAt status dir j w (store_status p is_swapin tx_id pair_id bind status t memo w).1
  unfolding store_status IsGivenAt with_status
  store_status-IsGivenAt is_swapin tx_id pair_id bind status t memo w dir j other =
      let k = get_swap_key tx_id (to_lower pair_id) bind in
      let f = with_status status t memo in
      rw other (elim (update_swap_cases p laws w is_swapin k f dir j) [
        | inl same ↦ inl same
        | inr (own, changed) ↦ elim (Bool-cases (text_eq j k)) [
          | inr miss ↦ inl (changed ∙ rw (miss) refl)
          | inl hit ↦ elim (Option-cases (swap_at p dir w j)) [
            | inl missing ↦ inr (inr (changed ∙ rw (hit, missing) refl))
            | inr (d, at) ↦ inr (inl (f d, changed ∙ rw (hit, at) refl, refl))
          ]
        ]
      ])

  not_stable :
      (status : SwapStatus) → ¬ (status ≡ tx_not_stable) → status_eq status tx_not_stable ≡ false
  not_stable status h = ground (arith, status_eq_iff status tx_not_stable)

  given :
      (status : SwapStatus) (dir : Bool) (j : Text) (w u w' : World p) (d : MgoSwap)
      → swap_at p dir u j ≡ swap_at p dir w j
      → IsGivenAt status dir j u w'
      → swap_at p dir w' j ≡ some d
      → d.status ≡ tx_not_swapped
      → (swap_at p dir w j ≡ some d) ⊎ (status ≡ tx_not_swapped)
  unfolding IsGivenAt
  given status dir j w u w' d same (inl kept) at s = inl (sym same ∙ (sym kept ∙ at))
  given status dir j w u w' d same (inr (inl (e, at', s'))) at s =
      let one : some e ≡ some d = sym at' ∙ at in
      inr (let eq : e ≡ d = ground arith in sym s' ∙ rw eq s)
  given status dir j w u w' d same (inr (inr gone)) at s = absurd (cc (gone, at))

  -- A swap that a verdict leaves to be paid out was so before, or the verdict gives it that status.
  apply_verdict-Gives :
      (is_swapin : Bool) (pair_id tx_id bind : Text) (info : TxSwapInfo) (v : Verdict) (w : World p)
      (dir : Bool) (j : Text) (d : MgoSwap)
      → ¬ Gives v tx_not_stable
      → swap_at p dir (apply_verdict p is_swapin pair_id tx_id bind info v w).1 j ≡ some d
      → d.status ≡ tx_not_swapped
      → (swap_at p dir w j ≡ some d) ⊎ Gives v tx_not_swapped
  unfolding apply_verdict fail now call
  apply_verdict-Gives is_swapin pair_id tx_id bind info (later e) w dir j d other at s = inl at
  apply_verdict-Gives is_swapin pair_id tx_id bind info (reject status memo) w dir j d other at s =
      let u = record w { env = (p.clock w.env).1 } in
      given status dir j w u _ d refl
        (store_status-IsGivenAt is_swapin tx_id pair_id bind status (p.clock w.env).0 memo u dir j
          (not_stable status other))
        at s
  apply_verdict-Gives is_swapin pair_id tx_id bind info (settle status memo r) w dir j d other at
        s =
      let u = record w { env = (p.clock w.env).1 } in
      let store = store_status p is_swapin tx_id pair_id bind status (p.clock w.env).0 memo in
      let there : swap_at p dir (store u).1 j ≡ some d =
        elim (>>=_cases store (λ _. add_initial_swap_result p is_swapin info r) u) [
          | inl (a, _, e) ↦ sym (result_written p is_swapin info r (store u).1 dir j) ∙ rw e at at
          | inr (_, _, e) ↦ rw e at at
        ] in
      given status dir j w u _ d refl
        (store_status-IsGivenAt is_swapin tx_id pair_id bind status (p.clock w.env).0 memo u dir j
          (not_stable status other))
        there s

  -- The verification of a swap lets it be paid out only without an error, and only when its value is at
  -- most the threshold of its token or one of its two accounts may pass big values: a swap of the
  -- register, under any key and in any direction, that has the status TxNotSwapped after
  -- updateSwapStatus had its document before, unless this holds. The writes are atomic.
  pub update_swap_status-IsSmall :
      (is_swapin : Bool) (pair_id tx_id bind : Text) (info : TxSwapInfo) (e : Option Err)
      (w : World p) (dir : Bool) (j : Text) (d : MgoSwap)
      → swap_at p dir (update_swap_status p is_swapin pair_id tx_id bind info e w).1 j ≡ some d
      → d.status ≡ tx_not_swapped
      → (swap_at p dir w j ≡ some d)
        ⊎ ((e ≡ none)
            × ((token : TokenConfig) × (get_token_config w.config pair_id is_swapin ≡ some token)
                × IsSmall token info))
  unfolding update_swap_status gets crash
  update_swap_status-IsSmall is_swapin pair_id tx_id bind info (some e) w dir j d at s =
      elim (apply_verdict-Gives is_swapin pair_id tx_id bind info (error_verdict e) w dir j d
        (error_verdict-other e) at s) [
          | inl same ↦ inl same
          | inr gives ↦ absurd (error_verdict-Gives e gives)
        ]
  update_swap_status-IsSmall is_swapin pair_id tx_id bind info none w dir j d at s =
      by_token (get_token_config w.config pair_id is_swapin) refl at
    where
      by_token :
          (o : Option TokenConfig)
          → get_token_config w.config pair_id is_swapin ≡ o
          → swap_at p dir
              ((elim o as (λ _. M p (Unit {0})) [
                | none ↦ crash
                | some token ↦
                    apply_verdict p is_swapin pair_id tx_id bind info (value_verdict token info)
              ])
                w).1
              j
            ≡ some d
          → (swap_at p dir w j ≡ some d)
            ⊎ (Path (Option Err) none none
                × ((token : TokenConfig) × (get_token_config w.config pair_id is_swapin
                      ≡ some token)
                    × IsSmall token info))
      by_token none known at' = inl at'
      by_token (some token) known at' =
          elim (apply_verdict-Gives is_swapin pair_id tx_id bind info (value_verdict token info) w
            dir j d (value_verdict-other token info) at' s) [
              | inl same ↦ inl same
              | inr gives ↦ inr (refl, (token, known, value_verdict-Gives token info gives))
            ]
