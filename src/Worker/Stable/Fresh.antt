-- ===== src/Worker/Stable/Fresh.antt =====
-- A replacement passes checkIfSwapNonceHasPassed only if no transaction of the result is on the chain.
use cross_chain_bridge.Common.{
  ℕ, ◌≡◌, refl, ap, ◌∙◌, Option, ◌++◌, lit, Bool, true, false, not, none, some, ltb, ◌+◌,
  if◌then◌else◌,
}
use cross_chain_bridge.Common.Exec.{Result, ok, err, panic, ◌>>=◌, >>=-ok, fail, attempt, gets}
use cross_chain_bridge.Tokens.Errors.{Err, sentinel, message, swap_nonce_too_big, not_nonce_support}
use cross_chain_bridge.Tokens.Types.{TokenConfig, get_token_config, is_nonce_setter, is_swapin_type}
use cross_chain_bridge.Platform.{Platform, World, M, call_result}
use cross_chain_bridge.Mongodb.Documents.{MgoSwapResult}
use cross_chain_bridge.Worker.Stable.{
  max_distance_of_swap_nonce, is_swap_result_tx_on_chain, on_chain_error, nonce_passed,
  after_pool_nonce, check_if_swap_nonce_has_passed,
}

module _ (p : Platform) (is_src : Bool) (res : MgoSwapResult) where
  -- At some moment, no transaction of the result was in a block.
  abbrev pub IsUnseen : Type 0
  IsUnseen = (w : World p) × ((is_swap_result_tx_on_chain p is_src res w).0 ≡ ok false)

  -- A guard that fails was passed.
  passed :
      (c : Bool) (e : Err) (m : M p (Unit {0})) (w : World p)
      → ((if c then fail e else m) w).0 ≡ ok tt
      → (m w).0 ≡ ok tt
  unfolding fail
  passed true e m w h = cc
  passed false e m w h = h

  not_found :
      (found : Bool) (rest : M p (Unit {0})) (w : World p)
      → ((if found then on_chain_error p true else rest) w).0 ≡ ok tt
      → found ≡ false
  unfolding on_chain_error fail
  not_found true rest w h = cc
  not_found false rest w h = refl

  after_pool_nonce-IsUnseen :
      (is_swapin : Bool) (r : Result Err ℕ) (w : World p)
      → (after_pool_nonce p is_src is_swapin res true r w).0 ≡ ok tt
      → IsUnseen
  unfolding after_pool_nonce fail
  after_pool_nonce-IsUnseen is_swapin (err e) w h = cc
  after_pool_nonce-IsUnseen is_swapin panic w h = cc
  after_pool_nonce-IsUnseen is_swapin (ok nonce) w h =
      let rest = nonce_passed p is_src is_swapin res true nonce in
      let (found, e, k) =
        >>=-ok (is_swap_result_tx_on_chain p is_src res)
          (λ found. if found then on_chain_error p true else rest) w tt
          (passed (ltb (nonce + max_distance_of_swap_nonce) res.swap_nonce)
            (sentinel swap_nonce_too_big)
            (is_swap_result_tx_on_chain p is_src res >>= λ found.
              if found then on_chain_error p true else rest)
            w h) in
      (w, e ∙ ap ok (not_found found rest (is_swap_result_tx_on_chain p is_src res w).1 k))

  pub check_if_swap_nonce_has_passed-IsUnseen :
      (w : World p) → (check_if_swap_nonce_has_passed p is_src res true w).0 ≡ ok tt → IsUnseen
  unfolding check_if_swap_nonce_has_passed gets fail
  check_if_swap_nonce_has_passed-IsUnseen w h =
      by_token (get_token_config w.config res.pair_id is_src) (
        passed (not (is_nonce_setter w.config is_src)) (sentinel not_nonce_support)
          (by_config (get_token_config w.config res.pair_id is_src)) w h)
    where
      by_config : Option TokenConfig → M p (Unit {0})
      by_config o = elim o [
        | none ↦ fail (message (lit "no token config for pairID '" ++ (res.pair_id ++ lit "'")))
        | some token ↦
            attempt (call_result p (p.get_pool_nonce is_src token.dcrm_address))
            >>= after_pool_nonce p is_src (is_swapin_type res.swap_type) res true
      ]

      by_token : (o : Option TokenConfig) → (by_config o w).0 ≡ ok tt → IsUnseen
      by_token none k = cc
      by_token (some token) k =
          let (r, e, k') =
            >>=-ok (attempt (call_result p (p.get_pool_nonce is_src token.dcrm_address)))
              (after_pool_nonce p is_src (is_swapin_type res.swap_type) res true) w tt k in
          after_pool_nonce-IsUnseen (is_swapin_type res.swap_type) r _ k'
