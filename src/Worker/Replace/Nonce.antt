-- ===== src/Worker/Replace/Nonce.antt =====
-- What a replacement of worker/replaceswap.go was checked for, and the nonce that it spends.
use cross_chain_bridge.Common.{
  ◌≡◌, refl, ap, subst, ◌∙◌, Bool, true, false, not, ◌&&◌, ◌==◌, ◌++◌, Option, none, some, Text,
  lit, is_empty, text_eq_iff, if◌then◌else◌, Bool-cases, inl, inr, arith,
}
use cross_chain_bridge.Common.Int.{ℤ, big_string}
use cross_chain_bridge.Common.Exec.{
  Result, ok, err, panic, >>=-ok, attempt-ok, pure, fail, crash, attempt, gets, lift,
}
use cross_chain_bridge.Tokens.Errors.{
  Err, sentinel, message, build_tx_failed, swap_tx_with_height, swap_with_err_status,
}
use cross_chain_bridge.Tokens.Types.{
  TokenConfig, TxSwapInfo, BuildTxArgs, AllExtras, get_token_config, get_tx_nonce, is_swapin_type,
}
use cross_chain_bridge.Platform.{Platform, World, M, call_result}
use cross_chain_bridge.Mongodb.Status.{match_tx_not_stable, status_eq, status_eq_iff}
use cross_chain_bridge.Mongodb.Documents.{MgoSwap, MgoSwapResult}
use cross_chain_bridge.Mongodb.Swaps.{find_swap}
use cross_chain_bridge.Mongodb.Results.{find_swap_result}
use cross_chain_bridge.Worker.Updates.{get_swap_type, verify_swap_transaction}
use cross_chain_bridge.Worker.Swap.{reverified}
use cross_chain_bridge.Worker.Stable.{check_if_swap_nonce_has_passed}
use cross_chain_bridge.Worker.Stable.Fresh.{IsUnseen, check_if_swap_nonce_has_passed-IsUnseen}
use cross_chain_bridge.Worker.Replace.{
  replace_args, prevent_replaceswap_by_history, verify_replace_swap, build_and_send,
  replace_verified, with_gas_price, replace_swap, or_fail,
}

module _ (p : Platform) where
  -- The result of a payment that may be replaced.
  pub record IsReplaceable (is_swapin : Bool) (tx_id pair_id bind : Text) (is_manual : Bool)
      (w : World p) (res : MgoSwapResult) : Type 0 where
    pub result : (find_swap_result p is_swapin tx_id pair_id bind w).0 ≡ ok res
    pub not_stable : res.status ≡ match_tx_not_stable
    pub no_height : is_manual ≡ false → res.swap_height ≡ 0
    pub unseen : IsUnseen p (not is_swapin) res

  -- A guard that fails was passed.
  passed :
      {A : Type 0} (c : Bool) (e : Err) (m : M p A) (w : World p) (a : A)
      → ((if c then fail e else m) w).0 ≡ ok a
      → (c ≡ false) × ((m w).0 ≡ ok a)
  unfolding fail
  passed true e m w a h = cc
  passed false e m w a h = (refl, h)

  ok-inj : {A : Type 0} {a b : A} (e : Path (Result Err A) (ok a) (ok b)) → a ≡ b
  ok-inj h = cc

  or_fail-ok :
      {A : Type 0} (e : Err) (r : Result Err A) (w : World p) (a : A)
      → (or_fail p e r w).0 ≡ ok a
      → r ≡ ok a
  unfolding or_fail fail crash pure
  or_fail-ok e (ok b) w a h = h
  or_fail-ok e (err x) w a h = cc
  or_fail-ok e panic w a h = cc

  verify_replace_swap-IsReplaceable :
      (is_swapin : Bool) (tx_id pair_id bind : Text) (is_manual : Bool) (w : World p)
      (swap : MgoSwap) (res : MgoSwapResult)
      → (verify_replace_swap p is_swapin tx_id pair_id bind is_manual w).0 ≡ ok (swap, res)
      → IsReplaceable is_swapin tx_id pair_id bind is_manual w res
  unfolding verify_replace_swap find_swap find_swap_result fail pure
  verify_replace_swap-IsReplaceable is_swapin tx_id pair_id bind is_manual w swap res h =
      let (swap', e, k) = >>=-ok (find_swap p is_swapin tx_id pair_id bind) _ w (swap, res) h in
      let (res', e', k') =
        >>=-ok (find_swap_result p is_swapin tx_id pair_id bind) _ w (swap, res) k in
      let (height, k1) =
        passed (not (res'.swap_height == 0) && not is_manual) (sentinel swap_tx_with_height) _ w
          (swap, res) k' in
      let (status, k2) =
        passed (not (status_eq res'.status match_tx_not_stable)) (sentinel swap_with_err_status) _ w
          (swap, res) k1 in
      let (u, c, k3) =
        >>=-ok (check_if_swap_nonce_has_passed p (not is_swapin) res' true) _ w (swap, res) k2 in
      let (u', c', k4) =
        >>=-ok (prevent_replaceswap_by_history p is_swapin res') _ _ (swap, res) k3 in
      let same : res' ≡ res = ap (λ x. x.1) (ok-inj k4) in
      subst (IsReplaceable is_swapin tx_id pair_id bind is_manual w) same (record {
        result = e';
        not_stable = ground (arith, status_eq_iff res'.status match_tx_not_stable);
        no_height = λ m. ground arith;
        unseen = check_if_swap_nonce_has_passed-IsUnseen p (not is_swapin) res' w c;
      })

  -- The arguments that a replacement of the result is built from.
  pub record IsBuilt (is_swapin : Bool) (res : MgoSwapResult) : Type 0 where
    pub args : BuildTxArgs
    pub direction : args.swap_type ≡ get_swap_type is_swapin
    pub nonce : get_tx_nonce args ≡ res.swap_nonce
    pub value : big_string args.origin_value ≡ res.value
    pub built :
        (w : World p) × (b : p.RawTx × Option AllExtras × Option ℤ) × ((call_result p
            (p.build_raw_transaction (not (is_swapin_type args.swap_type)) args)
            w).0
          ≡ ok b)

  reverified-value :
      (value bind : Text) (r : Option TxSwapInfo × Option Err) (info : TxSwapInfo)
      → reverified p (lit "[replace]") value bind r ≡ ok info
      → big_string info.value ≡ value
  unfolding reverified
  reverified-value value bind (i, some e) info h = cc
  reverified-value value bind (none, none) info h = cc
  reverified-value value bind (some i, none) info h =
      ground (arith, text_eq_iff (big_string i.value) value)

  build_and_send-built :
      (token : TokenConfig) (args : BuildTxArgs) (w : World p) (h : Text)
      → (build_and_send p token args w).0 ≡ ok h
      → (b : p.RawTx × Option AllExtras × Option ℤ) × ((call_result p
            (p.build_raw_transaction (not (is_swapin_type args.swap_type)) args)
            w).0
          ≡ ok b)
  unfolding build_and_send
  build_and_send-built token args w h q =
      let build =
        call_result p (p.build_raw_transaction (not (is_swapin_type args.swap_type)) args) in
      let (r, e, k) = >>=-ok (attempt build) _ w h q in
      let (b, e', k') = >>=-ok (or_fail p (sentinel build_tx_failed) r) _ _ h k in
      (b, attempt-ok build w r e ∙ or_fail-ok (sentinel build_tx_failed) r _ b e')

  replace_verified-IsBuilt :
      (is_swapin : Bool) (tx_id pair_id bind : Text) (gas_price : Option ℤ) (swap : MgoSwap)
      (res : MgoSwapResult) (w : World p) (h : Text)
      → (replace_verified p is_swapin tx_id pair_id bind gas_price (swap, res) w).0 ≡ ok h
      → IsBuilt is_swapin res
  unfolding replace_verified replace_args get_tx_nonce lift gets crash
  replace_verified-IsBuilt is_swapin tx_id pair_id bind gas_price swap res w h q =
      let (r, e, k) =
        >>=-ok (verify_swap_transaction p is_swapin pair_id tx_id bind swap.tx_type) _ w h q in
      let (info, e', k') =
        >>=-ok (lift (reverified p (lit "[replace]") res.value bind r)) _ _ h k in
      let w' = (verify_swap_transaction p is_swapin pair_id tx_id bind swap.tx_type w).1 in
      by_token info w' (reverified-value res.value bind r info e') w'.config.identifier
        (get_token_config w'.config pair_id (not is_swapin)) k'
    where
      pays : TxSwapInfo → Text → TokenConfig → BuildTxArgs
      pays info identifier token =
          replace_args is_swapin tx_id pair_id bind swap res identifier token.dcrm_address gas_price
            info.value

      by_token :
          (info : TxSwapInfo) (w' : World p)
          → big_string info.value ≡ res.value
          → (identifier : Text) (o : Option TokenConfig)
          → (elim o as (λ o. M p Text) [
            | none ↦ crash
            | some token ↦ build_and_send p token (pays info identifier token)
          ]
              w').0
            ≡ ok h
          → IsBuilt is_swapin res
      by_token info w' same identifier none k = cc
      by_token info w' same identifier (some token) k =
          let (b, e) = build_and_send-built token (pays info identifier token) w' h k in
          record {
            args = pays info identifier token;
            direction = refl;
            nonce = refl;
            value = same;
            built = (w', b, e);
          }

  with_gas_price-IsReplaceable :
      (is_swapin : Bool) (tx_id pair_id bind : Text) (is_manual : Bool) (gas_price : Option ℤ)
      (w : World p) (h : Text)
      → (with_gas_price p is_swapin tx_id pair_id bind is_manual gas_price w).0 ≡ ok h
      → (res : MgoSwapResult) × IsReplaceable is_swapin tx_id pair_id bind is_manual w res
        × IsBuilt is_swapin res
  unfolding with_gas_price
  with_gas_price-IsReplaceable is_swapin tx_id pair_id bind is_manual gas_price w h q =
      let ((swap, res), e, k) =
        >>=-ok (verify_replace_swap p is_swapin tx_id pair_id bind is_manual) _ w h q in
      (
        res,
        verify_replace_swap-IsReplaceable is_swapin tx_id pair_id bind is_manual w swap res e,
        replace_verified-IsBuilt is_swapin tx_id pair_id bind gas_price swap res _ h k,
      )

  -- A payment is replaced only if its result is the one in the database, waits to become stable, has
  -- no block height (unless the call is manual), and in some state none of its transactions was in a
  -- block by the bridge's answers; and the bridge was asked for a transaction in the same direction, with
  -- the nonce of the result and for the value of the result, and built one.
  pub replace_swap-IsReplaceable :
      (set_string : Text → Option ℤ) (is_swapin : Bool) (tx_id pair_id bind gas_price : Text)
      (is_manual : Bool) (w : World p) (h : Text)
      → (replace_swap p set_string is_swapin tx_id pair_id bind gas_price is_manual w).0 ≡ ok h
      → (res : MgoSwapResult) × IsReplaceable is_swapin tx_id pair_id bind is_manual w res
        × IsBuilt is_swapin res
  unfolding replace_swap fail
  replace_swap-IsReplaceable set_string is_swapin tx_id pair_id bind gas_price is_manual w h q =
      elim (Bool-cases (is_empty gas_price)) [
        | inl no_price ↦
            with_gas_price-IsReplaceable is_swapin tx_id pair_id bind is_manual none w h
              (rw no_price at q)
        | inr price ↦ by_price (set_string gas_price) (rw price at q)
      ]
    where
      by_price :
          (o : Option ℤ)
          → (elim o as (λ o. M p Text) [
            | none ↦ fail (message (lit "wrong gas price: " ++ gas_price))
            | some x ↦ with_gas_price p is_swapin tx_id pair_id bind is_manual (some x)
          ]
              w).0
            ≡ ok h
          → (res : MgoSwapResult) × IsReplaceable is_swapin tx_id pair_id bind is_manual w res
            × IsBuilt is_swapin res
      by_price none k = cc
      by_price (some x) k =
          with_gas_price-IsReplaceable is_swapin tx_id pair_id bind is_manual (some x) w h k
