-- ===== src/Mongodb/Reswap/Quiet.antt =====
-- The checks before a second payment read the chain and the clock alone.
use cross_chain_bridge.Common.{
  ℕ, zero, suc, ◌+◌, Bool, not, Option, none, some, List, [], ◌∷◌, ◌++◌, Text, lit, ltb, leb,
}
use cross_chain_bridge.Common.Exec.{Result, ok, err, panic, pure, gets, fail}
use cross_chain_bridge.Tokens.Errors.{Err, message}
use cross_chain_bridge.Tokens.Types.{TxStatus, TokenConfig, get_token_config, is_nonce_setter}
use cross_chain_bridge.Platform.{Platform, M}
use cross_chain_bridge.Platform.Frame.{
  IsQuiet, IsQuiet-IsFrame, IsFrame, Within, Within-bind, Within-if, Within-pure, Within-fail,
  Within-gets, Within-attempt, Within-now, Within-call_result,
}
use cross_chain_bridge.Mongodb.Documents.{MgoSwapResult}
use cross_chain_bridge.Mongodb.Reswap.{
  first_status, retry_pool_nonce, check_nonce_passed, check_reswap_nonce,
  min_time_interval_to_reswap,
}

module _ (p : Platform) where
  F : IsFrame {p = p} IsQuiet
  F = IsQuiet-IsFrame p

  first_known :
      (r : Result Err TxStatus) (tx : Text) (rest : M p (Option (TxStatus × Text)))
      → Within IsQuiet rest
      → Within {p = p} {A = Option (TxStatus × Text)} IsQuiet
          (elim r [ ok s ↦ pure (some (s, tx)) | err e ↦ rest | panic ↦ pure none ])
  first_known (ok s) tx rest h = Within-pure F (some (s, tx))
  first_known (err e) tx rest h = h
  first_known panic tx rest h = Within-pure F none

  pub first_status-IsQuiet :
      (is_src : Bool) (txs : List Text) → Within IsQuiet (first_status p is_src txs)
  unfolding first_status
  first_status-IsQuiet is_src [] = Within-pure F none
  first_status-IsQuiet is_src (tx ∷ txs) =
      Within-bind F _ _
        (Within-attempt F _ (Within-call_result F (p.get_transaction_status is_src tx)))
        λ r. first_known r tx (first_status p is_src txs) (first_status-IsQuiet is_src txs)

  known_nonce :
      (r : Result Err ℕ) (rest : M p ℕ)
      → Within IsQuiet rest
      → Within {p = p} {A = ℕ} IsQuiet (elim r [ ok n ↦ pure n | err e ↦ rest | panic ↦ pure 0 ])
  known_nonce (ok n) rest h = Within-pure F n
  known_nonce (err e) rest h = h
  known_nonce panic rest h = Within-pure F 0

  retry_pool_nonce-IsQuiet :
      (n : ℕ) (is_src : Bool) (address : Text)
      → Within IsQuiet (retry_pool_nonce p n is_src address)
  unfolding retry_pool_nonce
  retry_pool_nonce-IsQuiet zero is_src address = Within-pure F 0
  retry_pool_nonce-IsQuiet (suc n) is_src address =
      Within-bind F _ _
        (Within-attempt F _ (Within-call_result F (p.get_pool_nonce is_src address)))
        λ r.
          known_nonce r (retry_pool_nonce p n is_src address)
            (retry_pool_nonce-IsQuiet n is_src address)

  check_nonce_passed-IsQuiet :
      (is_src : Bool) (res : MgoSwapResult) (token : TokenConfig)
      → Within IsQuiet (check_nonce_passed p is_src res token)
  unfolding check_nonce_passed
  check_nonce_passed-IsQuiet is_src res token =
      Within-bind F _ _ (retry_pool_nonce-IsQuiet 3 is_src token.dcrm_address) λ nonce.
        Within-if F (leb nonce res.swap_nonce) _ _ (Within-fail F (Unit {0}) _) (
          Within-bind F _ _ (Within-now F) λ t.
            Within-if F (ltb t (res.timestamp + min_time_interval_to_reswap)) _ _
              (Within-fail F (Unit {0}) (message (lit "can not reswap in too short interval")))
              (Within-pure F tt))

  with_token-IsQuiet :
      (is_src : Bool) (res : MgoSwapResult) (token : Option TokenConfig)
      → Within {p = p} {A = Unit {0}} IsQuiet (elim token [
        | none ↦ fail (message (lit "no token config for pairID '" ++ (res.pair_id ++ lit "'")))
        | some t ↦ check_nonce_passed p is_src res t
      ])
  with_token-IsQuiet is_src res none = Within-fail F (Unit {0}) _
  with_token-IsQuiet is_src res (some t) = check_nonce_passed-IsQuiet is_src res t

  pub check_reswap_nonce-IsQuiet :
      (is_src : Bool) (res : MgoSwapResult) → Within IsQuiet (check_reswap_nonce p is_src res)
  unfolding check_reswap_nonce
  check_reswap_nonce-IsQuiet is_src res =
      Within-bind F (gets λ w. w.config) _ (Within-gets F _) λ cfg.
        Within-if F (not (is_nonce_setter cfg is_src)) _ _ (Within-pure F tt)
          (with_token-IsQuiet is_src res (get_token_config cfg res.pair_id is_src))
