-- ===== src/Mongodb/Reswap.antt =====
-- mongodb/adminapi.go: what is checked before a failed swap may be paid out again.
pub mod Quiet
pub mod Refusal
use cross_chain_bridge.Common.{
  ℕ, zero, suc, ◌+◌, Bool, true, false, not, ◌&&◌, ◌||◌, Option, none, some, List, [], ◌∷◌, ◌++◌,
  Text, lit, is_empty, bool_text, leb, ltb, if◌then◌else◌,
}
use cross_chain_bridge.Common.Exec.{
  Result, ok, err, panic, ◌>>=◌, ◌>>◌, pure, fail, crash, attempt, gets,
}
use cross_chain_bridge.Tokens.Errors.{Err, message}
use cross_chain_bridge.Tokens.Types.{
  SwapType, no_swap_type, swapin_type, swapout_type, swap_type_text, TxStatus, TokenConfig,
  get_token_config, is_nonce_setter, is_swap_tx_on_chain_and_failed,
}
use cross_chain_bridge.Platform.{Platform, World, M, call_result, now}
use cross_chain_bridge.Mongodb.Status.{
  SwapStatus, match_tx_failed, match_tx_not_stable, status_eq, status_text,
}
use cross_chain_bridge.Mongodb.Documents.{MgoSwapResult}
use cross_chain_bridge.Mongodb.Results.{update_swap_result_status}

abbrev pub min_time_interval_to_reswap : ℕ
min_time_interval_to_reswap = 300

abbrev pub is_swap_type_of : Bool → SwapType → Bool
is_swap_type_of is_swapin no_swap_type = false
is_swap_type_of is_swapin swapin_type = is_swapin
is_swap_type_of is_swapin swapout_type = not is_swapin

module _ (p : Platform) where
  -- The status of the first of the transactions that the bridge knows.
  pub first_status : Bool → List Text → M p (Option (TxStatus × Text))
  unfolding pure call_result attempt
  first_status is_src [] = pure none
  first_status is_src (tx ∷ txs) = do
    r ← attempt (call_result p (p.get_transaction_status is_src tx))
    elim r [ ok s ↦ pure (some (s, tx)) | err e ↦ first_status is_src txs | panic ↦ pure none ]

  -- getSwapResultsTxStatus
  unfoldable pub get_swap_results_tx_status : Bool → MgoSwapResult → M p (Option (TxStatus × Text))
  unfolding first_status
  get_swap_results_tx_status is_src res = first_status is_src (res.swap_tx ∷ res.old_swap_txs)

  -- The nonce of the pool account, asked for up to three times; 0 if there is none.
  retry_pool_nonce : ℕ → Bool → Text → M p ℕ
  unfolding pure call_result attempt
  retry_pool_nonce zero is_src address = pure 0
  retry_pool_nonce (suc n) is_src address = do
    r ← attempt (call_result p (p.get_pool_nonce is_src address))
    elim r [ ok nonce ↦ pure nonce | err e ↦ retry_pool_nonce n is_src address | panic ↦ pure 0 ]

  check_nonce_passed : Bool → MgoSwapResult → TokenConfig → M p (Unit {0})
  unfolding retry_pool_nonce fail now pure
  check_nonce_passed is_src res token = do
    nonce ← retry_pool_nonce 3 is_src token.dcrm_address
    if leb nonce res.swap_nonce then fail (message (lit "can not reswap with lower nonce")) else do
      t ← now p
      if ltb t (res.timestamp + min_time_interval_to_reswap)
          then fail (message (lit "can not reswap in too short interval"))
          else pure tt

  -- checkReswapNonce
  unfoldable pub check_reswap_nonce : Bool → MgoSwapResult → M p (Unit {0})
  unfolding check_nonce_passed gets
  check_reswap_nonce is_src res = do
    cfg ← gets λ w. w.config
    if not (is_nonce_setter cfg is_src)
        then pure tt
        else elim (get_token_config cfg res.pair_id is_src) [
          | none ↦ fail (message (lit "no token config for pairID '" ++ (res.pair_id ++ lit "'")))
          | some token ↦ check_nonce_passed is_src res token
        ]

  -- What checkCanReswap does with the status of the transactions that it found.
  check_tx_failed : Bool → MgoSwapResult → Option (TxStatus × Text) → M p (Unit {0})
  unfolding check_reswap_nonce
  check_tx_failed is_swapin res none = check_reswap_nonce (not is_swapin) res
  check_tx_failed is_swapin res (some (s, tx)) = do
    cfg ← gets λ w. w.config
    let token = get_token_config cfg res.pair_id (not is_swapin)
    if ltb 0 s.block_height && not (is_swap_tx_on_chain_and_failed (some s) token)
        then (do
          t ← now p
          attempt (
              update_swap_result_status p is_swapin res.tx_id res.pair_id res.bind
                match_tx_not_stable t (lit ""))
          fail (message (lit "swap succeed with swaptx " ++ tx)))
        else check_reswap_nonce (not is_swapin) res

  -- checkCanReswap
  unfoldable pub check_can_reswap : Bool → MgoSwapResult → M p (Unit {0})
  unfolding check_tx_failed get_swap_results_tx_status status_eq
  check_can_reswap is_swapin res =
      if not (is_swap_type_of is_swapin res.swap_type)
      then fail (
          message (
            lit "wrong swap type "
            ++ (swap_type_text res.swap_type
                ++ (lit " (isSwapin=" ++ (bool_text is_swapin ++ lit ")")))))
      else if not (status_eq res.status match_tx_failed)
      then fail (
          message
            (lit "swap result status is " ++ (status_text res.status ++ lit ", can not reswap")))
      else if is_empty res.swap_tx
      then fail (message (lit "swap without swaptx"))
      else do
        found ← get_swap_results_tx_status (not is_swapin) res
        check_tx_failed is_swapin res found
