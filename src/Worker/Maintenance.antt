-- ===== src/Worker/Maintenance.antt =====
-- worker/checkfailedswap.go: a second look at results that were marked as failed; and
-- worker/passbigvalue.go: the release of big values after some time.
use cross_chain_bridge.Common.{
  ℕ, ◌*◌, ◌==◌, Bool, not, ◌&&◌, ◌||◌, Option, none, some, ◌++◌, lit, is_empty, ltb, leb,
  if◌then◌else◌,
}
use cross_chain_bridge.Common.Exec.{Result, ok, err, panic, ◌>>=◌, pure, fail, attempt, gets}
use cross_chain_bridge.Tokens.Errors.{Err, sentinel, message, get_nonce_failed}
use cross_chain_bridge.Tokens.Types.{
  TxStatus, TokenConfig, TxSwapInfo, get_token_config, get_chain_config, is_nonce_setter,
  is_swap_tx_on_chain_and_failed,
}
use cross_chain_bridge.Platform.{Platform, M, call_result, now}
use cross_chain_bridge.Mongodb.Status.{tx_with_big_value, status_eq}
use cross_chain_bridge.Mongodb.Documents.{MgoSwap, MgoSwapResult}
use cross_chain_bridge.Mongodb.Admin.{pass_big_value}
use cross_chain_bridge.Worker.Updates.{
  mark_swap_result_stable, mark_swap_result_unstable, verify_swap_transaction, sep_time,
}
use cross_chain_bridge.Worker.Stable.{get_swap_tx_status}

abbrev pub pass_big_value_time_required : ℕ
pass_big_value_time_required = 12 * 3600

abbrev pub min_time_interval_to_pass_big_value : ℕ
min_time_interval_to_pass_big_value = 300

module _ (p : Platform) where
  -- Without a transaction in a block, the nonce of the account decides.
  check_by_nonce : Bool → MgoSwapResult → TokenConfig → Result Err ℕ → M p (Unit {0})
  unfolding pure fail
  check_by_nonce is_swapin swap token (err e) = fail (sentinel get_nonce_failed)
  check_by_nonce is_swapin swap token panic = fail (sentinel get_nonce_failed)
  check_by_nonce is_swapin swap token (ok nonce) =
      if leb nonce swap.swap_nonce
      then mark_swap_result_unstable p is_swapin swap.tx_id swap.pair_id swap.bind
      else pure tt

  check_status : Bool → TokenConfig → Option TxStatus × MgoSwapResult → M p (Unit {0})
  unfolding check_by_nonce attempt call_result gets pure
  check_status is_swapin token (none, swap) = do
    r ← attempt (call_result p (p.get_pool_nonce (not is_swapin) token.dcrm_address))
    check_by_nonce is_swapin swap token r
  check_status is_swapin token (some s, swap) = do
    cfg ← gets λ w. w.config
    if is_swap_tx_on_chain_and_failed (some s) (some token)
        then pure tt
        else if ltb s.confirmations (get_chain_config cfg (not is_swapin)).confirmations
        then mark_swap_result_unstable p is_swapin swap.tx_id swap.pair_id swap.bind
        else mark_swap_result_stable p is_swapin swap.tx_id swap.pair_id swap.bind

  -- checkFailedSwap. The status that getSwapTxStatus gives shows a block.
  unfoldable pub check_failed_swap : Bool → MgoSwapResult → M p (Unit {0})
  unfolding check_status gets pure fail
  check_failed_swap is_swapin swap = do
    cfg ← gets λ w. w.config
    if swap.swap_nonce == 0 && swap.swap_height == 0 || is_empty swap.swap_tx
        then pure tt
        else if not (is_nonce_setter cfg (not is_swapin))
        then pure tt
        else elim (get_token_config cfg swap.pair_id (not is_swapin)) [
          | none ↦ fail (message (lit "no token config for pairID '" ++ (swap.pair_id ++ lit "'")))
          | some token ↦ do
            r ← get_swap_tx_status p (not is_swapin) swap
            check_status is_swapin token r
        ]

  after_verify : Bool → MgoSwap → Option TxSwapInfo × Option Err → M p (Unit {0})
  unfolding fail
  after_verify is_swapin swap (info, some e) = fail e
  after_verify is_swapin swap (info, none) =
      pass_big_value p is_swapin swap.tx_id swap.pair_id swap.bind

  -- processPassBigValSwapin, processPassBigValSwapout: processPassBigValSwap
  unfoldable pub process_pass_big_val_swap : Bool → MgoSwap → M p (Unit {0})
  unfolding after_verify now pure status_eq
  process_pass_big_val_swap is_swapin swap =
      if not (status_eq swap.status tx_with_big_value) then pure tt else do
        t ← now p
        if ltb (sep_time t pass_big_value_time_required * 1000) swap.init_time then pure tt else do
          t' ← now p
          if ltb (sep_time t' min_time_interval_to_pass_big_value) swap.timestamp
              then pure tt
              else do
                r ←
                    verify_swap_transaction p is_swapin swap.pair_id swap.tx_id swap.bind
                      swap.tx_type
                after_verify is_swapin swap r
