-- ===== src/Mongodb/Admin.antt =====
-- mongodb/adminapi.go: what an administrator does with a swap by hand.
pub mod Reswapped
pub mod BigValue
pub mod Manual
use cross_chain_bridge.Common.{
  ℕ, Bool, true, false, not, ◌&&◌, ◌||◌, List, [], ◌∷◌, ◌++◌, Text, lit, is_empty, bool_text, ◌==◌,
  if◌then◌else◌, length,
}
use cross_chain_bridge.Common.Exec.{Result, ok, err, ◌>>=◌, ◌>>◌, pure, fail, attempt}
use cross_chain_bridge.Tokens.Errors.{Err, message}
use cross_chain_bridge.Platform.{Platform, World, M, now}
use cross_chain_bridge.Mongodb.Status.{
  SwapStatus, tx_with_big_value, match_tx_empty, tx_not_swapped, tx_not_stable, reswapping,
  manual_make_fail, status_eq, status_text, can_reverify, can_reswap, can_manual_make_fail,
}
use cross_chain_bridge.Mongodb.Documents.{MgoSwap, MgoSwapResult}
use cross_chain_bridge.Mongodb.Swaps.{find_swap, update_swap_status}
use cross_chain_bridge.Mongodb.Results.{find_swap_result, update_swap_result_status}
use cross_chain_bridge.Mongodb.Reswap.{check_can_reswap}

-- A result that has been paid out, by the test of passBigValue.
abbrev pub is_paid_out : MgoSwapResult → Bool
is_paid_out res =
    not (is_empty res.swap_tx) || not (res.swap_height == 0) || not (length res.old_swap_txs == 0)

module _ (p : Platform) where
  pub set_status : Bool → Text → Text → Text → SwapStatus → Text → M p (Unit {0})
  unfolding now
  set_status is_swapin tx_id pair_id bind status memo = do
    t ← now p
    update_swap_status p is_swapin tx_id pair_id bind status t memo

  pub set_result_status : Bool → Text → Text → Text → SwapStatus → Text → M p (Unit {0})
  unfolding now
  set_result_status is_swapin tx_id pair_id bind status memo = do
    t ← now p
    update_swap_result_status p is_swapin tx_id pair_id bind status t memo

  accept_big_value : Bool → Text → Text → Text → MgoSwap → MgoSwapResult → M p (Unit {0})
  unfolding set_status set_result_status fail status_eq
  accept_big_value is_swapin tx_id pair_id bind swap res =
      if not (status_eq swap.status tx_with_big_value)
        && not (status_eq res.status tx_with_big_value)
      then fail (
          message (
            lit "swap status is ("
            ++ (status_text swap.status
                ++ (lit ", "
                    ++ (status_text res.status
                        ++ (lit "), not big value status " ++ status_text tx_with_big_value))))))
      else if is_paid_out res
      then fail (message (lit "already swapped with swaptx " ++ res.swap_tx))
      else do
        set_result_status is_swapin tx_id pair_id bind match_tx_empty (lit "")
        set_status is_swapin tx_id pair_id bind tx_not_swapped (lit "")

  -- PassSwapinBigValue, PassSwapoutBigValue: passBigValue
  unfoldable pub pass_big_value : Bool → Text → Text → Text → M p (Unit {0})
  unfolding accept_big_value
  pass_big_value is_swapin tx_id pair_id bind = do
    swap ← find_swap p is_swapin tx_id pair_id bind
    res ← find_swap_result p is_swapin tx_id pair_id bind
    accept_big_value is_swapin tx_id pair_id bind swap res

  -- ReverifySwapin, ReverifySwapout: reverifySwap
  unfoldable pub reverify_swap : Bool → Text → Text → Text → M p (Unit {0})
  unfolding set_status fail
  reverify_swap is_swapin tx_id pair_id bind = do
    swap ← find_swap p is_swapin tx_id pair_id bind
    if not (can_reverify swap.status)
        then fail (
            message
              (lit "swap status is " ++ (status_text swap.status ++ lit ", no need to reverify")))
        else set_status is_swapin tx_id pair_id bind tx_not_stable (lit "")

  -- What reswap does with the result that it found.
  reswap_result : Bool → Text → Text → Text → MgoSwapResult → M p (Unit {0})
  unfolding set_status set_result_status
  reswap_result is_swapin tx_id pair_id bind res = do
    check_can_reswap p is_swapin res
    set_result_status is_swapin tx_id pair_id bind reswapping (lit "")
    set_status is_swapin tx_id pair_id bind tx_not_swapped (lit "")

  reswap_found : Bool → Text → Text → Text → MgoSwap → M p (Unit {0})
  unfolding reswap_result fail
  reswap_found is_swapin tx_id pair_id bind swap =
      if not (can_reswap swap.status)
      then fail
          (message (lit "swap status is " ++ (status_text swap.status ++ lit ", can not reswap")))
      else do
        res ← find_swap_result p is_swapin tx_id pair_id bind
        reswap_result is_swapin tx_id pair_id bind res

  -- Reswapin, Reswapout: reswap
  unfoldable pub reswap : Bool → Text → Text → Text → M p (Unit {0})
  unfolding reswap_found
  reswap is_swapin tx_id pair_id bind = do
    swap ← find_swap p is_swapin tx_id pair_id bind
    reswap_found is_swapin tx_id pair_id bind swap

  cannot_operate : Bool → Text → Text → Text → Bool → SwapStatus → M p (Unit {0})
  unfolding fail
  cannot_operate is_swapin tx_id pair_id bind is_pass status = fail (
      message (
        lit "swap status is "
        ++ (status_text status
            ++ (lit ", can not operate. txid="
                ++ (tx_id
                    ++ (lit " pairID="
                        ++ (pair_id
                            ++ (lit " bind="
                                ++ (bind
                                    ++ (lit " isSwapin="
                                        ++ (bool_text is_swapin
                                            ++ (lit " isPass=" ++ bool_text is_pass))))))))))))

  -- ManualManageSwap
  unfoldable pub manual_manage_swap : Bool → Bool → Text → Text → Text → Text → M p (Unit {0})
  unfolding set_status set_result_status cannot_operate status_eq attempt
  manual_manage_swap is_swapin is_pass tx_id pair_id bind memo = do
    swap ← find_swap p is_swapin tx_id pair_id bind
    if is_pass
        then (if status_eq swap.status tx_with_big_value
            then pass_big_value is_swapin tx_id pair_id bind
            else if can_reverify swap.status || status_eq swap.status manual_make_fail
            then set_status is_swapin tx_id pair_id bind tx_not_stable memo
            else cannot_operate is_swapin tx_id pair_id bind is_pass swap.status)
        else if can_manual_make_fail swap.status
        then (do
          attempt (set_result_status is_swapin tx_id pair_id bind manual_make_fail memo)
          set_status is_swapin tx_id pair_id bind manual_make_fail memo)
        else cannot_operate is_swapin tx_id pair_id bind is_pass swap.status
