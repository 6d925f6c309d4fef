-- ===== src/Worker/Prevent.antt =====
-- worker/swap.go: preventReswap, which every payment passes before it is built and again before it
-- is recorded and sent.
pub mod Quiet
use cross_chain_bridge.Common.{
  ℕ, ◌==◌, Bool, true, false, not, ◌&&◌, ◌||◌, Option, none, some, List, [], ◌∷◌, ◌++◌, Text, lit,
  is_empty, ltb, length, if◌then◌else◌,
}
use cross_chain_bridge.Common.Exec.{Result, ok, err, panic, ◌>>=◌, ◌>>◌, pure, fail, attempt, gets}
use cross_chain_bridge.Tokens.Errors.{Err, sentinel, message, already_swapped}
use cross_chain_bridge.Tokens.Types.{TxStatus, Receipt, rpc_tx_receipt, other_receipt, is_status_ok}
use cross_chain_bridge.Platform.{Platform, World, M, call_result, now}
use cross_chain_bridge.Mongodb.Status.{
  SwapStatus, tx_with_big_value, tx_with_wrong_memo, bind_addr_is_contract, tx_with_wrong_value,
  tx_processed, reswapping, status_eq, status_text,
}
use cross_chain_bridge.Mongodb.Documents.{MgoSwapResult, MgoSwapHistory}
use cross_chain_bridge.Mongodb.Swaps.{update_swap_status}
use cross_chain_bridge.Mongodb.Histories.{get_swap_history}
use cross_chain_bridge.Worker.Cache.{is_swap_history_exist}

-- A result that has been given a transaction, by the first test of preventReswap.
unfoldable pub is_swapped : MgoSwapResult → Bool
is_swapped res =
    ltb 0 res.swap_nonce
    || not (is_empty res.swap_tx)
    || not (res.swap_height == 0)
    || ltb 0 (length res.old_swap_txs)

-- The statuses of a result that must not be paid out.
unfoldable pub is_forbidden : SwapStatus → Bool
is_forbidden tx_with_big_value = true
is_forbidden tx_with_wrong_memo = true
is_forbidden bind_addr_is_contract = true
is_forbidden tx_with_wrong_value = true
is_forbidden _ = false

-- Whether a sent transaction has paid out, by its receipt or else by its block.
unfoldable pub has_paid : TxStatus → Bool
has_paid s = elim s.receipt [
  | none ↦ ltb 0 s.block_height
  | some r ↦ elim r [ rpc_tx_receipt status logs ↦ is_status_ok status | other_receipt ↦ false ]
]

module _ (p : Platform) where
  any_paid : Bool → List MgoSwapHistory → M p Bool
  unfolding pure call_result attempt
  any_paid is_src [] = pure false
  any_paid is_src (h ∷ hs) = do
    r ← attempt (call_result p (p.get_transaction_status is_src h.swap_tx))
    elim r [
      | ok s ↦ if has_paid s then pure true else any_paid is_src hs
      | err e ↦ any_paid is_src hs
      | panic ↦ pure false
    ]

  -- The register is set to a status, whatever comes of it.
  set_status_anyway : Bool → MgoSwapResult → SwapStatus → M p (Unit {0})
  unfolding now attempt pure
  set_status_anyway is_swapin res status = do
    t ← now p
    attempt (update_swap_status p is_swapin res.tx_id res.pair_id res.bind status t (lit ""))
    pure tt

  refuse_swapped : Bool → MgoSwapResult → M p (Unit {0})
  unfolding set_status_anyway fail
  refuse_swapped is_swapin res = do
    set_status_anyway is_swapin res tx_processed
    fail (sentinel already_swapped)

  -- The history that was read, or none of it after an error.
  history_or_empty : Result Err (List MgoSwapHistory) → List MgoSwapHistory
  history_or_empty (ok hs) = hs
  history_or_empty (err e) = []
  history_or_empty panic = []

  check_history : Bool → MgoSwapResult → List MgoSwapHistory → M p (Unit {0})
  unfolding any_paid refuse_swapped pure
  check_history is_swapin res [] = pure tt
  check_history is_swapin res (h ∷ hs) =
      if not (status_eq res.status reswapping) then refuse_swapped is_swapin res else do
        paid ← any_paid (not is_swapin) (h ∷ hs)
        if paid then refuse_swapped is_swapin res else pure tt

  -- preventReswapByHistory
  unfoldable pub prevent_reswap_by_history : Bool → MgoSwapResult → M p (Unit {0})
  unfolding check_history history_or_empty attempt
  prevent_reswap_by_history is_swapin res = do
    r ← attempt (get_swap_history p is_swapin res.tx_id res.bind)
    check_history is_swapin res (history_or_empty r)

  -- preventReswap
  unfoldable pub prevent_reswap : Bool → MgoSwapResult → M p (Unit {0})
  unfolding refuse_swapped set_status_anyway fail gets is_swapped is_forbidden status_eq
  prevent_reswap is_swapin res =
      if is_swapped res
      then refuse_swapped is_swapin res
      else if is_forbidden res.status
      then (do
        set_status_anyway is_swapin res res.status
        fail (message (lit "forbid doswap for swap with status " ++ status_text res.status)))
      else do
        known ← gets (is_swap_history_exist p is_swapin res.tx_id res.bind)
        if not (status_eq res.status reswapping) && known
            then refuse_swapped is_swapin res
            else prevent_reswap_by_history is_swapin res
