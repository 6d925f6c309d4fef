-- ===== src/Worker/Stable.antt =====
-- worker/stable.go: the job that follows a payment until its transaction is final; with
-- checkIfSwapNonceHasPassed of worker/replaceswap.go and isSwapResultTxOnChain of worker/replace.go.
pub mod Known
pub mod Quiet
pub mod Fresh
use cross_chain_bridge.Common.{
  ℕ, ◌+◌, ◌==◌, Bool, true, false, not, ◌&&◌, ◌||◌, Option, none, some, List, [], ◌∷◌, ◌++◌, Text,
  lit, is_empty, ltb, text_eq, if◌then◌else◌,
}
use cross_chain_bridge.Common.Exec.{
  Result, ok, err, panic, ◌>>=◌, ◌>>◌, pure, fail, crash, attempt, gets,
}
use cross_chain_bridge.Tokens.Errors.{
  Err, sentinel, message, not_nonce_support, get_nonce_failed, swap_nonce_too_big,
  swap_tx_is_on_chain, swap_nonce_passed,
}
use cross_chain_bridge.Tokens.Types.{
  TxStatus, TokenConfig, SwapType, is_swapin_type, get_token_config, get_chain_config,
  is_nonce_setter, is_swap_tx_on_chain_and_failed,
}
use cross_chain_bridge.Platform.{Platform, World, M, call, call_result, now}
use cross_chain_bridge.Mongodb.Status.{keep_status, reswapping, status_eq}
use cross_chain_bridge.Mongodb.Documents.{MgoSwapResult}
use cross_chain_bridge.Mongodb.Results.{find_swap_result}
use cross_chain_bridge.Worker.Updates.{
  update_swap_result_height, update_swap_result_tx, mark_swap_result_stable,
  mark_swap_result_failed, sep_time,
}

abbrev pub max_distance_of_swap_nonce : ℕ
max_distance_of_swap_nonce = 5

abbrev pub treat_as_nonce_passed_interval : ℕ
treat_as_nonce_passed_interval = 600

-- The result with one of its earlier transactions, and the value sent by it if that is known.
unfoldable pub with_old : MgoSwapResult → Text → List Text → MgoSwapResult
with_old swap old [] = record swap { swap_tx = old }
with_old swap old (value ∷ values) = record swap { swap_tx = old; swap_value = value }

-- The values that belong to the transactions behind the first.
unfoldable pub rest_of : List Text → List Text
rest_of [] = []
rest_of (v ∷ vs) = vs

-- A status that is there and shows a block.
unfoldable pub in_block : Result Err TxStatus → Option TxStatus
in_block (ok s) = if ltb 0 s.block_height then some s else none
in_block (err e) = none
in_block panic = none

module _ (p : Platform) where
  -- The loop over the earlier transactions, with the values from their place on.
  old_tx_status :
      Bool → MgoSwapResult → List Text → List Text → M p (Option TxStatus × MgoSwapResult)
  unfolding with_old rest_of in_block attempt call_result pure
  old_tx_status is_src swap [] values = pure (none, swap)
  old_tx_status is_src swap (old ∷ olds) values =
      if text_eq swap.swap_tx old then old_tx_status is_src swap olds (rest_of values) else do
        r ← attempt (call_result p (p.get_transaction_status is_src old))
        elim (in_block r) [
          | some s ↦ pure (some s, with_old swap old values)
          | none ↦ old_tx_status is_src swap olds (rest_of values)
        ]

  -- getSwapTxStatus: the status, and the result as the function leaves it.
  unfoldable pub get_swap_tx_status : Bool → MgoSwapResult → M p (Option TxStatus × MgoSwapResult)
  unfolding old_tx_status in_block attempt call_result pure
  get_swap_tx_status is_src swap = do
    r ← attempt (call_result p (p.get_transaction_status is_src swap.swap_tx))
    elim (in_block r) [
      | some s ↦ pure (some s, swap)
      | none ↦ old_tx_status is_src swap swap.old_swap_txs swap.old_swap_vals
    ]

  -- isTransactionOnChain
  is_transaction_on_chain : Bool → Text → M p Bool
  unfolding call pure
  is_transaction_on_chain is_src tx_hash =
      if is_empty tx_hash
      then pure false
      else do info ← call p (p.get_tx_block_info is_src tx_hash); pure (ltb 0 info.0)

  pub any_on_chain : Bool → List Text → M p Bool
  unfolding is_transaction_on_chain pure
  any_on_chain is_src [] = pure false
  any_on_chain is_src (tx ∷ txs) = do
    found ← is_transaction_on_chain is_src tx
    if found then pure true else any_on_chain is_src txs

  -- isSwapResultTxOnChain
  unfoldable pub is_swap_result_tx_on_chain : Bool → MgoSwapResult → M p Bool
  unfolding any_on_chain
  is_swap_result_tx_on_chain is_src res = any_on_chain is_src (res.swap_tx ∷ res.old_swap_txs)

  on_chain_error : Bool → M p (Unit {0})
  unfolding fail pure
  on_chain_error is_replace = if is_replace then fail (sentinel swap_tx_is_on_chain) else pure tt

  -- The second look at the chain, and the mark.
  mark_passed : Bool → Bool → MgoSwapResult → Bool → M p (Unit {0})
  unfolding is_swap_result_tx_on_chain on_chain_error attempt fail pure status_eq
  mark_passed is_src is_swapin res is_replace = do
    found ← is_swap_result_tx_on_chain is_src res
    if found then on_chain_error is_replace else do
      old ← find_swap_result p is_swapin res.tx_id res.pair_id res.bind
      if status_eq old.status reswapping
          then fail (message (lit "forbid mark reswaping result to failed status"))
          else do
            attempt (mark_swap_result_failed p is_swapin res.tx_id res.pair_id res.bind)
            if is_replace then fail (sentinel swap_nonce_passed) else pure tt

  -- What follows once the nonce of the account is known and no transaction is on the chain.
  nonce_passed : Bool → Bool → MgoSwapResult → Bool → ℕ → M p (Unit {0})
  unfolding mark_passed now fail pure
  nonce_passed is_src is_swapin res is_replace nonce =
      if ltb res.swap_nonce nonce && ltb 0 res.swap_nonce
      then (do
        t ← now p
        if ltb res.timestamp (sep_time t treat_as_nonce_passed_interval)
            then mark_passed is_src is_swapin res is_replace
            else if is_replace
            then fail (sentinel swap_nonce_passed)
            else pure tt)
      else pure tt

  after_pool_nonce : Bool → Bool → MgoSwapResult → Bool → Result Err ℕ → M p (Unit {0})
  unfolding nonce_passed is_swap_result_tx_on_chain on_chain_error fail
  after_pool_nonce is_src is_swapin res is_replace (err e) = fail (sentinel get_nonce_failed)
  after_pool_nonce is_src is_swapin res is_replace panic = fail (sentinel get_nonce_failed)
  after_pool_nonce is_src is_swapin res is_replace (ok nonce) =
      if is_replace && ltb (nonce + max_distance_of_swap_nonce) res.swap_nonce
      then fail (sentinel swap_nonce_too_big)
      else do
        found ← is_swap_result_tx_on_chain is_src res
        if found
            then on_chain_error is_replace
            else nonce_passed is_src is_swapin res is_replace nonce

  -- checkIfSwapNonceHasPassed; the direction is that of the result's swap type
  unfoldable pub check_if_swap_nonce_has_passed : Bool → MgoSwapResult → Bool → M p (Unit {0})
  unfolding after_pool_nonce attempt call_result fail gets
  check_if_swap_nonce_has_passed is_src res is_replace = do
    cfg ← gets λ w. w.config
    if not (is_nonce_setter cfg is_src)
        then fail (sentinel not_nonce_support)
        else elim (get_token_config cfg res.pair_id is_src) [
          | none ↦ fail (message (lit "no token config for pairID '" ++ (res.pair_id ++ lit "'")))
          | some token ↦ do
            r ← attempt (call_result p (p.get_pool_nonce is_src token.dcrm_address))
            after_pool_nonce is_src (is_swapin_type res.swap_type) res is_replace r
        ]

  -- The block of one of the earlier transactions: the height, the time and the result.
  old_block_info : Bool → MgoSwapResult → List Text → List Text → ℕ → M p (ℕ × ℕ × MgoSwapResult)
  unfolding with_old rest_of call pure
  old_block_info is_src swap [] values time = pure (0, time, swap)
  old_block_info is_src swap (old ∷ olds) values time =
      if text_eq swap.swap_tx old then old_block_info is_src swap olds (rest_of values) time else do
        info ← call p (p.get_tx_block_info is_src old)
        if ltb 0 info.0
            then pure (info.0, info.1, with_old swap old values)
            else old_block_info is_src swap olds (rest_of values) info.1

  block_info : Bool → MgoSwapResult → ℕ × ℕ → M p (ℕ × ℕ × MgoSwapResult)
  unfolding old_block_info pure
  block_info is_src swap (height, time) =
      if height == 0
      then old_block_info is_src swap swap.old_swap_txs swap.old_swap_vals time
      else pure (height, time, swap)

  write_block_info : Bool → Text → ℕ × ℕ × MgoSwapResult → M p (Unit {0})
  write_block_info is_src old_swap_tx (height, time, swap) =
      if height == 0 && ltb 0 swap.swap_nonce
      then check_if_swap_nonce_has_passed is_src swap false
      else update_swap_result_height p swap height time (not (text_eq swap.swap_tx old_swap_tx))

  -- processUpdateSwapHeight
  unfoldable pub process_update_swap_height : Bool → MgoSwapResult → M p (Unit {0})
  unfolding block_info write_block_info call gets pure
  process_update_swap_height is_src swap = do
    cfg ← gets λ w. w.config
    if not (is_nonce_setter cfg is_src) then pure tt else do
      info ← call p (p.get_tx_block_info is_src swap.swap_tx)
      found ← block_info is_src swap info
      write_block_info is_src swap.swap_tx found

  -- A payment that is in a block: final once it has the confirmations of the chain.
  confirm : Bool → Text → TxStatus → MgoSwapResult → M p (Unit {0})
  unfolding attempt gets pure
  confirm is_swapin old_swap_tx s swap = do
    cfg ← gets λ w. w.config
    if ltb s.confirmations (get_chain_config cfg (not is_swapin)).confirmations then pure tt else do
      if text_eq swap.swap_tx old_swap_tx
          then pure (ok tt)
          else attempt (
              update_swap_result_tx p is_swapin swap.tx_id swap.pair_id swap.bind swap.swap_tx
                swap.swap_value keep_status)
      if is_swap_tx_on_chain_and_failed (some s) (get_token_config cfg swap.pair_id (not is_swapin))
          then mark_swap_result_failed p is_swapin swap.tx_id swap.pair_id swap.bind
          else mark_swap_result_stable p is_swapin swap.tx_id swap.pair_id swap.bind

  after_status : Bool → Text → Option TxStatus × MgoSwapResult → M p (Unit {0})
  unfolding confirm process_update_swap_height pure
  after_status is_swapin old_swap_tx (none, swap) =
      if swap.swap_height == 0 then process_update_swap_height (not is_swapin) swap else pure tt
  after_status is_swapin old_swap_tx (some s, swap) =
      if not (swap.swap_height == 0)
      then confirm is_swapin old_swap_tx s swap
      else update_swap_result_height p swap s.block_height s.block_time
          (not (text_eq swap.swap_tx old_swap_tx))

  -- processSwapinStable, processSwapoutStable: processSwapStable
  unfoldable pub process_swap_stable : Bool → MgoSwapResult → M p (Unit {0})
  unfolding get_swap_tx_status after_status
  process_swap_stable is_swapin swap = do
    r ← get_swap_tx_status (not is_swapin) swap
    after_status is_swapin swap.swap_tx r
