-- ===== src/Worker/Updates.antt =====
-- worker/common.go: the writes of the jobs to the swap results, and the verification of a swap.
pub mod Unsent
use cross_chain_bridge.Common.{
  ℕ, ◌-◌, ◌==◌, Bool, true, false, not, ◌&&◌, Option, none, some, [], Text, lit, is_empty,
  equal_fold, ltb, if◌then◌else◌,
}
use cross_chain_bridge.Common.Int.{ℤ, big_string}
use cross_chain_bridge.Common.Exec.{Result, ok, err, panic, ◌>>=◌, ◌>>◌, pure, fail, gets}
use cross_chain_bridge.Tokens.Errors.{
  Err, sentinel, message, unknown_swap_type, no_btc_bridge, bind_address_mismatch,
}
use cross_chain_bridge.Tokens.Types.{
  SwapType, no_swap_type, swapin_type, swapout_type, SwapTxType, swapin_tx, swapout_tx,
  p2sh_swapin_tx, TxSwapInfo,
}
use cross_chain_bridge.Platform.{Platform, World, M, call, now}
use cross_chain_bridge.Mongodb.Status.{
  SwapStatus, keep_status, match_tx_not_stable, match_tx_stable, match_tx_failed,
}
use cross_chain_bridge.Mongodb.Documents.{MgoSwapResult, SwapResultUpdateItems}
use cross_chain_bridge.Mongodb.Results.{
  add_swap_result, update_swap_result as store_update, update_swap_result_status,
}

pub record MatchTx : Type 0 where
  pub swap_tx : Text
  pub swap_height : ℕ
  pub swap_time : ℕ
  pub swap_value : Text
  pub swap_type : SwapType
  pub swap_nonce : ℕ

-- getSwapType
abbrev pub get_swap_type : Bool → SwapType
get_swap_type true = swapin_type
get_swap_type false = swapout_type

-- The result that addInitialSwapResult stores; the key and the time of insertion are set later.
unfoldable pub initial_swap_result : Bool → TxSwapInfo → SwapStatus → ℕ → MgoSwapResult
initial_swap_result is_swapin info status timestamp = record {
  key = lit "";
  pair_id = info.pair_id;
  tx_id = info.hash;
  tx_to = info.tx_to;
  tx_height = info.height;
  tx_time = info.timestamp;
  from = info.from;
  to = info.to;
  bind = info.bind;
  value = big_string info.value;
  swap_tx = lit "";
  old_swap_txs = [];
  old_swap_vals = [];
  swap_height = 0;
  swap_time = 0;
  swap_value = lit "0";
  swap_type = get_swap_type is_swapin;
  swap_nonce = 0;
  status = status;
  init_time = 0;
  timestamp = timestamp;
  memo = lit "";
}

-- SwapResultUpdateItems with only a status and a time.
abbrev pub empty_items : SwapStatus → ℕ → SwapResultUpdateItems
empty_items status timestamp = record {
  swap_tx = lit "";
  swap_height = 0;
  swap_time = 0;
  swap_value = lit "";
  swap_type = no_swap_type;
  swap_nonce = 0;
  status = status;
  timestamp = timestamp;
  memo = lit "";
}

-- The updates of updateSwapResult for a match.
unfoldable pub match_items : MatchTx → ℕ → SwapResultUpdateItems
match_items mtx timestamp =
    if mtx.swap_height == 0
    then record (empty_items keep_status timestamp) {
      swap_value = mtx.swap_value;
      swap_nonce = mtx.swap_nonce;
      swap_tx = mtx.swap_tx;
      status = if is_empty mtx.swap_tx then keep_status else match_tx_not_stable;
    }
    else record (empty_items keep_status timestamp) {
      swap_nonce = mtx.swap_nonce;
      swap_height = mtx.swap_height;
      swap_time = mtx.swap_time;
      swap_tx = mtx.swap_tx;
    }

-- What verifySwapTransaction makes of a bridge's answer.
unfoldable pub checked_swap_info :
    Text → Option TxSwapInfo × Option Err → Option TxSwapInfo × Option Err
checked_swap_info bind (none, e) = (none, some (message (lit "empty swapinfo after verify tx")))
checked_swap_info bind (some info, e) =
    if not (is_empty info.bind) && not (equal_fold info.bind bind)
    then (none, some (sentinel bind_address_mismatch))
    else (some info, e)

module _ (p : Platform) where
  unfoldable pub add_initial_swap_result : Bool → TxSwapInfo → SwapStatus → M p (Unit {0})
  unfolding now initial_swap_result
  add_initial_swap_result is_swapin info status = do
    t ← now p
    add_swap_result p is_swapin (initial_swap_result is_swapin info status t)

  -- UpdateSwapinResult or UpdateSwapoutResult, by the type of the swap.
  unfoldable pub update_by_type :
      SwapType → Text → Text → Text → SwapResultUpdateItems → M p (Unit {0})
  unfolding fail
  update_by_type swapin_type tx_id pair_id bind items = store_update p true tx_id pair_id bind items
  update_by_type swapout_type tx_id pair_id bind items =
      store_update p false tx_id pair_id bind items
  update_by_type no_swap_type tx_id pair_id bind items = fail (sentinel unknown_swap_type)

  unfoldable pub update_swap_result : Text → Text → Text → MatchTx → M p (Unit {0})
  unfolding now match_items update_by_type
  update_swap_result tx_id pair_id bind mtx = do
    t ← now p
    update_by_type mtx.swap_type tx_id pair_id bind (match_items mtx t)

  unfoldable pub update_swap_result_height : MgoSwapResult → ℕ → ℕ → Bool → M p (Unit {0})
  unfolding now update_by_type
  update_swap_result_height swap block_height block_time update_swap_tx = do
    t ← now p
    update_by_type swap.swap_type swap.tx_id swap.pair_id swap.bind
        (record (empty_items keep_status t) {
          swap_height = block_height;
          swap_time = block_time;
          swap_tx = if update_swap_tx then swap.swap_tx else lit "";
          swap_value = if update_swap_tx then swap.swap_value else lit "";
        })

  unfoldable pub update_swap_timestamp : Bool → Text → Text → Text → M p (Unit {0})
  unfolding now
  update_swap_timestamp is_swapin tx_id pair_id bind = do
    t ← now p
    store_update p is_swapin tx_id pair_id bind (empty_items keep_status t)

  unfoldable pub update_swap_result_tx :
      Bool → Text → Text → Text → Text → Text → SwapStatus → M p (Unit {0})
  unfolding now
  update_swap_result_tx is_swapin tx_id pair_id bind swap_tx swap_value status = do
    t ← now p
    store_update p is_swapin tx_id pair_id bind
        (record (empty_items status t) { swap_tx = swap_tx; swap_value = swap_value })

  mark : SwapStatus → Bool → Text → Text → Text → M p (Unit {0})
  unfolding now
  mark status is_swapin tx_id pair_id bind = do
    t ← now p
    update_swap_result_status p is_swapin tx_id pair_id bind status t (lit "")

  unfoldable pub mark_swap_result_unstable : Bool → Text → Text → Text → M p (Unit {0})
  unfolding mark
  mark_swap_result_unstable = mark match_tx_not_stable

  unfoldable pub mark_swap_result_stable : Bool → Text → Text → Text → M p (Unit {0})
  unfolding mark
  mark_swap_result_stable = mark match_tx_stable

  unfoldable pub mark_swap_result_failed : Bool → Text → Text → Text → M p (Unit {0})
  unfolding mark
  mark_swap_result_failed = mark match_tx_failed

  -- verifySwapTransaction on the bridge of an endpoint: the swap info and the error.
  unfoldable pub verify_swap_transaction :
      Bool → Text → Text → Text → SwapTxType → M p (Option TxSwapInfo × Option Err)
  unfolding call checked_swap_info pure gets
  verify_swap_transaction is_src pair_id tx_id bind p2sh_swapin_tx = do
    cfg ← gets λ w. w.config
    if cfg.has_btc_bridge
        then (do
          r ← call p (p.verify_p2sh_transaction pair_id tx_id bind false)
          pure (checked_swap_info bind r))
        else pure (none, some (sentinel no_btc_bridge))
  verify_swap_transaction is_src pair_id tx_id bind _ = do
    r ← call p (p.verify_transaction is_src pair_id tx_id false)
    pure (checked_swap_info bind r)

-- getSepTimeInFind, at the time `t`
abbrev pub sep_time : ℕ → ℕ → ℕ
sep_time t dist = t - dist
