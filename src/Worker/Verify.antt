-- ===== src/Worker/Verify.antt =====
-- worker/verify.go: the verification of a registered swap, and what becomes of it.
pub mod Released
use cross_chain_bridge.Common.{
  ℕ, ◌==◌, Bool, false, not, ◌&&◌, ◌||◌, Option, none, some, ◌++◌, List, Text, lit, text_eq, ltb,
  decimal, if◌then◌else◌,
}
use cross_chain_bridge.Common.Int.{ltb_ℤ}
use cross_chain_bridge.Common.Exec.{◌>>=◌, ◌>>◌, pure, fail, crash, gets}
use cross_chain_bridge.Tokens.Errors.{
  Err, sentinel, errors_is, error_text, sentinel_text, unknown_pair_id, swap_is_closed,
  tx_before_initial_height, address_is_in_blacklist, tx_not_stable, tx_not_found,
  tx_with_wrong_receipt, tx_incompatible, tx_with_wrong_sender, not_found, rpc_query_error,
  tx_with_wrong_memo, bind_addr_is_contract, tx_with_wrong_value, tx_sender_not_registered,
  bind_address_mismatch,
}
use cross_chain_bridge.Tokens.Types.{
  TokenConfig, TxSwapInfo, get_token_config, get_chain_config, is_in_big_value_whitelist,
}
use cross_chain_bridge.Platform.{Platform, M, now}
use cross_chain_bridge.Mongodb.Status.{SwapStatus}
use cross_chain_bridge.Mongodb.Status
use cross_chain_bridge.Mongodb.Documents.{MgoSwap}
use cross_chain_bridge.Mongodb.Swaps.{update_swap_status as store_status, find_swaps_with_status}
use cross_chain_bridge.Mongodb.Blacklist.{query_blacklist}
use cross_chain_bridge.Worker.Updates.{add_initial_swap_result, verify_swap_transaction, sep_time}

abbrev pub max_verify_lifetime : ℕ
max_verify_lifetime = 604800

-- What becomes of a swap after its verification.
pub data Verdict : Type 0 where
  -- The error comes back, and the swap is verified again later.
  later : Err → Verdict
  -- A status and a memo for the register, and a status for a new swap result.
  settle : SwapStatus → Text → SwapStatus → Verdict
  -- A status and a memo for the register alone.
  reject : SwapStatus → Text → Verdict

-- The errors after which a swap is verified again.
unfoldable pub is_transient : Err → Bool
is_transient e =
    errors_is e tx_not_stable
    || errors_is e tx_not_found
    || errors_is e swap_is_closed
    || errors_is e tx_with_wrong_receipt
    || errors_is e tx_incompatible
    || errors_is e tx_with_wrong_sender
    || errors_is e not_found
    || errors_is e rpc_query_error

-- The switch of updateSwapStatus on an error.
unfoldable pub error_verdict : Err → Verdict
unfolding is_transient
error_verdict e =
    if is_transient e
    then later e
    else if errors_is e tx_with_wrong_memo
    then settle Status.tx_with_wrong_memo (error_text e) Status.tx_with_wrong_memo
    else if errors_is e bind_addr_is_contract
    then settle Status.bind_addr_is_contract (error_text e) Status.bind_addr_is_contract
    else if errors_is e tx_with_wrong_value
    then settle Status.tx_with_wrong_value (error_text e) Status.tx_with_wrong_value
    else if errors_is e tx_sender_not_registered
    then reject Status.tx_sender_not_registered (error_text e)
    else if errors_is e bind_address_mismatch
    then reject Status.tx_verify_failed (error_text e)
    else reject Status.tx_verify_failed (error_text e)

-- A value above the threshold of the token waits, unless one of the accounts may pass it.
unfoldable pub value_verdict : TokenConfig → TxSwapInfo → Verdict
value_verdict token info =
    if ltb_ℤ token.big_val_threshold info.value
      && not (is_in_big_value_whitelist token info.from)
      && not (is_in_big_value_whitelist token info.tx_to)
    then settle Status.tx_with_big_value (lit "") Status.tx_with_big_value
    else settle Status.tx_not_swapped (lit "") Status.match_tx_empty

module _ (p : Platform) where
  -- isInBlacklist, isSwapInBlacklist: the sender, and the bind address if it is another.
  unfoldable pub is_in_blacklist : Text → Text → Text → M p Bool
  unfolding pure
  is_in_blacklist from bind pair_id = do
    blacked ← query_blacklist p from pair_id
    if not blacked && not (text_eq bind from) then query_blacklist p bind pair_id else pure blacked

  apply_verdict : Bool → Text → Text → Text → TxSwapInfo → Verdict → M p (Unit {0})
  unfolding fail now
  apply_verdict is_swapin pair_id tx_id bind info (later e) = fail e
  apply_verdict is_swapin pair_id tx_id bind info (reject status memo) = do
    t ← now p
    store_status p is_swapin tx_id pair_id bind status t memo
  apply_verdict is_swapin pair_id tx_id bind info (settle status memo result_status) = do
    t ← now p
    store_status p is_swapin tx_id pair_id bind status t memo
    add_initial_swap_result p is_swapin info result_status

  -- updateSwapStatus; without the token's config the code reads a nil pointer.
  unfoldable pub update_swap_status :
      Bool → Text → Text → Text → TxSwapInfo → Option Err → M p (Unit {0})
  unfolding apply_verdict error_verdict value_verdict gets crash
  update_swap_status is_swapin pair_id tx_id bind info (some e) =
      apply_verdict is_swapin pair_id tx_id bind info (error_verdict e)
  update_swap_status is_swapin pair_id tx_id bind info none = do
    cfg ← gets λ w. w.config
    elim (get_token_config cfg pair_id is_swapin) [
      | none ↦ crash
      | some token ↦ apply_verdict is_swapin pair_id tx_id bind info (value_verdict token info)
    ]

  is_error : Option Err → Bool
  is_error none = false
  is_error (some e) = errors_is e tx_before_initial_height

  before_initial_memo : ℕ → ℕ → Text
  before_initial_memo height initial =
      sentinel_text tx_before_initial_height
      ++ (lit ". blockHeight=" ++ (decimal height ++ (lit " initialHeight=" ++ decimal initial)))

  -- The part of processSwapVerify behind the verification.
  process_verified : MgoSwap → Bool → TxSwapInfo → Option Err → M p (Unit {0})
  unfolding is_error before_initial_memo is_in_blacklist update_swap_status gets now
  process_verified swap is_swapin info e = do
    cfg ← gets λ w. w.config
    let initial = (get_chain_config cfg is_swapin).initial_height
    if is_error e || not (info.height == 0) && ltb info.height initial
        then (do
          t ← now p
          store_status p is_swapin swap.tx_id swap.pair_id swap.bind Status.tx_verify_failed t
              (before_initial_memo info.height initial))
        else do
          blacked ← is_in_blacklist info.from info.bind info.pair_id
          if blacked
              then (do
                t ← now p
                store_status p is_swapin swap.tx_id swap.pair_id swap.bind Status.swap_in_blacklist
                    t (sentinel_text address_is_in_blacklist))
              else update_swap_status is_swapin swap.pair_id swap.tx_id swap.bind info e

  -- Without swap info the error of the verification comes back, which is there then.
  after_verification : MgoSwap → Bool → Option TxSwapInfo × Option Err → M p (Unit {0})
  unfolding process_verified pure fail
  after_verification swap is_swapin (none, none) = pure tt
  after_verification swap is_swapin (none, some e) = fail e
  after_verification swap is_swapin (some info, e) = process_verified swap is_swapin info e

  -- processSwapinVerify, processSwapoutVerify: processSwapVerify
  unfoldable pub process_swap_verify : MgoSwap → Bool → M p (Unit {0})
  unfolding after_verification gets fail
  process_swap_verify swap is_swapin = do
    cfg ← gets λ w. w.config
    elim (get_token_config cfg swap.pair_id is_swapin) [
      | none ↦ fail (sentinel unknown_pair_id)
      | some token ↦ if token.disable_swap then fail (sentinel swap_is_closed) else do
        r ← verify_swap_transaction p is_swapin swap.pair_id swap.tx_id swap.bind swap.tx_type
        after_verification swap is_swapin r
    ]

  -- findSwapinsToVerify, findSwapoutsToVerify
  unfoldable pub find_swaps_to_verify : Bool → M p (List MgoSwap)
  unfolding now
  find_swaps_to_verify is_swapin = do
    t ← now p
    find_swaps_with_status p is_swapin Status.tx_not_stable (sep_time t max_verify_lifetime)
