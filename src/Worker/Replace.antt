-- ===== src/Worker/Replace.antt =====
-- worker/replaceswap.go: the replacement of a payment that is not on the chain by one with the same
-- nonce; and processReplaceSwap and doReplaceSwap of worker/replace.go.
pub mod Nonce
use cross_chain_bridge.Common.{
  ℕ, suc, ◌==◌, Bool, true, false, not, ◌&&◌, ◌||◌, Option, none, some, List, [], ◌∷◌, ◌++◌, Text,
  lit, is_empty, text_eq, length, ltb, if◌then◌else◌,
}
use cross_chain_bridge.Common.Int.{ℤ, big_string}
use cross_chain_bridge.Common.Exec.{
  Result, ok, err, panic, ◌>>=◌, ◌>>◌, pure, fail, crash, attempt, gets, lift,
}
use cross_chain_bridge.Tokens.Errors.{
  Err, sentinel, message, errors_is, swap_tx_with_height, swap_with_err_status, swap_tx_is_on_chain,
  not_nonce_support, build_tx_failed, sign_tx_failed, update_old_txs_failed,
  sign_status_has_disagree,
}
use cross_chain_bridge.Tokens.Types.{
  TokenConfig, BuildTxArgs, AllExtras, get_token_config, get_chain_config, is_nonce_setter,
  is_swapin_type,
}
use cross_chain_bridge.Platform.{Platform, World, M, call_result, now}
use cross_chain_bridge.Mongodb.Status.{match_tx_not_stable, status_eq}
use cross_chain_bridge.Mongodb.Documents.{MgoSwap, MgoSwapResult, MgoSwapHistory}
use cross_chain_bridge.Mongodb.Swaps.{find_swap}
use cross_chain_bridge.Mongodb.Results.{
  find_swap_result, update_swap_result_old_txs, find_swap_results_to_replace,
}
use cross_chain_bridge.Mongodb.Histories.{get_swap_history}
use cross_chain_bridge.Worker.Updates.{
  update_swap_timestamp, sep_time, get_swap_type, verify_swap_transaction,
}
use cross_chain_bridge.Worker.Send.{reverify_swap, send_signed_transaction}
use cross_chain_bridge.Worker.Swap.{reverified, sign_once}
use cross_chain_bridge.Worker.Stable.{any_on_chain, check_if_swap_nonce_has_passed}

abbrev pub def_wait_time_to_replace : ℕ
def_wait_time_to_replace = 900

abbrev pub def_max_replace_count : ℕ
def_max_replace_count = 20

abbrev pub max_replace_swap_lifetime : ℕ
max_replace_swap_lifetime = 604800

history_txs : List MgoSwapHistory → List Text
history_txs [] = []
history_txs (h ∷ hs) = h.swap_tx ∷ history_txs hs

-- The number of the replacement, at least 1.
unfoldable pub replace_num_of : MgoSwapResult → ℕ
replace_num_of res = if length res.old_swap_txs == 0 then 1 else length res.old_swap_txs

-- The arguments that replaceSwap builds the transaction from.
unfoldable pub replace_args :
    Bool → Text → Text → Text → MgoSwap → MgoSwapResult → Text → Text → Option ℤ → ℤ → BuildTxArgs
unfolding replace_num_of
replace_args is_swapin tx_id pair_id bind swap res identifier dcrm_address gas_price value =
    record {
      swap_info = record {
        identifier = identifier;
        pair_id = pair_id;
        swap_id = tx_id;
        swap_type = get_swap_type is_swapin;
        tx_type = swap.tx_type;
        bind = bind;
        reswapping = false;
      };
      from = dcrm_address;
      origin_from = swap.from;
      origin_tx_to = swap.tx_to;
      origin_value = value;
      swap_value = none;
      extra = some (record {
        replace_num = replace_num_of res;
        eth_extra = some (record { gas_price = gas_price; nonce = some res.swap_nonce });
        ripple_extra = none;
        btc_extra = none;
      });
    }

module _ (p : Platform) where
  histories_or_none : Result Err (List MgoSwapHistory) → List Text
  unfolding history_txs
  histories_or_none (ok hs) = history_txs hs
  histories_or_none (err e) = []
  histories_or_none panic = []

  -- By the transactions of the history.
  unpaid_by : Bool → List Text → M p (Unit {0})
  unfolding pure fail gets
  unpaid_by is_src [] = pure tt
  unpaid_by is_src (tx ∷ txs) = do
    cfg ← gets λ w. w.config
    if not (is_nonce_setter cfg is_src) then fail (sentinel not_nonce_support) else do
      found ← any_on_chain p is_src (tx ∷ txs)
      if found then fail (sentinel swap_tx_is_on_chain) else pure tt

  -- preventReplaceswapByHistory
  unfoldable pub prevent_replaceswap_by_history : Bool → MgoSwapResult → M p (Unit {0})
  unfolding histories_or_none unpaid_by attempt
  prevent_replaceswap_by_history is_swapin res = do
    r ← attempt (get_swap_history p is_swapin res.tx_id res.bind)
    unpaid_by (not is_swapin) (histories_or_none r)

  -- verifyReplaceSwap
  unfoldable pub verify_replace_swap :
      Bool → Text → Text → Text → Bool → M p (MgoSwap × MgoSwapResult)
  unfolding prevent_replaceswap_by_history status_eq pure fail
  verify_replace_swap is_swapin tx_id pair_id bind is_manual = do
    swap ← find_swap p is_swapin tx_id pair_id bind
    res ← find_swap_result p is_swapin tx_id pair_id bind
    if not (res.swap_height == 0) && not is_manual
        then fail (sentinel swap_tx_with_height)
        else if not (status_eq res.status match_tx_not_stable)
        then fail (sentinel swap_with_err_status)
        else do
          check_if_swap_nonce_has_passed p (not is_swapin) res true
          prevent_replaceswap_by_history is_swapin res
          pure (swap, res)

  -- What follows the signature, which is made once.
  signed_or_error : BuildTxArgs → Result Err (p.SignedTx × Text) → M p (p.SignedTx × Text)
  unfolding pure fail crash
  signed_or_error args (ok signed) = pure signed
  signed_or_error args panic = crash
  signed_or_error args (err e) =
      if errors_is e sign_status_has_disagree
      then (do reverify_swap p args; fail (sentinel sign_tx_failed))
      else fail (sentinel sign_tx_failed)

  -- The outcome of a step with another error in place of its own.
  or_fail : {A : Type 0} → Err → Result Err A → M p A
  unfolding pure fail crash
  or_fail e (ok a) = pure a
  or_fail e (err _) = fail e
  or_fail e panic = crash

  -- A hash that differs from the signed one is noted; the hash beside an error is not kept here.
  replaced : BuildTxArgs → Text → Text → Text × Option Err → M p Text
  unfolding attempt pure fail
  replaced args sign_tx_hash value (tx_hash, some e) = fail e
  replaced args sign_tx_hash value (tx_hash, none) =
      if text_eq tx_hash sign_tx_hash then pure tx_hash else do
        attempt (
            update_swap_result_old_txs p (is_swapin_type args.swap_type) args.swap_id args.pair_id
              args.bind tx_hash value)
        pure tx_hash

  -- The signed transaction is noted with the result before it is sent.
  send_replacement : BuildTxArgs → p.SignedTx × Text → M p Text
  unfolding replaced or_fail attempt
  send_replacement args (signed_tx, sign_tx_hash) = do
    let value : Text = elim args.swap_value [ none ↦ lit "" | some v ↦ big_string v ]
    r ← attempt (
        update_swap_result_old_txs p (is_swapin_type args.swap_type) args.swap_id args.pair_id
          args.bind sign_tx_hash value)
    or_fail (sentinel update_old_txs_failed) r
    sent ← send_signed_transaction p signed_tx args
    replaced args sign_tx_hash value sent

  -- From the arguments on; the bridge leaves extras and a value in them.
  unfoldable pub build_and_send : TokenConfig → BuildTxArgs → M p Text
  unfolding send_replacement signed_or_error or_fail attempt call_result
  build_and_send token args = do
    b ← attempt (call_result p (p.build_raw_transaction (not (is_swapin_type args.swap_type)) args))
    built ← or_fail (sentinel build_tx_failed) b
    let args' : BuildTxArgs = record args { extra = built.1; swap_value = built.2 }
    r ← attempt (sign_once p token built.0 args')
    signed ← signed_or_error args' r
    send_replacement args' signed

  -- replaceSwap behind the parse of the gas price
  unfoldable pub replace_verified :
      Bool → Text → Text → Text → Option ℤ → MgoSwap × MgoSwapResult → M p Text
  unfolding build_and_send replace_args gets lift crash
  replace_verified is_swapin tx_id pair_id bind gas_price (swap, res) = do
    r ← verify_swap_transaction p is_swapin pair_id tx_id bind swap.tx_type
    info ← lift (reverified p (lit "[replace]") res.value bind r)
    cfg ← gets λ w. w.config
    elim (get_token_config cfg pair_id (not is_swapin)) [
      | none ↦ crash
      | some token ↦ build_and_send token (
          replace_args is_swapin tx_id pair_id bind swap res cfg.identifier token.dcrm_address
            gas_price info.value)
    ]

  with_gas_price : Bool → Text → Text → Text → Bool → Option ℤ → M p Text
  unfolding verify_replace_swap replace_verified
  with_gas_price is_swapin tx_id pair_id bind is_manual gas_price = do
    found ← verify_replace_swap is_swapin tx_id pair_id bind is_manual
    replace_verified is_swapin tx_id pair_id bind gas_price found

  -- ReplaceSwapin, ReplaceSwapout: replaceSwap, with big.Int's SetString for the gas price
  unfoldable pub replace_swap :
      (Text → Option ℤ) → Bool → Text → Text → Text → Text → Bool → M p Text
  unfolding with_gas_price fail
  replace_swap set_string is_swapin tx_id pair_id bind gas_price is_manual =
      if is_empty gas_price
      then with_gas_price is_swapin tx_id pair_id bind is_manual none
      else elim (set_string gas_price) [
        | none ↦ fail (message (lit "wrong gas price: " ++ gas_price))
        | some price ↦ with_gas_price is_swapin tx_id pair_id bind is_manual (some price)
      ]

  -- doReplaceSwap
  unfoldable pub do_replace_swap : (Text → Option ℤ) → MgoSwapResult → M p (Unit {0})
  unfolding replace_swap attempt gets pure lit
  do_replace_swap set_string swap =
      if swap.swap_nonce == 0 || not (swap.swap_height == 0) then pure tt else do
        cfg ← gets λ w. w.config
        let is_swapin = is_swapin_type swap.swap_type
        if not (is_nonce_setter cfg (not is_swapin)) then pure tt else do
          attempt
              (replace_swap set_string is_swapin swap.tx_id swap.pair_id swap.bind (lit "") false)
          pure tt

  -- findSwapinsToReplace, findSwapoutsToReplace
  unfoldable pub find_swaps_to_replace : Bool → M p (List MgoSwapResult)
  unfolding now
  find_swaps_to_replace is_swapin = do
    t ← now p
    find_swap_results_to_replace p is_swapin match_tx_not_stable
        (sep_time t max_replace_swap_lifetime)

  -- Behind the tests of the result itself; the result is given if it is dispatched.
  replace_if_late : Bool → MgoSwapResult → ℕ → ℕ → M p (Option MgoSwapResult)
  unfolding now attempt pure
  replace_if_late is_swapin swap wait_time max_count =
      if ltb max_count (length swap.old_swap_txs) then pure none else do
        t ← now p
        if ltb (sep_time t wait_time) swap.timestamp then pure none else do
          r ← attempt (check_if_swap_nonce_has_passed p (not is_swapin) swap true)
          elim r [
            | ok u ↦ do
              attempt (update_swap_timestamp p is_swapin swap.tx_id swap.pair_id swap.bind)
              pure (some swap)
            | _ ↦ pure none
          ]

  -- processReplaceSwap: the result that it hands to dispatchReplaceTask, if it does.
  unfoldable pub process_replace_swap : Bool → MgoSwapResult → M p (Option MgoSwapResult)
  unfolding replace_if_late status_eq gets pure
  process_replace_swap is_swapin swap =
      if swap.swap_nonce == 0 || not (swap.swap_height == 0)
      then pure none
      else if not (status_eq swap.status match_tx_not_stable)
      then pure none
      else do
        cfg ← gets λ w. w.config
        let chain = get_chain_config cfg (not is_swapin)
        replace_if_late is_swapin swap
            (if chain.wait_time_to_replace == 0
              then def_wait_time_to_replace
              else chain.wait_time_to_replace)
            (if chain.max_replace_count == 0
              then def_max_replace_count
              else chain.max_replace_count)
