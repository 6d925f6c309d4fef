-- ===== src/Worker/Swap.antt =====
-- worker/swap.go: processSwap, which queues the payment of a verified swap, and doSwap, which builds,
-- signs, records and sends it.
pub mod Prepare
pub mod Record
pub mod Signed
pub mod Finish
pub mod Once
pub mod Resends
use cross_chain_bridge.Common.{
  ℕ, zero, suc, ◌==◌, Bool, true, false, not, ◌&&◌, ◌||◌, Option, none, some, ◌++◌, List, Text, lit,
  text_eq, equal_fold, contains, if◌then◌else◌,
}
use cross_chain_bridge.Common.Int.{ℤ, big_string}
use cross_chain_bridge.Common.Exec.{
  Result, ok, err, panic, ◌>>=◌, ◌>>◌, pure, fail, crash, attempt, gets, lift,
}
use cross_chain_bridge.Tokens.Errors.{
  Err, sentinel, message, wrapped, errors_is, error_text, already_swapped, unknown_pair_id,
  swap_is_closed, db_error, address_is_in_blacklist, sign_status_has_disagree, sentinel_text,
}
use cross_chain_bridge.Tokens.Types.{
  Config, TokenConfig, TxSwapInfo, SwapInfo, BuildTxArgs, AllExtras, SwapType, swapin_type,
  swapout_type, no_swap_type, get_token_config, get_token_configs_by_direction, is_swapin_type,
  get_tx_nonce,
}
use cross_chain_bridge.Tokens.SwapValue.{calc_swapped_value}
use cross_chain_bridge.Platform.{Platform, World, M, call_result, now}
use cross_chain_bridge.Mongodb.Status.{tx_processed, swap_in_blacklist, reswapping, status_eq}
use cross_chain_bridge.Mongodb.Documents.{MgoSwap, MgoSwapResult}
use cross_chain_bridge.Mongodb.Swaps.{update_swap_status}
use cross_chain_bridge.Mongodb.Results.{find_swap_result, update_swap_result_old_txs}
use cross_chain_bridge.Worker.Updates.{
  MatchTx, get_swap_type, update_swap_result, verify_swap_transaction,
}
use cross_chain_bridge.Worker.Verify.{is_in_blacklist}
use cross_chain_bridge.Worker.Cache.{get_swap_cache_key, check_and_update_cache, delete_cached_swap}
use cross_chain_bridge.Worker.Prevent.{prevent_reswap}
use cross_chain_bridge.Worker.Channels.{check_swap_task_channel, dispatch_swap_task}
use cross_chain_bridge.Worker.Send.{reverify_swap, send_signed_transaction}

abbrev is_swap_type_eq : SwapType → SwapType → Bool
is_swap_type_eq swapin_type swapin_type = true
is_swap_type_eq swapout_type swapout_type = true
is_swap_type_eq no_swap_type no_swap_type = true
is_swap_type_eq _ _ = false

module _ (p : Platform) where
  -- The blacklist test of checkSwapResult; an error of the database is replaced.
  check_blacklist : Bool → MgoSwapResult → TokenConfig → Result Err Bool → M p Text
  unfolding fail attempt now pure
  check_blacklist is_swapin res token (ok blacked) =
      if blacked
      then (do
        t ← now p
        attempt (
            update_swap_status p is_swapin res.tx_id res.pair_id res.bind swap_in_blacklist t
              (sentinel_text address_is_in_blacklist))
        fail (sentinel address_is_in_blacklist))
      else pure token.dcrm_address
  check_blacklist is_swapin res token (err e) = fail (sentinel db_error)
  check_blacklist is_swapin res token panic = fail (sentinel db_error)

  -- checkSwapResult: the account that pays
  unfoldable pub check_swap_result : Bool → MgoSwapResult → M p Text
  unfolding check_blacklist gets
  check_swap_result is_swapin res = do
    cfg ← gets λ w. w.config
    elim (get_token_configs_by_direction cfg res.pair_id is_swapin) [
      | none ↦ fail (sentinel unknown_pair_id)
      | some (from_token, to_token) ↦
          if from_token.disable_swap then fail (sentinel swap_is_closed) else do
            r ← attempt (is_in_blacklist p res.from res.bind res.pair_id)
            check_blacklist is_swapin res to_token r
    ]

  -- The arguments that processSwap builds the payment from.
  swap_args : Bool → MgoSwap → MgoSwapResult → Text → Text → ℤ → BuildTxArgs
  unfolding status_eq
  swap_args is_swapin swap res identifier dcrm_address value = record {
    swap_info = record {
      identifier = identifier;
      pair_id = swap.pair_id;
      swap_id = swap.tx_id;
      swap_type = get_swap_type is_swapin;
      tx_type = swap.tx_type;
      bind = swap.bind;
      reswapping = status_eq res.status reswapping;
    };
    from = dcrm_address;
    origin_from = swap.from;
    origin_tx_to = swap.tx_to;
    origin_value = value;
    swap_value = none;
    extra = none;
  }

  -- What processSwap and replaceSwap ask of the second verification.
  unfoldable pub reverified :
      Text → Text → Text → Option TxSwapInfo × Option Err → Result Err TxSwapInfo
  reverified job value bind (info, some e) =
      err (wrapped (job ++ (lit " reverify swap failed, " ++ error_text e)) e)
  reverified job value bind (none, none) = panic
  reverified job value bind (some info, none) =
      if not (text_eq (big_string info.value) value)
      then err (
          message (
            job
            ++ (lit " reverify swap value mismatch, in db "
                ++ (value ++ (lit " != " ++ big_string info.value)))))
      else if not (equal_fold info.bind bind)
      then err (
          message (
            job
            ++ (lit " reverify swap bind address mismatch, in db "
                ++ (bind ++ (lit " != " ++ info.bind)))))
      else ok info

  -- processSwapinSwap, processSwapoutSwap: processSwap
  unfoldable pub process_swap : Bool → MgoSwap → M p (Unit {0})
  unfolding check_swap_result swap_args reverified lift gets fail
  process_swap is_swapin swap = do
    tasks ← gets λ w. w.cached_swap_tasks
    if contains (get_swap_cache_key is_swapin swap.tx_id swap.bind) tasks
        then fail (sentinel already_swapped)
        else do
          res ← find_swap_result p is_swapin swap.tx_id swap.pair_id swap.bind
          prevent_reswap p is_swapin res
          dcrm_address ← check_swap_result is_swapin res
          check_swap_task_channel p is_swapin dcrm_address
          r ← verify_swap_transaction p is_swapin swap.pair_id swap.tx_id swap.bind swap.tx_type
          info ← lift (reverified (lit "[doSwap]") res.value swap.bind r)
          cfg ← gets λ w. w.config
          dispatch_swap_task p (swap_args is_swapin swap res cfg.identifier dcrm_address info.value)

  -- One signature, by the private key of the account if there is one.
  unfoldable pub sign_once : TokenConfig → p.RawTx → BuildTxArgs → M p (p.SignedTx × Text)
  unfolding call_result
  sign_once token raw_tx args =
      let is_src = not (is_swapin_type args.swap_type) in
      if token.has_private_key
      then call_result p (p.sign_transaction is_src raw_tx args.pair_id)
      else call_result p (p.dcrm_sign_transaction is_src raw_tx args)

  -- Up to n + 1 signatures.
  sign_retry : ℕ → TokenConfig → p.RawTx → BuildTxArgs → M p (p.SignedTx × Text)
  unfolding sign_once attempt pure fail crash
  sign_retry zero token raw_tx args = sign_once token raw_tx args
  sign_retry (suc n) token raw_tx args = do
    r ← attempt (sign_once token raw_tx args)
    elim r [ ok s ↦ pure s | err e ↦ sign_retry n token raw_tx args | panic ↦ crash ]

  -- What follows the signatures: a swap that the signers disagree on is verified again.
  pub after_sign : BuildTxArgs → Result Err (p.SignedTx × Text) → M p (p.SignedTx × Text)
  unfolding pure fail crash
  after_sign args (ok s) = pure s
  after_sign args panic = crash
  after_sign args (err e) =
      if errors_is e sign_status_has_disagree then (do reverify_swap p args; fail e) else fail e

  pub sign : BuildTxArgs → p.RawTx → M p (p.SignedTx × Text)
  unfolding sign_retry after_sign gets crash attempt
  sign args raw_tx = do
    cfg ← gets λ w. w.config
    elim (get_token_config cfg args.pair_id (not (is_swapin_type args.swap_type))) [
      | none ↦ crash
      | some token ↦ do r ← attempt (sign_retry 2 token raw_tx args); after_sign args r
    ]

  -- The value that is recorded: that of the arguments, or else the one that is calculated.
  pub recorded_value : BuildTxArgs → MgoSwapResult → M p Text
  unfolding gets pure crash
  recorded_value args res = elim args.swap_value [
    | some v ↦ pure (big_string v)
    | none ↦ do
      cfg ← gets λ w. w.config
      elim (calc_swapped_value cfg args.pair_id args.origin_value (is_swapin_type args.swap_type)
          res.from res.tx_to) [ none ↦ crash | some v ↦ pure (big_string v) ]
  ]

  -- The match that is recorded: no block height yet.
  sent_match : BuildTxArgs → Text → Text → MatchTx
  sent_match args sign_tx_hash value = record {
    swap_tx = sign_tx_hash;
    swap_height = 0;
    swap_time = 0;
    swap_value = value;
    swap_type = args.swap_type;
    swap_nonce = get_tx_nonce args;
  }

  write_match : BuildTxArgs → Text → Text → M p Text
  unfolding sent_match pure
  write_match args sign_tx_hash value = do
    update_swap_result p args.swap_id args.pair_id args.bind (sent_match args sign_tx_hash value)
    pure value

  -- What is done with the result that was read.
  record_in : BuildTxArgs → Text → MgoSwapResult → M p Text
  unfolding recorded_value write_match
  record_in args sign_tx_hash res = do
    prevent_reswap p (is_swapin_type args.swap_type) res
    value ← recorded_value args res
    write_match args sign_tx_hash value

  -- The check and the record that stand between the signature and the sending: the value.
  unfoldable pub record_swap : BuildTxArgs → Text → M p Text
  unfolding record_in
  record_swap args sign_tx_hash = do
    res ← find_swap_result p (is_swapin_type args.swap_type) args.swap_id args.pair_id args.bind
    record_in args sign_tx_hash res

  record_signed : BuildTxArgs → p.SignedTx × Text → M p (p.SignedTx × Text × Text × BuildTxArgs)
  unfolding record_swap pure
  record_signed args signed = do
    value ← record_swap args signed.1
    pure (signed.0, signed.1, value, args)

  -- The extras and the value that BuildRawTransaction leaves in the arguments.
  built_args : BuildTxArgs → p.RawTx × Option AllExtras × Option ℤ → BuildTxArgs
  built_args args built = record args { extra = built.1; swap_value = built.2 }

  sign_built :
      BuildTxArgs
      → p.RawTx × Option AllExtras × Option ℤ
      → M p (p.SignedTx × Text × Text × BuildTxArgs)
  unfolding sign record_signed built_args
  sign_built args built = do
    signed ← sign (built_args args built) built.0
    record_signed (built_args args built) signed

  -- The signed transaction, its hash, the value and the arguments as the bridge leaves them.
  unfoldable pub prepare_swap : BuildTxArgs → M p (p.SignedTx × Text × Text × BuildTxArgs)
  unfolding sign_built call_result
  prepare_swap args = do
    built ← call_result p (p.build_raw_transaction (not (is_swapin_type args.swap_type)) args)
    sign_built args built

  error_result : Option Err → Result Err (Unit {0})
  error_result none = ok tt
  error_result (some e) = err e

  -- What follows the sending: a hash that differs from the signed one is noted.
  pub after_send : BuildTxArgs → Text → Text → Text × Option Err → M p (Unit {0})
  unfolding error_result attempt lift
  after_send args sign_tx_hash value (tx_hash, some e) = lift (error_result (some e))
  after_send args sign_tx_hash value (tx_hash, none) =
      if text_eq tx_hash sign_tx_hash then lift (error_result none) else do
        attempt (
            update_swap_result_old_txs p (is_swapin_type args.swap_type) args.swap_id args.pair_id
              args.bind tx_hash value)
        lift (error_result none)

  -- The register is set before the transaction is sent.
  unfoldable pub finish_swap : p.SignedTx × Text × Text × BuildTxArgs → M p (Unit {0})
  unfolding after_send now
  finish_swap (signed_tx, sign_tx_hash, value, args) = do
    t ← now p
    update_swap_status p (is_swapin_type args.swap_type) args.swap_id args.pair_id args.bind
        tx_processed t (lit "")
    r ← send_signed_transaction p signed_tx args
    after_send args sign_tx_hash value r

  -- A swap that was not recorded leaves the cache, so that it is tried again.
  after_prepare : Text → Result Err (p.SignedTx × Text × Text × BuildTxArgs) → M p (Unit {0})
  unfolding finish_swap fail crash
  after_prepare key (ok prepared) = finish_swap prepared
  after_prepare key (err e) = do delete_cached_swap p key; fail e
  after_prepare key panic = crash

  -- doSwap
  unfoldable pub do_swap : BuildTxArgs → M p (Unit {0})
  unfolding after_prepare attempt
  do_swap args = do
    let key = get_swap_cache_key (is_swapin_type args.swap_type) args.swap_id args.bind
    check_and_update_cache p key
    r ← attempt (prepare_swap args)
    after_prepare key r

  -- The body of processSwapTask for a task that was received; a task of another account is ignored.
  unfoldable pub process_task : Bool → Text → BuildTxArgs → M p (Unit {0})
  unfolding pure attempt
  process_task is_swapin dcrm_address args =
      if equal_fold args.from dcrm_address
        && is_swap_type_eq args.swap_type (get_swap_type is_swapin)
      then (do attempt (do_swap args); pure tt)
      else pure tt
