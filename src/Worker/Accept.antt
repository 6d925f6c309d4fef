-- ===== src/Worker/Accept.antt =====
-- worker/accept.go and CheckAcceptRecord of worker/acceptdb.go: whether a node agrees to a signature
-- that another node asks the signing group for.
pub mod Agreed
use cross_chain_bridge.Common.{
  ℕ, ◌+◌, ◌==◌, Bool, true, false, not, ◌&&◌, ◌||◌, Option, none, some, List, [], ◌∷◌, Text, lit,
  text_eq, equal_fold, contains, remove, length, leb, ltb, if◌then◌else◌,
}
use cross_chain_bridge.Common.Exec.{
  Result, ok, err, panic, ◌>>=◌, ◌>>◌, Exec, pure, fail, crash, attempt, gets, lift, modify,
}
use cross_chain_bridge.Tokens.Errors.{
  Err, sentinel, message, errors_is, error_text, already_swapped, no_btc_bridge, unknown_pair_id,
  identifier_mismatch, initiator_mismatch, wrong_msg_context, tx_not_stable, tx_not_found,
  rpc_query_error, not_found,
}
use cross_chain_bridge.Tokens.Types.{
  TxStatus, TxSwapInfo, TokenConfig, BuildTxArgs, AllExtras, SwapType, no_swap_type, swapin_type,
  swapout_type, is_swapin_type, get_tx_nonce, get_token_config,
}
use cross_chain_bridge.Platform.{Platform, World, M, call, call_result, now}
use cross_chain_bridge.Worker.Updates.{verify_swap_transaction}
use cross_chain_bridge.Worker.Prevent.{has_paid}
use cross_chain_bridge.Abi.Bytes.{take}
use cross_chain_bridge.Common.Int.{ℤ}

-- dcrm.SignInfoData
pub record SignInfo : Type 0 where
  pub key : Text
  pub account : Text
  pub msg_hash : List Text
  pub msg_context : List Text

-- What the job uses beside the platform: the JSON of the arguments, the database of accepted swaps
-- (`none` without one), the bridges and the signing group. A transaction of GetTransaction shows its
-- nonce if it is one of an eth-like chain.
pub record Signers (p : Platform) : Type 0 where
  pub unmarshal : Text → Option BuildTxArgs
  pub replace_identifier : Text
  pub initiators : List Text
  pub pending_invalid_accept : Bool
  pub has_btc_bridge_instance : Bool
  pub accept_records : Option (BuildTxArgs → p.Env → List (Text × ℕ) × p.Env)
  pub get_transaction : Bool → Text → p.Env → Result Err (Option ℕ) × p.Env
  pub verify_msg_hash : Bool → p.RawTx → List Text → p.Env → Result Err (Unit {0}) × p.Env
  pub verify_aggregate_msg_hash : List Text → BuildTxArgs → p.Env → Result Err (Unit {0}) × p.Env
  pub do_accept_sign : Text → Bool → List Text → List Text → p.Env → Result Err (Unit {0}) × p.Env

abbrev pub aggregate_identifier : Text
aggregate_identifier = lit "aggregate"

abbrev pub allow_reswap_time_interval : ℕ
allow_reswap_time_interval = 1800

abbrev pub max_cached_accept_infos : ℕ
max_cached_accept_infos = 500

-- What becomes of a request, by the error of its verification.
pub data Response : Type 0 where
  discard ignore agree : Response
  disagree : Text → Response

unfoldable pub response_to : Bool → Option Err → Response
unfolding take
response_to pending none = agree
response_to pending (some e) =
    if errors_is e wrong_msg_context || errors_is e identifier_mismatch
    then discard
    else if pending
        && (errors_is e tx_not_stable
            || errors_is e tx_not_found
            || errors_is e rpc_query_error
            || errors_is e not_found)
    then ignore
    else if pending
        && (errors_is e initiator_mismatch
            || errors_is e unknown_pair_id
            || errors_is e no_btc_bridge)
    then discard
    else disagree (take 1000 (error_text e))

-- params.IsDcrmInitiator
unfoldable pub is_dcrm_initiator : Text → List Text → Bool
is_dcrm_initiator account [] = false
is_dcrm_initiator account (i ∷ is) = equal_fold account i || is_dcrm_initiator account is

-- The arguments that the transaction is built from again.
unfoldable pub rebuilt_args : BuildTxArgs → TokenConfig → TxSwapInfo → BuildTxArgs
rebuilt_args args token info = record {
  swap_info = args.swap_info;
  from = token.dcrm_address;
  origin_from = info.from;
  origin_tx_to = info.tx_to;
  origin_value = info.value;
  swap_value = none;
  extra = args.extra;
}

verified_info : Option TxSwapInfo × Option Err → Result Err TxSwapInfo
verified_info (info, some e) = err e
verified_info (none, none) = panic
verified_info (some info, none) = ok info

module _ (p : Platform) (g : Signers p) where
  -- A swap that was accepted before may be in the pool: it may be replaced, or paid again later.
  check_pool : BuildTxArgs → ℕ → ℕ → Result Err (Option ℕ) → M p (Unit {0}) → M p (Unit {0})
  unfolding fail
  check_pool args t value (err e) rest = rest
  check_pool args t value panic rest = rest
  check_pool args t value (ok none) rest = fail (sentinel already_swapped)
  check_pool args t value (ok (some nonce)) rest =
      if args.reswapping && leb (value + allow_reswap_time_interval) t
      then rest
      else if nonce == get_tx_nonce args
      then rest
      else fail (sentinel already_swapped)

  check_record : BuildTxArgs → ℕ → Text × ℕ → Result Err TxStatus → M p (Unit {0}) → M p (Unit {0})
  unfolding check_pool has_paid attempt call_result fail
  check_record args t (tx, value) r rest =
      let in_pool : M p (Unit {0}) = (do
        found ← attempt (call_result p (g.get_transaction (not (is_swapin_type args.swap_type)) tx))
        check_pool args t value found rest) in
      elim r [
        | ok s ↦
            if ltb 0 s.block_height
            then (if has_paid s then fail (sentinel already_swapped) else rest)
            else in_pool
        | err e ↦ in_pool
        | panic ↦ in_pool
      ]

  check_records : BuildTxArgs → ℕ → List (Text × ℕ) → M p (Unit {0})
  unfolding check_record attempt call_result pure
  check_records args t [] = pure tt
  check_records args t (record' ∷ records) = do
    r ←
        attempt
          (call_result p (p.get_transaction_status (not (is_swapin_type args.swap_type)) record'.0))
    check_record args t record' r (check_records args t records)

  -- CheckAcceptRecord
  unfoldable pub check_accept_record : BuildTxArgs → M p (Unit {0})
  unfolding check_records call now pure
  check_accept_record args = elim g.accept_records [
    | none ↦ pure tt
    | some find ↦ do t ← now p; records ← call p (find args); check_records args t records
  ]

  -- Behind the choice of the bridges; the record of the accepted swap is written beside it.
  rebuild : List Text → BuildTxArgs → TokenConfig → M p (Unit {0})
  unfolding rebuilt_args verified_info lift call_result
  rebuild msg_hash args token = do
    let is_swapin = is_swapin_type args.swap_type
    r ← verify_swap_transaction p is_swapin args.pair_id args.swap_id args.bind args.tx_type
    info ← lift (verified_info r)
    built ← call_result p (p.build_raw_transaction (not is_swapin) (rebuilt_args args token info))
    call_result p (g.verify_msg_hash (not is_swapin) built.0 msg_hash)

  -- rebuildAndVerifyMsgHash
  unfoldable pub rebuild_and_verify_msg_hash : List Text → BuildTxArgs → M p (Unit {0})
  unfolding rebuild gets fail
  rebuild_and_verify_msg_hash msg_hash args = elim args.swap_type [
    | no_swap_type ↦ fail (message (lit "unknown swap type"))
    | _ ↦ do
      cfg ← gets λ w. w.config
      elim (get_token_config cfg args.pair_id (not (is_swapin_type args.swap_type))) [
        | none ↦ fail (sentinel unknown_pair_id)
        | some token ↦ rebuild msg_hash args token
      ]
  ]

  pub verify_aggregate : List Text → BuildTxArgs → M p (Unit {0})
  unfolding call_result fail
  verify_aggregate msg_hash args =
      if not g.has_btc_bridge_instance
      then fail (sentinel no_btc_bridge)
      else call_result p (g.verify_aggregate_msg_hash msg_hash args)

  verify_swap : List Text → BuildTxArgs → M p (Unit {0})
  unfolding check_accept_record rebuild_and_verify_msg_hash pure
  verify_swap msg_hash args = do
    if ltb 0 (get_tx_nonce args) then check_accept_record args else pure tt
    rebuild_and_verify_msg_hash msg_hash args

  -- verifySignInfo; the arguments beside an error only go to the log.
  unfoldable pub verify_sign_info : SignInfo → M p (Unit {0})
  unfolding verify_swap verify_aggregate is_dcrm_initiator text_eq gets fail crash
  verify_sign_info info = elim info.msg_context [
    | [] ↦ crash
    | context ∷ _ ↦ elim (g.unmarshal context) [
      | none ↦ fail (sentinel wrong_msg_context)
      | some args ↦ do
        cfg ← gets λ w. w.config
        if not (
              text_eq args.identifier cfg.identifier
              || text_eq args.identifier g.replace_identifier
              || text_eq args.identifier aggregate_identifier)
            then fail (sentinel identifier_mismatch)
            else if not (is_dcrm_initiator info.account g.initiators)
            then fail (sentinel initiator_mismatch)
            else if text_eq args.identifier aggregate_identifier
            then verify_aggregate info.msg_hash args
            else verify_swap info.msg_hash args
    ]
  ]

  -- The state of the job: that of the process, cachedAcceptInfos, and `answers`, every answer that the
  -- signing group took, newest first, which no code reads.
  pub record Desk : Type 0 where
    pub world : World p
    pub cached : List Text
    pub answers : List (Text × Bool)

  -- checkAndUpdateCachedAcceptInfoMap, of a key that is not cached
  unfoldable pub with_cached : Text → List Text → List Text
  with_cached key keys =
      key ∷ (if leb max_cached_accept_infos (length keys) then p.pop keys else keys)

  -- A request that is not processed may come again.
  forget : Text → Desk → Desk
  forget key d = record d { cached = remove key d.cached }

  after_answer : Text → Bool → Result Err (Unit {0}) → Desk → Desk
  unfolding forget
  after_answer key agrees (ok u) d = record d { answers = (key, agrees) ∷ d.answers }
  after_answer key agrees (err e) d = forget key d
  after_answer key agrees panic d = forget key d

  -- DoAcceptSign
  answer : SignInfo → Bool → List Text → Desk → Desk
  unfolding after_answer
  answer info agrees reason d =
      let r = g.do_accept_sign info.key agrees info.msg_hash reason d.world.env in
      after_answer info.key agrees r.0 (record d { world = record d.world { env = r.1 } })

  respond : SignInfo → Response → Desk → Desk
  unfolding answer forget
  respond info discard d = d
  respond info ignore d = forget info.key d
  respond info agree d = answer info true [] d
  respond info (disagree reason) d = answer info false (reason ∷ []) d

  -- Behind the verification; the key is cached meanwhile.
  verified : SignInfo → Result Err (Unit {0}) → Desk → Option Desk
  unfolding respond response_to
  verified info (ok u) d = some (respond info (response_to g.pending_invalid_accept none) d)
  verified info (err e) d = some (respond info (response_to g.pending_invalid_accept (some e)) d)
  verified info panic d = none

  -- processAcceptInfo; `none` is a run-time panic.
  unfoldable pub process_accept_info : SignInfo → Desk → Option Desk
  unfolding with_cached verify_sign_info verified
  process_accept_info info d =
      if contains info.key d.cached
      then some d
      else let r = verify_sign_info info d.world in
        verified info r.0 (record d { world = r.1; cached = with_cached info.key d.cached })
