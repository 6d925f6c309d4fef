-- ===== src/Worker/Accept/Agreed.antt =====
-- A node agrees to a signature only for a transaction that it has built itself.
use cross_chain_bridge.Common.{
  ◌≡◌, ◌≢◌, ◌⊎◌, inl, inr, refl, ap, ◌∙◌, Bool, true, false, not, ◌||◌, Option, none, some, List,
  [], ◌∷◌, Text, text_eq, contains, length, ltb, if◌then◌else◌, Bool-cases, arith, lit,
}
use cross_chain_bridge.Common.Exec.{Result, ok, err, panic, >>=-ok, pure, fail, crash, gets, lift}
use cross_chain_bridge.Tokens.Errors.{
  Err, sentinel, message, unknown_pair_id, identifier_mismatch, initiator_mismatch,
  wrong_msg_context,
}
use cross_chain_bridge.Tokens.Types.{
  TxSwapInfo, TokenConfig, BuildTxArgs, AllExtras, SwapType, no_swap_type, swapin_type,
  swapout_type, is_swapin_type, get_token_config, get_tx_nonce,
}
use cross_chain_bridge.Common.Int.{ℤ}
use cross_chain_bridge.Platform.{Platform, World, M, call_result}
use cross_chain_bridge.Worker.Updates.{verify_swap_transaction}
use cross_chain_bridge.Worker.Accept.{
  SignInfo, Signers, Response, discard, ignore, agree, disagree, response_to, aggregate_identifier,
  is_dcrm_initiator, check_accept_record, rebuilt_args, verified_info, rebuild,
  rebuild_and_verify_msg_hash, verify_aggregate, verify_swap, verify_sign_info, Desk, with_cached,
  respond, answer, after_answer, forget, verified, process_accept_info,
}

module _ (p : Platform) (g : Signers p) where
  -- The transaction of the request, built again from a swap that was verified, has the hashes.
  pub record IsRebuilt (msg_hash : List Text) (args : BuildTxArgs) : Type 0 where
    pub token : TokenConfig
    pub info : TxSwapInfo
    pub is_verified :
        (w : World p) × ((verify_swap_transaction p
            (is_swapin_type args.swap_type)
            args.pair_id
            args.swap_id
            args.bind
            args.tx_type
            w).0
          ≡ ok (some info, none))
    pub raw_tx : p.RawTx
    pub built :
        (w : World p) × (extras : Option AllExtras × Option ℤ) × ((call_result p
            (p.build_raw_transaction
              (not (is_swapin_type args.swap_type))
              (rebuilt_args args token info))
            w).0
          ≡ ok (raw_tx, extras.0, extras.1))
    pub has_hashes :
        (w : World p) × ((call_result p
            (g.verify_msg_hash (not (is_swapin_type args.swap_type)) raw_tx msg_hash)
            w).0
          ≡ ok tt)

  verified_info-ok :
      (r : Option TxSwapInfo × Option Err) (info : TxSwapInfo)
      → verified_info r ≡ ok info
      → r ≡ (some info, none)
  unfolding verified_info
  verified_info-ok (i, some e) info h = cc
  verified_info-ok (none, none) info h = cc
  verified_info-ok (some i, none) info h = cc

  rebuild-IsRebuilt :
      (msg_hash : List Text) (args : BuildTxArgs) (token : TokenConfig) (w : World p)
      → (rebuild p g msg_hash args token w).0 ≡ ok tt
      → IsRebuilt msg_hash args
  unfolding rebuild lift
  rebuild-IsRebuilt msg_hash args token w h =
      let is_swapin = is_swapin_type args.swap_type in
      let look =
        verify_swap_transaction p is_swapin args.pair_id args.swap_id args.bind args.tx_type in
      let w' = (look w).1 in
      let (r, e, k) = >>=-ok look _ w tt h in
      let (info, e', k') = >>=-ok (lift (verified_info r)) _ w' tt k in
      let build =
        call_result p (p.build_raw_transaction (not is_swapin) (rebuilt_args args token info)) in
      let (built, e'', k'') = >>=-ok build _ w' tt k' in
      record {
        token = token;
        info = info;
        is_verified = (w, e ∙ ap ok (verified_info-ok r info e'));
        raw_tx = built.0;
        built = (w', (built.1, built.2), e'');
        has_hashes = ((build w').1, k'');
      }

  -- What was checked of a request.
  pub record IsChecked (info : SignInfo) : Type 0 where
    pub args : BuildTxArgs
    pub context :
        (c : Text) × (cs : List Text) × (info.msg_context ≡ c ∷ cs) × (g.unmarshal c ≡ some args)
    pub initiator : is_dcrm_initiator info.account g.initiators ≡ true
    pub checked :
        (text_eq args.identifier aggregate_identifier ≡ true)
          × ((w : World p) × ((verify_aggregate p g info.msg_hash args w).0 ≡ ok tt))
        ⊎ IsRebuilt info.msg_hash args

  -- A guard that fails was passed.
  passed :
      (c : Bool) (e : Err) (m : M p (Unit {0})) (w : World p)
      → ((if c then fail e else m) w).0 ≡ ok tt
      → (c ≡ false) × ((m w).0 ≡ ok tt)
  unfolding fail
  passed true e m w h = cc
  passed false e m w h = (refl, h)

  rebuild_and_verify_msg_hash-IsRebuilt :
      (msg_hash : List Text) (args : BuildTxArgs) (w : World p)
      → (rebuild_and_verify_msg_hash p g msg_hash args w).0 ≡ ok tt
      → IsRebuilt msg_hash args
  unfolding rebuild_and_verify_msg_hash gets fail
  rebuild_and_verify_msg_hash-IsRebuilt msg_hash args w h = by_type args.swap_type h
    where
      by_config : Option TokenConfig → M p (Unit {0})
      by_config o = elim o [
        | none ↦ fail (sentinel unknown_pair_id)
        | some token ↦ rebuild p g msg_hash args token
      ]

      by_token : (o : Option TokenConfig) → (by_config o w).0 ≡ ok tt → IsRebuilt msg_hash args
      by_token none k = cc
      by_token (some token) k = rebuild-IsRebuilt msg_hash args token w k

      known : M p (Unit {0})
      known w =
          by_config (get_token_config w.config args.pair_id (not (is_swapin_type args.swap_type))) w

      by_type :
          (t : SwapType)
          → (elim t as (λ t. M p (Unit {0})) [
            | no_swap_type ↦ fail (message (lit "unknown swap type"))
            | _ ↦ known
          ]
              w).0
            ≡ ok tt
          → IsRebuilt msg_hash args
      by_type no_swap_type k = cc
      by_type swapin_type k = by_token _ k
      by_type swapout_type k = by_token _ k

  verify_swap-IsRebuilt :
      (msg_hash : List Text) (args : BuildTxArgs) (w : World p)
      → (verify_swap p g msg_hash args w).0 ≡ ok tt
      → IsRebuilt msg_hash args
  unfolding verify_swap
  verify_swap-IsRebuilt msg_hash args w h =
      let first : M p (Unit {0}) =
        if ltb 0 (get_tx_nonce args) then check_accept_record p g args else pure tt in
      let (u, e, k) = >>=-ok first _ w tt h in
      rebuild_and_verify_msg_hash-IsRebuilt msg_hash args (first w).1 k

  verify_sign_info-IsChecked :
      (info : SignInfo) (w : World p) → (verify_sign_info p g info w).0 ≡ ok tt → IsChecked info
  unfolding verify_sign_info gets fail crash
  verify_sign_info-IsChecked info w h = by_context info.msg_context refl h
    where
      guarded : BuildTxArgs → M p (Unit {0})
      guarded args w =
          (if not (
                text_eq args.identifier w.config.identifier
                || text_eq args.identifier g.replace_identifier
                || text_eq args.identifier aggregate_identifier)
              then fail (sentinel identifier_mismatch)
              else if not (is_dcrm_initiator info.account g.initiators)
              then fail (sentinel initiator_mismatch)
              else if text_eq args.identifier aggregate_identifier
              then verify_aggregate p g info.msg_hash args
              else verify_swap p g info.msg_hash args)
            w

      by_args : Option BuildTxArgs → M p (Unit {0})
      by_args o = elim o [ none ↦ fail (sentinel wrong_msg_context) | some args ↦ guarded args ]

      by_unmarshal :
          (c : Text) (cs : List Text) (o : Option BuildTxArgs)
          → info.msg_context ≡ c ∷ cs
          → g.unmarshal c ≡ o
          → (by_args o w).0 ≡ ok tt
          → IsChecked info
      by_unmarshal c cs none e e' k = cc
      by_unmarshal c cs (some args) e e' k =
          let own =
            text_eq args.identifier w.config.identifier
            || text_eq args.identifier g.replace_identifier
            || text_eq args.identifier aggregate_identifier in
          let is_initiator = is_dcrm_initiator info.account g.initiators in
          let agg = text_eq args.identifier aggregate_identifier in
          let last : M p (Unit {0}) =
            if agg
            then verify_aggregate p g info.msg_hash args
            else verify_swap p g info.msg_hash args in
          let (a, k1) =
            passed (not own) (sentinel identifier_mismatch)
              (if not is_initiator then fail (sentinel initiator_mismatch) else last) w k in
          let (b, k2) = passed (not is_initiator) (sentinel initiator_mismatch) last w k1 in
          record {
            args = args;
            context = (c, cs, e, e');
            initiator = ground arith;
            checked = elim (Bool-cases agg) [
              | inl yes' ↦ inl (yes', (w, rw yes' at k2))
              | inr no' ↦ inr (verify_swap-IsRebuilt info.msg_hash args w (rw no' at k2))
            ];
          }

      by_context :
          (cs : List Text)
          → info.msg_context ≡ cs
          → (elim cs as (λ cs. M p (Unit {0})) [ [] ↦ crash | c ∷ _ ↦ by_args (g.unmarshal c) ] w).0
            ≡ ok tt
          → IsChecked info
      by_context [] e k = cc
      by_context (c ∷ cs) e k = by_unmarshal c cs (g.unmarshal c) e refl k

  longer : (xs : List (Text × Bool)) (x : Text × Bool) → xs ≢ x ∷ xs
  longer xs x h = absurd (omega (arith, ap length h))

  after_answer-refuses :
      (key : Text) (r : Result Err (Unit {0})) (d : Desk p g)
      → (after_answer p g key false r d).answers ≢ (key, true) ∷ d.answers
  unfolding after_answer forget
  after_answer-refuses key (ok u) d h = cc
  after_answer-refuses key (err e) d h = longer d.answers (key, true) h
  after_answer-refuses key panic d h = longer d.answers (key, true) h

  -- An error is never answered with an agreement.
  response_to-refuses : (pending : Bool) (e : Err) → response_to pending (some e) ≢ agree
  unfolding response_to
  response_to-refuses pending e h = by_tests _ _ _ _ h
    where
      by_tests :
          (a b c : Bool) (reason : Text)
          → (if a then discard else if b then ignore else if c then discard else disagree reason)
            ≢ agree
      by_tests true b c reason h = cc
      by_tests false true c reason h = cc
      by_tests false false true reason h = cc
      by_tests false false false reason h = cc

  respond-refuses :
      (info : SignInfo) (r : Response) (d : Desk p g)
      → r ≢ agree
      → (respond p g info r d).answers ≢ (info.key, true) ∷ d.answers
  unfolding respond answer forget
  respond-refuses info discard d n h = longer d.answers (info.key, true) h
  respond-refuses info ignore d n h = longer d.answers (info.key, true) h
  respond-refuses info agree d n h = n refl
  respond-refuses info (disagree reason) d n h = after_answer-refuses info.key _ _ h

  -- The signing group gets the agreement of a node to a request only if an initiator made the request,
  -- and either it is for an aggregation of deposits and passed the check of those, or the swap of its
  -- arguments was verified without an error and the bridge built from it a transaction, with the extras
  -- of the arguments, that has the hashes of the request.
  pub process_accept_info-IsChecked :
      (info : SignInfo) (d d' : Desk p g)
      → process_accept_info p g info d ≡ some d'
      → d'.answers ≡ (info.key, true) ∷ d.answers
      → IsChecked info
  unfolding process_accept_info verified
  process_accept_info-IsChecked info d d' h a = elim (Bool-cases (contains info.key d.cached)) [
    | inl yes' ↦
        let same : d ≡ d' = cc (rw yes' at h) in
        absurd (longer d.answers (info.key, true) (ap (λ d. d.answers) same ∙ a))
    | inr no' ↦ by_result (verify_sign_info p g info d.world).0 refl (rw no' at h)
  ]
    where
      d'' : Desk p g
      d'' = record d {
        world = (verify_sign_info p g info d.world).1;
        cached = with_cached p g info.key d.cached;
      }

      by_result :
          (r : Result Err (Unit {0}))
          → (verify_sign_info p g info d.world).0 ≡ r
          → verified p g info r d'' ≡ some d'
          → IsChecked info
      by_result (ok u) e k = verify_sign_info-IsChecked info d.world e
      by_result (err e) e' k =
          let same : respond p g info (response_to g.pending_invalid_accept (some e)) d'' ≡ d' =
            cc k in
          absurd (
            respond-refuses info _ d'' (response_to-refuses g.pending_invalid_accept e)
              (ap (λ d. d.answers) same ∙ a))
      by_result panic e k = cc
