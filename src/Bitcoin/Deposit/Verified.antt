-- ===== src/Bitcoin/Deposit/Verified.antt =====
-- What a deposit that is verified without an error is.
use cross_chain_bridge.Common.{
  ◌%◌, ◌^◌, ◌≡◌, refl, sym, ap, subst, ◌∙◌, Bool, true, false, not, Option, none, some, Text, lit,
  text_eq, if◌then◌else◌, Bool-cases, Option-cases, inl, inr, arith,
}
use cross_chain_bridge.Common.Int.{pos}
use cross_chain_bridge.Common.Exec.{
  Result, ok, err, panic, Exec, pure, crash, after, attempt, >>=-ok, attempt-ok,
}
use cross_chain_bridge.Tokens.Errors.{Err, sentinel, tx_not_stable, unknown_pair_id, swap_is_closed}
use cross_chain_bridge.Tokens.Types.{TokenConfig, TxSwapInfo, get_token_config}
use cross_chain_bridge.Tokens.SwapValue.{check_swap_value}
use cross_chain_bridge.Bitcoin.Electrs.{ElectTx, p2pkh_type}
use cross_chain_bridge.Bitcoin.Received.{Received, get_received_value, get_tx_from}
use cross_chain_bridge.Bitcoin.Received.Total.{total_to, any_to, get_received_value-total}
use cross_chain_bridge.Bitcoin.Memo.{get_bind_address_from_memo_script}
use cross_chain_bridge.Bitcoin.Deposit.{
  Chain, Verdict, memo_error, check_swapin_info, with_block, settle, settle_swapin, found, look_up,
  check_stable, verify_swapin_tx, verify_transaction, new_swap_info,
}

module _ {S : Type 0} (b : Chain S) where
  -- The checks of checkSwapinInfo.
  pub record IsAccepted (info : TxSwapInfo) : Type 0 where
    pub sender : text_eq info.from info.to ≡ false
    pub worth : check_swap_value b.config info b.is_src ≡ some true
    pub address : b.is_valid_address info.bind ≡ true

  check_swapin_info-IsAccepted :
      (info : TxSwapInfo) (s : S) → (check_swapin_info b info s).0 ≡ ok none → IsAccepted info
  unfolding check_swapin_info pure crash
  check_swapin_info-IsAccepted info s h = ground arith

  -- The swap info of a deposit by memo, of the transaction `tx` to the deposit address.
  pub record IsDeposit (deposit : Text) (tx : ElectTx) (info : TxSwapInfo) : Type 0 where
    pub received : Received
    pub got : get_received_value tx.vout deposit p2pkh_type ≡ some received
    pub bind : get_bind_address_from_memo_script received.memo_script ≡ some info.bind
    pub value : info.value ≡ pos (total_to deposit p2pkh_type tx.vout % 2 ^ 64)
    pub paid : any_to deposit p2pkh_type tx.vout ≡ true
    pub to : info.to ≡ deposit
    pub from : info.from ≡ get_tx_from tx.vin deposit
    pub accepted : IsAccepted info

  -- The swap info with what is known of the deposit.
  abbrev with_deposit : Text → Text → Received → ElectTx → TxSwapInfo → TxSwapInfo
  with_deposit receiver bind r tx start = record start {
    to = receiver;
    value = pos r.value;
    bind = bind;
    from = get_tx_from tx.vin receiver;
  }

  settle-ok :
      (receiver : Text) (bind : Option Text) (r : Received) (tx : ElectTx) (start info : TxSwapInfo)
      (s : S)
      → (settle b receiver bind r tx start s).0 ≡ ok (some info, none)
      → (a : Text) × (bind ≡ some a)
        × (r.right_receiver ≡ true)
        × (with_deposit receiver a r tx start ≡ info)
        × IsAccepted info
  unfolding settle pure
  settle-ok receiver bind r tx start info s h = elim (Bool-cases r.right_receiver) [
    | inr wrong ↦ absurd (cc (rw wrong at h))
    | inl right ↦
        by_bind bind
          (check_swapin_info b
            (with_deposit receiver (elim bind [ none ↦ lit "" | some a ↦ a ]) r tx start) s).0
          refl (rw right at h) right
  ]
    where
      by_bind :
          (o : Option Text) (x : Result Err (Option Err))
          → (check_swapin_info b
              (with_deposit receiver (elim o [ none ↦ lit "" | some a ↦ a ]) r tx start)
              s).0
            ≡ x
          → (after {B = Verdict} x
              (λ e. pure {E = Err} {S = S} (
                some (with_deposit receiver (elim o [ none ↦ lit "" | some a ↦ a ]) r tx start),
                memo_error o e,
              ))
              (check_swapin_info b
                (with_deposit receiver (elim o [ none ↦ lit "" | some a ↦ a ]) r tx start)
                s).1).0
            ≡ ok (some info, none)
          → r.right_receiver ≡ true
          → (a : Text) × (o ≡ some a)
            × (r.right_receiver ≡ true)
            × (with_deposit receiver a r tx start ≡ info)
            × IsAccepted info
      by_bind o (err e) q k w = cc
      by_bind o panic q k w = cc
      by_bind none (ok none) q k w = cc
      by_bind none (ok (some e)) q k w = cc
      by_bind (some a) (ok (some e)) q k w = cc
      by_bind (some a) (ok none) q k w =
          let same : with_deposit receiver a r tx start ≡ info = cc in
          (
            a,
            refl,
            w,
            same,
            subst IsAccepted same
                (check_swapin_info-IsAccepted (with_deposit receiver a r tx start) s q),
          )

  settle-IsDeposit :
      (deposit : Text) (r : Received) (tx : ElectTx) (start info : TxSwapInfo) (s : S)
      → get_received_value tx.vout deposit p2pkh_type ≡ some r
      → (settle b deposit (get_bind_address_from_memo_script r.memo_script) r tx start s).0
        ≡ ok (some info, none)
      → IsDeposit deposit tx info
  unfolding text_eq lit
  settle-IsDeposit deposit r tx start info s got h =
      let (a, memo, right, same, accepted) =
        settle-ok deposit (get_bind_address_from_memo_script r.memo_script) r tx start info s h in
      let (total, any) = get_received_value-total deposit p2pkh_type refl tx.vout r got in
      record {
        received = r;
        got = got;
        bind = memo ∙ ap some (ap (λ i. i.bind) same);
        value = sym (ap (λ i. i.value) same) ∙ ap pos total;
        paid = sym any ∙ right;
        to = sym (ap (λ i. i.to) same);
        from = sym (ap (λ i. i.from) same);
        accepted = accepted;
      }

  -- VerifyTransaction without unstable ones: the deposit that it reports without an error.
  pub record IsVerified (pair_id hash : Text) (info : TxSwapInfo) (s : S) : Type 0 where
    pub token : TokenConfig
    pub configured : get_token_config b.config pair_id b.is_src ≡ some token
    pub is_open : token.disable_swap ≡ false
    pub is_stable : (check_stable b hash s).0 ≡ ok true
    pub tx : ElectTx
    pub in_chain : (s' : S) × ((b.get_transaction_by_hash hash s').0 ≡ ok tx)
    pub deposit : IsDeposit token.deposit_address tx info

  settle_swapin-IsDeposit :
      (deposit : Text) (tx : ElectTx) (start info : TxSwapInfo) (s : S)
      → (settle_swapin b deposit tx start s).0 ≡ ok (some info, none)
      → IsDeposit deposit tx info
  unfolding settle_swapin crash
  settle_swapin-IsDeposit deposit tx start info s h =
      elim (Option-cases (get_received_value tx.vout deposit p2pkh_type)) [
        | inl e ↦ absurd (cc (rw (settle_swapin, e) at h))
        | inr (r, e) ↦ settle-IsDeposit deposit r tx start info s e (rw (settle_swapin, e) at h)
      ]

  found-IsDeposit :
      (deposit : Text) (r : Result Err ElectTx) (start info : TxSwapInfo) (s : S)
      → (found b (settle_swapin b deposit) start r s).0 ≡ ok (some info, none)
      → (tx : ElectTx) × (r ≡ ok tx) × IsDeposit deposit tx info
  unfolding found pure crash
  found-IsDeposit deposit (err e) start info s h = cc
  found-IsDeposit deposit panic start info s h = cc
  found-IsDeposit deposit (ok tx) start info s h =
      let (o, e, k) = >>=-ok (with_block b tx start) _ s (some info, none) h in
      (tx, refl, go o (with_block b tx start s).1 k)
    where
      go :
          (o : Option TxSwapInfo) (s' : S)
          → (elim o as (λ o. Exec Err S Verdict) [
            | none ↦ pure (some start, some (sentinel tx_not_stable))
            | some info' ↦ settle_swapin b deposit tx info'
          ]
              s').0
            ≡ ok (some info, none)
          → IsDeposit deposit tx info
      go none s' k = cc
      go (some start') s' k = settle_swapin-IsDeposit deposit tx start' info s' k

  -- A guard that gives an error was passed.
  passed :
      (c : Bool) (o : Option TxSwapInfo) (e : Err) (m : Exec Err S Verdict) (info : TxSwapInfo)
      (s : S)
      → ((if c then pure (o, some e) else m) s).0 ≡ ok (some info, none)
      → (c ≡ false) × ((m s).0 ≡ ok (some info, none))
  unfolding pure
  passed true o e m info s h = cc
  passed false o e m info s h = (refl, h)

  flipped : (c : Bool) → not c ≡ false → c ≡ true
  flipped c h = ground arith

  look_up-IsVerified :
      (pair_id hash : Text) (token : TokenConfig) (info : TxSwapInfo) (s : S)
      → get_token_config b.config pair_id b.is_src ≡ some token
      → token.disable_swap ≡ false
      → (look_up b
          (settle_swapin b token.deposit_address)
          false
          (new_swap_info pair_id hash (lit ""))
          s).0
        ≡ ok (some info, none)
      → IsVerified pair_id hash info s
  unfolding look_up
  look_up-IsVerified pair_id hash token info s e open' h =
      let (stable, q, k) = >>=-ok (check_stable b hash) _ s (some info, none) h in
      let (is_stable, k') = passed (not stable) _ _ _ info (check_stable b hash s).1 k in
      let s' = (check_stable b hash s).1 in
      let (r, q', k'') =
        >>=-ok (attempt (b.get_transaction_by_hash hash)) _ s' (some info, none) k' in
      let (tx, z, d) = found-IsDeposit token.deposit_address r _ info _ k'' in
      record {
        token = token;
        configured = e;
        is_open = open';
        is_stable = q ∙ ap ok (flipped stable is_stable);
        tx = tx;
        in_chain = (s', attempt-ok (b.get_transaction_by_hash hash) s' r q' ∙ z);
        deposit = d;
      }

  -- Asked not to allow unstable transactions, the bridge of the source chain reports a deposit without
  -- an error only if the swap is open, the transaction is stable, and its outputs pay to the deposit address: the value is their sum, modulo
  -- 2 ^ 64, and passes the check of its worth; the bind address comes from the memo and is valid; and
  -- the sender is not the deposit address.
  pub verify_transaction-IsVerified :
      (pair_id hash : Text) (info : TxSwapInfo) (s : S)
      → (verify_transaction b pair_id hash false s).0 ≡ ok (some info, none)
      → IsVerified pair_id hash info s
  unfolding verify_transaction verify_swapin_tx pure
  verify_transaction-IsVerified pair_id hash info s h =
      by_token (get_token_config b.config pair_id b.is_src) refl
        (passed (not b.is_src) none _ (verify_swapin_tx b pair_id hash false) info s h).1
    where
      by_token :
          (o : Option TokenConfig)
          → get_token_config b.config pair_id b.is_src ≡ o
          → (elim o as (λ o. Exec Err S Verdict) [
            | none ↦ pure (none, some (sentinel unknown_pair_id))
            | some token ↦
                if token.disable_swap
                then pure (none, some (sentinel swap_is_closed))
                else look_up b
                    (settle_swapin b token.deposit_address)
                    false
                    (new_swap_info pair_id hash (lit ""))
          ]
              s).0
            ≡ ok (some info, none)
          → IsVerified pair_id hash info s
      by_token none e k = cc
      by_token (some token) e k =
          let (d, k') = passed token.disable_swap none _ _ info s k in
          look_up-IsVerified pair_id hash token info s e d k'
