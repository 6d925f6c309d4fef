-- ===== src/Worker/Swap/Signed.antt =====
-- The hash of a signed transaction, and the result that prepareSwap leaves.
use cross_chain_bridge.Common.{
  ℕ, zero, suc, ◌≡◌, refl, sym, ◌∙◌, Bool, true, false, not, Option, none, some, Text, is_empty,
  arith, if◌then◌else◌,
}
use cross_chain_bridge.Common.Exec.{Result, ok, err, panic, attempt, pure, gets, crash, ◌>>=◌}
use cross_chain_bridge.Tokens.Errors.{Err}
use cross_chain_bridge.Tokens.Types.{BuildTxArgs, TokenConfig, is_swapin_type, get_token_config}
use cross_chain_bridge.Platform.{Platform, World, M, call_result}
use cross_chain_bridge.Platform.Database.{IsAtomic}
use cross_chain_bridge.Platform.Frame.{after_ok, IsQuiet, IsQuiet-IsFrame, Within-call_result}
use cross_chain_bridge.Mongodb.Results.Assignment.{quiet_at}
use cross_chain_bridge.Worker.Swap.{
  sign_once, sign_retry, after_sign, sign, record_swap, record_signed, built_args, sign_built,
  prepare_swap,
}
use cross_chain_bridge.Worker.Swap.Prepare.{after_sign-ok, sign-IsQuiet}
use cross_chain_bridge.Worker.Swap.Record.{IsPaidBy, record_swap-ok, args_key}

-- A bridge that signs a transaction gives its hash, which is not empty.
pub record SignsWithHash (p : Platform) : Type 0 where
  pub sign_transaction-hash :
      (is_src : Bool) (raw_tx : p.RawTx) (pair_id : Text) (e : p.Env) (s : p.SignedTx × Text)
      → (p.sign_transaction is_src raw_tx pair_id e).0 ≡ ok s
      → is_empty s.1 ≡ false
  pub dcrm_sign_transaction-hash :
      (is_src : Bool) (raw_tx : p.RawTx) (args : BuildTxArgs) (e : p.Env) (s : p.SignedTx × Text)
      → (p.dcrm_sign_transaction is_src raw_tx args e).0 ≡ ok s
      → is_empty s.1 ≡ false

module _ (p : Platform) (signs : SignsWithHash p) where
  sign_once-hash :
      (token : TokenConfig) (raw_tx : p.RawTx) (args : BuildTxArgs) (w : World p)
      (s : p.SignedTx × Text)
      → (sign_once p token raw_tx args w).0 ≡ ok s
      → is_empty s.1 ≡ false
  unfolding sign_once call_result
  sign_once-hash token raw_tx args w s h = go token.has_private_key h
    where
      go :
          (b : Bool)
          → ((if b
                then call_result p
                    (p.sign_transaction (not (is_swapin_type args.swap_type)) raw_tx args.pair_id)
                else call_result p
                    (p.dcrm_sign_transaction (not (is_swapin_type args.swap_type)) raw_tx args))
              w).0
            ≡ ok s
          → is_empty s.1 ≡ false
      go true q = signs.sign_transaction-hash _ raw_tx args.pair_id w.env s q
      go false q = signs.dcrm_sign_transaction-hash _ raw_tx args w.env s q

  tried :
      (r : Result Err (p.SignedTx × Text)) (rest : M p (p.SignedTx × Text)) (w : World p)
      (s : p.SignedTx × Text)
      → ((t : p.SignedTx × Text) → r ≡ ok t → is_empty t.1 ≡ false)
      → ((rest w).0 ≡ ok s → is_empty s.1 ≡ false)
      → ((attempt (λ v. (r, v)) >>= λ x. elim x [ ok t ↦ pure t | err e ↦ rest | panic ↦ crash ])
          w).0
        ≡ ok s
      → is_empty s.1 ≡ false
  unfolding attempt pure crash
  tried (ok t) rest w s f g h = f s h
  tried (err e) rest w s f g h = g h
  tried panic rest w s f g h = absurd (ground arith)

  sign_retry-hash :
      (n : ℕ) (token : TokenConfig) (raw_tx : p.RawTx) (args : BuildTxArgs) (w : World p)
      (s : p.SignedTx × Text)
      → (sign_retry p n token raw_tx args w).0 ≡ ok s
      → is_empty s.1 ≡ false
  unfolding sign_retry attempt
  sign_retry-hash zero token raw_tx args w s h = sign_once-hash token raw_tx args w s h
  sign_retry-hash (suc n) token raw_tx args w s h =
      tried (sign_once p token raw_tx args w).0 (sign_retry p n token raw_tx args)
        (sign_once p token raw_tx args w).1 s (λ t q. sign_once-hash token raw_tx args w t q)
        (λ q. sign_retry-hash n token raw_tx args (sign_once p token raw_tx args w).1 s q) h

  sign_with-hash :
      (args : BuildTxArgs) (raw_tx : p.RawTx) (token : Option TokenConfig) (w : World p)
      (s : p.SignedTx × Text)
      → let m : M p (p.SignedTx × Text) = elim token [
        | none ↦ crash
        | some t ↦ attempt (sign_retry p 2 t raw_tx args) >>= λ r. after_sign p args r
      ] in
        (m w).0 ≡ ok s → is_empty s.1 ≡ false
  unfolding crash attempt
  sign_with-hash args raw_tx none w s h = absurd (ground arith)
  sign_with-hash args raw_tx (some t) w s h =
      let (r, q, e) =
        after_ok p (attempt (sign_retry p 2 t raw_tx args)) (λ r. after_sign p args r) w s h in
      let given : r ≡ ok s = (after_sign-ok p args r _ s (rw e at h)).1 in
      sign_retry-hash 2 t raw_tx args w s (ground arith)

  sign-hash :
      (args : BuildTxArgs) (raw_tx : p.RawTx) (w : World p) (s : p.SignedTx × Text)
      → (sign p args raw_tx w).0 ≡ ok s
      → is_empty s.1 ≡ false
  unfolding sign gets
  sign-hash args raw_tx w s h =
      sign_with-hash args raw_tx
        (get_token_config w.config args.pair_id (not (is_swapin_type args.swap_type))) w s h

-- A payment that returned a signed transaction with its hash has recorded it, in a result that had
-- none before.
unfoldable pub IsPrepared :
    (p : Platform)
    → BuildTxArgs
    → World p
    → World p
    → p.SignedTx × Text × Text × BuildTxArgs
    → Type 0
IsPrepared p args w w' (signed_tx, hash, value, args') =
    (args'.swap_info ≡ args.swap_info) × (is_empty hash ≡ false) × IsPaidBy p args' hash w w'

module _ (p : Platform) (laws : IsAtomic p.results) (signs : SignsWithHash p) where
  IsPaidBy-quiet :
      (args : BuildTxArgs) (hash : Text) (u v w : World p)
      → IsQuiet u v
      → IsPaidBy p args hash v w
      → IsPaidBy p args hash u w
  IsPaidBy-quiet args hash u v w q paid = record {
    before = paid.before;
    before_at =
        sym (quiet_at p (is_swapin_type args.swap_type) u v (args_key args) q) ∙ paid.before_at;
    before_free = paid.before_free;
    after = paid.after;
    after_at = paid.after_at;
    after_tx = paid.after_tx;
    after_nonce = paid.after_nonce;
  }

  record_signed-ok :
      (args : BuildTxArgs) (signed : p.SignedTx × Text) (w : World p)
      (r : p.SignedTx × Text × Text × BuildTxArgs)
      → is_empty args.bind ≡ false
      → is_empty signed.1 ≡ false
      → (record_signed p args signed w).0 ≡ ok r
      → IsPrepared p args w (record_signed p args signed w).1 r
  unfolding record_signed IsPrepared pure
  record_signed-ok args signed w r b n h =
      let (value, q, e) =
        after_ok p (record_swap p args signed.1) (λ v. pure (signed.0, signed.1, v, args)) w r h in
      let given : ok (signed.0, signed.1, value, args) ≡ ok r = rw e at h in
      let same : (signed.0, signed.1, value, args) ≡ r = ground arith in
      rw (sym same) (refl, n, rw e (record_swap-ok p laws args signed.1 w value b n q))

  pub prepare_swap-ok :
      (args : BuildTxArgs) (w : World p) (r : p.SignedTx × Text × Text × BuildTxArgs)
      → is_empty args.bind ≡ false
      → (prepare_swap p args w).0 ≡ ok r
      → IsPrepared p args w (prepare_swap p args w).1 r
  unfolding prepare_swap sign_built IsPrepared call_result built_args
  prepare_swap-ok args w r b h =
      let is_src = not (is_swapin_type args.swap_type) in
      let (built, q1, e1) =
        after_ok p (call_result p (p.build_raw_transaction is_src args)) (sign_built p args) w r
          h in
      let u = (call_result p (p.build_raw_transaction is_src args) w).1 in
      let args' = built_args p args built in
      let (s, q2, e2) =
        after_ok p (sign p args' built.0) (record_signed p args') u r (rw e1 at h) in
      let v = (sign p args' built.0 u).1 in
      let quiet =
        (IsQuiet-IsFrame p).trans w u v
          ((Within-call_result (IsQuiet-IsFrame p) (p.build_raw_transaction is_src args)).at w)
          (sign-IsQuiet p args' built.0 u s q2) in
      let (info, given, paid) =
        record_signed-ok args' s v r b (sign-hash p signs args' built.0 u s q2)
          (rw e2 at (rw e1 at h)) in
      rw (e1, e2) (info, given, IsPaidBy-quiet r.3 r.1 w v (record_signed p args' s v).1 quiet paid)
