-- ===== src/Worker/Swap/Prepare.antt =====
-- What doSwap does before it sends: up to the record it changes no result, and it sends nothing.
use cross_chain_bridge.Common.{
  ℕ, zero, suc, ◌≡◌, refl, sym, Bool, true, false, not, Option, none, some, Text, arith,
  if◌then◌else◌,
}
use cross_chain_bridge.Common.Exec.{
  Result, ok, err, panic, attempt, pure, gets, fail, crash, ◌>>=◌, ◌>>◌,
}
use cross_chain_bridge.Tokens.Errors.{Err, errors_is, sign_status_has_disagree}
use cross_chain_bridge.Tokens.Types.{BuildTxArgs, TokenConfig, is_swapin_type, get_token_config}
use cross_chain_bridge.Platform.{Platform, World, M}
use cross_chain_bridge.Platform.Frame.{
  after_ok, IsUnsent, IsUnsent-IsFrame, IsQuiet, IsQuiet-IsFrame, Within, IsFrame, Within-bind,
  Within-if, Within-pure, Within-fail, Within-crash, Within-gets, Within-attempt,
  Within-call_result, Within-quiet,
}
use cross_chain_bridge.Mongodb.Documents.{MgoSwapResult}
use cross_chain_bridge.Worker.Send.{reverify_swap}
use cross_chain_bridge.Worker.Swap.{sign_once, sign_retry, after_sign, sign, recorded_value}
use cross_chain_bridge.Worker.Send.Unsent.{reverify_swap-IsUnsent}

module _ (p : Platform) where
  Q : IsFrame {p = p} IsQuiet
  Q = IsQuiet-IsFrame p

  U : IsFrame {p = p} IsUnsent
  U = IsUnsent-IsFrame p

  -- The signatures change nothing of the database.
  sign_once-IsQuiet :
      (token : TokenConfig) (raw_tx : p.RawTx) (args : BuildTxArgs)
      → Within IsQuiet (sign_once p token raw_tx args)
  unfolding sign_once
  sign_once-IsQuiet token raw_tx args =
      Within-if Q token.has_private_key _ _
        (Within-call_result Q
          (p.sign_transaction (not (is_swapin_type args.swap_type)) raw_tx args.pair_id))
        (Within-call_result Q
          (p.dcrm_sign_transaction (not (is_swapin_type args.swap_type)) raw_tx args))

  after_try-IsQuiet :
      (r : Result Err (p.SignedTx × Text)) (rest : M p (p.SignedTx × Text))
      → Within IsQuiet rest
      → Within {p = p} {A = p.SignedTx × Text} IsQuiet
          (elim r [ ok s ↦ pure s | err e ↦ rest | panic ↦ crash ])
  after_try-IsQuiet (ok s) rest h = Within-pure Q s
  after_try-IsQuiet (err e) rest h = h
  after_try-IsQuiet panic rest h = Within-crash Q _

  sign_retry-IsQuiet :
      (n : ℕ) (token : TokenConfig) (raw_tx : p.RawTx) (args : BuildTxArgs)
      → Within IsQuiet (sign_retry p n token raw_tx args)
  unfolding sign_retry
  sign_retry-IsQuiet zero token raw_tx args = sign_once-IsQuiet token raw_tx args
  sign_retry-IsQuiet (suc n) token raw_tx args =
      Within-bind Q _ _ (Within-attempt Q _ (sign_once-IsQuiet token raw_tx args)) λ r.
        after_try-IsQuiet r (sign_retry p n token raw_tx args)
          (sign_retry-IsQuiet n token raw_tx args)

  after_sign-IsUnsent :
      (args : BuildTxArgs) (r : Result Err (p.SignedTx × Text))
      → Within IsUnsent (after_sign p args r)
  unfolding after_sign
  after_sign-IsUnsent args (ok s) = Within-pure U s
  after_sign-IsUnsent args panic = Within-crash U _
  after_sign-IsUnsent args (err e) =
      Within-if U (errors_is e sign_status_has_disagree) _ _
        (Within-bind U _ _ (reverify_swap-IsUnsent p args) λ u. Within-fail U _ e)
        (Within-fail U _ e)

  sign_with-IsUnsent :
      (args : BuildTxArgs) (raw_tx : p.RawTx) (token : Option TokenConfig)
      → Within {p = p} {A = p.SignedTx × Text} IsUnsent (elim token [
        | none ↦ crash
        | some t ↦ attempt (sign_retry p 2 t raw_tx args) >>= λ r. after_sign p args r
      ])
  sign_with-IsUnsent args raw_tx none = Within-crash U _
  sign_with-IsUnsent args raw_tx (some t) =
      Within-bind U _ _ (Within-quiet U _ (Within-attempt Q _ (sign_retry-IsQuiet 2 t raw_tx args)))
        λ r. after_sign-IsUnsent args r

  pub sign-IsUnsent : (args : BuildTxArgs) (raw_tx : p.RawTx) → Within IsUnsent (sign p args raw_tx)
  unfolding sign
  sign-IsUnsent args raw_tx = Within-bind U (gets λ w. w.config) _ (Within-gets U _) λ cfg.
      sign_with-IsUnsent args raw_tx
        (get_token_config cfg args.pair_id (not (is_swapin_type args.swap_type)))

  pub recorded_value-IsQuiet :
      (args : BuildTxArgs) (res : MgoSwapResult) → Within IsQuiet (recorded_value p args res)
  unfolding recorded_value
  recorded_value-IsQuiet args res = record { at = λ w. ground arith }

  never_ok :
      {A B : Type 0} (b : Bool) (m : M p A) (e : Err) (w : World p) (s : B)
      → ¬ (((if b then m >> fail e else fail e) w).0 ≡ ok s)
  unfolding fail
  never_ok true m e w s h = let (a, q, r) = after_ok p m (λ u. fail e) w s h in ground arith
  never_ok false m e w s h = ground arith

  pub after_sign-ok :
      (args : BuildTxArgs) (r : Result Err (p.SignedTx × Text)) (w : World p)
      (s : p.SignedTx × Text)
      → (after_sign p args r w).0 ≡ ok s
      → ((after_sign p args r w).1 ≡ w) × (r ≡ ok s)
  unfolding after_sign pure crash
  after_sign-ok args (ok t) w s h = (refl, h)
  after_sign-ok args panic w s h = absurd (ground arith)
  after_sign-ok args (err e) w s h =
      absurd (never_ok (errors_is e sign_status_has_disagree) (reverify_swap p args) e w s h)

  sign_with-IsQuiet :
      (args : BuildTxArgs) (raw_tx : p.RawTx) (token : Option TokenConfig) (w : World p)
      (s : p.SignedTx × Text)
      → let m : M p (p.SignedTx × Text) = elim token [
        | none ↦ crash
        | some t ↦ attempt (sign_retry p 2 t raw_tx args) >>= λ r. after_sign p args r
      ] in
        (m w).0 ≡ ok s → IsQuiet w (m w).1
  unfolding crash
  sign_with-IsQuiet args raw_tx none w s h = absurd (ground arith)
  sign_with-IsQuiet args raw_tx (some t) w s h =
      let (r, q, e) =
        after_ok p (attempt (sign_retry p 2 t raw_tx args)) (λ r. after_sign p args r) w s h in
      rw e (
        rw (after_sign-ok args r (attempt (sign_retry p 2 t raw_tx args) w).1 s (rw (sym e) h)).0
          ((Within-attempt Q _ (sign_retry-IsQuiet 2 t raw_tx args)).at w))

  -- Signatures that were given have changed nothing of the database.
  pub sign-IsQuiet :
      (args : BuildTxArgs) (raw_tx : p.RawTx) (w : World p) (s : p.SignedTx × Text)
      → (sign p args raw_tx w).0 ≡ ok s
      → IsQuiet w (sign p args raw_tx w).1
  unfolding sign gets
  sign-IsQuiet args raw_tx w s h =
      sign_with-IsQuiet args raw_tx
        (get_token_config w.config args.pair_id (not (is_swapin_type args.swap_type))) w s h
