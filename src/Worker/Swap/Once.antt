-- ===== src/Worker/Swap/Once.antt =====
-- doSwap pays a swap out at most once.
use cross_chain_bridge.Common.{
  ◌≡◌, ◌≢◌, ◌⊎◌, inl, inr, refl, sym, ◌∙◌, Bool, true, false, not, ◌||◌, some, List, Text, is_empty,
  arith, All,
}
use cross_chain_bridge.Common.Exec.{Result, ok, err, panic, attempt, crash, ◌>>=◌}
use cross_chain_bridge.Tokens.Errors.{Err}
use cross_chain_bridge.Tokens.Types.{BuildTxArgs, is_swapin_type}
use cross_chain_bridge.Platform.{Platform, World}
use cross_chain_bridge.Platform.Database.{IsAtomic}
use cross_chain_bridge.Platform.Frame.{
  IsUnsent, IsUnsent-IsFrame, IsQuiet, IsFrame, Within, Within-bind, Within-fail, >>=_cases,
}
use cross_chain_bridge.Mongodb.Documents.{MgoSwapResult}
use cross_chain_bridge.Mongodb.Access.{result_at}
use cross_chain_bridge.Mongodb.Results.History.{
  ResultCall, IsOrdinary, run_calls, run_calls_keep_assigned,
}
use cross_chain_bridge.Mongodb.Results.Assignment.{quiet_at}
use cross_chain_bridge.Worker.Cache.{get_swap_cache_key, check_and_update_cache, delete_cached_swap}
use cross_chain_bridge.Worker.Prevent.{is_swapped}
use cross_chain_bridge.Worker.Swap.{prepare_swap, finish_swap, after_prepare, do_swap}
use cross_chain_bridge.Worker.Swap.Record.{args_key, prepare_swap-IsUnsent}
use cross_chain_bridge.Worker.Swap.Signed.{SignsWithHash, IsPrepared, prepare_swap-ok}
use cross_chain_bridge.Worker.Swap.Finish.{finish_swap-StillKept}

-- The result of the swap was without a transaction before, and has one afterwards.
pub record IsPaidOut (p : Platform) (args : BuildTxArgs) (w w' : World p) : Type 0 where
  pub before : MgoSwapResult
  pub before_at : result_at p (is_swapin_type args.swap_type) w (args_key args) ≡ some before
  pub before_free : is_swapped before ≡ false
  pub after : MgoSwapResult
  pub after_at : result_at p (is_swapin_type args.swap_type) w' (args_key args) ≡ some after
  pub after_tx : is_empty after.swap_tx ≡ false

module _ (p : Platform) where
  IsPaidOut-quiet :
      (args : BuildTxArgs) (u v w : World p)
      → IsQuiet u v
      → IsPaidOut p args v w
      → IsPaidOut p args u w
  IsPaidOut-quiet args u v w q paid = record {
    before = paid.before;
    before_at =
        sym (quiet_at p (is_swapin_type args.swap_type) u v (args_key args) q) ∙ paid.before_at;
    before_free = paid.before_free;
    after = paid.after;
    after_at = paid.after_at;
    after_tx = paid.after_tx;
  }

  pub delete_cached_swap-IsUnsent : (key : Text) → Within IsUnsent (delete_cached_swap p key)
  unfolding delete_cached_swap
  delete_cached_swap-IsUnsent key = record { at = λ w. record { sent = refl; send_loops = refl } }

  pub check_and_update_cache-IsQuiet : (key : Text) → Within IsQuiet (check_and_update_cache p key)
  unfolding check_and_update_cache
  check_and_update_cache-IsQuiet key = record { at = λ w. ground arith }

module _ (p : Platform) (laws : IsAtomic p.results) (signs : SignsWithHash p) where
  finish_swap-paid :
      (args : BuildTxArgs) (r : p.SignedTx × Text × Text × BuildTxArgs) (w w1 : World p)
      → is_empty args.bind ≡ false
      → IsPrepared p args w w1 r
      → IsPaidOut p args w (finish_swap p r w1).1
  unfolding IsPrepared
  finish_swap-paid args r w w1 b (info, n, paid) =
      let dir = is_swapin_type (r.3).swap_type in
      let tx : is_empty paid.after.swap_tx ≡ false = rw paid.after_tx n in
      let (e, at, kept) =
        (finish_swap-StillKept p laws dir (args_key r.3) paid.after r (rw info b)).at w1
          (paid.after, paid.after_at, (refl, λ h. h)) in
      record {
        before = paid.before;
        before_at = rw (sym info) paid.before_at;
        before_free = paid.before_free;
        after = e;
        after_at = rw (sym info) at;
        after_tx = kept.1 tx;
      }

  after_prepare-cases :
      (args : BuildTxArgs) (key : Text) (w : World p)
      → is_empty args.bind ≡ false
      → let w' = ((attempt (prepare_swap p args) >>= after_prepare p key) w).1 in
        (w'.sent ≡ w.sent) ⊎ IsPaidOut p args w w'
  unfolding attempt after_prepare crash
  after_prepare-cases args key w b = go (prepare_swap p args w).0 refl
    where
      U : IsFrame {p = p} IsUnsent
      U = IsUnsent-IsFrame p

      go :
          (r : Result Err (p.SignedTx × Text × Text × BuildTxArgs))
          → (prepare_swap p args w).0 ≡ r
          → let w' = ((attempt (prepare_swap p args) >>= after_prepare p key) w).1 in
            (w'.sent ≡ w.sent) ⊎ IsPaidOut p args w w'
      go (ok r) q =
          rw q (inr (finish_swap-paid args r w _ b (prepare_swap-ok p laws signs args w r b q)))
      go (err e) q = inl (
          rw q
            ((Within-bind U _ _ (delete_cached_swap-IsUnsent p key)
                (λ u. Within-fail U (Unit {0}) e)).at
              (prepare_swap p args w).1).sent
          ∙ ((prepare_swap-IsUnsent p args).at w).sent)
      go panic q = inl (rw q (((prepare_swap-IsUnsent p args).at w).sent))

  -- doSwap hands a transaction to SendTransaction only for a swap whose result is in the database and
  -- has no transaction yet, by nonce, hash, height or earlier hashes; and then that result has a
  -- transaction hash afterwards. The bind address is not empty; the writes are atomic; and a signed
  -- transaction comes with its hash.
  pub do_swap_sends :
      (args : BuildTxArgs) (w : World p)
      → is_empty args.bind ≡ false
      → let w' = (do_swap p args w).1 in (w'.sent ≡ w.sent) ⊎ IsPaidOut p args w w'
  unfolding do_swap
  do_swap_sends args w b =
      let key = get_swap_cache_key (is_swapin_type args.swap_type) args.swap_id args.bind in
      let check = check_and_update_cache p key in
      let quiet = (check_and_update_cache-IsQuiet p key).at w in
      elim (>>=_cases check (λ _. attempt (prepare_swap p args) >>= after_prepare p key) w) [
        | inl (u, q, e) ↦ elim (after_prepare-cases args key (check w).1 b) [
          | inl unsent ↦ inl (rw e (unsent ∙ quiet.sent))
          | inr paid ↦ inr (rw e (IsPaidOut-quiet p args w (check w).1 _ quiet paid))
        ]
        | inr (_, _, e) ↦ inl (rw e quiet.sent)
      ]

  still : {a b : Bool} → a ≡ false → (a || not b) ≡ true → b ≡ false
  still {a} {b} h q = ground arith

  refused :
      (args : BuildTxArgs) (u : World p) (e : MgoSwapResult)
      → is_empty args.bind ≡ false
      → result_at p (is_swapin_type args.swap_type) u (args_key args) ≡ some e
      → is_empty e.swap_tx ≡ false
      → (do_swap p args u).1.sent ≡ u.sent
  unfolding is_swapped
  refused args u e b at tx = elim (do_swap_sends args u b) [
    | inl unsent ↦ unsent
    | inr paid ↦
        let same : some paid.before ≡ some e = sym paid.before_at ∙ at in
        let free = paid.before_free in absurd (ground arith)
  ]

  -- After a call of doSwap that sent something, and whatever ordinary writes to the results follow,
  -- of all jobs and in any order, another call of doSwap for the same swap sends nothing.
  pub do_swap_once :
      (args : BuildTxArgs) (w : World p) (cs : List ResultCall) (args' : BuildTxArgs)
      → is_empty args.bind ≡ false
      → (do_swap p args w).1.sent ≢ w.sent
      → All IsOrdinary cs
      → args'.swap_info ≡ args.swap_info
      → let u = run_calls p cs (do_swap p args w).1 in (do_swap p args' u).1.sent ≡ u.sent
  do_swap_once args w cs args' b sent ordinary same = elim (do_swap_sends args w b) [
    | inl unsent ↦ absurd (sent unsent)
    | inr paid ↦
        let w' = (do_swap p args w).1 in
        let dir = is_swapin_type args.swap_type in
        let (e, at, _, tx) =
          run_calls_keep_assigned p laws cs w' dir (args_key args) paid.after ordinary
            (inr paid.after_tx) paid.after_at in
        refused args' (run_calls p cs w') e (rw same b) (rw same at) (still paid.after_tx tx)
  ]
