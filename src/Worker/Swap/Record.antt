-- ===== src/Worker/Swap/Record.antt =====
-- What prepareSwap leaves when it returns a transaction: the result it paid out was read, tested and
-- given the transaction.
use cross_chain_bridge.Common.{
  ℕ, ◌≡◌, refl, sym, ◌∙◌, Bool, true, false, not, some, Text, is_empty, to_lower, text_eq_refl,
  arith, Bool-cases, inl, inr,
}
use cross_chain_bridge.Common.Exec.{ok, is_ok, pure, ◌>>=◌}
use cross_chain_bridge.Tokens.Types.{
  BuildTxArgs, SwapType, no_swap_type, swapin_type, swapout_type, is_swapin_type, get_tx_nonce,
}
use cross_chain_bridge.Platform.{Platform, World, M, call, now}
use cross_chain_bridge.Platform.Database.{IsAtomic}
use cross_chain_bridge.Platform.Frame.{
  after_ok, IsUnsent, IsUnsent-IsFrame, IsQuiet, IsQuiet-IsFrame, Within, IsFrame, Within-bind,
  Within-pure, Within-call_result, Within-quiet, >>=_cases,
}
use cross_chain_bridge.Mongodb.Documents.{
  MgoSwapResult, SwapResultUpdateItems, get_swap_key, get_swap_key-to_lower,
}
use cross_chain_bridge.Mongodb.Access.{result_at}
use cross_chain_bridge.Mongodb.Results.Assignment.{quiet_at}
use cross_chain_bridge.Mongodb.Results.{with_items, assigns, update_swap_result as store_update}
use cross_chain_bridge.Mongodb.Results.Assignment.{
  find_swap_result_cases, update_swap_result-assigns,
}
use cross_chain_bridge.Mongodb.Results.Unsent.{find_swap_result-IsQuiet}
use cross_chain_bridge.Worker.Updates.{match_items, update_by_type, update_swap_result}
use cross_chain_bridge.Worker.Updates.Unsent.{update_swap_result-IsUnsent}
use cross_chain_bridge.Worker.Prevent.{prevent_reswap, is_swapped}
use cross_chain_bridge.Worker.Prevent.Quiet.{prevent_reswap-IsQuiet, prevent_reswap-is_swapped}
use cross_chain_bridge.Worker.Swap.{
  sign_built, built_args, record_signed, recorded_value, sent_match, write_match, record_in,
  record_swap, prepare_swap,
}
use cross_chain_bridge.Worker.Swap.Prepare.{sign-IsUnsent, recorded_value-IsQuiet}

-- The key of the swap that a payment is for.
abbrev pub args_key : BuildTxArgs → Text
args_key args = get_swap_key args.swap_id args.pair_id args.bind

module _ (p : Platform) where
  Q : IsFrame {p = p} IsQuiet
  Q = IsQuiet-IsFrame p

  U : IsFrame {p = p} IsUnsent
  U = IsUnsent-IsFrame p

  write_match-IsUnsent :
      (args : BuildTxArgs) (hash value : Text) → Within IsUnsent (write_match p args hash value)
  unfolding write_match
  write_match-IsUnsent args hash value =
      Within-bind U _ _ (update_swap_result-IsUnsent p args.swap_id args.pair_id args.bind _)
        λ u. Within-pure U value

  record_swap-IsUnsent :
      (args : BuildTxArgs) (hash : Text) → Within IsUnsent (record_swap p args hash)
  unfolding record_swap record_in
  record_swap-IsUnsent args hash =
      Within-bind U _ _
        (Within-quiet U _ (
          find_swap_result-IsQuiet p (is_swapin_type args.swap_type) args.swap_id args.pair_id
            args.bind))
        λ res.
          Within-bind U _ _
            (Within-quiet U _ (prevent_reswap-IsQuiet p (is_swapin_type args.swap_type) res))
            λ u.
              Within-bind U _ _ (Within-quiet U _ (recorded_value-IsQuiet p args res))
                λ value. write_match-IsUnsent args hash value

  pub prepare_swap-IsUnsent : (args : BuildTxArgs) → Within IsUnsent (prepare_swap p args)
  unfolding prepare_swap sign_built record_signed
  prepare_swap-IsUnsent args =
      Within-bind U _ _
        (Within-call_result U (p.build_raw_transaction (not (is_swapin_type args.swap_type)) args))
        λ built. Within-bind U _ _ (sign-IsUnsent p (built_args p args built) built.0) λ signed.
          Within-bind U _ _ (record_swap-IsUnsent (built_args p args built) signed.1)
            λ value. Within-pure U _

-- The result under a key, without a transaction before, and with the one given in a later state.
pub record IsPaidBy (p : Platform) (args : BuildTxArgs) (hash : Text) (w w' : World p)
    : Type 0 where
  pub before : MgoSwapResult
  pub before_at : result_at p (is_swapin_type args.swap_type) w (args_key args) ≡ some before
  pub before_free : is_swapped before ≡ false
  pub after : MgoSwapResult
  pub after_at : result_at p (is_swapin_type args.swap_type) w' (args_key args) ≡ some after
  pub after_tx : after.swap_tx ≡ hash
  pub after_nonce : after.swap_nonce ≡ get_tx_nonce args

module _ (p : Platform) (laws : IsAtomic p.results) where
  store_update-assigns :
      (is_swapin : Bool) (tx_id pair_id bind : Text) (items : SwapResultUpdateItems) (w : World p)
      → is_empty bind ≡ false
      → assigns items ≡ true
      → is_ok (store_update p is_swapin tx_id pair_id bind items w).0 ≡ true
      → let key = get_swap_key tx_id pair_id bind in
        let w' = (store_update p is_swapin tx_id pair_id bind items w).1 in
        (d : MgoSwapResult) × (result_at p is_swapin w key ≡ some d)
        × (result_at p is_swapin w' key ≡ some (with_items items d))
  store_update-assigns is_swapin tx_id pair_id bind items w b a h =
      let (d, at, _, changed) =
        update_swap_result-assigns p laws w is_swapin tx_id pair_id bind items b a h in
      let same = get_swap_key-to_lower tx_id pair_id bind in
      let here = changed (get_swap_key tx_id (to_lower pair_id) bind) in
      (
        d,
        rw (sym same) at,
        rw (sym same)
            (here ∙ rw (text_eq_refl (get_swap_key tx_id (to_lower pair_id) bind), at) refl),
      )

  update_by_type-assigns :
      (s : SwapType) (tx_id pair_id bind : Text) (items : SwapResultUpdateItems) (w : World p)
      → is_empty bind ≡ false
      → assigns items ≡ true
      → is_ok (update_by_type p s tx_id pair_id bind items w).0 ≡ true
      → let key = get_swap_key tx_id pair_id bind in
        let dir = is_swapin_type s in
        let w' = (update_by_type p s tx_id pair_id bind items w).1 in
        (d : MgoSwapResult) × (result_at p dir w key ≡ some d)
        × (result_at p dir w' key ≡ some (with_items items d))
  unfolding update_by_type
  update_by_type-assigns swapin_type tx_id pair_id bind items w b a h =
      store_update-assigns true tx_id pair_id bind items w b a h
  update_by_type-assigns swapout_type tx_id pair_id bind items w b a h =
      store_update-assigns false tx_id pair_id bind items w b a h
  update_by_type-assigns no_swap_type tx_id pair_id bind items w b a h = absurd (ground arith)

  with_match :
      (args : BuildTxArgs) (hash value : Text) (t : ℕ) (d : MgoSwapResult)
      → is_empty hash ≡ false
      → let items = match_items (sent_match p args hash value) t in
        ((with_items items d).swap_tx ≡ hash)
        × (d.swap_nonce ≡ 0 → (with_items items d).swap_nonce ≡ get_tx_nonce args)
  unfolding match_items sent_match with_items
  with_match args hash value t d h = ground arith

  match_assigns :
      (args : BuildTxArgs) (hash value : Text) (t : ℕ)
      → is_empty hash ≡ false
      → assigns (match_items (sent_match p args hash value) t) ≡ true
  unfolding match_items sent_match assigns
  match_assigns args hash value t h = ground arith

  update_match-ok :
      (args : BuildTxArgs) (hash value : Text) (w : World p)
      → is_empty args.bind ≡ false
      → is_empty hash ≡ false
      → is_ok
          (update_swap_result p args.swap_id args.pair_id args.bind
            (sent_match p args hash value)
            w).0
        ≡ true
      → (d : MgoSwapResult) × (result_at p (is_swapin_type args.swap_type) w (args_key args)
          ≡ some d)
        × (is_swapped d ≡ false
            → IsPaidBy p args hash w
                (update_swap_result p args.swap_id args.pair_id args.bind
                  (sent_match p args hash value)
                  w).1)
  unfolding update_swap_result now call sent_match is_swapped
  update_match-ok args hash value w b n h =
      let t = (p.clock w.env).0 in
      let items = match_items (sent_match p args hash value) t in
      let (d, at, changed) =
        update_by_type-assigns args.swap_type args.swap_id args.pair_id args.bind items
          (record w { env = (p.clock w.env).1 }) b (match_assigns args hash value t n) h in
      let facts = with_match args hash value t d n in
      (
        d,
        at,
        λ free. record {
          before = d;
          before_at = at;
          before_free = free;
          after = with_items items d;
          after_at = changed;
          after_tx = facts.0;
          after_nonce = facts.1 (ground arith);
        },
      )

  found_paid :
      (args : BuildTxArgs) (hash value : Text) (u w : World p) (res : MgoSwapResult)
      → is_empty args.bind ≡ false
      → is_empty hash ≡ false
      → IsQuiet w u
      → result_at p (is_swapin_type args.swap_type) w (args_key args) ≡ some res
      → is_swapped res ≡ false
      → is_ok (write_match p args hash value u).0 ≡ true
      → IsPaidBy p args hash w (write_match p args hash value u).1
  unfolding write_match pure
  found_paid args hash value u w res b n q at free h =
      elim (>>=_cases
        (update_swap_result p args.swap_id args.pair_id args.bind (sent_match p args hash value))
        (λ _. pure value) u) [
          | inl (a, ran, e) ↦
              let (d, there, paid) = update_match-ok args hash value u b n (rw ran refl) in
              let same : some d ≡ some res =
                sym there ∙ quiet_at p (is_swapin_type args.swap_type) w u (args_key args) q ∙ at in
              let r = paid (ground arith) in
              rw e (record {
                before = res;
                before_at = at;
                before_free = free;
                after = r.after;
                after_at = r.after_at;
                after_tx = r.after_tx;
                after_nonce = r.after_nonce;
              })
          | inr (_, failed, _) ↦ absurd (ground arith)
        ]

  prevent_reswap-ok :
      (is_swapin : Bool) (res : MgoSwapResult) (w : World p)
      → is_ok (prevent_reswap p is_swapin res w).0 ≡ true
      → is_swapped res ≡ false
  prevent_reswap-ok is_swapin res w h = elim (Bool-cases (is_swapped res)) [
    | inl swapped ↦
        let refused = prevent_reswap-is_swapped p is_swapin res w swapped in absurd (ground arith)
    | inr free ↦ free
  ]

  record_in-ok :
      (args : BuildTxArgs) (hash : Text) (res : MgoSwapResult) (w : World p) (value : Text)
      → is_empty args.bind ≡ false
      → is_empty hash ≡ false
      → result_at p (is_swapin_type args.swap_type) w (args_key args) ≡ some res
      → (record_in p args hash res w).0 ≡ ok value
      → IsPaidBy p args hash w (record_in p args hash res w).1
  unfolding record_in
  record_in-ok args hash res w value b n at h =
      let dir = is_swapin_type args.swap_type in
      let first = prevent_reswap p dir res in
      let second : M p Text = (recorded_value p args res) >>= (write_match p args hash) in
      let (u, passed, e1) = after_ok p first (λ _. second) w value h in
      let w1 = (first w).1 in
      let (v, valued, e2) =
        after_ok p (recorded_value p args res) (write_match p args hash) w1 value (rw (sym e1) h) in
      let w2 = (recorded_value p args res w1).1 in
      let quiet =
        (Q p).trans w w1 w2 ((prevent_reswap-IsQuiet p dir res).at w)
          ((recorded_value-IsQuiet p args res).at w1) in
      rw (e1, e2)
        (found_paid args hash v w2 w res b n quiet at (prevent_reswap-ok dir res w (rw passed refl))
          (ground arith))

  pub record_swap-ok :
      (args : BuildTxArgs) (hash : Text) (w : World p) (value : Text)
      → is_empty args.bind ≡ false
      → is_empty hash ≡ false
      → (record_swap p args hash w).0 ≡ ok value
      → IsPaidBy p args hash w (record_swap p args hash w).1
  unfolding record_swap
  record_swap-ok args hash w value b n h =
      elim (find_swap_result_cases p laws w (is_swapin_type args.swap_type) args.swap_id
        args.pair_id args.bind b) [
          | inl (e, q) ↦ absurd (ground arith)
          | inr (d, q, at) ↦ rw q (record_in-ok args hash d w value b n at (rw q at h))
        ]
