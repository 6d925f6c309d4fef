-- ===== src/Platform/Frame.antt =====
-- Reasoning about the functions that change the state: what they may change of the state, whatever they
-- return and whatever the services answer.
use cross_chain_bridge.Common.{
  ◌≡◌, ◌⊎◌, inl, inr, refl, ◌∙◌, Bool, true, false, arith, if◌then◌else◌,
}
use cross_chain_bridge.Common.Exec.{
  Result, ok, err, panic, is_ok, ◌>>=◌, ◌>>◌, pure, fail, crash, attempt, gets, lift,
}
use cross_chain_bridge.Tokens.Errors.{Err}
use cross_chain_bridge.Platform.{Platform, World, M, call, call_result, now}

-- The swap results, the transactions sent, the loops started and the configuration have not changed.
pub record IsQuiet {p : Platform} (w w' : World p) : Type 0 where
  pub config : w'.config ≡ w.config
  pub sent : w'.sent ≡ w.sent
  pub send_loops : w'.send_loops ≡ w.send_loops
  pub swapin_result : w'.swapin_result ≡ w.swapin_result
  pub swapout_result : w'.swapout_result ≡ w.swapout_result

-- A relation between a state and a later one that quiet changes are in.
pub record IsFrame {p : Platform} (R : World p → World p → Type 0) : Type 0 where
  pub quiet : (w w' : World p) → IsQuiet w w' → R w w'
  pub trans : (u v w : World p) → R u v → R v w → R u w

pub IsQuiet-refl : {p : Platform} (w : World p) → IsQuiet w w
IsQuiet-refl w = record {
  config = refl;
  sent = refl;
  send_loops = refl;
  swapin_result = refl;
  swapout_result = refl;
}

pub IsQuiet-IsFrame : (p : Platform) → IsFrame {p = p} IsQuiet
IsQuiet-IsFrame p = record {
  quiet = λ w w' q. q;
  trans = λ u v w q r. record {
    config = r.config ∙ q.config;
    sent = r.sent ∙ q.sent;
    send_loops = r.send_loops ∙ q.send_loops;
    swapin_result = r.swapin_result ∙ q.swapin_result;
    swapout_result = r.swapout_result ∙ q.swapout_result;
  };
}

-- Nothing has been sent and no loop started between the two states.
pub record IsUnsent {p : Platform} (w w' : World p) : Type 0 where
  pub sent : w'.sent ≡ w.sent
  pub send_loops : w'.send_loops ≡ w.send_loops

pub IsUnsent-IsFrame : (p : Platform) → IsFrame {p = p} IsUnsent
IsUnsent-IsFrame p = record {
  quiet = λ w w' q. record { sent = q.sent; send_loops = q.send_loops };
  trans = λ u v w q r. record { sent = r.sent ∙ q.sent; send_loops = r.send_loops ∙ q.send_loops };
}

-- The outcome of a chain of two actions: the second runs after the first, or the first fails.
pub >>=_cases :
    {E S A B : Type 0} (m : S → Result E A × S) (f : A → S → Result E B × S) (s : S)
    → ((a : A) × ((m s).0 ≡ ok a) × ((m >>= f) s ≡ f a (m s).1))
      ⊎ ((is_ok (m s).0 ≡ false) × (is_ok ((m >>= f) s).0 ≡ false) × (((m >>= f) s).1 ≡ (m s).1))
>>=_cases {E} {S} {A} {B} m f s = go (m s).0 refl
  where
    go :
        (r : Result E A)
        → (m s).0 ≡ r
        → ((a : A) × ((m s).0 ≡ ok a) × ((m >>= f) s ≡ f a (m s).1))
          ⊎ ((is_ok (m s).0 ≡ false)
              × (is_ok ((m >>= f) s).0 ≡ false)
              × (((m >>= f) s).1 ≡ (m s).1))
    go (ok a) q = inl (a, q, rw q)
    go (err e) q = inr (rw q, rw q, rw q)
    go panic q = inr (rw q, rw q, rw q)

-- A second action that returned follows a first one that did.
pub after_ok :
    (p : Platform) {A B : Type 0} (m : M p A) (f : A → M p B) (w : World p) (b : B)
    → ((m >>= f) w).0 ≡ ok b
    → (a : A) × ((m w).0 ≡ ok a) × ((m >>= f) w ≡ f a (m w).1)
after_ok p m f w b h = elim (>>=_cases m f w) [
  | inl r ↦ r
  | inr (_, failed, _) ↦ absurd (ground arith)
]

-- An action with an error at its end does not return.
pub then_fails :
    (p : Platform) {A : Type 0} (B : Type 0) (m : M p A) (e : Err) (w : World p)
    → is_ok ((m >> fail {A = B} e) w).0 ≡ false
unfolding fail
then_fails p B m e w = elim (>>=_cases {B = B} m (λ _. fail e) w) [
  | inl (a, q, r) ↦ rw r refl
  | inr (_, r, _) ↦ r
]

-- Whatever the action does, it stays within the relation.
pub record Within {p : Platform} {A : Type 0} (R : World p → World p → Type 0) (m : M p A)
    : Type 0 where
  pub at : (w : World p) → R w (m w).1

module _ {p : Platform} {R : World p → World p → Type 0} (frame : IsFrame R) where
  within_refl : (w : World p) → R w w
  within_refl w = frame.quiet w w (IsQuiet-refl w)

  -- An action that is quiet is within every frame.
  pub Within-quiet : {A : Type 0} (m : M p A) → Within IsQuiet m → Within R m
  Within-quiet m h = record { at = λ w. frame.quiet w _ (h.at w) }

  pub Within-pure : {A : Type 0} (a : A) → Within R (pure a)
  unfolding pure
  Within-pure a = record { at = within_refl }

  pub Within-fail : (A : Type 0) (e : Err) → Within {A = A} R (fail e)
  unfolding fail
  Within-fail A e = record { at = within_refl }

  pub Within-crash : (A : Type 0) → Within {A = A} R crash
  unfolding crash
  Within-crash A = record { at = within_refl }

  pub Within-gets : {A : Type 0} (f : World p → A) → Within R (gets f)
  unfolding gets
  Within-gets f = record { at = within_refl }

  pub Within-lift : {A : Type 0} (r : Result Err A) → Within R (lift r)
  unfolding lift
  Within-lift r = record { at = within_refl }

  pub Within-attempt : {A : Type 0} (m : M p A) → Within R m → Within R (attempt m)
  unfolding attempt
  Within-attempt m h = record { at = λ w. h.at w }

  pub Within-call : {A : Type 0} (f : p.Env → A × p.Env) → Within R (call p f)
  unfolding call
  Within-call f = record {
    at = λ w. frame.quiet w _ (record {
      config = refl;
      sent = refl;
      send_loops = refl;
      swapin_result = refl;
      swapout_result = refl;
    });
  }

  pub Within-call_result :
      {A : Type 0} (f : p.Env → Result Err A × p.Env) → Within R (call_result p f)
  unfolding call_result
  Within-call_result f = record {
    at = λ w. frame.quiet w _ (record {
      config = refl;
      sent = refl;
      send_loops = refl;
      swapin_result = refl;
      swapout_result = refl;
    });
  }

  pub Within-now : Within R (now p)
  unfolding now
  Within-now = Within-call p.clock

  pub Within-bind :
      {A B : Type 0} (m : M p A) (f : A → M p B)
      → Within R m
      → ((a : A) → Within R (f a))
      → Within R (m >>= f)
  Within-bind m f hm hf = record {
    at = λ w. elim (>>=_cases m f w) [
      | inl (a, q, e) ↦ rw e (frame.trans w _ _ (hm.at w) ((hf a).at (m w).1))
      | inr (_, _, e) ↦ rw e (hm.at w)
    ];
  }

  pub Within-if :
      {A : Type 0} (b : Bool) (m n : M p A)
      → Within R m
      → Within R n
      → Within R (if b then m else n)
  Within-if true m n hm hn = hm
  Within-if false m n hm hn = hn
