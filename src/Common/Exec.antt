-- ===== src/Common/Exec.antt =====
-- Go functions that change the state of the process or call a service, and that may return an
-- error. What was written before an error stays written, so the state comes back beside it. A
-- run-time panic, such as the use of a nil pointer, ends the chain of calls and is no error value.
use mathlib.Core.Path.{◌≡◌, refl}
use mathlib.Core.Bool.{Bool, true, false}

pub data Result (E A : Type 0) : Type 0 where
  ok : A → Result E A
  err : E → Result E A
  panic : Result E A

abbrev pub is_ok : {E A : Type 0} → Result E A → Bool
is_ok (ok a) = true
is_ok (err e) = false
is_ok panic = false

abbrev pub is_err : {E A : Type 0} → Result E A → Bool
is_err (ok a) = false
is_err (err e) = true
is_err panic = false

abbrev pub Exec : Type 0 → Type 0 → Type 0 → Type 0
Exec E S A = S → Result E A × S

unfoldable pub attempted : {E A : Type 0} → Result E A → Result E (Result E A)
attempted (ok a) = ok (ok a)
attempted (err e) = ok (err e)
attempted panic = panic

module _ {E S A : Type 0} where
  unfoldable pub pure : A → Exec E S A
  pure a s = (ok a, s)

  unfoldable pub fail : E → Exec E S A
  fail e s = (err e, s)

  unfoldable pub crash : Exec E S A
  crash s = (panic, s)

  -- Runs an action for its effect and hands its outcome on as a value: `x, err := f()`, `_ = f()`.
  unfoldable pub attempt : Exec E S A → Exec E S (Result E A)
  unfolding attempted
  attempt m s = (attempted (m s).0, (m s).1)

  unfoldable pub gets : (S → A) → Exec E S A
  gets f s = (ok (f s), s)

  unfoldable pub lift : Result E A → Exec E S A
  lift r s = (r, s)

module _ {E S : Type 0} where
  unfoldable pub modify : (S → S) → Exec E S (Unit {0})
  modify f s = (ok tt, f s)

module _ {E S A B : Type 0} where
  -- What follows an action, given its outcome.
  abbrev pub after : Result E A → (A → Exec E S B) → Exec E S B
  after (ok a) f s = f a s
  after (err e) f s = (err e, s)
  after panic f s = (panic, s)

  infixl 5 ◌>>=◌ ◌>>◌
  abbrev pub ◌>>=◌ : Exec E S A → (A → Exec E S B) → Exec E S B
  ◌>>=◌ m f s = after (m s).0 f (m s).1

  abbrev pub ◌>>◌ : Exec E S A → Exec E S B → Exec E S B
  ◌>>◌ m n = m >>= λ _. n

  -- The parts of a chain that gives a value.
  pub >>=-ok :
      (m : Exec E S A) (f : A → Exec E S B) (s : S) (b : B)
      → ((m >>= f) s).0 ≡ ok b
      → (a : A) × ((m s).0 ≡ ok a) × ((f a (m s).1).0 ≡ ok b)
  >>=-ok m f s b h = go (m s).0 refl h
    where
      go :
          (r : Result E A)
          → (m s).0 ≡ r
          → (after r f (m s).1).0 ≡ ok b
          → (a : A) × ((m s).0 ≡ ok a) × ((f a (m s).1).0 ≡ ok b)
      go (ok a) e h' = (a, e, h')
      go (err x) e h' = cc
      go panic e h' = cc

module _ {E S A : Type 0} where
  pub attempt-ok : (m : Exec E S A) (s : S) (r : Result E A) → (attempt m s).0 ≡ ok r → (m s).0 ≡ r
  unfolding attempt attempted
  attempt-ok m s r h = go (m s).0 refl h
    where
      go : (x : Result E A) → (m s).0 ≡ x → attempted x ≡ ok r → (m s).0 ≡ r
      go (ok a) e h' = cc
      go (err x) e h' = cc
      go panic e h' = cc
