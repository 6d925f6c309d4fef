-- ===== src/Common/Lists.antt =====
-- Lists measured by native numbers, under the library's names, and membership of a text.
use Prim.Native.Nat.{ℕ, zero, suc}
use mathlib.Core.Path.{◌≡◌, refl}
use mathlib.Core.Bool.{Bool, false, ◌||◌}
use mathlib.Core.List.{List, [], ◌∷◌}
use mathlib.Core.Option.{Option, none, some}
use native.Mathlib.Omega.{arith}
use cross_chain_bridge.Common.Strings.{Text, text_eq, text_eq_iff}
use cross_chain_bridge.Common.Tests.{if◌then◌else◌}

module _ {ℓ} {A : Type ℓ} where
  abbrev pub length : List A → ℕ
  length [] = 0
  length (x ∷ xs) = suc (length xs)

  abbrev pub get_elem? : List A → ℕ → Option A
  get_elem? [] i = none
  get_elem? (x ∷ xs) zero = some x
  get_elem? (x ∷ xs) (suc i) = get_elem? xs i

  abbrev pub All {κ} : (A → Type κ) → List A → Type κ
  All P [] = Unit
  All P (x ∷ xs) = P x × All P xs

-- A set of texts as a list: mapset.Set, or a Go map to struct{}.
unfoldable pub contains : Text → List Text → Bool
contains k [] = false
contains k (x ∷ xs) = text_eq x k || contains k xs

unfoldable pub remove : Text → List Text → List Text
remove k [] = []
remove k (x ∷ xs) = let rest = remove k xs in if text_eq x k then rest else x ∷ rest

pub contains-remove_self : (k : Text) (xs : List Text) → contains k (remove k xs) ≡ false
unfolding contains remove
contains-remove_self k [] = refl
contains-remove_self k (x ∷ xs) = ground (arith, contains-remove_self k xs)

pub contains-remove_ne :
    (j k : Text) (xs : List Text) → text_eq j k ≡ false → contains j (remove k xs) ≡ contains j xs
unfolding contains remove
contains-remove_ne j k [] h = refl
contains-remove_ne j k (x ∷ xs) h =
    ground (arith, contains-remove_ne j k xs h, text_eq_iff x k, text_eq_iff x j, text_eq_iff j k)
