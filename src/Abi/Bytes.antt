-- ===== src/Abi/Bytes.antt =====
-- Byte strings: slices, copies, and numbers in them (common/utils.go, LeftPadBytes and RightPadBytes of
-- common/bytes.go, and the Bytes and SetBytes of math/big).
use cross_chain_bridge.Common.{
  ℕ, zero, suc, ◌+◌, ◌-◌, ◌*◌, ◌/◌, ◌%◌, ◌^◌, ◌==◌, Bool, ◌||◌, Option, none, some, List, [], ◌∷◌,
  ◌++◌, Text, length, leb, if◌then◌else◌,
}

module _ {A : Type 0} where
  unfoldable pub take : ℕ → List A → List A
  take zero xs = []
  take (suc n) [] = []
  take (suc n) (x ∷ xs) = x ∷ take n xs

  unfoldable pub drop : ℕ → List A → List A
  drop zero xs = xs
  drop (suc n) [] = []
  drop (suc n) (x ∷ xs) = drop n xs

  unfoldable pub replicate : ℕ → A → List A
  replicate zero a = []
  replicate (suc n) a = a ∷ replicate n a

  -- copy(bs[k:], w): as much of `w` as there is room for.
  unfoldable pub write_at : ℕ → List A → List A → List A
  write_at zero [] bs = bs
  write_at zero (x ∷ w) [] = []
  write_at zero (x ∷ w) (b ∷ bs) = x ∷ write_at zero w bs
  write_at (suc k) w [] = []
  write_at (suc k) w (b ∷ bs) = b ∷ write_at k w bs

-- make([]byte, n)
abbrev pub zeros : ℕ → Text
zeros n = replicate n 0

-- LeftPadBytes, RightPadBytes
unfoldable pub left_pad_bytes : Text → ℕ → Text
unfolding replicate
left_pad_bytes s l = if leb l (length s) then s else replicate (l - length s) 0 ++ s

unfoldable pub right_pad_bytes : Text → ℕ → Text
unfolding replicate
right_pad_bytes s l = if leb l (length s) then s else s ++ replicate (l - length s) 0

-- big.Int's SetBytes, behind what was read before.
unfoldable pub set_bytes_from : ℕ → Text → ℕ
set_bytes_from n [] = n
set_bytes_from n (b ∷ bs) = set_bytes_from (n * 256 + b) bs

unfoldable pub set_bytes : Text → ℕ
unfolding set_bytes_from
set_bytes bs = set_bytes_from 0 bs

-- big.Int's Bytes, in front of what follows; a number has fewer bytes than its value and one more.
unfoldable pub big_bytes_loop : ℕ → ℕ → Text → Text
big_bytes_loop zero n bs = bs
big_bytes_loop (suc fuel) n bs =
    let rest = big_bytes_loop fuel (n / 256) ((n % 256) ∷ bs) in if n == 0 then bs else rest

unfoldable pub big_bytes : ℕ → Text
unfolding big_bytes_loop
big_bytes n = big_bytes_loop (suc n) n []

-- uint64 addition and multiplication
abbrev pub add_u64 : ℕ → ℕ → ℕ
add_u64 a b = (a + b) % 2 ^ 64

abbrev pub mul_u64 : ℕ → ℕ → ℕ
mul_u64 a b = a * b % 2 ^ 64

abbrev pub min_ℕ : ℕ → ℕ → ℕ
min_ℕ a b = if leb a b then a else b

-- data[start:end] of a slice that ends at its capacity: a run-time panic when end < start.
unfoldable pub slice : Text → ℕ → ℕ → Option Text
unfolding take drop
slice bs start end = if leb start end then some (take (end - start) (drop start bs)) else none

-- GetData. The end of the data is a uint64 sum, so it may wrap round and lie before the start, which
-- panics. A size is an int where it is padded to, so one from 2 ^ 63 on is negative.
unfoldable pub get_data : Text → ℕ → ℕ → Option Text
unfolding slice right_pad_bytes
get_data bs start size =
    let first = min_ℕ start (length bs) in
    let last = min_ℕ (add_u64 first size) (length bs) in
    elim (slice bs first last) [
      | none ↦ none
      | some s ↦ some (if leb (2 ^ 63) size then s else right_pad_bytes s size)
    ]

-- GetBigInt, with the same sum.
unfoldable pub get_big_int : Text → ℕ → ℕ → Option ℕ
unfolding slice set_bytes
get_big_int bs start size =
    if leb (length bs) start || size == 0
    then some 0
    else elim (slice bs start (min_ℕ (add_u64 start size) (length bs))) [
      | none ↦ none
      | some s ↦ some (set_bytes s)
    ]

-- GetUint64: the number modulo 2 ^ 64, and whether it overflows.
unfoldable pub get_uint64 : Text → ℕ → ℕ → Option (ℕ × Bool)
get_uint64 bs start size = elim (get_big_int bs start size) [
  | none ↦ none
  | some n ↦ some (n % 2 ^ 64, leb (2 ^ 64) n)
]
