-- ===== src/Abi/Words.antt =====
-- The words of encoded data, read as a big.Int and as a uint64 (common/utils.go).
use cross_chain_bridge.Common.{
  ℕ, ◌-◌, ◌%◌, ◌^◌, ◌<◌, ◌≡◌, refl, true, false, some, Text, length, leb, Bool-cases, inl, inr,
  arith,
}
use cross_chain_bridge.Common.Exec.{ok}
use cross_chain_bridge.Tokens.Errors.{Err}
use cross_chain_bridge.Abi.Bytes.{
  take, drop, slice, set_bytes, get_uint64, get_big_int, add_u64, min_ℕ,
}
use cross_chain_bridge.Abi.Parse.{word}

-- A word that fits in a uint64.
get_uint64-some :
    (enc : Text) (at' n : ℕ)
    → get_big_int enc at' 32 ≡ some n
    → n < 2 ^ 64
    → get_uint64 enc at' 32 ≡ some (n, false)
unfolding get_uint64
get_uint64-some enc at' n q h =
    let fits : n % 2 ^ 64 ≡ n = omega (arith, h) in
    let short : leb (2 ^ 64) n ≡ false = ground (arith, h) in rw (get_uint64, q, fits, short) refl

pub word-some :
    (e : Err) (enc : Text) (at' n : ℕ)
    → get_big_int enc at' 32 ≡ some n
    → n < 2 ^ 64
    → word e enc at' ≡ ok n
unfolding word
word-some e enc at' n q h = rw (word, get_uint64-some enc at' n q h) refl

slice-starts : (bs : Text) (n : ℕ) → slice bs 0 n ≡ some (take n bs)
unfolding slice drop
slice-starts bs n =
    let low : leb 0 n ≡ true = ground arith in
    let whole : n - 0 ≡ n = omega arith in rw (low, whole) refl

-- A number at the start of the data.
pub get_big_int-starts : (bs : Text) → (v : ℕ) × (get_big_int bs 0 32 ≡ some v)
unfolding get_big_int
get_big_int-starts bs = elim (Bool-cases (leb (length bs) 0)) [
  | inl no_data ↦ (0, rw no_data refl)
  | inr more ↦
      let m = min_ℕ (add_u64 0 32) (length bs) in
      (set_bytes (take m bs), rw (more, slice-starts bs m) refl)
]
