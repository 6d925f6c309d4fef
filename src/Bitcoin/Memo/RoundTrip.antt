-- ===== src/Bitcoin/Memo/RoundTrip.antt =====
-- A memo with a bind address is read back from the script that carries it.
use cross_chain_bridge.Common.{
  ℕ, ◌+◌, ◌-◌, ◌*◌, ◌/◌, ◌%◌, ◌<◌, ◌≤◌, ◌≡◌, refl, ◌∙◌, false, some, [], ◌∷◌, ◌++◌, All, Text, lit,
  length, is_empty, ltb, if◌then◌else◌, arith,
}
use cross_chain_bridge.Bitcoin.Memo.{
  hex_value, hex_pair, hex2_bytes, without_hex_prefix, from_hex, strip_prefix, strip_digits,
  split_memo, is_space, trim_left, trim_right, trim_space, lock_memo_prefix, bind_of_memo,
  get_bind_address_from_memo_script,
}

-- How the server of the chain prints bytes: two lower-case digits for each.
unfoldable pub hex_digit : ℕ → ℕ
hex_digit n = if ltb n 10 then n + b'0' else n - 10 + b'a'

unfoldable pub hex : Text → Text
hex [] = []
hex (c ∷ cs) = hex_digit (c / 16) ∷ hex_digit (c % 16) ∷ hex cs

abbrev pub IsDigit : ℕ → Type 0
IsDigit c = (b'0' ≤ c) × (c ≤ b'9')

abbrev pub IsByte : ℕ → Type 0
IsByte c = c < 256

hex_value-hex_digit : (n : ℕ) → n < 16 → hex_value (hex_digit n) ≡ some n
unfolding hex_value hex_digit
hex_value-hex_digit n h = ground arith

hex2_bytes-hex : (cs : Text) → All IsByte cs → hex2_bytes (hex cs) ≡ cs
unfolding hex2_bytes hex_pair hex
hex2_bytes-hex [] h = refl
hex2_bytes-hex (c ∷ cs) (b, bs) =
    ground (arith, hex_value-hex_digit (c / 16), hex_value-hex_digit (c % 16), hex2_bytes-hex cs bs)

length-hex : (cs : Text) → length (hex cs) ≡ 2 * length cs
unfolding hex
length-hex [] = refl
length-hex (c ∷ cs) = omega (arith, length-hex cs)

is_space-hex_digit : (n : ℕ) → n < 16 → is_space (hex_digit n) ≡ false
unfolding is_space hex_digit
is_space-hex_digit n h = ground arith

strip_prefix-append : (ps cs : Text) → strip_prefix ps (ps ++ cs) ≡ some cs
unfolding strip_prefix
strip_prefix-append [] cs = refl
strip_prefix-append (p ∷ ps) cs = ground (arith, strip_prefix-append ps cs)

strip_digits-append : (ds cs : Text) → All IsDigit ds → strip_digits (ds ++ (b' ' ∷ cs)) ≡ some cs
unfolding strip_digits
strip_digits-append [] cs h = refl
strip_digits-append (d ∷ ds) cs (h, hs) = ground (arith, strip_digits-append ds cs hs)

trim_right-cons :
    (c : ℕ) (cs : Text) → is_space c ≡ false → trim_right cs ≡ cs → trim_right (c ∷ cs) ≡ c ∷ cs
unfolding trim_right
trim_right-cons c [] h e = rw h
trim_right-cons c (d ∷ ds) h e = rw e

trim_right-hex : (cs : Text) → All IsByte cs → trim_right (hex cs) ≡ hex cs
unfolding hex
trim_right-hex [] h = unfold trim_right in refl
trim_right-hex (c ∷ cs) (b, bs) =
    trim_right-cons _ _ (is_space-hex_digit (c / 16) (omega arith))
      (trim_right-cons _ _ (is_space-hex_digit (c % 16) (omega arith)) (trim_right-hex cs bs))

trim_space-hex : (cs : Text) → All IsByte cs → trim_space (hex cs) ≡ hex cs
unfolding trim_space trim_left hex
trim_space-hex [] h = unfold trim_right in refl
trim_space-hex (c ∷ cs) (b, bs) =
    rw (is_space-hex_digit (c / 16) (omega arith)) (trim_right-hex (c ∷ cs) (b, bs))

no_hex_prefix :
    (c n : ℕ) (cs : Text)
    → n < 16
    → without_hex_prefix (c ∷ hex_digit n ∷ cs) ≡ c ∷ hex_digit n ∷ cs
unfolding without_hex_prefix hex_digit
no_hex_prefix c n cs h = ground arith

from_hex-hex : (c : ℕ) (cs : Text) → All IsByte (c ∷ cs) → from_hex (hex (c ∷ cs)) ≡ c ∷ cs
unfolding from_hex hex
from_hex-hex c cs h =
    rw (no_hex_prefix (hex_digit (c / 16)) (c % 16) (hex cs) (omega arith))
      (ground (arith, length-hex cs, hex2_bytes-hex (c ∷ cs) h))

All-append : (cs ds : Text) → All IsByte cs → All IsByte ds → All IsByte (cs ++ ds)
All-append [] ds h k = k
All-append (c ∷ cs) ds (h, hs) k = (h, All-append cs ds hs k)

bind_of_memo-append :
    (bind : Text) → is_empty bind ≡ false → bind_of_memo (lock_memo_prefix ++ bind) ≡ some bind
unfolding bind_of_memo
bind_of_memo-append [] h = cc
bind_of_memo-append (c ∷ cs) h = ground arith

split_memo-append :
    (digits cs : Text)
    → All IsDigit digits
    → split_memo (lit "OP_RETURN OP_PUSHBYTES_" ++ (digits ++ (b' ' ∷ cs))) ≡ some cs
unfolding split_memo
split_memo-append digits cs h = strip_digits-append digits cs h

bind_of_split :
    (script rest : Text)
    → split_memo script ≡ some rest
    → get_bind_address_from_memo_script script ≡ bind_of_memo (from_hex (trim_space rest))
unfolding get_bind_address_from_memo_script split_memo
bind_of_split script rest h = rw h

-- The script that carries the memo "SWAPTO:" with a bind address, as the server prints it, gives that
-- bind address back, if it is not empty.
pub get_bind_address_from_memo_script-lock_memo :
    (digits bind : Text)
    → All IsDigit digits
    → All IsByte bind
    → is_empty bind ≡ false
    → get_bind_address_from_memo_script
        (lit "OP_RETURN OP_PUSHBYTES_" ++ (digits ++ (b' ' ∷ hex (lock_memo_prefix ++ bind))))
      ≡ some bind
unfolding lit
get_bind_address_from_memo_script-lock_memo digits bind h k e =
    let bytes : All IsByte (lock_memo_prefix ++ bind) =
      All-append lock_memo_prefix bind (omega arith) k in
    bind_of_split _ _ (split_memo-append digits (hex (lock_memo_prefix ++ bind)) h)
    ∙ rw
        (
          trim_space-hex (lock_memo_prefix ++ bind) bytes,
          from_hex-hex b'S' (lit "WAPTO:" ++ bind) bytes,
        )
        (bind_of_memo-append bind e)
