-- ===== src/Bitcoin/Memo.antt =====
-- GetBindAddressFromMemoScipt of tokens/btc/verifytx.go, with the hexadecimal functions of
-- common/bytes.go that it calls. A script is the text that the server prints for it.
pub mod RoundTrip
use cross_chain_bridge.Common.{
  ℕ, zero, suc, ◌+◌, ◌-◌, ◌*◌, ◌/◌, ◌%◌, ◌==◌, Bool, true, false, not, ◌&&◌, ◌||◌, Option, none,
  some, List, [], ◌∷◌, ◌++◌, Text, lit, text_eq, length, leb, ltb, if◌then◌else◌,
}

-- The value of a hexadecimal digit.
unfoldable pub hex_value : ℕ → Option ℕ
hex_value c =
    if leb b'0' c && leb c b'9'
    then some (c - b'0')
    else if leb b'a' c && leb c b'f'
    then some (c - b'a' + 10)
    else if leb b'A' c && leb c b'F'
    then some (c - b'A' + 10)
    else none

hex_pair : Option ℕ → Option ℕ → Option ℕ
hex_pair (some h) (some l) = some (h * 16 + l)
hex_pair _ _ = none

-- Hex2Bytes: hex.DecodeString gives the bytes in front of the first pair that is no byte.
unfoldable pub hex2_bytes : Text → Text
unfolding hex_value hex_pair
hex2_bytes [] = []
hex2_bytes (c ∷ []) = []
hex2_bytes (c ∷ d ∷ cs) =
    let rest = hex2_bytes cs in
    elim (hex_pair (hex_value c) (hex_value d)) [ some v ↦ v ∷ rest | none ↦ [] ]

unfoldable pub without_hex_prefix : Text → Text
without_hex_prefix (c ∷ d ∷ cs) = if c == b'0' && (d == b'x' || d == b'X') then cs else c ∷ d ∷ cs
without_hex_prefix cs = cs

-- FromHex
unfoldable pub from_hex : Text → Text
unfolding without_hex_prefix hex2_bytes
from_hex s =
    let t = without_hex_prefix s in
    if length t % 2 == 1 then hex2_bytes (b'0' ∷ t) else hex2_bytes t

-- What is left of a text behind a prefix.
unfoldable pub strip_prefix : Text → Text → Option Text
strip_prefix [] cs = some cs
strip_prefix (p ∷ ps) [] = none
strip_prefix (p ∷ ps) (c ∷ cs) = if p == c then strip_prefix ps cs else none

-- `\d* `: the digits, and a space behind them.
unfoldable pub strip_digits : Text → Option Text
strip_digits [] = none
strip_digits (c ∷ cs) =
    if leb b'0' c && leb c b'9' then strip_digits cs else if c == b' ' then some cs else none

-- What regexMemo.Split leaves behind its match at the start of the script.
unfoldable pub split_memo : Text → Option Text
unfolding strip_prefix strip_digits lit
split_memo script = elim (strip_prefix (lit "OP_RETURN OP_PUSHBYTES_") script) [
  | none ↦ none
  | some cs ↦ strip_digits cs
]

is_space : ℕ → Bool
is_space c = c == b' ' || leb 9 c && leb c 13

trim_left : Text → Text
unfolding is_space
trim_left [] = []
trim_left (c ∷ cs) = if is_space c then trim_left cs else c ∷ cs

-- The text without the spaces at its end.
trim_right : Text → Text
unfolding is_space
trim_right [] = []
trim_right (c ∷ cs) = elim (trim_right cs) [
  | [] ↦ if is_space c then [] else c ∷ []
  | d ∷ ds ↦ c ∷ d ∷ ds
]

-- strings.TrimSpace
unfoldable pub trim_space : Text → Text
unfolding trim_left trim_right
trim_space s = trim_right (trim_left s)

abbrev pub lock_memo_prefix : Text
lock_memo_prefix = lit "SWAPTO:"

abbrev pub aggregate_memo : Text
aggregate_memo = lit "aggregate"

-- The bind address of a memo.
unfoldable pub bind_of_memo : Text → Option Text
unfolding strip_prefix lit text_eq
bind_of_memo memo =
    if text_eq memo aggregate_memo
    then none
    else if leb (length memo) (length lock_memo_prefix)
    then none
    else strip_prefix lock_memo_prefix memo

-- GetBindAddressFromMemoScipt: the bind address, or not ok.
unfoldable pub get_bind_address_from_memo_script : Text → Option Text
unfolding trim_space from_hex bind_of_memo
get_bind_address_from_memo_script script = elim (split_memo script) [
  | none ↦ none
  | some rest ↦ bind_of_memo (from_hex (trim_space rest))
]
