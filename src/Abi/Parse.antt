-- ===== src/Abi/Parse.antt =====
-- tokens/eth/abicoder/decode.go: a string, bytes, and slices of words. Positions and lengths are
-- uint64, whose sums wrap round; a run-time panic ends the parse.
use cross_chain_bridge.Common.{ℕ, Option, none, some, Text, lit, length, ltb, if◌then◌else◌}
use cross_chain_bridge.Common.Exec.{Result, ok, err, panic}
use cross_chain_bridge.Tokens.Errors.{Err, message}
use cross_chain_bridge.Abi.Bytes.{get_data, get_uint64, add_u64, mul_u64}

abbrev pub parse_data_error : Err
parse_data_error = message (lit "parse data error")

infixl 5 ◌>>=◌
abbrev pub ◌>>=◌ : {A B : Type 0} → Result Err A → (A → Result Err B) → Result Err B
ok a >>= f = f a
err e >>= f = err e
panic >>= f = panic

abbrev pub or_panic : {A : Type 0} → Option A → Result Err A
or_panic none = panic
or_panic (some a) = ok a

-- A word that is an offset or a length; `e` is the error for one that overflows.
unfoldable pub word : Err → Text → ℕ → Result Err ℕ
word e bs at' = do r ← or_panic (get_uint64 bs at' 32); if r.1 then err e else ok r.0

-- ParseStringInData, ParseBytesInData
unfoldable pub parse_bytes_in_data : Text → ℕ → Result Err Text
parse_bytes_in_data bs at' = do
  offset ← word parse_data_error bs at'
  n ← word parse_data_error bs offset
  if ltb (length bs) (add_u64 (add_u64 offset 32) n)
      then err parse_data_error
      else or_panic (get_data bs (add_u64 offset 32) n)

-- parseSliceInData: where the items start, and their number.
unfoldable pub parse_slice_in_data : Text → ℕ → Result Err (ℕ × ℕ)
parse_slice_in_data bs at' = do
  offset ← word parse_data_error bs at'
  n ← word parse_data_error bs offset
  if ltb (length bs) (add_u64 (add_u64 offset 32) (mul_u64 n 32))
      then err parse_data_error
      else ok (add_u64 offset 32, n)
