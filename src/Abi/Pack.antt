-- ===== src/Abi/Pack.antt =====
-- tokens/eth/abicoder/encode.go. A slice of bytes is a list of their values.
use cross_chain_bridge.Common.{
  ℕ, suc, ◌+◌, ◌*◌, ◌/◌, Option, none, some, List, [], ◌∷◌, ◌++◌, Text, length,
}
use cross_chain_bridge.Common.Int.{ℤ, pos, pos_part, neg_part}
use cross_chain_bridge.Abi.Bytes.{take, replicate, write_at, zeros, left_pad_bytes, big_bytes}

-- The types of arguments that PackData knows; it ends the program at any other. A hash has 32 bytes and
-- an address 20; uint64, int64, int and uint8 are packed as numbers.
pub data Arg : Type 0 where
  hash : Text → Arg
  address : Text → Arg
  big : Option ℤ → Arg
  string : Text → Arg
  bytes : Text → Arg
  number : ℤ → Arg
  addresses : List Text → Arg
  bigs : List (Option ℤ) → Arg
  strings : List Text → Arg
  bytes_list : List Text → Arg

-- packBigInt: big.Int's Bytes are those of the absolute value.
unfoldable pub pack_big_int : Option ℤ → Text
unfolding left_pad_bytes big_bytes
pack_big_int none = left_pad_bytes [] 32
pack_big_int (some v) = left_pad_bytes (big_bytes (pos_part v + neg_part v)) 32

abbrev pub pack_length : ℕ → Text
pack_length n = pack_big_int (some (pos n))

-- packAddress: an address as a hash
unfoldable pub pack_address : Text → Text
unfolding left_pad_bytes
pack_address a = left_pad_bytes a 32

-- packString, packBytes: the length, and the bytes in whole words.
unfoldable pub pack_bytes : Text → Text
unfolding write_at replicate
pack_bytes s =
    write_at 32 s (write_at 0 (pack_length (length s)) (zeros (32 + (length s + 31) / 32 * 32)))

words : {A : Type 0} → (A → Text) → ℕ → List A → Text → Text
unfolding write_at
words pack i [] bs = bs
words pack i (x ∷ xs) bs = words pack (suc i) xs (write_at (i * 32) (pack x) bs)

-- packAddressSlice, packBigIntSlice: the length, and a word for each.
unfoldable pub pack_words : {A : Type 0} → (A → Text) → List A → Text
unfolding words write_at replicate
pack_words pack xs =
    words pack 1 xs (write_at 0 (pack_length (length xs)) (zeros ((1 + length xs) * 32)))

tails : ℕ → List Text → Text → Text
unfolding write_at pack_bytes
tails i [] bs = bs
tails i (s ∷ ss) bs =
    tails (suc i) ss (write_at (i * 32) (pack_length (length bs)) bs ++ pack_bytes s)

-- packStringSlice, packHexBytesSlice, packBytesSlice
unfoldable pub pack_bytes_list : List Text → Text
unfolding tails replicate
pack_bytes_list ss = pack_length (length ss) ++ tails 0 ss (zeros (length ss * 32))

-- An argument whose word is the offset of what is appended.
unfoldable pub append_at : ℕ → Text → Text → Text
unfolding write_at
append_at i tail bs = write_at (i * 32) (pack_length (length bs)) bs ++ tail

-- The round of PackData for one argument.
unfoldable pub pack_arg : ℕ → Arg → Text → Text
unfolding append_at write_at take pack_address pack_words pack_bytes pack_bytes_list
pack_arg i (hash h) bs = write_at (i * 32) h bs
pack_arg i (address a) bs = write_at (i * 32) (pack_address a) bs
pack_arg i (big v) bs = write_at (i * 32) (take 32 (pack_big_int v)) bs
pack_arg i (string s) bs = append_at i (pack_bytes s) bs
pack_arg i (bytes s) bs = append_at i (pack_bytes s) bs
pack_arg i (number v) bs = write_at (i * 32) (pack_big_int (some v)) bs
pack_arg i (addresses xs) bs = append_at i (pack_words pack_address xs) bs
pack_arg i (bigs xs) bs = append_at i (pack_words pack_big_int xs) bs
pack_arg i (strings xs) bs = append_at i (pack_bytes_list xs) bs
pack_arg i (bytes_list xs) bs = append_at i (pack_bytes_list xs) bs

unfoldable pub pack_args : ℕ → List Arg → Text → Text
unfolding pack_arg
pack_args i [] bs = bs
pack_args i (a ∷ args) bs = pack_args (suc i) args (pack_arg i a bs)

-- PackData
unfoldable pub pack_data : List Arg → Text
unfolding pack_args replicate
pack_data args = pack_args 0 args (zeros (length args * 32))

-- PackDataWithFuncHash: a function hash has four bytes.
unfoldable pub pack_data_with_func_hash : Text → List Arg → Text
unfolding pack_data write_at replicate
pack_data_with_func_hash func_hash args =
    let packed = pack_data args in
    write_at 4 packed (write_at 0 (take 4 func_hash) (zeros (4 + length packed)))
