-- ===== src/Abi/Swapout/RoundTrip.antt =====
-- The data of a log of a swapout: a number and a string in the layout of the ABI.
use mathlib.Core.List.{append_assoc, append-nil}
use cross_chain_bridge.Common.{
  ℕ, ◌+◌, ◌*◌, ◌/◌, ◌%◌, ◌^◌, ◌<◌, ◌≡◌, refl, sym, ap, ◌∙◌, ◌==◌, ◌||◌, not, Bool, false, some, [],
  ◌∷◌, ◌++◌, Text, length, leb, ltb, if◌then◌else◌, arith,
}
use cross_chain_bridge.Common.Int.{pos}
use cross_chain_bridge.Common.Exec.{ok}
use cross_chain_bridge.Tokens.Errors.{sentinel, tx_with_wrong_input, tx_with_wrong_log_data}
use cross_chain_bridge.Abi.Bytes.{take, replicate, write_at, get_big_int, get_data, add_u64}
use cross_chain_bridge.Abi.Pack.{big, string, pack_data, pack_length, append_at}
use cross_chain_bridge.Abi.Words.{word-some}
use cross_chain_bridge.Abi.Layout.{
  length-append, length-replicate, write_at-append, write_at-replicate, take-append,
  length-pack_length, set_bytes-pack_length, get_big_int-append, get_data-append, padding,
  pack_bytes-lem,
}
use cross_chain_bridge.Abi.Swapout.{parse_swapout_to_btc_encoded_data}

-- The five parts of the data.
abbrev layout : ℕ → Text → Text
layout v s =
    pack_length v ++ (pack_length 64 ++ (pack_length (length s) ++ (s ++ replicate (padding s) 0)))

length-layout :
    (v : ℕ) (s : Text)
    → v < 2 ^ 256
    → length s < 2 ^ 62
    → length (layout v s) ≡ 96 + (length s + 31) / 32 * 32
length-layout v s h k = omega (
  arith,
  length-append (pack_length v)
      (pack_length 64 ++ (pack_length (length s) ++ (s ++ replicate (padding s) 0))),
  length-append (pack_length 64) (pack_length (length s) ++ (s ++ replicate (padding s) 0)),
  length-append (pack_length (length s)) (s ++ replicate (padding s) 0),
  length-append s (replicate (padding s) 0),
  length-replicate {A = ℕ} (padding s) 0,
  length-pack_length v (omega arith),
  length-pack_length 64 (omega arith),
  length-pack_length (length s) (omega arith),
)

pack_data-layout :
    (v : ℕ) (s : Text)
    → v < 2 ^ 256
    → length s < 2 ^ 62
    → pack_data (big (some (pos v)) ∷ string s ∷ []) ≡ layout v s
unfolding pack_data append_at
pack_data-layout v s h k =
    let w = pack_length v in
    let e : length w ≡ 32 = length-pack_length v (omega arith) in
    let z : Text = replicate 32 0 in
    let first : write_at 0 w (replicate 64 0) ≡ w ++ z = write_at-replicate w 32 32 0 e in
    let len : length (w ++ z) ≡ 64 =
      omega (arith, length-append w z, e, length-replicate {A = ℕ} 32 0) in
    let o = pack_length 64 in
    let d : length o ≡ 32 = length-pack_length 64 (omega arith) in
    let over : write_at 0 o z ≡ o =
      unfold replicate in write_at-replicate o 32 0 0 d ∙ append-nil o in
    let whole : take 32 w ≡ w = rw append-nil at (take-append w [] 32 e) in
    rw (whole, first)
      (rw (append_at, len, write_at-append w o z 32 e, over, pack_bytes-lem s (omega arith))
        (append_assoc w o _))

module _ (v : ℕ) (s : Text) (h : v < 2 ^ 256) (k : length s < 2 ^ 62) where
  total : length (layout v s) ≡ 96 + (length s + 31) / 32 * 32
  total = length-layout v s h k

  value_word : get_big_int (layout v s) 0 32 ≡ some v
  value_word =
      get_big_int-append [] (pack_length v) _ 0 refl (length-pack_length v (omega arith))
        (omega (arith, total))
      ∙ ap some (set_bytes-pack_length v)

  offset_word : get_big_int (layout v s) 32 32 ≡ some 64
  offset_word =
      get_big_int-append (pack_length v) (pack_length 64) _ 32 (length-pack_length v (omega arith))
        (length-pack_length 64 (omega arith)) (omega (arith, total))
      ∙ ap some (set_bytes-pack_length 64)

  regroup :
      layout v s
      ≡ (pack_length v ++ pack_length 64)
        ++ (pack_length (length s) ++ (s ++ replicate (padding s) 0))
  regroup = sym (append_assoc (pack_length v) (pack_length 64) _)

  head : length (pack_length v ++ pack_length 64) ≡ 64
  head = omega (
    arith,
    length-append (pack_length v) (pack_length 64),
    length-pack_length v (omega arith),
    length-pack_length 64 (omega arith),
  )

  length_word : get_big_int (layout v s) 64 32 ≡ some (length s)
  length_word =
      ap (λ t. get_big_int t 64 32) regroup
      ∙ get_big_int-append (pack_length v ++ pack_length 64) (pack_length (length s)) _ 64 head
          (length-pack_length (length s) (omega arith)) (rw (← regroup) (omega (arith, total)))
      ∙ ap some (set_bytes-pack_length (length s))

  content : get_data (layout v s) 96 (length s) ≡ some s
  content =
      let front = (pack_length v ++ pack_length 64) ++ pack_length (length s) in
      let same : layout v s ≡ front ++ (s ++ replicate (padding s) 0) =
        regroup ∙ sym (append_assoc (pack_length v ++ pack_length 64) (pack_length (length s)) _) in
      ap (λ t. get_data t 96 (length s)) same
      ∙ get_data-append front s (replicate (padding s) 0) 96 (length s)
          (omega (
            arith,
            head,
            length-append (pack_length v ++ pack_length 64) (pack_length (length s)),
            length-pack_length (length s) (omega arith),
          ))
          refl (rw (← same) (omega (arith, total)))

-- The data of a log that is packed as a number below 2 ^ 256 and a string is parsed to that string and
-- that number; the string is shorter than 2 ^ 62 bytes.
pub parse_swapout_to_btc_encoded_data-pack_data :
    (v : ℕ) (s : Text) (is_in_tx_input : Bool)
    → v < 2 ^ 256
    → length s < 2 ^ 62
    → parse_swapout_to_btc_encoded_data
        (pack_data (big (some (pos v)) ∷ string s ∷ []))
        is_in_tx_input
      ≡ ok (s, v)
unfolding parse_swapout_to_btc_encoded_data
parse_swapout_to_btc_encoded_data-pack_data v s is_in_tx_input h k =
    let e = sentinel (if is_in_tx_input then tx_with_wrong_input else tx_with_wrong_log_data) in
    let l = total v s h k in
    let small : ltb (length (layout v s)) 96 || not (length (layout v s) % 32 == 0) ≡ false =
      rw l (ground arith) in
    let inside : ltb (length (layout v s)) 96 ≡ false = rw l (ground arith) in
    let n : ℕ = length s in
    let ends : ltb (length (layout v s)) (add_u64 96 n)
          || leb (add_u64 (add_u64 96 n) 32) (length (layout v s))
        ≡ false =
      rw l (ground arith) in
    rw (
      pack_data-layout v s h k,
      small,
      value_word v s h k,
      word-some e (layout v s) 32 64 (offset_word v s h k) (omega arith),
      inside,
      word-some e (layout v s) 64 n (length_word v s h k) (omega arith),
      ends,
      content v s h k,
    )
