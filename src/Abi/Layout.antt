-- ===== src/Abi/Layout.antt =====
-- Where things stand in packed data.
use cross_chain_bridge.Common.{
  ℕ, zero, suc, ◌+◌, ◌-◌, ◌*◌, ◌/◌, ◌%◌, ◌^◌, ◌≤◌, ◌<◌, ◌≡◌, refl, sym, ap, ◌∙◌, some, List, [],
  ◌∷◌, ◌++◌, Text, length, leb, true, arith,
}
use cross_chain_bridge.Abi.Bytes.{
  take, drop, replicate, write_at, left_pad_bytes, right_pad_bytes, set_bytes, set_bytes_from,
  big_bytes, big_bytes_loop, slice, get_big_int, get_data,
}
use cross_chain_bridge.Abi.Pack.{pack_big_int, pack_length, pack_bytes}

module _ {A : Type 0} where
  pub length-append : (xs ys : List A) → length (xs ++ ys) ≡ length xs + length ys
  length-append [] ys = omega arith
  length-append (x ∷ xs) ys = omega (arith, length-append xs ys)

  pub length-replicate : (n : ℕ) (a : A) → length (replicate n a) ≡ n
  unfolding replicate
  length-replicate zero a = refl
  length-replicate (suc n) a = ap suc (length-replicate n a)

  pub replicate-add : (m n : ℕ) (a : A) → replicate (m + n) a ≡ replicate m a ++ replicate n a
  unfolding replicate
  replicate-add zero n a = ap (λ k. replicate k a) (omega arith)
  replicate-add (suc m) n a =
      let e : suc m + n ≡ suc (m + n) = omega arith in rw e (ap (◌∷◌ a) (replicate-add m n a))

  -- A write behind `xs`, and one over as many items.
  pub write_at-append :
      (xs w ys : List A) (k : ℕ) → length xs ≡ k → write_at k w (xs ++ ys) ≡ xs ++ write_at 0 w ys
  unfolding write_at
  write_at-append [] w ys zero e = refl
  write_at-append [] w ys (suc k) e = absurd (omega arith)
  write_at-append (x ∷ xs) w ys zero e = absurd (omega arith)
  write_at-append (x ∷ xs) w ys (suc k) e = ap (◌∷◌ x) (write_at-append xs w ys k (omega arith))

  pub write_at_over : (w xs ys : List A) → length w ≡ length xs → write_at 0 w (xs ++ ys) ≡ w ++ ys
  unfolding write_at
  write_at_over [] [] [] e = refl
  write_at_over [] [] (y ∷ ys) e = refl
  write_at_over [] (x ∷ xs) ys e = absurd (omega arith)
  write_at_over (a ∷ w) [] ys e = absurd (omega arith)
  write_at_over (a ∷ w) (x ∷ xs) ys e = ap (◌∷◌ a) (write_at_over w xs ys (omega arith))

  pub take-append : (xs ys : List A) (n : ℕ) → length xs ≡ n → take n (xs ++ ys) ≡ xs
  unfolding take
  take-append [] ys zero e = refl
  take-append [] ys (suc n) e = absurd (omega arith)
  take-append (x ∷ xs) ys zero e = absurd (omega arith)
  take-append (x ∷ xs) ys (suc n) e = ap (◌∷◌ x) (take-append xs ys n (omega arith))

  pub drop-append : (xs ys : List A) (n : ℕ) → length xs ≡ n → drop n (xs ++ ys) ≡ ys
  unfolding drop
  drop-append [] ys zero e = refl
  drop-append [] ys (suc n) e = absurd (omega arith)
  drop-append (x ∷ xs) ys zero e = absurd (omega arith)
  drop-append (x ∷ xs) ys (suc n) e = drop-append xs ys n (omega arith)

  -- A write in front of zeros that it is as long as.
  pub write_at-replicate :
      (w : List A) (m n : ℕ) (a : A)
      → length w ≡ m
      → write_at 0 w (replicate (m + n) a) ≡ w ++ replicate n a
  write_at-replicate w m n a e =
      rw replicate-add
        (write_at_over w (replicate m a) (replicate n a) (e ∙ sym (length-replicate m a)))

length-big_bytes_loop :
    (k fuel n : ℕ) (bs : Text) → n < 256 ^ k → length (big_bytes_loop fuel n bs) ≤ k + length bs
unfolding big_bytes_loop
length-big_bytes_loop k zero n bs h = omega arith
length-big_bytes_loop zero (suc fuel) n bs h = ground arith
length-big_bytes_loop (suc k) (suc fuel) n bs h =
    ground (arith, length-big_bytes_loop k fuel (n / 256) ((n % 256) ∷ bs))

set_bytes-big_bytes_loop :
    (fuel n : ℕ) (bs : Text)
    → n < fuel
    → set_bytes_from 0 (big_bytes_loop fuel n bs) ≡ set_bytes_from n bs
unfolding big_bytes_loop set_bytes_from
set_bytes-big_bytes_loop zero n bs h = absurd (omega arith)
set_bytes-big_bytes_loop (suc fuel) n bs h =
    ground (arith, set_bytes-big_bytes_loop fuel (n / 256) ((n % 256) ∷ bs))

set_bytes-replicate :
    (k : ℕ) (bs : Text) → set_bytes_from 0 (replicate k 0 ++ bs) ≡ set_bytes_from 0 bs
unfolding set_bytes_from replicate
set_bytes-replicate zero bs = refl
set_bytes-replicate (suc k) bs = set_bytes-replicate k bs

pub length-pack_length : (n : ℕ) → n < 256 ^ 32 → length (pack_length n) ≡ 32
unfolding pack_big_int left_pad_bytes big_bytes
length-pack_length n h =
    let bound = length-big_bytes_loop 32 (suc n) n [] h in
    ground (
      arith,
      length-append (replicate (32 - length (big_bytes n)) 0) (big_bytes n),
      length-replicate {A = ℕ} (32 - length (big_bytes n)) 0,
    )

pub set_bytes-pack_length : (n : ℕ) → set_bytes (pack_length n) ≡ n
unfolding set_bytes pack_big_int left_pad_bytes big_bytes
set_bytes-pack_length n = ground (
  arith,
  set_bytes-big_bytes_loop (suc n) n [],
  set_bytes-replicate (32 - length (big_bytes n)) (big_bytes n),
)

-- What a slice of whole parts gives.
pub slice-append :
    (xs ys zs : Text) (m n : ℕ)
    → length xs ≡ m
    → n ≡ m + length ys
    → slice (xs ++ (ys ++ zs)) m n ≡ some ys
unfolding slice
slice-append xs ys zs m n e f =
    let g : leb m n ≡ true = ground arith in
    rw (g, drop-append xs (ys ++ zs) m e) (ap some (take-append ys zs (n - m) (omega arith)))

pub get_big_int-append :
    (xs w ys : Text) (m : ℕ)
    → length xs ≡ m
    → length w ≡ 32
    → length (xs ++ (w ++ ys)) < 2 ^ 63
    → get_big_int (xs ++ (w ++ ys)) m 32 ≡ some (set_bytes w)
unfolding get_big_int
get_big_int-append xs w ys m e f h =
    let l : length (xs ++ (w ++ ys)) ≡ m + (32 + length ys) =
      omega (arith, length-append xs (w ++ ys), length-append w ys) in
    ground (arith, l, slice-append xs w ys m (m + 32) e)

pub get_data-append :
    (xs s ys : Text) (m n : ℕ)
    → length xs ≡ m
    → length s ≡ n
    → length (xs ++ (s ++ ys)) < 2 ^ 63
    → get_data (xs ++ (s ++ ys)) m n ≡ some s
unfolding get_data right_pad_bytes
get_data-append xs s ys m n e f h =
    let l : length (xs ++ (s ++ ys)) ≡ m + (n + length ys) =
      omega (arith, length-append xs (s ++ ys), length-append s ys) in
    ground (arith, l, slice-append xs s ys m (m + n) e)

-- The bytes that fill up the last word.
abbrev pub padding : Text → ℕ
padding s = (length s + 31) / 32 * 32 - length s

-- A word, and bytes behind it in a room of zeros.
filled :
    (w s : Text) (room rest : ℕ)
    → length w ≡ 32
    → room ≡ length s + rest
    → write_at 32 s (write_at 0 w (replicate (32 + room) 0)) ≡ w ++ (s ++ replicate rest 0)
filled w s room rest e p =
    rw (write_at-replicate w 32 room 0 e, write_at-append w s (replicate room 0) 32 e, p)
      (ap (λ t. w ++ t) (write_at-replicate s (length s) rest 0 refl))

pub pack_bytes-lem :
    (s : Text)
    → length s < 2 ^ 63
    → pack_bytes s ≡ pack_length (length s) ++ (s ++ replicate (padding s) 0)
unfolding pack_bytes
pack_bytes-lem s h =
    filled (pack_length (length s)) s ((length s + 31) / 32 * 32) (padding s)
      (length-pack_length (length s) (omega arith)) (omega arith)
