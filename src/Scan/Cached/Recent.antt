-- ===== src/Scan/Cached/Recent.antt =====
-- The array of scanned transactions behaves as the queue of the last ones.
use mathlib.Core.List.{append_assoc, append-nil}
use native.Mathlib.Nat.{mod-eq_of_lt}
use cross_chain_bridge.Common.{
  ℕ, zero, suc, ◌+◌, ◌%◌, ◌≡◌, refl, sym, ap, ◌∙◌, ◌<◌, ◌||◌, Option, none, some, List, [], ◌∷◌,
  ◌++◌, Text, lit, text_eq, contains, length, arith,
}
use cross_chain_bridge.Scan.Cached.{
  replicate, set, Cached, new_cached, put, new_cached_scanned_txs, cache_scanned_tx, hash_found,
  is_tx_scanned,
}

module _ {A : Type 0} where
  length-append : (xs ys : List A) → length (xs ++ ys) ≡ length xs + length ys
  length-append [] ys = omega arith
  length-append (x ∷ xs) ys = omega (arith, length-append xs ys)

  -- The array from the place of the next write on, and then up to it: the oldest item first.
  pub record IsRing (c : Cached A) (q : List A) : Type 0 where
    pub before : List A
    pub next : A
    pub behind : List A
    pub items : c.items ≡ before ++ (next ∷ behind)
    pub next_index : c.next_index ≡ length before
    pub capacity : c.capacity ≡ length before + suc (length behind)
    pub queue : q ≡ (next ∷ behind) ++ before

  set-middle : (xs ys : List A) (y a : A) → set (xs ++ (y ∷ ys)) (length xs) a ≡ xs ++ (a ∷ ys)
  unfolding set
  set-middle [] ys y a = refl
  set-middle (x ∷ xs) ys y a = ap (◌∷◌ x) (set-middle xs ys y a)

  replicate-snoc : (n : ℕ) (a : A) → replicate n a ++ (a ∷ []) ≡ replicate (suc n) a
  unfolding replicate
  replicate-snoc zero a = refl
  replicate-snoc (suc n) a = ap (◌∷◌ a) (replicate-snoc n a)

  length-replicate : (n : ℕ) (a : A) → length (replicate n a) ≡ n
  unfolding replicate
  length-replicate zero a = refl
  length-replicate (suc n) a = ap suc (length-replicate n a)

  pub new_cached-IsRing : (a : A) (n : ℕ) → IsRing (new_cached a (suc n)) (replicate (suc n) a)
  unfolding new_cached replicate
  new_cached-IsRing a n = record {
    before = [];
    next = a;
    behind = replicate n a;
    items = refl;
    next_index = refl;
    capacity = omega (arith, length-replicate n a);
    queue = sym (append-nil _);
  }

  -- The queue forgets its oldest item and takes the new one.
  abbrev push : A → List A → List A
  push a [] = []
  push a (x ∷ q) = q ++ (a ∷ [])

  unfoldable pub written : A → Cached A → Cached A
  written a c = record c {
    items = set c.items c.next_index a;
    next_index = (c.next_index + 1) % c.capacity;
  }

  put-written :
      (a : A) (c : Cached A) → c.next_index < length c.items → put a c ≡ some (written a c)
  unfolding put written
  put-written a c h = ground arith

  -- The array after a write at its end, from the start on.
  from_start :
      (xs : List A) (a : A) (c : Cached A)
      → c.items ≡ xs ++ (a ∷ [])
      → c.next_index ≡ 0
      → c.capacity ≡ length xs + 1
      → IsRing c (xs ++ (a ∷ []))
  from_start [] a c e i n = record {
    before = [];
    next = a;
    behind = [];
    items = e;
    next_index = i;
    capacity = n;
    queue = refl;
  }
  from_start (x ∷ xs) a c e i n = record {
    before = [];
    next = x;
    behind = xs ++ (a ∷ []);
    items = e;
    next_index = i;
    capacity = omega (arith, n, length-append xs (a ∷ []));
    queue = sym (append-nil _);
  }

  written-IsRing :
      (a : A) (c : Cached A) (xs : List A) (x : A) (ys : List A)
      → c.items ≡ xs ++ (x ∷ ys)
      → c.next_index ≡ length xs
      → c.capacity ≡ length xs + suc (length ys)
      → IsRing (written a c) ((ys ++ xs) ++ (a ∷ []))
  unfolding written
  written-IsRing a c xs x [] e i n =
      from_start xs a _ (rw (e, i) (set-middle xs [] x a)) (rw (i, n) (grind arith)) n
  written-IsRing a c xs x (y ∷ ys) e i n = record {
    before = xs ++ (a ∷ []);
    next = y;
    behind = ys;
    items = rw (e, i) (set-middle xs (y ∷ ys) x a ∙ sym (append_assoc xs (a ∷ []) (y ∷ ys)));
    next_index = rw (i, n) (mod-eq_of_lt (omega arith) ∙ sym (length-append xs (a ∷ [])));
    capacity = omega (arith, n, length-append xs (a ∷ []));
    queue = append_assoc (y ∷ ys) xs (a ∷ []);
  }

  pub put-IsRing :
      (a : A) {c : Cached A} {q : List A}
      → IsRing c q
      → (put a c ≡ some (written a c)) × IsRing (written a c) (push a q)
  put-IsRing a {c} {q} r = (
    put-written a c
        (rw r.items (omega (arith, r.next_index, length-append r.before (r.next ∷ r.behind)))),
    rw r.queue (written-IsRing a c r.before r.next r.behind r.items r.next_index r.capacity),
  )

  abbrev pub drop : ℕ → List A → List A
  drop zero xs = xs
  drop (suc n) [] = []
  drop (suc n) (x ∷ xs) = drop n xs

-- CacheScannedTx for each of the hashes in turn.
abbrev pub cache_all : List Text → Cached Text → Option (Cached Text)
cache_all [] c = some c
cache_all (h ∷ hs) c = elim (cache_scanned_tx h c) [ none ↦ none | some c' ↦ cache_all hs c' ]

hash_found-contains : (h : Text) (xs : List Text) → hash_found h xs ≡ contains h xs
unfolding hash_found contains
hash_found-contains h [] = refl
hash_found-contains h (x ∷ xs) = ap (λ b. text_eq x h || b) (hash_found-contains h xs)

contains-append :
    (h : Text) (xs ys : List Text) → contains h (xs ++ ys) ≡ contains h ys || contains h xs
unfolding contains
contains-append h [] ys = ground arith
contains-append h (x ∷ xs) ys = ground (arith, contains-append h xs ys)

is_tx_scanned-IsRing :
    (h : Text) {c : Cached Text} {q : List Text} → IsRing c q → is_tx_scanned h c ≡ contains h q
unfolding is_tx_scanned
is_tx_scanned-IsRing h r =
    let xs = r.before in
    let ys = r.next ∷ r.behind in
    rw (r.items, r.queue)
      (ground
        (arith, hash_found-contains h (xs ++ ys), contains-append h xs ys, contains-append h ys xs))

cache_all-IsRing :
    (hs : List Text) (x : Text) (q : List Text) {c : Cached Text}
    → IsRing c (x ∷ q)
    → (c' : Cached Text) × (cache_all hs c ≡ some c') × IsRing c' (drop (length hs) ((x ∷ q) ++ hs))
unfolding cache_scanned_tx
cache_all-IsRing [] x q {c} r = (c, refl, rw (append-nil (x ∷ q)) r)
cache_all-IsRing (h ∷ hs) x [] {c} r =
    let (e, r') = put-IsRing h r in
    let (c', e', r'') = cache_all-IsRing hs h [] r' in (c', rw (cache_all, e) e', r'')
cache_all-IsRing (h ∷ hs) x (y ∷ q) {c} r =
    let (e, r') = put-IsRing h r in
    let (c', e', r'') = cache_all-IsRing hs y (q ++ (h ∷ [])) r' in
    (c', rw (cache_all, e) e', rw (append_assoc (y ∷ q) (h ∷ []) hs) at r'')

-- The array of scanned transactions is the queue of the last ones: made with room for at least one
-- and filled with any hashes in turn, it finds exactly those that are among the last `capacity`, where
-- the empty hash counts as found until so many have been cached.
pub cache_all-is_tx_scanned :
    (capacity : ℕ) (hs : List Text)
    → 0 < capacity
    → (c : Cached Text) × (cache_all hs (new_cached_scanned_txs capacity) ≡ some c)
      × ((h : Text)
          → is_tx_scanned h c ≡ contains h (drop (length hs) (replicate capacity (lit "") ++ hs)))
unfolding new_cached_scanned_txs replicate
cache_all-is_tx_scanned zero hs lt = absurd (omega arith)
cache_all-is_tx_scanned (suc n) hs lt =
    let (c, e, r) =
      cache_all-IsRing hs (lit "") (replicate n (lit "")) (new_cached-IsRing (lit "") n) in
    (c, e, λ h. is_tx_scanned-IsRing h r)
