-- ===== src/Scan/History/Inverted.antt =====
-- scanTransactionHistory stops at a transaction that is not cached, where its comment says that it
-- stops at one that is.
use cross_chain_bridge.Common.{
  ℕ, zero, suc, ◌≡◌, refl, Bool, true, false, Option, none, some, List, [], ◌∷◌, Text, lit, text_eq,
  is_empty, ltb, Option-cases, Bool-cases, inl, inr,
}
use cross_chain_bridge.Scan.Cached.{
  replicate, new_cached, new_cached_scanned_txs, hash_found, is_tx_scanned,
}
use cross_chain_bridge.Scan.History.{
  HistoryTx, Scan, history_page, history_round, history_loop, is_scanned, start, max_scanned_txs,
}

hash_found-replicate :
    (h : Text) (n : ℕ) → is_empty h ≡ false → hash_found h (replicate n (lit "")) ≡ false
unfolding hash_found replicate text_eq lit
hash_found-replicate [] n e = cc
hash_found-replicate (c ∷ cs) zero e = refl
hash_found-replicate (c ∷ cs) (suc n) e = hash_found-replicate (c ∷ cs) n e

pub is_scanned-new :
    (h : Text) (n : ℕ) → is_empty h ≡ false → is_scanned h (some (new_cached_scanned_txs n)) ≡ false
unfolding is_scanned is_tx_scanned new_cached_scanned_txs new_cached
is_scanned-new h n e = hash_found-replicate h n e

-- Every transaction has an id.
abbrev pub HaveIds : List HistoryTx → Type 0
HaveIds [] = Unit
HaveIds (tx ∷ txs) = (is_empty tx.txid ≡ false) × HaveIds txs

abbrev pub AllHaveIds : List (Option (List HistoryTx)) → Type 0
AllHaveIds [] = Unit
AllHaveIds (none ∷ pages) = AllHaveIds pages
AllHaveIds (some page ∷ pages) = HaveIds page × AllHaveIds pages

record IsIdle (s : Scan) : Type 0 where
  cached : s.cached ≡ some (new_cached_scanned_txs max_scanned_txs)
  processed : s.processed ≡ []

history_page-IsIdle :
    (min_height : ℕ) (txs : List HistoryTx) (rescan : Bool) (s : Scan)
    → HaveIds txs
    → IsIdle s
    → IsIdle (history_page min_height txs rescan s).1
unfolding history_page
history_page-IsIdle min_height [] rescan s h i = i
history_page-IsIdle min_height (tx ∷ txs) rescan s (h, hs) i =
    let unseen : is_scanned tx.txid s.cached ≡ false =
      rw i.cached (is_scanned-new tx.txid max_scanned_txs h) in
    elim (Option-cases tx.block_height) [
      | inl e ↦ rw e (history_page-IsIdle min_height txs rescan s hs i)
      | inr (height, e) ↦
          rw (e, unseen)
            (elim (Bool-cases (ltb height min_height)) [
              | inl low ↦ rw low i
              | inr high ↦ rw high i
            ])
    ]

history_round-IsIdle :
    (min_height : ℕ) (txs : List HistoryTx) (r : Bool × Scan)
    → HaveIds txs
    → IsIdle r.1
    → IsIdle (history_round min_height txs r).1
unfolding history_round
history_round-IsIdle min_height [] (rescan, s) h i = record {
  cached = i.cached;
  processed = i.processed;
}
history_round-IsIdle min_height (tx ∷ txs) (rescan, s) h i =
    let i' = history_page-IsIdle min_height (tx ∷ txs) false s h i in
    record { cached = i'.cached; processed = i'.processed }

history_loop-IsIdle :
    (min_height : ℕ) (pages : List (Option (List HistoryTx))) (r : Bool × Scan)
    → AllHaveIds pages
    → IsIdle r.1
    → IsIdle (history_loop min_height pages r).1
unfolding history_loop
history_loop-IsIdle min_height [] r h i = i
history_loop-IsIdle min_height (none ∷ pages) r h i = history_loop-IsIdle min_height pages r h i
history_loop-IsIdle min_height (some page ∷ pages) r (h, hs) i =
    history_loop-IsIdle min_height pages (history_round min_height page r) hs
      (history_round-IsIdle min_height page r h i)

-- scanTransactionHistory processes no transaction, whatever pages the history has and however long the
-- job runs: it leaves each page at the first transaction that is not cached yet, and it caches only
-- behind that test. Every transaction has an id that is not empty.
pub history_loop-processes_none :
    (min_height : ℕ) (pages : List (Option (List HistoryTx)))
    → AllHaveIds pages
    → (history_loop min_height pages (true, start)).1.processed ≡ []
history_loop-processes_none min_height pages h =
    (history_loop-IsIdle min_height pages (true, start) h
      (record { cached = refl; processed = refl })).processed
