-- ===== src/Scan/History.antt =====
-- The two history jobs of tokens/btc/scanswaphistory.go, which tokens/ltc and tokens/block repeat.
-- They read the history of the deposit address page by page, the newest transaction first.
pub mod First
pub mod Inverted
use cross_chain_bridge.Common.{
  ℕ, ◌+◌, ◌-◌, ◌%◌, ◌^◌, Bool, true, false, not, Option, none, some, List, [], ◌∷◌, Text, lit, ltb,
  if◌then◌else◌,
}
use cross_chain_bridge.Scan.Cached.{Cached, new_cached_scanned_txs, cache_scanned_tx, is_tx_scanned}

-- A transaction of the history, with the height of its block once it is in one.
pub record HistoryTx : Type 0 where
  pub txid : Text
  pub block_height : Option ℕ

abbrev pub max_first_scan_height : ℕ
max_first_scan_height = 1000

abbrev pub max_scanned_txs : ℕ
max_scanned_txs = 500

-- The height below which a job does not look, by the height of the chain and the initial height.
unfoldable pub min_scan_height : ℕ → ℕ → ℕ → ℕ
min_scan_height latest initial max_height =
    if ltb ((initial + max_height) % 2 ^ 64) latest then latest - max_height else initial

-- `processed` are the calls of processSwapin, the newest first; `none` for the cache is a panic.
pub record Scan : Type 0 where
  pub last_seen : Text
  pub cached : Option (Cached Text)
  pub processed : List Text

-- Whether the loop over a page went through, or left the loops by `break`.
pub data Flow : Type 0 where
  next_page broke : Flow

unfoldable pub is_scanned : Text → Option (Cached Text) → Bool
is_scanned txid none = false
is_scanned txid (some c) = is_tx_scanned txid c

unfoldable pub cache : Text → Option (Cached Text) → Option (Cached Text)
cache txid none = none
cache txid (some c) = cache_scanned_tx txid c

-- processSwapin, and the transaction is cached.
unfoldable pub process : Text → Scan → Scan
unfolding cache
process txid s = record s { cached = cache txid s.cached; processed = txid ∷ s.processed }

-- lastSeenTxid of a page that is not empty.
unfoldable pub last_txid : HistoryTx → List HistoryTx → Text
last_txid tx [] = tx.txid
last_txid tx (tx' ∷ txs) = last_txid tx' txs

-- scanFirstLoop: the loop over a page
unfoldable pub first_page : ℕ → List HistoryTx → Scan → Flow × Scan
unfolding process is_scanned
first_page min_height [] s = (next_page, s)
first_page min_height (tx ∷ txs) s = elim tx.block_height [
  | none ↦ first_page min_height txs s
  | some height ↦
      let rest =
        first_page min_height txs (if is_scanned tx.txid s.cached then s else process tx.txid s) in
      if ltb height min_height then (broke, s) else rest
]

-- scanFirstLoop, over what GetTransactionHistory answers in turn when it is asked for what is behind
-- a transaction, or behind none for the empty id (`none` for an error)
unfoldable pub first_loop : ℕ → List (Text → Option (List HistoryTx)) → Scan → Flow × Scan
unfolding last_txid
first_loop min_height [] s = (next_page, s)
first_loop min_height (ask ∷ asks) s = elim (ask s.last_seen) [
  | none ↦ first_loop min_height asks s
  | some page ↦ elim page [
    | [] ↦ (broke, s)
    | tx ∷ txs ↦
        let (flow, s') = first_page min_height (tx ∷ txs) s in
        let rest = first_loop min_height asks (record s' { last_seen = last_txid tx txs }) in
        elim flow [ broke ↦ (broke, s') | next_page ↦ rest ]
  ]
]

abbrev pub start : Scan
start = record {
  last_seen = lit "";
  cached = some (new_cached_scanned_txs max_scanned_txs);
  processed = [];
}

-- scanTransactionHistory: the loop over a page; the flag is `rescan` as the loop leaves it.
unfoldable pub history_page : ℕ → List HistoryTx → Bool → Scan → Bool × Scan
unfolding process is_scanned
history_page min_height [] rescan s = (rescan, s)
history_page min_height (tx ∷ txs) rescan s = elim tx.block_height [
  | none ↦ history_page min_height txs rescan s
  | some height ↦
      let rest = history_page min_height txs rescan (process tx.txid s) in
      if ltb height min_height
      then (true, s)
      else if not (is_scanned tx.txid s.cached)
      then (true, s)
      else rest
]

-- One round of the endless loop: the page, and where the next page starts.
unfoldable pub history_round : ℕ → List HistoryTx → Bool × Scan → Bool × Scan
unfolding history_page last_txid
history_round min_height [] (rescan, s) = (true, record s { last_seen = lit "" })
history_round min_height (tx ∷ txs) (rescan, s) =
    let (rescan', s') = history_page min_height (tx ∷ txs) false s in
    (rescan', record s' { last_seen = if rescan' then lit "" else last_txid tx txs })

-- scanTransactionHistory, over what GetTransactionHistory answers in turn
unfoldable pub history_loop : ℕ → List (Option (List HistoryTx)) → Bool × Scan → Bool × Scan
unfolding history_round
history_loop min_height [] r = r
history_loop min_height (none ∷ pages) r = history_loop min_height pages r
history_loop min_height (some page ∷ pages) r =
    history_loop min_height pages (history_round min_height page r)
