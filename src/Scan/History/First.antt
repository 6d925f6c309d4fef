-- ===== src/Scan/History/First.antt =====
-- scanFirstLoop processes what the history holds above its minimal height.
use cross_chain_bridge.Common.{
  ℕ, ◌≡◌, Bool, true, false, ◌⊎◌, ◌++◌, Option, none, some, List, [], ◌∷◌, Text, is_empty, contains,
  ltb, if◌then◌else◌,
}
use cross_chain_bridge.Scan.Cached.{Cached}
use cross_chain_bridge.Scan.Cached.Recent.{IsRing}
use cross_chain_bridge.Scan.History.{HistoryTx, Scan, process, is_scanned}

-- The transactions of a page that are in a block, until one is below the minimal height.
unfoldable pub due_of_page : ℕ → List HistoryTx → List Text
due_of_page min_height [] = []
due_of_page min_height (tx ∷ txs) = elim tx.block_height [
  | none ↦ due_of_page min_height txs
  | some height ↦ if ltb height min_height then [] else tx.txid ∷ due_of_page min_height txs
]

-- Whether one of them is below the minimal height.
unfoldable pub is_last_page : ℕ → List HistoryTx → Bool
is_last_page min_height [] = false
is_last_page min_height (tx ∷ txs) = elim tx.block_height [
  | none ↦ is_last_page min_height txs
  | some height ↦ if ltb height min_height then true else is_last_page min_height txs
]

-- The id that the next page is asked for with: of the last transaction of the page.
unfoldable pub last_id : HistoryTx → List HistoryTx → Text
last_id tx [] = tx.txid
last_id tx (tx' ∷ txs) = last_id tx' txs

-- The same of the whole history behind a transaction, up to an empty page or one with a transaction
-- below the height: each page is what there is behind the last transaction of the page before it.
unfoldable pub due : ℕ → Text → List (Text → Option (List HistoryTx)) → List Text
due min_height last [] = []
due min_height last (ask ∷ asks) = elim (ask last) [
  | none ↦ due min_height last asks
  | some page ↦ elim page [
    | [] ↦ []
    | tx ∷ txs ↦
        due_of_page min_height (tx ∷ txs)
        ++ (if is_last_page min_height (tx ∷ txs) then [] else due min_height (last_id tx txs) asks)
  ]
]

-- Every id that is not empty stands among the processed ones.
abbrev pub AllProcessed : List Text → List Text → Type 0
AllProcessed [] done = Unit
AllProcessed (t ∷ ts) done = ((is_empty t ≡ true) ⊎ (contains t done ≡ true)) × AllProcessed ts done

record IsSound (s : Scan) : Type 0 where
  ring : (c : Cached Text) × (q : List Text) × (s.cached ≡ some c) × IsRing c q
  processed :
      (t : Text)
      → is_scanned t s.cached ≡ true
      → (is_empty t ≡ true) ⊎ (contains t s.processed ≡ true)

record Keeps (due : List Text) (s s' : Scan) : Type 0 where
  sound : IsSound s'
  kept : (t : Text) → contains t s.processed ≡ true → contains t s'.processed ≡ true
  reached : AllProcessed due s'.processed

-- A transaction of a page is processed unless it was before.
visit : HistoryTx → Scan → Scan
visit tx s = if is_scanned tx.txid s.cached then s else process tx.txid s
