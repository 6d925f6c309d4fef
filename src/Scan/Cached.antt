-- ===== src/Scan/Cached.antt =====
-- tokens/tools/cachedscantxs.go and tokens/tools/cachedscanblocks.go: the last scanned transactions
-- and blocks, in an array that is written round and round.
pub mod Recent
use cross_chain_bridge.Common.{
  ℕ, zero, suc, ◌+◌, ◌%◌, Bool, false, ◌||◌, Option, none, some, List, [], ◌∷◌, Text, lit, text_eq,
  length, ltb, if◌then◌else◌,
}

module _ {A : Type 0} where
  unfoldable pub replicate : ℕ → A → List A
  replicate zero a = []
  replicate (suc n) a = a ∷ replicate n a

  -- A write out of range changes nothing; `put` tests the range first.
  unfoldable pub set : List A → ℕ → A → List A
  set [] i v = []
  set (x ∷ xs) zero v = v ∷ xs
  set (x ∷ xs) (suc i) v = x ∷ set xs i v

-- CachedScannedTxs and CachedScannedBlocks differ in the type of a record.
pub record Cached (A : Type 0) : Type 0 where
  pub next_index : ℕ
  pub capacity : ℕ
  pub items : List A

-- cachedScannedBlockRecord
pub record ScannedBlock : Type 0 where
  pub hash : Text
  pub height : ℕ

module _ {A : Type 0} where
  -- The array is made of zero records.
  unfoldable pub new_cached : A → ℕ → Cached A
  unfolding replicate
  new_cached empty capacity = record {
    next_index = 0;
    capacity = capacity;
    items = replicate capacity empty;
  }

  -- A write out of range, or a remainder by 0, is a run-time panic: `none`.
  unfoldable pub put : A → Cached A → Option (Cached A)
  unfolding set
  put a c =
      if ltb c.next_index (length c.items)
      then some (record c {
        items = set c.items c.next_index a;
        next_index = (c.next_index + 1) % c.capacity;
      })
      else none

-- NewCachedScannedTxs, CacheScannedTx
unfoldable pub new_cached_scanned_txs : ℕ → Cached Text
unfolding new_cached lit
new_cached_scanned_txs = new_cached (lit "")

unfoldable pub cache_scanned_tx : Text → Cached Text → Option (Cached Text)
unfolding put
cache_scanned_tx = put

unfoldable pub hash_found : Text → List Text → Bool
hash_found h [] = false
hash_found h (tx ∷ txs) = text_eq tx h || hash_found h txs

unfoldable pub is_tx_scanned : Text → Cached Text → Bool
unfolding hash_found
is_tx_scanned h c = hash_found h c.items

-- NewCachedScannedBlocks, CacheScannedBlock, IsBlockScanned
unfoldable pub new_cached_scanned_blocks : ℕ → Cached ScannedBlock
unfolding new_cached lit
new_cached_scanned_blocks = new_cached (record { hash = lit ""; height = 0 })

unfoldable pub cache_scanned_block : Text → ℕ → Cached ScannedBlock → Option (Cached ScannedBlock)
unfolding put
cache_scanned_block hash height = put (record { hash = hash; height = height })

block_found : Text → List ScannedBlock → Bool
block_found h [] = false
block_found h (b ∷ bs) = text_eq b.hash h || block_found h bs

unfoldable pub is_block_scanned : Text → Cached ScannedBlock → Bool
unfolding block_found
is_block_scanned h c = block_found h c.items
