-- ===== src/Tests/Scans.antt =====
-- The scanning jobs on a short history.
use cross_chain_bridge.Common.{
  if◌then◌else◌, text_eq, ℕ, ◌≡◌, refl, true, false, Option, none, some, List, [], ◌∷◌, ◌++◌, Text,
  lit, contains, length, arith,
}
use cross_chain_bridge.Scan.Cached.{
  Cached, replicate, new_cached_scanned_txs, is_tx_scanned, new_cached_scanned_blocks,
  cache_scanned_block, is_block_scanned,
}
use cross_chain_bridge.Scan.Cached.Recent.{cache_all, cache_all-is_tx_scanned, drop}
use cross_chain_bridge.Scan.Register.{register_swap}
use cross_chain_bridge.Tests.Bench.{bench, info, waiting}
use cross_chain_bridge.Scan.History.{HistoryTx, first_loop, history_loop, start}
use cross_chain_bridge.Scan.History.First.{due}
use cross_chain_bridge.Scan.History.Inverted.{history_loop-processes_none}

abbrev three_hashes : List Text
three_hashes = lit "a" ∷ lit "b" ∷ lit "c" ∷ []

cache_all-is_tx_scanned_example :
    (c : Cached Text) × (cache_all three_hashes (new_cached_scanned_txs 2) ≡ some c)
    × ((h : Text)
        → is_tx_scanned h c
          ≡ contains h (drop (length three_hashes) (replicate 2 (lit "") ++ three_hashes)))
cache_all-is_tx_scanned_example = cache_all-is_tx_scanned 2 three_hashes (omega arith)

last_two :
    drop (length three_hashes) (replicate 2 (lit "") ++ three_hashes) ≡ lit "b" ∷ lit "c" ∷ []
unfolding replicate lit
last_two = refl

cached_block : is_block_scanned (lit "a") (new_cached_scanned_blocks 2) ≡ false
unfolding is_block_scanned new_cached_scanned_blocks cross_chain_bridge.Common.text_eq
cached_block = refl

abbrev history : List (Option (List HistoryTx))
history =
    none
    ∷ some (
        record { txid = lit "t3"; block_height = none }
        ∷ record { txid = lit "t2"; block_height = some 12 }
        ∷ record { txid = lit "t1"; block_height = some 11 }
        ∷ [])
    ∷ some (record { txid = lit "t0"; block_height = some 9 } ∷ [])
    ∷ []

-- A server that gives one transaction at a time, and fails once.
page_behind : Text → Option (List HistoryTx)
page_behind txid =
    if text_eq txid (lit "")
    then some (record { txid = lit "t2"; block_height = some 20 } ∷ [])
    else if text_eq txid (lit "t2")
    then some (record { txid = lit "t1"; block_height = some 15 } ∷ [])
    else some (record { txid = lit "t0"; block_height = some 9 } ∷ [])

abbrev asks : List (Text → Option (List HistoryTx))
asks = page_behind ∷ (λ txid. none) ∷ page_behind ∷ page_behind ∷ []

due_of_asks : due 10 (lit "") asks ≡ lit "t2" ∷ lit "t1" ∷ []
unfolding lit due page_behind text_eq cross_chain_bridge.Scan.History.First.due_of_page
    cross_chain_bridge.Scan.History.First.is_last_page cross_chain_bridge.Scan.History.First.last_id
due_of_asks = refl

first_loop_run : (first_loop 10 asks start).1.processed ≡ lit "t1" ∷ lit "t2" ∷ []
unfolding lit first_loop page_behind text_eq cross_chain_bridge.Scan.History.first_page
    is_tx_scanned new_cached_scanned_txs cross_chain_bridge.Scan.Cached.cache_scanned_tx
first_loop_run = refl

history_loop-processes_none_example : (history_loop 10 history (true, start)).1.processed ≡ []
unfolding lit
history_loop-processes_none_example =
    history_loop-processes_none 10 history ((refl, (refl, (refl, tt))), ((refl, tt), tt))

-- The first swap of the transaction is registered already, and the second one stays unregistered.
second_is_lost :
    (register_swap bench true
      (lit "0xa1")
      (some info ∷ some (record info { bind = lit "0xc" }) ∷ [])
      (none ∷ none ∷ [])
      waiting).1.swapin
    ≡ waiting.swapin
unfolding register_swap lit cross_chain_bridge.Mongodb.Histories.should_register_swap_for_error
    cross_chain_bridge.Mongodb.Swaps.find_swap cross_chain_bridge.Platform.Memory.reply
    cross_chain_bridge.Platform.Memory.lookup cross_chain_bridge.Common.text_eq
    cross_chain_bridge.Mongodb.Documents.get_swap_key cross_chain_bridge.Common.to_lower
second_is_lost = refl

-- Alone, the second one is registered.
second_is_registered :
    length (
      (register_swap bench true
        (lit "0xa1")
        (some (record info { bind = lit "0xc" }) ∷ [])
        (none ∷ [])
        waiting).1.swapin)
    ≡ 2
unfolding register_swap lit cross_chain_bridge.Mongodb.Histories.should_register_swap_for_error
    cross_chain_bridge.Mongodb.Swaps.find_swap cross_chain_bridge.Platform.Memory.reply
    cross_chain_bridge.Platform.Memory.lookup cross_chain_bridge.Common.text_eq
    cross_chain_bridge.Mongodb.Documents.get_swap_key cross_chain_bridge.Common.to_lower
    cross_chain_bridge.Mongodb.Swaps.add_swap cross_chain_bridge.Platform.Memory.insert_docs
second_is_registered = refl
