-- ===== src/Worker/Cache.antt =====
-- worker/swap.go: the caches of the swap tasks in work and of the swaps that were sent.
use cross_chain_bridge.Common.{
  ℕ, Bool, ◌∷◌, ◌++◌, List, Text, lit, to_lower, bool_text, leb, contains, remove, length,
  if◌then◌else◌,
}
use cross_chain_bridge.Common.Exec.{ok, err, modify}
use cross_chain_bridge.Tokens.Errors.{sentinel, already_swapped}
use cross_chain_bridge.Platform.{Platform, World, M}

-- getSwapCacheKey
unfoldable pub get_swap_cache_key : Bool → Text → Text → Text
get_swap_cache_key is_swapin tx_id bind =
    to_lower (tx_id ++ (lit ":" ++ (bind ++ (lit ":" ++ bool_text is_swapin))))

abbrev pub max_cached : ℕ
max_cached = 1000

module _ (p : Platform) where
  -- Adds a key to a cache of at most 1000; a full cache gives up one of its elements first.
  unfoldable pub add_cached : Text → List Text → List Text
  add_cached key keys =
      let room = if leb max_cached (length keys) then p.pop keys else keys in
      if contains key room then room else key ∷ room

  -- checkAndUpdateProcessSwapTaskCache
  unfoldable pub check_and_update_cache : Text → M p (Unit {0})
  unfolding add_cached
  check_and_update_cache key w =
      if contains key w.cached_swap_tasks
      then (err (sentinel already_swapped), w)
      else (ok tt, record w { cached_swap_tasks = add_cached key w.cached_swap_tasks })

  -- DeleteCachedSwap, and the deferred removal of doSwap
  unfoldable pub delete_cached_swap : Text → M p (Unit {0})
  unfolding modify
  delete_cached_swap key =
      modify λ w. record w { cached_swap_tasks = remove key w.cached_swap_tasks }

  unfoldable pub add_swap_history : Bool → Text → Text → M p (Unit {0})
  unfolding add_cached modify
  add_swap_history is_swapin tx_id bind = modify λ w. record w {
    cached_swap_history =
        add_cached (get_swap_cache_key is_swapin tx_id bind) w.cached_swap_history;
  }

  abbrev pub is_swap_history_exist : Bool → Text → Text → World p → Bool
  is_swap_history_exist is_swapin tx_id bind w =
      contains (get_swap_cache_key is_swapin tx_id bind) w.cached_swap_history
