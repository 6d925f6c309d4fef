-- ===== src/Mongodb/Access.antt =====
-- The driver's errors as the program's, and the calls that package mongodb makes on a collection of
-- the state: mgoError of mongodb/errors.go and findSwapOrSwapResult of mongodb/api.go.
use cross_chain_bridge.Common.{
  ◌≡◌, arith, Bool, true, false, ◌&&◌, Option, Text, lit, is_empty, to_lower, text_eq, ◌++◌,
  if◌then◌else◌,
}
use cross_chain_bridge.Common.Exec.{Result, ok, err, is_ok}
use cross_chain_bridge.Tokens.Errors.{Err, sentinel, message, item_not_found, item_is_dup}
use cross_chain_bridge.Platform.{Platform, World, M}
use cross_chain_bridge.Platform.Database.{
  Collection, Reply, found, no_documents, read_failed, Written, done, duplicate_key, write_failed,
}
use cross_chain_bridge.Mongodb.Documents.{MgoSwap, MgoSwapResult, get_swap_key}

unfoldable pub mgo_error_text : Text → Err
mgo_error_text e = message (lit "mgoError: " ++ e)

-- mgoError of a read and of a write
unfoldable pub read_result : {A : Type 0} → Reply A → Result Err A
read_result (found a) = ok a
read_result no_documents = err (sentinel item_not_found)
read_result (read_failed e) = err (mgo_error_text e)

unfoldable pub write_result : Written → Result Err (Unit {0})
write_result done = ok tt
write_result duplicate_key = err (sentinel item_is_dup)
write_result (write_failed e) = err (mgo_error_text e)

pub write_result-done : (r : Written) → is_ok (write_result r) ≡ true → r ≡ done
unfolding write_result
write_result-done r h = ground arith

-- A write to a collection `get w` of the state, with the driver's answer.
unfoldable pub write :
    {p : Platform} {C : Type 0}
    → (World p → C)
    → (C → World p → World p)
    → (C → C × Written)
    → M p Written
write get put f w = let (c, r) = f (get w) in (ok r, put c w)

-- A write whose error is the result.
unfoldable pub write_or_fail :
    {p : Platform} {C : Type 0}
    → (World p → C)
    → (C → World p → World p)
    → (C → C × Written)
    → M p (Unit {0})
unfolding write_result
write_or_fail get put f w = let (c, r) = f (get w) in (write_result r, put c w)

module _ (p : Platform) where
  -- The register and the results of a direction.
  abbrev pub swap_coll : Bool → World p → p.swaps.Coll
  swap_coll is_swapin w = if is_swapin then w.swapin else w.swapout

  abbrev pub put_swap_coll : Bool → p.swaps.Coll → World p → World p
  put_swap_coll true c w = record w { swapin = c }
  put_swap_coll false c w = record w { swapout = c }

  abbrev pub result_coll : Bool → World p → p.results.Coll
  result_coll is_swapin w = if is_swapin then w.swapin_result else w.swapout_result

  abbrev pub put_result_coll : Bool → p.results.Coll → World p → World p
  put_result_coll true c w = record w { swapin_result = c }
  put_result_coll false c w = record w { swapout_result = c }

  -- The document of a direction under a key.
  abbrev pub swap_at : Bool → World p → Text → Option MgoSwap
  swap_at is_swapin w key = p.swaps.document (swap_coll is_swapin w) key

  abbrev pub result_at : Bool → World p → Text → Option MgoSwapResult
  result_at is_swapin w key = p.results.document (result_coll is_swapin w) key

-- findSwapOrSwapResult: by key, or without a bind address by transaction and pair.
unfoldable pub find_swap_or_swap_result :
    {D : Type 0} (c : Collection D)
    → (D → Text)
    → (D → Text)
    → c.Coll
    → Text
    → Text
    → Text
    → Result Err D
unfolding read_result
find_swap_or_swap_result c tx_id_of pair_id_of s tx_id pair_id bind =
    if is_empty bind
    then read_result (
        c.find_one s
          (λ d. text_eq (tx_id_of d) (to_lower tx_id) && text_eq (pair_id_of d) (to_lower pair_id)))
    else read_result (c.find_by_id s (get_swap_key tx_id pair_id bind))
