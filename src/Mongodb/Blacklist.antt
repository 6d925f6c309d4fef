-- ===== src/Mongodb/Blacklist.antt =====
-- mongodb/adminapi.go: the blacklist of accounts by pair.
use cross_chain_bridge.Common.{Bool, true, false, Text, to_lower}
use cross_chain_bridge.Common.Exec.{Result, ok, err, ◌>>=◌}
use cross_chain_bridge.Tokens.Errors.{Err, message}
use cross_chain_bridge.Platform.{Platform, World, M, now}
use cross_chain_bridge.Platform.Database.{Reply, found, no_documents, read_failed}
use cross_chain_bridge.Mongodb.Documents.{MgoBlackAccount, get_blacklist_key}
use cross_chain_bridge.Mongodb.Access.{write_or_fail}

-- QueryBlacklist: the driver's error comes back as it is.
unfoldable pub blacklisted : Reply MgoBlackAccount → Result Err Bool
blacklisted (found a) = ok true
blacklisted no_documents = ok false
blacklisted (read_failed e) = err (message e)

module _ (p : Platform) where
  put_blacklist : p.blacklists.Coll → World p → World p
  put_blacklist c w = record w { blacklist = c }

  unfoldable pub add_to_blacklist : Text → Text → M p (Unit {0})
  unfolding write_or_fail now put_blacklist
  add_to_blacklist address pair_id = do
    t ← now p
    write_or_fail (λ w. w.blacklist) put_blacklist
        λ c. p.blacklists.insert_one c (get_blacklist_key address pair_id) (record {
          key = get_blacklist_key address pair_id;
          address = to_lower address;
          pair_id = to_lower pair_id;
          timestamp = t;
        })

  unfoldable pub remove_from_blacklist : Text → Text → M p (Unit {0})
  unfolding write_or_fail put_blacklist
  remove_from_blacklist address pair_id =
      write_or_fail (λ w. w.blacklist) put_blacklist
        λ c. p.blacklists.delete_by_id c (get_blacklist_key address pair_id)

  unfoldable pub query_blacklist : Text → Text → M p Bool
  unfolding blacklisted
  query_blacklist address pair_id w =
      (blacklisted (p.blacklists.find_by_id w.blacklist (get_blacklist_key address pair_id)), w)
