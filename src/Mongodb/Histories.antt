-- ===== src/Mongodb/Histories.antt =====
-- mongodb/api.go: the history of sent transactions, the latest swap nonces, the used r values, and
-- mongodb/utils.go.
pub mod Nonces
pub mod UsedValues
pub mod Quiet
use cross_chain_bridge.Common.{
  ℕ, Bool, true, false, not, ◌&&◌, ◌||◌, Option, none, some, List, Text, to_lower, text_eq, leb,
  if◌then◌else◌,
}
use cross_chain_bridge.Common.Exec.{Result, ok, err, panic, ◌>>=◌, ◌>>◌, pure, fail, lift, gets}
use cross_chain_bridge.Tokens.Errors.{
  Err, sentinel, errors_is, item_is_dup, tx_with_wrong_memo, tx_with_wrong_value,
  tx_sender_not_registered, bind_addr_is_contract,
}
use cross_chain_bridge.Platform.{Platform, World, M, call, now}
use cross_chain_bridge.Platform.Database.{
  Reply, found, no_documents, read_failed, Written, done, duplicate_key, write_failed,
}
use cross_chain_bridge.Mongodb.Status.{
  SwapStatus, tx_verify_failed, tx_not_stable, tx_sender_not_registered as sender_not_registered,
}
use cross_chain_bridge.Mongodb.Documents.{
  MgoSwapHistory, MgoLatestSwapNonce, MgoUsedRValue, get_swap_nonce_key, get_used_r_key,
}
use cross_chain_bridge.Mongodb.Access.{read_result, write_result, write, write_or_fail}

abbrev pub bool_eq : Bool → Bool → Bool
bool_eq true b = b
bool_eq false b = not b

module _ (p : Platform) where
  put_history : p.histories.Coll → World p → World p
  put_history c w = record w { swap_history = c }

  put_nonces : p.nonces.Coll → World p → World p
  put_nonces c w = record w { latest_swap_nonces = c }

  put_used_r : p.used_r_values.Coll → World p → World p
  put_used_r c w = record w { used_r_value = c }

  unfoldable pub add_swap_history_item : Bool → Text → Text → Text → M p (Unit {0})
  unfolding write_or_fail call put_history
  add_swap_history_item is_swapin tx_id bind swap_tx = do
    key ← call p p.new_object_id
    write_or_fail (λ w. w.swap_history) put_history
        λ c.
          p.histories.insert_one c key
            (record { is_swapin = is_swapin; tx_id = tx_id; bind = bind; swap_tx = swap_tx })

  -- GetSwapHistory looks for the transaction id in lower case.
  unfoldable pub get_swap_history : Bool → Text → Text → M p (List MgoSwapHistory)
  unfolding read_result
  get_swap_history is_swapin tx_id bind w = (
    read_result (
        p.histories.find_all w.swap_history λ d.
          text_eq d.tx_id (to_lower tx_id) && text_eq d.bind bind && bool_eq d.is_swapin is_swapin),
    w,
  )

  -- The search of UpdateLatestSwapNonce, whose error it drops.
  unfoldable pub find_nonce : Text → Bool → M p (Reply MgoLatestSwapNonce)
  unfolding gets
  find_nonce address is_swapin =
      gets λ w. p.nonces.find_by_id w.latest_swap_nonces (get_swap_nonce_key address is_swapin)

  -- UpdateLatestSwapNonce, with the item that was found: it only increases.
  unfoldable pub write_nonce : Text → Bool → ℕ → Reply MgoLatestSwapNonce → M p (Unit {0})
  unfolding write_or_fail now put_nonces pure
  write_nonce address is_swapin nonce (found old) =
      let key = get_swap_nonce_key address is_swapin in
      if leb nonce old.swap_nonce then pure tt else do
        t ← now p
        write_or_fail (λ w. w.latest_swap_nonces) put_nonces
            λ c. p.nonces.update_by_id c key λ d. record d {
              address = to_lower address;
              is_swapin = is_swapin;
              swap_nonce = nonce;
              timestamp = t;
            }
  write_nonce address is_swapin nonce _ = do
    t ← now p
    write_or_fail (λ w. w.latest_swap_nonces) put_nonces
        λ c. p.nonces.insert_one c (get_swap_nonce_key address is_swapin) (record {
          key = get_swap_nonce_key address is_swapin;
          address = to_lower address;
          is_swapin = is_swapin;
          swap_nonce = nonce;
          timestamp = t;
        })

  -- UpdateLatestSwapNonce, with a client. It takes no lock: the calls of two goroutines may meet
  -- between its two steps.
  unfoldable pub update_latest_swap_nonce : Text → Bool → ℕ → M p (Unit {0})
  unfolding write_nonce find_nonce
  update_latest_swap_nonce address is_swapin nonce = do
    old ← find_nonce address is_swapin
    write_nonce address is_swapin nonce old

  insert_used_r : Text → MgoUsedRValue → M p Written
  unfolding write put_used_r
  insert_used_r key d =
      write (λ w. w.used_r_value) put_used_r λ c. p.used_r_values.insert_one c key d

  -- After an insertion that failed for another reason than a duplicate.
  retry_used_r : Text → MgoUsedRValue → Reply MgoUsedRValue → M p (Unit {0})
  unfolding insert_used_r fail write_result lift
  retry_used_r key d (found old) = fail (sentinel item_is_dup)
  retry_used_r key d _ = do written ← insert_used_r key d; lift (write_result written)

  after_used_r : Text → MgoUsedRValue → Written → M p (Unit {0})
  unfolding retry_used_r gets pure fail
  after_used_r key d done = pure tt
  after_used_r key d duplicate_key = fail (sentinel item_is_dup)
  after_used_r key d (write_failed e) = do
    old ← gets λ w. p.used_r_values.find_by_id w.used_r_value key
    retry_used_r key d old

  -- AddUsedRValue
  unfoldable pub add_used_r_value : Text → Text → M p (Unit {0})
  unfolding after_used_r insert_used_r call
  add_used_r_value pubkey r = do
    t ← call p p.clock_milli
    let key = get_used_r_key pubkey r
    let d : MgoUsedRValue = record { key = key; timestamp = t }
    written ← insert_used_r key d
    after_used_r key d written

-- tokens/errors.go: ShouldRegisterSwapForError
unfoldable pub should_register_swap_for_error : Option Err → Bool
should_register_swap_for_error none = true
should_register_swap_for_error (some e) =
    errors_is e tx_with_wrong_memo
    || errors_is e tx_with_wrong_value
    || errors_is e tx_sender_not_registered
    || errors_is e bind_addr_is_contract

-- GetStatusByTokenVerifyError: the status that a swap is registered with.
unfoldable pub get_status_by_token_verify_error : Option Err → SwapStatus
unfolding should_register_swap_for_error
get_status_by_token_verify_error none = tx_not_stable
get_status_by_token_verify_error (some e) =
    if not (should_register_swap_for_error (some e))
    then tx_verify_failed
    else if errors_is e tx_with_wrong_memo
        || errors_is e tx_with_wrong_value
        || errors_is e bind_addr_is_contract
    then tx_not_stable
    else if errors_is e tx_sender_not_registered
    then sender_not_registered
    else tx_not_stable
