-- ===== src/Tests/Stores.antt =====
-- The calls on the database at a concrete swap.
use cross_chain_bridge.Common.{
  ℕ, ◌<◌, ◌≤◌, ◌≡◌, ◌≢◌, ◌⊎◌, inl, inr, refl, false, true, not, ◌||◌, none, some, List, [], ◌∷◌,
  Text, lit, is_empty, to_lower, arith, All, if◌then◌else◌,
}
use cross_chain_bridge.Common.Exec.{ok, panic, is_ok, is_err}
use cross_chain_bridge.Platform.{World}
use cross_chain_bridge.Platform.Database.{updated, found}
use cross_chain_bridge.Platform.Memory.{memory-IsAtomic}
use cross_chain_bridge.Tokens.Types.{
  SwapType, swapin_type, get_token_config, is_swap_tx_on_chain_and_failed,
}
use cross_chain_bridge.Mongodb.Status.{
  keep_status, match_tx_stable, match_tx_not_stable, match_tx_empty, match_tx_failed,
  tx_not_swapped, tx_processed, tx_with_big_value, manual_make_fail, tx_not_stable, can_retry,
  can_reverify,
}
use cross_chain_bridge.Mongodb.Documents.{
  MgoSwap, MgoSwapResult, MgoLatestSwapNonce, MgoUsedRValue, SwapResultUpdateItems, get_swap_key,
  get_used_r_key, get_swap_nonce_key,
}
use cross_chain_bridge.Mongodb.Access.{result_at, swap_at}
use cross_chain_bridge.Mongodb.Swaps.{update_swap_status}
use cross_chain_bridge.Mongodb.Swaps.Register.{
  update_swap_status_restart, update_swap_status-missing,
}
use cross_chain_bridge.Mongodb.Results.{assigns, with_items, update_swap_result}
use cross_chain_bridge.Mongodb.Results.Assignment.{IsAssigned, update_swap_result-IsAssignment}
use cross_chain_bridge.Mongodb.Results.History.{
  set_status, run_calls, IsOrdinary, run_calls_keep_assigned,
}
use cross_chain_bridge.Mongodb.Reswap.{check_can_reswap}
use cross_chain_bridge.Mongodb.Reswap.Refusal.{check_can_reswap-settled}
use cross_chain_bridge.Mongodb.Admin.{reswap, pass_big_value, manual_manage_swap}
use cross_chain_bridge.Mongodb.Admin.Reswapped.{IsReswapped, reswap-ok}
use cross_chain_bridge.Mongodb.Admin.BigValue.{IsReleased, pass_big_value-ok}
use cross_chain_bridge.Mongodb.Admin.Manual.{manual_manage_swap_pass}
use cross_chain_bridge.Mongodb.Histories.{add_used_r_value, update_latest_swap_nonce}
use cross_chain_bridge.Mongodb.Histories.Nonces.{nonce_at, both_read, update_latest_swap_nonce_race}
use cross_chain_bridge.Mongodb.Histories.UsedValues.{
  r_at, add_used_r_value-used, add_used_r_value-ok,
}
use cross_chain_bridge.Worker.Updates.{empty_items}
use cross_chain_bridge.Tests.Bench.{
  bench, config, swap_with, result_with, world_with, waiting, paid_status,
}

abbrev key : Text
key = get_swap_key (lit "0xa1") (lit "usdt") (lit "0xb")

-- A result that was paid out by "0xpaid" with the nonce 4, a failed one, and swaps held back.
abbrev paid : MgoSwapResult
paid = result_with match_tx_not_stable (lit "0xpaid") 4

abbrev failed : MgoSwapResult
failed = result_with match_tx_failed (lit "0xlost") 4

abbrev paid_world : World bench
paid_world = world_with (swap_with tx_processed) paid

abbrev failed_world : World bench
failed_world = world_with (swap_with tx_processed) failed

abbrev big_world : World bench
big_world = world_with (swap_with tx_with_big_value) (result_with tx_with_big_value (lit "") 0)

abbrev stopped_world : World bench
stopped_world = world_with (swap_with manual_make_fail) (result_with match_tx_empty (lit "") 0)

abbrev assignment : SwapResultUpdateItems
assignment = record (empty_items match_tx_not_stable 1000) { swap_tx = lit "0xnew"; swap_nonce = 5 }

bind_given : is_empty (lit "0xb") ≡ false
unfolding lit
bind_given = refl

paid_nonce : IsAssigned paid
paid_nonce = inl (ground arith)

paid_at : result_at bench true paid_world key ≡ some paid
unfolding lit cross_chain_bridge.Platform.Memory.lookup cross_chain_bridge.Common.text_eq
    get_swap_key to_lower
paid_at = refl

follow_ups-IsOrdinary :
    All IsOrdinary
      (set_status true (lit "0xa1") (lit "usdt") (lit "0xb") match_tx_stable 1002 (lit "") ∷ [])
unfolding lit
follow_ups-IsOrdinary = ((λ q. ground arith), tt)

run_calls_keep_assigned_example :
    (e : MgoSwapResult) × (result_at bench true
        (run_calls bench
          (set_status true (lit "0xa1") (lit "usdt") (lit "0xb") match_tx_stable 1002 (lit "") ∷ [])
          paid_world)
        key
      ≡ some e)
    × (e.swap_nonce ≡ 4)
    × ((is_empty (lit "0xpaid") || not (is_empty e.swap_tx)) ≡ true)
run_calls_keep_assigned_example =
    run_calls_keep_assigned bench (memory-IsAtomic MgoSwapResult)
      (set_status true (lit "0xa1") (lit "usdt") (lit "0xb") match_tx_stable 1002 (lit "") ∷ [])
      paid_world true key paid follow_ups-IsOrdinary paid_nonce paid_at

assigned_ok :
    is_ok (update_swap_result bench true (lit "0xa1") (lit "usdt") (lit "0xb") assignment waiting).0
    ≡ true
unfolding update_swap_result assigns cross_chain_bridge.Mongodb.Results.find_swap_result lit
    cross_chain_bridge.Platform.Memory.reply cross_chain_bridge.Platform.Memory.lookup
    cross_chain_bridge.Common.text_eq get_swap_key to_lower
    cross_chain_bridge.Mongodb.Results.update_result
assigned_ok = refl

update_swap_result-IsAssignment_example :
    let k = get_swap_key (lit "0xa1") (to_lower (lit "usdt")) (lit "0xb") in
    let w' =
      (update_swap_result bench true (lit "0xa1") (lit "usdt") (lit "0xb") assignment waiting).1 in
    (d : MgoSwapResult) × (result_at bench true waiting k ≡ some d)
    × (¬ IsAssigned d)
    × ((j : Text)
        → result_at bench true w' j
          ≡ updated (result_at bench true waiting) k (with_items assignment) j)
update_swap_result-IsAssignment_example =
    update_swap_result-IsAssignment bench (memory-IsAtomic MgoSwapResult) waiting true (lit "0xa1")
      (lit "usdt") (lit "0xb") assignment bind_given (inl (ground arith)) assigned_ok

reswapped : (reswap bench true (lit "0xa1") (lit "usdt") (lit "0xb") failed_world).0 ≡ ok tt
unfolding reswap cross_chain_bridge.Mongodb.Swaps.find_swap lit
    cross_chain_bridge.Platform.Memory.reply cross_chain_bridge.Platform.Memory.lookup
    cross_chain_bridge.Common.text_eq get_swap_key to_lower
    cross_chain_bridge.Mongodb.Status.can_reswap cross_chain_bridge.Mongodb.Results.find_swap_result
    check_can_reswap get_token_config cross_chain_bridge.Tokens.Types.get_token_pair_config
    cross_chain_bridge.Mongodb.Results.update_swap_result_status
    cross_chain_bridge.Mongodb.Results.update_result update_swap_status
reswapped = refl

reswap-ok_example :
    IsReswapped bench true key failed_world
      (reswap bench true (lit "0xa1") (lit "usdt") (lit "0xb") failed_world).1
reswap-ok_example =
    reswap-ok bench (memory-IsAtomic MgoSwapResult) true (lit "0xa1") (lit "usdt") (lit "0xb")
      failed_world bind_given reswapped

-- The result's transaction is in a block, and did not fail.
known : (bench.get_transaction_status false (lit "0xpaid") 0).0 ≡ ok paid_status
unfolding lit cross_chain_bridge.Common.text_eq
known = refl

not_failed :
    is_swap_tx_on_chain_and_failed (some paid_status) (get_token_config config (lit "usdt") false)
    ≡ false
unfolding is_swap_tx_on_chain_and_failed
not_failed = refl

check_can_reswap-settled_example :
    is_err (check_can_reswap bench true (result_with match_tx_failed (lit "0xpaid") 4) paid_world).0
    ≡ true
check_can_reswap-settled_example =
    check_can_reswap-settled bench true (result_with match_tx_failed (lit "0xpaid") 4) paid_status
      paid_world known (ground arith) not_failed

passed : (pass_big_value bench true (lit "0xa1") (lit "usdt") (lit "0xb") big_world).0 ≡ ok tt
unfolding pass_big_value cross_chain_bridge.Mongodb.Swaps.find_swap lit
    cross_chain_bridge.Platform.Memory.reply cross_chain_bridge.Platform.Memory.lookup
    cross_chain_bridge.Common.text_eq get_swap_key to_lower
    cross_chain_bridge.Mongodb.Results.find_swap_result
    cross_chain_bridge.Mongodb.Results.update_swap_result_status
    cross_chain_bridge.Mongodb.Results.update_result update_swap_status
passed = refl

pass_big_value-ok_example :
    IsReleased bench true key big_world
      (pass_big_value bench true (lit "0xa1") (lit "usdt") (lit "0xb") big_world).1
pass_big_value-ok_example =
    pass_big_value-ok bench (memory-IsAtomic MgoSwapResult) (memory-IsAtomic MgoSwap) true
      (lit "0xa1") (lit "usdt") (lit "0xb") big_world bind_given passed

stopped_at : swap_at bench true stopped_world key ≡ some (swap_with manual_make_fail)
unfolding lit cross_chain_bridge.Platform.Memory.lookup cross_chain_bridge.Common.text_eq
    get_swap_key to_lower
stopped_at = refl

manual_manage_swap_pass_example :
    swap_at bench true
      (manual_manage_swap bench true true
        (lit "0xa1")
        (lit "usdt")
        (lit "0xb")
        (lit "")
        stopped_world).1
      key
    ≡ some (swap_with manual_make_fail)
manual_manage_swap_pass_example =
    manual_manage_swap_pass bench (memory-IsAtomic MgoSwap) true (lit "0xa1") (lit "usdt")
      (lit "0xb") (lit "") stopped_world (swap_with manual_make_fail) bind_given stopped_at refl

cannot_restart : can_retry manual_make_fail || can_reverify manual_make_fail ≡ false
unfolding can_retry can_reverify
cannot_restart = refl

update_swap_status_restart_example :
    swap_at bench true
      (update_swap_status bench true
        (lit "0xa1")
        (lit "usdt")
        (lit "0xb")
        tx_not_stable
        1000
        (lit "")
        stopped_world).1
      key
    ≡ some (swap_with manual_make_fail)
update_swap_status_restart_example =
    update_swap_status_restart bench (memory-IsAtomic MgoSwap) stopped_world true (lit "0xa1")
      (lit "usdt") (lit "0xb") 1000 (lit "") true key (swap_with manual_make_fail) bind_given
      cannot_restart stopped_at

absent_swap :
    swap_at bench true waiting (get_swap_key (lit "0xa2") (to_lower (lit "usdt")) (lit "0xb"))
    ≡ none
unfolding lit cross_chain_bridge.Platform.Memory.lookup cross_chain_bridge.Common.text_eq
    get_swap_key to_lower
absent_swap = refl

update_swap_status-missing_example :
    update_swap_status bench true
      (lit "0xa2")
      (lit "usdt")
      (lit "0xb")
      tx_not_stable
      1000
      (lit "")
      waiting
    ≡ (panic, waiting)
update_swap_status-missing_example =
    update_swap_status-missing bench (memory-IsAtomic MgoSwap) waiting true (lit "0xa2")
      (lit "usdt") (lit "0xb") 1000 (lit "") bind_given absent_swap

-- A nonce that is kept, and an r value that was used.
abbrev old_nonce : MgoLatestSwapNonce
old_nonce = record {
  key = lit "0xmpc:true";
  address = lit "0xmpc";
  is_swapin = true;
  swap_nonce = 3;
  timestamp = 400;
}

abbrev used_value : MgoUsedRValue
used_value = record { key = lit "r1:pk"; timestamp = 400 }

abbrev used_world : World bench
used_world = record waiting {
  latest_swap_nonces = (lit "0xmpc:true", old_nonce) ∷ [];
  used_r_value = (lit "r1:pk", used_value) ∷ [];
}

nonce_there :
    bench.nonces.find_by_id used_world.latest_swap_nonces (get_swap_nonce_key (lit "0xMPC") true)
    ≡ found old_nonce
unfolding cross_chain_bridge.Platform.Memory.reply cross_chain_bridge.Platform.Memory.lookup
    cross_chain_bridge.Common.text_eq get_swap_nonce_key to_lower lit
    cross_chain_bridge.Common.bool_text
nonce_there = refl

first_written : (update_latest_swap_nonce bench (lit "0xMPC") true 8 used_world).0 ≡ ok tt
unfolding lit update_latest_swap_nonce cross_chain_bridge.Platform.Memory.reply
    cross_chain_bridge.Platform.Memory.lookup cross_chain_bridge.Common.text_eq get_swap_nonce_key
    to_lower cross_chain_bridge.Common.bool_text
first_written = refl

both_written : (both_read bench (lit "0xMPC") true 8 5 used_world).0 ≡ ok tt
unfolding lit both_read cross_chain_bridge.Platform.Memory.reply
    cross_chain_bridge.Platform.Memory.lookup cross_chain_bridge.Common.text_eq get_swap_nonce_key
    to_lower cross_chain_bridge.Common.bool_text
both_written = refl

update_latest_swap_nonce_race_example :
    ((e : MgoLatestSwapNonce) × (nonce_at bench
          (update_latest_swap_nonce bench
            (lit "0xMPC")
            true
            5
            (update_latest_swap_nonce bench (lit "0xMPC") true 8 used_world).1).1
          (get_swap_nonce_key (lit "0xMPC") true)
        ≡ some e)
      × (8 ≤ e.swap_nonce))
    × ((e : MgoLatestSwapNonce) × (nonce_at bench
            (both_read bench (lit "0xMPC") true 8 5 used_world).1
            (get_swap_nonce_key (lit "0xMPC") true)
          ≡ some e)
        × (e.swap_nonce ≡ 5))
update_latest_swap_nonce_race_example =
    update_latest_swap_nonce_race bench (memory-IsAtomic MgoLatestSwapNonce) (lit "0xMPC") true 5 8
      used_world old_nonce nonce_there (omega arith) (omega arith) first_written both_written

value_there : r_at bench used_world (get_used_r_key (lit "pk") (lit "r1")) ≡ some used_value
unfolding lit cross_chain_bridge.Platform.Memory.lookup cross_chain_bridge.Common.text_eq
    get_used_r_key to_lower
value_there = refl

add_used_r_value-used_example :
    is_ok (add_used_r_value bench (lit "pk") (lit "r1") used_world).0 ≡ false
add_used_r_value-used_example =
    add_used_r_value-used bench (memory-IsAtomic MgoUsedRValue) (lit "pk") (lit "r1") used_world
      used_value value_there

value_added : is_ok (add_used_r_value bench (lit "pk") (lit "r2") used_world).0 ≡ true
unfolding add_used_r_value cross_chain_bridge.Platform.Memory.insert_docs
    cross_chain_bridge.Common.text_eq get_used_r_key to_lower lit
value_added = refl

add_used_r_value-ok_example :
    (e : MgoUsedRValue) × (r_at bench
        (add_used_r_value bench (lit "pk") (lit "r2") used_world).1
        (get_used_r_key (lit "pk") (lit "r2"))
      ≡ some e)
add_used_r_value-ok_example =
    add_used_r_value-ok bench (memory-IsAtomic MgoUsedRValue) (lit "pk") (lit "r2") used_world
      value_added
