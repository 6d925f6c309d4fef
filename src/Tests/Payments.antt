-- ===== src/Tests/Payments.antt =====
-- The payments at a concrete swap.
use cross_chain_bridge.Common.{
  ℕ, ◌≡◌, ◌≢◌, ◌⊎◌, inl, inr, refl, ap, false, true, none, some, List, [], ◌∷◌, lit, length,
  is_empty, arith, All,
}
use cross_chain_bridge.Common.Exec.{Result, ok, err, is_ok}
use cross_chain_bridge.Platform.{World}
use cross_chain_bridge.Platform.Memory.{memory-IsAtomic}
use cross_chain_bridge.Mongodb.Results.History.{ResultCall, update, set_status, run_calls}
use cross_chain_bridge.Mongodb.Results.History.{IsOrdinary}
use cross_chain_bridge.Mongodb.Documents.{MgoSwapResult}
use cross_chain_bridge.Mongodb.Status.{
  status_eq, match_tx_empty, reswapping, keep_status, match_tx_stable, match_tx_not_stable,
}
use cross_chain_bridge.Worker.Updates.{empty_items}
use cross_chain_bridge.Worker.Prevent.{prevent_reswap}
use cross_chain_bridge.Worker.Prevent.Quiet.{
  IsGiven, prevent_reswap-IsGiven, prevent_reswap-history,
}
use cross_chain_bridge.Mongodb.Histories.{get_swap_history}
use cross_chain_bridge.Platform.Frame.{IsQuiet}
use cross_chain_bridge.Worker.Swap.{do_swap}
use cross_chain_bridge.Worker.Send.Sends.{Sends}
use cross_chain_bridge.Worker.Swap.Resends.{do_swap-Sends}
use cross_chain_bridge.Worker.Swap.Once.{IsPaidOut, do_swap_sends, do_swap_once}
use cross_chain_bridge.Tests.Bench.{bench, bench-SignsWithHash, args, waiting, result_with}

abbrev paid : World bench
paid = (do_swap bench args waiting).1

sends : length paid.sent ≡ 1
unfolding do_swap cross_chain_bridge.Worker.Cache.check_and_update_cache
    cross_chain_bridge.Common.contains cross_chain_bridge.Worker.Swap.prepare_swap
    cross_chain_bridge.Tokens.Types.get_token_config
    cross_chain_bridge.Tokens.Types.get_token_pair_config cross_chain_bridge.Common.text_eq lit
    cross_chain_bridge.Common.to_lower cross_chain_bridge.Mongodb.Results.find_swap_result
    cross_chain_bridge.Platform.Memory.reply cross_chain_bridge.Platform.Memory.lookup
    cross_chain_bridge.Mongodb.Documents.get_swap_key
    cross_chain_bridge.Worker.Prevent.prevent_reswap
    cross_chain_bridge.Worker.Prevent.prevent_reswap_by_history
    cross_chain_bridge.Mongodb.Histories.get_swap_history cross_chain_bridge.Platform.Memory.select
    cross_chain_bridge.Worker.Updates.update_swap_result cross_chain_bridge.Common.Exec.attempt
    cross_chain_bridge.Common.Exec.crash cross_chain_bridge.Common.Exec.fail
    cross_chain_bridge.Common.Exec.gets cross_chain_bridge.Common.Exec.lift
    cross_chain_bridge.Common.Exec.modify cross_chain_bridge.Common.Exec.pure
    cross_chain_bridge.Common.remove cross_chain_bridge.Common.bool_text
    cross_chain_bridge.Common.lower cross_chain_bridge.Mongodb.Access.find_swap_or_swap_result
    cross_chain_bridge.Mongodb.Access.mgo_error_text cross_chain_bridge.Mongodb.Access.read_result
    cross_chain_bridge.Mongodb.Access.write_or_fail cross_chain_bridge.Mongodb.Access.write_result
    cross_chain_bridge.Mongodb.Histories.add_swap_history_item
    cross_chain_bridge.Mongodb.Results.assigns cross_chain_bridge.Mongodb.Results.update_result
    cross_chain_bridge.Mongodb.Results.update_swap_result
    cross_chain_bridge.Mongodb.Results.with_items cross_chain_bridge.Mongodb.Status.can_retry
    cross_chain_bridge.Mongodb.Status.can_reverify cross_chain_bridge.Mongodb.Status.status_code
    cross_chain_bridge.Mongodb.Status.status_eq cross_chain_bridge.Mongodb.Status.status_text
    cross_chain_bridge.Mongodb.Swaps.find_swap cross_chain_bridge.Mongodb.Swaps.status_memo
    cross_chain_bridge.Mongodb.Swaps.update_swap_status cross_chain_bridge.Mongodb.Swaps.with_status
    cross_chain_bridge.Platform.call cross_chain_bridge.Platform.call_result
    cross_chain_bridge.Platform.now cross_chain_bridge.Tokens.Types.get_tx_nonce
    cross_chain_bridge.Tokens.Types.is_status_ok cross_chain_bridge.Worker.Cache.add_cached
    cross_chain_bridge.Worker.Cache.add_swap_history
    cross_chain_bridge.Worker.Cache.delete_cached_swap
    cross_chain_bridge.Worker.Cache.get_swap_cache_key cross_chain_bridge.Worker.Prevent.has_paid
    cross_chain_bridge.Worker.Prevent.is_forbidden cross_chain_bridge.Worker.Prevent.is_swapped
    cross_chain_bridge.Worker.Send.send cross_chain_bridge.Worker.Send.send_signed_transaction
    cross_chain_bridge.Worker.Swap.finish_swap cross_chain_bridge.Worker.Swap.record_swap
    cross_chain_bridge.Worker.Updates.match_items cross_chain_bridge.Worker.Updates.update_by_type
    cross_chain_bridge.Platform.Memory.insert_docs
sends = refl

paid_sent : paid.sent ≢ waiting.sent
paid_sent q = let n : length paid.sent ≡ length waiting.sent = ap length q in ground (arith, sends)

-- After the payment, the height of its transaction is written and it becomes stable.
abbrev follow_ups : List ResultCall
follow_ups =
    update true (lit "0xa1") (lit "usdt") (lit "0xb") (empty_items keep_status 1001)
    ∷ set_status true (lit "0xa1") (lit "usdt") (lit "0xb") match_tx_stable 1002 (lit "")
    ∷ []

follow_ups-IsOrdinary : All IsOrdinary follow_ups
unfolding lit
follow_ups-IsOrdinary = (refl, ((λ q. ground arith), tt))

bind_given : is_empty args.bind ≡ false
unfolding lit
bind_given = refl

do_swap_once_example :
    (do_swap bench args (run_calls bench follow_ups paid)).1.sent
    ≡ (run_calls bench follow_ups paid).sent
do_swap_once_example =
    do_swap_once bench (memory-IsAtomic MgoSwapResult) bench-SignsWithHash args waiting follow_ups
      args bind_given paid_sent follow_ups-IsOrdinary refl

do_swap_sends_example : (paid.sent ≡ waiting.sent) ⊎ IsPaidOut bench args waiting paid
do_swap_sends_example =
    do_swap_sends bench (memory-IsAtomic MgoSwapResult) bench-SignsWithHash args waiting bind_given

is_paid : IsGiven (result_with match_tx_not_stable (lit "0xh") 4)
is_paid = inl (ground arith)

prevent_reswap-IsGiven_example :
    (is_ok (prevent_reswap bench true (result_with match_tx_not_stable (lit "0xh") 4) waiting).0
      ≡ false)
    × IsQuiet waiting
        (prevent_reswap bench true (result_with match_tx_not_stable (lit "0xh") 4) waiting).1
prevent_reswap-IsGiven_example =
    prevent_reswap-IsGiven bench true (result_with match_tx_not_stable (lit "0xh") 4) waiting
      is_paid

-- A swap whose history has a transaction.
abbrev sent_before : World bench
sent_before = record waiting {
  swap_history =
      (
        lit "id",
        record { is_swapin = true; tx_id = lit "0xa1"; bind = lit "0xb"; swap_tx = lit "0xh" },
      )
      ∷ [];
}

in_history :
    (get_swap_history bench true (lit "0xa1") (lit "0xb") sent_before).0
    ≡ ok (
        record { is_swapin = true; tx_id = lit "0xa1"; bind = lit "0xb"; swap_tx = lit "0xh" } ∷ [])
unfolding get_swap_history cross_chain_bridge.Platform.Memory.select
    cross_chain_bridge.Common.text_eq lit cross_chain_bridge.Common.to_lower
in_history = refl

not_reswapping : status_eq match_tx_empty reswapping ≡ false
unfolding status_eq
not_reswapping = refl

prevent_reswap-history_example :
    is_ok (prevent_reswap bench true (result_with match_tx_empty (lit "") 0) sent_before).0 ≡ false
prevent_reswap-history_example =
    prevent_reswap-history bench true (result_with match_tx_empty (lit "") 0)
      (record { is_swapin = true; tx_id = lit "0xa1"; bind = lit "0xb"; swap_tx = lit "0xh" }) []
      sent_before in_history not_reswapping

do_swap-Sends_example : Sends bench args waiting paid
do_swap-Sends_example =
    do_swap-Sends bench (memory-IsAtomic MgoSwapResult) bench-SignsWithHash args waiting bind_given
