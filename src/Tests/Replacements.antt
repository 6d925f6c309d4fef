-- ===== src/Tests/Replacements.antt =====
-- The replacement of a payment that waits to become stable.
use cross_chain_bridge.Common.{ℕ, ◌≡◌, refl, true, false, Option, none, Text, lit}
use cross_chain_bridge.Common.Int.{ℤ}
use cross_chain_bridge.Common.Exec.{Result, ok}
use cross_chain_bridge.Platform.{World}
use cross_chain_bridge.Mongodb.Status.{tx_processed, match_tx_not_stable}
use cross_chain_bridge.Mongodb.Documents.{MgoSwapResult}
use cross_chain_bridge.Worker.Replace.{replace_swap}
use cross_chain_bridge.Worker.Replace.Nonce.{IsReplaceable, IsBuilt, replace_swap-IsReplaceable}
use cross_chain_bridge.Tests.Bench.{bench, swap_with, result_with, world_with}

-- A payment with the nonce 10; the account is at 9.
abbrev stuck : World bench
stuck = world_with (swap_with tx_processed) (result_with match_tx_not_stable (lit "0xold") 10)

abbrev no_number : Text → Option ℤ
no_number s = none

run_lem :
    (replace_swap bench no_number true (lit "0xa1") (lit "usdt") (lit "0xb") (lit "") false stuck).0
    ≡ ok (lit "0xh")
unfolding replace_swap lit cross_chain_bridge.Mongodb.Swaps.find_swap
    cross_chain_bridge.Platform.Memory.reply cross_chain_bridge.Platform.Memory.lookup
    cross_chain_bridge.Common.text_eq cross_chain_bridge.Mongodb.Documents.get_swap_key
    cross_chain_bridge.Common.to_lower cross_chain_bridge.Mongodb.Results.find_swap_result
    cross_chain_bridge.Worker.Stable.check_if_swap_nonce_has_passed
    cross_chain_bridge.Tokens.Types.get_token_config
    cross_chain_bridge.Tokens.Types.get_token_pair_config
    cross_chain_bridge.Mongodb.Histories.get_swap_history cross_chain_bridge.Platform.Memory.select
    cross_chain_bridge.Worker.Updates.verify_swap_transaction
    cross_chain_bridge.Worker.Swap.reverified cross_chain_bridge.Common.equal_fold
    cross_chain_bridge.Common.Int.big_string cross_chain_bridge.Common.Exec.attempt
    cross_chain_bridge.Common.Exec.attempted cross_chain_bridge.Common.Exec.crash
    cross_chain_bridge.Common.Exec.fail cross_chain_bridge.Common.Exec.gets
    cross_chain_bridge.Common.Exec.lift cross_chain_bridge.Common.Exec.modify
    cross_chain_bridge.Common.Exec.pure cross_chain_bridge.Common.contains
    cross_chain_bridge.Common.bool_text cross_chain_bridge.Common.decimal
    cross_chain_bridge.Common.lower cross_chain_bridge.Mongodb.Access.find_swap_or_swap_result
    cross_chain_bridge.Mongodb.Access.mgo_error_text cross_chain_bridge.Mongodb.Access.read_result
    cross_chain_bridge.Mongodb.Access.write_or_fail cross_chain_bridge.Mongodb.Access.write_result
    cross_chain_bridge.Mongodb.Histories.add_swap_history_item
    cross_chain_bridge.Mongodb.Results.contains_fold
    cross_chain_bridge.Mongodb.Results.update_result
    cross_chain_bridge.Mongodb.Results.update_swap_result_old_txs
    cross_chain_bridge.Mongodb.Results.update_swap_result_status
    cross_chain_bridge.Mongodb.Results.with_old_tx
    cross_chain_bridge.Mongodb.Results.with_result_status
    cross_chain_bridge.Mongodb.Status.can_retry cross_chain_bridge.Mongodb.Status.can_reverify
    cross_chain_bridge.Mongodb.Status.status_code cross_chain_bridge.Mongodb.Status.status_eq
    cross_chain_bridge.Mongodb.Swaps.status_memo cross_chain_bridge.Mongodb.Swaps.update_swap_status
    cross_chain_bridge.Mongodb.Swaps.with_status cross_chain_bridge.Platform.call
    cross_chain_bridge.Platform.call_result cross_chain_bridge.Platform.now
    cross_chain_bridge.Tokens.Errors.error_text cross_chain_bridge.Tokens.Errors.errors_is
    cross_chain_bridge.Tokens.Errors.sentinel_code cross_chain_bridge.Tokens.Errors.sentinel_text
    cross_chain_bridge.Tokens.Types.get_tx_nonce cross_chain_bridge.Worker.Cache.add_cached
    cross_chain_bridge.Worker.Cache.add_swap_history
    cross_chain_bridge.Worker.Cache.get_swap_cache_key
    cross_chain_bridge.Worker.Replace.build_and_send
    cross_chain_bridge.Worker.Replace.prevent_replaceswap_by_history
    cross_chain_bridge.Worker.Replace.replace_args cross_chain_bridge.Worker.Replace.replace_num_of
    cross_chain_bridge.Worker.Replace.replace_verified
    cross_chain_bridge.Worker.Replace.verify_replace_swap
    cross_chain_bridge.Worker.Send.reverify_swap cross_chain_bridge.Worker.Send.send
    cross_chain_bridge.Worker.Send.send_signed_transaction
    cross_chain_bridge.Worker.Stable.is_swap_result_tx_on_chain
    cross_chain_bridge.Worker.Swap.sign_once cross_chain_bridge.Worker.Updates.checked_swap_info
    cross_chain_bridge.Worker.Updates.mark_swap_result_failed
    cross_chain_bridge.Platform.Memory.insert_docs
run_lem = refl

replace_swap-IsReplaceable_example :
    (res : MgoSwapResult) × IsReplaceable bench true
      (lit "0xa1")
      (lit "usdt")
      (lit "0xb")
      false
      stuck
      res
    × IsBuilt bench true res
replace_swap-IsReplaceable_example =
    replace_swap-IsReplaceable bench no_number true (lit "0xa1") (lit "usdt") (lit "0xb") (lit "")
      false stuck (lit "0xh") run_lem
