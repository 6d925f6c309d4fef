-- ===== src/Tests/Jobs.antt =====
-- The jobs and the swapped values at concrete swaps.
use cross_chain_bridge.Common.{
  ℕ, ◌+◌, ◌*◌, ◌^◌, ◌≤◌, ◌<◌, ◌≡◌, ◌≢◌, ◌↔◌, ◌⊎◌, inl, inr, refl, sym, ◌∙◌, Bool, false, true, not,
  ◌||◌, Option, none, some, List, [], ◌∷◌, Text, lit, arith,
}
use cross_chain_bridge.Common.Int.{pos, ◌≤ℤ◌, ◌+ℤ◌, ltb_ℤ, is_positive}
use cross_chain_bridge.Common.Exec.{Result, ok, panic}
use cross_chain_bridge.Platform.{World}
use cross_chain_bridge.Tokens.Errors.{Err}
use cross_chain_bridge.Tokens.Types.{TokenConfig, get_token_config, TxStatus}
use cross_chain_bridge.Tokens.SwapValue.{swap_fee, token_swapped_value}
use cross_chain_bridge.Tokens.SwapValue.Bounds.{IsChecked}
use cross_chain_bridge.Tokens.SwapValue.Converted.{
  token_swapped_value_bounds, token_swapped_value_fee, token_swapped_value-positive_iff,
}
use cross_chain_bridge.Tokens.SwapValue.Monotone.{token_swapped_value_mono}
use cross_chain_bridge.Mongodb.Status.{
  match_tx_not_stable, tx_not_stable as status_not_stable, tx_not_swapped,
}
use cross_chain_bridge.Mongodb.Documents.{MgoSwap, MgoSwapResult}
use cross_chain_bridge.Platform.Memory.{memory-IsAtomic}
use cross_chain_bridge.Mongodb.Access.{swap_at}
use cross_chain_bridge.Mongodb.Swaps.{with_status}
use cross_chain_bridge.Worker.Verify.{update_swap_status}
use cross_chain_bridge.Worker.Verify.Released.{IsSmall, update_swap_status-IsSmall}
use cross_chain_bridge.Platform.Frame.{IsQuiet}
use cross_chain_bridge.Worker.Stable.{get_swap_tx_status, process_swap_stable}
use cross_chain_bridge.Worker.Stable.Known.{IsFound, get_swap_tx_status-IsFound}
use cross_chain_bridge.Worker.Stable.Quiet.{process_swap_stable_unconfirmed}
use cross_chain_bridge.Tests.Bench.{
  swap_key, swap_with, info, bench, token, chain, config, waiting, result_with, paid_status,
}

-- A token with a fee of a tenth, between 1 and 5.
abbrev taxed : TokenConfig
taxed = record token {
  swap_fee_rate = record { is_zero = false; mul_1e18 = 100000000000000000 };
  min_swap_fee = pos 1;
  max_swap_fee = pos 5;
}

abbrev six_decimals : TokenConfig
six_decimals = record token { decimals = 6 }

taxed-IsChecked : IsChecked taxed
taxed-IsChecked = ground arith

token_swapped_value_bounds_example :
    (amount : ℕ) × (token_swapped_value taxed six_decimals false true (pos 0) (pos 40) ≡ pos amount)
    × (amount * 10 ^ taxed.decimals ≤ 40 * 10 ^ 6)
token_swapped_value_bounds_example =
    token_swapped_value_bounds taxed six_decimals false true (pos 0) 40

fee_of_40 : swap_fee taxed false true (pos 0) (pos 40) ≡ pos 4
unfolding lit swap_fee cross_chain_bridge.Tokens.SwapValue.adjust_fee
    cross_chain_bridge.Tokens.SwapValue.rate_fee cross_chain_bridge.Common.Int.div_ℕ
    cross_chain_bridge.Common.Int.◌*ℤ◌
fee_of_40 = refl

paid_of_40 : token_swapped_value taxed six_decimals false false (pos 0) (pos 40) ≡ pos 36
unfolding lit token_swapped_value cross_chain_bridge.Tokens.SwapValue.convert_token_value
    cross_chain_bridge.Tokens.SwapValue.net_value cross_chain_bridge.Tokens.SwapValue.deduct_fee
    swap_fee cross_chain_bridge.Tokens.SwapValue.adjust_fee
    cross_chain_bridge.Tokens.SwapValue.rate_fee cross_chain_bridge.Common.Int.div_ℕ
    cross_chain_bridge.Common.Int.◌*ℤ◌ cross_chain_bridge.Common.Int.◌-ℤ◌
paid_of_40 = refl

token_swapped_value_fee_example :
    (36 * 10 ^ taxed.decimals + 1 * 10 ^ 6 ≤ 40 * 10 ^ 6)
    × (40 * 10 ^ 6 < 37 * 10 ^ taxed.decimals + 5 * 10 ^ 6)
token_swapped_value_fee_example =
    token_swapped_value_fee taxed six_decimals false false (pos 0) 40 36 1 5 refl refl (omega arith)
      refl refl paid_of_40 (omega arith)

token_swapped_value-positive_iff_example :
    (is_positive (token_swapped_value taxed six_decimals false true (pos 0) (pos 40)) ≡ true) ↔ (
      (pos 1 ≤ℤ pos 40)
      × ((false ≡ true) ⊎ (pos 40 ≤ℤ pos 100))
      × (10 ^ taxed.decimals + 4 * 10 ^ 6 ≤ 40 * 10 ^ 6))
token_swapped_value-positive_iff_example =
    token_swapped_value-positive_iff taxed six_decimals false true (pos 0) 40 4 fee_of_40

token_swapped_value_mono_example :
    token_swapped_value taxed token false true (pos 0) (pos 30)
    ≤ℤ token_swapped_value taxed token false true (pos 0) (pos (30 + 10))
token_swapped_value_mono_example =
    token_swapped_value_mono taxed token false true (pos 0) 30 10 (ground arith) taxed-IsChecked
      (inr (ground arith))

-- A payment with the height 5, on a chain that asks for ten confirmations.
abbrev high : MgoSwapResult
high = record (result_with match_tx_not_stable (lit "0xpaid") 4) { swap_height = 5 }

abbrev slow_world : World bench
slow_world = record waiting {
  config = record config { dst_chain = record chain { confirmations = 10 } };
}

bench_answers : (tx : Text) (e : ℕ) → (bench.get_transaction_status false tx e).0 ≢ panic
bench_answers tx e q = ground arith

get_swap_tx_status-IsFound_example :
    (x : Option TxStatus × MgoSwapResult) × ((get_swap_tx_status bench false high slow_world).0
      ≡ ok x)
    × IsFound bench false high [] [] x
get_swap_tx_status-IsFound_example =
    get_swap_tx_status-IsFound bench false bench_answers high slow_world

seen : (get_swap_tx_status bench false high slow_world).0 ≡ ok (some paid_status, high)
unfolding get_swap_tx_status cross_chain_bridge.Common.text_eq lit
seen = refl

same_status :
    (o : Result Err (Option TxStatus × MgoSwapResult)) (s : TxStatus) (found : MgoSwapResult)
    → o ≡ ok (some paid_status, high)
    → o ≡ ok (some s, found)
    → s.confirmations < 10
same_status o s found h q = ground arith

few_confirmations :
    (s : TxStatus) (found : MgoSwapResult)
    → (get_swap_tx_status bench false high slow_world).0 ≡ ok (some s, found)
    → s.confirmations < 10
few_confirmations s found q = same_status _ s found seen q

process_swap_stable_unconfirmed_example :
    IsQuiet slow_world (process_swap_stable bench true high slow_world).1
process_swap_stable_unconfirmed_example =
    process_swap_stable_unconfirmed bench true high slow_world bench_answers refl few_confirmations

-- A swap that waits to be verified, and what the verification makes of it.
abbrev unverified : World bench
unverified = record waiting { swapin = (swap_key, swap_with status_not_stable) ∷ [] }

abbrev released : MgoSwap
released = with_status tx_not_swapped (bench.clock 0).0 (lit "") (swap_with status_not_stable)

released_there :
    swap_at bench true
      (update_swap_status bench true (lit "usdt") (lit "0xa1") (lit "0xb") info none unverified).1
      swap_key
    ≡ some released
unfolding lit cross_chain_bridge.Platform.Memory.lookup update_swap_status get_token_config
    cross_chain_bridge.Tokens.Types.get_token_pair_config cross_chain_bridge.Common.text_eq
    cross_chain_bridge.Common.to_lower cross_chain_bridge.Mongodb.Swaps.update_swap_status
    cross_chain_bridge.Worker.Updates.add_initial_swap_result
    cross_chain_bridge.Mongodb.Results.add_swap_result
    cross_chain_bridge.Mongodb.Results.insert_result cross_chain_bridge.Platform.Memory.update_docs
    with_status cross_chain_bridge.Mongodb.Documents.get_swap_key
released_there = refl

now_released : released.status ≡ tx_not_swapped
unfolding with_status
now_released = refl

update_swap_status-IsSmall_example :
    (swap_at bench true unverified swap_key ≡ some released)
    ⊎ (Path (Option Err) none none
        × ((t : TokenConfig) × (get_token_config config (lit "usdt") true ≡ some t)
            × IsSmall t info))
update_swap_status-IsSmall_example =
    update_swap_status-IsSmall bench (memory-IsAtomic MgoSwap) true (lit "usdt") (lit "0xa1")
      (lit "0xb") info none unverified true swap_key released released_there now_released
