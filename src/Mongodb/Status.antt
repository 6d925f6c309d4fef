-- ===== src/Mongodb/Status.antt =====
-- mongodb/status.go: the statuses of a registered swap and of a swap result.
use cross_chain_bridge.Common.{
  ℕ, ◌≡◌, ◌↔◌, refl, sym, ap, ◌∙◌, Bool, true, false, not, if◌then◌else◌, Text, lit, ◌==◌, ==_iff,
}

-- SwapStatus, a uint16 that only ever holds these constants.
pub data SwapStatus : Type 0 where
  tx_not_stable tx_verify_failed tx_with_wrong_sender tx_with_wrong_value : SwapStatus
  tx_incompatible tx_not_swapped tx_swap_failed tx_processed match_tx_empty : SwapStatus
  match_tx_not_stable match_tx_stable tx_with_wrong_memo tx_with_big_value : SwapStatus
  tx_sender_not_registered match_tx_failed swap_in_blacklist manual_make_fail : SwapStatus
  bind_addr_is_contract keep_status reswapping : SwapStatus

-- The values of the constants.
unfoldable pub status_code : SwapStatus → ℕ
status_code tx_not_stable = 0
status_code tx_verify_failed = 1
status_code tx_with_wrong_sender = 2
status_code tx_with_wrong_value = 3
status_code tx_incompatible = 4
status_code tx_not_swapped = 5
status_code tx_swap_failed = 6
status_code tx_processed = 7
status_code match_tx_empty = 8
status_code match_tx_not_stable = 9
status_code match_tx_stable = 10
status_code tx_with_wrong_memo = 11
status_code tx_with_big_value = 12
status_code tx_sender_not_registered = 13
status_code match_tx_failed = 14
status_code swap_in_blacklist = 15
status_code manual_make_fail = 16
status_code bind_addr_is_contract = 17
status_code keep_status = 255
status_code reswapping = 256

-- `==` of two statuses.
unfoldable pub status_eq : SwapStatus → SwapStatus → Bool
unfolding status_code
status_eq s t = status_code s == status_code t

-- SwapStatus.String
unfoldable pub status_text : SwapStatus → Text
status_text tx_not_stable = lit "TxNotStable"
status_text tx_verify_failed = lit "TxVerifyFailed"
status_text tx_with_wrong_sender = lit "TxWithWrongSender"
status_text tx_with_wrong_value = lit "TxWithWrongValue"
status_text tx_incompatible = lit "TxIncompatible"
status_text tx_not_swapped = lit "TxNotSwapped"
status_text tx_swap_failed = lit "TxSwapFailed"
status_text tx_processed = lit "TxProcessed"
status_text match_tx_empty = lit "MatchTxEmpty"
status_text match_tx_not_stable = lit "MatchTxNotStable"
status_text match_tx_stable = lit "MatchTxStable"
status_text tx_with_wrong_memo = lit "TxWithWrongMemo"
status_text tx_with_big_value = lit "TxWithBigValue"
status_text tx_sender_not_registered = lit "TxSenderNotRegistered"
status_text match_tx_failed = lit "MatchTxFailed"
status_text swap_in_blacklist = lit "SwapInBlacklist"
status_text manual_make_fail = lit "ManualMakeFail"
status_text bind_addr_is_contract = lit "BindAddrIsContract"
status_text keep_status = lit "unknown swap status 255"
status_text reswapping = lit "Reswapping"

unfoldable pub can_manual_make_fail : SwapStatus → Bool
unfolding status_eq
can_manual_make_fail s = not (status_eq s tx_processed)

unfoldable pub can_retry : SwapStatus → Bool
unfolding status_eq
can_retry s = status_eq s tx_sender_not_registered

unfoldable pub can_reverify : SwapStatus → Bool
can_reverify tx_verify_failed = true
can_reverify tx_with_wrong_value = true
can_reverify tx_with_big_value = true
can_reverify tx_sender_not_registered = true
can_reverify swap_in_blacklist = true
can_reverify bind_addr_is_contract = true
can_reverify _ = false

unfoldable pub can_reswap : SwapStatus → Bool
unfolding status_eq
can_reswap s = status_eq s tx_processed

-- The status with a value, back from its value.
status_of : ℕ → SwapStatus
status_of n =
    if n == 0
    then tx_not_stable
    else if n == 1
    then tx_verify_failed
    else if n == 2
    then tx_with_wrong_sender
    else if n == 3
    then tx_with_wrong_value
    else if n == 4
    then tx_incompatible
    else if n == 5
    then tx_not_swapped
    else if n == 6
    then tx_swap_failed
    else if n == 7
    then tx_processed
    else if n == 8
    then match_tx_empty
    else if n == 9
    then match_tx_not_stable
    else if n == 10
    then match_tx_stable
    else if n == 11
    then tx_with_wrong_memo
    else if n == 12
    then tx_with_big_value
    else if n == 13
    then tx_sender_not_registered
    else if n == 14
    then match_tx_failed
    else if n == 15
    then swap_in_blacklist
    else if n == 16
    then manual_make_fail
    else if n == 17
    then bind_addr_is_contract
    else if n == 255
    then keep_status
    else reswapping

status_of-status_code : (s : SwapStatus) → status_of (status_code s) ≡ s
unfolding status_of status_code
status_of-status_code tx_not_stable = refl
status_of-status_code tx_verify_failed = refl
status_of-status_code tx_with_wrong_sender = refl
status_of-status_code tx_with_wrong_value = refl
status_of-status_code tx_incompatible = refl
status_of-status_code tx_not_swapped = refl
status_of-status_code tx_swap_failed = refl
status_of-status_code tx_processed = refl
status_of-status_code match_tx_empty = refl
status_of-status_code match_tx_not_stable = refl
status_of-status_code match_tx_stable = refl
status_of-status_code tx_with_wrong_memo = refl
status_of-status_code tx_with_big_value = refl
status_of-status_code tx_sender_not_registered = refl
status_of-status_code match_tx_failed = refl
status_of-status_code swap_in_blacklist = refl
status_of-status_code manual_make_fail = refl
status_of-status_code bind_addr_is_contract = refl
status_of-status_code keep_status = refl
status_of-status_code reswapping = refl

-- Two statuses have the same value only if they are the same.
pub status_eq_iff : (s t : SwapStatus) → (status_eq s t ≡ true) ↔ (s ≡ t)
unfolding status_eq
status_eq_iff s t = (forwards, backwards)
  where
    forwards : (status_code s == status_code t) ≡ true → s ≡ t
    forwards h =
        sym (status_of-status_code s)
        ∙ ap status_of ((==_iff (status_code s) (status_code t)).0 h)
        ∙ status_of-status_code t

    backwards : s ≡ t → (status_code s == status_code t) ≡ true
    backwards e = (==_iff (status_code s) (status_code t)).1 (ap status_code e)
