-- ===== src/Tokens/Errors.antt =====
-- The errors of the program: tokens/errors.go, mongodb/errors.go, and the `err…` variables of
-- package worker. An error is one of the named variables, a message of its own, or wraps another.
use cross_chain_bridge.Common.{ℕ, Bool, false, Text, lit, ◌==◌}

-- The named error variables.
pub data Sentinel : Type 0 where
  swap_type_not_supported bridge_source_not_supported bridge_destination_not_supported : Sentinel
  unknown_swap_type msg_hash_mismatch wrong_count_of_msg_hashes wrong_raw_tx wrong_extra_args :
      Sentinel
  no_btc_bridge wrong_swapin_tx_type build_swap_tx_in_wrong_endpoint tx_before_initial_height :
      Sentinel
  address_is_in_blacklist swap_is_closed todo not_found tx_not_found tx_not_stable : Sentinel
  tx_with_wrong_receiver tx_with_wrong_contract tx_with_wrong_input tx_with_wrong_log_data :
      Sentinel
  tx_is_aggregate_tx wrong_p2sh_bind_address wrong_memo_bind_address tx_func_hash_mismatch :
      Sentinel
  deposit_log_not_found swapout_log_not_found unknown_pair_id bind_address_mismatch : Sentinel
  rpc_query_error wrong_swap_value tx_incompatible tx_with_wrong_receipt estimate_gas_failed :
      Sentinel
  miss_token_price tx_with_wrong_sender tx_with_wrong_status tx_with_no_payment : Sentinel
  tx_is_not_validated tx_with_wrong_memo tx_with_wrong_value tx_sender_not_registered : Sentinel
  bind_addr_is_contract item_not_found item_is_dup swap_not_found wrong_key : Sentinel
  forbid_update_nonce forbid_update_swap_tx already_swapped db_error send_tx_with_diff_hash :
      Sentinel
  swap_channel_is_full swap_with_err_status swap_tx_with_height swap_tx_is_on_chain : Sentinel
  get_nonce_failed swap_nonce_passed swap_nonce_too_big build_tx_failed sign_tx_failed : Sentinel
  update_old_txs_failed not_nonce_support sign_status_has_disagree : Sentinel
  identifier_mismatch initiator_mismatch wrong_msg_context : Sentinel

-- Two variables are the same error when they are the same variable.
unfoldable pub sentinel_code : Sentinel → ℕ
sentinel_code swap_type_not_supported = 0
sentinel_code bridge_source_not_supported = 1
sentinel_code bridge_destination_not_supported = 2
sentinel_code unknown_swap_type = 3
sentinel_code msg_hash_mismatch = 4
sentinel_code wrong_count_of_msg_hashes = 5
sentinel_code wrong_raw_tx = 6
sentinel_code wrong_extra_args = 7
sentinel_code no_btc_bridge = 8
sentinel_code wrong_swapin_tx_type = 9
sentinel_code build_swap_tx_in_wrong_endpoint = 10
sentinel_code tx_before_initial_height = 11
sentinel_code address_is_in_blacklist = 12
sentinel_code swap_is_closed = 13
sentinel_code todo = 14
sentinel_code not_found = 15
sentinel_code tx_not_found = 16
sentinel_code tx_not_stable = 17
sentinel_code tx_with_wrong_receiver = 18
sentinel_code tx_with_wrong_contract = 19
sentinel_code tx_with_wrong_input = 20
sentinel_code tx_with_wrong_log_data = 21
sentinel_code tx_is_aggregate_tx = 22
sentinel_code wrong_p2sh_bind_address = 23
sentinel_code wrong_memo_bind_address = 24
sentinel_code tx_func_hash_mismatch = 25
sentinel_code deposit_log_not_found = 26
sentinel_code swapout_log_not_found = 27
sentinel_code unknown_pair_id = 28
sentinel_code bind_address_mismatch = 29
sentinel_code rpc_query_error = 30
sentinel_code wrong_swap_value = 31
sentinel_code tx_incompatible = 32
sentinel_code tx_with_wrong_receipt = 33
sentinel_code estimate_gas_failed = 34
sentinel_code miss_token_price = 35
sentinel_code tx_with_wrong_sender = 36
sentinel_code tx_with_wrong_status = 37
sentinel_code tx_with_no_payment = 38
sentinel_code tx_is_not_validated = 39
sentinel_code tx_with_wrong_memo = 40
sentinel_code tx_with_wrong_value = 41
sentinel_code tx_sender_not_registered = 42
sentinel_code bind_addr_is_contract = 43
sentinel_code item_not_found = 44
sentinel_code item_is_dup = 45
sentinel_code swap_not_found = 46
sentinel_code wrong_key = 47
sentinel_code forbid_update_nonce = 48
sentinel_code forbid_update_swap_tx = 49
sentinel_code already_swapped = 50
sentinel_code db_error = 51
sentinel_code send_tx_with_diff_hash = 52
sentinel_code swap_channel_is_full = 53
sentinel_code swap_with_err_status = 54
sentinel_code swap_tx_with_height = 55
sentinel_code swap_tx_is_on_chain = 56
sentinel_code get_nonce_failed = 57
sentinel_code swap_nonce_passed = 58
sentinel_code swap_nonce_too_big = 59
sentinel_code build_tx_failed = 60
sentinel_code sign_tx_failed = 61
sentinel_code update_old_txs_failed = 62
sentinel_code not_nonce_support = 63
sentinel_code sign_status_has_disagree = 64
sentinel_code identifier_mismatch = 65
sentinel_code initiator_mismatch = 66
sentinel_code wrong_msg_context = 67

-- The messages that the variables are declared with.
unfoldable pub sentinel_text : Sentinel → Text
sentinel_text swap_type_not_supported = lit "swap type not supported in this endpoint"
sentinel_text bridge_source_not_supported = lit "bridge source not supported"
sentinel_text bridge_destination_not_supported = lit "bridge destination not supported"
sentinel_text unknown_swap_type = lit "unknown swap type"
sentinel_text msg_hash_mismatch = lit "message hash mismatch"
sentinel_text wrong_count_of_msg_hashes = lit "wrong count of msg hashed"
sentinel_text wrong_raw_tx = lit "wrong raw tx"
sentinel_text wrong_extra_args = lit "wrong extra args"
sentinel_text no_btc_bridge = lit "no btc bridge exist"
sentinel_text wrong_swapin_tx_type = lit "wrong swapin tx type"
sentinel_text build_swap_tx_in_wrong_endpoint = lit "build swap in/out tx in wrong endpoint"
sentinel_text tx_before_initial_height = lit "transaction before initial block height"
sentinel_text address_is_in_blacklist = lit "address is in black list"
sentinel_text swap_is_closed = lit "swap is closed"
sentinel_text todo = lit "developing: TODO"
sentinel_text not_found = lit "not found"
sentinel_text tx_not_found = lit "tx not found"
sentinel_text tx_not_stable = lit "tx not stable"
sentinel_text tx_with_wrong_receiver = lit "tx with wrong receiver"
sentinel_text tx_with_wrong_contract = lit "tx with wrong contract"
sentinel_text tx_with_wrong_input = lit "tx with wrong input data"
sentinel_text tx_with_wrong_log_data = lit "tx with wrong log data"
sentinel_text tx_is_aggregate_tx = lit "tx is aggregate tx"
sentinel_text wrong_p2sh_bind_address = lit "wrong p2sh bind address"
sentinel_text wrong_memo_bind_address = lit "wrong memo bind address"
sentinel_text tx_func_hash_mismatch = lit "tx func hash mismatch"
sentinel_text deposit_log_not_found = lit "deposit log not found or removed"
sentinel_text swapout_log_not_found = lit "swapout log not found or removed"
sentinel_text unknown_pair_id = lit "unknown pair ID"
sentinel_text bind_address_mismatch = lit "bind address mismatch"
sentinel_text rpc_query_error = lit "rpc query error"
sentinel_text wrong_swap_value = lit "wrong swap value"
sentinel_text tx_incompatible = lit "tx incompatible"
sentinel_text tx_with_wrong_receipt = lit "tx with wrong receipt"
sentinel_text estimate_gas_failed = lit "estimate gas failed"
sentinel_text miss_token_price = lit "miss token price"
sentinel_text tx_with_wrong_sender = lit "tx with wrong sender"
sentinel_text tx_with_wrong_status = lit "tx with wrong status"
sentinel_text tx_with_no_payment = lit "tx with no payment"
sentinel_text tx_is_not_validated = lit "tx is not validated"
sentinel_text tx_with_wrong_memo = lit "tx with wrong memo"
sentinel_text tx_with_wrong_value = lit "tx with wrong value"
sentinel_text tx_sender_not_registered = lit "tx sender not registered"
sentinel_text bind_addr_is_contract = lit "bind address is contract"
sentinel_text item_not_found = lit "mgoError: Item not found"
sentinel_text item_is_dup = lit "mgoError: Item is duplicate"
sentinel_text swap_not_found = lit "mgoError: Swap is not found"
sentinel_text wrong_key = lit "mgoError: Wrong key"
sentinel_text forbid_update_nonce = lit "mgoError: Forbid update swap nonce"
sentinel_text forbid_update_swap_tx = lit "mgoError: Forbid update swap tx"
sentinel_text already_swapped = lit "already swapped"
sentinel_text db_error = lit "database error"
sentinel_text send_tx_with_diff_hash = lit "send tx with different hash"
sentinel_text swap_channel_is_full = lit "swap task channel is full"
sentinel_text swap_with_err_status = lit "swap with error status to replace"
sentinel_text swap_tx_with_height = lit "swaptx with block height"
sentinel_text swap_tx_is_on_chain = lit "swaptx exist in chain"
sentinel_text get_nonce_failed = lit "get nonce failed"
sentinel_text swap_nonce_passed = lit "can not replace swap with old nonce"
sentinel_text swap_nonce_too_big = lit "forbid replace swap with too big nonce than latest"
sentinel_text build_tx_failed = lit "build tx failed"
sentinel_text sign_tx_failed = lit "sign tx failed"
sentinel_text update_old_txs_failed = lit "update old swaptxs failed"
sentinel_text not_nonce_support = lit "not nonce support bridge"
sentinel_text sign_status_has_disagree = lit "getSignStatus has disagree"
sentinel_text identifier_mismatch = lit "cross chain bridge identifier mismatch"
sentinel_text initiator_mismatch = lit "initiator mismatch"
sentinel_text wrong_msg_context = lit "wrong msg context"

-- `message` is fmt.Errorf or errors.New with a text of its own; `wrapped` is fmt.Errorf with %w.
pub data Err : Type 0 where
  sentinel : Sentinel → Err
  message : Text → Err
  wrapped : Text → Err → Err

-- errors.Is
unfoldable pub errors_is : Err → Sentinel → Bool
unfolding sentinel_code
errors_is (sentinel s) t = sentinel_code s == sentinel_code t
errors_is (message m) t = false
errors_is (wrapped m e) t = errors_is e t

-- err.Error()
unfoldable pub error_text : Err → Text
unfolding sentinel_text
error_text (sentinel s) = sentinel_text s
error_text (message m) = m
error_text (wrapped m e) = m
