-- ===== src/Tests/Bench.antt =====
-- A database in memory and two bridges that build, sign and send every transaction.
use cross_chain_bridge.Common.{
  ℕ, true, false, none, some, [], ◌∷◌, Text, lit, text_eq, arith, if◌then◌else◌,
}
use cross_chain_bridge.Common.Int.{pos}
use cross_chain_bridge.Common.Exec.{ok, err}
use cross_chain_bridge.Tokens.Errors.{sentinel, tx_not_found}
use cross_chain_bridge.Tokens.Types.{
  Config, TokenConfig, ChainConfig, TxSwapInfo, TxStatus, BuildTxArgs, AllExtras, swapin_type,
  swapin_tx,
}
use cross_chain_bridge.Platform.{Platform, World}
use cross_chain_bridge.Platform.Memory.{memory}
use cross_chain_bridge.Mongodb.Status.{SwapStatus, tx_not_swapped, match_tx_empty}
use cross_chain_bridge.Mongodb.Documents.{MgoSwap, MgoSwapResult}
use cross_chain_bridge.Worker.Swap.Signed.{SignsWithHash}

abbrev pub info : TxSwapInfo
info = record {
  pair_id = lit "usdt";
  hash = lit "0xa1";
  height = 9;
  timestamp = 500;
  from = lit "0xf";
  tx_to = lit "0xt";
  to = lit "0xd";
  bind = lit "0xb";
  value = pos 7;
}

abbrev pub paid_status : TxStatus
paid_status = record { receipt = none; confirmations = 3; block_height = 5; block_time = 900 }

-- The extras that the bridge sets: the nonce 4.
abbrev pub extras : AllExtras
extras = record {
  replace_num = 0;
  eth_extra = some (record { gas_price = some (pos 1); nonce = some 4 });
  ripple_extra = none;
  btc_extra = none;
}

-- The time is 1000, and "0xpaid" is the one transaction on the chains.
abbrev pub bench : Platform
bench = record {
  swaps = memory MgoSwap;
  results = memory MgoSwapResult;
  blacklists = memory _;
  histories = memory _;
  nonces = memory _;
  used_r_values = memory _;
  Env = ℕ;
  RawTx = Text;
  SignedTx = Text;
  clock = λ e. (1000, e);
  clock_milli = λ e. (1000000, e);
  new_object_id = λ e. (lit "id", e);
  get_transaction_status = λ is_src tx e.
      (if text_eq tx (lit "0xpaid") then ok paid_status else err (sentinel tx_not_found), e);
  verify_transaction = λ is_src pair_id tx allow e. ((some info, none), e);
  verify_p2sh_transaction = λ pair_id tx bind allow e. ((some info, none), e);
  build_raw_transaction = λ is_src args e. (ok (lit "raw", some extras, some (pos 6)), e);
  sign_transaction = λ is_src raw pair_id e. (ok (lit "signed", lit "0xh"), e);
  dcrm_sign_transaction = λ is_src raw args e. (ok (lit "signed", lit "0xh"), e);
  send_transaction = λ is_src tx e. ((lit "0xh", none), e);
  get_tx_block_info = λ is_src tx e. ((0, 0), e);
  get_pool_nonce = λ is_src address e. (ok 9, e);
  set_nonce = λ is_src pair_id nonce e. nonce;
  pop = λ keys. [];
}

pub bench-SignsWithHash : SignsWithHash bench
unfolding lit
bench-SignsWithHash = record {
  sign_transaction-hash = λ is_src raw pair_id e s h. ground arith;
  dcrm_sign_transaction-hash = λ is_src raw args e s h. ground arith;
}

abbrev pub token : TokenConfig
token = record {
  decimals = 6;
  dcrm_address = lit "0xmpc";
  contract_address = lit "";
  deposit_address = lit "0xd";
  swap_fee_rate = record { is_zero = true; mul_1e18 = 0 };
  disable_swap = false;
  has_private_key = true;
  max_swap = pos 100;
  min_swap = pos 1;
  max_swap_fee = pos 0;
  min_swap_fee = pos 0;
  big_val_threshold = pos 50;
  big_value_whitelist = [];
}

abbrev pub chain : ChainConfig
chain = record {
  confirmations = 1;
  initial_height = 0;
  base_fee_percent = pos 0;
  wait_time_to_replace = 0;
  max_replace_count = 0;
}

abbrev pub config : Config
config = record {
  identifier = lit "bridge";
  pairs = (lit "usdt", record { pair_id = lit "usdt"; src_token = token; dest_token = token }) ∷ [];
  src_chain = chain;
  dst_chain = chain;
  src_nonce_setter = true;
  dst_nonce_setter = true;
  has_btc_bridge = false;
}

abbrev pub args : BuildTxArgs
args = record {
  swap_info = record {
    identifier = lit "bridge";
    pair_id = lit "usdt";
    swap_id = lit "0xa1";
    swap_type = swapin_type;
    tx_type = swapin_tx;
    bind = lit "0xb";
    reswapping = false;
  };
  from = lit "0xmpc";
  origin_from = lit "0xf";
  origin_tx_to = lit "0xt";
  origin_value = pos 7;
  swap_value = none;
  extra = none;
}

abbrev pub swap_key : Text
swap_key = lit "0xa1:usdt:0xb"

-- A registered swap and a swap result of the swap above, with a status.
abbrev pub swap_with : SwapStatus → MgoSwap
swap_with status = record {
  key = swap_key;
  pair_id = lit "usdt";
  tx_id = lit "0xa1";
  from = lit "0xf";
  tx_to = lit "0xt";
  tx_type = swapin_tx;
  bind = lit "0xb";
  status = status;
  init_time = 400;
  timestamp = 400;
  memo = lit "";
}

abbrev pub result_with : SwapStatus → Text → ℕ → MgoSwapResult
result_with status swap_tx nonce = record {
  key = swap_key;
  pair_id = lit "usdt";
  tx_id = lit "0xa1";
  tx_to = lit "0xt";
  tx_height = 9;
  tx_time = 500;
  from = lit "0xf";
  to = lit "0xd";
  bind = lit "0xb";
  value = lit "7";
  swap_tx = swap_tx;
  old_swap_txs = [];
  old_swap_vals = [];
  swap_height = 0;
  swap_time = 0;
  swap_value = lit "0";
  swap_type = swapin_type;
  swap_nonce = nonce;
  status = status;
  init_time = 400;
  timestamp = 400;
  memo = lit "";
}

-- A state with one swap and its result.
abbrev pub world_with : MgoSwap → MgoSwapResult → World bench
world_with swap result = record {
  config = config;
  swapin = (swap_key, swap) ∷ [];
  swapout = [];
  swapin_result = (swap_key, result) ∷ [];
  swapout_result = [];
  blacklist = [];
  swap_history = [];
  latest_swap_nonces = [];
  used_r_value = [];
  cached_swap_tasks = [];
  cached_swap_history = [];
  swapin_task_channels = [];
  swapout_task_channels = [];
  sent = [];
  send_loops = [];
  env = 0;
}

-- A swap that waits to be paid out.
abbrev pub waiting : World bench
waiting = world_with (swap_with tx_not_swapped) (result_with match_tx_empty (lit "") 0)
