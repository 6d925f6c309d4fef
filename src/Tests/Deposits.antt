-- ===== src/Tests/Deposits.antt =====
-- Deposits and payments on the Bitcoin bridge, with a small wallet and one unspent output.
use cross_chain_bridge.Common.{
  ℕ, ◌+◌, ◌*◌, ◌%◌, ◌^◌, ◌≤◌, ◌<◌, ◌≡◌, refl, sym, ap, subst, Bool, true, false, Option, none, some,
  List, [], ◌∷◌, ◌++◌, All, Text, lit, text_eq, length, leb, if◌then◌else◌, arith,
}
use cross_chain_bridge.Common.Int.{ℤ, pos, add64}
use cross_chain_bridge.Common.Exec.{Result, ok, err, panic, Exec}
use cross_chain_bridge.Tokens.Errors.{Err, message}
use cross_chain_bridge.Tokens.Types.{TxSwapInfo}
use cross_chain_bridge.Bitcoin.Electrs.{
  ElectTxOut, ElectTxStatus, ElectTx, ElectUtxo, p2pkh_type, op_return_type,
}
use cross_chain_bridge.Bitcoin.Unsigned.{Wallet, Inputs, AuthoredTx, new_unsigned_transaction}
use cross_chain_bridge.Bitcoin.Unsigned.Fees.{AreAmounts, Pays, new_unsigned_transaction-Ends}
use cross_chain_bridge.Bitcoin.Select.{Node, built_outputs, build_transaction}
use cross_chain_bridge.Bitcoin.Select.Paid.{worth}
use cross_chain_bridge.Bitcoin.Select.Settled.{Settles, build_transaction-Settles}
use cross_chain_bridge.Bitcoin.Raw.{relay_fee_of, get_utxos}
use cross_chain_bridge.Bitcoin.Memo.{get_bind_address_from_memo_script, lock_memo_prefix}
use cross_chain_bridge.Bitcoin.Memo.RoundTrip.{get_bind_address_from_memo_script-lock_memo, hex}
use cross_chain_bridge.Bitcoin.Received.{Received, get_received_value}
use cross_chain_bridge.Bitcoin.Received.Total.{total_to, any_to, get_received_value-total}
use cross_chain_bridge.Bitcoin.Scanned.{by_memo, process_transaction_impl}
use cross_chain_bridge.Bitcoin.Deposit.{Chain, verify_transaction}
use cross_chain_bridge.Bitcoin.Deposit.Verified.{IsVerified, verify_transaction-IsVerified}
use cross_chain_bridge.Tests.Bench.{config}

sum_values : List (ℤ × Text) → ℤ
sum_values [] = pos 0
sum_values ((v, s) ∷ outs) = add64 v (sum_values outs)

-- Every transaction has 250 bytes, or 450 with scripts of scripts, and costs a unit a byte.
abbrev wallet : Wallet
wallet = record {
  TxIn = Text × ℕ;
  TxOut = ℤ × Text;
  sum_output_values = sum_values;
  estimate_serialize_size = λ n outs add_change. 250;
  fee_for_serialize_size = λ rate size. if leb size 300 then pos 250 else pos 450;
  dust_threshold = λ size. pos 50;
  new_tx_out = λ v s. (v, s);
  is_pay_to_script_hash = λ s. false;
  previous_out_point = λ i. i;
}

abbrev outputs : List (ℤ × Text)
outputs = (pos 1000, lit "script of r") ∷ []

wallet-AreAmounts : AreAmounts wallet (pos 1) (pos 200) false outputs 5000
unfolding sum_values add64
wallet-AreAmounts = record {
  small = omega arith;
  target = 1000;
  target_lem = refl;
  target_bound = omega arith;
  fee = by_size;
  min_fee = (200, refl, omega arith);
}
  where
    by_size :
        (size : ℕ) → (f : ℕ) × ((if leb size 300 then pos 250 else pos 450) ≡ pos f) × (f ≤ 5000)
    by_size size = by_test (leb size 300)
      where
        by_test : (c : Bool) → (f : ℕ) × ((if c then pos 250 else pos 450) ≡ pos f) × (f ≤ 5000)
        by_test true = (250, refl, omega arith)
        by_test false = (450, refl, omega arith)

abbrev inputs : Inputs wallet
inputs = record {
  total = pos 2000;
  inputs = (lit "t", 0) ∷ [];
  input_values = pos 2000 ∷ [];
  scripts = lit "script of m" ∷ [];
}

abbrev fetch_inputs : ℤ → Exec Err ℕ (Inputs wallet)
fetch_inputs target s = (ok inputs, s)

abbrev fetch_change : Exec Err ℕ Text
fetch_change s = (ok (lit "script of m"), s)

new_unsigned_transaction-Ends_example :
    (r : Result Err (AuthoredTx wallet) × ℕ) × (new_unsigned_transaction wallet
        (pos 1)
        (pos 200)
        false
        outputs
        fetch_inputs
        fetch_change
        5001
        7
      ≡ some r)
    × Pays wallet (pos 1) (pos 200) false outputs fetch_inputs wallet-AreAmounts r.0
new_unsigned_transaction-Ends_example =
    new_unsigned_transaction-Ends wallet (pos 1) (pos 200) false outputs fetch_inputs fetch_change
      wallet-AreAmounts (λ target s i h. (2000, sym (ap inputs_of h), omega arith)) 7
  where
    inputs_of : Result Err (Inputs wallet) → ℤ
    inputs_of (ok i) = i.total
    inputs_of (err e) = pos 0
    inputs_of panic = pos 0

abbrev utxo : ElectUtxo
utxo = record { txid = some (lit "t"); vout = some 0; value = some 2000 }

abbrev paying : ElectTxOut
paying = record {
  scriptpubkey_asm = none;
  scriptpubkey_type = some p2pkh_type;
  scriptpubkey_address = some (lit "m");
  value = some 2000;
}

abbrev memo_output : ElectTxOut
memo_output = record {
  scriptpubkey_asm = some (lit "OP_RETURN OP_PUSHBYTES_9 53574150544f3a7231");
  scriptpubkey_type = some op_return_type;
  scriptpubkey_address = none;
  value = some 0;
}

abbrev status : ElectTxStatus
status = record { confirmed = some true; block_height = some 12; block_time = some 900 }

abbrev deposit_tx : ElectTx
deposit_tx = record {
  txid = some (lit "t");
  locktime = some 0;
  vin = [];
  vout = paying ∷ memo_output ∷ [];
  status = status;
}

abbrev node : Node wallet ℕ
node = record {
  estimate_fee_per_kb = λ s. (ok (pos 1), s);
  get_outspend = λ h n s. (ok (record { spent = some false; status = none }), s);
  find_utxos = λ a s. (ok (utxo ∷ []), s);
  get_transaction_by_hash = λ h s. (ok deposit_tx, s);
  get_pay_to_addr_script = λ a. ok (lit "script of " ++ a);
  null_data_script = λ m. ok m;
  new_tx_in = λ h n s. ok (h, n);
}

abbrev receivers : List Text
receivers = lit "r" ∷ []

abbrev amounts : List ℤ
amounts = pos 1000 ∷ []

built-AreAmounts :
    (outs : List (ℤ × Text))
    → built_outputs wallet node receivers amounts (lit "") ≡ ok outs
    → AreAmounts wallet (pos 1) (pos 200) false outs 5000
unfolding built_outputs lit
built-AreAmounts outs h =
    let same : outputs ≡ outs = cc in
    subst (λ outs. AreAmounts wallet (pos 1) (pos 200) false outs 5000) same wallet-AreAmounts

on_hand : (s : ℕ) (us : List ElectUtxo) → (node.find_utxos (lit "m") s).0 ≡ ok us → worth us ≤ 5000
unfolding worth lit
on_hand s us h = let same : utxo ∷ [] ≡ us = cc in subst (λ us. worth us ≤ 5000) same (omega arith)

build_transaction-Settles_example :
    (r : Result Err (AuthoredTx wallet) × ℕ) × (build_transaction wallet node
        (pos 200)
        5001
        (lit "m")
        receivers
        amounts
        (lit "")
        (pos 1)
        7
      ≡ some r)
    × Settles wallet node
        (pos 200)
        (pos 1)
        receivers
        amounts
        (lit "")
        (lit "m")
        built-AreAmounts
        r.0
build_transaction-Settles_example =
    build_transaction-Settles wallet node (pos 200) (pos 1) receivers amounts (lit "") (lit "m")
      built-AreAmounts on_hand 7

-- The memo "SWAPTO:r1"
get_bind_address_from_memo_script-lock_memo_example :
    get_bind_address_from_memo_script
      (lit "OP_RETURN OP_PUSHBYTES_" ++ (lit "9" ++ (b' ' ∷ hex (lock_memo_prefix ++ lit "r1"))))
    ≡ some (lit "r1")
unfolding lit
get_bind_address_from_memo_script-lock_memo_example =
    get_bind_address_from_memo_script-lock_memo (lit "9") (lit "r1") (omega arith) (omega arith)
      refl

memo_of_output : hex (lock_memo_prefix ++ lit "r1") ≡ lit "53574150544f3a7231"
unfolding hex cross_chain_bridge.Bitcoin.Memo.RoundTrip.hex_digit lit
memo_of_output = refl

abbrev received : Received
received = record {
  value = 2000;
  memo_script = lit "OP_RETURN OP_PUSHBYTES_9 53574150544f3a7231";
  right_receiver = true;
}

get_received_value-total_example :
    (2000 ≡ total_to (lit "m") p2pkh_type (paying ∷ memo_output ∷ []) % 2 ^ 64)
    × (true ≡ any_to (lit "m") p2pkh_type (paying ∷ memo_output ∷ []))
unfolding get_received_value lit text_eq
get_received_value-total_example =
    get_received_value-total (lit "m") p2pkh_type refl (paying ∷ memo_output ∷ []) received refl

-- A chain with the one transaction; the deposit address is that of the pair.
abbrev paying_deposit : ElectTxOut
paying_deposit = record paying { scriptpubkey_address = some (lit "0xd"); value = some 20 }

abbrev btc_chain : Chain ℕ
btc_chain = record {
  config = config;
  is_src = true;
  confirmations = 3;
  get_transaction_by_hash =
      λ h s. (ok (record deposit_tx { vout = paying_deposit ∷ memo_output ∷ [] }), s);
  get_elect_transaction_status = λ h s. (ok status, s);
  get_latest_block_number = λ s. (ok 20, s);
  is_valid_address = λ a. true;
  get_p2sh_address = λ a. ok a;
  get_p2sh_bind_address = λ a s. (ok (lit ""), s);
}

abbrev deposit_info : TxSwapInfo
deposit_info = record {
  pair_id = lit "usdt";
  hash = lit "t";
  height = 12;
  timestamp = 900;
  from = lit "";
  tx_to = lit "";
  to = lit "0xd";
  bind = lit "r1";
  value = pos 20;
}

verify_transaction-IsVerified_example : IsVerified btc_chain (lit "usdt") (lit "t") deposit_info 7
unfolding verify_transaction lit text_eq cross_chain_bridge.Tokens.Types.get_token_config
    cross_chain_bridge.Tokens.Types.get_token_pair_config cross_chain_bridge.Common.to_lower
    get_received_value cross_chain_bridge.Bitcoin.Received.get_tx_from
    cross_chain_bridge.Tokens.SwapValue.check_swap_value
    cross_chain_bridge.Tokens.SwapValue.calc_swapped_value
    cross_chain_bridge.Tokens.Types.get_token_configs_by_direction
    cross_chain_bridge.Tokens.SwapValue.token_swapped_value
    cross_chain_bridge.Tokens.SwapValue.convert_token_value
    cross_chain_bridge.Tokens.SwapValue.net_value
    cross_chain_bridge.Tokens.SwapValue.is_big_value_whitelisted
    cross_chain_bridge.Tokens.Types.is_in_big_value_whitelist cross_chain_bridge.Common.contains
    get_bind_address_from_memo_script cross_chain_bridge.Bitcoin.Memo.split_memo
verify_transaction-IsVerified_example =
    verify_transaction-IsVerified btc_chain (lit "usdt") (lit "t") deposit_info 7 refl

fee_of_estimate :
    relay_fee_of
      (record {
        plus_percentage = 10;
        max_per_kb = pos 500000;
        min_per_kb = pos 2000;
        min_relay_fee = pos 400;
      })
      (pos 10000)
    ≡ pos 11000
unfolding relay_fee_of add64
fee_of_estimate = refl

-- An out point that pays to another address than the sender's.
wrong_point :
    (get_utxos wallet node (lit "n") ((lit "t", 0) ∷ []) (pos 5) 7).0
    ≡ err (message (lit "out point (t, 0) script pubkey address m is not n"))
unfolding get_utxos lit text_eq cross_chain_bridge.Common.Int.big_string
    cross_chain_bridge.Common.decimal
wrong_point = refl

right_point :
    (get_utxos wallet node (lit "m") ((lit "t", 0) ∷ []) (pos 5) 7).0
    ≡ ok (record inputs { scripts = lit "script of m" ∷ [] })
unfolding get_utxos lit text_eq cross_chain_bridge.Common.Int.wrap64 add64
right_point = refl

found_deposit :
    (process_transaction_impl btc_chain
      (lit "usdt")
      (record deposit_tx { vout = paying_deposit ∷ memo_output ∷ [] })
      7).0
    ≡ ok (by_memo (lit "t") ∷ [])
unfolding process_transaction_impl lit cross_chain_bridge.Tokens.Types.get_token_config
    cross_chain_bridge.Tokens.Types.get_token_pair_config text_eq cross_chain_bridge.Common.to_lower
    get_bind_address_from_memo_script cross_chain_bridge.Bitcoin.Memo.split_memo
found_deposit = refl
