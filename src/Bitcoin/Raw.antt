-- ===== src/Bitcoin/Raw.antt =====
-- tokens/btc/buildtx.go: BuildRawTransaction, the payment of a swapout from chosen or given out points.
use cross_chain_bridge.Common.{
  ℕ, zero, suc, ◌-◌, ◌*◌, ◌/◌, ◌%◌, ◌^◌, Bool, false, not, ◌||◌, Option, none, some, List, [], ◌∷◌,
  ◌++◌, Text, lit, is_empty, text_eq, length, get_elem?, leb, ltb, if◌then◌else◌,
}
use cross_chain_bridge.Common.Int.{
  ℤ, pos, negsuc, ltb_ℤ, add64, wrap64, big_string, is_positive, is_negative,
}
use cross_chain_bridge.Common.Exec.{Result, ok, err, panic, Exec, pure, fail, crash, lift, ◌>>=◌}
use cross_chain_bridge.Tokens.Errors.{
  Err, sentinel, message, swap_type_not_supported, unknown_swap_type,
}
use cross_chain_bridge.Tokens.Types.{
  Config, BuildTxArgs, AllExtras, BtcExtraArgs, no_swap_type, swapin_type, swapout_type,
  get_token_config,
}
use cross_chain_bridge.Tokens.SwapValue.{calc_swapped_value}
use cross_chain_bridge.Bitcoin.Electrs.{ElectTxOut, ElectTxStatus, deref, p2pkh_type}
use cross_chain_bridge.Bitcoin.Unsigned.{Wallet, Inputs, AuthoredTx, new_unsigned_transaction}
use cross_chain_bridge.Bitcoin.Select.{
  Node, retry_count, with_retry, with_input, no_inputs, select_utxos, add_pay_to_addr_output,
  add_memo_output,
}

abbrev pub unlock_memo_prefix : Text
unlock_memo_prefix = lit "SWAPTX:"

-- The configured fees of tokens/btc/init.go.
pub record FeeConfig : Type 0 where
  pub plus_percentage : ℕ
  pub max_per_kb : ℤ
  pub min_per_kb : ℤ
  pub min_relay_fee : ℤ

-- int64 multiplication and division, which rounds towards 0
abbrev pub negated : ℕ → ℤ
negated zero = pos 0
negated (suc n) = negsuc n

unfoldable pub times64 : ℤ → ℕ → ℤ
times64 (pos n) k = wrap64 (pos (n * k))
times64 (negsuc n) k = wrap64 (negated (suc n * k))

unfoldable pub quot64 : ℤ → ℕ → ℤ
quot64 (pos n) k = pos (n / k)
quot64 (negsuc n) k = negated (suc n / k)

-- What getRelayFeePerKb makes of an estimate.
unfoldable pub relay_fee_of : FeeConfig → ℤ → ℤ
unfolding times64 quot64
relay_fee_of c estimate =
    let fee =
      if ltb 0 c.plus_percentage
      then add64 estimate (quot64 (times64 estimate c.plus_percentage) 100)
      else estimate in
    if ltb_ℤ c.max_per_kb fee
    then c.max_per_kb
    else if ltb_ℤ fee c.min_per_kb
    then c.min_per_kb
    else fee

out_point_error : Text × ℕ → Text → Err
out_point_error (hash, index) why =
    message
      (lit "out point (" ++ (hash ++ (lit ", " ++ (big_string (pos index) ++ (lit ") " ++ why)))))

spent_error : Text × ℕ → Option ElectTxStatus → Err
unfolding out_point_error
spent_error point status = elim status [
  | none ↦ out_point_error point (lit "is spent at txpool")
  | some s ↦ elim s.block_height [
    | none ↦ out_point_error point (lit "is spent at txpool")
    | some height ↦ out_point_error point (lit "is spent at " ++ big_string (pos height))
  ]
]

module _ (b : Wallet) {S : Type 0} (node : Node b S) where
  -- getRelayFeePerKb
  unfoldable pub get_relay_fee_per_kb : FeeConfig → Exec Err S ℤ
  unfolding relay_fee_of with_retry pure
  get_relay_fee_per_kb c = do
    estimate ← with_retry (retry_count - 1) node.estimate_fee_per_kb
    pure (relay_fee_of c estimate)

  -- The value of an output that is to be spent, which must pay to the sender.
  point_value : Text → Text × ℕ → ElectTxOut → Exec Err S ℤ
  unfolding out_point_error deref fail crash pure
  point_value from point output = do
    output_type ← deref output.scriptpubkey_type
    if not (text_eq output_type p2pkh_type)
        then fail (
            out_point_error point
              (lit "script pubkey type " ++ (output_type ++ lit " is not p2pkh")))
        else elim output.scriptpubkey_address [
          | none ↦ crash
          | some address ↦
              if not (text_eq address from)
              then fail (
                  out_point_error point
                    (lit "script pubkey address " ++ (address ++ (lit " is not " ++ from))))
              else do
                v ← deref output.value
                let value = wrap64 (pos v)
                if not (is_positive value || is_negative value)
                    then fail (out_point_error point (lit "with zero value"))
                    else pure value
        ]

  -- The value and the input of an out point that is not spent.
  point_input : Text → Text → Text × ℕ → Exec Err S (ℤ × b.TxIn)
  unfolding point_value spent_error with_retry deref fail crash lift pure out_point_error
  point_input from script point = do
    outspend ← with_retry (retry_count - 1) (node.get_outspend point.0 point.1)
    spent ← deref outspend.spent
    if spent then fail (spent_error point outspend.status) else do
      tx ← with_retry (retry_count - 1) (node.get_transaction_by_hash point.0)
      if leb (length tx.vout % 2 ^ 32) point.1
          then fail (out_point_error point (lit "index overflow"))
          else elim (get_elem? tx.vout point.1) [
            | none ↦ crash
            | some output ↦ do
              value ← point_value from point output
              tx_in ← lift (node.new_tx_in point.0 point.1 script)
              pure (value, tx_in)
          ]

  points_loop : Text → ℤ → Text → List (Text × ℕ) → Inputs b → Exec Err S (Inputs b)
  unfolding point_input with_input fail pure
  points_loop from target script [] acc =
      if ltb_ℤ acc.total target
      then fail (
          message (
            lit "not enough balance, total "
            ++ (big_string acc.total ++ (lit " < target " ++ big_string target))))
      else pure acc
  points_loop from target script (point ∷ points) acc = do
    found ← point_input from script point
    points_loop from target script points (with_input b node acc found.0 found.1 script)

  -- getUtxos
  unfoldable pub get_utxos : Text → List (Text × ℕ) → ℤ → Exec Err S (Inputs b)
  unfolding points_loop lift
  get_utxos from points target = do
    script ← lift (node.get_pay_to_addr_script from)
    points_loop from target script points (no_inputs b node)

  -- getTxOutputs
  unfoldable pub get_tx_outputs : Text → ℤ → Text → Result Err (List b.TxOut)
  unfolding add_pay_to_addr_output add_memo_output
  get_tx_outputs to amount memo = elim (add_pay_to_addr_output b node [] to (wrap64 amount)) [
    | ok outs ↦ if is_empty memo then ok outs else add_memo_output b node outs memo
    | err e ↦ err e
    | panic ↦ panic
  ]

  out_points_of : List b.TxIn → List (Text × ℕ)
  out_points_of [] = []
  out_points_of (i ∷ is) = b.previous_out_point i ∷ out_points_of is

  -- updateExtraInfo
  unfoldable pub update_extra_info : BtcExtraArgs → List b.TxIn → BtcExtraArgs
  unfolding out_points_of
  update_extra_info extra tx_ins = elim extra.previous_out_points [
    | [] ↦ record extra { previous_out_points = out_points_of tx_ins }
    | _ ↦ extra
  ]

  -- The inputs: the out points that are given, or else those that are chosen.
  unfoldable pub input_source : Text → BtcExtraArgs → ℤ → Exec Err S (Inputs b)
  unfolding get_utxos select_utxos
  input_source from extra target = elim extra.previous_out_points [
    | [] ↦ select_utxos b node from target
    | points ↦ get_utxos from points target
  ]

  no_extra : AllExtras
  no_extra = record { replace_num = 0; btc_extra = none; eth_extra = none; ripple_extra = none }

  extras_of : BuildTxArgs → AllExtras
  unfolding no_extra
  extras_of args = elim args.extra [
    | none ↦ no_extra
    | some x ↦ elim x.btc_extra [ none ↦ no_extra | some e ↦ x ]
  ]

  btc_extra_of : BuildTxArgs → BtcExtraArgs
  unfolding extras_of
  btc_extra_of args = elim (extras_of args).btc_extra [
    | none ↦ record { relay_fee_per_kb = none; change_address = none; previous_out_points = [] }
    | some e ↦ e
  ]

  -- The arguments as BuildRawTransaction leaves them beside a transaction.
  left_args : Text → BuildTxArgs → BtcExtraArgs → AuthoredTx b → BuildTxArgs
  unfolding update_extra_info extras_of
  left_args identifier args extra tx = record args {
    swap_info = record args.swap_info { identifier = identifier };
    extra = some (record (extras_of args) { btc_extra = some (update_extra_info extra tx.tx_in) });
  }

  with_args :
      Text
      → BuildTxArgs
      → BtcExtraArgs
      → Option (Result Err (AuthoredTx b) × S)
      → Option (Result Err (AuthoredTx b × BuildTxArgs) × S)
  unfolding left_args
  with_args identifier args extra none = none
  with_args identifier args extra (some (ok tx, s)) =
      some (ok (tx, left_args identifier args extra tx), s)
  with_args identifier args extra (some (err e, s)) = some (err e, s)
  with_args identifier args extra (some (panic, s)) = some (panic, s)

  module _ (c : FeeConfig) (identifier : Text) (fuel : ℕ) where
    -- With the fee: the outputs, and the transaction.
    with_fee :
        BuildTxArgs
        → Text
        → ℤ
        → BtcExtraArgs
        → ℤ
        → S
        → Option (Result Err (AuthoredTx b × BuildTxArgs) × S)
    unfolding with_args input_source get_tx_outputs lift
    with_fee args from amount extra fee s =
        elim (get_tx_outputs args.bind amount (unlock_memo_prefix ++ args.swap_id)) [
          | err e ↦ some (err e, s)
          | panic ↦ some (panic, s)
          | ok outs ↦
              with_args identifier args (record extra { relay_fee_per_kb = some fee })
                (new_unsigned_transaction b fee c.min_relay_fee false outs (input_source from extra)
                  (lift (node.get_pay_to_addr_script from)) fuel s)
        ]

    -- A swapout, from the account and with the value that is paid.
    pay_swapout : BuildTxArgs → Text → ℤ → S → Option (Result Err (AuthoredTx b × BuildTxArgs) × S)
    unfolding with_fee btc_extra_of get_relay_fee_per_kb pure
    pay_swapout args from amount s =
        let extra = btc_extra_of args in
        let fee : Exec Err S ℤ = elim extra.relay_fee_per_kb [
          | none ↦ get_relay_fee_per_kb c
          | some f ↦ pure f
        ] in
        let r = fee s in
        if is_empty from then some (err (message (lit "no sender specified")), s) else elim r.0 [
          | err e ↦ some (err e, r.1)
          | panic ↦ some (panic, r.1)
          | ok f ↦ with_fee args from amount extra f r.1
        ]

    -- BuildRawTransaction. The change address of the extras counts only without a swap type, which is
    -- an error here.
    unfoldable pub build_raw_transaction :
        Config → Bool → BuildTxArgs → S → Option (Result Err (AuthoredTx b × BuildTxArgs) × S)
    unfolding pay_swapout
    build_raw_transaction cfg is_src args s = elim (get_token_config cfg args.pair_id is_src) [
      | none ↦
          some (err (message (lit "swap pair '" ++ (args.pair_id ++ lit "' is not configed"))), s)
      | some token ↦ elim args.swap_type [
        | swapin_type ↦ some (err (sentinel swap_type_not_supported), s)
        | no_swap_type ↦ some (err (sentinel unknown_swap_type), s)
        | swapout_type ↦
            elim (calc_swapped_value cfg args.pair_id args.origin_value false args.origin_from
              args.origin_tx_to) [
                | none ↦ some (panic, s)
                | some amount ↦ pay_swapout args token.dcrm_address amount s
              ]
      ]
    ]
