-- ===== src/Bitcoin/Deposit.antt =====
-- tokens/btc/verifytx.go and tokens/btc/verifyp2shtx.go: the verification of a deposit.
pub mod Verified
use cross_chain_bridge.Common.{
  ℕ, zero, suc, ◌+◌, ◌-◌, ◌%◌, ◌^◌, ◌==◌, Bool, true, false, not, ◌&&◌, ◌||◌, Option, none, some,
  List, [], ◌∷◌, ◌++◌, Text, lit, is_empty, text_eq, contains, leb, ltb, if◌then◌else◌,
}
use cross_chain_bridge.Common.Int.{ℤ, pos}
use cross_chain_bridge.Common.Exec.{
  Result, ok, err, panic, Exec, pure, fail, crash, attempt, ◌>>=◌, ◌>>◌,
}
use cross_chain_bridge.Tokens.Errors.{
  Err, sentinel, message, unknown_pair_id, swap_is_closed, tx_not_stable, tx_not_found,
  tx_with_wrong_receiver, tx_with_wrong_memo, tx_with_wrong_sender, tx_with_wrong_value,
  bridge_destination_not_supported, wrong_p2sh_bind_address,
}
use cross_chain_bridge.Tokens.Types.{Config, TxSwapInfo, TokenConfig, get_token_config}
use cross_chain_bridge.Tokens.SwapValue.{check_swap_value}
use cross_chain_bridge.Bitcoin.Electrs.{
  ElectTx, ElectTxOut, ElectTxin, ElectTxStatus, deref, p2pkh_type, p2sh_type, op_return_type,
}
use cross_chain_bridge.Bitcoin.Received.{Received, get_received_value, get_tx_from}
use cross_chain_bridge.Bitcoin.Memo.{get_bind_address_from_memo_script}

-- The server of the chain, the destination bridge, the p2sh addresses and their register.
pub record Chain (S : Type 0) : Type 0 where
  pub config : Config
  pub is_src : Bool
  pub confirmations : ℕ
  pub get_transaction_by_hash : Text → Exec Err S ElectTx
  pub get_elect_transaction_status : Text → Exec Err S ElectTxStatus
  pub get_latest_block_number : Exec Err S ℕ
  pub is_valid_address : Text → Bool
  pub get_p2sh_address : Text → Result Err Text
  pub get_p2sh_bind_address : Text → Exec Err S Text

-- The confirmations of a block, 0 without an answer or for a block ahead of the latest.
unfoldable pub confirmations_at : ℕ → Result Err ℕ → ℕ
confirmations_at height (ok latest) = latest - height
confirmations_at height (err e) = 0
confirmations_at height panic = 0

abbrev pub or_zero : Option ℕ → ℕ
or_zero none = 0
or_zero (some n) = n

-- swapInfo with only its pair, hash and bind address
abbrev pub new_swap_info : Text → Text → Text → TxSwapInfo
new_swap_info pair_id hash bind = record {
  pair_id = pair_id;
  hash = hash;
  height = 0;
  timestamp = 0;
  from = lit "";
  tx_to = lit "";
  to = lit "";
  bind = bind;
  value = pos 0;
}

-- The error of a deposit: that of checkSwapinInfo, or that the memo has no bind address.
unfoldable pub memo_error : Option Text → Option Err → Option Err
memo_error bind (some e) = some e
memo_error none none = some (sentinel tx_with_wrong_memo)
memo_error (some bind) none = none

-- A verification gives the swap info, if it is not nil, and the error, if there is one.
abbrev pub Verdict : Type 0
Verdict = Option TxSwapInfo × Option Err

module _ {S : Type 0} (b : Chain S) where
  stable_at : ElectTxStatus → Exec Err S Bool
  unfolding deref pure attempt confirmations_at
  stable_at status = do
    confirmed ← deref status.confirmed
    if not confirmed then pure false else elim status.block_height [
      | none ↦ pure false
      | some height ↦ do
        r ← attempt b.get_latest_block_number
        pure (ltb 0 height && leb b.confirmations (confirmations_at height r))
    ]

  stable_or_error : Result Err ElectTxStatus → Exec Err S Bool
  unfolding stable_at pure crash
  stable_or_error (ok status) = stable_at status
  stable_or_error (err e) = pure false
  stable_or_error panic = crash

  -- checkStable, with GetTransactionStatus
  unfoldable pub check_stable : Text → Exec Err S Bool
  unfolding stable_or_error attempt
  check_stable tx_hash = attempt (b.get_elect_transaction_status tx_hash) >>= stable_or_error

  -- checkSwapinInfo: the error, if there is one.
  unfoldable pub check_swapin_info : TxSwapInfo → Exec Err S (Option Err)
  unfolding pure crash
  check_swapin_info info =
      if text_eq info.from info.to
      then pure (some (sentinel tx_with_wrong_sender))
      else elim (check_swap_value b.config info b.is_src) [
        | none ↦ crash
        | some worth ↦
            if not worth
            then pure (some (sentinel tx_with_wrong_value))
            else if not (b.is_valid_address info.bind)
            then pure (some (sentinel tx_with_wrong_memo))
            else pure none
      ]

  -- The height and the time of the block. A transaction with a lock time must be in a block.
  unfoldable pub with_block : ElectTx → TxSwapInfo → Exec Err S (Option TxSwapInfo)
  unfolding deref pure
  with_block tx info = elim tx.status.block_height [
    | some height ↦
        pure (some (record info { height = height; timestamp = or_zero tx.status.block_time }))
    | none ↦ do
      locktime ← deref tx.locktime
      pure (
          if locktime == 0
          then some (record info { timestamp = or_zero tx.status.block_time })
          else none)
  ]

  -- What comes of a deposit with these outputs, on the address that receives it.
  unfoldable pub settle : Text → Option Text → Received → ElectTx → TxSwapInfo → Exec Err S Verdict
  unfolding check_swapin_info memo_error pure
  settle receiver bind r tx info =
      let info' = record info {
        to = receiver;
        value = pos r.value;
        bind = elim bind [ none ↦ lit "" | some bind ↦ bind ];
        from = get_tx_from tx.vin receiver;
      } in
      if not r.right_receiver
      then pure (some info, some (sentinel tx_with_wrong_receiver))
      else do e ← check_swapin_info info'; pure (some info', memo_error bind e)

  -- A deposit by memo, and one to the p2sh address of a bind address.
  unfoldable pub settle_swapin : Text → ElectTx → TxSwapInfo → Exec Err S Verdict
  unfolding settle crash
  settle_swapin deposit tx info = elim (get_received_value tx.vout deposit p2pkh_type) [
    | none ↦ crash
    | some r ↦ settle deposit (get_bind_address_from_memo_script r.memo_script) r tx info
  ]

  unfoldable pub settle_p2sh : Text → ElectTx → TxSwapInfo → Exec Err S Verdict
  unfolding settle crash
  settle_p2sh p2sh_address tx info = elim (get_received_value tx.vout p2sh_address p2sh_type) [
    | none ↦ crash
    | some r ↦ settle p2sh_address (some info.bind) r tx info
  ]

  -- Behind the request for the transaction.
  unfoldable pub found :
      (ElectTx → TxSwapInfo → Exec Err S Verdict)
      → TxSwapInfo
      → Result Err ElectTx
      → Exec Err S Verdict
  unfolding with_block pure crash
  found settle_in info (err e) = pure (some info, some (sentinel tx_not_found))
  found settle_in info panic = crash
  found settle_in info (ok tx) = do
    o ← with_block tx info
    elim o [
      | none ↦ pure (some info, some (sentinel tx_not_stable))
      | some info' ↦ settle_in tx info'
    ]

  unfoldable pub look_up :
      (ElectTx → TxSwapInfo → Exec Err S Verdict) → Bool → TxSwapInfo → Exec Err S Verdict
  unfolding found check_stable attempt pure
  look_up settle_in allow_unstable info = do
    stable ← if allow_unstable then pure true else check_stable info.hash
    if not stable
        then pure (some info, some (sentinel tx_not_stable))
        else do r ← attempt (b.get_transaction_by_hash info.hash); found settle_in info r

  -- verifySwapinTx
  unfoldable pub verify_swapin_tx : Text → Text → Bool → Exec Err S Verdict
  unfolding look_up settle_swapin pure
  verify_swapin_tx pair_id tx_hash allow_unstable =
      elim (get_token_config b.config pair_id b.is_src) [
        | none ↦ pure (none, some (sentinel unknown_pair_id))
        | some token ↦
            if token.disable_swap
            then pure (none, some (sentinel swap_is_closed))
            else look_up (settle_swapin token.deposit_address) allow_unstable
                (new_swap_info pair_id tx_hash (lit ""))
      ]

  -- VerifyTransaction
  unfoldable pub verify_transaction : Text → Text → Bool → Exec Err S Verdict
  unfolding verify_swapin_tx pure
  verify_transaction pair_id tx_hash allow_unstable =
      if not b.is_src
      then pure (none, some (sentinel bridge_destination_not_supported))
      else verify_swapin_tx pair_id tx_hash allow_unstable

  -- verifyP2shSwapinTx; a panic of GetP2shAddress is not modelled.
  unfoldable pub verify_p2sh_swapin_tx : Text → Text → Text → Bool → Exec Err S Verdict
  unfolding look_up settle_p2sh pure
  verify_p2sh_swapin_tx pair_id tx_hash bind allow_unstable =
      elim (get_token_config b.config pair_id b.is_src) [
        | none ↦ pure (none, some (sentinel unknown_pair_id))
        | some token ↦ elim (b.get_p2sh_address bind) [
          | ok p2sh_address ↦
              look_up (settle_p2sh p2sh_address) allow_unstable (new_swap_info pair_id tx_hash bind)
          | _ ↦
              pure
                (some (new_swap_info pair_id tx_hash bind), some (sentinel wrong_p2sh_bind_address))
        ]
      ]

  -- VerifyP2shTransaction
  unfoldable pub verify_p2sh_transaction : Text → Text → Text → Bool → Exec Err S Verdict
  unfolding verify_p2sh_swapin_tx pure
  verify_p2sh_transaction pair_id tx_hash bind allow_unstable =
      if not b.is_src
      then pure (none, some (sentinel bridge_destination_not_supported))
      else verify_p2sh_swapin_tx pair_id tx_hash bind allow_unstable
