-- ===== src/Platform.antt =====
-- What the program runs on and does not implement here: the database, the clock, and the two
-- bridges behind the interfaces CrossChainBridge and NonceSetter of tokens/interfaces.go; and the
-- state of the process, which every modelled function takes and returns.
pub mod Database
pub mod Frame
pub mod Memory
use cross_chain_bridge.Common.{ℕ, Bool, true, false, Option, List, Text, if◌then◌else◌}
use cross_chain_bridge.Common.Exec.{Result, ok, err, Exec}
use cross_chain_bridge.Tokens.Errors.{Err}
use cross_chain_bridge.Tokens.Types.{Config, TxSwapInfo, TxStatus, BuildTxArgs, AllExtras}
use cross_chain_bridge.Common.Int.{ℤ}
use cross_chain_bridge.Mongodb.Documents.{
  MgoSwap, MgoSwapResult, MgoBlackAccount, MgoSwapHistory, MgoLatestSwapNonce, MgoUsedRValue,
}
use Database.{Collection}

-- `Env` is the state of everything outside; each call may change it, so two calls of one function
-- may see different chains and clocks. A function of a bridge takes the endpoint first, `true` for
-- the source.
pub record Platform : Type 1 where
  pub swaps : Collection MgoSwap
  pub results : Collection MgoSwapResult
  pub blacklists : Collection MgoBlackAccount
  pub histories : Collection MgoSwapHistory
  pub nonces : Collection MgoLatestSwapNonce
  pub used_r_values : Collection MgoUsedRValue
  pub Env : Type 0
  pub RawTx : Type 0
  pub SignedTx : Type 0
  -- time.Now().Unix(), common.NowMilli, primitive.NewObjectID
  pub clock : Env → ℕ × Env
  pub clock_milli : Env → ℕ × Env
  pub new_object_id : Env → Text × Env
  -- A status without an error is not nil.
  pub get_transaction_status : Bool → Text → Env → Result Err TxStatus × Env
  -- The swap info and the error may both be there.
  pub verify_transaction : Bool → Text → Text → Bool → Env → (Option TxSwapInfo × Option Err) × Env
  pub verify_p2sh_transaction :
      Text → Text → Text → Bool → Env → (Option TxSwapInfo × Option Err) × Env
  -- BuildRawTransaction also sets the extras and the swap value of its arguments: what it leaves
  -- in them comes back with the transaction.
  pub build_raw_transaction :
      Bool → BuildTxArgs → Env → Result Err (RawTx × Option AllExtras × Option ℤ) × Env
  pub sign_transaction : Bool → RawTx → Text → Env → Result Err (SignedTx × Text) × Env
  pub dcrm_sign_transaction : Bool → RawTx → BuildTxArgs → Env → Result Err (SignedTx × Text) × Env
  pub send_transaction : Bool → SignedTx → Env → (Text × Option Err) × Env
  -- NonceSetter: GetTxBlockInfo, GetPoolNonce at "latest", SetNonce
  pub get_tx_block_info : Bool → Text → Env → (ℕ × ℕ) × Env
  pub get_pool_nonce : Bool → Text → Env → Result Err ℕ × Env
  pub set_nonce : Bool → Text → ℕ → Env → Env
  -- mapset.Set.Pop takes some element out of a set.
  pub pop : List Text → List Text

-- A transaction that was handed to SendTransaction, and the swap that it pays out.
pub record Sent (SignedTx : Type 0) : Type 0 where
  pub is_swapin : Bool
  pub tx_id : Text
  pub bind : Text
  pub signed_tx : SignedTx

-- A goroutine of sendTxLoopUntilSuccess that was started, with its arguments.
pub record SendLoop (SignedTx : Type 0) : Type 0 where
  pub tx_hash : Text
  pub signed_tx : SignedTx
  pub args : BuildTxArgs

-- The collections, the caches and channels of package worker; and, newest first, `sent`: every call
-- of SendTransaction for a swap, and `send_loops`: every start of sendTxLoopUntilSuccess, which no
-- code reads.
pub record World (p : Platform) : Type 0 where
  pub config : Config
  pub swapin : p.swaps.Coll
  pub swapout : p.swaps.Coll
  pub swapin_result : p.results.Coll
  pub swapout_result : p.results.Coll
  pub blacklist : p.blacklists.Coll
  pub swap_history : p.histories.Coll
  pub latest_swap_nonces : p.nonces.Coll
  pub used_r_value : p.used_r_values.Coll
  pub cached_swap_tasks : List Text
  pub cached_swap_history : List Text
  pub swapin_task_channels : List (Text × List BuildTxArgs)
  pub swapout_task_channels : List (Text × List BuildTxArgs)
  pub sent : List (Sent p.SignedTx)
  pub send_loops : List (SendLoop p.SignedTx)
  pub env : p.Env

-- A Go function with an error result, over the state of the process.
abbrev pub M : Platform → Type 0 → Type 0
M p A = Exec Err (World p) A

module _ (p : Platform) where
  -- A call of a service.
  unfoldable pub call : {A : Type 0} → (p.Env → A × p.Env) → M p A
  call f w = let (a, e) = f w.env in (ok a, record w { env = e })

  -- A call of a service that may return an error.
  unfoldable pub call_result : {A : Type 0} → (p.Env → Result Err A × p.Env) → M p A
  call_result f w = let (r, e) = f w.env in (r, record w { env = e })

  -- time.Now().Unix()
  unfoldable pub now : M p ℕ
  unfolding call
  now = call p.clock
