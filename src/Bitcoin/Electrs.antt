-- ===== src/Bitcoin/Electrs.antt =====
-- tokens/btc/electrs/types.go: what the server of the chain answers. Its fields are pointers, so a
-- field may be missing; the code reads most of them without a test, and panics where one is.
use cross_chain_bridge.Common.{ℕ, Bool, Option, none, some, List, Text, lit}
use cross_chain_bridge.Common.Exec.{Exec, pure, crash}

pub record ElectTxOut : Type 0 where
  pub scriptpubkey_asm : Option Text
  pub scriptpubkey_type : Option Text
  pub scriptpubkey_address : Option Text
  pub value : Option ℕ  -- uint64

pub record ElectTxStatus : Type 0 where
  pub confirmed : Option Bool
  pub block_height : Option ℕ
  pub block_time : Option ℕ

pub record ElectTxin : Type 0 where
  pub prevout : Option ElectTxOut

pub record ElectTx : Type 0 where
  pub txid : Option Text
  pub locktime : Option ℕ
  pub vin : List (Option ElectTxin)
  pub vout : List ElectTxOut
  pub status : ElectTxStatus

pub record ElectUtxo : Type 0 where
  pub txid : Option Text
  pub vout : Option ℕ  -- uint32
  pub value : Option ℕ  -- uint64

pub record ElectOutspend : Type 0 where
  pub spent : Option Bool
  pub status : Option ElectTxStatus

-- The use of a pointer.
unfoldable pub deref : {E S A : Type 0} → Option A → Exec E S A
unfolding pure crash
deref none = crash
deref (some a) = pure a

abbrev pub p2pkh_type : Text
p2pkh_type = lit "p2pkh"

abbrev pub p2sh_type : Text
p2sh_type = lit "p2sh"

abbrev pub op_return_type : Text
op_return_type = lit "op_return"
