-- ===== src/Mongodb/Documents.antt =====
-- mongodb/tables.go: the documents of the collections that the modelled code reads and writes.
use cross_chain_bridge.Common.{
  ℕ, Bool, List, Text, ◌++◌, lit, to_lower, bool_text, ◌≡◌, to_lower-append, to_lower_idem,
}
use cross_chain_bridge.Tokens.Types.{SwapType, SwapTxType}
use cross_chain_bridge.Mongodb.Status.{SwapStatus}

-- A registered swap. `key` is the document's _id.
pub record MgoSwap : Type 0 where
  pub key : Text
  pub pair_id : Text
  pub tx_id : Text
  pub from : Text
  pub tx_to : Text
  pub tx_type : SwapTxType
  pub bind : Text
  pub status : SwapStatus
  pub init_time : ℕ
  pub timestamp : ℕ
  pub memo : Text

-- A swap result: a verified swap and what was paid out for it.
pub record MgoSwapResult : Type 0 where
  pub key : Text
  pub pair_id : Text
  pub tx_id : Text
  pub tx_to : Text
  pub tx_height : ℕ
  pub tx_time : ℕ
  pub from : Text
  pub to : Text
  pub bind : Text
  pub value : Text
  pub swap_tx : Text
  pub old_swap_txs : List Text
  pub old_swap_vals : List Text
  pub swap_height : ℕ
  pub swap_time : ℕ
  pub swap_value : Text
  pub swap_type : SwapType
  pub swap_nonce : ℕ
  pub status : SwapStatus
  pub init_time : ℕ
  pub timestamp : ℕ
  pub memo : Text

pub record SwapResultUpdateItems : Type 0 where
  pub swap_tx : Text
  pub swap_height : ℕ
  pub swap_time : ℕ
  pub swap_value : Text
  pub swap_type : SwapType
  pub swap_nonce : ℕ
  pub status : SwapStatus
  pub timestamp : ℕ
  pub memo : Text

pub record MgoBlackAccount : Type 0 where
  pub key : Text
  pub address : Text
  pub pair_id : Text
  pub timestamp : ℕ

pub record MgoLatestSwapNonce : Type 0 where
  pub key : Text
  pub address : Text
  pub is_swapin : Bool
  pub swap_nonce : ℕ
  pub timestamp : ℕ

-- The key of an entry is a fresh object id, which nothing reads.
pub record MgoSwapHistory : Type 0 where
  pub is_swapin : Bool
  pub tx_id : Text
  pub bind : Text
  pub swap_tx : Text

pub record MgoUsedRValue : Type 0 where
  pub key : Text
  pub timestamp : ℕ

-- GetSwapKey
unfoldable pub get_swap_key : Text → Text → Text → Text
get_swap_key tx_id pair_id bind = to_lower (tx_id ++ (lit ":" ++ (pair_id ++ (lit ":" ++ bind))))

unfoldable pub get_blacklist_key : Text → Text → Text
get_blacklist_key address pair_id = to_lower (address ++ (lit ":" ++ pair_id))

unfoldable pub get_swap_nonce_key : Text → Bool → Text
get_swap_nonce_key address is_swapin = to_lower (address ++ (lit ":" ++ bool_text is_swapin))

-- The key of AddUsedRValue
unfoldable pub get_used_r_key : Text → Text → Text
get_used_r_key pubkey r = to_lower (r ++ (lit ":" ++ pubkey))

-- The key of a swap does not depend on the case of its pair.
pub get_swap_key-to_lower :
    (tx_id pair_id bind : Text)
    → get_swap_key tx_id (to_lower pair_id) bind ≡ get_swap_key tx_id pair_id bind
unfolding get_swap_key
get_swap_key-to_lower tx_id pair_id bind = simp (to_lower-append, to_lower_idem)
