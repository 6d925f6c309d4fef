-- ===== src/Tokens/Types.antt =====
-- tokens/types.go, the parts of tokens/config.go that the modelled code reads, the receipt of
-- types/rpctypes.go, and the lookups of tokens/pairsconfig.go.
use cross_chain_bridge.Common.{
  ℕ, Bool, true, false, not, ◌&&◌, ◌||◌, Option, none, some, List, [], ◌∷◌, Text, lit, is_empty,
  to_lower, text_eq, contains, length, ◌==◌, if◌then◌else◌,
}
use cross_chain_bridge.Common.Int.{ℤ}

pub data SwapType : Type 0 where
  no_swap_type swapin_type swapout_type : SwapType

unfoldable pub swap_type_text : SwapType → Text
swap_type_text no_swap_type = lit "noswap"
swap_type_text swapin_type = lit "swapin"
swap_type_text swapout_type = lit "swapout"

pub data SwapTxType : Type 0 where
  swapin_tx swapout_tx p2sh_swapin_tx : SwapTxType

pub record TxSwapInfo : Type 0 where
  pub pair_id : Text
  pub hash : Text
  pub height : ℕ
  pub timestamp : ℕ
  pub from : Text
  pub tx_to : Text
  pub to : Text
  pub bind : Text
  pub value : ℤ

-- What `Receipt interface{}` holds: an eth-like receipt with its status and logs, or another value.
pub data Receipt : Type 0 where
  rpc_tx_receipt : Option ℕ → List Text → Receipt
  other_receipt : Receipt

-- RPCTxReceipt.IsStatusOk
unfoldable pub is_status_ok : Option ℕ → Bool
is_status_ok none = false
is_status_ok (some status) = status == 1

pub record TxStatus : Type 0 where
  pub receipt : Option Receipt
  pub confirmations : ℕ
  pub block_height : ℕ
  pub block_time : ℕ

pub record SwapInfo : Type 0 where
  pub identifier : Text
  pub pair_id : Text
  pub swap_id : Text
  pub swap_type : SwapType
  pub tx_type : SwapTxType
  pub bind : Text
  pub reswapping : Bool

pub record EthExtraArgs : Type 0 where
  pub gas_price : Option ℤ
  pub nonce : Option ℕ

pub record RippleExtra : Type 0 where
  pub sequence : Option ℕ

-- An out point is a hash and an index.
pub record BtcExtraArgs : Type 0 where
  pub relay_fee_per_kb : Option ℤ
  pub change_address : Option Text
  pub previous_out_points : List (Text × ℕ)

pub record AllExtras : Type 0 where
  pub replace_num : ℕ
  pub btc_extra : Option BtcExtraArgs
  pub eth_extra : Option EthExtraArgs
  pub ripple_extra : Option RippleExtra

pub record BuildTxArgs : Type 0 where
  pub swap_info : SwapInfo
  pub open swap_info use *
  pub from : Text
  pub origin_from : Text
  pub origin_tx_to : Text
  pub origin_value : ℤ
  pub swap_value : Option ℤ
  pub extra : Option AllExtras

abbrev pub is_swapin_type : SwapType → Bool
is_swapin_type swapin_type = true
is_swapin_type no_swap_type = false
is_swapin_type swapout_type = false

-- BuildTxArgs.GetTxNonce: the nonce of an eth-like transaction, else the sequence of a ripple one.
ripple_nonce : Option RippleExtra → ℕ
ripple_nonce none = 0
ripple_nonce (some r) = elim r.sequence [ none ↦ 0 | some n ↦ n ]

extras_nonce : AllExtras → ℕ
unfolding ripple_nonce
extras_nonce x = elim x.eth_extra [
  | none ↦ ripple_nonce x.ripple_extra
  | some e ↦ elim e.nonce [ none ↦ ripple_nonce x.ripple_extra | some n ↦ n ]
]

unfoldable pub get_tx_nonce : BuildTxArgs → ℕ
unfolding extras_nonce
get_tx_nonce args = elim args.extra [ none ↦ 0 | some x ↦ extras_nonce x ]

-- What the code observes of the float SwapFeeRate: whether it is 0.0, and uint64(rate * 1e18).
pub record FeeRate : Type 0 where
  pub is_zero : Bool
  pub mul_1e18 : ℕ

pub record TokenConfig : Type 0 where
  pub decimals : ℕ  -- uint8
  pub dcrm_address : Text
  pub contract_address : Text
  pub deposit_address : Text
  pub swap_fee_rate : FeeRate
  pub disable_swap : Bool
  pub has_private_key : Bool
  pub max_swap : ℤ
  pub min_swap : ℤ
  pub max_swap_fee : ℤ
  pub min_swap_fee : ℤ
  pub big_val_threshold : ℤ
  pub big_value_whitelist : List Text

pub record ChainConfig : Type 0 where
  pub confirmations : ℕ
  pub initial_height : ℕ
  pub base_fee_percent : ℤ
  pub wait_time_to_replace : ℕ
  pub max_replace_count : ℕ

pub record TokenPairConfig : Type 0 where
  pub pair_id : Text
  pub src_token : TokenConfig
  pub dest_token : TokenConfig

-- The configuration of the process: the pairs by lower-case id, the two chains, and which of the
-- two bridges sets nonces (the eth-like ones do).
pub record Config : Type 0 where
  pub identifier : Text
  pub pairs : List (Text × TokenPairConfig)
  pub src_chain : ChainConfig
  pub dst_chain : ChainConfig
  pub src_nonce_setter : Bool
  pub dst_nonce_setter : Bool
  pub has_btc_bridge : Bool

find_pair : Text → List (Text × TokenPairConfig) → Option TokenPairConfig
find_pair k [] = none
find_pair k ((j, c) ∷ rest) = if text_eq j k then some c else find_pair k rest

-- tokenPairsConfig[strings.ToLower(pairID)]
unfoldable pub get_token_pair_config : Config → Text → Option TokenPairConfig
unfolding find_pair
get_token_pair_config cfg pair_id = find_pair (to_lower pair_id) cfg.pairs

unfoldable pub get_token_config : Config → Text → Bool → Option TokenConfig
get_token_config cfg pair_id is_src = elim (get_token_pair_config cfg pair_id) [
  | none ↦ none
  | some c ↦ some (if is_src then c.src_token else c.dest_token)
]

unfoldable pub get_token_configs_by_direction :
    Config → Text → Bool → Option (TokenConfig × TokenConfig)
get_token_configs_by_direction cfg pair_id is_swapin = elim (get_token_pair_config cfg pair_id) [
  | none ↦ none
  | some c ↦ some (if is_swapin then (c.src_token, c.dest_token) else (c.dest_token, c.src_token))
]

unfoldable pub is_in_big_value_whitelist : TokenConfig → Text → Bool
is_in_big_value_whitelist token caller = contains (to_lower caller) token.big_value_whitelist

abbrev pub get_chain_config : Config → Bool → ChainConfig
get_chain_config cfg is_src = if is_src then cfg.src_chain else cfg.dst_chain

-- Whether GetNonceSetter(isSrc) is there; the bridge of that end is one exactly then.
abbrev pub is_nonce_setter : Config → Bool → Bool
is_nonce_setter cfg is_src = if is_src then cfg.src_nonce_setter else cfg.dst_nonce_setter

unfoldable pub receipt_failed : Receipt → Bool → Bool
unfolding is_status_ok
receipt_failed other_receipt is_contract = true
receipt_failed (rpc_tx_receipt status logs) is_contract =
    not (is_status_ok status) || is_contract && length logs == 0

-- TxStatus.IsSwapTxOnChainAndFailed
unfoldable pub is_swap_tx_on_chain_and_failed : Option TxStatus → Option TokenConfig → Bool
unfolding receipt_failed
is_swap_tx_on_chain_and_failed none token = false
is_swap_tx_on_chain_and_failed (some s) token =
    if s.block_height == 0 then false else elim s.receipt [
      | none ↦ false
      | some r ↦
          receipt_failed r
            (elim token [ none ↦ false | some t ↦ not (is_empty t.contract_address) ])
    ]
