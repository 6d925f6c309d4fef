-- ===== src/Tests/Signatures.antt =====
-- A request for the signature of the payment of a swap.
use cross_chain_bridge.Common.{ℕ, ◌≡◌, refl, true, none, some, [], ◌∷◌, Text, lit}
use cross_chain_bridge.Common.Exec.{ok}
use cross_chain_bridge.Worker.Accept.{SignInfo, Signers, Desk, process_accept_info}
use cross_chain_bridge.Worker.Accept.Agreed.{IsChecked, process_accept_info-IsChecked}
use cross_chain_bridge.Tests.Bench.{bench, args, waiting}

-- Every hash is the right one, and the group takes every answer.
abbrev signers : Signers bench
signers = record {
  unmarshal = λ c. some args;
  replace_identifier = lit "replace";
  initiators = lit "0xinit" ∷ [];
  pending_invalid_accept = true;
  has_btc_bridge_instance = true;
  accept_records = none;
  get_transaction = λ is_src tx e. (ok none, e);
  verify_msg_hash = λ is_src raw hashes e. (ok tt, e);
  verify_aggregate_msg_hash = λ hashes args e. (ok tt, e);
  do_accept_sign = λ key agrees hashes reason e. (ok tt, e);
}

abbrev request : SignInfo
request = record {
  key = lit "k1";
  account = lit "0xInit";
  msg_hash = lit "h" ∷ [];
  msg_context = lit "{}" ∷ [];
}

abbrev desk : Desk bench signers
desk = record { world = waiting; cached = []; answers = [] }

abbrev answered : Desk bench signers
answered = record { world = waiting; cached = lit "k1" ∷ []; answers = (lit "k1", true) ∷ [] }

process_lem : process_accept_info bench signers request desk ≡ some answered
unfolding process_accept_info cross_chain_bridge.Common.contains lit
    cross_chain_bridge.Common.equal_fold cross_chain_bridge.Tokens.Types.get_tx_nonce
    cross_chain_bridge.Tokens.Types.get_token_config
    cross_chain_bridge.Tokens.Types.get_token_pair_config
    cross_chain_bridge.Worker.Updates.verify_swap_transaction
process_lem = refl

process_accept_info-IsChecked_example : IsChecked bench signers request
process_accept_info-IsChecked_example =
    process_accept_info-IsChecked bench signers request desk answered process_lem refl
