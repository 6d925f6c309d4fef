-- ===== src/Worker/Send/Unsent.antt =====
-- The second verification after the signers disagree sends nothing.
use cross_chain_bridge.Common.{Option, none, some, lit}
use cross_chain_bridge.Tokens.Errors.{Err, errors_is, tx_not_stable, rpc_query_error, error_text}
use cross_chain_bridge.Tokens.Types.{BuildTxArgs, is_swapin_type}
use cross_chain_bridge.Platform.{Platform}
use cross_chain_bridge.Platform.Frame.{
  IsUnsent, IsUnsent-IsFrame, Within, IsFrame, Within-bind, Within-if, Within-pure, Within-attempt,
  Within-now, Within-quiet,
}
use cross_chain_bridge.Mongodb.Status
use cross_chain_bridge.Mongodb.Swaps.Quiet.{update_swap_status-IsQuiet}
use cross_chain_bridge.Worker.Send.{after_reverify, reverify_swap}
use cross_chain_bridge.Mongodb.Results.Unsent.{update_swap_result_status-IsUnsent}
use cross_chain_bridge.Worker.Updates.Unsent.{verify_swap_transaction-IsQuiet}

module _ (p : Platform) where
  U : IsFrame {p = p} IsUnsent
  U = IsUnsent-IsFrame p

  after_reverify-IsUnsent :
      (args : BuildTxArgs) (e : Option Err) → Within IsUnsent (after_reverify p args e)
  unfolding after_reverify
  after_reverify-IsUnsent args none = Within-pure U tt
  after_reverify-IsUnsent args (some e) =
      Within-if U (errors_is e tx_not_stable) _ _ (Within-pure U tt) (
        Within-if U (errors_is e rpc_query_error) _ _ (Within-pure U tt) (
          Within-bind U _ _ (Within-now U) λ t.
            Within-bind U _ _
              (Within-attempt U _ (
                Within-quiet U _ (
                  update_swap_status-IsQuiet p (is_swapin_type args.swap_type) args.swap_id
                    args.pair_id args.bind Status.tx_not_stable t (lit ""))))
              λ r. Within-bind U _ _ (Within-now U) λ t'.
                Within-bind U _ _
                  (Within-attempt U _ (
                    update_swap_result_status-IsUnsent p (is_swapin_type args.swap_type)
                      args.swap_id args.pair_id args.bind Status.tx_not_stable t' (error_text e)))
                  λ r'. Within-pure U tt))

  pub reverify_swap-IsUnsent : (args : BuildTxArgs) → Within IsUnsent (reverify_swap p args)
  unfolding reverify_swap
  reverify_swap-IsUnsent args =
      Within-bind U _ _
        (Within-quiet U _ (
          verify_swap_transaction-IsQuiet p (is_swapin_type args.swap_type) args.pair_id
            args.swap_id args.bind args.tx_type))
        λ r. after_reverify-IsUnsent args r.1
