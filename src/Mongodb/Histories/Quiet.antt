-- ===== src/Mongodb/Histories/Quiet.antt =====
-- The calls on the history leave the swap results and the transactions sent alone.
use cross_chain_bridge.Common.{Bool, Text, arith}
use cross_chain_bridge.Platform.{Platform}
use cross_chain_bridge.Platform.Frame.{IsQuiet, IsQuiet-refl, Within}
use cross_chain_bridge.Mongodb.Histories.{get_swap_history, add_swap_history_item}

module _ (p : Platform) where
  pub add_swap_history_item-IsQuiet :
      (is_swapin : Bool) (tx_id bind swap_tx : Text)
      → Within IsQuiet (add_swap_history_item p is_swapin tx_id bind swap_tx)
  unfolding add_swap_history_item
  add_swap_history_item-IsQuiet is_swapin tx_id bind swap_tx = record { at = λ w. ground arith }

  pub get_swap_history-IsQuiet :
      (is_swapin : Bool) (tx_id bind : Text)
      → Within IsQuiet (get_swap_history p is_swapin tx_id bind)
  unfolding get_swap_history
  get_swap_history-IsQuiet is_swapin tx_id bind = record { at = IsQuiet-refl }
