-- ===== src/Worker/Stable/Quiet.antt =====
-- Looking for the transactions of a result changes nothing of the database.
use cross_chain_bridge.Common.{
  ◌≡◌, ◌≢◌, refl, ap, ◌∙◌, ◌<◌, Bool, true, false, not, Option, none, some, List, [], ◌∷◌, Text,
  text_eq, ltb, ◌==◌, arith,
}
use cross_chain_bridge.Common.Exec.{ok, panic, pure, gets}
use cross_chain_bridge.Tokens.Types.{TxStatus, get_chain_config}
use cross_chain_bridge.Platform.{Platform, World, M}
use cross_chain_bridge.Platform.Frame.{
  IsQuiet, IsQuiet-IsFrame, IsFrame, Within, Within-bind, Within-if, Within-pure, Within-attempt,
  Within-call_result,
}
use cross_chain_bridge.Mongodb.Documents.{MgoSwapResult}
use cross_chain_bridge.Worker.Stable.Known.{
  IsFound, IsFound-swap_height, get_swap_tx_status-IsFound,
}
use cross_chain_bridge.Worker.Stable.{
  in_block, with_old, rest_of, old_tx_status, get_swap_tx_status, confirm, after_status,
  process_swap_stable,
}

module _ (p : Platform) where
  F : IsFrame {p = p} IsQuiet
  F = IsQuiet-IsFrame p

  if_in_block :
      (o : Option TxStatus) (found : MgoSwapResult) (rest : M p (Option TxStatus × MgoSwapResult))
      → Within IsQuiet rest
      → Within {p = p} {A = Option TxStatus × MgoSwapResult} IsQuiet
          (elim o [ some s ↦ pure (some s, found) | none ↦ rest ])
  if_in_block (some s) found rest h = Within-pure F (some s, found)
  if_in_block none found rest h = h

  old_tx_status-IsQuiet :
      (is_src : Bool) (swap : MgoSwapResult) (olds values : List Text)
      → Within IsQuiet (old_tx_status p is_src swap olds values)
  unfolding old_tx_status
  old_tx_status-IsQuiet is_src swap [] values = Within-pure F (none, swap)
  old_tx_status-IsQuiet is_src swap (old ∷ olds) values =
      Within-if F (text_eq swap.swap_tx old) _ _
        (old_tx_status-IsQuiet is_src swap olds (rest_of values))
        (Within-bind F _ _
          (Within-attempt F _ (Within-call_result F (p.get_transaction_status is_src old)))
          λ r.
            if_in_block (in_block r) (with_old swap old values)
              (old_tx_status p is_src swap olds (rest_of values))
              (old_tx_status-IsQuiet is_src swap olds (rest_of values)))

  pub get_swap_tx_status-IsQuiet :
      (is_src : Bool) (swap : MgoSwapResult) → Within IsQuiet (get_swap_tx_status p is_src swap)
  unfolding get_swap_tx_status
  get_swap_tx_status-IsQuiet is_src swap =
      Within-bind F _ _
        (Within-attempt F _ (Within-call_result F (p.get_transaction_status is_src swap.swap_tx)))
        λ r.
          if_in_block (in_block r) swap
            (old_tx_status p is_src swap swap.old_swap_txs swap.old_swap_vals)
            (old_tx_status-IsQuiet is_src swap swap.old_swap_txs swap.old_swap_vals)

  unconfirmed :
      (is_swapin : Bool) (swap : MgoSwapResult) (x : Option TxStatus × MgoSwapResult) (w : World p)
      → (swap.swap_height == 0) ≡ false
      → IsFound p (not is_swapin) swap swap.old_swap_txs swap.old_swap_vals x
      → ((s : TxStatus)
          → x.0 ≡ some s
          → s.confirmations < (get_chain_config w.config (not is_swapin)).confirmations)
      → (after_status p is_swapin swap.swap_tx x w).1 ≡ w
  unfolding after_status confirm pure gets
  unconfirmed is_swapin swap (none, found) w h f few =
      let height : found.swap_height ≡ swap.swap_height =
        IsFound-swap_height p (not is_swapin) swap swap.old_swap_txs swap.old_swap_vals
          (none, found) f in
      rw (height, h) refl
  unconfirmed is_swapin swap (some s, found) w h f few =
      let height : found.swap_height ≡ swap.swap_height =
        IsFound-swap_height p (not is_swapin) swap swap.old_swap_txs swap.old_swap_vals
          (some s, found) f in
      let low = few s refl in
      let less : ltb s.confirmations (get_chain_config w.config (not is_swapin)).confirmations
          ≡ true =
        ground arith in
      rw (height, h, less) refl

  -- A payment with a known height is not settled before its transaction has the confirmations of its
  -- chain: unless getSwapTxStatus gives a status with as many, the stable job changes no result and
  -- sends nothing. The bridge answers each question with a status or an error.
  pub process_swap_stable_unconfirmed :
      (is_swapin : Bool) (swap : MgoSwapResult) (w : World p)
      → ((tx : Text) (e : p.Env) → (p.get_transaction_status (not is_swapin) tx e).0 ≢ panic)
      → (swap.swap_height == 0) ≡ false
      → ((s : TxStatus) (found : MgoSwapResult)
          → (get_swap_tx_status p (not is_swapin) swap w).0 ≡ ok (some s, found)
          → s.confirmations < (get_chain_config w.config (not is_swapin)).confirmations)
      → IsQuiet w (process_swap_stable p is_swapin swap w).1
  unfolding process_swap_stable
  process_swap_stable_unconfirmed is_swapin swap w answers h few =
      let look = get_swap_tx_status p (not is_swapin) swap in
      let quiet = (get_swap_tx_status-IsQuiet (not is_swapin) swap).at w in
      let (x, q, f) = get_swap_tx_status-IsFound p (not is_swapin) answers swap w in
      let same =
        unconfirmed is_swapin swap x (look w).1 h f
          (λ s there. rw quiet.config (few s x.1 (q ∙ ap (λ o. ok (o, x.1)) there))) in
      rw (q, same) quiet
