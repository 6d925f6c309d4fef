-- ===== src/Worker/Send/Kept.antt =====
-- Sending a transaction leaves the swap results alone.
use cross_chain_bridge.Common.{
  ℕ, zero, suc, ◌≡◌, Bool, true, false, Option, none, some, Text, lit, is_empty, arith,
}
use cross_chain_bridge.Common.Exec.{pure}
use cross_chain_bridge.Tokens.Errors.{Err}
use cross_chain_bridge.Tokens.Types.{BuildTxArgs, is_swapin_type}
use cross_chain_bridge.Platform.{Platform, World, M}
use cross_chain_bridge.Platform.Frame.{
  IsQuiet, IsFrame, Within, Within-bind, Within-pure, Within-quiet, Within-attempt, Within-if,
}
use cross_chain_bridge.Mongodb.Documents.{MgoSwapResult}
use cross_chain_bridge.Mongodb.Access.{result_at}
use cross_chain_bridge.Mongodb.Results.History.{KeptAt}
use cross_chain_bridge.Mongodb.Histories.Quiet.{add_swap_history_item-IsQuiet}
use cross_chain_bridge.Worker.Cache.{add_swap_history}
use cross_chain_bridge.Worker.Send.{
  send, send_retry, note_history, next_nonce, start_send_loop, after_success,
  send_signed_transaction,
}

-- What was kept of the document `d` under the key is still kept.
abbrev pub StillKept : (p : Platform) → Bool → Text → MgoSwapResult → World p → World p → Type 0
StillKept p dir key d w w' = KeptAt p dir w key d → KeptAt p dir w' key d

module _ (p : Platform) (dir : Bool) (key : Text) (d : MgoSwapResult) where
  quiet_kept : (w w' : World p) → IsQuiet w w' → StillKept p dir key d w w'
  quiet_kept w w' q (e, at, kept) = (e, go dir at, kept)
    where
      go : (b : Bool) → result_at p b w key ≡ some e → result_at p b w' key ≡ some e
      go true h = rw q.swapin_result h
      go false h = rw q.swapout_result h

  pub StillKept-IsFrame : IsFrame {p = p} (StillKept p dir key d)
  StillKept-IsFrame = record { quiet = quiet_kept; trans = λ u v w f g h. g (f h) }

  K : IsFrame {p = p} (StillKept p dir key d)
  K = StillKept-IsFrame

  send-StillKept :
      (args : BuildTxArgs) (signed_tx : p.SignedTx)
      → Within (StillKept p dir key d) (send p args signed_tx)
  unfolding send
  send-StillKept args signed_tx = record { at = λ w h. h }

  sent_again :
      (r : Text × Option Err) (rest : M p (Text × Option Err))
      → Within (StillKept p dir key d) rest
      → Within {p = p} {A = Text × Option Err}
          (StillKept p dir key d)
          (elim r.1 [ none ↦ pure r | some e ↦ rest ])
  sent_again (hash, none) rest h = Within-pure K _
  sent_again (hash, some e) rest h = h

  send_retry-StillKept :
      (n : ℕ) (args : BuildTxArgs) (signed_tx : p.SignedTx) (last : Text × Option Err)
      → Within (StillKept p dir key d) (send_retry p n args signed_tx last)
  unfolding send_retry
  send_retry-StillKept zero args signed_tx last = Within-pure K last
  send_retry-StillKept (suc n) args signed_tx last =
      Within-bind K _ _ (send-StillKept args signed_tx) λ r.
        sent_again r (send_retry p n args signed_tx r) (send_retry-StillKept n args signed_tx r)

  add_swap_history-StillKept :
      (is_swapin : Bool) (tx_id bind : Text)
      → Within (StillKept p dir key d) (add_swap_history p is_swapin tx_id bind)
  unfolding add_swap_history
  add_swap_history-StillKept is_swapin tx_id bind = record { at = λ w h. h }

  note_history-StillKept :
      (args : BuildTxArgs) (hash : Text) → Within (StillKept p dir key d) (note_history p args hash)
  unfolding note_history
  note_history-StillKept args hash = Within-if K (is_empty hash) _ _ (Within-pure K tt) (
      Within-bind K _ _
        (add_swap_history-StillKept (is_swapin_type args.swap_type) args.swap_id args.bind)
        λ u.
          Within-bind K _ _
            (Within-attempt K _ (
              Within-quiet K _ (
                add_swap_history_item-IsQuiet p (is_swapin_type args.swap_type) args.swap_id
                  args.bind hash)))
            λ r. Within-pure K tt)

  next_nonce-StillKept : (args : BuildTxArgs) → Within (StillKept p dir key d) (next_nonce p args)
  unfolding next_nonce
  next_nonce-StillKept args = record { at = λ w h. ground arith }

  start_send_loop-StillKept :
      (hash : Text) (signed_tx : p.SignedTx) (args : BuildTxArgs)
      → Within (StillKept p dir key d) (start_send_loop p hash signed_tx args)
  unfolding start_send_loop
  start_send_loop-StillKept hash signed_tx args = record { at = λ w h. h }

  after_sending :
      (signed_tx : p.SignedTx) (args : BuildTxArgs) (r : Text × Option Err)
      → Within {p = p} {A = Text × Option Err}
          (StillKept p dir key d)
          (elim r.1 [ none ↦ after_success p signed_tx args r | some e ↦ pure r ])
  unfolding after_success
  after_sending signed_tx args (hash, none) = Within-bind K _ _ (next_nonce-StillKept args) λ u.
      Within-bind K _ _ (start_send_loop-StillKept hash signed_tx args)
        λ u'. Within-pure K (hash, none)
  after_sending signed_tx args (hash, some e) = Within-pure K _

  pub send_signed_transaction-StillKept :
      (signed_tx : p.SignedTx) (args : BuildTxArgs)
      → Within (StillKept p dir key d) (send_signed_transaction p signed_tx args)
  unfolding send_signed_transaction
  send_signed_transaction-StillKept signed_tx args =
      Within-bind K _ _ (send_retry-StillKept 3 args signed_tx (lit "", none))
        λ r. Within-bind K _ _ (note_history-StillKept args r.0) λ u. after_sending signed_tx args r
