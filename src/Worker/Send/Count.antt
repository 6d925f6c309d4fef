-- ===== src/Worker/Send/Count.antt =====
-- How often sendSignedTransaction, and the loop that it starts, call SendTransaction.
use cross_chain_bridge.Common.{
  ℕ, zero, suc, ◌≤◌, ◌≡◌, inl, inr, refl, ◌∙◌, not, Option, none, some, List, ◌∷◌, Text, lit,
  is_empty, ltb, Bool-cases, arith,
}
use cross_chain_bridge.Common.Exec.{
  Result, ok, err, panic, pure, modify, attempt, attempted, after, ◌>>=◌, ◌>>◌,
}
use cross_chain_bridge.Tokens.Errors.{Err}
use cross_chain_bridge.Tokens.Types.{BuildTxArgs, is_swapin_type, TxStatus}
use cross_chain_bridge.Platform.{Platform, World, M, Sent, call, call_result}
use cross_chain_bridge.Platform.Frame.{
  IsUnsent, IsUnsent-IsFrame, IsFrame, Within, Within-bind, Within-if, Within-pure, Within-attempt,
  Within-quiet,
}
use cross_chain_bridge.Mongodb.Histories.Quiet.{add_swap_history_item-IsQuiet}
use cross_chain_bridge.Worker.Cache.{add_swap_history}
use cross_chain_bridge.Worker.Send.{
  send, send_retry, note_history, next_nonce, start_send_loop, after_success,
  send_signed_transaction, send_tx_loop, look_again,
}
use cross_chain_bridge.Worker.Updates.Unsent.{update_swap_result-IsUnsent}
use cross_chain_bridge.Worker.Send.Sends.{again, sending, Starts, Starts-moved, Sends, Sends-then}

module _ (p : Platform) (args : BuildTxArgs) where
  U : IsFrame {p = p} IsUnsent
  U = IsUnsent-IsFrame p

  sent_or_again :
      (signed_tx : p.SignedTx) (n : ℕ) (r : Text × Option Err) (w : World p)
      (xs : List (Sent p.SignedTx))
      → w.sent ≡ sending p args signed_tx ∷ xs
      → ((v : World p) (last : Text × Option Err)
          → (k : ℕ) × (k ≤ n)
            × ((send_retry p n args signed_tx last v).1.sent
                ≡ again k (sending p args signed_tx) v.sent))
      → (k : ℕ) × (k ≤ suc n)
        × (((elim r.1 as (λ _. M p (Text × Option Err)) [
          | none ↦ pure r
          | some e ↦ send_retry p n args signed_tx r
        ])
              w).1.sent
            ≡ again k (sending p args signed_tx) xs)
  unfolding pure again
  sent_or_again signed_tx n (hash, none) w xs q h = (1, ground arith, q)
  sent_or_again signed_tx n (hash, some e) w xs q h =
      let (k, b, r) = h w (hash, some e) in (suc k, ground arith, r ∙ rw q refl)

  send_retry-again :
      (n : ℕ) (signed_tx : p.SignedTx) (last : Text × Option Err) (w : World p)
      → (k : ℕ) × (k ≤ n)
        × ((send_retry p n args signed_tx last w).1.sent
            ≡ again k (sending p args signed_tx) w.sent)
  unfolding send_retry send call again pure
  send_retry-again zero signed_tx last w = (0, ground arith, refl)
  send_retry-again (suc n) signed_tx last w =
      let is_src = not (is_swapin_type args.swap_type) in
      let (r, e) = p.send_transaction is_src signed_tx w.env in
      sent_or_again signed_tx n r (record w { sent = sending p args signed_tx ∷ w.sent; env = e })
        w.sent refl (λ v l. send_retry-again n signed_tx l v)

  -- The sends leave the loops alone.
  send_retry-send_loops :
      (n : ℕ) (signed_tx : p.SignedTx) (last : Text × Option Err) (w : World p)
      → (send_retry p n args signed_tx last w).1.send_loops ≡ w.send_loops
  unfolding send_retry send call pure
  send_retry-send_loops zero signed_tx last w = refl
  send_retry-send_loops (suc n) signed_tx last w =
      let ((hash, o), e) =
        p.send_transaction (not (is_swapin_type args.swap_type)) signed_tx w.env in
      go hash o (record w { sent = sending p args signed_tx ∷ w.sent; env = e })
        (λ l v. send_retry-send_loops n signed_tx l v)
    where
      go :
          (hash : Text) (o : Option Err) (v : World p)
          → ((l : Text × Option Err) (u : World p)
              → (send_retry p n args signed_tx l u).1.send_loops ≡ u.send_loops)
          → ((elim o as (λ _. M p (Text × Option Err)) [
            | none ↦ pure (hash, o)
            | some e ↦ send_retry p n args signed_tx (hash, o)
          ])
              v).1.send_loops
            ≡ v.send_loops
      go hash none v rec = refl
      go hash (some x) v rec = rec (hash, some x) v

  note_history-IsUnsent : (hash : Text) → Within IsUnsent (note_history p args hash)
  unfolding note_history add_swap_history
  note_history-IsUnsent hash = Within-if U (is_empty hash) _ _ (Within-pure U tt) (
      Within-bind U (add_swap_history p (is_swapin_type args.swap_type) args.swap_id args.bind) _
        (record { at = λ w. record { sent = refl; send_loops = refl } })
        λ u.
          Within-bind U _ _
            (Within-attempt U _ (
              Within-quiet U _ (
                add_swap_history_item-IsQuiet p (is_swapin_type args.swap_type) args.swap_id
                  args.bind hash)))
            λ r. Within-pure U tt)

  next_nonce-IsUnsent : Within IsUnsent (next_nonce p args)
  unfolding next_nonce modify
  next_nonce-IsUnsent = record { at = λ w. ground arith }

  -- One round of the loop that sends again.
  resend :
      (n : ℕ) (signed_tx : p.SignedTx) (v : World p)
      → ((hash : Text) (u : World p)
          → (k : ℕ) × (k ≤ n)
            × ((send_tx_loop p n hash signed_tx args u).1.sent
                ≡ again k (sending p args signed_tx) u.sent))
      → (k : ℕ) × (k ≤ suc n)
        × (((send p args signed_tx >>= λ s. send_tx_loop p n s.0 signed_tx args) v).1.sent
            ≡ again k (sending p args signed_tx) v.sent)
  unfolding send call again
  resend n signed_tx v rec =
      let (r, e) = p.send_transaction (not (is_swapin_type args.swap_type)) signed_tx v.env in
      let (k, b, q) = rec r.0 (record v { sent = sending p args signed_tx ∷ v.sent; env = e }) in
      (suc k, ground arith, q)

  look_again-again :
      (n : ℕ) (signed_tx : p.SignedTx) (hash : Text) (o : Result Err TxStatus) (v : World p)
      (next : M p (Unit {0}))
      → ((k : ℕ) × (k ≤ suc n) × ((next v).1.sent ≡ again k (sending p args signed_tx) v.sent))
      → (k : ℕ) × (k ≤ suc n)
        × ((look_again p hash args next o v).1.sent ≡ again k (sending p args signed_tx) v.sent)
  unfolding look_again again
  look_again-again n signed_tx hash (ok s) v next h = elim (Bool-cases (ltb 0 s.block_height)) [
    | inl high ↦ (
      0,
      ground arith,
      rw high
          ((Within-bind U _ _
              (Within-attempt U _
                (update_swap_result-IsUnsent p args.swap_id args.pair_id args.bind _))
              λ r. Within-pure U tt).at
            v).sent,
    )
    | inr low ↦ rw low h
  ]
  look_again-again n signed_tx hash (err x) v next h = h
  look_again-again n signed_tx hash panic v next h = h

  send_tx_loop-again :
      (n : ℕ) (signed_tx : p.SignedTx) (hash : Text) (w : World p)
      → (k : ℕ) × (k ≤ n)
        × ((send_tx_loop p n hash signed_tx args w).1.sent
            ≡ again k (sending p args signed_tx) w.sent)
  unfolding send_tx_loop attempt call_result again pure
  send_tx_loop-again zero signed_tx hash w = (0, ground arith, refl)
  send_tx_loop-again (suc n) signed_tx hash w =
      let (o, e) = p.get_transaction_status (not (is_swapin_type args.swap_type)) hash w.env in
      by_answer o (record w { env = e }) λ h u. send_tx_loop-again n signed_tx h u
    where
      next : M p (Unit {0})
      next = do s ← send p args signed_tx; send_tx_loop p n s.0 signed_tx args

      by_answer :
          (o : Result Err TxStatus) (v : World p)
          → ((h : Text) (u : World p)
              → (k : ℕ) × (k ≤ n)
                × ((send_tx_loop p n h signed_tx args u).1.sent
                    ≡ again k (sending p args signed_tx) u.sent))
          → (k : ℕ) × (k ≤ suc n)
            × ((after (attempted o) (look_again p hash args next) v).1.sent
                ≡ again k (sending p args signed_tx) v.sent)
      by_answer panic v rec = (0, ground arith, refl)
      by_answer (ok s) v rec =
          look_again-again n signed_tx hash (ok s) v next (resend n signed_tx v rec)
      by_answer (err x) v rec =
          look_again-again n signed_tx hash (err x) v next (resend n signed_tx v rec)

  after_success-Starts :
      (signed_tx : p.SignedTx) (r : Text × Option Err) (w : World p)
      → let w' = (after_success p signed_tx args r w).1 in
        (w'.sent ≡ w.sent) × Starts p args signed_tx w w'
  unfolding after_success start_send_loop modify pure
  after_success-Starts signed_tx r w =
      let kept = next_nonce-IsUnsent.at w in
      (kept.sent, inr (_, rw kept.send_loops refl, λ n v. send_tx_loop-again n signed_tx r.0 v))

  after_sending-Sends :
      (signed_tx : p.SignedTx) (k : ℕ) (u : World p) (r : Text × Option Err) (w : World p)
      → k ≤ 3
      → w.sent ≡ again k (sending p args signed_tx) u.sent
      → w.send_loops ≡ u.send_loops
      → Sends p args u
          ((elim r.1 as (λ _. M p (Text × Option Err)) [
            | none ↦ after_success p signed_tx args r
            | some e ↦ pure r
          ])
            w).1
  unfolding pure
  after_sending-Sends signed_tx k u (hash, some e) w b q l = inr (signed_tx, k, b, q, inl l)
  after_sending-Sends signed_tx k u (hash, none) w b q l =
      let (s, starts) = after_success-Starts signed_tx (hash, none) w in
      inr (
        signed_tx,
        k,
        b,
        s ∙ q,
        Starts-moved p args args signed_tx u w (after_success p signed_tx args (hash, none) w).1 l
            refl starts,
      )

  -- What follows the sends.
  after_note :
      (signed_tx : p.SignedTx) (k : ℕ) (u : World p) (r : Text × Option Err) (w : World p)
      → k ≤ 3
      → w.sent ≡ again k (sending p args signed_tx) u.sent
      → w.send_loops ≡ u.send_loops
      → Sends p args u
          ((note_history p args r.0 >> (elim r.1 as (λ _. M p (Text × Option Err)) [
            | none ↦ after_success p signed_tx args r
            | some e ↦ pure r
          ]))
            w).1
  after_note signed_tx k u r w b q l =
      let h = (note_history-IsUnsent r.0).at w in
      Sends-then p args (note_history p args r.0) _ u w
        (inr (signed_tx, k, b, h.sent ∙ q, inl (h.send_loops ∙ l)))
        λ _.
          after_sending-Sends signed_tx k u r (note_history p args r.0 w).1 b (h.sent ∙ q)
            (h.send_loops ∙ l)

  pub send_signed_transaction-Sends :
      (signed_tx : p.SignedTx) (w : World p)
      → Sends p args w (send_signed_transaction p signed_tx args w).1
  unfolding send_signed_transaction
  send_signed_transaction-Sends signed_tx w =
      let retry = send_retry p 3 args signed_tx (lit "", none) in
      let (k, b, e) = send_retry-again 3 signed_tx (lit "", none) w in
      let l = send_retry-send_loops 3 signed_tx (lit "", none) w in
      Sends-then p args retry _ w w (inr (signed_tx, k, b, e, inl l))
        λ r. after_note signed_tx k w r (retry w).1 b e l
