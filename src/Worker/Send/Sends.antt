-- ===== src/Worker/Send/Sends.antt =====
-- What a part of sendSignedTransaction may send, and the loops that it may start.
use cross_chain_bridge.Common.{ℕ, zero, suc, ◌≤◌, ◌≡◌, ◌⊎◌, inl, inr, refl, ◌∙◌, List, ◌∷◌}
use cross_chain_bridge.Common.Exec.{◌>>=◌}
use cross_chain_bridge.Tokens.Types.{BuildTxArgs, is_swapin_type}
use cross_chain_bridge.Platform.{Platform, World, M, Sent, SendLoop}
use cross_chain_bridge.Platform.Frame.{IsUnsent, Within, >>=_cases}
use cross_chain_bridge.Worker.Send.{send_tx_loop}

-- A list with `s` in front `k` times more.
unfoldable pub again : {A : Type 0} → ℕ → A → List A → List A
again zero s xs = xs
again (suc k) s xs = again k s (s ∷ xs)

-- The entry of a call of SendTransaction.
abbrev pub sending : (p : Platform) → BuildTxArgs → p.SignedTx → Sent p.SignedTx
sending p args signed_tx = record {
  is_swapin = is_swapin_type args.swap_type;
  tx_id = args.swap_id;
  bind = args.bind;
  signed_tx = signed_tx;
}

-- The loop hands only this transaction to SendTransaction, for the swap of `args`: in `n` rounds up to
-- `n` times, whatever the state and the services.
abbrev pub SendsAgain : (p : Platform) → BuildTxArgs → p.SignedTx → SendLoop p.SignedTx → Type 0
SendsAgain p args signed_tx l =
    (n : ℕ) (v : World p)
    → (k : ℕ) × (k ≤ n)
      × ((send_tx_loop p n l.tx_hash l.signed_tx l.args v).1.sent
          ≡ again k (sending p args signed_tx) v.sent)

-- No loop was started, or one, for this transaction.
abbrev pub Starts : (p : Platform) → BuildTxArgs → p.SignedTx → World p → World p → Type 0
Starts p args signed_tx w w' =
    (w'.send_loops ≡ w.send_loops)
    ⊎ ((l : SendLoop p.SignedTx) × (w'.send_loops ≡ l ∷ w.send_loops)
        × SendsAgain p args signed_tx l)

-- Nothing was sent and no loop started; or one transaction was sent up to three times, and at most
-- one loop started for it.
abbrev pub Sends : (p : Platform) → BuildTxArgs → World p → World p → Type 0
Sends p args w w' =
    ((w'.sent ≡ w.sent) × (w'.send_loops ≡ w.send_loops))
    ⊎ ((signed_tx : p.SignedTx) × (k : ℕ) × (k ≤ 3)
        × (w'.sent ≡ again k (sending p args signed_tx) w.sent)
        × Starts p args signed_tx w w')

module _ (p : Platform) (args : BuildTxArgs) where
  SendsAgain-moved :
      (args' : BuildTxArgs) (signed_tx : p.SignedTx) (l : SendLoop p.SignedTx)
      → args'.swap_info ≡ args.swap_info
      → SendsAgain p args' signed_tx l
      → SendsAgain p args signed_tx l
  SendsAgain-moved args' signed_tx l i h n v = let (k, b, e) = h n v in (k, b, e ∙ rw i refl)

  pub Starts-moved :
      (args' : BuildTxArgs) (signed_tx : p.SignedTx) (u v w : World p)
      → v.send_loops ≡ u.send_loops
      → args'.swap_info ≡ args.swap_info
      → Starts p args' signed_tx v w
      → Starts p args signed_tx u w
  Starts-moved args' signed_tx u v w q i (inl e) = inl (e ∙ q)
  Starts-moved args' signed_tx u v w q i (inr (l, e, h)) =
      inr (l, e ∙ rw q refl, SendsAgain-moved args' signed_tx l i h)

  pub Sends-moved :
      (args' : BuildTxArgs) (u v w : World p)
      → IsUnsent u v
      → args'.swap_info ≡ args.swap_info
      → Sends p args' v w
      → Sends p args u w
  Sends-moved args' u v w q i (inl (e, e')) = inl (e ∙ q.sent, e' ∙ q.send_loops)
  Sends-moved args' u v w q i (inr (tx, k, b, e, starts)) =
      inr (tx, k, b, e ∙ rw (q.sent, i) refl, Starts-moved args' tx u v w q.send_loops i starts)

  pub Sends-before :
      {A B : Type 0} (m : M p A) (f : A → M p B) (w : World p)
      → Within IsUnsent m
      → ((a : A) (v : World p) → Sends p args v (f a v).1)
      → Sends p args w ((m >>= f) w).1
  Sends-before m f w hm hf = elim (>>=_cases m f w) [
    | inl (a, q, e) ↦
        rw e (Sends-moved args w (m w).1 (f a (m w).1).1 (hm.at w) refl (hf a (m w).1))
    | inr (_, _, e) ↦ inl (rw e ((hm.at w).sent, (hm.at w).send_loops))
  ]

  pub Sends-after :
      {A B : Type 0} (m : M p A) (f : A → M p B) (w : World p)
      → Sends p args w (m w).1
      → ((a : A) → Within IsUnsent (f a))
      → Sends p args w ((m >>= f) w).1
  Sends-after m f w hm hf = elim (>>=_cases m f w) [
    | inl (a, q, e) ↦ rw e (extend (m w).1 (f a (m w).1).1 hm ((hf a).at (m w).1))
    | inr (_, _, e) ↦ rw e hm
  ]
    where
      started :
          (tx : p.SignedTx) (v w' : World p)
          → Starts p args tx w v
          → w'.send_loops ≡ v.send_loops
          → Starts p args tx w w'
      started tx v w' (inl e) q = inl (q ∙ e)
      started tx v w' (inr (l, e, h)) q = inr (l, q ∙ e, h)

      extend : (v w' : World p) → Sends p args w v → IsUnsent v w' → Sends p args w w'
      extend v w' (inl (e, e')) q = inl (q.sent ∙ e, q.send_loops ∙ e')
      extend v w' (inr (tx, k, b, e, s)) q =
          inr (tx, k, b, q.sent ∙ e, started tx v w' s q.send_loops)

  pub Sends-then :
      {A B : Type 0} (m : M p A) (f : A → M p B) (u w : World p)
      → Sends p args u (m w).1
      → ((a : A) → Sends p args u (f a (m w).1).1)
      → Sends p args u ((m >>= f) w).1
  Sends-then m f u w hm hf = elim (>>=_cases m f w) [
    | inl (a, _, e) ↦ rw e (hf a)
    | inr (_, _, e) ↦ rw e hm
  ]
