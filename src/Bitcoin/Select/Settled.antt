-- ===== src/Bitcoin/Select/Settled.antt =====
-- BuildTransaction ends, with inputs from selectUtxos.
use cross_chain_bridge.Common.{ℕ, ◌+◌, ◌≤◌, ◌≡◌, ◌∙◌, refl, false, some, List, Text}
use cross_chain_bridge.Common.Int.{ℤ, pos}
use cross_chain_bridge.Common.Exec.{Result, ok, err, panic, lift}
use cross_chain_bridge.Tokens.Errors.{Err}
use cross_chain_bridge.Bitcoin.Electrs.{ElectUtxo}
use cross_chain_bridge.Bitcoin.Unsigned.{Wallet, Inputs, AuthoredTx}
use cross_chain_bridge.Bitcoin.Unsigned.Fees.{
  AreAmounts, Pays, Spends, IsFetched, new_unsigned_transaction-Ends,
}
use cross_chain_bridge.Bitcoin.Select.{Node, select_utxos, built_outputs, build_transaction}
use cross_chain_bridge.Bitcoin.Select.Paid.{worth, values_total, select_utxos-IsPaid}
use cross_chain_bridge.Bitcoin.Select.Spent.{SpendsSome, select_utxos-SpendsSome}

module _ (b : Wallet) {S : Type 0} (node : Node b S) where
  module _ (min_relay_fee relay_fee_per_kb : ℤ) (receivers : List Text) (amounts : List ℤ)
      (memo from : Text) {bound : ℕ}
      (are_amounts : (outs : List b.TxOut)
        → built_outputs b node receivers amounts memo ≡ ok outs
        → AreAmounts b relay_fee_per_kb min_relay_fee false outs bound) where
    -- The inputs spend outputs that the server gave for the sender, and their values, recorded one by
    -- one, make up the total.
    abbrev pub SpendsOwn : AuthoredTx b → Type 0
    SpendsOwn tx =
        ((script : Text) × (utxos : List ElectUtxo) × (s : S) × (node.get_pay_to_addr_script from
            ≡ ok script)
          × ((node.find_utxos from s).0 ≡ ok utxos)
          × SpendsSome b node script utxos tx.tx_in tx.prev_input_values)
        × (tx.total_input ≡ pos (values_total tx.prev_input_values))

    abbrev pub Settles : Result Err (AuthoredTx b) → Type 0
    Settles (ok tx) =
        SpendsOwn tx
        × ((outs : List b.TxOut) × (built : built_outputs b node receivers amounts memo ≡ ok outs)
            × Pays b relay_fee_per_kb min_relay_fee false outs (select_utxos b node from)
                (are_amounts outs built) (ok tx))
    Settles (err e) = Unit
    Settles panic = Unit

    -- BuildTransaction ends. The inputs of a transaction that it gives spend unspent outputs of the
    -- sender, in their order and each at most once, and their recorded values are those of the outputs
    -- and add up to the total; and the total is the outputs for its receivers and its memo, the fee that
    -- is required, and a change that is nothing, or dust that is left to the miners, or the last output.
    -- The unspent outputs of the sender and all amounts stay below the bound, which is below 2 ^ 61, and
    -- one round more than the bound is fuel enough.
    pub build_transaction-Settles :
        ((s : S) (utxos : List ElectUtxo)
          → (node.find_utxos from s).0 ≡ ok utxos
          → worth utxos ≤ bound)
        → (s : S)
        → (r : Result Err (AuthoredTx b) × S) × (build_transaction b node min_relay_fee
              (bound + 1)
              from
              receivers
              amounts
              memo
              relay_fee_per_kb
              s
            ≡ some r)
          × Settles r.0
    unfolding build_transaction
    build_transaction-Settles hand s = go (built_outputs b node receivers amounts memo) refl
      where
        go :
            (o : Result Err (List b.TxOut))
            → built_outputs b node receivers amounts memo ≡ o
            → (r : Result Err (AuthoredTx b) × S) × (build_transaction b node min_relay_fee
                  (bound + 1)
                  from
                  receivers
                  amounts
                  memo
                  relay_fee_per_kb
                  s
                ≡ some r)
              × Settles r.0
        go (err x) e = ((err x, s), rw (build_transaction, e), tt)
        go panic e = ((panic, s), rw (build_transaction, e), tt)
        go (ok outs) e =
            let are = are_amounts outs e in
            let (r, q, pays) =
              new_unsigned_transaction-Ends b relay_fee_per_kb min_relay_fee false outs
                (select_utxos b node from) (lift (node.get_pay_to_addr_script from)) are
                (λ target s' i h.
                  let (script, p, paid) =
                    select_utxos-IsPaid b node from target s' bound i are.small hand h in
                  (paid.amount, paid.total, paid.covered))
                s in
            (r, rw (build_transaction, e) q, settled r.0 pays)
          where
            own :
                (tx : AuthoredTx b) (i : Inputs b)
                → IsFetched b relay_fee_per_kb min_relay_fee false outs (select_utxos b node from) i
                → Spends b relay_fee_per_kb min_relay_fee false outs tx i
                → SpendsOwn tx
            own tx i (target, s', q) (ins, values, scripts, total) =
                let (script, utxos, s'', p, found, some') =
                  select_utxos-SpendsSome b node from target s' i q in
                let (script', _, paid) =
                  select_utxos-IsPaid b node from target s' bound i (are_amounts outs e).small hand
                    q in
                (
                  (script, utxos, s'', p, found, rw (ins, values) some'),
                  rw (total, values) (paid.total ∙ rw paid.values refl),
                )

            settled :
                (x : Result Err (AuthoredTx b))
                → Pays b relay_fee_per_kb min_relay_fee false outs
                    (select_utxos b node from)
                    (are_amounts outs e)
                    x
                → Settles x
            settled (ok tx) ((i, from', spends), pays) =
                (own tx i from' spends, (outs, e, ((i, from', spends), pays)))
            settled (err x) pays = tt
            settled panic pays = tt
