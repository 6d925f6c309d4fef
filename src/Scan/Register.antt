-- ===== src/Scan/Register.antt =====
-- tokens/tools/swaptools.go: the swaps of a scanned transaction are registered. This is the server's
-- side, which has the database; another node asks the server by RPC.
use cross_chain_bridge.Common.{
  ℕ, Bool, true, false, not, Option, none, some, List, [], ◌∷◌, Text, lit, is_empty, length, ◌==◌,
  if◌then◌else◌,
}
use cross_chain_bridge.Common.Exec.{Result, ok, err, panic, ◌>>=◌, ◌>>◌, pure, crash, attempt}
use cross_chain_bridge.Tokens.Errors.{Err, error_text}
use cross_chain_bridge.Tokens.Types.{TxSwapInfo, SwapTxType, swapin_tx, swapout_tx, p2sh_swapin_tx}
use cross_chain_bridge.Platform.{Platform, M, now}
use cross_chain_bridge.Mongodb.Documents.{MgoSwap}
use cross_chain_bridge.Mongodb.Swaps.{find_swap, add_swap}
use cross_chain_bridge.Mongodb.Histories.{
  should_register_swap_for_error, get_status_by_token_verify_error,
}

unfoldable pub memo_of : Option Err → Text
memo_of none = lit ""
memo_of (some e) = error_text e

-- The document of a swap; its key and its first time are set by addSwap.
unfoldable pub scanned_swap : Text → TxSwapInfo → Option Err → SwapTxType → ℕ → MgoSwap
unfolding memo_of
scanned_swap txid info e tx_type t = record {
  key = lit "";
  pair_id = info.pair_id;
  tx_id = txid;
  from = info.from;
  tx_to = info.tx_to;
  tx_type = tx_type;
  bind = info.bind;
  status = get_status_by_token_verify_error e;
  init_time = 0;
  timestamp = t;
  memo = memo_of e;
}

module _ (p : Platform) where
  exists_in : Result Err MgoSwap → M p Bool
  unfolding pure crash
  exists_in (ok swap) = pure true
  exists_in (err e) = pure false
  exists_in panic = crash

  -- IsSwapExist
  unfoldable pub is_swap_exist : Bool → Text → Text → Text → M p Bool
  unfolding exists_in attempt
  is_swap_exist is_swapin txid pair_id bind =
      attempt (find_swap p is_swapin txid pair_id bind) >>= exists_in

  -- One swap that is to be registered, and the swaps behind it.
  register_info : Bool → Text → TxSwapInfo → Option Err → M p (Unit {0}) → M p (Unit {0})
  unfolding scanned_swap is_swap_exist now attempt pure
  register_info is_swapin txid info e rest = if is_empty info.bind then pure tt else do
    exist ← is_swap_exist is_swapin txid info.pair_id info.bind
    if exist then pure tt else do
      t ← now p
      attempt (
          add_swap p is_swapin
            (scanned_swap txid info e (if is_swapin then swapin_tx else swapout_tx) t))
      rest

  register_loop : Bool → Text → List (Option TxSwapInfo) → List (Option Err) → M p (Unit {0})
  unfolding register_info pure crash
  register_loop is_swapin txid (info ∷ infos) (e ∷ errors) =
      let rest = register_loop is_swapin txid infos errors in
      if not (should_register_swap_for_error e)
      then rest
      else elim info [ none ↦ crash | some i ↦ register_info is_swapin txid i e rest ]
  register_loop is_swapin txid [] errors = pure tt
  register_loop is_swapin txid infos [] = pure tt

  -- RegisterSwapin, RegisterSwapout: registerSwap
  unfoldable pub register_swap :
      Bool → Text → List (Option TxSwapInfo) → List (Option Err) → M p (Unit {0})
  unfolding register_loop pure
  register_swap is_swapin txid infos errors =
      if not (length infos == length errors)
      then pure tt
      else register_loop is_swapin txid infos errors

  -- RegisterP2shSwapin
  unfoldable pub register_p2sh_swapin : Text → Option TxSwapInfo → Option Err → M p (Unit {0})
  unfolding scanned_swap now attempt pure crash
  register_p2sh_swapin txid info e =
      if not (should_register_swap_for_error e) then pure tt else elim info [
        | none ↦ crash
        | some i ↦ do
          t ← now p
          attempt (add_swap p true (scanned_swap txid i e p2sh_swapin_tx t))
          pure tt
      ]
