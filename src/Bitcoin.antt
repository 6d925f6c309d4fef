-- ===== src/Bitcoin.antt =====
-- Package tokens/btc: the bridge of a chain with unspent outputs. tokens/ltc, tokens/block and
-- tokens/colx hold copies of the same code.
pub mod Electrs
pub mod Select
pub mod Raw
pub mod Unsigned
pub mod Memo
pub mod Received
pub mod Deposit
pub mod Scanned
