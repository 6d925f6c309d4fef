-- ===== src/Abi.antt =====
-- Package tokens/eth/abicoder: data in the layout of Solidity's ABI, packed and parsed; and the parsing
-- of the logs of tokens/eth.
pub mod Bytes
pub mod Pack
pub mod Parse
pub mod Words
pub mod Layout
pub mod Swapout
pub mod Logs
