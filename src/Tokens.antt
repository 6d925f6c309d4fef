-- ===== src/Tokens.antt =====
-- Package tokens: what the two ends of the bridge share.
pub mod Errors
pub mod Types
pub mod SwapValue
