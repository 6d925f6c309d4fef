-- ===== src/Scan.antt =====
-- The scanning of a chain for deposits: tokens/tools and the history jobs of tokens/btc.
pub mod Cached
pub mod Register
pub mod History
