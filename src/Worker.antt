-- ===== src/Worker.antt =====
-- Package worker: the jobs that verify swaps, pay them out and follow the payments.
pub mod Updates
pub mod Verify
pub mod Cache
pub mod Prevent
pub mod Send
pub mod Channels
pub mod Swap
pub mod Stable
pub mod Replace
pub mod Accept
pub mod Maintenance
