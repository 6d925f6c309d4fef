-- ===== src/Tests.antt =====
-- The theorems at concrete swaps: a database in memory, two bridges and a clock that stand for what
-- the program runs on.
mod Bench
mod Payments
mod Stores
mod Jobs
mod Scans
mod Deposits
mod Logs
mod Replacements
mod Signatures
