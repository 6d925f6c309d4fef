-- ===== src/Mongodb.antt =====
-- Package mongodb: the swaps and swap results that the bridge keeps in its database.
pub mod Status
pub mod Documents
pub mod Access
pub mod Swaps
pub mod Results
pub mod Blacklist
pub mod Reswap
pub mod Admin
pub mod Histories
