-- ===== src/Cache.antt =====
-- cache/src: the drivers, the keyspace and the strategies.
pub mod Outcome
pub mod Driver
pub mod Memory
pub mod Keyspace
pub mod Policy
pub mod Document
pub mod Sets
pub mod Batch
pub mod Strategy
pub mod Indexed
pub mod Retry
pub mod Volatile
pub mod Aside
pub mod Flight
pub mod Refresher
