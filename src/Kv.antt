-- ===== src/Kv.antt =====
-- internal/kv: the key-value store over a Badger database.
pub mod Storage
pub mod View
pub mod Calls
pub mod Chunks
pub mod Pairs
pub mod Refinement
pub mod Trace
