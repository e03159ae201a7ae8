-- ===== src/Server.antt =====
-- internal/server: what becomes of the bytes that one read of a connection returns.
pub mod Stores
pub mod Kv
pub mod Queue
pub mod Stream
pub mod Binary
pub mod Spec
pub mod Batches
pub mod EndToEnd
pub mod Session
pub mod Gap
