-- ===== src/Protocol/Safety.antt =====
-- On which bytes the decoders panic.
pub mod Kv
pub mod Stream
pub mod Doc
pub mod Payload
pub mod Panics
