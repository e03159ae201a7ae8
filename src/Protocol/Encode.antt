-- ===== src/Protocol/Encode.antt =====
-- internal/net/protocol.go: the encoders, by the family of requests.
pub mod Kv
pub mod Queue
pub mod Stream
pub mod Doc
pub mod Response
