-- ===== src/Protocol/Decode.antt =====
-- internal/net/protocol.go: the decoders, by the family of requests.
pub mod Kv
pub mod Queue
pub mod Stream
pub mod Doc
pub mod Response
pub mod Frame
