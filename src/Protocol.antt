-- ===== src/Protocol.antt =====
-- The binary protocol of internal/net/protocol.go.
pub mod Types
pub mod Encode
pub mod Decode
pub mod Frame
pub mod RoundTrip
pub mod Commands
pub mod Safety
