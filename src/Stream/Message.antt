-- ===== src/Stream/Message.antt =====
-- internal/stream/storage.go: the records that are stored, and their bytes.
pub mod Types
pub mod Encode
pub mod Decode
pub mod Recovery
pub mod Safety
