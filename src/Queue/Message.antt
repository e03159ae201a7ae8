-- ===== src/Queue/Message.antt =====
-- internal/queue/storage.go: `QueueMessage` and `QueueConfig`, and their bytes in the store.
pub mod Types
pub mod Encode
pub mod Decode
pub mod Recovery
