-- ===== src/Stream/Storage.antt =====
-- internal/stream: the storage of messages, offsets and topics.
pub mod Defs
pub mod Messages
pub mod Batch
pub mod Durable
pub mod Appending
unfoldable pub use Defs.*
unfoldable pub use Messages.*
