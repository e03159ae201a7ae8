-- ===== src/Stream.antt =====
-- internal/stream: topics, their messages, and the groups of consumers.
pub mod Message
pub mod Keys
pub mod Storage
pub mod Topics
pub mod Groups
