-- ===== src/Stream/Topics.antt =====
-- internal/stream/stream.go, stream_helpers.go: topics, publication, and the cache of offsets.
pub mod Defs
pub mod Batch
pub mod Selection
pub mod Offsets
