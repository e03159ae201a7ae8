-- ===== src/Queue/Calls.antt =====
-- internal/queue/queue.go: what `Queue` adds to the calls of its storage.
pub mod Defs
pub mod Settings
