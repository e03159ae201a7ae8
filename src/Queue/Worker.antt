-- ===== src/Queue/Worker.antt =====
-- internal/queue/worker.go: the worker that puts expired messages back.
pub mod Defs
pub mod Watching
