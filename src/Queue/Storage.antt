-- ===== src/Queue/Storage.antt =====
-- internal/queue/storage.go: the queue by position, with its head and tail under the metadata key.
mod Defs
pub mod Contents
pub mod Fifo
pub mod Clear
pub mod Trace
unfoldable pub use Defs.*
