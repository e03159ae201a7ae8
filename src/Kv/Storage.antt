-- ===== src/Kv/Storage.antt =====
-- internal/kv/storage.go: `Storage`, whose methods return their result with the storage they leave.
mod Defs
mod Batch
mod Scan
unfoldable pub use Defs.*
unfoldable pub use Batch.*
unfoldable pub use Scan.*
