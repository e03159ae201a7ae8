-- ===== src/Wire/Reader.antt =====
-- The decoders' idiom: a payload, and the variable `pos` that walks it.
mod Defs
mod Reading
mod Safety
unfoldable pub use Defs.{Reader, pure, ◌>>=◌, ◌>>◌, fail, need, uint, bytes, run, slice}
pub use Reading.*
pub use Safety.*
