-- ===== src/Wire/Writer.antt =====
-- The encoders' idiom: a buffer of a computed size, and the variable `pos` that walks it.
mod Defs
mod Writing
unfoldable pub use Defs.{Writer, ◌>>◌, skip, crash, set_byte, put_uint, copy_bytes, make}
pub use Writing.*
