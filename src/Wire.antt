-- ===== src/Wire.antt =====
-- What Go code on byte slices does: results that may be errors or panics, big-endian words,
-- and cursors that read and write a buffer.
pub mod Outcome
pub mod BigEndian
pub mod Text
pub mod Signed
pub mod Reader
pub mod Writer
pub mod Table
