-- ===== src/Kv/Refinement.antt =====
-- The storage answers as a map from keys to values does.
pub mod Single
pub mod Batches
