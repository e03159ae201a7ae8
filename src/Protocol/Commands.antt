-- ===== src/Protocol/Commands.antt =====
-- The requests as data, and the round trip from encoder to decoder for each family.
pub mod Kv
pub mod Queue
pub mod Stream
pub mod Doc
