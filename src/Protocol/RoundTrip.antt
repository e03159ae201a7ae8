-- ===== src/Protocol/RoundTrip.antt =====
-- What the encoders write, the decoders read back.
pub mod Kv
pub mod Batch
pub mod Stream
pub mod Group
pub mod Doc
pub mod Queue
pub mod Response
pub mod PublishBatch
