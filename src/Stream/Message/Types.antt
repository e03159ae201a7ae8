-- ===== src/Stream/Message/Types.antt =====
-- internal/stream/storage.go, stream.go: messages and the metadata of topics. An `int` or an `int64` is its bit
-- pattern.
use flin.Prelude.{ℕ}
use flin.Wire.Outcome.{Bytes}

pub record Message : Type 0 where
  pub topic : Bytes
  pub partition : ℕ
  pub offset : ℕ
  pub key : Bytes
  pub value : Bytes
  pub timestamp : ℕ

pub record TopicMetadata : Type 0 where
  pub name : Bytes
  pub partitions : ℕ
  pub retention_ms : ℕ
  pub retention_bytes : ℕ
  pub created_at : ℕ

-- A message to be published.
pub record PublishMessage : Type 0 where
  pub partition : ℕ
  pub key : Bytes
  pub value : Bytes
