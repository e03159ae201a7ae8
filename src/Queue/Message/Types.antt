-- ===== src/Queue/Message/Types.antt =====
-- internal/queue/storage.go: messages and the configuration of a queue. An `int` or an `int64` is its
-- bit pattern.
use flin.Prelude.{ℕ}
use flin.Wire.Outcome.{Bytes}

abbrev pub state_pending : ℕ
state_pending = 0

abbrev pub state_in_flight : ℕ
state_in_flight = 1

pub record QueueMessage : Type 0 where
  pub id : Bytes
  pub value : Bytes
  pub state : ℕ
  pub delivery_count : ℕ
  pub consumer_id : Bytes
  pub enqueued_at : ℕ
  pub in_flight_at : ℕ
  pub visibility_timeout : ℕ
  pub max_retries : ℕ

pub record QueueConfig : Type 0 where
  pub name : Bytes
  pub dead_letter_queue : Bytes
  pub max_retries : ℕ
  pub default_visibility_timeout : ℕ
