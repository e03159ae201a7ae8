-- ===== src/Queue/Calls/Defs.antt =====
-- internal/queue/queue.go: the handles of messages and the settings of queues. `Pop`, `PushMessage`,
-- `RequeueExpiredMessages`, `Peek`, `Len` and `Clear` pass their calls on.
use flin.Prelude.{ℕ, ◌-◌, ◌/◌, ◌%◌, ◌^◌, if◌then◌else◌}
use flin.Wire.Outcome.{Bytes, Outcome, ok, err, panic, then_do}
use flin.Wire.Signed.{signed_lt}
use flin.Badger.{Badger, Iterator}
use flin.Queue.Message.Types.{QueueMessage, QueueConfig}
use flin.Queue.Delivery.Defs.{push_message, ack_message, get_queue_config, set_queue_config}
use flin.Queue.Delivery.Receive.{pop_message}

pub record MessageHandle : Type 0 where
  pub queue_name : Bytes
  pub message_id : Bytes
  pub value : Bytes
  pub delivery_count : ℕ

abbrev pub handle_of : Bytes → QueueMessage → MessageHandle
handle_of queue_name msg = record {
  queue_name = queue_name;
  message_id = msg.id;
  value = msg.value;
  delivery_count = msg.delivery_count;
}

-- `d.Milliseconds()`, rounded towards 0.
unfoldable pub milliseconds : ℕ → ℕ
milliseconds d = if signed_lt d 0 then (2 ^ 64 - (2 ^ 64 - d) / 1000000) % 2 ^ 64 else d / 1000000

module _ (b : Badger) where
  -- `Queue.Push`
  unfoldable pub push_value : Bytes → Bytes → Bytes → ℕ → b.Txn → Outcome (Unit {0}) × b.Txn
  push_value queue_name value message_id now db =
      (push_message b queue_name value message_id now db).1

  -- `Queue.PopMessage`; the storage's PopMessage converts the timeout.
  unfoldable pub take_handle :
      Iterator b → Bytes → Bytes → ℕ → ℕ → b.Txn → Outcome MessageHandle × b.Txn
  take_handle it queue_name consumer_id visibility_timeout now db =
      let r = pop_message b it queue_name consumer_id (milliseconds visibility_timeout) now db in
      (then_do r.0 (λ msg. ok (handle_of queue_name msg)), r.1)

  -- `MessageHandle.Ack`
  unfoldable pub ack_handle : MessageHandle → b.Txn → Outcome (Unit {0}) × b.Txn
  ack_handle m db = ack_message b m.queue_name m.message_id db

  -- The configuration that was read, changed and stored.
  abbrev pub store_changed :
      Outcome QueueConfig → (QueueConfig → QueueConfig) → b.Txn → Outcome (Unit {0}) × b.Txn
  store_changed (ok cfg) change db = set_queue_config b (change cfg) db
  store_changed (err e) change db = (err e, db)
  store_changed panic change db = (panic, db)

  unfoldable pub set_dead_letter_queue : Bytes → Bytes → ℕ → b.Txn → Outcome (Unit {0}) × b.Txn
  set_dead_letter_queue queue_name dlq_name max_retries db =
      store_changed (get_queue_config b queue_name db)
        (λ cfg. record cfg { dead_letter_queue = dlq_name; max_retries = max_retries }) db

  unfoldable pub set_visibility_timeout : Bytes → ℕ → b.Txn → Outcome (Unit {0}) × b.Txn
  set_visibility_timeout queue_name timeout db =
      store_changed (get_queue_config b queue_name db)
        (λ cfg. record cfg { default_visibility_timeout = milliseconds timeout }) db
