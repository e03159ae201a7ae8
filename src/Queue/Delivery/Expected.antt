-- ===== src/Queue/Delivery/Expected.antt =====
-- What a message is meant to be after each operation, field by field, and when it has expired.
use flin.Prelude.{ℕ, ◌+◌, ◌^◌, ◌<◌, Bool, ◌&&◌, [], ltb}
use flin.Wire.Outcome.{Bytes}
use flin.Queue.Message.Types.{QueueMessage}

-- A message that waits with a value and a number of deliveries, since a time.
abbrev pub fresh : Bytes → Bytes → ℕ → ℕ → QueueMessage
fresh id value deliveries now = record {
  id = id;
  value = value;
  state = 0;
  delivery_count = deliveries;
  consumer_id = [];
  enqueued_at = now;
  in_flight_at = 0;
  visibility_timeout = 0;
  max_retries = 0;
}

-- A message in flight to a consumer, delivered once more.
abbrev pub handed_out : Bytes → ℕ → ℕ → QueueMessage → QueueMessage
handed_out consumer timeout now msg = record {
  id = msg.id;
  value = msg.value;
  state = 1;
  delivery_count = msg.delivery_count + 1;
  consumer_id = consumer;
  enqueued_at = msg.enqueued_at;
  in_flight_at = now;
  visibility_timeout = timeout;
  max_retries = msg.max_retries;
}

-- A message that waits again, with no consumer and no time.
abbrev pub waiting_again : QueueMessage → QueueMessage
waiting_again msg = record {
  id = msg.id;
  value = msg.value;
  state = 0;
  delivery_count = msg.delivery_count;
  consumer_id = [];
  enqueued_at = msg.enqueued_at;
  in_flight_at = 0;
  visibility_timeout = msg.visibility_timeout;
  max_retries = msg.max_retries;
}

-- The timeout is positive as an int64, and the time at which it ends is past.
unfoldable pub is_overdue : ℕ → QueueMessage → Bool
is_overdue now msg =
    ltb 0 msg.visibility_timeout
    && (ltb msg.visibility_timeout (2 ^ 63) && ltb (msg.in_flight_at + msg.visibility_timeout) now)

-- The time at which a positive timeout ends is an int64.
abbrev pub EndsInTime : QueueMessage → Type 0
EndsInTime msg =
    msg.visibility_timeout < 2 ^ 63 → msg.in_flight_at + msg.visibility_timeout < 2 ^ 63
