-- ===== src/Queue/Message/Decode.antt =====
-- internal/queue/storage.go: the decoders of messages and of configurations.
use flin.Wire.Outcome.{Bytes, Outcome, Error, message}
use flin.Wire.Reader.{◌>>=◌, ◌>>◌, pure, need, uint, bytes, run}
use flin.Queue.Message.Types.{QueueMessage, QueueConfig}

abbrev pub message_too_short : Error
message_too_short = message "invalid message data: too short"

abbrev pub id_overflow : Error
id_overflow = message "invalid message data: id length overflow"

abbrev pub value_overflow : Error
value_overflow = message "invalid message data: value length overflow"

abbrev pub consumer_overflow : Error
consumer_overflow = message "invalid message data: consumerID length overflow"

unfoldable pub decode_queue_message : Bytes → Outcome QueueMessage
decode_queue_message = run do
  need 39 message_too_short
  id_len ← uint 2
  need id_len id_overflow
  id ← bytes id_len
  value_len ← uint 4
  need value_len value_overflow
  value ← bytes value_len
  state ← uint 1
  delivery_count ← uint 4
  consumer_id_len ← uint 2
  need consumer_id_len consumer_overflow
  consumer_id ← bytes consumer_id_len
  enqueued_at ← uint 8
  in_flight_at ← uint 8
  visibility_timeout ← uint 8
  max_retries ← uint 4
  pure (record {
    id = id;
    value = value;
    state = state;
    delivery_count = delivery_count;
    consumer_id = consumer_id;
    enqueued_at = enqueued_at;
    in_flight_at = in_flight_at;
    visibility_timeout = visibility_timeout;
    max_retries = max_retries;
  })

abbrev pub config_too_short : Error
config_too_short = message "invalid config data: too short"

abbrev pub name_overflow : Error
name_overflow = message "invalid config data: name length overflow"

abbrev pub dlq_overflow : Error
dlq_overflow = message "invalid config data: dlq length overflow"

unfoldable pub decode_queue_config : Bytes → Outcome QueueConfig
decode_queue_config = run do
  need 16 config_too_short
  name_len ← uint 2
  need name_len name_overflow
  name ← bytes name_len
  dlq_len ← uint 2
  need dlq_len dlq_overflow
  dead_letter_queue ← bytes dlq_len
  max_retries ← uint 4
  default_visibility_timeout ← uint 8
  pure (record {
    name = name;
    dead_letter_queue = dead_letter_queue;
    max_retries = max_retries;
    default_visibility_timeout = default_visibility_timeout;
  })
