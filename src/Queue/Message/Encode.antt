-- ===== src/Queue/Message/Encode.antt =====
-- internal/queue/storage.go: the encoders of messages and of configurations.
use flin.Prelude.{◌+◌, length}
use flin.Wire.Outcome.{Bytes, Outcome}
use flin.Wire.Writer.{◌>>◌, put_uint, copy_bytes, make}
use flin.Queue.Message.Types.{QueueMessage, QueueConfig}

unfoldable pub encode_queue_message : QueueMessage → Outcome Bytes
encode_queue_message msg =
    let id_len = length msg.id in
    let value_len = length msg.value in
    let consumer_id_len = length msg.consumer_id in
    make (2 + id_len + 4 + value_len + 1 + 4 + 2 + consumer_id_len + 8 + 8 + 8 + 4) do
      put_uint 2 id_len
      copy_bytes msg.id
      put_uint 4 value_len
      copy_bytes msg.value
      put_uint 1 msg.state
      put_uint 4 msg.delivery_count
      put_uint 2 consumer_id_len
      copy_bytes msg.consumer_id
      put_uint 8 msg.enqueued_at
      put_uint 8 msg.in_flight_at
      put_uint 8 msg.visibility_timeout
      put_uint 4 msg.max_retries

unfoldable pub encode_queue_config : QueueConfig → Outcome Bytes
encode_queue_config cfg =
    let name_len = length cfg.name in
    let dlq_len = length cfg.dead_letter_queue in
    make (2 + name_len + 2 + dlq_len + 4 + 8) do
      put_uint 2 name_len
      copy_bytes cfg.name
      put_uint 2 dlq_len
      copy_bytes cfg.dead_letter_queue
      put_uint 4 cfg.max_retries
      put_uint 8 cfg.default_visibility_timeout
