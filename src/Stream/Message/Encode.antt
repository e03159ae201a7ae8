-- ===== src/Stream/Message/Encode.antt =====
-- internal/stream/storage.go: `encodeMessage` and `encodeTopicMetadata`.
use flin.Prelude.{◌+◌, length}
use flin.Wire.Outcome.{Bytes, Outcome}
use flin.Wire.Writer.{◌>>◌, put_uint, copy_bytes, make}
use flin.Stream.Message.Types.{Message, TopicMetadata}

unfoldable pub encode_message : Message → Outcome Bytes
encode_message msg =
    let key_len = length msg.key in
    let value_len = length msg.value in
    make (8 + 8 + 2 + key_len + 4 + value_len) do
      put_uint 8 msg.offset
      put_uint 8 msg.timestamp
      put_uint 2 key_len
      copy_bytes msg.key
      put_uint 4 value_len
      copy_bytes msg.value

unfoldable pub encode_topic_metadata : TopicMetadata → Outcome Bytes
encode_topic_metadata meta =
    let name_len = length meta.name in
    make (2 + name_len + 4 + 8 + 8 + 8) do
      put_uint 2 name_len
      copy_bytes meta.name
      put_uint 4 meta.partitions
      put_uint 8 meta.retention_ms
      put_uint 8 meta.retention_bytes
      put_uint 8 meta.created_at
