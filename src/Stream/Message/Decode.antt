-- ===== src/Stream/Message/Decode.antt =====
-- internal/stream/storage.go: `decodeMessage` and `decodeTopicMetadata`. A message is read without its
-- topic and partition, which the key holds.
use flin.Prelude.{◌+◌, []}
use flin.Wire.Outcome.{Bytes, Outcome, Error, message}
use flin.Wire.Reader.{◌>>=◌, ◌>>◌, pure, need, uint, bytes, run}
use flin.Stream.Message.Types.{Message, TopicMetadata}

abbrev pub invalid_message : Error
invalid_message = message "invalid message data"

unfoldable pub decode_message : Bytes → Outcome Message
decode_message = run do
  need 18 invalid_message
  offset ← uint 8
  timestamp ← uint 8
  key_len ← uint 2
  need (key_len + 4) invalid_message
  key ← bytes key_len
  value_len ← uint 4
  need value_len invalid_message
  value ← bytes value_len
  pure (record {
    topic = [];
    partition = 0;
    offset = offset;
    key = key;
    value = value;
    timestamp = timestamp;
  })

abbrev pub invalid_topic_metadata : Error
invalid_topic_metadata = message "invalid topic metadata"

unfoldable pub decode_topic_metadata : Bytes → Outcome TopicMetadata
decode_topic_metadata = run do
  need 30 invalid_topic_metadata
  name_len ← uint 2
  need (name_len + 28) invalid_topic_metadata
  name ← bytes name_len
  partitions ← uint 4
  retention_ms ← uint 8
  retention_bytes ← uint 8
  created_at ← uint 8
  pure (record {
    name = name;
    partitions = partitions;
    retention_ms = retention_ms;
    retention_bytes = retention_bytes;
    created_at = created_at;
  })
