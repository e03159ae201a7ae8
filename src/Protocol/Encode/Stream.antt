-- ===== src/Protocol/Encode/Stream.antt =====
-- internal/net/protocol.go: the encoders of the stream requests. An `int` is its bit pattern, and
-- `uint32(x)` keeps its low 32 bits.
use flin.Prelude.{ℕ, ◌+◌, ◌-◌, List, [], ◌∷◌, length}
use flin.Wire.Outcome.{Bytes, Outcome}
use flin.Wire.Writer.{Writer, ◌>>◌, skip, set_byte, put_uint, copy_bytes, make}
use flin.Protocol.Types.{
  op_spublish, op_sconsume, op_scommit, op_screate_topic, op_ssubscribe, op_sunsubscribe,
  op_spublish_batch, BatchMessage,
}

unfoldable pub encode_spublish_request : Bytes → ℕ → Bytes → Bytes → Outcome Bytes
encode_spublish_request topic partition key value =
    let total_size = 1 + 4 + 2 + length topic + 4 + 2 + length key + 4 + length value in
    make total_size do
      set_byte op_spublish
      put_uint 4 (total_size - 5)
      put_uint 2 (length topic)
      copy_bytes topic
      put_uint 4 partition
      put_uint 2 (length key)
      copy_bytes key
      put_uint 4 (length value)
      copy_bytes value

unfoldable pub encode_sconsume_request : Bytes → Bytes → Bytes → ℕ → Outcome Bytes
encode_sconsume_request topic group consumer count =
    let total_size = 1 + 4 + 2 + length topic + 2 + length group + 2 + length consumer + 4 in
    make total_size do
      set_byte op_sconsume
      put_uint 4 (total_size - 5)
      put_uint 2 (length topic)
      copy_bytes topic
      put_uint 2 (length group)
      copy_bytes group
      put_uint 2 (length consumer)
      copy_bytes consumer
      put_uint 4 count

unfoldable pub encode_scommit_request : Bytes → Bytes → ℕ → ℕ → Outcome Bytes
encode_scommit_request topic group partition offset =
    let total_size = 1 + 4 + 2 + length topic + 2 + length group + 4 + 8 in
    make total_size do
      set_byte op_scommit
      put_uint 4 (total_size - 5)
      put_uint 2 (length topic)
      copy_bytes topic
      put_uint 2 (length group)
      copy_bytes group
      put_uint 4 partition
      put_uint 8 offset

unfoldable pub encode_screate_topic_request : Bytes → ℕ → ℕ → Outcome Bytes
encode_screate_topic_request name partitions retention_ms =
    let total_size = 1 + 4 + 2 + length name + 4 + 8 in
    make total_size do
      set_byte op_screate_topic
      put_uint 4 (total_size - 5)
      put_uint 2 (length name)
      copy_bytes name
      put_uint 4 partitions
      put_uint 8 retention_ms

unfoldable pub encode_ssubscribe_request : Bytes → Bytes → Bytes → Outcome Bytes
encode_ssubscribe_request topic group consumer =
    let total_size = 1 + 4 + 2 + length topic + 2 + length group + 2 + length consumer in
    make total_size do
      set_byte op_ssubscribe
      put_uint 4 (total_size - 5)
      put_uint 2 (length topic)
      copy_bytes topic
      put_uint 2 (length group)
      copy_bytes group
      put_uint 2 (length consumer)
      copy_bytes consumer

unfoldable pub encode_sunsubscribe_request : Bytes → Bytes → Bytes → Outcome Bytes
encode_sunsubscribe_request topic group consumer =
    let total_size = 1 + 4 + 2 + length topic + 2 + length group + 2 + length consumer in
    make total_size do
      set_byte op_sunsubscribe
      put_uint 4 (total_size - 5)
      put_uint 2 (length topic)
      copy_bytes topic
      put_uint 2 (length group)
      copy_bytes group
      put_uint 2 (length consumer)
      copy_bytes consumer

-- `for _, msg := range messages { size += 4 + 2 + len(msg.Key) + 4 + len(msg.Value) }`
unfoldable pub add_message_sizes : ℕ → List BatchMessage → ℕ
add_message_sizes size [] = size
add_message_sizes size (msg ∷ messages) =
    add_message_sizes (size + (4 + 2 + length msg.key + 4 + length msg.value)) messages

unfoldable pub put_messages : List BatchMessage → Writer
put_messages [] = skip
put_messages (msg ∷ messages) = do
  put_uint 4 msg.partition
  put_uint 2 (length msg.key)
  copy_bytes msg.key
  put_uint 4 (length msg.value)
  copy_bytes msg.value
  put_messages messages

-- No payload length is written here, as it is by the other encoders.
unfoldable pub encode_spublish_batch_request : Bytes → List BatchMessage → Outcome Bytes
unfolding add_message_sizes put_messages
encode_spublish_batch_request topic messages =
    make (add_message_sizes (1 + 2 + length topic + 4) messages) do
      set_byte op_spublish_batch
      put_uint 2 (length topic)
      copy_bytes topic
      put_uint 4 (length messages)
      put_messages messages
