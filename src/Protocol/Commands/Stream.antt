-- ===== src/Protocol/Commands/Stream.antt =====
-- The stream commands, but for the batch publication.
use flin.Prelude.{ℕ, ◌^◌, ◌<◌, ◌≡◌, ◌++◌, length}
use flin.Wire.Outcome.{Bytes, Outcome, ok, then_do}
use flin.Protocol.Types.{
  Request, new_request, op_spublish, op_sconsume, op_scommit, op_screate_topic, op_ssubscribe,
  op_sunsubscribe,
}
use flin.Protocol.Frame.{FitsFrame, through_frame}
use flin.Protocol.Decode.Frame.{decode_payload, decode_request}
use flin.Protocol.Encode.Stream.{
  encode_spublish_request, encode_sconsume_request, encode_scommit_request,
  encode_screate_topic_request, encode_ssubscribe_request, encode_sunsubscribe_request,
}
use flin.Protocol.RoundTrip.Stream.{
  encode_spublish-framed, decode_spublish-payload, encode_sconsume-framed, decode_sconsume-payload,
  encode_scommit-framed, decode_scommit-payload, encode_screate_topic-framed,
  decode_screate_topic-payload, spublish_payload, sconsume_payload, scommit_payload,
  screate_topic_payload,
}
use flin.Protocol.RoundTrip.Group.{
  encode_ssubscribe-framed, decode_ssubscribe-payload, encode_sunsubscribe-framed,
  decode_sunsubscribe-payload, member_payload,
}

pub data StreamCommand : Type 0 where
  publish : Bytes → ℕ → Bytes → Bytes → StreamCommand
  consume : Bytes → Bytes → Bytes → ℕ → StreamCommand
  commit : Bytes → Bytes → ℕ → ℕ → StreamCommand
  create_topic : Bytes → ℕ → ℕ → StreamCommand
  subscribe : Bytes → Bytes → Bytes → StreamCommand
  unsubscribe : Bytes → Bytes → Bytes → StreamCommand

-- The client calls the encoder of the operation.
unfoldable pub encode_stream : StreamCommand → Outcome Bytes
encode_stream (publish topic partition key value) =
    encode_spublish_request topic partition key value
encode_stream (consume topic group consumer count) =
    encode_sconsume_request topic group consumer count
encode_stream (commit topic group partition offset) =
    encode_scommit_request topic group partition offset
encode_stream (create_topic name partitions retention_ms) =
    encode_screate_topic_request name partitions retention_ms
encode_stream (subscribe topic group consumer) = encode_ssubscribe_request topic group consumer
encode_stream (unsubscribe topic group consumer) = encode_sunsubscribe_request topic group consumer

-- The request that the server is meant to see.
abbrev pub stream_request : StreamCommand → Request
stream_request (publish topic partition key value) = record (new_request op_spublish) {
  topic = topic;
  partition = partition;
  key = key;
  value = value;
}
stream_request (consume topic group consumer count) = record (new_request op_sconsume) {
  topic = topic;
  group = group;
  consumer = consumer;
  count = count;
}
stream_request (commit topic group partition offset) = record (new_request op_scommit) {
  topic = topic;
  group = group;
  partition = partition;
  retention_ms = offset;
}
stream_request (create_topic name partitions retention_ms) = record (new_request op_screate_topic) {
  topic = name;
  partition = partitions;
  retention_ms = retention_ms;
}
stream_request (subscribe topic group consumer) = record (new_request op_ssubscribe) {
  topic = topic;
  group = group;
  consumer = consumer;
}
stream_request (unsubscribe topic group consumer) = record (new_request op_sunsubscribe) {
  topic = topic;
  group = group;
  consumer = consumer;
}

abbrev pub stream_payload : StreamCommand → Bytes
stream_payload (publish topic partition key value) = spublish_payload topic partition key value
stream_payload (consume topic group consumer count) = sconsume_payload topic group consumer count
stream_payload (commit topic group partition offset) = scommit_payload topic group partition offset
stream_payload (create_topic name partitions retention_ms) =
    screate_topic_payload name partitions retention_ms
stream_payload (subscribe topic group consumer) = member_payload topic group consumer
stream_payload (unsubscribe topic group consumer) = member_payload topic group consumer

-- Each field fits the width of its length or its number.
abbrev pub StreamFieldsFit : StreamCommand → Type 0
StreamFieldsFit (publish topic partition key value) =
    (length topic < 2 ^ 16) × (partition < 2 ^ 32) × (length key < 2 ^ 16) × (length value < 2 ^ 32)
StreamFieldsFit (consume topic group consumer count) =
    (length topic < 2 ^ 16)
    × (length group < 2 ^ 16)
    × (length consumer < 2 ^ 16)
    × (count < 2 ^ 32)
StreamFieldsFit (commit topic group partition offset) =
    (length topic < 2 ^ 16) × (length group < 2 ^ 16) × (partition < 2 ^ 32) × (offset < 2 ^ 64)
StreamFieldsFit (create_topic name partitions retention_ms) =
    (length name < 2 ^ 16) × (partitions < 2 ^ 32) × (retention_ms < 2 ^ 64)
StreamFieldsFit (subscribe topic group consumer) =
    (length topic < 2 ^ 16) × (length group < 2 ^ 16) × (length consumer < 2 ^ 16)
StreamFieldsFit (unsubscribe topic group consumer) =
    (length topic < 2 ^ 16) × (length group < 2 ^ 16) × (length consumer < 2 ^ 16)

abbrev pub StreamFits : StreamCommand → Type 0
StreamFits c = FitsFrame (stream_payload c) × StreamFieldsFit c

-- Whatever command is sent and whatever bytes follow it, the server decodes the request that was
-- encoded, if the fields and the payload fit their widths.
pub decode-encode_stream :
    (c : StreamCommand) (rest : Bytes)
    → StreamFits c
    → then_do (encode_stream c) (λ frame. decode_request (frame ++ rest)) ≡ ok (stream_request c)
unfolding encode_stream decode_payload
decode-encode_stream (publish topic partition key value) rest (h, f) =
    through_frame op_spublish (spublish_payload topic partition key value) rest
      (encode_spublish-framed topic partition key value) h
      (decode_spublish-payload topic partition key value f.0 f.1 f.2 f.3)
decode-encode_stream (consume topic group consumer count) rest (h, f) =
    through_frame op_sconsume (sconsume_payload topic group consumer count) rest
      (encode_sconsume-framed topic group consumer count) h
      (decode_sconsume-payload topic group consumer count f.0 f.1 f.2 f.3)
decode-encode_stream (commit topic group partition offset) rest (h, f) =
    through_frame op_scommit (scommit_payload topic group partition offset) rest
      (encode_scommit-framed topic group partition offset) h
      (decode_scommit-payload topic group partition offset f.0 f.1 f.2 f.3)
decode-encode_stream (create_topic name partitions retention_ms) rest (h, f) =
    through_frame op_screate_topic (screate_topic_payload name partitions retention_ms) rest
      (encode_screate_topic-framed name partitions retention_ms) h
      (decode_screate_topic-payload name partitions retention_ms f.0 f.1 f.2)
decode-encode_stream (subscribe topic group consumer) rest (h, f) =
    through_frame op_ssubscribe (member_payload topic group consumer) rest
      (encode_ssubscribe-framed topic group consumer) h
      (decode_ssubscribe-payload topic group consumer f.0 f.1 f.2)
decode-encode_stream (unsubscribe topic group consumer) rest (h, f) =
    through_frame op_sunsubscribe (member_payload topic group consumer) rest
      (encode_sunsubscribe-framed topic group consumer) h
      (decode_sunsubscribe-payload topic group consumer f.0 f.1 f.2)
