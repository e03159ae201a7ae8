-- ===== src/Protocol/Decode/Stream.antt =====
-- internal/net/protocol.go: the decoders of the stream requests.
use flin.Prelude.{ℕ, zero, suc, List, [], ◌∷◌, ◌++◌, ltb, if◌then◌else◌}
use flin.Wire.Outcome.{Bytes, Outcome, Error, message, message_around}
use flin.Wire.Reader.{Reader, ◌>>=◌, ◌>>◌, pure, fail, need, uint, bytes, run}
use flin.Protocol.Types.{
  Request, BatchMessage, new_request, max_batch_size, op_spublish, op_sconsume, op_scommit,
  op_screate_topic, op_ssubscribe, op_sunsubscribe, op_spublish_batch,
}

abbrev pub invalid_spublish : Error
invalid_spublish = message "invalid SPUBLISH payload"

unfoldable pub decode_spublish_request : Bytes → Outcome Request
decode_spublish_request = run do
  need 2 invalid_spublish
  topic_len ← uint 2
  need topic_len invalid_spublish
  topic ← bytes topic_len
  need 4 invalid_spublish
  partition ← uint 4
  need 2 invalid_spublish
  key_len ← uint 2
  need key_len invalid_spublish
  key ← bytes key_len
  need 4 invalid_spublish
  value_len ← uint 4
  need value_len invalid_spublish
  value ← bytes value_len
  pure (record (new_request op_spublish) {
    topic = topic;
    partition = partition;
    key = key;
    value = value;
  })

abbrev pub invalid_sconsume : Error
invalid_sconsume = message "invalid SCONSUME payload"

unfoldable pub decode_sconsume_request : Bytes → Outcome Request
decode_sconsume_request = run do
  need 2 invalid_sconsume
  topic_len ← uint 2
  need topic_len invalid_sconsume
  topic ← bytes topic_len
  need 2 invalid_sconsume
  group_len ← uint 2
  need group_len invalid_sconsume
  group ← bytes group_len
  need 2 invalid_sconsume
  consumer_len ← uint 2
  need consumer_len invalid_sconsume
  consumer ← bytes consumer_len
  need 4 invalid_sconsume
  count ← uint 4
  pure (record (new_request op_sconsume) {
    topic = topic;
    group = group;
    consumer = consumer;
    count = count;
  })

-- The offset stands in the field `retention_ms`.
abbrev pub invalid_scommit : Error
invalid_scommit = message "invalid SCOMMIT payload"

unfoldable pub decode_scommit_request : Bytes → Outcome Request
decode_scommit_request = run do
  need 2 invalid_scommit
  topic_len ← uint 2
  need topic_len invalid_scommit
  topic ← bytes topic_len
  need 2 invalid_scommit
  group_len ← uint 2
  need group_len invalid_scommit
  group ← bytes group_len
  need 4 invalid_scommit
  partition ← uint 4
  need 8 invalid_scommit
  offset ← uint 8
  pure (record (new_request op_scommit) {
    topic = topic;
    group = group;
    partition = partition;
    retention_ms = offset;
  })

abbrev pub invalid_screate_topic : Error
invalid_screate_topic = message "invalid SCREATETOPIC payload"

unfoldable pub decode_screate_topic_request : Bytes → Outcome Request
decode_screate_topic_request = run do
  need 2 invalid_screate_topic
  name_len ← uint 2
  need name_len invalid_screate_topic
  name ← bytes name_len
  need 4 invalid_screate_topic
  partitions ← uint 4
  need 8 invalid_screate_topic
  retention_ms ← uint 8
  pure (record (new_request op_screate_topic) {
    topic = name;
    partition = partitions;
    retention_ms = retention_ms;
  })

abbrev pub invalid_ssubscribe : Error
invalid_ssubscribe = message "invalid SSUBSCRIBE payload"

unfoldable pub decode_ssubscribe_request : Bytes → Outcome Request
decode_ssubscribe_request = run do
  need 2 invalid_ssubscribe
  topic_len ← uint 2
  need topic_len invalid_ssubscribe
  topic ← bytes topic_len
  need 2 invalid_ssubscribe
  group_len ← uint 2
  need group_len invalid_ssubscribe
  group ← bytes group_len
  need 2 invalid_ssubscribe
  consumer_len ← uint 2
  need consumer_len invalid_ssubscribe
  consumer ← bytes consumer_len
  pure (record (new_request op_ssubscribe) { topic = topic; group = group; consumer = consumer })

abbrev pub invalid_sunsubscribe : Error
invalid_sunsubscribe = message "invalid SUNSUBSCRIBE payload"

unfoldable pub decode_sunsubscribe_request : Bytes → Outcome Request
decode_sunsubscribe_request = run do
  need 2 invalid_sunsubscribe
  topic_len ← uint 2
  need topic_len invalid_sunsubscribe
  topic ← bytes topic_len
  need 2 invalid_sunsubscribe
  group_len ← uint 2
  need group_len invalid_sunsubscribe
  group ← bytes group_len
  need 2 invalid_sunsubscribe
  consumer_len ← uint 2
  need consumer_len invalid_sunsubscribe
  consumer ← bytes consumer_len
  pure (record (new_request op_sunsubscribe) { topic = topic; group = group; consumer = consumer })

abbrev pub invalid_spublish_batch : Error
invalid_spublish_batch = message "invalid SPUBLISHBATCH payload"

-- The loop of `decodeSPublishBatchRequest`, with the rounds left and the messages so far.
unfoldable pub read_messages : ℕ → List BatchMessage → Reader (List BatchMessage)
read_messages zero messages = pure messages
read_messages (suc rounds) messages = do
  need 4 invalid_spublish_batch
  partition ← uint 4
  need 2 invalid_spublish_batch
  key_len ← uint 2
  need key_len invalid_spublish_batch
  key ← bytes key_len
  need 4 invalid_spublish_batch
  val_len ← uint 4
  need val_len invalid_spublish_batch
  value ← bytes val_len
  read_messages rounds (messages ++ record { partition = partition; key = key; value = value } ∷ [])

unfoldable pub read_batch : ℕ → Reader (List BatchMessage)
read_batch count =
    if ltb max_batch_size count
    then fail (message_around "batch size " count " exceeds maximum 10000")
    else read_messages count []

unfoldable pub decode_spublish_batch_request : Bytes → Outcome Request
unfolding read_batch
decode_spublish_batch_request = run do
  need 2 invalid_spublish_batch
  topic_len ← uint 2
  need topic_len invalid_spublish_batch
  topic ← bytes topic_len
  need 4 invalid_spublish_batch
  count ← uint 4
  messages ← read_batch count
  pure (record (new_request op_spublish_batch) { topic = topic; batch_messages = messages })
