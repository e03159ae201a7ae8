-- ===== src/Stream/Message/Recovery.antt =====
-- What is stored of a message and of a topic is read back.
use flin.Prelude.{ℕ, ◌+◌, ◌^◌, ◌<◌, ◌≡◌, [], ◌++◌, length, length-append, arith}
use flin.Wire.Outcome.{Bytes, ok, then_do}
use flin.Wire.BigEndian.{put_be, length-put_be}
use flin.Wire.Reader.{Reads-need, Reads-last, Reads-uint, uint}
use flin.Wire.Writer.{make-Writes}
use flin.Protocol.Frame
use flin.Protocol.RoundTrip.Kv.{writes}
use flin.Stream.Message.Types.{Message, TopicMetadata}
use flin.Stream.Message.Encode.{encode_message, encode_topic_metadata}
use flin.Stream.Message.Decode.{
  decode_message, invalid_message, decode_topic_metadata, invalid_topic_metadata,
}

-- The fields that are stored fit their widths.
pub record FitsMessage (msg : Message) : Type 0 where
  pub offset_fits : msg.offset < 2 ^ 64
  pub timestamp_fits : msg.timestamp < 2 ^ 64
  pub key_fits : length msg.key < 2 ^ 16
  pub value_fits : length msg.value < 2 ^ 32

pub message_bytes : Message → Bytes
message_bytes msg =
    put_be 8 msg.offset
    ++ (put_be 8 msg.timestamp
        ++ (put_be 2 (length msg.key) ++ (msg.key ++ (put_be 4 (length msg.value) ++ msg.value))))

pub encode_message_lem : (msg : Message) → encode_message msg ≡ ok (message_bytes msg)
unfolding encode_message message_bytes
encode_message_lem msg =
    make-Writes _ _ _ (search writes depth 12)
      (omega (arith, length-append {0} {A = ℕ}, length-put_be))

-- A message whose fields fit is read back from what encodeMessage stores, without its topic and
-- its partition.
pub decode-encode_message :
    (msg : Message)
    → FitsMessage msg
    → then_do (encode_message msg) decode_message ≡ ok (record msg { topic = []; partition = 0 })
unfolding decode_message message_bytes
decode-encode_message msg fits = rw (encode_message_lem msg) (
    Frame.run-Reads_all _ _ (
      Reads-need 18 invalid_message _ (omega (arith, length-append {0} {A = ℕ}, length-put_be)) (
        Frame.Reads-word 8 msg.offset _ (omega (arith, fits.offset_fits)) (
          Frame.Reads-word 8 msg.timestamp _ (omega (arith, fits.timestamp_fits)) (
            Frame.Reads-word 2 (length msg.key) _ (omega (arith, fits.key_fits)) (
              Reads-need (length msg.key + 4) invalid_message _
                (omega (arith, length-append {0} {A = ℕ}, length-put_be))
                (Frame.Reads-chunk msg.key _ (
                  Frame.Reads-word 4 (length msg.value) _ (omega (arith, fits.value_fits))
                    (Frame.Reads-checked_last msg.value invalid_message _)))))))))

pub record FitsTopic (meta : TopicMetadata) : Type 0 where
  pub name_fits : length meta.name < 2 ^ 16
  pub partitions_fit : meta.partitions < 2 ^ 32
  pub retention_fits : meta.retention_ms < 2 ^ 64
  pub size_fits : meta.retention_bytes < 2 ^ 64
  pub created_fits : meta.created_at < 2 ^ 64

pub topic_bytes : TopicMetadata → Bytes
topic_bytes meta =
    put_be 2 (length meta.name)
    ++ (meta.name
        ++ (put_be 4 meta.partitions
            ++ (put_be 8 meta.retention_ms
                ++ (put_be 8 meta.retention_bytes ++ put_be 8 meta.created_at))))

pub encode_topic_metadata_lem :
    (meta : TopicMetadata) → encode_topic_metadata meta ≡ ok (topic_bytes meta)
unfolding encode_topic_metadata topic_bytes
encode_topic_metadata_lem meta =
    make-Writes _ _ _ (search writes depth 12)
      (omega (arith, length-append {0} {A = ℕ}, length-put_be))

-- The metadata of a topic whose fields fit is read back from what encodeTopicMetadata stores.
pub decode-encode_topic_metadata :
    (meta : TopicMetadata)
    → FitsTopic meta
    → then_do (encode_topic_metadata meta) decode_topic_metadata ≡ ok meta
unfolding decode_topic_metadata topic_bytes
decode-encode_topic_metadata meta fits = rw (encode_topic_metadata_lem meta) (
    Frame.run-Reads_all _ _ (
      Reads-need 30 invalid_topic_metadata _
        (omega (arith, length-append {0} {A = ℕ}, length-put_be))
        (Frame.Reads-word 2 (length meta.name) _ (omega (arith, fits.name_fits)) (
          Reads-need (length meta.name + 28) invalid_topic_metadata _
            (omega (arith, length-append {0} {A = ℕ}, length-put_be))
            (Frame.Reads-chunk meta.name _ (
              Frame.Reads-word 4 meta.partitions _ (omega (arith, fits.partitions_fit)) (
                Frame.Reads-word 8 meta.retention_ms _ (omega (arith, fits.retention_fits)) (
                  Frame.Reads-word 8 meta.retention_bytes _ (omega (arith, fits.size_fits)) (
                    Reads-last (uint 8) _
                      (Reads-uint 8 meta.created_at (omega (arith, fits.created_fits))))))))))))
