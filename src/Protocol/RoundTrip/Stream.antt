-- ===== src/Protocol/RoundTrip/Stream.antt =====
-- The stream requests on messages, offsets and topics: what the encoders write, the decoder reads back.
use flin.Prelude.{ℕ, ◌^◌, ◌<◌, ◌≡◌, ◌++◌, length, length-append, arith}
use flin.Wire.Outcome.{Bytes, ok}
use flin.Wire.BigEndian.{put_be, length-put_be}
use flin.Wire.Reader.{Reads-need, Reads-last, Reads-uint, uint}
use flin.Protocol.Types.{new_request, op_spublish, op_sconsume, op_scommit, op_screate_topic}
use flin.Protocol.Encode.Stream.{
  encode_spublish_request, encode_sconsume_request, encode_scommit_request,
  encode_screate_topic_request,
}
use flin.Protocol.Decode.Stream.{
  decode_spublish_request, invalid_spublish, decode_sconsume_request, invalid_sconsume,
  decode_scommit_request, invalid_scommit, decode_screate_topic_request, invalid_screate_topic,
}
use flin.Protocol.Frame
use flin.Protocol.RoundTrip.Kv.{writes}

abbrev pub spublish_payload : Bytes → ℕ → Bytes → Bytes → Bytes
spublish_payload topic partition key value =
    put_be 2 (length topic)
    ++ (topic
        ++ (put_be 4 partition
            ++ (put_be 2 (length key) ++ (key ++ (put_be 4 (length value) ++ value)))))

pub encode_spublish-framed :
    (topic : Bytes) (partition : ℕ) (key value : Bytes)
    → encode_spublish_request topic partition key value
      ≡ ok (Frame.framed op_spublish (spublish_payload topic partition key value))
unfolding encode_spublish_request
encode_spublish-framed topic partition key value =
    Frame.make-framed _ _ op_spublish _ (spublish_payload topic partition key value)
      (search writes depth 12) (omega (arith, length-append {0} {A = ℕ}, length-put_be))
      (omega (arith, length-append {0} {A = ℕ}, length-put_be))

pub decode_spublish-payload :
    (topic : Bytes) (partition : ℕ) (key value : Bytes)
    → length topic < 2 ^ 16
    → partition < 2 ^ 32
    → length key < 2 ^ 16
    → length value < 2 ^ 32
    → decode_spublish_request (spublish_payload topic partition key value)
      ≡ ok (record (new_request op_spublish) {
        topic = topic;
        partition = partition;
        key = key;
        value = value;
      })
unfolding decode_spublish_request
decode_spublish-payload topic partition key value h0 h1 h2 h3 = Frame.run-Reads_all _ _ (
    Frame.Reads-need_word 2 (length topic) _ _ _ (
      Frame.Reads-word 2 (length topic) _ (omega arith) (
        Frame.Reads-checked topic invalid_spublish _ (
          Frame.Reads-need_word 4 partition _ _ _ (
            Frame.Reads-word 4 partition _ (omega arith) (
              Frame.Reads-need_word 2 (length key) _ _ _ (
                Frame.Reads-word 2 (length key) _ (omega arith) (
                  Frame.Reads-checked key invalid_spublish _ (
                    Frame.Reads-need_word 4 (length value) _ _ _ (
                      Frame.Reads-word 4 (length value) _ (omega arith)
                        (Frame.Reads-checked_last value invalid_spublish _)))))))))))

abbrev pub sconsume_payload : Bytes → Bytes → Bytes → ℕ → Bytes
sconsume_payload topic group consumer count =
    put_be 2 (length topic)
    ++ (topic
        ++ (put_be 2 (length group)
            ++ (group ++ (put_be 2 (length consumer) ++ (consumer ++ (put_be 4 count))))))

pub encode_sconsume-framed :
    (topic group consumer : Bytes) (count : ℕ)
    → encode_sconsume_request topic group consumer count
      ≡ ok (Frame.framed op_sconsume (sconsume_payload topic group consumer count))
unfolding encode_sconsume_request
encode_sconsume-framed topic group consumer count =
    Frame.make-framed _ _ op_sconsume _ (sconsume_payload topic group consumer count)
      (search writes depth 12) (omega (arith, length-append {0} {A = ℕ}, length-put_be))
      (omega (arith, length-append {0} {A = ℕ}, length-put_be))

pub decode_sconsume-payload :
    (topic group consumer : Bytes) (count : ℕ)
    → length topic < 2 ^ 16
    → length group < 2 ^ 16
    → length consumer < 2 ^ 16
    → count < 2 ^ 32
    → decode_sconsume_request (sconsume_payload topic group consumer count)
      ≡ ok (record (new_request op_sconsume) {
        topic = topic;
        group = group;
        consumer = consumer;
        count = count;
      })
unfolding decode_sconsume_request
decode_sconsume-payload topic group consumer count h0 h1 h2 h3 = Frame.run-Reads_all _ _ (
    Frame.Reads-need_word 2 (length topic) _ _ _ (
      Frame.Reads-word 2 (length topic) _ (omega arith) (
        Frame.Reads-checked topic invalid_sconsume _ (
          Frame.Reads-need_word 2 (length group) _ _ _ (
            Frame.Reads-word 2 (length group) _ (omega arith) (
              Frame.Reads-checked group invalid_sconsume _ (
                Frame.Reads-need_word 2 (length consumer) _ _ _ (
                  Frame.Reads-word 2 (length consumer) _ (omega arith) (
                    Frame.Reads-checked consumer invalid_sconsume _ (
                      Reads-need 4 invalid_sconsume _ (omega (arith, length-put_be 4 count))
                        (Reads-last (uint 4) _ (Reads-uint 4 count (omega arith)))))))))))))

abbrev pub scommit_payload : Bytes → Bytes → ℕ → ℕ → Bytes
scommit_payload topic group partition offset =
    put_be 2 (length topic)
    ++ (topic ++ (put_be 2 (length group) ++ (group ++ (put_be 4 partition ++ (put_be 8 offset)))))

pub encode_scommit-framed :
    (topic group : Bytes) (partition offset : ℕ)
    → encode_scommit_request topic group partition offset
      ≡ ok (Frame.framed op_scommit (scommit_payload topic group partition offset))
unfolding encode_scommit_request
encode_scommit-framed topic group partition offset =
    Frame.make-framed _ _ op_scommit _ (scommit_payload topic group partition offset)
      (search writes depth 12) (omega (arith, length-append {0} {A = ℕ}, length-put_be))
      (omega (arith, length-append {0} {A = ℕ}, length-put_be))

pub decode_scommit-payload :
    (topic group : Bytes) (partition offset : ℕ)
    → length topic < 2 ^ 16
    → length group < 2 ^ 16
    → partition < 2 ^ 32
    → offset < 2 ^ 64
    → decode_scommit_request (scommit_payload topic group partition offset)
      ≡ ok (record (new_request op_scommit) {
        topic = topic;
        group = group;
        partition = partition;
        retention_ms = offset;
      })
unfolding decode_scommit_request
decode_scommit-payload topic group partition offset h0 h1 h2 h3 = Frame.run-Reads_all _ _ (
    Frame.Reads-need_word 2 (length topic) _ _ _ (
      Frame.Reads-word 2 (length topic) _ (omega arith) (
        Frame.Reads-checked topic invalid_scommit _ (
          Frame.Reads-need_word 2 (length group) _ _ _ (
            Frame.Reads-word 2 (length group) _ (omega arith) (
              Frame.Reads-checked group invalid_scommit _ (
                Frame.Reads-need_word 4 partition _ _ _ (
                  Frame.Reads-word 4 partition _ (omega arith) (
                    Reads-need 8 invalid_scommit _ (omega (arith, length-put_be 8 offset))
                      (Reads-last (uint 8) _ (Reads-uint 8 offset (omega arith))))))))))))

abbrev pub screate_topic_payload : Bytes → ℕ → ℕ → Bytes
screate_topic_payload name partitions retention_ms =
    put_be 2 (length name) ++ (name ++ (put_be 4 partitions ++ (put_be 8 retention_ms)))

pub encode_screate_topic-framed :
    (name : Bytes) (partitions retention_ms : ℕ)
    → encode_screate_topic_request name partitions retention_ms
      ≡ ok (Frame.framed op_screate_topic (screate_topic_payload name partitions retention_ms))
unfolding encode_screate_topic_request
encode_screate_topic-framed name partitions retention_ms =
    Frame.make-framed _ _ op_screate_topic _ (screate_topic_payload name partitions retention_ms)
      (search writes depth 12) (omega (arith, length-append {0} {A = ℕ}, length-put_be))
      (omega (arith, length-append {0} {A = ℕ}, length-put_be))

pub decode_screate_topic-payload :
    (name : Bytes) (partitions retention_ms : ℕ)
    → length name < 2 ^ 16
    → partitions < 2 ^ 32
    → retention_ms < 2 ^ 64
    → decode_screate_topic_request (screate_topic_payload name partitions retention_ms)
      ≡ ok (record (new_request op_screate_topic) {
        topic = name;
        partition = partitions;
        retention_ms = retention_ms;
      })
unfolding decode_screate_topic_request
decode_screate_topic-payload name partitions retention_ms h0 h1 h2 = Frame.run-Reads_all _ _ (
    Frame.Reads-need_word 2 (length name) _ _ _ (
      Frame.Reads-word 2 (length name) _ (omega arith) (
        Frame.Reads-checked name invalid_screate_topic _ (
          Frame.Reads-need_word 4 partitions _ _ _ (
            Frame.Reads-word 4 partitions _ (omega arith) (
              Reads-need 8 invalid_screate_topic _ (omega (arith, length-put_be 8 retention_ms))
                (Reads-last (uint 8) _ (Reads-uint 8 retention_ms (omega arith)))))))))
