-- ===== src/Protocol/RoundTrip/Group.antt =====
-- The stream requests of group members: what the encoders write, the decoder reads back.
use flin.Prelude.{ℕ, ◌^◌, ◌<◌, ◌≡◌, ◌++◌, length, length-append, arith}
use flin.Wire.Outcome.{Bytes, ok}
use flin.Wire.BigEndian.{put_be, length-put_be}
use flin.Protocol.Types.{new_request, op_ssubscribe, op_sunsubscribe}
use flin.Protocol.Encode.Stream.{encode_ssubscribe_request, encode_sunsubscribe_request}
use flin.Protocol.Decode.Stream.{
  decode_ssubscribe_request, invalid_ssubscribe, decode_sunsubscribe_request, invalid_sunsubscribe,
}
use flin.Protocol.Frame
use flin.Protocol.RoundTrip.Kv.{writes}

abbrev pub member_payload : Bytes → Bytes → Bytes → Bytes
member_payload topic group consumer =
    put_be 2 (length topic)
    ++ (topic ++ (put_be 2 (length group) ++ (group ++ (put_be 2 (length consumer) ++ consumer))))

pub encode_ssubscribe-framed :
    (topic group consumer : Bytes)
    → encode_ssubscribe_request topic group consumer
      ≡ ok (Frame.framed op_ssubscribe (member_payload topic group consumer))
unfolding encode_ssubscribe_request
encode_ssubscribe-framed topic group consumer =
    Frame.make-framed _ _ op_ssubscribe _ (member_payload topic group consumer)
      (search writes depth 12) (omega (arith, length-append {0} {A = ℕ}, length-put_be))
      (omega (arith, length-append {0} {A = ℕ}, length-put_be))

pub decode_ssubscribe-payload :
    (topic group consumer : Bytes)
    → length topic < 2 ^ 16
    → length group < 2 ^ 16
    → length consumer < 2 ^ 16
    → decode_ssubscribe_request (member_payload topic group consumer)
      ≡ ok
          (record (new_request op_ssubscribe) { topic = topic; group = group; consumer = consumer })
unfolding decode_ssubscribe_request
decode_ssubscribe-payload topic group consumer h0 h1 h2 = Frame.run-Reads_all _ _ (
    Frame.Reads-need_word 2 (length topic) _ _ _ (
      Frame.Reads-word 2 (length topic) _ (omega arith) (
        Frame.Reads-checked topic invalid_ssubscribe _ (
          Frame.Reads-need_word 2 (length group) _ _ _ (
            Frame.Reads-word 2 (length group) _ (omega arith) (
              Frame.Reads-checked group invalid_ssubscribe _ (
                Frame.Reads-need_word 2 (length consumer) _ _ _ (
                  Frame.Reads-word 2 (length consumer) _ (omega arith)
                    (Frame.Reads-checked_last consumer invalid_ssubscribe _)))))))))

pub encode_sunsubscribe-framed :
    (topic group consumer : Bytes)
    → encode_sunsubscribe_request topic group consumer
      ≡ ok (Frame.framed op_sunsubscribe (member_payload topic group consumer))
unfolding encode_sunsubscribe_request
encode_sunsubscribe-framed topic group consumer =
    Frame.make-framed _ _ op_sunsubscribe _ (member_payload topic group consumer)
      (search writes depth 12) (omega (arith, length-append {0} {A = ℕ}, length-put_be))
      (omega (arith, length-append {0} {A = ℕ}, length-put_be))

pub decode_sunsubscribe-payload :
    (topic group consumer : Bytes)
    → length topic < 2 ^ 16
    → length group < 2 ^ 16
    → length consumer < 2 ^ 16
    → decode_sunsubscribe_request (member_payload topic group consumer)
      ≡ ok (record (new_request op_sunsubscribe) {
        topic = topic;
        group = group;
        consumer = consumer;
      })
unfolding decode_sunsubscribe_request
decode_sunsubscribe-payload topic group consumer h0 h1 h2 = Frame.run-Reads_all _ _ (
    Frame.Reads-need_word 2 (length topic) _ _ _ (
      Frame.Reads-word 2 (length topic) _ (omega arith) (
        Frame.Reads-checked topic invalid_sunsubscribe _ (
          Frame.Reads-need_word 2 (length group) _ _ _ (
            Frame.Reads-word 2 (length group) _ (omega arith) (
              Frame.Reads-checked group invalid_sunsubscribe _ (
                Frame.Reads-need_word 2 (length consumer) _ _ _ (
                  Frame.Reads-word 2 (length consumer) _ (omega arith)
                    (Frame.Reads-checked_last consumer invalid_sunsubscribe _)))))))))
