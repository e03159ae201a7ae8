-- ===== src/Stream/Message/Safety.antt =====
-- What is stored is decoded without a read out of range, whatever the bytes.
use flin.Prelude.{◌+◌, ◌≢◌, arith}
use flin.Wire.Outcome.{Bytes, panic}
use flin.Wire.Reader.{Safe-pure, Safe-need, Safe-uint, Safe-bytes, Safe-chunk, run-Safe}
use flin.Stream.Message.Decode.{decode_message, decode_topic_metadata}

decode_message-ne-panic : (payload : Bytes) → decode_message payload ≢ panic
unfolding decode_message
decode_message-ne-panic payload = run-Safe _ payload (
    Safe-need 0 18 _ _ (
      Safe-uint 18 8 10 _ (omega arith) λ _. Safe-uint 10 8 2 _ (omega arith) λ _.
        Safe-uint 2 2 0 _ (omega arith) λ n. Safe-need 0 (n + 4) _ _ (
          Safe-bytes (n + 4) n 4 _ (omega arith)
            λ _. Safe-uint 4 4 0 _ (omega arith) λ m. Safe-chunk 0 m _ _ λ _. Safe-pure 0 _)))

decode_topic_metadata-ne-panic : (payload : Bytes) → decode_topic_metadata payload ≢ panic
unfolding decode_topic_metadata
decode_topic_metadata-ne-panic payload = run-Safe _ payload (
    Safe-need 0 30 _ _ (
      Safe-uint 30 2 28 _ (omega arith) λ n. Safe-need 28 (n + 28) _ _ (
        Safe-bytes (n + 28) n 28 _ (omega arith) λ _. Safe-uint 28 4 24 _ (omega arith) λ _.
          Safe-uint 24 8 16 _ (omega arith) λ _.
            Safe-uint 16 8 8 _ (omega arith)
              λ _. Safe-uint 8 8 0 _ (omega arith) λ _. Safe-pure 0 _)))

-- decodeMessage and decodeTopicMetadata return a value or an error on all bytes.
pub decoders-ne-panic :
    (payload : Bytes) → (decode_message payload ≢ panic) × (decode_topic_metadata payload ≢ panic)
decoders-ne-panic payload =
    (decode_message-ne-panic payload, decode_topic_metadata-ne-panic payload)
