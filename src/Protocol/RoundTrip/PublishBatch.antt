-- ===== src/Protocol/RoundTrip/PublishBatch.antt =====
-- SPUBLISHBATCH: the decoder reads the payload format, and the encoder leaves out the frame's length.
use flin.Prelude.{
  ℕ, ◌+◌, ◌-◌, ◌*◌, ◌^◌, ◌≤◌, ◌<◌, ◌≡◌, ◌∙◌, List, [], ◌∷◌, ◌++◌, append-nil, append_assoc, length,
  length-append, ge→ltb, lt→ltb, drop, length-drop, arith,
}
use flin.Wire.Outcome.{Bytes, ok, err, message, then_do}
use flin.Wire.BigEndian.{put_be, be_value, length-put_be}
use flin.Wire.Reader.{Reads, Reads-pure, Reads-last}
use flin.Wire.Writer.{Writes, Writes-skip, Writes-seq, Writes-byte, make-Writes}
use flin.Protocol.Types.{BatchMessage, new_request, op_spublish_batch, max_batch_size}
use flin.Protocol.Encode.Stream.{encode_spublish_batch_request, add_message_sizes, put_messages}
use flin.Protocol.Decode.Stream.{
  decode_spublish_batch_request, read_messages, read_batch, invalid_spublish_batch,
}
use flin.Protocol.Decode.Frame.{decode_request}
use flin.Protocol.Frame
use flin.Protocol.Safety.Payload.{AllBytes}
use flin.Protocol.Safety.Panics.{declared, decode_request_complete}

abbrev pub MessagesFit : List BatchMessage → Type 0
MessagesFit [] = Unit
MessagesFit (msg ∷ messages) =
    (msg.partition < 2 ^ 32)
    × (length msg.key < 2 ^ 16)
    × (length msg.value < 2 ^ 32)
    × MessagesFit messages

abbrev pub messages_bytes : List BatchMessage → Bytes
messages_bytes [] = []
messages_bytes (msg ∷ messages) =
    put_be 4 msg.partition
    ++ (put_be 2 (length msg.key)
        ++ (msg.key ++ (put_be 4 (length msg.value) ++ (msg.value ++ messages_bytes messages))))

abbrev pub batch_payload : Bytes → List BatchMessage → Bytes
batch_payload topic messages =
    put_be 2 (length topic) ++ (topic ++ (put_be 4 (length messages) ++ messages_bytes messages))

read_messages-Reads :
    (messages ms : List BatchMessage)
    → MessagesFit ms
    → Reads (read_messages (length ms) messages) (messages_bytes ms) (messages ++ ms)
unfolding read_messages
read_messages-Reads messages [] h = rw (append-nil messages) (Reads-pure messages)
read_messages-Reads messages (m ∷ ms) (hp, hk, hv, h) = Frame.Reads-need_word 4 m.partition _ _ _ (
    Frame.Reads-word 4 m.partition _ (omega arith) (
      Frame.Reads-need_word 2 (length m.key) _ _ _ (
        Frame.Reads-word 2 (length m.key) _ (omega arith) (
          Frame.Reads-checked m.key invalid_spublish_batch _ (
            Frame.Reads-need_word 4 (length m.value) _ _ _ (
              Frame.Reads-word 4 (length m.value) _ (omega arith) (
                Frame.Reads-checked m.value invalid_spublish_batch _ (
                  rw (append_assoc messages (m ∷ []) ms) at
                    (read_messages-Reads (messages ++ m ∷ []) ms h)))))))))

read_batch-Reads :
    (ms : List BatchMessage)
    → MessagesFit ms
    → length ms ≤ max_batch_size
    → Reads (read_batch (length ms)) (messages_bytes ms) ms
unfolding read_batch
read_batch-Reads ms h n = rw (ge→ltb max_batch_size (length ms) n) (read_messages-Reads [] ms h)

-- Of the payload format, the decoder returns every topic and batch of at most 10000 messages whose
-- fields fit their widths.
pub decode_spublish_batch-payload :
    (topic : Bytes) (messages : List BatchMessage)
    → length topic < 2 ^ 16
    → length messages ≤ max_batch_size
    → MessagesFit messages
    → decode_spublish_batch_request (batch_payload topic messages)
      ≡ ok (record (new_request op_spublish_batch) { topic = topic; batch_messages = messages })
unfolding decode_spublish_batch_request
decode_spublish_batch-payload topic messages ht n h = Frame.run-Reads_all _ _ (
    Frame.Reads-need_word 2 (length topic) _ _ _ (
      Frame.Reads-word 2 (length topic) _ (omega arith) (
        Frame.Reads-checked topic invalid_spublish_batch _ (
          Frame.Reads-need_word 4 (length messages) _ _ _ (
            Frame.Reads-word 4 (length messages) _ (omega arith)
              (Reads-last _ _ (read_batch-Reads messages h n)))))))

put_messages-Writes : (ms : List BatchMessage) → Writes (put_messages ms) (messages_bytes ms)
unfolding put_messages
put_messages-Writes [] = Writes-skip
put_messages-Writes (m ∷ ms) =
    Frame.Writes-word 4 m.partition _
      (Frame.Writes-string 2 m.key _ (Frame.Writes-string 4 m.value _ (put_messages-Writes ms)))

add_message_sizes_lem :
    (size : ℕ) (ms : List BatchMessage)
    → add_message_sizes size ms ≡ size + length (messages_bytes ms)
unfolding add_message_sizes
add_message_sizes_lem size [] = omega arith
add_message_sizes_lem size (m ∷ ms) = omega (
  arith,
  add_message_sizes_lem (size + (4 + 2 + length m.key + 4 + length m.value)) ms,
  length-append {0} {A = ℕ},
  length-put_be,
)

-- The encoder fills its buffer with the operation code and the payload, and no length between.
pub encode_spublish_batch_lem :
    (topic : Bytes) (messages : List BatchMessage)
    → encode_spublish_batch_request topic messages
      ≡ ok (op_spublish_batch ∷ batch_payload topic messages)
unfolding encode_spublish_batch_request
encode_spublish_batch_lem topic messages =
    make-Writes _ _ _
      (Writes-seq _ _ (Writes-byte op_spublish_batch) (
        Frame.Writes-string 2 topic _
          (Frame.Writes-word 4 (length messages) _ (put_messages-Writes messages))))
      (omega (
        arith,
        add_message_sizes_lem (1 + 2 + length topic + 4) messages,
        length-append {0} {A = ℕ},
        length-put_be,
      ))

-- The first two bytes of the declared length are those of the topic's length.
declared_bounds :
    (topic : Bytes) (n : ℕ) (rest : Bytes)
    → AllBytes topic
    → 1 ≤ length topic
    → length topic < 2 ^ 16 - 1
    → (length topic * 65536 ≤ declared (put_be 2 (length topic) ++ (topic ++ (put_be 4 n ++ rest))))
      × (5 + declared (put_be 2 (length topic) ++ (topic ++ (put_be 4 n ++ rest))) < 2 ^ 32)
unfolding put_be be_value
declared_bounds [] n rest h lo hi = absurd (omega arith)
declared_bounds (a ∷ []) n rest (ha, _) lo hi = (omega arith, omega arith)
declared_bounds (a ∷ b ∷ topic) n rest (ha, (hb, h)) lo hi = (omega arith, omega arith)

-- The server refuses as incomplete what the encoder makes of a batch whose topic has 1 to 65534
-- bytes, unless the encoding has 65536 bytes or more for each byte of the topic.
pub decode-encode_spublish_batch_refused :
    (topic : Bytes) (messages : List BatchMessage)
    → AllBytes topic
    → 1 ≤ length topic
    → length topic < 2 ^ 16 - 1
    → length (batch_payload topic messages) < 4 + length topic * 65536
    → then_do (encode_spublish_batch_request topic messages) decode_request
      ≡ err (message "incomplete request")
decode-encode_spublish_batch_refused topic messages h lo hi small =
    let tail : Bytes = batch_payload topic messages in
    let (least, fits) = declared_bounds topic (length messages) (messages_bytes messages) h lo hi in
    let long : 4 ≤ length tail = omega (arith, length-append {0} {A = ℕ}, length-put_be) in
    rw (encode_spublish_batch_lem topic messages) (
      decode_request_complete op_spublish_batch tail long fits
      ∙ rw (
          lt→ltb (length (drop 4 tail)) (declared tail) (omega (arith, least, length-drop 4 tail))))
