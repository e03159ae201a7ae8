-- ===== src/Protocol/Safety/Stream.antt =====
-- The decoders of the stream requests never read out of range.
use flin.Prelude.{ℕ, zero, suc, ◌≢◌, inl, inr, List, ltb, Bool-cases}
use flin.Wire.Outcome.{Bytes, panic}
use flin.Wire.Reader.{Safe, Safe-pure, Safe-fail, Safe-word, Safe-string, Safe-map, run-Safe}
use flin.Protocol.Types.{BatchMessage, max_batch_size}
use flin.Protocol.Decode.Stream.{
  decode_spublish_request, decode_sconsume_request, decode_scommit_request,
  decode_screate_topic_request, decode_ssubscribe_request, decode_sunsubscribe_request,
  decode_spublish_batch_request, read_messages, read_batch,
}

pub decode_spublish-ne-panic : (payload : Bytes) → decode_spublish_request payload ≢ panic
unfolding decode_spublish_request
decode_spublish-ne-panic payload = run-Safe _ payload (
    Safe-string 0 2 _ _ _ λ _.
      (Safe-word 0 4 _ _
        λ _. (Safe-string 0 2 _ _ _ λ _. (Safe-string 0 4 _ _ _ λ _. (Safe-pure 0 _)))))

pub decode_sconsume-ne-panic : (payload : Bytes) → decode_sconsume_request payload ≢ panic
unfolding decode_sconsume_request
decode_sconsume-ne-panic payload = run-Safe _ payload (
    Safe-string 0 2 _ _ _ λ _.
      (Safe-string 0 2 _ _ _
        λ _. (Safe-string 0 2 _ _ _ λ _. (Safe-word 0 4 _ _ λ _. (Safe-pure 0 _)))))

pub decode_scommit-ne-panic : (payload : Bytes) → decode_scommit_request payload ≢ panic
unfolding decode_scommit_request
decode_scommit-ne-panic payload = run-Safe _ payload (
    Safe-string 0 2 _ _ _ λ _.
      (Safe-string 0 2 _ _ _
        λ _. (Safe-word 0 4 _ _ λ _. (Safe-word 0 8 _ _ λ _. (Safe-pure 0 _)))))

pub decode_screate_topic-ne-panic : (payload : Bytes) → decode_screate_topic_request payload ≢ panic
unfolding decode_screate_topic_request
decode_screate_topic-ne-panic payload =
    run-Safe _ payload
      (Safe-string 0 2 _ _ _ λ _. (Safe-word 0 4 _ _ λ _. (Safe-word 0 8 _ _ λ _. (Safe-pure 0 _))))

pub decode_ssubscribe-ne-panic : (payload : Bytes) → decode_ssubscribe_request payload ≢ panic
unfolding decode_ssubscribe_request
decode_ssubscribe-ne-panic payload = run-Safe _ payload (
    Safe-string 0 2 _ _ _
      λ _. (Safe-string 0 2 _ _ _ λ _. (Safe-string 0 2 _ _ _ λ _. (Safe-pure 0 _))))

pub decode_sunsubscribe-ne-panic : (payload : Bytes) → decode_sunsubscribe_request payload ≢ panic
unfolding decode_sunsubscribe_request
decode_sunsubscribe-ne-panic payload = run-Safe _ payload (
    Safe-string 0 2 _ _ _
      λ _. (Safe-string 0 2 _ _ _ λ _. (Safe-string 0 2 _ _ _ λ _. (Safe-pure 0 _))))

read_messages-Safe :
    (rounds : ℕ) (messages : List BatchMessage) → Safe 0 (read_messages rounds messages)
unfolding read_messages
read_messages-Safe zero messages = Safe-pure 0 messages
read_messages-Safe (suc rounds) messages =
    Safe-word 0 4 _ _
      λ _. Safe-string 0 2 _ _ _ λ _. Safe-string 0 4 _ _ _ λ _. read_messages-Safe rounds _

read_batch-Safe : (count : ℕ) → Safe 0 (read_batch count)
unfolding read_batch
read_batch-Safe count = elim (Bool-cases (ltb max_batch_size count)) [
  | inl over ↦ rw over (Safe-fail 0 _)
  | inr fits ↦ rw fits (read_messages-Safe count _)
]

pub decode_spublish_batch-ne-panic :
    (payload : Bytes) → decode_spublish_batch_request payload ≢ panic
unfolding decode_spublish_batch_request
decode_spublish_batch-ne-panic payload =
    run-Safe _ payload
      (Safe-string 0 2 _ _ _ λ _. Safe-word 0 4 _ _ λ count. Safe-map 0 _ _ (read_batch-Safe count))
