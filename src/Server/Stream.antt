-- ===== src/Server/Stream.antt =====
-- internal/server/stream_handlers.go: the handlers of the stream commands. That a publication starts a flush
-- is left out, as the flush is a call of its own.
use flin.Prelude.{ℕ, ◌+◌, List, [], ◌∷◌, length}
use flin.Wire.Outcome.{Bytes, Error, Outcome, message, ok, err, panic, then_do}
use flin.Wire.Text.{error_text}
use flin.Wire.Writer.{◌>>◌, put_uint, copy_bytes, make}
use flin.Protocol.Types.{Request, BatchMessage}
use flin.Protocol.Encode.Response.{
  encode_ok_response, encode_multi_value_response, encode_error_response,
}
use flin.Stream.Message.Types.{Message, PublishMessage}
use flin.Stream.Topics.Defs.{Stream, create_topic, publish, commit}
use flin.Stream.Topics.Batch.{publish_batch}
use flin.Stream.Groups.Defs.{subscribe, unsubscribe}
use flin.Stream.Groups.Consume.{consume}
use flin.Server.Stores.{Backends, Stores, respond}

-- A message as it is sent to a consumer.
unfoldable pub consumed_value : Message → Outcome Bytes
consumed_value msg =
    let key_len = length msg.key in
    let val_len = length msg.value in
    make (8 + 8 + 2 + key_len + 4 + val_len) do
      put_uint 8 msg.offset
      put_uint 8 msg.timestamp
      put_uint 2 key_len
      copy_bytes msg.key
      put_uint 4 val_len
      copy_bytes msg.value

unfoldable pub consumed_values : List Message → Outcome (List Bytes)
consumed_values [] = ok []
consumed_values (msg ∷ msgs) =
    then_do (consumed_value msg)
      λ value. then_do (consumed_values msgs) λ values. ok (value ∷ values)

unfoldable pub publish_messages : List BatchMessage → List PublishMessage
publish_messages [] = []
publish_messages (msg ∷ msgs) =
    record { partition = msg.partition; key = msg.key; value = msg.value } ∷ publish_messages msgs

abbrev pub err_internal : Error
err_internal = message "internal server error"

-- `defer func() { if r := recover(); … }()`
abbrev pub recovered : Outcome Bytes → Outcome Bytes
recovered (ok response) = ok response
recovered (err e) = err e
recovered panic = encode_error_response (error_text err_internal)

module _ (e : Backends) (now : ℕ) where
  -- An answer without a value, and the stream that is left.
  abbrev pub answer_done {ℓ} :
      {A : Type ℓ} → Outcome A × Stream e.stream_db → Stores e → Outcome Bytes × Stores e
  answer_done r s = (respond r.0 (λ _. encode_ok_response), record s { stream = r.1 })

  unfoldable pub process_binary_spublish : Request → Stores e → Outcome Bytes × Stores e
  process_binary_spublish req s =
      answer_done
        (publish e.stream_db e.sum32 (e.unix_nano now) now req.topic req.partition req.key req.value
          s.stream)
        s

  unfoldable pub process_binary_sconsume : Request → Stores e → Outcome Bytes × Stores e
  process_binary_sconsume req s =
      let r =
        consume e.stream_db e.seek e.arrive req.topic req.group req.consumer req.count now
          s.stream in
      (
        respond r.0 (λ msgs. then_do (consumed_values msgs) encode_multi_value_response),
        record s { stream = r.1 },
      )

  -- The decoder puts the offset in `retention_ms`.
  unfoldable pub process_binary_scommit : Request → Stores e → Outcome Bytes × Stores e
  process_binary_scommit req s =
      answer_done
        (commit e.stream_db req.topic req.group req.partition req.retention_ms now s.stream) s

  unfoldable pub process_binary_screate_topic : Request → Stores e → Outcome Bytes × Stores e
  process_binary_screate_topic req s =
      answer_done (create_topic e.stream_db req.topic req.partition req.retention_ms now s.stream) s

  unfoldable pub process_binary_ssubscribe : Request → Stores e → Outcome Bytes × Stores e
  process_binary_ssubscribe req s =
      answer_done (subscribe e.stream_db req.topic req.group req.consumer now s.stream) s

  unfoldable pub process_binary_sunsubscribe : Request → Stores e → Outcome Bytes × Stores e
  process_binary_sunsubscribe req s =
      answer_done (unsubscribe e.stream_db req.topic req.group req.consumer s.stream) s

  unfoldable pub process_binary_spublish_batch : Request → Stores e → Outcome Bytes × Stores e
  process_binary_spublish_batch req s =
      let r =
        publish_batch e.stream_db e.sum32 (e.unix_nano now) now req.topic
          (publish_messages req.batch_messages) s.stream in
      let answered = answer_done r s in (recovered answered.0, answered.1)
