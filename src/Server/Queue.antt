-- ===== src/Server/Queue.antt =====
-- internal/server/queue_handlers.go, with the calls of internal/queue/queue.go that it makes. A new message
-- id and the clock are arguments of a push.
use flin.Prelude.{ℕ}
use flin.Wire.Outcome.{Bytes, Outcome}
use flin.Wire.BigEndian.{put_be}
use flin.Protocol.Types.{Request}
use flin.Protocol.Encode.Response.{encode_ok_response, encode_value_response}
use flin.Queue.Storage.{pop, peek, len, clear}
use flin.Queue.Delivery.Defs.{push_message}
use flin.Server.Stores.{Backends, Stores, respond}

module _ (e : Backends) where
  -- `Queue.Push` stores by `PushMessage`.
  unfoldable pub process_binary_qpush : Bytes → ℕ → Request → Stores e → Outcome Bytes × Stores e
  process_binary_qpush message_id now req s =
      let r = (push_message e.queue_db req.key req.value message_id now s.queue).1 in
      (respond r.0 (λ _. encode_ok_response), record s { queue = r.1 })

  unfoldable pub process_binary_qpop : Request → Stores e → Outcome Bytes × Stores e
  process_binary_qpop req s =
      let r = pop e.queue_db req.key s.queue in
      (respond r.0 encode_value_response, record s { queue = r.1 })

  unfoldable pub process_binary_qpeek : Request → Stores e → Outcome Bytes × Stores e
  process_binary_qpeek req s = (respond (peek e.queue_db req.key s.queue) encode_value_response, s)

  unfoldable pub process_binary_qlen : Request → Stores e → Outcome Bytes × Stores e
  process_binary_qlen req s =
      (respond (len e.queue_db req.key s.queue) (λ n. encode_value_response (put_be 8 n)), s)

  unfoldable pub process_binary_qclear : Request → Stores e → Outcome Bytes × Stores e
  process_binary_qclear req s =
      let r = clear e.queue_db req.key s.queue in
      (respond r.0 (λ _. encode_ok_response), record s { queue = r.1 })
