-- ===== src/Protocol/Decode/Frame.antt =====
-- internal/net/protocol.go: `DecodeRequest`, the frame and the switch on its operation code.
use flin.Prelude.{ℕ, ◌+◌, ◌%◌, ◌^◌, ◌==◌, ◌||◌, [], ◌∷◌, ltb, if◌then◌else◌, length}
use flin.Wire.Outcome.{Bytes, Outcome, message, message_with, err, then_do}
use flin.Wire.Reader.{uint, run, slice}
use flin.Protocol.Types.{
  Request, op_set, op_get, op_del, op_exists, op_incr, op_decr, op_mset, op_mget, op_mdel, op_qpush,
  op_qpop, op_qpeek, op_qlen, op_qclear, op_spublish, op_sconsume, op_scommit, op_screate_topic,
  op_ssubscribe, op_sunsubscribe, op_spublish_batch, op_doc_insert, op_doc_find, op_doc_update,
  op_doc_delete, op_doc_index,
}
use flin.Protocol.Decode.Kv.{
  decode_set_request, decode_simple_request, decode_mset_request, decode_mget_request,
}
use flin.Protocol.Decode.Queue.{decode_qpush_request}
use flin.Protocol.Decode.Stream.{
  decode_spublish_request, decode_sconsume_request, decode_scommit_request,
  decode_screate_topic_request, decode_ssubscribe_request, decode_sunsubscribe_request,
  decode_spublish_batch_request,
}
use flin.Protocol.Decode.Doc.{
  decode_doc_insert_request, decode_doc_find_request, decode_doc_update_request,
  decode_doc_delete_request, decode_doc_index_request,
}

-- The switch of `DecodeRequest`.
unfoldable pub decode_payload : ℕ → Bytes → Outcome Request
decode_payload op payload =
    if op == op_set
    then decode_set_request payload
    else if op == op_get || (op == op_del || (op == op_exists || (op == op_incr || op == op_decr)))
    then decode_simple_request op payload
    else if op == op_mset
    then decode_mset_request payload
    else if op == op_mget || op == op_mdel
    then decode_mget_request op payload
    else if op == op_qpush
    then decode_qpush_request payload
    else if op == op_qpop || (op == op_qpeek || (op == op_qlen || op == op_qclear))
    then decode_simple_request op payload
    else if op == op_spublish
    then decode_spublish_request payload
    else if op == op_sconsume
    then decode_sconsume_request payload
    else if op == op_scommit
    then decode_scommit_request payload
    else if op == op_screate_topic
    then decode_screate_topic_request payload
    else if op == op_spublish_batch
    then decode_spublish_batch_request payload
    else if op == op_ssubscribe
    then decode_ssubscribe_request payload
    else if op == op_sunsubscribe
    then decode_sunsubscribe_request payload
    else if op == op_doc_insert
    then decode_doc_insert_request payload
    else if op == op_doc_find
    then decode_doc_find_request payload
    else if op == op_doc_update
    then decode_doc_update_request payload
    else if op == op_doc_delete
    then decode_doc_delete_request payload
    else if op == op_doc_index
    then decode_doc_index_request payload
    else err (message_with "unknown opcode: " op)

-- `data[0]` is the operation code and `tail` is `data[1:]`; `5 + payloadLen` is computed in uint32.
unfoldable pub decode_request : Bytes → Outcome Request
decode_request [] = err (message "request too short")
decode_request (op ∷ tail) =
    if ltb (length (op ∷ tail)) 5
    then err (message "request too short")
    else then_do (run (uint 4) tail) λ payload_len.
      let end = (5 + payload_len) % 2 ^ 32 in
      if ltb (length (op ∷ tail)) end
      then err (message "incomplete request")
      else then_do (slice (op ∷ tail) 5 end) (decode_payload op)
