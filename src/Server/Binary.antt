-- ===== src/Server/Binary.antt =====
-- internal/server/server.go: `processRequestBinary`, and how a read is told from the text protocol.
use flin.Prelude.{ℕ, Bool, false, ◌||◌, ◌&&◌, [], ◌∷◌, ◌==◌, leb, if◌then◌else◌}
use flin.Wire.Outcome.{Bytes, Error, Outcome, message, ok, err, panic}
use flin.Wire.Text.{error_text}
use flin.Protocol.Types.{
  Request, op_set, op_get, op_del, op_mset, op_mget, op_mdel, op_qpush, op_qpop, op_qpeek, op_qlen,
  op_qclear, op_spublish, op_sconsume, op_scommit, op_screate_topic, op_ssubscribe, op_sunsubscribe,
  op_spublish_batch, op_doc_insert, op_doc_find, op_doc_update, op_doc_delete, op_doc_index,
}
use flin.Protocol.Encode.Response.{encode_error_response}
use flin.Protocol.Decode.Frame.{decode_request}
use flin.Server.Stores.{Backends, Stores}
use flin.Server.Kv.{
  process_binary_set, process_binary_get, process_binary_del, process_binary_mset,
  process_binary_mget, process_binary_mdel,
}
use flin.Server.Stream.{
  process_binary_spublish, process_binary_sconsume, process_binary_scommit,
  process_binary_screate_topic, process_binary_ssubscribe, process_binary_sunsubscribe,
  process_binary_spublish_batch,
}
use flin.Server.Queue.{
  process_binary_qpush, process_binary_qpop, process_binary_qpeek, process_binary_qlen,
  process_binary_qclear,
}

-- `isBinary` of processRequestHybrid, by the first byte.
unfoldable pub is_binary : Bytes → Bool
is_binary [] = false
is_binary (c ∷ rest) =
    leb 0x01 c && leb c 0x12
    || leb 0x20 c && leb c 0x24
    || leb 0x30 c && leb c 0x36
    || leb 0x40 c && leb c 0x44

abbrev pub err_unknown_opcode : Error
err_unknown_opcode = message "unknown opcode"

-- The operations of streams and documents.
unfoldable pub is_rest : ℕ → Bool
is_rest op =
    op == op_spublish
    || op == op_sconsume
    || op == op_scommit
    || op == op_screate_topic
    || op == op_spublish_batch
    || op == op_ssubscribe
    || op == op_sunsubscribe
    || op == op_doc_insert
    || op == op_doc_find
    || op == op_doc_update
    || op == op_doc_delete
    || op == op_doc_index

module _ (e : Backends) (message_id : Bytes) (now : ℕ) where
  unfoldable pub dispatch : Request → Stores e → Outcome Bytes × Stores e
  dispatch req s =
      let op = req.op_code in
      if op == op_set
      then process_binary_set e req s
      else if op == op_get
      then process_binary_get e req s
      else if op == op_del
      then process_binary_del e req s
      else if op == op_mset
      then process_binary_mset e req s
      else if op == op_mget
      then process_binary_mget e req s
      else if op == op_mdel
      then process_binary_mdel e req s
      else if op == op_qpush
      then process_binary_qpush e message_id now req s
      else if op == op_qpop
      then process_binary_qpop e req s
      else if op == op_qpeek
      then process_binary_qpeek e req s
      else if op == op_qlen
      then process_binary_qlen e req s
      else if op == op_qclear
      then process_binary_qclear e req s
      else if op == op_spublish
      then process_binary_spublish e now req s
      else if op == op_sconsume
      then process_binary_sconsume e now req s
      else if op == op_scommit
      then process_binary_scommit e now req s
      else if op == op_screate_topic
      then process_binary_screate_topic e now req s
      else if op == op_spublish_batch
      then process_binary_spublish_batch e now req s
      else if op == op_ssubscribe
      then process_binary_ssubscribe e now req s
      else if op == op_sunsubscribe
      then process_binary_sunsubscribe e now req s
      else if is_rest op
      then (let r = e.handle_rest req s.rest in (r.0, record s { rest = r.1 }))
      else (encode_error_response (error_text err_unknown_opcode), s)

  abbrev pub dispatch_decoded : Outcome Request → Stores e → Outcome Bytes × Stores e
  dispatch_decoded (ok req) s = dispatch req s
  dispatch_decoded (err e') s = (encode_error_response (error_text e'), s)
  dispatch_decoded panic s = (panic, s)

  unfoldable pub process_request_binary : Bytes → Stores e → Outcome Bytes × Stores e
  process_request_binary bytes s = dispatch_decoded (decode_request bytes) s
