-- ===== src/Protocol/Decode/Doc.antt =====
-- internal/net/protocol.go: the decoders of the document requests.
use flin.Wire.Outcome.{Bytes, Outcome, Error, message}
use flin.Wire.Reader.{◌>>=◌, ◌>>◌, pure, need, uint, bytes, run}
use flin.Protocol.Types.{
  Request, new_request, op_doc_insert, op_doc_find, op_doc_update, op_doc_delete, op_doc_index,
}

abbrev pub invalid_doc_insert : Error
invalid_doc_insert = message "invalid DOCINSERT payload"

unfoldable pub decode_doc_insert_request : Bytes → Outcome Request
decode_doc_insert_request = run do
  need 2 invalid_doc_insert
  collection_len ← uint 2
  need collection_len invalid_doc_insert
  collection ← bytes collection_len
  need 4 invalid_doc_insert
  doc_len ← uint 4
  need doc_len invalid_doc_insert
  doc ← bytes doc_len
  pure (record (new_request op_doc_insert) { collection = collection; value = doc })

abbrev pub invalid_doc_find : Error
invalid_doc_find = message "invalid DOCFIND payload"

unfoldable pub decode_doc_find_request : Bytes → Outcome Request
decode_doc_find_request = run do
  need 2 invalid_doc_find
  collection_len ← uint 2
  need collection_len invalid_doc_find
  collection ← bytes collection_len
  need 4 invalid_doc_find
  query_len ← uint 4
  need query_len invalid_doc_find
  query ← bytes query_len
  pure (record (new_request op_doc_find) { collection = collection; value = query })

abbrev pub invalid_doc_update : Error
invalid_doc_update = message "invalid DOCUPDATE payload"

unfoldable pub decode_doc_update_request : Bytes → Outcome Request
decode_doc_update_request = run do
  need 2 invalid_doc_update
  collection_len ← uint 2
  need collection_len invalid_doc_update
  collection ← bytes collection_len
  need 4 invalid_doc_update
  opts_len ← uint 4
  need opts_len invalid_doc_update
  opts ← bytes opts_len
  pure (record (new_request op_doc_update) { collection = collection; value = opts })

abbrev pub invalid_doc_delete : Error
invalid_doc_delete = message "invalid DOCDELETE payload"

unfoldable pub decode_doc_delete_request : Bytes → Outcome Request
decode_doc_delete_request = run do
  need 2 invalid_doc_delete
  collection_len ← uint 2
  need collection_len invalid_doc_delete
  collection ← bytes collection_len
  need 4 invalid_doc_delete
  query_len ← uint 4
  need query_len invalid_doc_delete
  query ← bytes query_len
  pure (record (new_request op_doc_delete) { collection = collection; value = query })

abbrev pub invalid_doc_index : Error
invalid_doc_index = message "invalid DOCINDEX payload"

unfoldable pub decode_doc_index_request : Bytes → Outcome Request
decode_doc_index_request = run do
  need 2 invalid_doc_index
  collection_len ← uint 2
  need collection_len invalid_doc_index
  collection ← bytes collection_len
  need 2 invalid_doc_index
  field_len ← uint 2
  need field_len invalid_doc_index
  field ← bytes field_len
  pure (record (new_request op_doc_index) { collection = collection; key = field })
