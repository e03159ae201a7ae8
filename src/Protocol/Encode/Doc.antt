-- ===== src/Protocol/Encode/Doc.antt =====
-- internal/net/protocol.go: the encoders of the document requests.
use flin.Prelude.{◌+◌, ◌-◌, length}
use flin.Wire.Outcome.{Bytes, Outcome}
use flin.Wire.Writer.{◌>>◌, set_byte, put_uint, copy_bytes, make}
use flin.Protocol.Types.{op_doc_insert, op_doc_find, op_doc_index, op_doc_update, op_doc_delete}

unfoldable pub encode_doc_insert_request : Bytes → Bytes → Outcome Bytes
encode_doc_insert_request collection doc =
    let total_size = 1 + 4 + 2 + length collection + 4 + length doc in
    make total_size do
      set_byte op_doc_insert
      put_uint 4 (total_size - 5)
      put_uint 2 (length collection)
      copy_bytes collection
      put_uint 4 (length doc)
      copy_bytes doc

unfoldable pub encode_doc_find_request : Bytes → Bytes → Outcome Bytes
encode_doc_find_request collection query =
    let total_size = 1 + 4 + 2 + length collection + 4 + length query in
    make total_size do
      set_byte op_doc_find
      put_uint 4 (total_size - 5)
      put_uint 2 (length collection)
      copy_bytes collection
      put_uint 4 (length query)
      copy_bytes query

unfoldable pub encode_doc_update_request : Bytes → Bytes → Outcome Bytes
encode_doc_update_request collection update_opts =
    let total_size = 1 + 4 + 2 + length collection + 4 + length update_opts in
    make total_size do
      set_byte op_doc_update
      put_uint 4 (total_size - 5)
      put_uint 2 (length collection)
      copy_bytes collection
      put_uint 4 (length update_opts)
      copy_bytes update_opts

unfoldable pub encode_doc_delete_request : Bytes → Bytes → Outcome Bytes
encode_doc_delete_request collection delete_opts =
    let total_size = 1 + 4 + 2 + length collection + 4 + length delete_opts in
    make total_size do
      set_byte op_doc_delete
      put_uint 4 (total_size - 5)
      put_uint 2 (length collection)
      copy_bytes collection
      put_uint 4 (length delete_opts)
      copy_bytes delete_opts

unfoldable pub encode_doc_index_request : Bytes → Bytes → Outcome Bytes
encode_doc_index_request collection field =
    let total_size = 1 + 4 + 2 + length collection + 2 + length field in
    make total_size do
      set_byte op_doc_index
      put_uint 4 (total_size - 5)
      put_uint 2 (length collection)
      copy_bytes collection
      put_uint 2 (length field)
      copy_bytes field
