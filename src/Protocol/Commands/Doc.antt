-- ===== src/Protocol/Commands/Doc.antt =====
-- The document commands.
use flin.Prelude.{◌^◌, ◌<◌, ◌≡◌, ◌++◌, length}
use flin.Wire.Outcome.{Bytes, Outcome, ok, then_do}
use flin.Protocol.Types.{
  Request, new_request, op_doc_insert, op_doc_find, op_doc_update, op_doc_delete, op_doc_index,
}
use flin.Protocol.Frame.{FitsFrame, through_frame}
use flin.Protocol.Decode.Frame.{decode_payload, decode_request}
use flin.Protocol.Encode.Doc.{
  encode_doc_insert_request, encode_doc_find_request, encode_doc_update_request,
  encode_doc_delete_request, encode_doc_index_request,
}
use flin.Protocol.RoundTrip.Doc.{
  encode_doc_insert-framed, decode_doc_insert-payload, encode_doc_find-framed,
  decode_doc_find-payload, encode_doc_update-framed, decode_doc_update-payload,
  encode_doc_delete-framed, decode_doc_delete-payload, encode_doc_index-framed,
  decode_doc_index-payload, body_payload, index_payload,
}

pub data DocCommand : Type 0 where
  insert : Bytes → Bytes → DocCommand
  find : Bytes → Bytes → DocCommand
  update : Bytes → Bytes → DocCommand
  delete : Bytes → Bytes → DocCommand
  index : Bytes → Bytes → DocCommand

-- The client calls the encoder of the operation.
unfoldable pub encode_doc : DocCommand → Outcome Bytes
encode_doc (insert collection body) = encode_doc_insert_request collection body
encode_doc (find collection body) = encode_doc_find_request collection body
encode_doc (update collection body) = encode_doc_update_request collection body
encode_doc (delete collection body) = encode_doc_delete_request collection body
encode_doc (index collection field) = encode_doc_index_request collection field

-- The request that the server is meant to see.
abbrev pub doc_request : DocCommand → Request
doc_request (insert collection body) = record (new_request op_doc_insert) {
  collection = collection;
  value = body;
}
doc_request (find collection body) = record (new_request op_doc_find) {
  collection = collection;
  value = body;
}
doc_request (update collection body) = record (new_request op_doc_update) {
  collection = collection;
  value = body;
}
doc_request (delete collection body) = record (new_request op_doc_delete) {
  collection = collection;
  value = body;
}
doc_request (index collection field) = record (new_request op_doc_index) {
  collection = collection;
  key = field;
}

abbrev pub doc_payload : DocCommand → Bytes
doc_payload (insert collection body) = body_payload collection body
doc_payload (find collection body) = body_payload collection body
doc_payload (update collection body) = body_payload collection body
doc_payload (delete collection body) = body_payload collection body
doc_payload (index collection field) = index_payload collection field

-- Each field fits the width of its length or its number.
abbrev pub DocFieldsFit : DocCommand → Type 0
DocFieldsFit (insert collection body) = (length collection < 2 ^ 16) × (length body < 2 ^ 32)
DocFieldsFit (find collection body) = (length collection < 2 ^ 16) × (length body < 2 ^ 32)
DocFieldsFit (update collection body) = (length collection < 2 ^ 16) × (length body < 2 ^ 32)
DocFieldsFit (delete collection body) = (length collection < 2 ^ 16) × (length body < 2 ^ 32)
DocFieldsFit (index collection field) = (length collection < 2 ^ 16) × (length field < 2 ^ 16)

abbrev pub DocFits : DocCommand → Type 0
DocFits c = FitsFrame (doc_payload c) × DocFieldsFit c

-- Whatever command is sent and whatever bytes follow it, the server decodes the request that was
-- encoded, if the fields and the payload fit their widths.
pub decode-encode_doc :
    (c : DocCommand) (rest : Bytes)
    → DocFits c
    → then_do (encode_doc c) (λ frame. decode_request (frame ++ rest)) ≡ ok (doc_request c)
unfolding encode_doc decode_payload
decode-encode_doc (insert collection body) rest (h, f) =
    through_frame op_doc_insert (body_payload collection body) rest
      (encode_doc_insert-framed collection body) h
      (decode_doc_insert-payload collection body f.0 f.1)
decode-encode_doc (find collection body) rest (h, f) =
    through_frame op_doc_find (body_payload collection body) rest
      (encode_doc_find-framed collection body) h (decode_doc_find-payload collection body f.0 f.1)
decode-encode_doc (update collection body) rest (h, f) =
    through_frame op_doc_update (body_payload collection body) rest
      (encode_doc_update-framed collection body) h
      (decode_doc_update-payload collection body f.0 f.1)
decode-encode_doc (delete collection body) rest (h, f) =
    through_frame op_doc_delete (body_payload collection body) rest
      (encode_doc_delete-framed collection body) h
      (decode_doc_delete-payload collection body f.0 f.1)
decode-encode_doc (index collection field) rest (h, f) =
    through_frame op_doc_index (index_payload collection field) rest
      (encode_doc_index-framed collection field) h
      (decode_doc_index-payload collection field f.0 f.1)
