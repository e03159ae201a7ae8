-- ===== src/Protocol/RoundTrip/Doc.antt =====
-- The document requests: what the encoders write, the decoder reads back.
use flin.Prelude.{ℕ, ◌^◌, ◌<◌, ◌≡◌, ◌++◌, length, length-append, arith}
use flin.Wire.Outcome.{Bytes, ok}
use flin.Wire.BigEndian.{put_be, length-put_be}
use flin.Protocol.Types.{
  new_request, op_doc_insert, op_doc_find, op_doc_update, op_doc_delete, op_doc_index,
}
use flin.Protocol.Encode.Doc.{
  encode_doc_insert_request, encode_doc_find_request, encode_doc_update_request,
  encode_doc_delete_request, encode_doc_index_request,
}
use flin.Protocol.Decode.Doc.{
  decode_doc_insert_request, invalid_doc_insert, decode_doc_find_request, invalid_doc_find,
  decode_doc_update_request, invalid_doc_update, decode_doc_delete_request, invalid_doc_delete,
  decode_doc_index_request, invalid_doc_index,
}
use flin.Protocol.Frame
use flin.Protocol.RoundTrip.Kv.{writes}

abbrev pub body_payload : Bytes → Bytes → Bytes
body_payload collection body =
    put_be 2 (length collection) ++ (collection ++ (put_be 4 (length body) ++ body))

pub encode_doc_insert-framed :
    (collection body : Bytes)
    → encode_doc_insert_request collection body
      ≡ ok (Frame.framed op_doc_insert (body_payload collection body))
unfolding encode_doc_insert_request
encode_doc_insert-framed collection body =
    Frame.make-framed _ _ op_doc_insert _ (body_payload collection body) (search writes)
      (omega (arith, length-append {0} {A = ℕ}, length-put_be))
      (omega (arith, length-append {0} {A = ℕ}, length-put_be))

pub decode_doc_insert-payload :
    (collection body : Bytes)
    → length collection < 2 ^ 16
    → length body < 2 ^ 32
    → decode_doc_insert_request (body_payload collection body)
      ≡ ok (record (new_request op_doc_insert) { collection = collection; value = body })
unfolding decode_doc_insert_request
decode_doc_insert-payload collection body h0 h1 = Frame.run-Reads_all _ _ (
    Frame.Reads-need_word 2 (length collection) _ _ _ (
      Frame.Reads-word 2 (length collection) _ (omega arith) (
        Frame.Reads-checked collection invalid_doc_insert _ (
          Frame.Reads-need_word 4 (length body) _ _ _ (
            Frame.Reads-word 4 (length body) _ (omega arith)
              (Frame.Reads-checked_last body invalid_doc_insert _))))))

pub encode_doc_find-framed :
    (collection body : Bytes)
    → encode_doc_find_request collection body
      ≡ ok (Frame.framed op_doc_find (body_payload collection body))
unfolding encode_doc_find_request
encode_doc_find-framed collection body =
    Frame.make-framed _ _ op_doc_find _ (body_payload collection body) (search writes)
      (omega (arith, length-append {0} {A = ℕ}, length-put_be))
      (omega (arith, length-append {0} {A = ℕ}, length-put_be))

pub decode_doc_find-payload :
    (collection body : Bytes)
    → length collection < 2 ^ 16
    → length body < 2 ^ 32
    → decode_doc_find_request (body_payload collection body)
      ≡ ok (record (new_request op_doc_find) { collection = collection; value = body })
unfolding decode_doc_find_request
decode_doc_find-payload collection body h0 h1 = Frame.run-Reads_all _ _ (
    Frame.Reads-need_word 2 (length collection) _ _ _ (
      Frame.Reads-word 2 (length collection) _ (omega arith) (
        Frame.Reads-checked collection invalid_doc_find _ (
          Frame.Reads-need_word 4 (length body) _ _ _ (
            Frame.Reads-word 4 (length body) _ (omega arith)
              (Frame.Reads-checked_last body invalid_doc_find _))))))

pub encode_doc_update-framed :
    (collection body : Bytes)
    → encode_doc_update_request collection body
      ≡ ok (Frame.framed op_doc_update (body_payload collection body))
unfolding encode_doc_update_request
encode_doc_update-framed collection body =
    Frame.make-framed _ _ op_doc_update _ (body_payload collection body) (search writes)
      (omega (arith, length-append {0} {A = ℕ}, length-put_be))
      (omega (arith, length-append {0} {A = ℕ}, length-put_be))

pub decode_doc_update-payload :
    (collection body : Bytes)
    → length collection < 2 ^ 16
    → length body < 2 ^ 32
    → decode_doc_update_request (body_payload collection body)
      ≡ ok (record (new_request op_doc_update) { collection = collection; value = body })
unfolding decode_doc_update_request
decode_doc_update-payload collection body h0 h1 = Frame.run-Reads_all _ _ (
    Frame.Reads-need_word 2 (length collection) _ _ _ (
      Frame.Reads-word 2 (length collection) _ (omega arith) (
        Frame.Reads-checked collection invalid_doc_update _ (
          Frame.Reads-need_word 4 (length body) _ _ _ (
            Frame.Reads-word 4 (length body) _ (omega arith)
              (Frame.Reads-checked_last body invalid_doc_update _))))))

pub encode_doc_delete-framed :
    (collection body : Bytes)
    → encode_doc_delete_request collection body
      ≡ ok (Frame.framed op_doc_delete (body_payload collection body))
unfolding encode_doc_delete_request
encode_doc_delete-framed collection body =
    Frame.make-framed _ _ op_doc_delete _ (body_payload collection body) (search writes)
      (omega (arith, length-append {0} {A = ℕ}, length-put_be))
      (omega (arith, length-append {0} {A = ℕ}, length-put_be))

pub decode_doc_delete-payload :
    (collection body : Bytes)
    → length collection < 2 ^ 16
    → length body < 2 ^ 32
    → decode_doc_delete_request (body_payload collection body)
      ≡ ok (record (new_request op_doc_delete) { collection = collection; value = body })
unfolding decode_doc_delete_request
decode_doc_delete-payload collection body h0 h1 = Frame.run-Reads_all _ _ (
    Frame.Reads-need_word 2 (length collection) _ _ _ (
      Frame.Reads-word 2 (length collection) _ (omega arith) (
        Frame.Reads-checked collection invalid_doc_delete _ (
          Frame.Reads-need_word 4 (length body) _ _ _ (
            Frame.Reads-word 4 (length body) _ (omega arith)
              (Frame.Reads-checked_last body invalid_doc_delete _))))))

abbrev pub index_payload : Bytes → Bytes → Bytes
index_payload collection field =
    put_be 2 (length collection) ++ (collection ++ (put_be 2 (length field) ++ field))

pub encode_doc_index-framed :
    (collection field : Bytes)
    → encode_doc_index_request collection field
      ≡ ok (Frame.framed op_doc_index (index_payload collection field))
unfolding encode_doc_index_request
encode_doc_index-framed collection field =
    Frame.make-framed _ _ op_doc_index _ (index_payload collection field) (search writes)
      (omega (arith, length-append {0} {A = ℕ}, length-put_be))
      (omega (arith, length-append {0} {A = ℕ}, length-put_be))

pub decode_doc_index-payload :
    (collection field : Bytes)
    → length collection < 2 ^ 16
    → length field < 2 ^ 16
    → decode_doc_index_request (index_payload collection field)
      ≡ ok (record (new_request op_doc_index) { collection = collection; key = field })
unfolding decode_doc_index_request
decode_doc_index-payload collection field h0 h1 = Frame.run-Reads_all _ _ (
    Frame.Reads-need_word 2 (length collection) _ _ _ (
      Frame.Reads-word 2 (length collection) _ (omega arith) (
        Frame.Reads-checked collection invalid_doc_index _ (
          Frame.Reads-need_word 2 (length field) _ _ _ (
            Frame.Reads-word 2 (length field) _ (omega arith)
              (Frame.Reads-checked_last field invalid_doc_index _))))))
