-- ===== src/Protocol/Safety/Doc.antt =====
-- The decoders of the document requests never read out of range.
use flin.Prelude.{◌≢◌}
use flin.Wire.Outcome.{Bytes, panic}
use flin.Wire.Reader.{Safe-pure, Safe-string, run-Safe}
use flin.Protocol.Decode.Doc.{
  decode_doc_insert_request, decode_doc_find_request, decode_doc_update_request,
  decode_doc_delete_request, decode_doc_index_request,
}

pub decode_doc_insert-ne-panic : (payload : Bytes) → decode_doc_insert_request payload ≢ panic
unfolding decode_doc_insert_request
decode_doc_insert-ne-panic payload =
    run-Safe _ payload (Safe-string 0 2 _ _ _ λ _. (Safe-string 0 4 _ _ _ λ _. (Safe-pure 0 _)))

pub decode_doc_find-ne-panic : (payload : Bytes) → decode_doc_find_request payload ≢ panic
unfolding decode_doc_find_request
decode_doc_find-ne-panic payload =
    run-Safe _ payload (Safe-string 0 2 _ _ _ λ _. (Safe-string 0 4 _ _ _ λ _. (Safe-pure 0 _)))

pub decode_doc_update-ne-panic : (payload : Bytes) → decode_doc_update_request payload ≢ panic
unfolding decode_doc_update_request
decode_doc_update-ne-panic payload =
    run-Safe _ payload (Safe-string 0 2 _ _ _ λ _. (Safe-string 0 4 _ _ _ λ _. (Safe-pure 0 _)))

pub decode_doc_delete-ne-panic : (payload : Bytes) → decode_doc_delete_request payload ≢ panic
unfolding decode_doc_delete_request
decode_doc_delete-ne-panic payload =
    run-Safe _ payload (Safe-string 0 2 _ _ _ λ _. (Safe-string 0 4 _ _ _ λ _. (Safe-pure 0 _)))

pub decode_doc_index-ne-panic : (payload : Bytes) → decode_doc_index_request payload ≢ panic
unfolding decode_doc_index_request
decode_doc_index-ne-panic payload =
    run-Safe _ payload (Safe-string 0 2 _ _ _ λ _. (Safe-string 0 2 _ _ _ λ _. (Safe-pure 0 _)))
