-- ===== src/Examples/Protocol.antt =====
-- internal/net/protocol.go at concrete inputs.
use flin.Prelude.{◌≡◌, ◌↔◌, ◌⊎◌, List, [], ◌∷◌, ◌++◌, arith}
use flin.Wire.Outcome.{Bytes, ok, err, message, panic, then_do}
use flin.Wire.BigEndian.{put_be}
use flin.Protocol.Types.{BatchMessage, new_request, op_get, op_spublish_batch}
use flin.Protocol.Decode.Frame.{decode_request}
use flin.Protocol.Decode.Response.{decode_response}
use flin.Protocol.Decode.Stream.{decode_spublish_batch_request}
use flin.Protocol.Encode.Stream.{encode_spublish_batch_request}
use flin.Protocol.Commands.Kv
use flin.Protocol.Commands.Kv.{encode_kv, kv_request, decode-encode_kv}
use flin.Protocol.Commands.Queue
use flin.Protocol.Commands.Queue.{encode_queue, queue_request, decode-encode_queue}
use flin.Protocol.Commands.Stream
use flin.Protocol.Commands.Stream.{encode_stream, stream_request, decode-encode_stream}
use flin.Protocol.Commands.Doc
use flin.Protocol.Commands.Doc.{encode_doc, doc_request, decode-encode_doc}
use flin.Protocol.RoundTrip.Response
use flin.Protocol.RoundTrip.Response.{encode_reply, reply_response, decode-encode_reply}
use flin.Protocol.RoundTrip.PublishBatch.{
  batch_payload, decode_spublish_batch-payload, decode-encode_spublish_batch_refused,
}
use flin.Protocol.Safety.Panics.{FrameWraps, SimpleWraps, decode_request-panic_iff}

abbrev two_pairs : Kv.KvCommand
two_pairs = Kv.KvCommand.mset ((97 ∷ []) ∷ (98 ∷ 99 ∷ []) ∷ []) ((1 ∷ []) ∷ [] ∷ [])

decode-encode_kv_example :
    then_do (encode_kv two_pairs) (λ frame. decode_request (frame ++ 7 ∷ []))
    ≡ ok (kv_request two_pairs)
unfolding put_be
decode-encode_kv_example = decode-encode_kv two_pairs (7 ∷ []) (omega arith)

abbrev push_job : Queue.QueueCommand
push_job = Queue.QueueCommand.push (106 ∷ []) (1 ∷ 2 ∷ [])

decode-encode_queue_example :
    then_do (encode_queue push_job) (λ frame. decode_request (frame ++ []))
    ≡ ok (queue_request push_job)
unfolding put_be
decode-encode_queue_example = decode-encode_queue push_job [] (omega arith)

abbrev commit_offset : Stream.StreamCommand
commit_offset = Stream.StreamCommand.commit (116 ∷ []) (103 ∷ []) 3 41

decode-encode_stream_example :
    then_do (encode_stream commit_offset) (λ frame. decode_request (frame ++ 0 ∷ []))
    ≡ ok (stream_request commit_offset)
unfolding put_be
decode-encode_stream_example = decode-encode_stream commit_offset (0 ∷ []) (omega arith)

abbrev make_index : Doc.DocCommand
make_index = Doc.DocCommand.index (117 ∷ []) (97 ∷ 98 ∷ [])

decode-encode_doc_example :
    then_do (encode_doc make_index) (λ frame. decode_request (frame ++ []))
    ≡ ok (doc_request make_index)
unfolding put_be
decode-encode_doc_example = decode-encode_doc make_index [] (omega arith)

abbrev two_values : Response.Reply
two_values = Response.Reply.multi_value ((1 ∷ 2 ∷ []) ∷ [] ∷ [])

decode-encode_reply_example :
    then_do (encode_reply two_values) (λ frame. decode_response (frame ++ 9 ∷ []))
    ≡ ok (reply_response two_values)
unfolding put_be
decode-encode_reply_example = decode-encode_reply two_values (9 ∷ []) (omega arith)

-- A frame of GET whose payload declares a key of 65534 bytes.
abbrev long_key : Bytes
long_key = 0 ∷ 0 ∷ 0 ∷ 2 ∷ 255 ∷ 254 ∷ []

decode_request-panic_iff_example :
    (decode_request (op_get ∷ long_key) ≡ panic)
    ↔ (FrameWraps long_key ⊎ SimpleWraps op_get long_key)
decode_request-panic_iff_example = decode_request-panic_iff op_get long_key (omega arith)

abbrev batch : List BatchMessage
batch = record { partition = 1; key = 107 ∷ []; value = 5 ∷ 6 ∷ [] } ∷ []

decode_spublish_batch-payload_example :
    decode_spublish_batch_request (batch_payload (116 ∷ []) batch)
    ≡ ok (record (new_request op_spublish_batch) { topic = 116 ∷ []; batch_messages = batch })
decode_spublish_batch-payload_example =
    decode_spublish_batch-payload (116 ∷ []) batch (omega arith) (omega arith) (omega arith)

decode-encode_spublish_batch_refused_example :
    then_do (encode_spublish_batch_request (116 ∷ []) batch) decode_request
    ≡ err (message "incomplete request")
unfolding put_be
decode-encode_spublish_batch_refused_example =
    decode-encode_spublish_batch_refused (116 ∷ []) batch (omega arith) (omega arith) (omega arith)
      (omega arith)
