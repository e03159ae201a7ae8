-- ===== src/Protocol/Commands/Queue.antt =====
-- The queue commands.
use flin.Prelude.{◌+◌, ◌^◌, ◌<◌, ◌≡◌, ◌++◌, length}
use flin.Wire.Outcome.{Bytes, Outcome, ok, then_do}
use flin.Protocol.Types.{Request, new_request, op_qpush, op_qpop, op_qpeek, op_qlen, op_qclear}
use flin.Protocol.Frame.{FitsFrame, through_frame}
use flin.Protocol.Decode.Frame.{decode_payload, decode_request}
use flin.Protocol.Encode.Queue.{
  encode_qpush_request, encode_qpop_request, encode_qpeek_request, encode_qlen_request,
  encode_qclear_request,
}
use flin.Protocol.RoundTrip.Kv.{
  pair_payload, key_payload, encode_simple-framed, decode_simple-payload,
}
use flin.Protocol.RoundTrip.Queue.{encode_qpush-framed, decode_qpush-payload}

pub data QueueCommand : Type 0 where
  push : Bytes → Bytes → QueueCommand
  pop : Bytes → QueueCommand
  peek : Bytes → QueueCommand
  len : Bytes → QueueCommand
  clear : Bytes → QueueCommand

-- The client calls the encoder of the operation.
unfoldable pub encode_queue : QueueCommand → Outcome Bytes
encode_queue (push queue_name value) = encode_qpush_request queue_name value
encode_queue (pop queue_name) = encode_qpop_request queue_name
encode_queue (peek queue_name) = encode_qpeek_request queue_name
encode_queue (len queue_name) = encode_qlen_request queue_name
encode_queue (clear queue_name) = encode_qclear_request queue_name

-- The request that the server is meant to see.
abbrev pub queue_request : QueueCommand → Request
queue_request (push queue_name value) = record (new_request op_qpush) {
  key = queue_name;
  value = value;
}
queue_request (pop queue_name) = record (new_request op_qpop) { key = queue_name }
queue_request (peek queue_name) = record (new_request op_qpeek) { key = queue_name }
queue_request (len queue_name) = record (new_request op_qlen) { key = queue_name }
queue_request (clear queue_name) = record (new_request op_qclear) { key = queue_name }

abbrev pub queue_payload : QueueCommand → Bytes
queue_payload (push queue_name value) = pair_payload queue_name value
queue_payload (pop queue_name) = key_payload queue_name
queue_payload (peek queue_name) = key_payload queue_name
queue_payload (len queue_name) = key_payload queue_name
queue_payload (clear queue_name) = key_payload queue_name

-- Each field fits the width of its length or its number.
abbrev pub QueueFieldsFit : QueueCommand → Type 0
QueueFieldsFit (push queue_name value) = (length queue_name < 2 ^ 16) × (length value < 2 ^ 32)
QueueFieldsFit (pop queue_name) = length queue_name + 2 < 2 ^ 16
QueueFieldsFit (peek queue_name) = length queue_name + 2 < 2 ^ 16
QueueFieldsFit (len queue_name) = length queue_name + 2 < 2 ^ 16
QueueFieldsFit (clear queue_name) = length queue_name + 2 < 2 ^ 16

abbrev pub QueueFits : QueueCommand → Type 0
QueueFits c = FitsFrame (queue_payload c) × QueueFieldsFit c

-- Whatever command is sent and whatever bytes follow it, the server decodes the request that was
-- encoded, if the payload and the fields fit their widths and the queue name of a command that has
-- nothing but a name is at most 65533 bytes long.
pub decode-encode_queue :
    (c : QueueCommand) (rest : Bytes)
    → QueueFits c
    → then_do (encode_queue c) (λ frame. decode_request (frame ++ rest)) ≡ ok (queue_request c)
unfolding encode_queue decode_payload encode_qpop_request encode_qpeek_request encode_qlen_request
    encode_qclear_request
decode-encode_queue (push queue_name value) rest (h, f) =
    through_frame op_qpush (pair_payload queue_name value) rest
      (encode_qpush-framed queue_name value) h (decode_qpush-payload queue_name value f.0 f.1)
decode-encode_queue (pop queue_name) rest (h, f) =
    through_frame op_qpop (key_payload queue_name) rest (encode_simple-framed op_qpop queue_name) h
      (decode_simple-payload op_qpop queue_name f)
decode-encode_queue (peek queue_name) rest (h, f) =
    through_frame op_qpeek (key_payload queue_name) rest (encode_simple-framed op_qpeek queue_name)
      h (decode_simple-payload op_qpeek queue_name f)
decode-encode_queue (len queue_name) rest (h, f) =
    through_frame op_qlen (key_payload queue_name) rest (encode_simple-framed op_qlen queue_name) h
      (decode_simple-payload op_qlen queue_name f)
decode-encode_queue (clear queue_name) rest (h, f) =
    through_frame op_qclear (key_payload queue_name) rest
      (encode_simple-framed op_qclear queue_name) h (decode_simple-payload op_qclear queue_name f)
