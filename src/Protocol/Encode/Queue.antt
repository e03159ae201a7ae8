-- ===== src/Protocol/Encode/Queue.antt =====
-- internal/net/protocol.go: the encoders of the queue requests.
use flin.Prelude.{◌+◌, length}
use flin.Wire.Outcome.{Bytes, Outcome}
use flin.Wire.Writer.{◌>>◌, set_byte, put_uint, copy_bytes, make}
use flin.Protocol.Types.{op_qpush, op_qpop, op_qpeek, op_qlen, op_qclear}
use flin.Protocol.Encode.Kv.{encode_simple_request}

unfoldable pub encode_qpush_request : Bytes → Bytes → Outcome Bytes
encode_qpush_request queue_name value =
    let name_len = length queue_name in
    let value_len = length value in
    make (1 + 4 + 2 + name_len + 4 + value_len) do
      set_byte op_qpush
      put_uint 4 (2 + name_len + 4 + value_len)
      put_uint 2 name_len
      copy_bytes queue_name
      put_uint 4 value_len
      copy_bytes value

unfoldable pub encode_qpop_request : Bytes → Outcome Bytes
encode_qpop_request queue_name = encode_simple_request op_qpop queue_name

unfoldable pub encode_qpeek_request : Bytes → Outcome Bytes
encode_qpeek_request queue_name = encode_simple_request op_qpeek queue_name

unfoldable pub encode_qlen_request : Bytes → Outcome Bytes
encode_qlen_request queue_name = encode_simple_request op_qlen queue_name

unfoldable pub encode_qclear_request : Bytes → Outcome Bytes
encode_qclear_request queue_name = encode_simple_request op_qclear queue_name
