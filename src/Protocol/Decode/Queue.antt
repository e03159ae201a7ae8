-- ===== src/Protocol/Decode/Queue.antt =====
-- internal/net/protocol.go: the decoder of QPUSH; the other queue requests are simple requests.
use flin.Prelude.{◌+◌}
use flin.Wire.Outcome.{Bytes, Outcome, Error, message}
use flin.Wire.Reader.{◌>>=◌, ◌>>◌, pure, need, uint, bytes, run}
use flin.Protocol.Types.{Request, new_request, op_qpush}

abbrev pub invalid_qpush : Error
invalid_qpush = message "invalid QPUSH payload"

-- The queue's name stands in the field `key`.
unfoldable pub decode_qpush_request : Bytes → Outcome Request
decode_qpush_request = run do
  need 6 invalid_qpush
  name_len ← uint 2
  need (name_len + 4) invalid_qpush
  name ← bytes name_len
  value_len ← uint 4
  need value_len invalid_qpush
  value ← bytes value_len
  pure (record (new_request op_qpush) { key = name; value = value })
