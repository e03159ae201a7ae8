-- ===== src/Protocol/RoundTrip/Queue.antt =====
-- The QPUSH request: what the encoder writes, the decoder reads back. The other queue requests are
-- simple requests.
use flin.Prelude.{ℕ, ◌+◌, ◌^◌, ◌<◌, ◌≡◌, length, length-append, arith}
use flin.Wire.Outcome.{Bytes, ok}
use flin.Wire.Reader.{Reads-need}
use flin.Protocol.Types.{new_request, op_qpush}
use flin.Protocol.Encode.Queue.{encode_qpush_request}
use flin.Protocol.Decode.Queue.{decode_qpush_request, invalid_qpush}
use flin.Protocol.Frame
use flin.Protocol.RoundTrip.Kv.{writes, pair_payload, length-pair_payload}

pub encode_qpush-framed :
    (queue_name value : Bytes)
    → encode_qpush_request queue_name value
      ≡ ok (Frame.framed op_qpush (pair_payload queue_name value))
unfolding encode_qpush_request
encode_qpush-framed name value =
    Frame.make-framed _ _ op_qpush _ (pair_payload name value) (search writes)
      (omega (arith, length-pair_payload name value))
      (omega (arith, length-pair_payload name value))

pub decode_qpush-payload :
    (queue_name value : Bytes)
    → length queue_name < 2 ^ 16
    → length value < 2 ^ 32
    → decode_qpush_request (pair_payload queue_name value)
      ≡ ok (record (new_request op_qpush) { key = queue_name; value = value })
unfolding decode_qpush_request
decode_qpush-payload name value hk hv = Frame.run-Reads_all _ _ (
    Reads-need 6 _ _ (omega (arith, length-pair_payload name value)) (
      Frame.Reads-word 2 (length name) _ (omega arith) (
        Reads-need (length name + 4) _ _
          (omega (arith, length-append {0} {A = ℕ}, Frame.length-word))
          (Frame.Reads-chunk name _ (
            Frame.Reads-word 4 (length value) _ (omega arith)
              (Frame.Reads-checked_last value invalid_qpush _))))))
