-- ===== src/Protocol/Decode/Response.antt =====
-- internal/net/protocol.go: `DecodeResponse`.
use flin.Prelude.{
  ℕ, zero, suc, ◌+◌, ◌%◌, ◌^◌, ◌==◌, List, [], ◌∷◌, ◌++◌, ltb, if◌then◌else◌, length,
}
use flin.Wire.Outcome.{Bytes, Outcome, Error, message, message_with, ok, err, then_do}
use flin.Wire.Reader.{Reader, ◌>>=◌, ◌>>◌, pure, need, uint, bytes, run, slice}
use flin.Protocol.Types.{
  Response, new_response, status_ok, status_error, status_not_found, status_multi_value,
}

abbrev pub invalid_multi_value : Error
invalid_multi_value = message "invalid multi-value response"

unfoldable pub read_values : ℕ → List Bytes → Reader (List Bytes)
read_values zero values = pure values
read_values (suc rounds) values = do
  need 4 invalid_multi_value
  value_len ← uint 4
  need value_len invalid_multi_value
  value ← bytes value_len
  read_values rounds (values ++ value ∷ [])

unfoldable pub decode_multi_value_response : Bytes → Outcome Response
decode_multi_value_response = run do
  need 2 invalid_multi_value
  count ← uint 2
  values ← read_values count []
  pure (record (new_response status_multi_value) { values = values })

-- The switch on the status. With an empty payload `resp.Value` stays nil, which has no bytes.
unfoldable pub decode_response_payload : ℕ → Bytes → Outcome Response
decode_response_payload status payload =
    if status == status_ok
    then ok (record (new_response status) { value = payload })
    else if status == status_error
    then ok (record (new_response status) { error = payload })
    else if status == status_multi_value
    then decode_multi_value_response payload
    else if status == status_not_found
    then ok (new_response status)
    else err (message_with "unknown status: " status)

-- `5 + payloadLen` is computed in uint32.
unfoldable pub decode_response : Bytes → Outcome Response
decode_response [] = err (message "response too short")
decode_response (status ∷ tail) =
    if ltb (length (status ∷ tail)) 5
    then err (message "response too short")
    else then_do (run (uint 4) tail) λ payload_len.
      let end = (5 + payload_len) % 2 ^ 32 in
      if ltb (length (status ∷ tail)) end
      then err (message "incomplete response")
      else then_do (slice (status ∷ tail) 5 end) (decode_response_payload status)
