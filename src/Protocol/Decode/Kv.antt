-- ===== src/Protocol/Decode/Kv.antt =====
-- internal/net/protocol.go: the decoders of the key-value requests.
use flin.Prelude.{ℕ, zero, suc, ◌+◌, ◌%◌, ◌^◌, List, [], ◌∷◌, ◌++◌, ltb, if◌then◌else◌, length}
use flin.Wire.Outcome.{Bytes, Outcome, Error, message, ok, err, then_do}
use flin.Wire.Reader.{Reader, ◌>>=◌, ◌>>◌, pure, need, uint, bytes, run, slice}
use flin.Protocol.Types.{Request, new_request, op_set, op_mset}

abbrev pub invalid_set : Error
invalid_set = message "invalid SET payload"

unfoldable pub decode_set_request : Bytes → Outcome Request
decode_set_request = run do
  need 6 invalid_set
  key_len ← uint 2
  need (key_len + 4) invalid_set
  key ← bytes key_len
  value_len ← uint 4
  need value_len invalid_set
  value ← bytes value_len
  pure (record (new_request op_set) { key = key; value = value })

abbrev pub invalid_payload : Error
invalid_payload = message "invalid payload"

-- `2 + keyLen` is computed in uint16.
unfoldable pub decode_simple_request : ℕ → Bytes → Outcome Request
decode_simple_request op_code payload =
    if ltb (length payload) 2
    then err invalid_payload
    else then_do (run (uint 2) payload) λ key_len.
      let end = (2 + key_len) % 2 ^ 16 in
      if ltb (length payload) end
      then err invalid_payload
      else then_do (slice payload 2 end) λ key. ok (record (new_request op_code) { key = key })

abbrev pub invalid_mset : Error
invalid_mset = message "invalid MSET payload"

-- The loop of `decodeMSetRequest`, with the rounds left and `req.Keys`, `req.Values` so far.
unfoldable pub read_pairs : ℕ → List Bytes → List Bytes → Reader (List Bytes × List Bytes)
read_pairs zero keys values = pure (keys, values)
read_pairs (suc rounds) keys values = do
  need 2 invalid_mset
  key_len ← uint 2
  need (key_len + 4) invalid_mset
  key ← bytes key_len
  value_len ← uint 4
  need value_len invalid_mset
  value ← bytes value_len
  read_pairs rounds (keys ++ key ∷ []) (values ++ value ∷ [])

unfoldable pub decode_mset_request : Bytes → Outcome Request
decode_mset_request = run do
  need 2 invalid_mset
  count ← uint 2
  pairs ← read_pairs count [] []
  pure (record (new_request op_mset) { keys = pairs.0; values = pairs.1 })

abbrev pub invalid_batch : Error
invalid_batch = message "invalid batch payload"

unfoldable pub read_keys : ℕ → List Bytes → Reader (List Bytes)
read_keys zero keys = pure keys
read_keys (suc rounds) keys = do
  need 2 invalid_batch
  key_len ← uint 2
  need key_len invalid_batch
  key ← bytes key_len
  read_keys rounds (keys ++ key ∷ [])

unfoldable pub decode_mget_request : ℕ → Bytes → Outcome Request
decode_mget_request op_code = run do
  need 2 invalid_batch
  count ← uint 2
  keys ← read_keys count []
  pure (record (new_request op_code) { keys = keys })
