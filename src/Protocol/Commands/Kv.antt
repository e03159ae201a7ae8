-- ===== src/Protocol/Commands/Kv.antt =====
-- The key-value commands.
use flin.Prelude.{◌+◌, ◌^◌, ◌<◌, ◌≡◌, List, ◌++◌, length}
use flin.Wire.Outcome.{Bytes, Outcome, ok, then_do}
use flin.Protocol.Types.{
  Request, new_request, op_set, op_get, op_del, op_exists, op_incr, op_decr, op_mset, op_mget,
  op_mdel,
}
use flin.Protocol.Frame.{FitsFrame, through_frame}
use flin.Protocol.Decode.Frame.{decode_payload, decode_request}
use flin.Protocol.Encode.Kv.{
  encode_set_request, encode_get_request, encode_delete_request, encode_exists_request,
  encode_incr_request, encode_decr_request, encode_mset_request, encode_mget_request,
  encode_mdelete_request,
}
use flin.Protocol.RoundTrip.Kv.{
  pair_payload, key_payload, encode_set-framed, decode_set-payload, encode_get-framed,
  encode_simple-framed, decode_simple-payload,
}
use flin.Protocol.RoundTrip.Batch.{
  PairsFit, KeysFit, mset_payload, mget_payload, encode_mset-framed, decode_mset-payload,
  encode_mget-framed, encode_mdelete-framed, decode_mget-payload,
}

pub data KvCommand : Type 0 where
  set : Bytes → Bytes → KvCommand
  get : Bytes → KvCommand
  delete : Bytes → KvCommand
  exists : Bytes → KvCommand
  incr : Bytes → KvCommand
  decr : Bytes → KvCommand
  mset : List Bytes → List Bytes → KvCommand
  mget : List Bytes → KvCommand
  mdelete : List Bytes → KvCommand

-- The client calls the encoder of the operation.
unfoldable pub encode_kv : KvCommand → Outcome Bytes
encode_kv (set key value) = encode_set_request key value
encode_kv (get key) = encode_get_request key
encode_kv (delete key) = encode_delete_request key
encode_kv (exists key) = encode_exists_request key
encode_kv (incr key) = encode_incr_request key
encode_kv (decr key) = encode_decr_request key
encode_kv (mset keys values) = encode_mset_request keys values
encode_kv (mget keys) = encode_mget_request keys
encode_kv (mdelete keys) = encode_mdelete_request keys

-- The request that the server is meant to see.
abbrev pub kv_request : KvCommand → Request
kv_request (set key value) = record (new_request op_set) { key = key; value = value }
kv_request (get key) = record (new_request op_get) { key = key }
kv_request (delete key) = record (new_request op_del) { key = key }
kv_request (exists key) = record (new_request op_exists) { key = key }
kv_request (incr key) = record (new_request op_incr) { key = key }
kv_request (decr key) = record (new_request op_decr) { key = key }
kv_request (mset keys values) = record (new_request op_mset) { keys = keys; values = values }
kv_request (mget keys) = record (new_request op_mget) { keys = keys }
kv_request (mdelete keys) = record (new_request op_mdel) { keys = keys }

abbrev pub kv_payload : KvCommand → Bytes
kv_payload (set key value) = pair_payload key value
kv_payload (get key) = key_payload key
kv_payload (delete key) = key_payload key
kv_payload (exists key) = key_payload key
kv_payload (incr key) = key_payload key
kv_payload (decr key) = key_payload key
kv_payload (mset keys values) = mset_payload keys values
kv_payload (mget keys) = mget_payload keys
kv_payload (mdelete keys) = mget_payload keys

-- Each field fits the width of its length or its number.
abbrev pub KvFieldsFit : KvCommand → Type 0
KvFieldsFit (set key value) = (length key < 2 ^ 16) × (length value < 2 ^ 32)
KvFieldsFit (get key) = length key + 2 < 2 ^ 16
KvFieldsFit (delete key) = length key + 2 < 2 ^ 16
KvFieldsFit (exists key) = length key + 2 < 2 ^ 16
KvFieldsFit (incr key) = length key + 2 < 2 ^ 16
KvFieldsFit (decr key) = length key + 2 < 2 ^ 16
KvFieldsFit (mset keys values) = PairsFit keys values × (length keys < 2 ^ 16)
KvFieldsFit (mget keys) = KeysFit keys × (length keys < 2 ^ 16)
KvFieldsFit (mdelete keys) = KeysFit keys × (length keys < 2 ^ 16)

abbrev pub KvFits : KvCommand → Type 0
KvFits c = FitsFrame (kv_payload c) × KvFieldsFit c

-- Whatever command is sent and whatever bytes follow it, the server decodes the request that was
-- encoded, if the payload and the fields fit their widths and the key of a command that has nothing
-- but a key is at most 65533 bytes long.
pub decode-encode_kv :
    (c : KvCommand) (rest : Bytes)
    → KvFits c
    → then_do (encode_kv c) (λ frame. decode_request (frame ++ rest)) ≡ ok (kv_request c)
unfolding encode_kv decode_payload encode_delete_request encode_exists_request encode_incr_request
    encode_decr_request
decode-encode_kv (set key value) rest (h, f) =
    through_frame op_set (pair_payload key value) rest (encode_set-framed key value) h
      (decode_set-payload key value f.0 f.1)
decode-encode_kv (get key) rest (h, f) =
    through_frame op_get (key_payload key) rest (encode_get-framed key) h
      (decode_simple-payload op_get key f)
decode-encode_kv (delete key) rest (h, f) =
    through_frame op_del (key_payload key) rest (encode_simple-framed op_del key) h
      (decode_simple-payload op_del key f)
decode-encode_kv (exists key) rest (h, f) =
    through_frame op_exists (key_payload key) rest (encode_simple-framed op_exists key) h
      (decode_simple-payload op_exists key f)
decode-encode_kv (incr key) rest (h, f) =
    through_frame op_incr (key_payload key) rest (encode_simple-framed op_incr key) h
      (decode_simple-payload op_incr key f)
decode-encode_kv (decr key) rest (h, f) =
    through_frame op_decr (key_payload key) rest (encode_simple-framed op_decr key) h
      (decode_simple-payload op_decr key f)
decode-encode_kv (mset keys values) rest (h, f) =
    through_frame op_mset (mset_payload keys values) rest (encode_mset-framed keys values f.0) h
      (decode_mset-payload keys values f.0 f.1)
decode-encode_kv (mget keys) rest (h, f) =
    through_frame op_mget (mget_payload keys) rest (encode_mget-framed keys) h
      (decode_mget-payload op_mget keys f.0 f.1)
decode-encode_kv (mdelete keys) rest (h, f) =
    through_frame op_mdel (mget_payload keys) rest (encode_mdelete-framed keys) h
      (decode_mget-payload op_mdel keys f.0 f.1)
