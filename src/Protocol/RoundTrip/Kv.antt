-- ===== src/Protocol/RoundTrip/Kv.antt =====
-- The key-value requests on one key: what the encoders write, the decoder reads back.
use native.Mathlib.Nat.{mod-eq_of_lt}
use flin.Prelude.{
  ℕ, ◌+◌, ◌%◌, ◌^◌, ◌<◌, ◌≡◌, refl, sym, ap, [], ◌++◌, append-nil, length, length-append, ge→ltb,
  arith,
}
use flin.Wire.Outcome.{Bytes, ok}
use flin.Wire.BigEndian.{put_be, length-put_be}
use flin.Wire.Reader.{Reads-need, Reads-uint, run-Reads, slice-Stands, uint}
use flin.Wire.Writer.{Writes-seq, Writes-uint, Writes-copy}
use flin.Protocol.Types.{new_request, op_set, op_get}
use flin.Protocol.Encode.Kv.{encode_set_request, encode_get_request, encode_simple_request}
use flin.Protocol.Decode.Kv.{decode_set_request, decode_simple_request, invalid_set}
use flin.Protocol.Frame

pub ruleset writes = (Writes-seq, Writes-uint, Writes-copy)

abbrev pub pair_payload : Bytes → Bytes → Bytes
pair_payload key value = put_be 2 (length key) ++ (key ++ (put_be 4 (length value) ++ value))

abbrev pub key_payload : Bytes → Bytes
key_payload key = put_be 2 (length key) ++ key

pub length-pair_payload :
    (key value : Bytes) → length (pair_payload key value) ≡ 6 + length key + length value
length-pair_payload key value = omega (arith, length-append {0} {A = ℕ}, Frame.length-word)

pub encode_set-framed :
    (key value : Bytes)
    → encode_set_request key value ≡ ok (Frame.framed op_set (pair_payload key value))
unfolding encode_set_request
encode_set-framed key value =
    Frame.make-framed _ _ op_set _ (pair_payload key value) (search writes)
      (omega (arith, length-pair_payload key value)) (omega (arith, length-pair_payload key value))

pub decode_set-payload :
    (key value : Bytes)
    → length key < 2 ^ 16
    → length value < 2 ^ 32
    → decode_set_request (pair_payload key value)
      ≡ ok (record (new_request op_set) { key = key; value = value })
unfolding decode_set_request
decode_set-payload key value hk hv = Frame.run-Reads_all _ _ (
    Reads-need 6 _ _ (omega (arith, length-pair_payload key value)) (
      Frame.Reads-word 2 (length key) _ (omega arith) (
        Reads-need (length key + 4) _ _
          (omega (arith, length-append {0} {A = ℕ}, Frame.length-word))
          (Frame.Reads-chunk key _ (
            Frame.Reads-word 4 (length value) _ (omega arith)
              (Frame.Reads-checked_last value invalid_set _))))))

pub encode_simple-framed :
    (op : ℕ) (key : Bytes) → encode_simple_request op key ≡ ok (Frame.framed op (key_payload key))
unfolding encode_simple_request
encode_simple-framed op key =
    Frame.make-framed _ _ op _ (key_payload key) (search writes) (omega (arith, Frame.length-word))
      (omega (arith, Frame.length-word))

pub encode_get-framed :
    (key : Bytes) → encode_get_request key ≡ ok (Frame.framed op_get (key_payload key))
unfolding encode_get_request
encode_get-framed key =
    Frame.make-framed _ _ op_get _ (key_payload key) (search writes)
      (omega (arith, Frame.length-word)) (omega (arith, Frame.length-word))

pub decode_simple-payload :
    (op : ℕ) (key : Bytes)
    → length key + 2 < 2 ^ 16
    → decode_simple_request op (key_payload key) ≡ ok (record (new_request op) { key = key })
unfolding decode_simple_request
decode_simple-payload op key h =
    let fits : (2 + length key) % 2 ^ 16 ≡ 2 + length key = mod-eq_of_lt (omega arith) in
    rw (
      ge→ltb (length (key_payload key)) 2 (omega (arith, Frame.length-word)),
      run-Reads (uint 2) (put_be 2 (length key)) key (Reads-uint 2 (length key) (omega arith)),
      fits,
      ge→ltb (length (key_payload key)) (2 + length key) (omega (arith, Frame.length-word)),
      slice-Stands (key_payload key) 2 (2 + length key) key []
          (record {
            front = put_be 2 (length key);
            whole = ap (◌++◌ (put_be 2 (length key))) (sym (append-nil key));
            here = omega (arith, length-put_be 2 (length key));
          })
          refl,
    )
