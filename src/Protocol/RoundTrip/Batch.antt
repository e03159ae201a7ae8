-- ===== src/Protocol/RoundTrip/Batch.antt =====
-- The batch requests: what the encoders write, the decoder reads back.
use flin.Prelude.{
  ℕ, suc, true, ◌+◌, ◌^◌, ◌<◌, ◌≡◌, refl, ap, ◌==◌, List, [], ◌∷◌, ◌++◌, append-nil, append_assoc,
  length, length-append, arith,
}
use flin.Wire.Outcome.{Bytes, ok}
use flin.Wire.BigEndian.{put_be}
use flin.Wire.Reader.{Reads, Reads-need, Reads-pure, Reads-last}
use flin.Wire.Writer.{Writes, Writes-skip}
use flin.Protocol.Types.{new_request, op_mset, op_mget, op_mdel}
use flin.Protocol.Encode.Kv.{
  encode_mset_request, encode_mget_request, encode_mdelete_request, add_pair_sizes, put_pairs,
  add_key_sizes, put_keys,
}
use flin.Protocol.Decode.Kv.{
  decode_mset_request, decode_mget_request, read_pairs, read_keys, invalid_batch, invalid_mset,
}
use flin.Protocol.Frame

-- As many values as keys, each of a length that its field holds.
abbrev pub PairsFit : List Bytes → List Bytes → Type 0
PairsFit [] [] = Unit
PairsFit [] (value ∷ values) = ⊥
PairsFit (key ∷ keys) [] = ⊥
PairsFit (key ∷ keys) (value ∷ values) =
    (length key < 2 ^ 16) × (length value < 2 ^ 32) × PairsFit keys values

abbrev pub KeysFit : List Bytes → Type 0
KeysFit [] = Unit
KeysFit (key ∷ keys) = (length key < 2 ^ 16) × KeysFit keys

abbrev pub pairs_bytes : List Bytes → List Bytes → Bytes
pairs_bytes [] values = []
pairs_bytes (key ∷ keys) [] = []
pairs_bytes (key ∷ keys) (value ∷ values) =
    put_be 2 (length key)
    ++ (key ++ (put_be 4 (length value) ++ (value ++ pairs_bytes keys values)))

abbrev pub keys_bytes : List Bytes → Bytes
keys_bytes [] = []
keys_bytes (key ∷ keys) = put_be 2 (length key) ++ (key ++ keys_bytes keys)

abbrev pub mset_payload : List Bytes → List Bytes → Bytes
mset_payload keys values = put_be 2 (length keys) ++ pairs_bytes keys values

abbrev pub mget_payload : List Bytes → Bytes
mget_payload keys = put_be 2 (length keys) ++ keys_bytes keys

PairsFit-length : (keys values : List Bytes) → PairsFit keys values → length keys ≡ length values
PairsFit-length [] [] h = refl
PairsFit-length [] (value ∷ values) h = absurd h
PairsFit-length (key ∷ keys) [] h = absurd h
PairsFit-length (key ∷ keys) (value ∷ values) (hk, hv, h) = ap suc (PairsFit-length keys values h)

put_pairs-Writes :
    (keys values : List Bytes)
    → PairsFit keys values
    → Writes (put_pairs keys values) (pairs_bytes keys values)
unfolding put_pairs
put_pairs-Writes [] [] h = Writes-skip
put_pairs-Writes [] (value ∷ values) h = absurd h
put_pairs-Writes (key ∷ keys) [] h = absurd h
put_pairs-Writes (key ∷ keys) (value ∷ values) (hk, hv, h) =
    Frame.Writes-string 2 key _ (Frame.Writes-string 4 value _ (put_pairs-Writes keys values h))

add_pair_sizes_lem :
    (total : ℕ) (keys values : List Bytes)
    → add_pair_sizes total keys values ≡ total + length (pairs_bytes keys values)
unfolding add_pair_sizes
add_pair_sizes_lem total [] values = omega arith
add_pair_sizes_lem total (key ∷ keys) [] = omega arith
add_pair_sizes_lem total (key ∷ keys) (value ∷ values) = omega (
  arith,
  add_pair_sizes_lem (total + (2 + length key + 4 + length value)) keys values,
  length-append {0} {A = ℕ},
  Frame.length-word,
)

pub encode_mset-framed :
    (keys values : List Bytes)
    → PairsFit keys values
    → encode_mset_request keys values ≡ ok (Frame.framed op_mset (mset_payload keys values))
unfolding encode_mset_request
encode_mset-framed keys values h =
    let sizes = add_pair_sizes_lem (1 + 4 + 2) keys values in
    let same : (length keys == length values) ≡ true =
      ground (arith, PairsFit-length keys values h) in
    rw same (
      Frame.make-framed _ _ op_mset _ (mset_payload keys values)
        (Frame.Writes-word 2 (length keys) _ (put_pairs-Writes keys values h))
        (omega (arith, sizes, Frame.length-word)) (omega (arith, sizes, Frame.length-word)))

read_pairs-Reads :
    (keys values ks vs : List Bytes)
    → PairsFit ks vs
    → Reads (read_pairs (length ks) keys values) (pairs_bytes ks vs) (keys ++ ks, values ++ vs)
unfolding read_pairs
read_pairs-Reads keys values [] [] h =
    rw (append-nil keys, append-nil values) (Reads-pure (keys, values))
read_pairs-Reads keys values [] (v ∷ vs) h = absurd h
read_pairs-Reads keys values (k ∷ ks) [] h = absurd h
read_pairs-Reads keys values (k ∷ ks) (v ∷ vs) (hk, hv, h) =
    Frame.Reads-need_word 2 (length k) _ _ _ (
      Frame.Reads-word 2 (length k) _ (omega arith) (
        Reads-need (length k + 4) _ _ (omega (arith, length-append {0} {A = ℕ}, Frame.length-word))
          (Frame.Reads-chunk k _ (
            Frame.Reads-word 4 (length v) _ (omega arith) (
              Frame.Reads-checked v invalid_mset _ (
                rw (append_assoc keys (k ∷ []) ks, append_assoc values (v ∷ []) vs) at
                  (read_pairs-Reads (keys ++ k ∷ []) (values ++ v ∷ []) ks vs h)))))))

pub decode_mset-payload :
    (keys values : List Bytes)
    → PairsFit keys values
    → length keys < 2 ^ 16
    → decode_mset_request (mset_payload keys values)
      ≡ ok (record (new_request op_mset) { keys = keys; values = values })
unfolding decode_mset_request
decode_mset-payload keys values h n = Frame.run-Reads_all _ _ (
    Frame.Reads-need_word 2 (length keys) _ _ _ (
      Frame.Reads-word 2 (length keys) _ (omega arith)
        (Reads-last _ _ (read_pairs-Reads [] [] keys values h))))

put_keys-Writes : (keys : List Bytes) → Writes (put_keys keys) (keys_bytes keys)
unfolding put_keys
put_keys-Writes [] = Writes-skip
put_keys-Writes (key ∷ keys) = Frame.Writes-string 2 key _ (put_keys-Writes keys)

add_key_sizes_lem :
    (total : ℕ) (keys : List Bytes) → add_key_sizes total keys ≡ total + length (keys_bytes keys)
unfolding add_key_sizes
add_key_sizes_lem total [] = omega arith
add_key_sizes_lem total (key ∷ keys) = omega (
  arith,
  add_key_sizes_lem (total + (2 + length key)) keys,
  length-append {0} {A = ℕ},
  Frame.length-word,
)

pub encode_mget-framed :
    (keys : List Bytes) → encode_mget_request keys ≡ ok (Frame.framed op_mget (mget_payload keys))
unfolding encode_mget_request
encode_mget-framed keys =
    let sizes = add_key_sizes_lem (1 + 4 + 2) keys in
    Frame.make-framed _ _ op_mget _ (mget_payload keys)
      (Frame.Writes-word 2 (length keys) _ (put_keys-Writes keys))
      (omega (arith, sizes, Frame.length-word)) (omega (arith, sizes, Frame.length-word))

pub encode_mdelete-framed :
    (keys : List Bytes)
    → encode_mdelete_request keys ≡ ok (Frame.framed op_mdel (mget_payload keys))
unfolding encode_mdelete_request
encode_mdelete-framed keys =
    let sizes = add_key_sizes_lem (1 + 4 + 2) keys in
    Frame.make-framed _ _ op_mdel _ (mget_payload keys)
      (Frame.Writes-word 2 (length keys) _ (put_keys-Writes keys))
      (omega (arith, sizes, Frame.length-word)) (omega (arith, sizes, Frame.length-word))

read_keys-Reads :
    (keys ks : List Bytes)
    → KeysFit ks
    → Reads (read_keys (length ks) keys) (keys_bytes ks) (keys ++ ks)
unfolding read_keys
read_keys-Reads keys [] h = rw (append-nil keys) (Reads-pure keys)
read_keys-Reads keys (k ∷ ks) (hk, h) = Frame.Reads-need_word 2 (length k) _ _ _ (
    Frame.Reads-word 2 (length k) _ (omega arith) (
      Frame.Reads-checked k invalid_batch _
        (rw (append_assoc keys (k ∷ []) ks) at (read_keys-Reads (keys ++ k ∷ []) ks h))))

pub decode_mget-payload :
    (op : ℕ) (keys : List Bytes)
    → KeysFit keys
    → length keys < 2 ^ 16
    → decode_mget_request op (mget_payload keys) ≡ ok (record (new_request op) { keys = keys })
unfolding decode_mget_request
decode_mget-payload op keys h n = Frame.run-Reads_all _ _ (
    Frame.Reads-need_word 2 (length keys) _ _ _ (
      Frame.Reads-word 2 (length keys) _ (omega arith)
        (Reads-last _ _ (read_keys-Reads [] keys h))))
