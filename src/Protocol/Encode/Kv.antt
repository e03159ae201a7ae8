-- ===== src/Protocol/Encode/Kv.antt =====
-- internal/net/protocol.go: the encoders of the key-value requests.
use flin.Prelude.{ℕ, ◌+◌, ◌-◌, ◌==◌, if◌then◌else◌, List, [], ◌∷◌, length}
use flin.Wire.Outcome.{Bytes, Outcome, ok}
use flin.Wire.Writer.{Writer, ◌>>◌, skip, crash, set_byte, put_uint, copy_bytes, make}
use flin.Protocol.Types.{
  op_set, op_get, op_del, op_exists, op_incr, op_decr, op_mset, op_mget, op_mdel,
}

unfoldable pub encode_set_request : Bytes → Bytes → Outcome Bytes
encode_set_request key value =
    let key_len = length key in
    let value_len = length value in
    make (1 + 4 + 2 + key_len + 4 + value_len) do
      set_byte op_set
      put_uint 4 (2 + key_len + 4 + value_len)
      put_uint 2 key_len
      copy_bytes key
      put_uint 4 value_len
      copy_bytes value

unfoldable pub encode_get_request : Bytes → Outcome Bytes
encode_get_request key =
    let key_len = length key in
    make (1 + 4 + 2 + key_len)
      do set_byte op_get; put_uint 4 (2 + key_len); put_uint 2 key_len; copy_bytes key

unfoldable pub encode_simple_request : ℕ → Bytes → Outcome Bytes
encode_simple_request op_code key =
    let key_len = length key in
    make (1 + 4 + 2 + key_len)
      do set_byte op_code; put_uint 4 (2 + key_len); put_uint 2 key_len; copy_bytes key

unfoldable pub encode_delete_request : Bytes → Outcome Bytes
encode_delete_request key = encode_simple_request op_del key

unfoldable pub encode_exists_request : Bytes → Outcome Bytes
encode_exists_request key = encode_simple_request op_exists key

unfoldable pub encode_incr_request : Bytes → Outcome Bytes
encode_incr_request key = encode_simple_request op_incr key

unfoldable pub encode_decr_request : Bytes → Outcome Bytes
encode_decr_request key = encode_simple_request op_decr key

-- `for i := range keys { totalSize += 2 + len(keys[i]) + 4 + len(values[i]) }`. The lists have the
-- same length; an index past the end of `values` is met by `put_pairs`.
unfoldable pub add_pair_sizes : ℕ → List Bytes → List Bytes → ℕ
add_pair_sizes total [] values = total
add_pair_sizes total (key ∷ keys) [] = total
add_pair_sizes total (key ∷ keys) (value ∷ values) =
    add_pair_sizes (total + (2 + length key + 4 + length value)) keys values

unfoldable pub put_pairs : List Bytes → List Bytes → Writer
put_pairs [] values = skip
put_pairs (key ∷ keys) [] = crash
put_pairs (key ∷ keys) (value ∷ values) = do
  put_uint 2 (length key)
  copy_bytes key
  put_uint 4 (length value)
  copy_bytes value
  put_pairs keys values

-- The nil slice of the refusal has no bytes.
unfoldable pub encode_mset_request : List Bytes → List Bytes → Outcome Bytes
unfolding add_pair_sizes put_pairs
encode_mset_request keys values =
    let total_size = add_pair_sizes (1 + 4 + 2) keys values in
    if length keys == length values
    then make total_size (do
      set_byte op_mset
      put_uint 4 (total_size - 5)
      put_uint 2 (length keys)
      put_pairs keys values)
    else ok []

-- `for _, key := range keys { totalSize += 2 + len(key) }`
unfoldable pub add_key_sizes : ℕ → List Bytes → ℕ
add_key_sizes total [] = total
add_key_sizes total (key ∷ keys) = add_key_sizes (total + (2 + length key)) keys

unfoldable pub put_keys : List Bytes → Writer
put_keys [] = skip
put_keys (key ∷ keys) = do put_uint 2 (length key); copy_bytes key; put_keys keys

unfoldable pub encode_mget_request : List Bytes → Outcome Bytes
unfolding add_key_sizes put_keys
encode_mget_request keys =
    let total_size = add_key_sizes (1 + 4 + 2) keys in
    make total_size
      do set_byte op_mget; put_uint 4 (total_size - 5); put_uint 2 (length keys); put_keys keys

unfoldable pub encode_mdelete_request : List Bytes → Outcome Bytes
unfolding add_key_sizes put_keys
encode_mdelete_request keys =
    let total_size = add_key_sizes (1 + 4 + 2) keys in
    make total_size
      do set_byte op_mdel; put_uint 4 (total_size - 5); put_uint 2 (length keys); put_keys keys
