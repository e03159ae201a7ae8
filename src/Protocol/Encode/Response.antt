-- ===== src/Protocol/Encode/Response.antt =====
-- internal/net/protocol.go: the encoders of the responses.
use flin.Prelude.{ℕ, ◌+◌, ◌-◌, List, [], ◌∷◌, length}
use flin.Wire.Outcome.{Bytes, Outcome}
use flin.Wire.Writer.{Writer, ◌>>◌, skip, set_byte, put_uint, copy_bytes, make}
use flin.Protocol.Types.{status_ok, status_error, status_multi_value}

unfoldable pub encode_ok_response : Outcome Bytes
encode_ok_response = make 5 do set_byte status_ok; put_uint 4 0

unfoldable pub encode_value_response : Bytes → Outcome Bytes
encode_value_response value =
    make (5 + length value) do set_byte status_ok; put_uint 4 (length value); copy_bytes value

-- `for _, v := range values { totalSize += 4 + len(v) }`
unfoldable pub add_value_sizes : ℕ → List Bytes → ℕ
add_value_sizes total [] = total
add_value_sizes total (v ∷ values) = add_value_sizes (total + (4 + length v)) values

unfoldable pub put_values : List Bytes → Writer
put_values [] = skip
put_values (v ∷ values) = do put_uint 4 (length v); copy_bytes v; put_values values

unfoldable pub encode_multi_value_response : List Bytes → Outcome Bytes
unfolding add_value_sizes put_values
encode_multi_value_response values =
    let total_size = add_value_sizes (5 + 2) values in
    make total_size do
      set_byte status_multi_value
      put_uint 4 (total_size - 5)
      put_uint 2 (length values)
      put_values values

-- The argument is `err.Error()`.
unfoldable pub encode_error_response : Bytes → Outcome Bytes
encode_error_response err_msg =
    make (5 + length err_msg)
      do set_byte status_error; put_uint 4 (length err_msg); copy_bytes err_msg
