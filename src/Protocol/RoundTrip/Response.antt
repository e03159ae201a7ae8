-- ===== src/Protocol/RoundTrip/Response.antt =====
-- The responses: what the encoders write, `decode_response` reads back.
use flin.Prelude.{
  ℕ, ◌+◌, ◌^◌, ◌<◌, ◌≡◌, refl, ◌∙◌, List, [], ◌∷◌, ◌++◌, append-nil, append_assoc, length,
  length-append, arith,
}
use flin.Wire.Outcome.{Bytes, Outcome, ok, then_do}
use flin.Wire.BigEndian.{put_be, length-put_be}
use flin.Wire.Reader.{Reads, Reads-pure, Reads-last}
use flin.Wire.Writer.{
  Writes, Writes-skip, Writes-copy, Writes-uint, Writes-byte, Writes-seq, make-Writes,
}
use flin.Protocol.Types.{Response, new_response, status_ok, status_error, status_multi_value}
use flin.Protocol.Encode.Response.{
  encode_ok_response, encode_value_response, encode_multi_value_response, encode_error_response,
  add_value_sizes, put_values,
}
use flin.Protocol.Decode.Response.{
  decode_response, decode_response_payload, decode_multi_value_response, read_values,
  invalid_multi_value,
}
use flin.Protocol.Frame

-- The replies that the server sends.
pub data Reply : Type 0 where
  done : Reply
  value : Bytes → Reply
  multi_value : List Bytes → Reply
  failed : Bytes → Reply

unfoldable pub encode_reply : Reply → Outcome Bytes
encode_reply done = encode_ok_response
encode_reply (value v) = encode_value_response v
encode_reply (multi_value vs) = encode_multi_value_response vs
encode_reply (failed err_msg) = encode_error_response err_msg

abbrev pub reply_response : Reply → Response
reply_response done = new_response status_ok
reply_response (value v) = record (new_response status_ok) { value = v }
reply_response (multi_value vs) = record (new_response status_multi_value) { values = vs }
reply_response (failed err_msg) = record (new_response status_error) { error = err_msg }

abbrev pub ValuesFit : List Bytes → Type 0
ValuesFit [] = Unit
ValuesFit (v ∷ values) = (length v < 2 ^ 32) × ValuesFit values

abbrev pub values_bytes : List Bytes → Bytes
values_bytes [] = []
values_bytes (v ∷ values) = put_be 4 (length v) ++ (v ++ values_bytes values)

abbrev pub reply_payload : Reply → Bytes
reply_payload done = []
reply_payload (value v) = v
reply_payload (multi_value vs) = put_be 2 (length vs) ++ values_bytes vs
reply_payload (failed err_msg) = err_msg

abbrev pub reply_status : Reply → ℕ
reply_status done = 0
reply_status (value v) = 0
reply_status (multi_value vs) = 4
reply_status (failed err_msg) = 1

-- The bytes of a reply: its status, the length of its payload on 4 bytes, and the payload.
abbrev pub reply_frame : Reply → Bytes
reply_frame r = Frame.framed (reply_status r) (reply_payload r)

abbrev ReplyFieldsFit : Reply → Type 0
ReplyFieldsFit (multi_value vs) = ValuesFit vs × (length vs < 2 ^ 16)
ReplyFieldsFit _ = Unit

-- The payload's length, the number of values and the length of each fit their fields.
abbrev pub ReplyFits : Reply → Type 0
ReplyFits r = Frame.FitsFrame (reply_payload r) × ReplyFieldsFit r

put_values-Writes : (values : List Bytes) → Writes (put_values values) (values_bytes values)
unfolding put_values
put_values-Writes [] = Writes-skip
put_values-Writes (v ∷ values) = Frame.Writes-string 4 v _ (put_values-Writes values)

add_value_sizes_lem :
    (total : ℕ) (values : List Bytes)
    → add_value_sizes total values ≡ total + length (values_bytes values)
unfolding add_value_sizes
add_value_sizes_lem total [] = omega arith
add_value_sizes_lem total (v ∷ values) = omega (
  arith,
  add_value_sizes_lem (total + (4 + length v)) values,
  length-append {0} {A = ℕ},
  Frame.length-word,
)

read_values-Reads :
    (values vs : List Bytes)
    → ValuesFit vs
    → Reads (read_values (length vs) values) (values_bytes vs) (values ++ vs)
unfolding read_values
read_values-Reads values [] h = rw (append-nil values) (Reads-pure values)
read_values-Reads values (v ∷ vs) (hv, h) = Frame.Reads-need_word 4 (length v) _ _ _ (
    Frame.Reads-word 4 (length v) _ (omega arith) (
      Frame.Reads-checked v invalid_multi_value _
        (rw (append_assoc values (v ∷ []) vs) at (read_values-Reads (values ++ v ∷ []) vs h))))

decode_multi_value-payload :
    (vs : List Bytes)
    → ValuesFit vs
    → length vs < 2 ^ 16
    → decode_multi_value_response (put_be 2 (length vs) ++ values_bytes vs)
      ≡ ok (record (new_response status_multi_value) { values = vs })
unfolding decode_multi_value_response
decode_multi_value-payload vs h n = Frame.run-Reads_all _ _ (
    Frame.Reads-need_word 2 (length vs) _ _ _
      (Frame.Reads-word 2 (length vs) _ (omega arith) (Reads-last _ _ (read_values-Reads [] vs h))))

through_response :
    (status : ℕ) (payload rest : Bytes) {r : Outcome Bytes} {resp : Response}
    → r ≡ ok (Frame.framed status payload)
    → Frame.FitsFrame payload
    → decode_response_payload status payload ≡ ok resp
    → then_do r (λ frame. decode_response (frame ++ rest)) ≡ ok resp
through_response status payload rest p h q =
    rw p (Frame.decode_response-framed status payload rest h ∙ q)

-- What the encoders write: the status, the length of the payload and the payload.
pub encode_reply-framed : (r : Reply) → encode_reply r ≡ ok (reply_frame r)
unfolding encode_reply encode_ok_response encode_value_response encode_multi_value_response
    encode_error_response
encode_reply-framed done = rw (append-nil (put_be 4 0)) (
    make-Writes 5 _ _ (Writes-seq _ _ (Writes-byte status_ok) (Writes-uint 4 0))
      (omega (arith, length-put_be 4 0)))
encode_reply-framed (value v) = Frame.make-framed _ _ status_ok _ v (Writes-copy v) refl refl
encode_reply-framed (failed m) = Frame.make-framed _ _ status_error _ m (Writes-copy m) refl refl
encode_reply-framed (multi_value vs) =
    let sizes = add_value_sizes_lem (5 + 2) vs in
    Frame.make-framed _ _ status_multi_value _ _
      (Frame.Writes-word 2 (length vs) _ (put_values-Writes vs))
      (omega (arith, sizes, Frame.length-word)) (omega (arith, sizes, Frame.length-word))

-- Whatever reply is sent and whatever bytes follow it, the client decodes the response that was
-- encoded, if the lengths fit their fields.
pub decode-encode_reply :
    (r : Reply) (rest : Bytes)
    → ReplyFits r
    → then_do (encode_reply r) (λ frame. decode_response (frame ++ rest)) ≡ ok (reply_response r)
unfolding decode_response_payload
decode-encode_reply done rest (h, _) = through_response 0 [] rest (encode_reply-framed done) h refl
decode-encode_reply (value v) rest (h, _) =
    through_response 0 v rest (encode_reply-framed (value v)) h refl
decode-encode_reply (failed m) rest (h, _) =
    through_response 1 m rest (encode_reply-framed (failed m)) h refl
decode-encode_reply (multi_value vs) rest (h, (f, n)) =
    through_response 4 (reply_payload (multi_value vs)) rest (encode_reply-framed (multi_value vs))
      h (decode_multi_value-payload vs f n)
