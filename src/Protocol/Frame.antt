-- ===== src/Protocol/Frame.antt =====
-- The layout that encoders and decoders share: a code, the payload's length in four bytes, and the
-- payload; within a payload, words and strings behind their lengths.
mod Fields
mod Put
pub use Fields.*
pub use Put.*
use native.Mathlib.Nat.{mod-eq_of_lt}
use flin.Prelude.{
  ℕ, suc, ◌+◌, ◌-◌, ◌%◌, ◌^◌, ◌≤◌, ◌<◌, ◌≡◌, refl, sym, ap, ◌∙◌, [], ◌∷◌, ◌++◌, length,
  length-append, drop, take, drop-append, take-append, ge→ltb, le→leb, ltb, append_assoc, arith,
}
use flin.Wire.Outcome.{Bytes, Outcome, ok, then_do}
use flin.Wire.BigEndian.{put_be, length-put_be}
use flin.Wire.Reader.{uint, run, slice, Reads-uint, run-Reads, slice-Stands}
use flin.Wire.Writer.{
  Writer, ◌>>◌, set_byte, put_uint, make, Writes, Writes-seq, Writes-byte, Writes-uint, make-Writes,
}
use flin.Protocol.Types.{Request, Response}
use flin.Protocol.Decode.Frame.{decode_payload, decode_request}
use flin.Protocol.Decode.Response.{decode_response_payload, decode_response}

abbrev pub framed : ℕ → Bytes → Bytes
framed code payload = code ∷ (put_be 4 (length payload) ++ payload)

-- A payload whose length, with the header's, fits a uint32.
abbrev pub FitsFrame : Bytes → Type 0
FitsFrame payload = length payload + 5 < 2 ^ 32

-- An encoder that computes the two sizes rightly makes a frame.
pub make-framed :
    (size n code : ℕ) (w : Writer) (payload : Bytes)
    → Writes w payload
    → size ≡ 5 + length payload
    → n ≡ length payload
    → make size (set_byte code >> (put_uint 4 n >> w)) ≡ ok (framed code payload)
make-framed size n code w payload r hs hn =
    make-Writes size _ _ (Writes-seq _ _ (Writes-byte code) (Writes-seq _ _ (Writes-uint 4 n) r))
      (omega (arith, hs, length-append (put_be 4 n) payload, length-put_be 4 n))
    ∙ ap (λ k. ok (code ∷ (put_be 4 k ++ payload))) hn

header :
    (payload rest : Bytes)
    → FitsFrame payload
    → run (uint 4) ((put_be 4 (length payload) ++ payload) ++ rest) ≡ ok (length payload)
header payload rest h = rw (append_assoc (put_be 4 (length payload)) payload rest) (
    run-Reads (uint 4) (put_be 4 (length payload)) (payload ++ rest)
      (Reads-uint 4 (length payload) (omega arith)))

tail_length :
    (payload rest : Bytes)
    → length ((put_be 4 (length payload) ++ payload) ++ rest) ≡ 4 + length payload + length rest
tail_length payload rest = omega (
  arith,
  length-append (put_be 4 (length payload) ++ payload) rest,
  length-append (put_be 4 (length payload)) payload,
  length-put_be 4 (length payload),
)

slice_payload :
    (code : ℕ) (payload rest : Bytes)
    → slice (code ∷ ((put_be 4 (length payload) ++ payload) ++ rest)) 5 (5 + length payload)
      ≡ ok payload
slice_payload code payload rest =
    let word : Bytes = put_be 4 (length payload) in
    slice-Stands _ 5 (5 + length payload) payload rest
      (record {
        front = code ∷ word;
        whole = ap (◌∷◌ code) (append_assoc word payload rest);
        here = omega (arith, length-put_be 4 (length payload));
      })
      refl

pub decode_request-framed :
    (op : ℕ) (payload rest : Bytes)
    → FitsFrame payload
    → decode_request (framed op payload ++ rest) ≡ decode_payload op payload
unfolding decode_request
decode_request-framed op payload rest h =
    let fits : (5 + length payload) % 2 ^ 32 ≡ 5 + length payload = mod-eq_of_lt (omega arith) in
    let tail : Bytes = (put_be 4 (length payload) ++ payload) ++ rest in
    rw (
      ge→ltb (suc (length tail)) 5 (omega (arith, tail_length payload rest)),
      header payload rest h,
      fits,
      ge→ltb (suc (length tail)) (5 + length payload) (omega (arith, tail_length payload rest)),
      slice_payload op payload rest,
    )

pub decode_response-framed :
    (status : ℕ) (payload rest : Bytes)
    → FitsFrame payload
    → decode_response (framed status payload ++ rest) ≡ decode_response_payload status payload
unfolding decode_response
decode_response-framed status payload rest h =
    let fits : (5 + length payload) % 2 ^ 32 ≡ 5 + length payload = mod-eq_of_lt (omega arith) in
    let tail : Bytes = (put_be 4 (length payload) ++ payload) ++ rest in
    rw (
      ge→ltb (suc (length tail)) 5 (omega (arith, tail_length payload rest)),
      header payload rest h,
      fits,
      ge→ltb (suc (length tail)) (5 + length payload) (omega (arith, tail_length payload rest)),
      slice_payload status payload rest,
    )

-- An encoder that makes a frame, the frame's decoder, and a decoder that reads the payload.
pub through_frame :
    (op : ℕ) (payload rest : Bytes) {r : Outcome Bytes} {req : Request}
    → r ≡ ok (framed op payload)
    → FitsFrame payload
    → decode_payload op payload ≡ ok req
    → then_do r (λ frame. decode_request (frame ++ rest)) ≡ ok req
through_frame op payload rest p h q = rw p (decode_request-framed op payload rest h ∙ q)
