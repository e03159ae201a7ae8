-- ===== src/Protocol/Safety/Panics.antt =====
-- `decode_request` panics exactly where the sum of a length wraps around.
use flin.Prelude.{
  ℕ, ◌+◌, ◌^◌, ◌≤◌, ◌<◌, ◌≡◌, ◌↔◌, ◌⊎◌, inl, inr, true, if◌then◌else◌, sym, ◌∙◌, Bool-cases, [],
  ◌∷◌, length, ltb, lt→ltb, ltb→lt, ltb→ge, ge→ltb, zero, suc, take, drop, arith,
}
use flin.Wire.Outcome.{Bytes, err, message, panic}
use flin.Wire.BigEndian.{be_value}
use flin.Wire.Reader.{uint, run, slice}
use flin.Protocol.Decode.Frame.{decode_payload, decode_request}
use flin.Protocol.Safety.Payload.{
  AllBytes, is_simple, KeyWraps, err-ne-panic, decode_simple-wraps, decode_payload-simple,
  decode_payload-panic,
}

-- The length that the frame's header declares for the payload.
abbrev pub declared : Bytes → ℕ
declared tail = be_value 0 (take 4 tail)

-- The frame declares a payload so long that `5 + payloadLen` wraps in uint32.
abbrev pub FrameWraps : Bytes → Type 0
FrameWraps tail = (4 ≤ length tail) × (2 ^ 32 ≤ 5 + declared tail)

-- The frame is complete, and its payload is one key whose declared length wraps.
abbrev pub SimpleWraps : ℕ → Bytes → Type 0
SimpleWraps op tail =
    (4 ≤ length tail)
    × (declared tail ≤ length (drop 4 tail))
    × (is_simple op ≡ true)
    × KeyWraps (take (declared tail) (drop 4 tail))

decode_request_wraps :
    (op : ℕ) (tail : Bytes) → AllBytes tail → FrameWraps tail → decode_request (op ∷ tail) ≡ panic
unfolding decode_request run uint be_value slice
decode_request_wraps op [] h (n, k) = absurd (omega arith)
decode_request_wraps op (a ∷ []) h (n, k) = absurd (omega arith)
decode_request_wraps op (a ∷ b ∷ []) h (n, k) = absurd (omega arith)
decode_request_wraps op (a ∷ b ∷ c ∷ []) h (n, k) = absurd (omega arith)
decode_request_wraps op (a ∷ b ∷ c ∷ d ∷ t) (ha, (hb, (hc, (hd, h)))) (n, k) = ground arith

-- A frame whose length does not wrap is refused, or its payload is decoded.
pub decode_request_complete :
    (op : ℕ) (tail : Bytes)
    → 4 ≤ length tail
    → 5 + declared tail < 2 ^ 32
    → decode_request (op ∷ tail) ≡ (
        if ltb (length (drop 4 tail)) (declared tail)
        then err (message "incomplete request")
        else decode_payload op (take (declared tail) (drop 4 tail)))
unfolding decode_request run uint be_value slice
decode_request_complete op [] n k = absurd (omega arith)
decode_request_complete op (a ∷ []) n k = absurd (omega arith)
decode_request_complete op (a ∷ b ∷ []) n k = absurd (omega arith)
decode_request_complete op (a ∷ b ∷ c ∷ []) n k = absurd (omega arith)
decode_request_complete op (a ∷ b ∷ c ∷ d ∷ t) n k = ground arith

decode_request_short :
    (op : ℕ) (tail : Bytes)
    → length tail < 4
    → decode_request (op ∷ tail) ≡ err (message "request too short")
unfolding decode_request
decode_request_short op tail h = rw (lt→ltb (suc (length tail)) 5 (omega arith))

AllBytes-take : (n : ℕ) (xs : Bytes) → AllBytes xs → AllBytes (take n xs)
AllBytes-take zero xs h = tt
AllBytes-take (suc n) [] h = tt
AllBytes-take (suc n) (x ∷ xs) (hx, h) = (hx, AllBytes-take n xs h)

AllBytes-drop : (n : ℕ) (xs : Bytes) → AllBytes xs → AllBytes (drop n xs)
AllBytes-drop zero xs h = h
AllBytes-drop (suc n) [] h = tt
AllBytes-drop (suc n) (x ∷ xs) (hx, h) = AllBytes-drop n xs h

payload-AllBytes : (tail : Bytes) → AllBytes tail → AllBytes (take (declared tail) (drop 4 tail))
payload-AllBytes tail h = AllBytes-take _ (drop 4 tail) (AllBytes-drop 4 tail h)

panic_of_complete :
    (op : ℕ) (tail : Bytes)
    → AllBytes tail
    → 4 ≤ length tail
    → 5 + declared tail < 2 ^ 32
    → decode_request (op ∷ tail) ≡ panic
    → SimpleWraps op tail
panic_of_complete op tail h n k p = elim (Bool-cases (ltb (length (drop 4 tail)) (declared tail))) [
  | inl short ↦
      absurd (err-ne-panic _ (sym (rw short at (decode_request_complete op tail n k)) ∙ p))
  | inr whole ↦
      let (simple, wraps) =
        decode_payload-panic op _ (payload-AllBytes tail h)
          (sym (rw whole at (decode_request_complete op tail n k)) ∙ p) in
      (n, ltb→ge _ _ whole, simple, wraps)
]

panic→wraps :
    (op : ℕ) (tail : Bytes)
    → AllBytes tail
    → decode_request (op ∷ tail) ≡ panic
    → FrameWraps tail ⊎ SimpleWraps op tail
panic→wraps op tail h p = elim (Bool-cases (ltb (length tail) 4)) [
  | inl short ↦ absurd (err-ne-panic _ (sym (decode_request_short op tail (ltb→lt _ _ short)) ∙ p))
  | inr long ↦ elim (Bool-cases (ltb (5 + declared tail) (2 ^ 32))) [
    | inl fits ↦ inr (panic_of_complete op tail h (ltb→ge _ _ long) (ltb→lt _ _ fits) p)
    | inr wraps ↦ inl (ltb→ge _ _ long, ltb→ge _ _ wraps)
  ]
]

wraps→panic :
    (op : ℕ) (tail : Bytes)
    → AllBytes tail
    → FrameWraps tail ⊎ SimpleWraps op tail
    → decode_request (op ∷ tail) ≡ panic
wraps→panic op tail h (inl w) = decode_request_wraps op tail h w
wraps→panic op tail h (inr (n, whole, simple, wraps)) =
    elim (Bool-cases (ltb (5 + declared tail) (2 ^ 32))) [
      | inl fits ↦
          decode_request_complete op tail n (ltb→lt _ _ fits)
          ∙ rw (ge→ltb _ _ whole) (
              decode_payload-simple op _ simple
              ∙ decode_simple-wraps op _ (payload-AllBytes tail h) wraps)
      | inr over ↦ decode_request_wraps op tail h (n, ltb→ge _ _ over)
    ]

-- `DecodeRequest` panics exactly on two kinds of bytes: a frame that declares a payload of
-- 2^32 - 5 bytes or more, and a complete frame of a single-key request that declares a key of
-- 65534 or 65535 bytes.
pub decode_request-panic_iff :
    (op : ℕ) (tail : Bytes)
    → AllBytes tail
    → (decode_request (op ∷ tail) ≡ panic) ↔ (FrameWraps tail ⊎ SimpleWraps op tail)
decode_request-panic_iff op tail h = (panic→wraps op tail h, wraps→panic op tail h)
