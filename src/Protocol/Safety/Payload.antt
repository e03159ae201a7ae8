-- ===== src/Protocol/Safety/Payload.antt =====
-- Of the payload decoders only `decode_simple_request` panics, where the sum of a key length wraps.
use flin.Prelude.{
  ℕ, ◌≤◌, ◌<◌, ◌≡◌, ◌≢◌, inl, inr, Bool, true, false, if◌then◌else◌, sym, ◌∙◌, ◌==◌, ◌||◌,
  Bool-cases, [], ◌∷◌, length, take, arith,
}
use flin.Wire.Outcome.{Bytes, Outcome, Error, err, panic}
use flin.Wire.BigEndian.{be_value}
use flin.Wire.Reader.{uint, run, slice}
use flin.Protocol.Types.{
  op_get, op_del, op_exists, op_incr, op_decr, op_qpop, op_qpeek, op_qlen, op_qclear, Request,
}
use flin.Protocol.Decode.Kv.{decode_simple_request}
use flin.Protocol.Decode.Frame.{decode_payload}
use flin.Protocol.Safety.Kv.{
  decode_set-ne-panic, decode_mset-ne-panic, decode_mget-ne-panic, decode_qpush-ne-panic,
}
use flin.Protocol.Safety.Stream.{
  decode_spublish-ne-panic, decode_sconsume-ne-panic, decode_scommit-ne-panic,
  decode_screate_topic-ne-panic, decode_ssubscribe-ne-panic, decode_sunsubscribe-ne-panic,
  decode_spublish_batch-ne-panic,
}
use flin.Protocol.Safety.Doc.{
  decode_doc_insert-ne-panic, decode_doc_find-ne-panic, decode_doc_update-ne-panic,
  decode_doc_delete-ne-panic, decode_doc_index-ne-panic,
}

abbrev pub AllBytes : Bytes → Type 0
AllBytes [] = Unit
AllBytes (b ∷ bs) = (b < 256) × AllBytes bs

abbrev is_kv_key : ℕ → Bool
is_kv_key op =
    op == op_get || (op == op_del || (op == op_exists || (op == op_incr || op == op_decr)))

abbrev is_queue_key : ℕ → Bool
is_queue_key op = op == op_qpop || (op == op_qpeek || (op == op_qlen || op == op_qclear))

-- The requests whose payload is one key.
abbrev pub is_simple : ℕ → Bool
is_simple op = is_kv_key op || is_queue_key op

-- The payload declares a key of 65534 or 65535 bytes, so that `2 + keyLen` wraps in uint16.
abbrev pub KeyWraps : Bytes → Type 0
KeyWraps payload = (2 ≤ length payload) × (65534 ≤ be_value 0 (take 2 payload))

pub decode_simple-wraps :
    (op : ℕ) (payload : Bytes)
    → AllBytes payload
    → KeyWraps payload
    → decode_simple_request op payload ≡ panic
unfolding decode_simple_request run uint be_value slice
decode_simple-wraps op [] h (n, k) = absurd (omega arith)
decode_simple-wraps op (a ∷ []) h (n, k) = absurd (omega arith)
decode_simple-wraps op (a ∷ b ∷ t) (ha, (hb, h)) (n, k) = ground arith

decode_simple-panic :
    (op : ℕ) (payload : Bytes)
    → AllBytes payload
    → decode_simple_request op payload ≡ panic
    → KeyWraps payload
unfolding decode_simple_request run uint be_value slice
decode_simple-panic op [] h p = cc
decode_simple-panic op (a ∷ []) h p = cc
decode_simple-panic op (a ∷ b ∷ t) (ha, (hb, h)) p = (omega arith, ground arith)

pub decode_payload-simple :
    (op : ℕ) (payload : Bytes)
    → is_simple op ≡ true
    → decode_payload op payload ≡ decode_simple_request op payload
unfolding decode_payload
decode_payload-simple op payload h = ground arith

-- A test whose branches do not panic, and one that fails.
either_branch :
    (b : Bool) {x y : Outcome Request} → x ≢ panic → y ≢ panic → (if b then x else y) ≢ panic
either_branch true hx hy = hx
either_branch false hx hy = hy

pub err-ne-panic : (e : Error) → ◌≢◌ {A = Outcome Request} (err e) panic
err-ne-panic e p = cc

second_branch :
    (b : Bool) (x : Outcome Request) {y : Outcome Request}
    → b ≡ false
    → y ≢ panic
    → (if b then x else y) ≢ panic
second_branch true x e hy = cc
second_branch false x e hy = hy

decode_payload-ne-panic :
    (op : ℕ) (payload : Bytes) → is_simple op ≡ false → decode_payload op payload ≢ panic
unfolding decode_payload
decode_payload-ne-panic op payload h = either_branch _ (decode_set-ne-panic payload) (
    second_branch (is_kv_key op) _ (ground arith) (
      either_branch _ (decode_mset-ne-panic payload) (
        either_branch _ (decode_mget-ne-panic op payload) (
          either_branch _ (decode_qpush-ne-panic payload) (
            second_branch (is_queue_key op) _ (ground arith) (
              either_branch _ (decode_spublish-ne-panic payload) (
                either_branch _ (decode_sconsume-ne-panic payload) (
                  either_branch _ (decode_scommit-ne-panic payload) (
                    either_branch _ (decode_screate_topic-ne-panic payload) (
                      either_branch _ (decode_spublish_batch-ne-panic payload) (
                        either_branch _ (decode_ssubscribe-ne-panic payload) (
                          either_branch _ (decode_sunsubscribe-ne-panic payload) (
                            either_branch _ (decode_doc_insert-ne-panic payload) (
                              either_branch _ (decode_doc_find-ne-panic payload) (
                                either_branch _ (decode_doc_update-ne-panic payload) (
                                  either_branch _ (decode_doc_delete-ne-panic payload) (
                                    either_branch _ (decode_doc_index-ne-panic payload)
                                      (err-ne-panic _))))))))))))))))))

pub decode_payload-panic :
    (op : ℕ) (payload : Bytes)
    → AllBytes payload
    → decode_payload op payload ≡ panic
    → (is_simple op ≡ true) × KeyWraps payload
decode_payload-panic op payload h p = elim (Bool-cases (is_simple op)) [
  | inl simple ↦
      (simple, decode_simple-panic op payload h (sym (decode_payload-simple op payload simple) ∙ p))
  | inr other ↦ absurd (decode_payload-ne-panic op payload other p)
]
