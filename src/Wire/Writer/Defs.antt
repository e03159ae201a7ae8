-- ===== src/Wire/Writer/Defs.antt =====
-- The writer's operations, each a line of Go that the encoders repeat.
use flin.Prelude.{ℕ, ◌+◌, ltb, leb, if◌then◌else◌, [], ◌∷◌, length, overwrite, replicate}
use flin.Wire.Outcome.{Bytes, Outcome, ok, panic, then_do}
use flin.Wire.BigEndian.{put_be}

-- From the buffer and `pos` to both after the writes.
abbrev pub Writer : Type 0
Writer = Bytes → ℕ → Outcome (Bytes × ℕ)

infixl 5 ◌>>◌
unfoldable pub ◌>>◌ : Writer → Writer → Writer
◌>>◌ w v buf pos = then_do (w buf pos) (λ r. v r.0 r.1)

unfoldable pub skip : Writer
skip buf pos = ok (buf, pos)

unfoldable pub crash : Writer
crash buf pos = panic

-- `buf[pos] = b; pos++`
unfoldable pub set_byte : ℕ → Writer
set_byte b buf pos =
    if ltb pos (length buf) then ok (overwrite buf pos (b ∷ []), pos + 1) else panic

-- `binary.BigEndian.PutUintN(buf[pos:], n); pos += k`, for k = N / 8
unfoldable pub put_uint : ℕ → ℕ → Writer
put_uint k n buf pos =
    if leb (pos + k) (length buf) then ok (overwrite buf pos (put_be k n), pos + k) else panic

-- `copy(buf[pos:], xs); pos += len(xs)`
unfoldable pub copy_bytes : Bytes → Writer
copy_bytes xs buf pos =
    if leb pos (length buf) then ok (overwrite buf pos xs, pos + length xs) else panic

-- `buf := make([]byte, size); pos := 0; ...; return buf`
unfoldable pub make : ℕ → Writer → Outcome Bytes
make size w = then_do (w (replicate size 0) 0) (λ r. ok r.0)
