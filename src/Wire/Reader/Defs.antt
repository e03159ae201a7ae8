-- ===== src/Wire/Reader/Defs.antt =====
-- The reader's operations, each a line of Go that the decoders repeat.
use flin.Prelude.{ℕ, ◌+◌, ◌-◌, ◌&&◌, ltb, leb, ◌==◌, if◌then◌else◌, length, take, drop}
use flin.Wire.Outcome.{Bytes, Error, Outcome, ok, err, panic, then_do}
use flin.Wire.BigEndian.{be_value}

-- From the payload and `pos` to a value and the new `pos`.
abbrev pub Reader {ℓ} : Type ℓ → Type ℓ
Reader A = Bytes → ℕ → Outcome (A × ℕ)

module _ {ℓ} {A : Type ℓ} where
  unfoldable pub pure : A → Reader A
  pure a payload pos = ok (a, pos)

  unfoldable pub fail : Error → Reader A
  fail e payload pos = err e

  -- The payload from its first byte, without the cursor.
  unfoldable pub run : Reader A → Bytes → Outcome A
  run m payload = then_do (m payload 0) (λ r. ok r.0)

infixl 5 ◌>>=◌ ◌>>◌
unfoldable pub ◌>>=◌ {ℓ κ} : {A : Type ℓ} {B : Type κ} → Reader A → (A → Reader B) → Reader B
◌>>=◌ m f payload pos = then_do (m payload pos) (λ r. f r.0 payload r.1)

unfoldable pub ◌>>◌ {ℓ κ} : {A : Type ℓ} {B : Type κ} → Reader A → Reader B → Reader B
◌>>◌ m n payload pos = then_do (m payload pos) (λ r. n payload r.1)

-- `payload[lo:hi]`
unfoldable pub slice : Bytes → ℕ → ℕ → Outcome Bytes
slice payload lo hi =
    if leb lo hi && leb hi (length payload) then ok (take (hi - lo) (drop lo payload)) else panic

-- `if len(payload) < pos+n { return nil, e }`
unfoldable pub need : ℕ → Error → Reader (Unit {0})
need n e payload pos = if ltb (length payload) (pos + n) then err e else ok (tt, pos)

-- `x := binary.BigEndian.UintN(payload[pos:]); pos += k`, for k = N / 8
unfoldable pub uint : ℕ → Reader ℕ
uint k payload pos =
    let word = take k (drop pos payload) in
    if length word == k then ok (be_value 0 word, pos + k) else panic

-- `x := payload[pos : pos+n]; pos += n`
unfoldable pub bytes : ℕ → Reader Bytes
unfolding slice
bytes n payload pos = then_do (slice payload pos (pos + n)) (λ xs. ok (xs, pos + n))
