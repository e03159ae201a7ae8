-- ===== src/Protocol/Frame/Put.antt =====
-- Strings behind their lengths, written.
use flin.Prelude.{ℕ, ◌++◌, length}
use flin.Wire.Outcome.{Bytes}
use flin.Wire.BigEndian.{put_be}
use flin.Wire.Writer.{
  Writer, ◌>>◌, put_uint, copy_bytes, Writes, Writes-seq, Writes-uint, Writes-copy,
}

pub Writes-word :
    (k n : ℕ) (w : Writer) {ys : Bytes}
    → Writes w ys
    → Writes (put_uint k n >> w) (put_be k n ++ ys)
Writes-word k n w r = Writes-seq (put_uint k n) w (Writes-uint k n) r

-- A string between its length and what follows.
pub Writes-string :
    (k : ℕ) (xs : Bytes) (w : Writer) {ys : Bytes}
    → Writes w ys
    → Writes (put_uint k (length xs) >> (copy_bytes xs >> w)) (put_be k (length xs) ++ (xs ++ ys))
Writes-string k xs w r =
    Writes-word k (length xs) _ (Writes-seq (copy_bytes xs) w (Writes-copy xs) r)

-- A string that ends the payload.
pub Writes-string_last :
    (k : ℕ) (xs : Bytes)
    → Writes (put_uint k (length xs) >> copy_bytes xs) (put_be k (length xs) ++ xs)
Writes-string_last k xs = Writes-word k (length xs) _ (Writes-copy xs)
