-- ===== src/Protocol/Frame/Fields.antt =====
-- Words and strings behind their lengths, read and written.
use flin.Prelude.{ℕ, ◌+◌, ◌^◌, ◌<◌, ◌≡◌, [], ◌++◌, append-nil, length, length-append, arith}
use flin.Wire.Outcome.{Bytes, Error, ok}
use flin.Wire.BigEndian.{put_be, length-put_be}
use flin.Wire.Reader.{
  Reader, ◌>>=◌, ◌>>◌, run, run-Reads, pure, need, uint, bytes, Reads, Reads-bind, Reads-last,
  Reads-need, Reads-uint, Reads-bytes,
}

pub length-word : (k n : ℕ) (ys : Bytes) → length (put_be k n ++ ys) ≡ k + length ys
length-word k n ys = omega (arith, length-append (put_be k n) ys, length-put_be k n)

module _ {ℓ} {B : Type ℓ} where
  -- A length check of `k` bytes before a word of `k` bytes.
  pub Reads-need_word :
      (k n : ℕ) (ys : Bytes) (e : Error) (m : Reader B) {b : B}
      → Reads m (put_be k n ++ ys) b
      → Reads (need k e >> m) (put_be k n ++ ys) b
  Reads-need_word k n ys e m r = Reads-need k e m (omega (arith, length-word k n ys)) r

  pub Reads-word :
      (k n : ℕ) (f : ℕ → Reader B) {ys : Bytes} {b : B}
      → n < 256 ^ k
      → Reads (f n) ys b
      → Reads (uint k >>= f) (put_be k n ++ ys) b
  Reads-word k n f h r = Reads-bind (uint k) f (Reads-uint k n h) r

  pub Reads-chunk :
      (xs : Bytes) (f : Bytes → Reader B) {ys : Bytes} {b : B}
      → Reads (f xs) ys b
      → Reads (bytes (length xs) >>= f) (xs ++ ys) b
  Reads-chunk xs f r = Reads-bind (bytes (length xs)) f (Reads-bytes xs) r

  -- The string itself behind the check of its length.
  pub Reads-checked :
      (xs : Bytes) (e : Error) (f : Bytes → Reader B) {ys : Bytes} {b : B}
      → Reads (f xs) ys b
      → Reads (need (length xs) e >> (bytes (length xs) >>= f)) (xs ++ ys) b
  Reads-checked xs e f {ys} r =
      Reads-need (length xs) e _ (omega (arith, length-append xs ys)) (Reads-chunk xs f r)

  pub Reads-checked_last :
      (xs : Bytes) (e : Error) (f : Bytes → B)
      → Reads (need (length xs) e >> (bytes (length xs) >>= λ x. pure (f x))) xs (f xs)
  Reads-checked_last xs e f =
      Reads-need (length xs) e _ (omega arith) (Reads-last (bytes (length xs)) f (Reads-bytes xs))

  pub run-Reads_all : (m : Reader B) (xs : Bytes) {b : B} → Reads m xs b → run m xs ≡ ok b
  run-Reads_all m xs r = rw (append-nil) at (run-Reads m xs [] r)
