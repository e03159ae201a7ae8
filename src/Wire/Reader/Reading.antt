-- ===== src/Wire/Reader/Reading.antt =====
-- What a reader takes from the front of the bytes at the cursor.
use flin.Prelude.{
  ℕ, ◌+◌, ◌-◌, ◌^◌, ◌≤◌, ◌<◌, ◌≡◌, refl, sym, ap, ◌∙◌, [], ◌++◌, length, length-append, drop, take,
  drop-append, take-append, ge→ltb, le→leb, eq_self, append_assoc, arith,
}
use flin.Wire.Outcome.{Bytes, Error, ok}
use flin.Wire.BigEndian.{put_be, length-put_be, be_value-put_be}
use flin.Wire.Reader.Defs.{Reader, pure, ◌>>=◌, ◌>>◌, need, uint, bytes, run, slice}

-- `pos` stands before `xs` in the payload.
pub record Stands (payload : Bytes) (pos : ℕ) (xs rest : Bytes) : Type 0 where
  pub front : Bytes
  pub whole : payload ≡ front ++ (xs ++ rest)
  pub here : pos ≡ length front

-- With `xs` at the cursor, `m` returns `a` and leaves the cursor behind `xs`, whatever stands
-- before and after.
pub record Reads {ℓ} {A : Type ℓ} (m : Reader A) (xs : Bytes) (a : A) : Type ℓ where
  pub at :
      (payload : Bytes) (pos : ℕ) (rest : Bytes)
      → Stands payload pos xs rest
      → m payload pos ≡ ok (a, pos + length xs)

Stands-left :
    (payload : Bytes) (pos : ℕ) (xs ys rest : Bytes)
    → Stands payload pos (xs ++ ys) rest
    → Stands payload pos xs (ys ++ rest)
Stands-left payload pos xs ys rest s = record {
  front = s.front;
  whole = s.whole ∙ ap (λ t. s.front ++ t) (append_assoc xs ys rest);
  here = s.here;
}

Stands-right :
    (payload : Bytes) (pos : ℕ) (xs ys rest : Bytes)
    → Stands payload pos (xs ++ ys) rest
    → Stands payload (pos + length xs) ys rest
Stands-right payload pos xs ys rest s = record {
  front = s.front ++ xs;
  whole = s.whole ∙ simp append_assoc;
  here = omega (arith, s.here, length-append s.front xs);
}

Stands-room :
    (payload : Bytes) (pos : ℕ) (xs rest : Bytes)
    → Stands payload pos xs rest
    → pos + length xs ≤ length payload
Stands-room payload pos xs rest s =
    omega
      (arith, s.here, ap length s.whole, length-append s.front (xs ++ rest), length-append xs rest)

Stands-take :
    (payload : Bytes) (pos : ℕ) (xs rest : Bytes)
    → Stands payload pos xs rest
    → take (length xs) (drop pos payload) ≡ xs
Stands-take payload pos xs rest s =
    rw (s.here, s.whole, drop-append s.front (xs ++ rest)) (take-append xs rest)

pub Reads-pure {ℓ} : {A : Type ℓ} (a : A) → Reads (pure a) [] a
unfolding pure
Reads-pure a = record { at = λ payload pos rest s. ap (λ n. ok (a, n)) (omega arith) }

module _ {ℓ κ} {A : Type ℓ} {B : Type κ} where
  pub Reads-bind :
      (m : Reader A) (f : A → Reader B) {xs ys : Bytes} {a : A} {b : B}
      → Reads m xs a
      → Reads (f a) ys b
      → Reads (m >>= f) (xs ++ ys) b
  unfolding ◌>>=◌
  Reads-bind m f {xs} {ys} {a} {b} rm rf = record {
    at = λ payload pos rest s.
        rw (rm.at payload pos (ys ++ rest) (Stands-left payload pos xs ys rest s)) (
          rf.at payload (pos + length xs) rest (Stands-right payload pos xs ys rest s)
          ∙ ap (λ n. ok (b, n)) (omega (arith, length-append xs ys)));
  }

  -- The last read of a decoder.
  pub Reads-last :
      (m : Reader A) (f : A → B) {xs : Bytes} {a : A}
      → Reads m xs a
      → Reads (m >>= λ x. pure (f x)) xs (f a)
  unfolding ◌>>=◌ pure
  Reads-last m f {xs} {a} rm = record { at = λ payload pos rest s. rw (rm.at payload pos rest s) }

module _ {ℓ} {A : Type ℓ} where
  -- A length check passes if what is read is as long.
  pub Reads-need :
      (n : ℕ) (e : Error) (m : Reader A) {xs : Bytes} {a : A}
      → n ≤ length xs
      → Reads m xs a
      → Reads (need n e >> m) xs a
  unfolding need ◌>>◌
  Reads-need n e m {xs} h rm = record {
    at = λ payload pos rest s.
        rw (ge→ltb (length payload) (pos + n) (omega (arith, Stands-room payload pos xs rest s)))
          (rm.at payload pos rest s);
  }

  -- A decoder ignores what stands behind the bytes that it reads.
  pub run-Reads :
      (m : Reader A) (xs rest : Bytes) {a : A} → Reads m xs a → run m (xs ++ rest) ≡ ok a
  unfolding run
  run-Reads m xs rest r =
      rw (r.at (xs ++ rest) 0 rest (record { front = []; whole = refl; here = refl }))

pub Reads-uint : (k n : ℕ) → n < 256 ^ k → Reads (uint k) (put_be k n) n
unfolding uint
Reads-uint k n h = record {
  at = λ payload pos rest s.
      let e : take k (drop pos payload) ≡ put_be k n =
        ap (λ j. take j (drop pos payload)) (sym (length-put_be k n))
        ∙ Stands-take payload pos (put_be k n) rest s in
      rw (e, length-put_be k n, eq_self k, be_value-put_be k n h);
}

-- A slice whose ends are those of `xs`.
pub slice-Stands :
    (payload : Bytes) (lo hi : ℕ) (xs rest : Bytes)
    → Stands payload lo xs rest
    → hi ≡ lo + length xs
    → slice payload lo hi ≡ ok xs
unfolding slice
slice-Stands payload lo hi xs rest s e =
    let d : hi - lo ≡ length xs = omega arith in
    rw (
      le→leb lo hi (omega arith),
      le→leb hi (length payload) (omega (arith, Stands-room payload lo xs rest s)),
      d,
      Stands-take payload lo xs rest s,
    )

pub Reads-bytes : (xs : Bytes) → Reads (bytes (length xs)) xs xs
unfolding bytes
Reads-bytes xs = record {
  at = λ payload pos rest s. rw (slice-Stands payload pos (pos + length xs) xs rest s refl);
}
