-- ===== src/Wire/Writer/Writing.antt =====
-- What a writer leaves in a fresh buffer.
use flin.Prelude.{
  ℕ, ◌+◌, ◌-◌, ◌≤◌, ◌≡◌, ap, ◌∙◌, [], ◌∷◌, ◌++◌, length, length-append, replicate, length-replicate,
  overwrite, overwrite-append, overwrite-replicate, lt→ltb, le→leb, append_assoc, append-nil, arith,
}
use flin.Wire.Outcome.{Bytes, Outcome, ok}
use flin.Wire.BigEndian.{put_be, length-put_be}
use flin.Wire.Writer.Defs.{Writer, ◌>>◌, skip, set_byte, put_uint, copy_bytes, make}

abbrev zeros : ℕ → Bytes
zeros n = replicate n 0

-- Behind `front`, with room for `xs`, `w` fills in exactly `xs`.
pub record Writes (w : Writer) (xs : Bytes) : Type 0 where
  pub at :
      (front : Bytes) (room : ℕ)
      → length xs ≤ room
      → w (front ++ zeros room) (length front)
        ≡ ok (front ++ (xs ++ zeros (room - length xs)), length front + length xs)

fill :
    (front xs : Bytes) (room : ℕ)
    → length xs ≤ room
    → overwrite (front ++ zeros room) (length front) xs ≡ front ++ (xs ++ zeros (room - length xs))
fill front xs room h =
    overwrite-append front (zeros room) xs ∙ ap (λ t. front ++ t) (overwrite-replicate 0 xs room h)

length-zeros : (front : Bytes) (room : ℕ) → length (front ++ zeros room) ≡ length front + room
length-zeros front room =
    omega (arith, length-append front (zeros room), length-replicate {A = ℕ} room 0)

pub Writes-skip : Writes skip []
unfolding skip
Writes-skip = record {
  at = λ front room h.
      let e : room - 0 ≡ room = omega arith in
      let f : length front + 0 ≡ length front = omega arith in rw (e, f);
}

same_state :
    {b c : Bytes} {m n : ℕ} → b ≡ c → m ≡ n → ◌≡◌ {A = Outcome (Bytes × ℕ)} (ok (b, m)) (ok (c, n))
same_state p q i = ok (p i, q i)

regroup :
    (front xs ys : Bytes) (n : ℕ)
    → (front ++ xs) ++ (ys ++ zeros n) ≡ front ++ ((xs ++ ys) ++ zeros n)
regroup front xs ys n = simp append_assoc

pub Writes-seq :
    (w v : Writer) {xs ys : Bytes} → Writes w xs → Writes v ys → Writes (w >> v) (xs ++ ys)
unfolding ◌>>◌
Writes-seq w v {xs} {ys} rw_ rv = record {
  at = λ front room h.
      let l : length (xs ++ ys) ≡ length xs + length ys = length-append xs ys in
      let k : length (front ++ xs) ≡ length front + length xs = length-append front xs in
      let r : room - length (xs ++ ys) ≡ room - length xs - length ys = omega (arith, l) in
      rw (rw_.at front room (omega (arith, l))) (
        rw (← append_assoc front xs (zeros (room - length xs)), ← k)
          (rv.at (front ++ xs) (room - length xs) (omega (arith, l))
            ∙ same_state (regroup front xs ys (room - length xs - length ys) ∙ rw (← r))
                (omega (arith, k, l))));
}

pub Writes-byte : (b : ℕ) → Writes (set_byte b) (b ∷ [])
unfolding set_byte
Writes-byte b = record {
  at = λ front room h. rw (
    lt→ltb (length front) (length (front ++ zeros room)) (omega (arith, length-zeros front room)),
    fill front (b ∷ []) room h,
  );
}

pub Writes-uint : (k n : ℕ) → Writes (put_uint k n) (put_be k n)
unfolding put_uint
Writes-uint k n = record {
  at = λ front room h.
      let l : length (put_be k n) ≡ k = length-put_be k n in
      let fits : length front + k ≤ length (front ++ zeros room) =
        omega (arith, length-zeros front room) in
      rw
        (
          le→leb (length front + k) (length (front ++ zeros room)) fits,
          fill front (put_be k n) room h,
        )
        (rw l);
}

pub Writes-copy : (xs : Bytes) → Writes (copy_bytes xs) xs
unfolding copy_bytes
Writes-copy xs = record {
  at = λ front room h.
      let fits : length front ≤ length (front ++ zeros room) =
        omega (arith, length-zeros front room) in
      rw (le→leb (length front) (length (front ++ zeros room)) fits, fill front xs room h);
}

-- A buffer of the right size is filled to its end, with no write out of range.
pub make-Writes :
    (size : ℕ) (w : Writer) (xs : Bytes) → Writes w xs → size ≡ length xs → make size w ≡ ok xs
unfolding make
make-Writes size w xs r e =
    let z : size - length xs ≡ 0 = omega arith in rw (r.at [] size (omega arith), z, append-nil)
