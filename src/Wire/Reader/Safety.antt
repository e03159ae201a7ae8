-- ===== src/Wire/Reader/Safety.antt =====
-- Readers that never index or slice the payload out of range.
use flin.Prelude.{
  ℕ, ◌+◌, ◌≤◌, ◌≡◌, ◌≢◌, inl, inr, ltb, ltb→ge, Bool-cases, length, length-drop, length-take, drop,
  take, le→leb, eq_self, arith,
}
use flin.Wire.Outcome.{Bytes, Error, panic, then_do-ne-panic}
use flin.Wire.Reader.Defs.{Reader, pure, fail, ◌>>=◌, ◌>>◌, need, uint, bytes, run}

-- `m` does not panic where `k` bytes are left at the cursor.
pub record Safe {ℓ} {A : Type ℓ} (k : ℕ) (m : Reader A) : Type ℓ where
  pub at : (payload : Bytes) (pos : ℕ) → pos + k ≤ length payload → m payload pos ≢ panic

module _ {ℓ} {A : Type ℓ} where
  pub Safe-pure : (k : ℕ) (a : A) → Safe k (pure a)
  unfolding pure
  Safe-pure k a = record { at = λ payload pos h e. cc }

  pub Safe-fail : (k : ℕ) (e : Error) → Safe k (fail {A = A} e)
  unfolding fail
  Safe-fail k e = record { at = λ payload pos h p. cc }

  -- What a length check has seen, the reader behind it may use.
  pub Safe-need : (k n : ℕ) (e : Error) (m : Reader A) → Safe n m → Safe k (need n e >> m)
  unfolding need ◌>>◌
  Safe-need k n e m sm = record {
    at = λ payload pos h. elim (Bool-cases (ltb (length payload) (pos + n))) [
      | inl short ↦ rw short (λ p. cc)
      | inr enough ↦ rw enough (sm.at payload pos (ltb→ge _ _ enough))
    ];
  }

  pub Safe-uint :
      (k w j : ℕ) (f : ℕ → Reader A) → w + j ≤ k → ((n : ℕ) → Safe j (f n)) → Safe k (uint w >>= f)
  unfolding uint ◌>>=◌
  Safe-uint k w j f h sf = record {
    at = λ payload pos room.
        let e : length (take w (drop pos payload)) ≡ w =
          length-take w (drop pos payload) (omega (arith, length-drop pos payload)) in
        rw (e, eq_self w) ((sf _).at payload (pos + w) (omega arith));
  }

  pub Safe-bytes :
      (k n j : ℕ) (f : Bytes → Reader A)
      → n + j ≤ k
      → ((xs : Bytes) → Safe j (f xs))
      → Safe k (bytes n >>= f)
  unfolding bytes ◌>>=◌
  Safe-bytes k n j f h sf = record {
    at = λ payload pos room.
        rw (le→leb pos (pos + n) (omega arith), le→leb (pos + n) (length payload) (omega arith))
          ((sf _).at payload (pos + n) (omega arith));
  }

  -- A length check before a word, and a string behind a checked length.
  pub Safe-word :
      (k w : ℕ) (e : Error) (f : ℕ → Reader A)
      → ((n : ℕ) → Safe 0 (f n))
      → Safe k (need w e >> (uint w >>= f))
  Safe-word k w e f sf = Safe-need k w e _ (Safe-uint w w 0 f (omega arith) sf)

  pub Safe-chunk :
      (k n : ℕ) (e : Error) (f : Bytes → Reader A)
      → ((xs : Bytes) → Safe 0 (f xs))
      → Safe k (need n e >> (bytes n >>= f))
  Safe-chunk k n e f sf = Safe-need k n e _ (Safe-bytes n n 0 f (omega arith) sf)

  pub Safe-string :
      (k w : ℕ) (d e : Error) (f : Bytes → Reader A)
      → ((xs : Bytes) → Safe 0 (f xs))
      → Safe k (need w d >> (uint w >>= λ n. need n e >> (bytes n >>= f)))
  Safe-string k w d e f sf = Safe-word k w d _ (λ n. Safe-chunk 0 n e f sf)

module _ {ℓ κ} {A : Type ℓ} {B : Type κ} where
  pub Safe-map : (k : ℕ) (m : Reader A) (f : A → B) → Safe k m → Safe k (m >>= λ x. pure (f x))
  unfolding ◌>>=◌ pure
  Safe-map k m f sm = record {
    at =
        λ payload pos room. then_do-ne-panic (m payload pos) _ (sm.at payload pos room) (λ r e. cc);
  }

module _ {ℓ} {A : Type ℓ} where
  -- A decoder that is safe with no bytes in sight is safe on every payload.
  pub run-Safe : (m : Reader A) (payload : Bytes) → Safe 0 m → run m payload ≢ panic
  unfolding run
  run-Safe m payload s = ground (arith, s.at payload 0)
