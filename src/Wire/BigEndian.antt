-- ===== src/Wire/BigEndian.antt =====
-- `binary.BigEndian`: `put_be k n` is the k bytes of PutUint16/32/64 (k = 2, 4, 8) on `n`
-- converted to the width, and `be_value 0` reads k bytes back.
use native.Mathlib.Nat.{div-add-mod, div-div-eq-div-mul, pow-suc, mod-eq_of_lt}
use flin.Prelude.{ℕ, zero, suc, ◌+◌, ◌*◌, ◌/◌, ◌%◌, ◌^◌, ◌<◌, ◌≡◌, refl, ap, [], ◌∷◌, length, arith}
use flin.Wire.Outcome.{Bytes}

unfoldable pub put_be : ℕ → ℕ → Bytes
put_be zero n = []
put_be (suc k) n = (n / 256 ^ k % 256) ∷ put_be k n

unfoldable pub be_value : ℕ → Bytes → ℕ
be_value acc [] = acc
be_value acc (b ∷ bs) = be_value (acc * 256 + b) bs

pub length-put_be : (k n : ℕ) → length (put_be k n) ≡ k
unfolding put_be
length-put_be zero n = refl
length-put_be (suc k) n = ap suc (length-put_be k n)

-- The digit above `p` in base `b` splits off.
pub mod_split : (n p b : ℕ) → n % (p * b) ≡ n / p % b * p + n % p
mod_split n p b = omega (
  arith,
  div-add-mod n p,
  div-add-mod n (p * b),
  ap (λ (t : ℕ). p * t) (div-add-mod (n / p) b),
  ap (λ (t : ℕ). p * (b * t)) (div-div-eq-div-mul n p b),
)

be_value-put_be_mod : (acc k n : ℕ) → be_value acc (put_be k n) ≡ acc * 256 ^ k + n % 256 ^ k
unfolding put_be be_value
be_value-put_be_mod acc zero n = omega arith
be_value-put_be_mod acc (suc k) n = omega (
  arith,
  be_value-put_be_mod (acc * 256 + n / 256 ^ k % 256) k n,
  mod_split n (256 ^ k) 256,
  ap (λ (t : ℕ). n % t) (pow-suc 256 k),
  ap (λ (t : ℕ). acc * t) (pow-suc 256 k),
)

-- A word that fits its width is read back.
pub be_value-put_be : (k n : ℕ) → n < 256 ^ k → be_value 0 (put_be k n) ≡ n
be_value-put_be k n h = omega (arith, be_value-put_be_mod 0 k n, mod-eq_of_lt h)
