-- ===== src/Prelude/Lists.antt =====
-- Lists measured and indexed by the native numbers, under the library's names.
use Prim.Native.Nat.{ℕ, zero, suc, ◌+◌, ◌-◌, ◌≤◌}
use mathlib.Core.Path.{◌≡◌, refl, sym, ap, ◌∙◌}
use mathlib.Core.List.{List, [], ◌∷◌, ◌++◌}
use native.Mathlib.Omega.{arith}

module _ {ℓ} {A : Type ℓ} where
  abbrev pub length : List A → ℕ
  length [] = 0
  length (x ∷ xs) = suc (length xs)

  abbrev pub take : ℕ → List A → List A
  take zero xs = []
  take (suc n) [] = []
  take (suc n) (x ∷ xs) = x ∷ take n xs

  abbrev pub drop : ℕ → List A → List A
  drop zero xs = xs
  drop (suc n) [] = []
  drop (suc n) (x ∷ xs) = drop n xs

  abbrev pub replicate : ℕ → A → List A
  replicate zero a = []
  replicate (suc n) a = a ∷ replicate n a

  pub length-append : (xs ys : List A) → length (xs ++ ys) ≡ length xs + length ys
  length-append [] ys = omega arith
  length-append (x ∷ xs) ys = omega (arith, length-append xs ys)

  pub length-replicate : (n : ℕ) (a : A) → length (replicate n a) ≡ n
  length-replicate zero a = refl
  length-replicate (suc n) a = ap suc (length-replicate n a)

  -- What a cursor at the end of `xs` sees of `xs ++ ys`.
  pub drop-append : (xs ys : List A) → drop (length xs) (xs ++ ys) ≡ ys
  drop-append [] ys = refl
  drop-append (x ∷ xs) ys = drop-append xs ys

  pub take-append : (xs ys : List A) → take (length xs) (xs ++ ys) ≡ xs
  take-append [] ys = refl
  take-append (x ∷ xs) ys = ap (◌∷◌ x) (take-append xs ys)

  pub length-drop : (n : ℕ) (xs : List A) → length (drop n xs) ≡ length xs - n
  length-drop zero xs = omega arith
  length-drop (suc n) [] = omega arith
  length-drop (suc n) (x ∷ xs) = omega (arith, length-drop n xs)

  pub length-take : (n : ℕ) (xs : List A) → n ≤ length xs → length (take n xs) ≡ n
  length-take zero xs h = refl
  length-take (suc n) [] h = absurd (omega arith)
  length-take (suc n) (x ∷ xs) h = ap suc (length-take n xs (omega arith))

  -- `copy(buf[pos:], xs)`: what does not fit is dropped, and what lies beyond is kept.
  abbrev pub overwrite : List A → ℕ → List A → List A
  overwrite [] pos xs = []
  overwrite (b ∷ buf) zero [] = b ∷ buf
  overwrite (b ∷ buf) zero (x ∷ xs) = x ∷ overwrite buf zero xs
  overwrite (b ∷ buf) (suc pos) xs = b ∷ overwrite buf pos xs

  pub overwrite-append :
      (front buf xs : List A)
      → overwrite (front ++ buf) (length front) xs ≡ front ++ overwrite buf 0 xs
  overwrite-append [] buf xs = refl
  overwrite-append (x ∷ front) buf xs = ap (◌∷◌ x) (overwrite-append front buf xs)

  pub overwrite-replicate :
      (a : A) (xs : List A) (room : ℕ)
      → length xs ≤ room
      → overwrite (replicate room a) 0 xs ≡ xs ++ replicate (room - length xs) a
  overwrite-replicate a [] zero h = refl
  overwrite-replicate a [] (suc room) h = let e : suc room - 0 ≡ suc room = omega arith in rw e
  overwrite-replicate a (x ∷ xs) zero h = absurd (omega arith)
  overwrite-replicate a (x ∷ xs) (suc room) h =
      let e : suc room - suc (length xs) ≡ room - length xs = omega arith in
      ap (◌∷◌ x) (overwrite-replicate a xs room (omega arith))
      ∙ ap (λ n. x ∷ xs ++ replicate n a) (sym e)
