-- ===== src/Wire/Text.antt =====
-- ASCII literals and decimal numbers as bytes, and where keys made of them agree.
use Prim.Native.Char.{code}
use mathlib.Core.List.{tail-eq_of_cons-eq}
use native.Mathlib.Nat.{mod-eq_of_lt, pow-suc}
use flin.Prelude.{
  ℕ, zero, suc, ◌+◌, ◌-◌, ◌*◌, ◌/◌, ◌%◌, ◌^◌, ◌<◌, ◌≡◌, refl, ap, String, [], ◌∷◌, ◌++◌, length,
  length-append, ltb, if◌then◌else◌, arith,
}
use flin.Wire.Outcome.{Bytes, Error, message, message_with, message_around, message_text}
use flin.Wire.BigEndian.{mod_split}

-- The bytes of an ASCII literal.
abbrev pub text : String → Bytes
text String.[] = []
text (String.◌∷◌ c s) = code c ∷ text s

-- `%0kd` on a number of at most k digits.
unfoldable pub decimal : ℕ → ℕ → Bytes
decimal zero n = []
decimal (suc k) n = (48 + n / 10 ^ k % 10) ∷ decimal k n

-- The digits of a number, up to `fuel + 1` of them.
unfoldable pub digit_count : ℕ → ℕ → ℕ
digit_count zero n = 1
digit_count (suc fuel) n = let more = digit_count fuel (n / 10) in if ltb n 10 then 1 else suc more

-- `%d` on a number below 10^20.
unfoldable pub unsigned : ℕ → Bytes
unsigned n = decimal (digit_count 19 n) n

-- `err.Error()`
unfoldable pub error_text : Error → Bytes
error_text (message s) = text s
error_text (message_with s n) = text s ++ unsigned n
error_text (message_around s n s') = text s ++ (unsigned n ++ text s')
error_text (message_text s) = s

decimal_value : ℕ → Bytes → ℕ
decimal_value acc [] = acc
decimal_value acc (d ∷ ds) = decimal_value (acc * 10 + (d - 48)) ds

pub length-decimal : (k n : ℕ) → length (decimal k n) ≡ k
unfolding decimal
length-decimal zero n = refl
length-decimal (suc k) n = ap suc (length-decimal k n)

digit_value : (d : ℕ) → 48 + d - 48 ≡ d
digit_value d = omega arith

decimal_value-decimal : (acc k n : ℕ) → decimal_value acc (decimal k n) ≡ acc * 10 ^ k + n % 10 ^ k
unfolding decimal decimal_value
decimal_value-decimal acc zero n = omega arith
decimal_value-decimal acc (suc k) n = omega (
  arith,
  decimal_value-decimal (acc * 10 + (48 + n / 10 ^ k % 10 - 48)) k n,
  mod_split n (10 ^ k) 10,
  ap (λ (t : ℕ). (acc * 10 + t) * 10 ^ k) (digit_value (n / 10 ^ k % 10)),
  ap (λ (t : ℕ). n % t) (pow-suc 10 k),
  ap (λ (t : ℕ). acc * t) (pow-suc 10 k),
)

pub decimal-injective : (k m n : ℕ) → m < 10 ^ k → n < 10 ^ k → decimal k m ≡ decimal k n → m ≡ n
decimal-injective k m n hm hn e = omega (
  arith,
  decimal_value-decimal 0 k m,
  decimal_value-decimal 0 k n,
  mod-eq_of_lt hm,
  mod-eq_of_lt hn,
  ap (decimal_value 0) e,
)

-- Where two lists end in parts of one length, the parts agree one by one.
pub append-cancel :
    (xs xs' ys ys' : Bytes)
    → length ys ≡ length ys'
    → xs ++ ys ≡ xs' ++ ys'
    → (xs ≡ xs') × (ys ≡ ys')
append-cancel [] [] ys ys' h e = (refl, e)
append-cancel [] (x' ∷ xs') ys ys' h e = absurd (omega (arith, ap length e, length-append xs' ys'))
append-cancel (x ∷ xs) [] ys ys' h e = absurd (omega (arith, ap length e, length-append xs ys))
append-cancel (x ∷ xs) (x' ∷ xs') ys ys' h e =
    let (p, q) = append-cancel xs xs' ys ys' h (tail-eq_of_cons-eq e) in (cc, q)

unfoldable pub byte_at : ℕ → Bytes → ℕ
byte_at i [] = 0
byte_at zero (x ∷ xs) = x
byte_at (suc i) (x ∷ xs) = byte_at i xs
