-- ===== src/Wire/Outcome.antt =====
-- Go's `(value, error)`, and the run-time panic of an index or a slice out of range.
use flin.Prelude.{ℕ, ◌≡◌, ◌≢◌, refl, String, List}

-- Go strings and byte slices are lists of bytes.
abbrev pub Bytes : Type 0
Bytes = List ℕ

-- `fmt.Errorf` and `errors.New`, with the values that the message prints.
pub data Error : Type 0 where
  message : String → Error
  message_with : String → ℕ → Error
  message_around : String → ℕ → String → Error
  message_text : Bytes → Error

pub data Outcome {ℓ} (A : Type ℓ) : Type ℓ where
  ok : A → Outcome A
  err : Error → Outcome A
  panic : Outcome A

-- Go on with the value of a call that returned.
abbrev pub then_do {ℓ κ} : {A : Type ℓ} {B : Type κ} → Outcome A → (A → Outcome B) → Outcome B
then_do (ok a) f = f a
then_do (err e) f = err e
then_do panic f = panic

pub then_do-ne-panic {ℓ κ} :
    {A : Type ℓ} {B : Type κ} (r : Outcome A) (f : A → Outcome B)
    → r ≢ panic
    → ((a : A) → f a ≢ panic)
    → then_do r f ≢ panic
then_do-ne-panic (ok a) f hr hf = hf a
then_do-ne-panic (err e) f hr hf = λ p. cc
then_do-ne-panic panic f hr hf = λ _. hr refl

-- A chain that returned has returned at each step.
pub then_do-eq-ok {ℓ κ} :
    {A : Type ℓ} {B : Type κ} (o : Outcome A) (f : A → Outcome B) {x : B}
    → then_do o f ≡ ok x
    → (y : A) × (o ≡ ok y) × (f y ≡ ok x)
then_do-eq-ok (ok y) f h = (y, refl, h)
then_do-eq-ok (err x) f h = cc
then_do-eq-ok panic f h = cc
