-- ===== src/Wire/Table.antt =====
-- A Go map with string keys: the list of its entries, in the order in which `range` visits them.
use mathlib.Core.Path.{subst}
use flin.Prelude.{
  ◌≡◌, ◌≢◌, refl, ap, inl, inr, Bool-cases, Option, none, some, List, [], ◌∷◌, if◌then◌else◌, arith,
}
use flin.Wire.Outcome.{Bytes}
use flin.Badger.Memory.{same_key, same_key_iff}

abbrev pub Table : Type 0 → Type 0
Table V = List (Bytes × V)

module _ {V : Type 0} where
  -- `v, exists := m[key]`
  unfoldable pub find : Bytes → Table V → Option V
  find key [] = none
  find key ((k, v) ∷ rest) = if same_key k key then some v else find key rest

  -- `m[key] = value`
  unfoldable pub put : Bytes → V → Table V → Table V
  put key value [] = (key, value) ∷ []
  put key value ((k, v) ∷ rest) =
      let rest' = put key value rest in if same_key k key then (k, value) ∷ rest else (k, v) ∷ rest'

  -- `delete(m, key)`
  unfoldable pub remove : Bytes → Table V → Table V
  remove key [] = []
  remove key ((k, v) ∷ rest) =
      let rest' = remove key rest in if same_key k key then rest' else (k, v) ∷ rest'

  pub find-put_self :
      (key : Bytes) (value : V) (t : Table V) → find key (put key value t) ≡ some value
  unfolding find put
  find-put_self key value [] = ground (arith, same_key_iff key key)
  find-put_self key value ((k, v) ∷ rest) =
      ground (arith, find-put_self key value rest, same_key_iff k key)

  pub find-put_ne :
      (key other : Bytes) (value : V) (t : Table V)
      → key ≢ other
      → find other (put key value t) ≡ find other t
  unfolding find put
  find-put_ne key other value [] ne = ground (arith, same_key_iff key other)
  find-put_ne key other value ((k, v) ∷ rest) ne =
      ground (arith, find-put_ne key other value rest ne, same_key_iff k key, same_key_iff k other)

  pub put-put : (key : Bytes) (v w : V) (t : Table V) → put key v (put key w t) ≡ put key v t
  unfolding put
  put-put key v w [] = let e = (same_key_iff key key).1 refl in rw e
  put-put key v w ((k, x) ∷ rest) = elim (Bool-cases (same_key k key)) [
    | inl y ↦ rw (y, y)
    | inr n ↦ rw (n, n) (ap (◌∷◌ (k, x)) (put-put key v w rest))
  ]

  -- Every value has a property.
  abbrev pub All : (V → Type 0) → Table V → Type 0
  All P [] = Unit
  All P ((k, v) ∷ rest) = P v × All P rest

  pub All-put :
      (P : V → Type 0) (key : Bytes) (value : V) (t : Table V)
      → P value
      → All P t
      → All P (put key value t)
  unfolding put
  All-put P key value [] p h = (p, tt)
  All-put P key value ((k, v) ∷ rest) p (q, h) = elim (Bool-cases (same_key k key)) [
    | inl y ↦ rw y (p, h)
    | inr n ↦ rw n (q, All-put P key value rest p h)
  ]

  pub All-remove : (P : V → Type 0) (key : Bytes) (t : Table V) → All P t → All P (remove key t)
  unfolding remove
  All-remove P key [] h = tt
  All-remove P key ((k, v) ∷ rest) (q, h) = elim (Bool-cases (same_key k key)) [
    | inl y ↦ rw y (All-remove P key rest h)
    | inr n ↦ rw n (q, All-remove P key rest h)
  ]

  pub All-find :
      (P : V → Type 0) (key : Bytes) (t : Table V) (v : V) → All P t → find key t ≡ some v → P v
  unfolding find
  All-find P key [] v h e = absurd (ground arith)
  All-find P key ((k, w) ∷ rest) v (p, h) e = elim (Bool-cases (same_key k key)) [
    | inl y ↦ let e' = rw y at e in let same : w ≡ v = cc in subst P same p
    | inr n ↦ All-find P key rest v h (rw n at e)
  ]

  pub All-map : (P Q : V → Type 0) (t : Table V) → ((v : V) → P v → Q v) → All P t → All Q t
  All-map P Q [] f h = tt
  All-map P Q ((k, v) ∷ rest) f (p, h) = (f v p, All-map P Q rest f h)
