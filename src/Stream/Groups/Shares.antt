-- ===== src/Stream/Groups/Shares.antt =====
-- Every partition goes to exactly one consumer, and no consumer has two more than another.
use flin.Prelude.{
  ◌<◌, ◌==◌, if◌then◌else◌, inl, inr, Bool-cases, ltb, ℕ, zero, suc, ◌+◌, ◌-◌, ◌*◌, ◌/◌, ◌≤◌, ◌≡◌,
  refl, ap, ◌∙◌, List, [], ◌∷◌, ◌++◌, length, arith,
}
use native.Mathlib.Nat.{suc-mul}
use flin.Wire.Table.{Table, All}
use flin.Stream.Topics.Defs.{Consumer}
use flin.Stream.Groups.Defs.{consecutive, parts_for, assign}

-- The partitions of all consumers, in their order.
abbrev pub all_partitions : Table Consumer → List ℕ
all_partitions [] = []
all_partitions ((id, c) ∷ rest) = c.partitions ++ all_partitions rest

-- A consumer with `n` or `n + 1` partitions.
pub record HasShare (n : ℕ) (c : Consumer) : Type 0 where
  pub at_least : n ≤ length c.partitions
  pub at_most : length c.partitions ≤ n + 1

consecutive-append : (a m n : ℕ) → consecutive a m ++ consecutive (a + m) n ≡ consecutive a (m + n)
unfolding consecutive
consecutive-append a zero n =
    let e : a + 0 ≡ a = omega arith in let f : 0 + n ≡ n = omega arith in rw (e, f)
consecutive-append a (suc m) n =
    let e : a + suc m ≡ a + 1 + m = omega arith in
    let f : suc m + n ≡ suc (m + n) = omega arith in
    rw (e, f) (ap (◌∷◌ a) (consecutive-append (a + 1) m n))

length-consecutive : (a n : ℕ) → length (consecutive a n) ≡ n
unfolding consecutive
length-consecutive a zero = refl
length-consecutive a (suc n) = ap suc (length-consecutive (a + 1) n)

parts_for-add : (per extra : ℕ) → parts_for per extra + (extra - 1) ≡ per + extra
unfolding parts_for
parts_for-add per extra = ground arith

pub all_partitions-assign :
    (per extra a : ℕ) (cs : Table Consumer)
    → extra ≤ length cs
    → all_partitions (assign per extra a cs) ≡ consecutive a (length cs * per + extra)
unfolding assign consecutive
all_partitions-assign per extra a [] h = let e : 0 * per + extra ≡ 0 = omega arith in rw e
all_partitions-assign per extra a ((id, c) ∷ rest) h =
    let n = parts_for per extra in
    let total : n + (length rest * per + (extra - 1)) ≡ suc (length rest) * per + extra =
      omega (arith, parts_for-add per extra, suc-mul (length rest) per) in
    ap (λ xs. consecutive a n ++ xs)
      (all_partitions-assign per (extra - 1) (a + n) rest (omega arith))
    ∙ consecutive-append a n (length rest * per + (extra - 1))
    ∙ ap (consecutive a) total

pub assign-HasShare :
    (per extra a : ℕ) (cs : Table Consumer) → All (HasShare per) (assign per extra a cs)
unfolding assign parts_for
assign-HasShare per extra a [] = tt
assign-HasShare per extra a ((id, c) ∷ rest) = (
  record {
    at_least = grind (arith, length-consecutive a (parts_for per extra));
    at_most = grind (arith, length-consecutive a (parts_for per extra));
  },
  assign-HasShare per (extra - 1) (a + parts_for per extra) rest,
)

-- How often a number stands in a list.
unfoldable pub occurrences : ℕ → List ℕ → ℕ
occurrences p [] = 0
occurrences p (q ∷ qs) = (if q == p then 1 else 0) + occurrences p qs

pub occurrences-consecutive_out : (p a n : ℕ) → p < a → occurrences p (consecutive a n) ≡ 0
unfolding occurrences consecutive
occurrences-consecutive_out p a zero h = refl
occurrences-consecutive_out p a (suc n) h =
    ground (arith, occurrences-consecutive_out p (a + 1) n (omega arith))

pub occurrences-consecutive_above : (p a n : ℕ) → a + n ≤ p → occurrences p (consecutive a n) ≡ 0
unfolding occurrences consecutive
occurrences-consecutive_above p a zero h = refl
occurrences-consecutive_above p a (suc n) h =
    ground (arith, occurrences-consecutive_above p (a + 1) n (omega arith))

pub occurrences-consecutive_in :
    (p a n : ℕ) → a ≤ p → p < a + n → occurrences p (consecutive a n) ≡ 1
unfolding occurrences consecutive
occurrences-consecutive_in p a zero h g = absurd (omega arith)
occurrences-consecutive_in p a (suc n) h g = elim (Bool-cases (ltb a p)) [
  | inl y ↦
      let l : a < p = ground arith in
      ground (arith, occurrences-consecutive_in p (a + 1) n (omega arith) (omega arith))
  | inr n' ↦
      let e : p < a + 1 = ground arith in ground (arith, occurrences-consecutive_out p (a + 1) n e)
]

-- The consumers of a group share the partitions of its topic: each stands once in all their lists
-- together, no other number does, and the sizes of their lists differ by one at most.
pub record IsShared (partitions : ℕ) (consumers : Table Consumer) : Type 0 where
  pub each_once : (p : ℕ) → p < partitions → occurrences p (all_partitions consumers) ≡ 1
  pub no_other : (p : ℕ) → partitions ≤ p → occurrences p (all_partitions consumers) ≡ 0
  pub fair : All (HasShare (partitions / length consumers)) consumers
