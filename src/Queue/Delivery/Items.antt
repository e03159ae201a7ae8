-- ===== src/Queue/Delivery/Items.antt =====
-- Lists of messages with the ids under which they stand, and those of them that have expired.
use mathlib.Core.List.{Memᴰ}
use mathlib.Core.List.Memᴰ.{head, tail, cases_cons}
use flin.Prelude.{ℕ, ◌≡◌, List, [], ◌∷◌, ◌++◌, length, if◌then◌else◌, Bool-cases, inl, inr}
use flin.Wire.Outcome.{Bytes}
use flin.Queue.Keys.{message_index_prefix}
use flin.Queue.Message.Types.{QueueMessage}
use flin.Queue.Delivery.Expected.{waiting_again, is_overdue, EndsInTime}

-- Messages with the ids under which they stand.
abbrev pub Items : Type 0
Items = List (Bytes × QueueMessage)

unfoldable pub ids_of : Items → List Bytes
ids_of [] = []
ids_of ((id, msg) ∷ items) = id ∷ ids_of items

unfoldable pub requeued_all : Items → Items
requeued_all [] = []
requeued_all ((id, msg) ∷ items) = (id, waiting_again msg) ∷ requeued_all items

unfoldable pub expired_of : ℕ → Items → Items
expired_of now [] = []
expired_of now ((id, msg) ∷ items) =
    let rest = expired_of now items in if is_overdue now msg then (id, msg) ∷ rest else rest

-- No positive timeout ends beyond the range of an int64.
abbrev pub AllEndInTime : Items → Type 0
AllEndInTime [] = Unit {0}
AllEndInTime ((id, msg) ∷ items) = EndsInTime msg × AllEndInTime items

-- The ids are `width` long, and none stands twice.
abbrev pub Distinct : ℕ → Items → Type 0
Distinct width [] = Unit {0}
Distinct width ((id, msg) ∷ items) =
    (length id ≡ width) × (¬ Memᴰ id (ids_of items)) × Distinct width items

expired_listed :
    (now : ℕ) (id : Bytes) (items : Items)
    → Memᴰ id (ids_of (expired_of now items))
    → Memᴰ id (ids_of items)
unfolding expired_of ids_of
expired_listed now id [] m = m
expired_listed now id ((j, msg) ∷ items) m = elim (Bool-cases (is_overdue now msg)) [
  | inl y ↦ elim (cases_cons (rw y at m)) [
    | inl e ↦ head e
    | inr d ↦ tail (expired_listed now id items d)
  ]
  | inr n ↦ tail (expired_listed now id items (rw n at m))
]

pub Distinct-expired :
    (width now : ℕ) (items : Items) → Distinct width items → Distinct width (expired_of now items)
unfolding expired_of
Distinct-expired width now [] d = tt
Distinct-expired width now ((id, msg) ∷ items) (l, f, d) = elim (Bool-cases (is_overdue now msg)) [
  | inl y ↦ rw y (l, (λ m. f (expired_listed now id items m)), Distinct-expired width now items d)
  | inr n ↦ rw n (Distinct-expired width now items d)
]

-- The keys under which the items stand in the in-flight index of a queue.
unfoldable pub entries_of : Bytes → Items → List Bytes
entries_of name [] = []
entries_of name ((id, msg) ∷ items) = (message_index_prefix name 1 ++ id) ∷ entries_of name items
