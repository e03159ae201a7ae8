-- ===== src/Badger/Memory.antt =====
-- A store that meets the laws: a function from keys to what stands there.
use flin.Prelude.{
  ◌≡◌, ◌≢◌, refl, sym, ap, ◌∙◌, Bool, true, false, ◌&&◌, ◌==◌, ◌↔◌, if◌then◌else◌, [], ◌∷◌, arith,
}
use flin.Wire.Outcome.{Bytes, Outcome, ok}
use flin.Badger.{Badger, Lookup, Reliable, found, missing}

abbrev pub same_key : Bytes → Bytes → Bool
same_key [] [] = true
same_key [] (y ∷ ys) = false
same_key (x ∷ xs) [] = false
same_key (x ∷ xs) (y ∷ ys) = x == y && same_key xs ys

pub same_key_iff : (xs ys : Bytes) → (same_key xs ys ≡ true) ↔ (xs ≡ ys)
same_key_iff [] [] = (λ _. refl, λ _. refl)
same_key_iff [] (y ∷ ys) = (λ e. cc, λ e. cc)
same_key_iff (x ∷ xs) [] = (λ e. cc, λ e. cc)
same_key_iff (x ∷ xs) (y ∷ ys) = ground (arith, same_key_iff xs ys)

abbrev pub Memory : Type 0
Memory = Bytes → Lookup

abbrev pub empty_memory : Memory
empty_memory k = missing

unfoldable pub write : Memory → Bytes → Lookup → Memory
write m k v j = if same_key k j then v else m j

pub write_self : (m : Memory) (k : Bytes) (v : Lookup) → write m k v k ≡ v
unfolding write
write_self m k v = rw ((same_key_iff k k).1 refl)

pub write_ne : (m : Memory) (k j : Bytes) (v : Lookup) → k ≢ j → write m k v j ≡ m j
unfolding write
write_ne m k j v ne = ground (arith, same_key_iff k j)

-- The database that a call returned.
returned : (m t : Memory) → ◌≡◌ {A = Outcome Memory} (ok m) (ok t) → m ≡ t
returned m t e = cc

pub after_write :
    (m t : Memory) (k j : Bytes) (v : Lookup)
    → ◌≡◌ {A = Outcome Memory} (ok (write m k v)) (ok t)
    → t j ≡ write m k v j
after_write m t k j v e = ap (λ f. f j) (sym (returned (write m k v) t e))

abbrev pub memory : Badger
memory = record {
  Txn = Memory;
  get = λ m k. m k;
  set = λ m k v. ok (write m k (found v));
  delete = λ m k. ok (write m k missing);
  commit = λ m. ok tt;
  get-set_self = λ t t' k v e. after_write t t' k k (found v) e ∙ write_self t k (found v);
  get-set_ne = λ t t' k v j e ne. after_write t t' k j (found v) e ∙ write_ne t k j (found v) ne;
  get-delete_self = λ t t' k e. after_write t t' k k missing e ∙ write_self t k missing;
  get-delete_ne = λ t t' k j e ne. after_write t t' k j missing e ∙ write_ne t k j missing ne;
}

pub memory-Reliable : Reliable memory
memory-Reliable = record {
  sets = λ t k v. (write t k (found v), refl);
  deletes = λ t k. (write t k missing, refl);
  commits = λ t. refl;
}
