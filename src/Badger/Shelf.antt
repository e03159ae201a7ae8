-- ===== src/Badger/Shelf.antt =====
-- A store that meets the laws and lists its keys: the pairs of a key and a value, the latest first.
use mathlib.Core.List.{Memᴰ}
use mathlib.Core.List.Memᴰ.{head, tail, cases_cons, not-nil}
use flin.Prelude.{
  ◌≡◌, ◌≢◌, refl, sym, ap, ◌∙◌, Bool, true, false, ◌&&◌, ◌==◌, if◌then◌else◌, List, [], ◌∷◌, ◌++◌,
  inl, inr, Bool-cases, arith,
}
use flin.Wire.Outcome.{Bytes, Outcome, ok}
use flin.Badger.{Badger, Iterator, Lookup, Reliable, found, missing}
use flin.Badger.Memory.{same_key, same_key_iff}

abbrev pub Shelf : Type 0
Shelf = List (Bytes × Bytes)

unfoldable pub look : Shelf → Bytes → Lookup
look [] k = missing
look ((j, v) ∷ t) k = if same_key j k then found v else look t k

unfoldable pub without : Bytes → Shelf → Shelf
without k [] = []
without k ((j, v) ∷ t) = let rest = without k t in if same_key j k then rest else (j, v) ∷ rest

pub look-without_self : (t : Shelf) (k : Bytes) → look (without k t) k ≡ missing
unfolding look without
look-without_self [] k = refl
look-without_self ((j, v) ∷ t) k = ground (arith, look-without_self t k)

pub look-without_ne : (t : Shelf) (k i : Bytes) → k ≢ i → look (without k t) i ≡ look t i
unfolding look without
look-without_ne [] k i ne = refl
look-without_ne ((j, v) ∷ t) k i ne =
    ground (arith, look-without_ne t k i ne, same_key_iff j k, same_key_iff j i)

-- `strings.HasPrefix`, as the iterator's option reads it.
unfoldable pub begins : Bytes → Bytes → Bool
begins [] k = true
begins (p ∷ ps) [] = false
begins (p ∷ ps) (k ∷ ks) = p == k && begins ps ks

unfoldable pub keys_in : Shelf → Bytes → List Bytes
keys_in [] prefix = []
keys_in ((j, v) ∷ t) prefix =
    let rest = keys_in t prefix in if begins prefix j then j ∷ rest else rest

begins-rest : (p k : Bytes) → begins p k ≡ true → (s : Bytes) × (k ≡ p ++ s)
unfolding begins
begins-rest [] k h = (k, refl)
begins-rest (x ∷ p) [] h = absurd (ground arith)
begins-rest (x ∷ p) (y ∷ k) h =
    let both : (x ≡ y) × (begins p k ≡ true) = ground arith in
    let (s, e) = begins-rest p k both.1 in (s, cc)

begins-append : (p s : Bytes) → begins p (p ++ s) ≡ true
unfolding begins
begins-append [] s = refl
begins-append (x ∷ p) s = ground (arith, begins-append p s)

look_head : (t : Shelf) (j v : Bytes) → look ((j, v) ∷ t) j ≢ missing
unfolding look
look_head t j v e = ground (arith, same_key_iff j j)

-- What stands under a key in the rest stands there, or is covered by the head.
look_tail : (t : Shelf) (j v k : Bytes) → look t k ≢ missing → look ((j, v) ∷ t) k ≢ missing
unfolding look
look_tail t j v k h = elim (Bool-cases (same_key j k)) [ inl y ↦ rw y (λ e. cc) | inr n ↦ rw n h ]

pub keys_in_sound :
    (t : Shelf) (prefix k : Bytes)
    → Memᴰ k (keys_in t prefix)
    → (s : Bytes) × (k ≡ prefix ++ s) × (look t k ≢ missing)
unfolding keys_in
keys_in_sound [] prefix k m = absurd (not-nil m)
keys_in_sound ((j, v) ∷ t) prefix k m = elim (Bool-cases (begins prefix j)) [
  | inl y ↦ elim (cases_cons (rw y at m)) [
    | inl e ↦
        let (s, q) = begins-rest prefix j y in
        (s, e ∙ q, λ z. look_head t j v (ap (look ((j, v) ∷ t)) (sym e) ∙ z))
    | inr d ↦ let (s, q, p) = keys_in_sound t prefix k d in (s, q, look_tail t j v k p)
  ]
  | inr n ↦ let (s, q, p) = keys_in_sound t prefix k (rw n at m) in (s, q, look_tail t j v k p)
]

pub keys_in_complete :
    (t : Shelf) (prefix s : Bytes)
    → look t (prefix ++ s) ≢ missing
    → Memᴰ (prefix ++ s) (keys_in t prefix)
unfolding keys_in look
keys_in_complete [] prefix s h = absurd (h refl)
keys_in_complete ((j, v) ∷ t) prefix s h = elim (Bool-cases (same_key j (prefix ++ s))) [
  | inl y ↦
      let e : j ≡ prefix ++ s = (same_key_iff j (prefix ++ s)).0 y in
      let f : begins prefix j ≡ true = ap (begins prefix) e ∙ begins-append prefix s in
      rw f (head (sym e))
  | inr n ↦
      let d = keys_in_complete t prefix s (rw n at h) in
      elim (Bool-cases (begins prefix j)) [ inl f ↦ rw f (tail d) | inr f ↦ rw f d ]
]

-- The database that a call returned.
returned : (m t : Shelf) → ◌≡◌ {A = Outcome Shelf} (ok m) (ok t) → m ≡ t
returned m t e = cc

pub look_set :
    (m t : Shelf) (k v i : Bytes)
    → ◌≡◌ {A = Outcome Shelf} (ok ((k, v) ∷ without k m)) (ok t)
    → look t i ≡ look ((k, v) ∷ without k m) i
look_set m t k v i e = ap (λ x. look x i) (sym (returned _ t e))

pub look_delete :
    (m t : Shelf) (k i : Bytes)
    → ◌≡◌ {A = Outcome Shelf} (ok (without k m)) (ok t)
    → look t i ≡ look (without k m) i
look_delete m t k i e = ap (λ x. look x i) (sym (returned _ t e))

pub look_self : (t : Shelf) (k v : Bytes) → look ((k, v) ∷ t) k ≡ found v
unfolding look
look_self t k v = rw ((same_key_iff k k).1 refl)

pub look_ne : (t : Shelf) (k v i : Bytes) → k ≢ i → look ((k, v) ∷ t) i ≡ look t i
unfolding look
look_ne t k v i ne = ground (arith, same_key_iff k i)

abbrev pub shelf : Badger
shelf = record {
  Txn = Shelf;
  get = look;
  set = λ t k v. ok ((k, v) ∷ without k t);
  delete = λ t k. ok (without k t);
  commit = λ t. ok tt;
  get-set_self = λ t t' k v e. look_set t t' k v k e ∙ look_self (without k t) k v;
  get-set_ne = λ t t' k v j e ne.
      look_set t t' k v j e ∙ look_ne (without k t) k v j ne ∙ look-without_ne t k j ne;
  get-delete_self = λ t t' k e. look_delete t t' k k e ∙ look-without_self t k;
  get-delete_ne = λ t t' k j e ne. look_delete t t' k j e ∙ look-without_ne t k j ne;
}

pub shelf-Reliable : Reliable shelf
shelf-Reliable = record {
  sets = λ t k v. ((k, v) ∷ without k t, refl);
  deletes = λ t k. (without k t, refl);
  commits = λ t. refl;
}

abbrev pub shelf_keys : Iterator shelf
shelf_keys = record { keys = keys_in; keys_sound = keys_in_sound; keys_complete = keys_in_complete }
