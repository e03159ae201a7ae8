-- ===== src/Kv/Refinement/Single.antt =====
-- On a store that accepts writes: the operations on one key.
use native.Mathlib.Nat.{pow-suc}
use flin.Prelude.{
  ℕ, ◌≡◌, ◌≢◌, refl, sym, ap, ◌∙◌, false, arith, [], ◌∷◌, length, ◌+◌, ◌*◌, ◌^◌, Option, none, some,
  Bool-cases, inl, inr,
}
use flin.Wire.Outcome.{Bytes, ok}
use flin.Wire.BigEndian.{put_be, be_value}
use flin.Wire.Signed.{signed_lt}
use flin.Badger.{Badger, Lookup, Reliable, found}
use flin.Badger.Memory.{same_key, same_key_iff}
use flin.Badger.Writers.{Writers, IsLawful, AreReliable}
use flin.Kv.Storage.{
  Storage, set_entry, count_body, counter_of, increment, decrement, counter_value, for_key, writing,
  value_of, is_found,
}
use flin.Kv.Storage
use flin.Kv.View.{
  View, Operation, Answer, Shows, update_view, lookup_of, counter_at, spec, count_at, answer_value,
  has_value, number,
}
use flin.Kv.Calls.{call, answer}

-- A lookup that changes at one key changes the view at that key.
pub view_change :
    (f g : Bytes → Lookup) (m : View) (key : Bytes) (v : Option Bytes)
    → ((k : Bytes) → f k ≡ lookup_of (m k))
    → g key ≡ lookup_of v
    → ((k : Bytes) → key ≢ k → g k ≡ f k)
    → (k : Bytes) → g k ≡ lookup_of (update_view m key v k)
unfolding update_view
view_change f g m key v h self ne k = elim (Bool-cases (same_key key k)) [
  | inl y ↦ rw y (ap g (sym ((same_key_iff key k).0 y)) ∙ self)
  | inr n ↦ rw n (ne k (λ e. no_key n e) ∙ h k)
]
  where
    no_key : same_key key k ≡ false → key ≡ k → ⊥
    no_key n e = let y = (same_key_iff key k).1 e in cc

-- What is read in base 256 after `acc`.
be_value-number : (acc : ℕ) (v : Bytes) → be_value acc v ≡ acc * 256 ^ length v + number v
unfolding be_value number
be_value-number acc [] = omega arith
be_value-number acc (x ∷ xs) =
    omega
      (arith, be_value-number (acc * 256 + x) xs, ap (λ (t : ℕ). acc * t) (pow-suc 256 (length xs)))

module _ (b : Badger) (w : Writers b) (r : Reliable b) (l : IsLawful b w)
    (a : AreReliable b w) where
  -- The call answers as the view does, and leaves a storage that shows the view's outcome.
  pub record Follows (o : Operation) (s : Storage b) (m : View) : Type 0 where
    pub next : Storage b
    pub called : call b w o s ≡ ((spec o m).0, next)
    pub shows : Shows b next (spec o m).1

  set_entry_lem :
      (t : b.Txn) (key v : Bytes) (ttl : ℕ)
      → (t' : b.Txn) × (set_entry b w t key v ttl ≡ ok t')
        × (b.get t' key ≡ found v)
        × ((k : Bytes) → key ≢ k → b.get t' k ≡ b.get t k)
  unfolding set_entry
  set_entry_lem t key v ttl = elim (Bool-cases (signed_lt 0 ttl)) [
    | inl y ↦
        let (t', e) = a.sets_ttl t key v ttl in
        (
          t',
          rw (y, e),
          l.get-set_ttl_self t t' key v ttl e,
          λ k. l.get-set_ttl_ne t t' key v k ttl e,
        )
    | inr n ↦
        let (t', e) = r.sets t key v in
        (t', rw (n, e), b.get-set_self t t' key v e, λ k. b.get-set_ne t t' key v k e)
  ]

  pub set-Follows :
      (key v : Bytes) (ttl : ℕ) (s : Storage b) (m : View)
      → Shows b s m
      → Follows (Operation.set key v ttl) s m
  unfolding call Storage.set spec
  set-Follows [] v ttl s m h = record { next = s; called = rw h.is_open; shows = h }
  set-Follows (x ∷ xs) v ttl s m h =
      let (t', e, self, ne) = set_entry_lem s.db (x ∷ xs) v ttl in
      record {
        next = record s { db = t' };
        called = rw (h.is_open, e, r.commits t');
        shows = record {
          is_open = h.is_open;
          agrees = view_change (b.get s.db) (b.get t') m (x ∷ xs) (some v) h.agrees self ne;
        };
      }

  value_of_lem :
      (o : Option Bytes) → answer Answer.value (value_of b (lookup_of o)) ≡ answer_value o
  value_of_lem none = refl
  value_of_lem (some v) = refl

  -- A call that reads, on a key that is not empty, and on an empty one.
  pub get-Follows :
      (key : Bytes) (s : Storage b) (m : View) → Shows b s m → Follows (Operation.get key) s m
  unfolding call Storage.get spec
  get-Follows [] s m h = record { next = s; called = rw h.is_open; shows = h }
  get-Follows (x ∷ xs) s m h = record {
    next = s;
    called = (ap (λ x. (x, s)) (rw (h.is_open, h.agrees (x ∷ xs)) (value_of_lem (m (x ∷ xs)))));
    shows = h;
  }

  is_found_lem :
      (o : Option Bytes)
      → answer Answer.holds (is_found b (lookup_of o)) ≡ Answer.holds (has_value o)
  is_found_lem none = refl
  is_found_lem (some v) = refl

  pub exists-Follows :
      (key : Bytes) (s : Storage b) (m : View) → Shows b s m → Follows (Operation.exists key) s m
  unfolding call Storage.exists spec
  exists-Follows [] s m h = record { next = s; called = rw h.is_open; shows = h }
  exists-Follows (x ∷ xs) s m h = record {
    next = s;
    called = (ap (λ x. (x, s)) (rw (h.is_open, h.agrees (x ∷ xs)) (is_found_lem (m (x ∷ xs)))));
    shows = h;
  }

  pub delete-Follows :
      (key : Bytes) (s : Storage b) (m : View) → Shows b s m → Follows (Operation.delete key) s m
  unfolding call Storage.delete spec
  delete-Follows [] s m h = record { next = s; called = rw h.is_open; shows = h }
  delete-Follows (x ∷ xs) s m h =
      let (t', e) = r.deletes s.db (x ∷ xs) in
      record {
        next = record s { db = t' };
        called = rw (h.is_open, e, r.commits t');
        shows = record {
          is_open = h.is_open;
          agrees =
              view_change (b.get s.db) (b.get t') m (x ∷ xs) none h.agrees
                (b.get-delete_self s.db t' (x ∷ xs) e) (λ k. b.get-delete_ne s.db t' (x ∷ xs) k e);
        };
      }

  counter_of_lem : (o : Option Bytes) → counter_of b (lookup_of o) ≡ ok (counter_at o)
  unfolding counter_value
  counter_of_lem none = refl
  counter_of_lem (some v) =
      let e : be_value 0 v ≡ number v = omega (arith, be_value-number 0 v) in rw e

  -- Incr and Decr on a key that is not empty, by what they do to the counter.
  count_body_lem :
      (step : ℕ → ℕ) (key : Bytes) (s : Storage b) (m : View)
      → Shows b s m
      → (t' : b.Txn) × (count_body b step key s.db ≡ ok (step (counter_at (m key)), t'))
        × Shows b (record s { db = t' }) (count_at step key m).1
  unfolding count_body put_be
  count_body_lem step key s m h =
      let n : ℕ = step (counter_at (m key)) in
      let (t', e) = r.sets s.db key (put_be 8 n) in
      (
        t',
        rw (h.agrees key, counter_of_lem (m key), e),
        record {
          is_open = h.is_open;
          agrees =
              view_change (b.get s.db) (b.get t') m key (some (put_be 8 n)) h.agrees
                (b.get-set_self s.db t' key (put_be 8 n) e)
                (λ k. b.get-set_ne s.db t' key (put_be 8 n) k e);
        },
      )

  pub incr-Follows :
      (key : Bytes) (s : Storage b) (m : View) → Shows b s m → Follows (Operation.incr key) s m
  unfolding call Storage.incr spec
  incr-Follows [] s m h = record { next = s; called = rw h.is_open; shows = h }
  incr-Follows (x ∷ xs) s m h =
      let (t', e, shown) = count_body_lem increment (x ∷ xs) s m h in
      record {
        next = record s { db = t' };
        called = rw (h.is_open, e, r.commits t');
        shows = shown;
      }

  pub decr-Follows :
      (key : Bytes) (s : Storage b) (m : View) → Shows b s m → Follows (Operation.decr key) s m
  unfolding call Storage.decr spec
  decr-Follows [] s m h = record { next = s; called = rw h.is_open; shows = h }
  decr-Follows (x ∷ xs) s m h =
      let (t', e, shown) = count_body_lem decrement (x ∷ xs) s m h in
      record {
        next = record s { db = t' };
        called = rw (h.is_open, e, r.commits t');
        shows = shown;
      }
