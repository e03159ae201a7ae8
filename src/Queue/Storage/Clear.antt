-- ===== src/Queue/Storage/Clear.antt =====
-- `clear` empties a queue, deletes its items, and leaves every other queue as it was.
use flin.Prelude.{
  ℕ, zero, suc, ◌+◌, ◌-◌, ◌^◌, ◌≤◌, ◌<◌, ◌≡◌, ◌≢◌, refl, ◌∙◌, false, List, [], ◌⊎◌, inl, inr,
  length, arith,
}
use flin.Wire.Outcome.{Bytes, ok}
use flin.Badger.{Badger, Reliable, missing}
use flin.Queue.Keys.{data_key, metadata_key}
use flin.Queue.Storage.Defs.{set_metadata, is_empty, clear, clear_body, delete_items, or_else}
use flin.Queue.Storage.Contents.{
  Holds, SameQueue, get_metadata-set, item-set_metadata, metadata-set_metadata, item-delete_item,
  metadata-delete_item,
}

module _ (b : Badger) (r : Reliable b) (name : Bytes) where
  open b use {Txn, get, set, delete}

  -- The first round, on a store that deletes.
  first_round :
      (t : Txn) (i : ℕ)
      → (t' : Txn) × (delete t (data_key name i) ≡ ok t')
        × (or_else b t (delete t (data_key name i)) ≡ t')
  first_round t i = let (t', e) = r.deletes t (data_key name i) in (t', e, rw e)

  -- The rounds from `i` on touch no position before `i`.
  before-delete_items :
      (rounds i j : ℕ) (t : Txn)
      → i + rounds ≤ 2 ^ 64
      → j < i
      → get (delete_items b rounds name i t) (data_key name j) ≡ get t (data_key name j)
  unfolding delete_items
  before-delete_items zero i j t room lt = refl
  before-delete_items (suc rounds) i j t room lt =
      let (t', e, s) = first_round t i in
      rw s (
        before-delete_items rounds (i + 1) j t' (omega arith) (omega arith)
        ∙ item-delete_item b t t' name name i j (omega arith) (omega arith)
            (λ p. absurd (omega (arith, p.1))) e)

  other-delete_items :
      (rounds i : ℕ) (t : Txn) (other : Bytes)
      → i + rounds ≤ 2 ^ 64
      → name ≢ other
      → SameQueue b t (delete_items b rounds name i t) other
  unfolding delete_items
  other-delete_items zero i t other room ne = record {
    same_metadata = refl;
    same_items = λ j hj. refl;
  }
  other-delete_items (suc rounds) i t other room ne =
      let (t', e, s) = first_round t i in
      let rest = other-delete_items rounds (i + 1) t' other (omega arith) ne in
      rw s (record {
        same_metadata = rest.same_metadata ∙ metadata-delete_item b t t' name other i e;
        same_items = λ j hj.
            rest.same_items j hj
            ∙ item-delete_item b t t' name other i j (omega arith) hj (λ p. ne p.0) e;
      })

  -- Every position of the loop is deleted.
  delete_items-missing :
      (rounds i j : ℕ) (t : Txn)
      → i + rounds ≤ 2 ^ 64
      → i ≤ j
      → j < i + rounds
      → get (delete_items b rounds name i t) (data_key name j) ≡ missing
  unfolding delete_items
  delete_items-missing zero i j t room lo hi = absurd (omega arith)
  delete_items-missing (suc rounds) i j t room lo hi =
      let (t', e, s) = first_round t i in
      rw s (elim (at_or_after i j lo) [
        | inl same ↦ rw (← same) (
            before-delete_items rounds (i + 1) i t' (omega arith) (omega arith)
            ∙ b.get-delete_self t t' _ e)
        | inr after ↦ delete_items-missing rounds (i + 1) j t' (omega arith) after (omega arith)
      ])
    where
      at_or_after : (i j : ℕ) → i ≤ j → (i ≡ j) ⊎ (i + 1 ≤ j)
      at_or_after i j le = grind arith

  -- After `clear` the queue is empty and starts at position 0 again, no item of it is left, and every
  -- other queue is as it was.
  pub clear-Holds :
      is_empty name ≡ false
      → (db : Txn) (head : ℕ) (items : List Bytes) → Holds b db name head items
      → (db' : Txn) × (clear b name db ≡ (ok tt, db'))
        × Holds b db' name 0 []
        × ((j : ℕ) → head ≤ j → j < head + length items → get db' (data_key name j) ≡ missing)
        × ((other : Bytes) → name ≢ other → SameQueue b db db' other)
  unfolding clear clear_body set_metadata
  clear-Holds named db head items h =
      let n : ℕ = head + length items in
      let rounds : n - head ≡ length items = omega arith in
      let t : Txn = delete_items b (length items) name head db in
      let room : head + length items ≤ 2 ^ 64 = omega (arith, h.in_range) in
      let (t', e) = r.sets t (metadata_key name) _ in
      (
        t',
        rw (named, h.metadata, rounds, e, r.commits t'),
        record {
          metadata = get_metadata-set b t t' name 0 0 (omega arith) (omega arith) e;
          items_at = tt;
          in_range = omega arith;
        },
        λ j lo hi.
            item-set_metadata b t t' name name j _ e
            ∙ delete_items-missing (length items) head j db room lo hi,
        λ other ne.
            let same = other-delete_items (length items) head db other room ne in
            record {
              same_metadata = metadata-set_metadata b t t' name other _ ne e ∙ same.same_metadata;
              same_items = λ j hj. item-set_metadata b t t' name other j _ e ∙ same.same_items j hj;
            },
      )
