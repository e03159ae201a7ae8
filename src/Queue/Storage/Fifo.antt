-- ===== src/Queue/Storage/Fifo.antt =====
-- On a store that accepts writes, `push`, `pop`, `peek`, `len` and `clear` act on a queue as on a list
-- of items, oldest first, and leave every other queue as it was.
use native.Mathlib.Nat.{mod-eq_of_lt}
use flin.Prelude.{
  ℕ, suc, ◌+◌, ◌%◌, ◌^◌, ◌<◌, ◌≡◌, ◌≢◌, ap, ◌∙◌, true, false, List, [], ◌∷◌, ◌++◌, length,
  length-append, leb, arith,
}
use flin.Wire.Outcome.{Bytes, ok, err}
use flin.Badger.{Badger, Reliable, found}
use flin.Queue.Keys.{data_key}
use flin.Queue.Storage.Defs.{
  QueueMetadata, set_metadata, is_empty, push, push_body, pop, pop_body, peek, len, err_queue_empty,
}
use flin.Queue.Storage.Contents.{
  ItemsAt, Holds, SameQueue, ItemsAt-same, get_metadata-set, item-set_metadata,
  metadata-set_metadata, item-set_item, item-delete_item, metadata-set_item, metadata-delete_item,
}

module _ (b : Badger) (r : Reliable b) (name : Bytes) (named : is_empty name ≡ false) where
  open b use {Txn, get, set, delete}

  sets_metadata :
      (t : Txn) (meta : QueueMetadata) → (t' : Txn) × (set_metadata b t name meta ≡ ok t')
  unfolding set_metadata
  sets_metadata t meta = r.sets t _ _

  -- A new item and new metadata of this queue do not show in another.
  SameQueue-written :
      (t t' t'' : Txn) (i : ℕ) (v : Bytes) (meta : QueueMetadata) (other : Bytes)
      → i < 2 ^ 64
      → name ≢ other
      → set t (data_key name i) v ≡ ok t'
      → set_metadata b t' name meta ≡ ok t''
      → SameQueue b t t'' other
  SameQueue-written t t' t'' i v meta other hi ne e e' = record {
    same_metadata =
        metadata-set_metadata b t' t'' name other meta ne e'
        ∙ metadata-set_item b t t' name other i v e;
    same_items = λ j hj.
        item-set_metadata b t' t'' name other j meta e'
        ∙ item-set_item b t t' name other i j v hi hj (λ p. ne p.0) e;
  }

  SameQueue-deleted :
      (t t' t'' : Txn) (i : ℕ) (meta : QueueMetadata) (other : Bytes)
      → i < 2 ^ 64
      → name ≢ other
      → delete t (data_key name i) ≡ ok t'
      → set_metadata b t' name meta ≡ ok t''
      → SameQueue b t t'' other
  SameQueue-deleted t t' t'' i meta other hi ne e e' = record {
    same_metadata =
        metadata-set_metadata b t' t'' name other meta ne e'
        ∙ metadata-delete_item b t t' name other i e;
    same_items = λ j hj.
        item-set_metadata b t' t'' name other j meta e'
        ∙ item-delete_item b t t' name other i j hi hj (λ p. ne p.0) e;
  }

  ItemsAt-append :
      (t : Txn) (i : ℕ) (items : List Bytes) (v : Bytes)
      → ItemsAt b t name i items
      → get t (data_key name (i + length items)) ≡ found v
      → ItemsAt b t name i (items ++ v ∷ [])
  ItemsAt-append t i [] v h e = let z : i + 0 ≡ i = omega arith in (rw z at e, tt)
  ItemsAt-append t i (x ∷ xs) v (hx, h) e =
      let z : i + suc (length xs) ≡ i + 1 + length xs = omega arith in
      (hx, ItemsAt-append t (i + 1) xs v h (rw z at e))

  -- `push` puts the value behind the items, and leaves every other queue as it was.
  pub push-Holds :
      (db : Txn) (head : ℕ) (items : List Bytes) (value : Bytes)
      → Holds b db name head items
      → head + length items + 1 < 2 ^ 64
      → (db' : Txn) × (push b name value db ≡ (ok tt, db'))
        × Holds b db' name head (items ++ value ∷ [])
        × ((other : Bytes) → name ≢ other → SameQueue b db db' other)
  unfolding push push_body
  push-Holds db head items value h room =
      let n : ℕ = head + length items in
      let (t, e) = r.sets db (data_key name n) value in
      let (t', e') = sets_metadata t (record { head = head; tail = n + 1 }) in
      let fits : (n + 1) % 2 ^ 64 ≡ n + 1 = mod-eq_of_lt room in
      let l : length (items ++ value ∷ []) ≡ length items + 1 =
        omega (arith, length-append items (value ∷ [])) in
      (
        t',
        rw (named, h.metadata, e, fits, e', r.commits t'),
        record {
          metadata =
              get_metadata-set b t t' name head (n + 1) (omega arith) room e'
              ∙ ap (λ k. ok (record { head = head; tail = k })) (omega (arith, l));
          items_at =
              ItemsAt-append t' head items value
                (ItemsAt-same b db t' name head items
                  (λ j lo hi.
                    item-set_metadata b t t' name name j _ e'
                    ∙ item-set_item b db t name name n j value (omega arith) (omega arith)
                        (λ p. absurd (omega (arith, p.1))) e)
                  h.items_at)
                (item-set_metadata b t t' name name n _ e' ∙ b.get-set_self db t _ _ e);
          in_range = omega (arith, l);
        },
        λ other ne. SameQueue-written db t t' n value _ other (omega arith) ne e e',
      )

  -- `pop` returns the oldest item and takes it out, and leaves every other queue as it was.
  pub pop-Holds :
      (db : Txn) (head : ℕ) (item : Bytes) (items : List Bytes)
      → Holds b db name head (item ∷ items)
      → (db' : Txn) × (pop b name db ≡ (ok item, db'))
        × Holds b db' name (head + 1) items
        × ((other : Bytes) → name ≢ other → SameQueue b db db' other)
  unfolding pop pop_body
  pop-Holds db head item items h =
      let n : ℕ = head + suc (length items) in
      let range : n < 2 ^ 64 = h.in_range in
      let (t, e) = r.deletes db (data_key name head) in
      let (t', e') = sets_metadata t (record { head = head + 1; tail = n }) in
      let fits : (head + 1) % 2 ^ 64 ≡ head + 1 = mod-eq_of_lt (omega arith) in
      let more : leb n head ≡ false = ground arith in
      (
        t',
        rw (named, h.metadata, more, h.items_at.0, e, fits, e', r.commits t'),
        record {
          metadata =
              get_metadata-set b t t' name (head + 1) n (omega arith) range e'
              ∙ ap (λ k. ok (record { head = head + 1; tail = k })) (omega arith);
          items_at =
              ItemsAt-same b db t' name (head + 1) items
                (λ j lo hi.
                  item-set_metadata b t t' name name j _ e'
                  ∙ item-delete_item b db t name name head j (omega arith) (omega arith)
                      (λ p. absurd (omega (arith, p.1))) e)
                h.items_at.1;
          in_range = omega arith;
        },
        λ other ne. SameQueue-deleted db t t' head _ other (omega arith) ne e e',
      )

  -- On an empty queue `pop` fails and changes nothing.
  pub pop-empty :
      (db : Txn) (head : ℕ) → Holds b db name head [] → pop b name db ≡ (err err_queue_empty, db)
  unfolding pop pop_body
  pop-empty db head h =
      let none_left : leb (head + 0) head ≡ true = ground arith in rw (named, h.metadata, none_left)

  -- `peek` returns the oldest item.
  pub peek-Holds :
      (db : Txn) (head : ℕ) (item : Bytes) (items : List Bytes)
      → Holds b db name head (item ∷ items)
      → peek b name db ≡ ok item
  unfolding peek
  peek-Holds db head item items h =
      let more : leb (head + suc (length items)) head ≡ false = ground arith in
      rw (named, h.metadata, more, h.items_at.0)

  pub peek-empty :
      (db : Txn) (head : ℕ) → Holds b db name head [] → peek b name db ≡ err err_queue_empty
  unfolding peek
  peek-empty db head h =
      let none_left : leb (head + 0) head ≡ true = ground arith in rw (named, h.metadata, none_left)

  -- `len` returns the number of items.
  pub len-Holds :
      (db : Txn) (head : ℕ) (items : List Bytes)
      → Holds b db name head items
      → len b name db ≡ ok (length items)
  unfolding len
  len-Holds db head items h = rw (named, h.metadata) (ap ok (ground arith))
