-- ===== src/Queue/Delivery/Writes.antt =====
-- What a transaction's writes at the keys of a message leave.
use flin.Prelude.{◌≡◌, ◌≢◌, refl, sym, ◌∙◌, length}
use flin.Wire.Outcome.{Bytes, ok}
use flin.Badger.{Badger, Lookup, found, missing}
use flin.Queue.Delivery.Slots.{Slot, slot_key, slot_key-injective}

module _ (b : Badger) where
  open b use {Txn, get, set, delete}

  unfoldable pub at_slot : Txn → Bytes → Slot → Bytes → Lookup
  at_slot t name s id = get t (slot_key name s id)

  -- Every message but one, with an id of the same length, is as it was, in every queue.
  pub record SameElsewhere (t t' : Txn) (name id : Bytes) : Type 0 where
    pub same :
        (name' : Bytes) (s : Slot) (id' : Bytes)
        → length id' ≡ length id
        → ¬ ((name ≡ name') × (id ≡ id'))
        → at_slot t' name' s id' ≡ at_slot t name' s id'

  -- One slot of one message has changed.
  pub record Wrote (t t' : Txn) (name id : Bytes) (s : Slot) (v : Lookup) : Type 0 where
    pub self : at_slot t' name s id ≡ v
    pub others :
        (name' : Bytes) (s' : Slot) (id' : Bytes)
        → length id' ≡ length id
        → ¬ ((name ≡ name') × (s ≡ s') × (id ≡ id'))
        → at_slot t' name' s' id' ≡ at_slot t name' s' id'

  pub set-Wrote :
      (t t' : Txn) (name id v : Bytes) (s : Slot)
      → set t (slot_key name s id) v ≡ ok t'
      → Wrote t t' name id s (found v)
  unfolding at_slot
  set-Wrote t t' name id v s e = record {
    self = b.get-set_self t t' _ v e;
    others = λ name' s' id' h ne.
        b.get-set_ne t t' _ v _ e (λ k. ne (slot_key-injective name name' id id' s s' (sym h) k));
  }

  pub delete-Wrote :
      (t t' : Txn) (name id : Bytes) (s : Slot)
      → delete t (slot_key name s id) ≡ ok t'
      → Wrote t t' name id s missing
  unfolding at_slot
  delete-Wrote t t' name id s e = record {
    self = b.get-delete_self t t' _ e;
    others = λ name' s' id' h ne.
        b.get-delete_ne t t' _ _ e (λ k. ne (slot_key-injective name name' id id' s s' (sym h) k));
  }

  module _ {t t' : Txn} {name id : Bytes} {s : Slot} {v : Lookup} (w : Wrote t t' name id s v) where
    pub other_slot : (s' : Slot) → s ≢ s' → at_slot t' name s' id ≡ at_slot t name s' id
    other_slot s' ne = w.others name s' id refl (λ p. ne p.1)

    pub Wrote-SameElsewhere : SameElsewhere t t' name id
    Wrote-SameElsewhere = record {
      same = λ name' s' id' h ne. w.others name' s' id' h (λ p. ne (p.0, p.2));
    }

  pub SameElsewhere-trans :
      {t t' t'' : Txn} {name id : Bytes}
      → SameElsewhere t t' name id
      → SameElsewhere t' t'' name id
      → SameElsewhere t t'' name id
  SameElsewhere-trans p q = record {
    same = λ name' s id' h ne. q.same name' s id' h ne ∙ p.same name' s id' h ne;
  }
