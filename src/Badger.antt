-- ===== src/Badger.antt =====
-- github.com/dgraph-io/badger, which the storage packages call: transactions over a map from keys
-- to values. The operations are a parameter of the model, and the laws are their documentation.
pub mod Memory
pub mod Shelf
pub mod ShelfWriters
pub mod Writers
use mathlib.Core.List.{Memᴰ}
use flin.Prelude.{◌≡◌, ◌≢◌, List, ◌++◌}
use flin.Wire.Outcome.{Bytes, Error, Outcome, ok, err, panic}

-- `txn.Get(key)`: the value, `badger.ErrKeyNotFound`, or another error.
pub data Lookup : Type 0 where
  found : Bytes → Lookup
  missing : Lookup
  failed : Error → Lookup

-- `Txn` is what a transaction sees: the database with the transaction's own writes.
pub record Badger : Type 1 where
  pub Txn : Type 0
  pub get : Txn → Bytes → Lookup
  pub set : Txn → Bytes → Bytes → Outcome Txn
  pub delete : Txn → Bytes → Outcome Txn
  pub commit : Txn → Outcome (Unit {0})
  pub get-set_self : (t t' : Txn) (k v : Bytes) → set t k v ≡ ok t' → get t' k ≡ found v
  pub get-set_ne : (t t' : Txn) (k v j : Bytes) → set t k v ≡ ok t' → k ≢ j → get t' j ≡ get t j
  pub get-delete_self : (t t' : Txn) (k : Bytes) → delete t k ≡ ok t' → get t' k ≡ missing
  pub get-delete_ne : (t t' : Txn) (k j : Bytes) → delete t k ≡ ok t' → k ≢ j → get t' j ≡ get t j

-- `txn.NewIterator` with a prefix: the keys that begin with it, the transaction's own writes included.
pub record Iterator (b : Badger) : Type 0 where
  pub keys : b.Txn → Bytes → List Bytes
  pub keys_sound :
      (t : b.Txn) (prefix k : Bytes)
      → Memᴰ k (keys t prefix)
      → (s : Bytes) × (k ≡ prefix ++ s) × (b.get t k ≢ missing)
  pub keys_complete :
      (t : b.Txn) (prefix s : Bytes)
      → b.get t (prefix ++ s) ≢ missing
      → Memᴰ (prefix ++ s) (keys t prefix)

-- The store accepts every write and every commit: the disk and the size limits are not met.
pub record Reliable (b : Badger) : Type 0 where
  pub sets : (t : b.Txn) (k v : Bytes) → (t' : b.Txn) × (b.set t k v ≡ ok t')
  pub deletes : (t : b.Txn) (k : Bytes) → (t' : b.Txn) × (b.delete t k ≡ ok t')
  pub commits : (t : b.Txn) → b.commit t ≡ ok tt

module _ (b : Badger) where
  -- What is left of a transaction that tried to commit.
  abbrev pub settle : {A : Type 0} → b.Txn → A → b.Txn → Outcome (Unit {0}) → Outcome A × b.Txn
  settle db a t (ok _) = (ok a, t)
  settle db a t (err e) = (err e, db)
  settle db a t panic = (panic, db)

  -- `db.Update(body)`: the writes of `body` are kept if it returns no error and the commit succeeds.
  abbrev pub update : {A : Type 0} → b.Txn → Outcome (A × b.Txn) → Outcome A × b.Txn
  update db (ok (a, t)) = settle db a t (b.commit t)
  update db (err e) = (err e, db)
  update db panic = (panic, db)
