-- ===== src/Badger/Writers.antt =====
-- github.com/dgraph-io/badger: entries with a time to live, and write batches.
use flin.Prelude.{ℕ, ◌≡◌, ◌≢◌}
use flin.Wire.Outcome.{Bytes, Outcome, ok}
use flin.Badger.{Badger, Lookup, found, missing}

-- `txn.SetEntry(badger.NewEntry(k, v).WithTTL(ttl))`: the entry stands until its time has passed.
-- A write batch commits on its own when it grows too large, so it stands for the database with what
-- it has committed and what is still to be flushed, and is left behind by an error.
pub record Writers (b : Badger) : Type 1 where
  pub set_ttl : b.Txn → Bytes → Bytes → ℕ → Outcome b.Txn
  pub Batch : Type 0
  pub new_batch : b.Txn → Batch
  pub batch_set : Batch → Bytes → Bytes → Outcome (Unit {0}) × Batch
  pub batch_set_ttl : Batch → Bytes → Bytes → ℕ → Outcome (Unit {0}) × Batch
  pub batch_delete : Batch → Bytes → Outcome (Unit {0}) × Batch
  pub flush : Batch → Outcome (Unit {0}) × b.Txn
  pub cancel : Batch → b.Txn
  -- What a reader of the database finds once the batch is flushed.
  pub due : Batch → Bytes → Lookup

-- The laws of the documentation: an entry is found until its time to live has passed, and a batch
-- that was flushed has made its writes in their order.
pub record IsLawful (b : Badger) (w : Writers b) : Type 0 where
  pub get-set_ttl_self :
      (t t' : b.Txn) (k v : Bytes) (ttl : ℕ) → w.set_ttl t k v ttl ≡ ok t' → b.get t' k ≡ found v
  pub get-set_ttl_ne :
      (t t' : b.Txn) (k v j : Bytes) (ttl : ℕ)
      → w.set_ttl t k v ttl ≡ ok t'
      → k ≢ j
      → b.get t' j ≡ b.get t j
  pub due-new_batch : (t : b.Txn) (k : Bytes) → w.due (w.new_batch t) k ≡ b.get t k
  pub due-batch_set_self :
      (u u' : w.Batch) (k v : Bytes) → w.batch_set u k v ≡ (ok tt, u') → w.due u' k ≡ found v
  pub due-batch_set_ne :
      (u u' : w.Batch) (k v j : Bytes)
      → w.batch_set u k v ≡ (ok tt, u')
      → k ≢ j
      → w.due u' j ≡ w.due u j
  pub due-batch_set_ttl_self :
      (u u' : w.Batch) (k v : Bytes) (ttl : ℕ)
      → w.batch_set_ttl u k v ttl ≡ (ok tt, u')
      → w.due u' k ≡ found v
  pub due-batch_set_ttl_ne :
      (u u' : w.Batch) (k v j : Bytes) (ttl : ℕ)
      → w.batch_set_ttl u k v ttl ≡ (ok tt, u')
      → k ≢ j
      → w.due u' j ≡ w.due u j
  pub due-batch_delete_self :
      (u u' : w.Batch) (k : Bytes) → w.batch_delete u k ≡ (ok tt, u') → w.due u' k ≡ missing
  pub due-batch_delete_ne :
      (u u' : w.Batch) (k j : Bytes)
      → w.batch_delete u k ≡ (ok tt, u')
      → k ≢ j
      → w.due u' j ≡ w.due u j
  pub get-flush :
      (u : w.Batch) (t : b.Txn) (k : Bytes) → w.flush u ≡ (ok tt, t) → b.get t k ≡ w.due u k

-- Every write of a batch and every flush succeeds.
pub record AreReliable (b : Badger) (w : Writers b) : Type 0 where
  pub sets_ttl : (t : b.Txn) (k v : Bytes) (ttl : ℕ) → (t' : b.Txn) × (w.set_ttl t k v ttl ≡ ok t')
  pub batch_sets : (u : w.Batch) (k v : Bytes) → (u' : w.Batch) × (w.batch_set u k v ≡ (ok tt, u'))
  pub batch_sets_ttl :
      (u : w.Batch) (k v : Bytes) (ttl : ℕ)
      → (u' : w.Batch) × (w.batch_set_ttl u k v ttl ≡ (ok tt, u'))
  pub batch_deletes :
      (u : w.Batch) (k : Bytes) → (u' : w.Batch) × (w.batch_delete u k ≡ (ok tt, u'))
  pub flushes : (u : w.Batch) → (t : b.Txn) × (w.flush u ≡ (ok tt, t))
