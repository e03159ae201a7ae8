-- ===== src/Kv/Storage/Defs.antt =====
-- internal/kv/storage.go: the operations on one key. `KVStore` of internal/kv/kv.go passes its calls on
-- to these. A `time.Duration` or an `int64` is its bit pattern.
use flin.Prelude.{ℕ, ◌+◌, ◌-◌, ◌%◌, ◌^◌, Bool, true, false, ◌==◌, if◌then◌else◌, length}
use flin.Wire.Outcome.{Bytes, Error, Outcome, message, ok, err, then_do}
use flin.Wire.BigEndian.{put_be, be_value}
use flin.Wire.Signed.{signed_lt}
use flin.Badger.{Badger, Lookup, found, missing, failed, update}
use flin.Badger.Writers.{Writers}
use flin.Queue.Storage.{is_empty}

abbrev pub err_no_key : Error
err_no_key = message "key not found"

abbrev pub err_invalid_key : Error
err_invalid_key = message "invalid key"

abbrev pub err_closed : Error
err_closed = message "storage closed"

-- The counter that is stored as 8 bytes; any other value counts as 0.
unfoldable pub counter_value : Bytes → ℕ
counter_value val = if length val == 8 then be_value 0 val else 0

-- `currentValue++`
abbrev pub increment : ℕ → ℕ
increment n = (n + 1) % 2 ^ 64

-- `currentValue--`
abbrev pub decrement : ℕ → ℕ
decrement n = (n + 2 ^ 64 - 1) % 2 ^ 64

module _ (b : Badger) where
  -- `gcTicker` and `gcDone` run the garbage collection of the database, which the model has not.
  pub record Storage : Type 0 where
    pub db : b.Txn
    pub closed : Bool

  -- `if s.closed.Load() { … }` and `if key == "" { … }` before an operation on a key.
  abbrev pub for_key {ℓ} : {A : Type ℓ} → Storage → Bytes → Outcome A → Outcome A
  for_key s key m =
      if s.closed then err err_closed else if is_empty key then err err_invalid_key else m

  -- The same before an operation that writes.
  abbrev pub writing {ℓ} : {A : Type ℓ} → Storage → Bytes → Outcome A × b.Txn → Outcome A × Storage
  writing s key m =
      if s.closed
      then (err err_closed, s)
      else if is_empty key
      then (err err_invalid_key, s)
      else (m.0, record s { db = m.1 })

  -- What `db.Close()` returns is an argument.
  unfoldable pub close : Outcome (Unit {0}) → Storage → Outcome (Unit {0}) × Storage
  close db_close s =
      if s.closed then (err err_closed, s) else (db_close, record s { closed = true })

  unfoldable pub set_entry : Writers b → b.Txn → Bytes → Bytes → ℕ → Outcome b.Txn
  set_entry w txn key value ttl =
      if signed_lt 0 ttl then w.set_ttl txn key value ttl else b.set txn key value

  unfoldable pub set : Writers b → Bytes → Bytes → ℕ → Storage → Outcome (Unit {0}) × Storage
  set w key value ttl s =
      writing s key (update b s.db (then_do (set_entry w s.db key value ttl) λ txn. ok (tt, txn)))

  abbrev pub value_of : Lookup → Outcome Bytes
  value_of missing = err err_no_key
  value_of (failed e) = err e
  value_of (found val) = ok val

  unfoldable pub get : Bytes → Storage → Outcome Bytes
  get key s = for_key s key (value_of (b.get s.db key))

  abbrev pub counter_of : Lookup → Outcome ℕ
  counter_of missing = ok 0
  counter_of (failed e) = err e
  counter_of (found val) = ok (counter_value val)

  -- The transaction of Incr and of Decr, by what it does to the counter.
  unfoldable pub count_body : (ℕ → ℕ) → Bytes → b.Txn → Outcome (ℕ × b.Txn)
  count_body step key txn = then_do (counter_of (b.get txn key)) λ current_value.
      let new_value = step current_value in
      then_do (b.set txn key (put_be 8 new_value)) λ txn'. ok (new_value, txn')

  -- The value that the source returns beside an error is left out, here and below.
  unfoldable pub incr : Bytes → Storage → Outcome ℕ × Storage
  incr key s = writing s key (update b s.db (count_body increment key s.db))

  unfoldable pub decr : Bytes → Storage → Outcome ℕ × Storage
  decr key s = writing s key (update b s.db (count_body decrement key s.db))

  unfoldable pub delete : Bytes → Storage → Outcome (Unit {0}) × Storage
  delete key s = writing s key (update b s.db (then_do (b.delete s.db key) λ txn. ok (tt, txn)))

  abbrev pub is_found : Lookup → Outcome Bool
  is_found missing = ok false
  is_found (failed e) = err e
  is_found (found val) = ok true

  unfoldable pub exists : Bytes → Storage → Outcome Bool
  exists key s = for_key s key (is_found (b.get s.db key))
