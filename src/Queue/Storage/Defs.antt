-- ===== src/Queue/Storage/Defs.antt =====
-- internal/queue/storage.go: `QueueMetadata` and the operations on a queue by position. Each takes
-- the database, and returns its result with the database that it leaves.
use flin.Prelude.{
  ℕ, zero, suc, ◌+◌, ◌-◌, ◌%◌, ◌^◌, Bool, true, false, [], ◌∷◌, ◌++◌, ltb, leb, ◌==◌, if◌then◌else◌,
  length, take, drop,
}
use flin.Wire.Outcome.{Bytes, Error, Outcome, message, ok, err, panic, then_do}
use flin.Wire.BigEndian.{put_be, be_value}
use flin.Badger.{Badger, Lookup, found, missing, failed, update}
use flin.Queue.Keys.{metadata_key, data_key}

abbrev pub err_queue_empty : Error
err_queue_empty = message "queue is empty"

abbrev pub err_invalid_queue : Error
err_invalid_queue = message "invalid queue name"

abbrev pub err_key_not_found : Error
err_key_not_found = message "Key not found"

pub record QueueMetadata : Type 0 where
  pub head : ℕ
  pub tail : ℕ

abbrev pub empty_metadata : QueueMetadata
empty_metadata = record { head = 0; tail = 0 }

-- The value under the metadata key: two uint64s in 16 bytes; any other length reads as empty.
unfoldable pub decode_metadata : Bytes → QueueMetadata
decode_metadata val =
    if length val == 16
    then record { head = be_value 0 (take 8 val); tail = be_value 0 (drop 8 val) }
    else empty_metadata

unfoldable pub encode_metadata : QueueMetadata → Bytes
encode_metadata meta = put_be 8 meta.head ++ put_be 8 meta.tail

-- `queueName == ""`
abbrev pub is_empty : Bytes → Bool
is_empty [] = true
is_empty (x ∷ xs) = false

module _ (b : Badger) where
  open b use {Txn, get, set, delete}

  abbrev pub metadata_of : Lookup → Outcome QueueMetadata
  metadata_of missing = ok empty_metadata
  metadata_of (failed e) = err e
  metadata_of (found val) = ok (decode_metadata val)

  unfoldable pub get_metadata : Txn → Bytes → Outcome QueueMetadata
  get_metadata txn queue_name = metadata_of (get txn (metadata_key queue_name))

  unfoldable pub set_metadata : Txn → Bytes → QueueMetadata → Outcome Txn
  set_metadata txn queue_name meta = set txn (metadata_key queue_name) (encode_metadata meta)

  -- `item, err := txn.Get(itemKey)` and `item.ValueCopy(nil)`
  abbrev pub item_value : Lookup → Outcome Bytes
  item_value missing = err err_key_not_found
  item_value (failed e) = err e
  item_value (found val) = ok val

  unfoldable pub push_body : Bytes → Bytes → Txn → Outcome (Unit {0} × Txn)
  push_body queue_name value txn = then_do (get_metadata txn queue_name) λ meta.
      then_do (set txn (data_key queue_name meta.tail) value) λ txn'.
        then_do (set_metadata txn' queue_name (record meta { tail = (meta.tail + 1) % 2 ^ 64 }))
          λ txn''. ok (tt, txn'')

  unfoldable pub push : Bytes → Bytes → Txn → Outcome (Unit {0}) × Txn
  push queue_name value db =
      if is_empty queue_name
      then (err err_invalid_queue, db)
      else update b db (push_body queue_name value db)

  unfoldable pub pop_body : Bytes → Txn → Outcome (Bytes × Txn)
  pop_body queue_name txn = then_do (get_metadata txn queue_name) λ meta.
      if leb meta.tail meta.head
      then err err_queue_empty
      else then_do (item_value (get txn (data_key queue_name meta.head))) λ value.
        then_do (delete txn (data_key queue_name meta.head)) λ txn'.
          then_do (set_metadata txn' queue_name (record meta { head = (meta.head + 1) % 2 ^ 64 }))
            λ txn''. ok (value, txn'')

  unfoldable pub pop : Bytes → Txn → Outcome Bytes × Txn
  pop queue_name db =
      if is_empty queue_name
      then (err err_invalid_queue, db)
      else update b db (pop_body queue_name db)

  -- A `db.View` reads, and leaves the database as it is.
  unfoldable pub peek : Bytes → Txn → Outcome Bytes
  peek queue_name db =
      if is_empty queue_name
      then err err_invalid_queue
      else then_do (get_metadata db queue_name) λ meta.
        if leb meta.tail meta.head
        then err err_queue_empty
        else item_value (get db (data_key queue_name meta.head))

  unfoldable pub len : Bytes → Txn → Outcome ℕ
  len queue_name db =
      if is_empty queue_name
      then err err_invalid_queue
      else then_do (get_metadata db queue_name)
          λ meta. ok (if ltb meta.head meta.tail then meta.tail - meta.head else 0)

  -- A deletion that fails is passed over: `continue`.
  abbrev pub or_else : Txn → Outcome Txn → Txn
  or_else txn (ok txn') = txn'
  or_else txn (err e) = txn
  or_else txn panic = txn

  -- `for i := meta.Head; i < meta.Tail; i++`, by the rounds left.
  unfoldable pub delete_items : ℕ → Bytes → ℕ → Txn → Txn
  delete_items zero queue_name i txn = txn
  delete_items (suc rounds) queue_name i txn =
      delete_items rounds queue_name (i + 1) (or_else txn (delete txn (data_key queue_name i)))

  unfoldable pub clear_body : Bytes → Txn → Outcome (Unit {0} × Txn)
  clear_body queue_name txn = then_do (get_metadata txn queue_name) λ meta.
      then_do
        (set_metadata (delete_items (meta.tail - meta.head) queue_name meta.head txn) queue_name
          empty_metadata)
        λ txn'. ok (tt, txn')

  unfoldable pub clear : Bytes → Txn → Outcome (Unit {0}) × Txn
  clear queue_name db =
      if is_empty queue_name
      then (err err_invalid_queue, db)
      else update b db (clear_body queue_name db)
