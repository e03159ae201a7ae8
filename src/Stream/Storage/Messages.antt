-- ===== src/Stream/Storage/Messages.antt =====
-- internal/stream/storage.go, storage_batch.go: reads of messages, retention, and batches.
use flin.Prelude.{ℕ, ◌+◌, ◌-◌, ◌%◌, ◌^◌, List, [], ◌∷◌, ◌++◌, length, if◌then◌else◌}
use flin.Wire.Outcome.{Bytes, Outcome, ok, err, panic, then_do}
use flin.Wire.Signed.{signed_lt}
use flin.Badger.{Badger, Lookup, Iterator, found, missing, failed, update}
use flin.Queue.Storage.{err_key_not_found}
use flin.Stream.Message.Types.{Message}
use flin.Stream.Message.Decode.{decode_message}
use flin.Stream.Keys.{make_message_key, make_message_prefix}
use flin.Stream.Storage.Defs.{StreamStorage, flush_writes}

module _ (b : Badger) where
  abbrev pub message_at : Lookup → Outcome Message
  message_at missing = err err_key_not_found
  message_at (failed e) = err e
  message_at (found val) = decode_message val

  -- `for it.Seek(seekKey); it.ValidForPrefix(prefix) && count < maxCount; it.Next()` over the keys that
  -- the iterator has left, which are found.
  unfoldable pub read_messages_from :
      b.Txn → ℕ → List Bytes → ℕ → List Message → Outcome (List Message)
  read_messages_from txn max_count [] count messages = ok messages
  read_messages_from txn max_count (key ∷ rest) count messages =
      let next = read_messages_from txn max_count rest (count + 1) in
      if signed_lt count max_count
      then then_do (message_at (b.get txn key)) (λ msg. next (messages ++ msg ∷ []))
      else ok messages

  -- `seek txn prefix key` lists the keys with the prefix that the iterator meets from `key` on. The error
  -- of the flush is passed over, and `make([]*Message, 0, maxCount)` panics on a negative count.
  unfoldable pub fetch_messages :
      (b.Txn → Bytes → Bytes → List Bytes)
      → Bytes
      → ℕ
      → ℕ
      → ℕ
      → StreamStorage b
      → Outcome (List Message) × StreamStorage b
  fetch_messages seek topic partition start_offset max_count s =
      let s' = (flush_writes b s).1 in
      let keys =
        seek s'.db (make_message_prefix topic partition)
          (make_message_key topic partition start_offset) in
      (if signed_lt max_count 0 then panic else read_messages_from s'.db max_count keys 0 [], s')

  -- The keys whose messages are older than the cutoff.
  unfoldable pub old_keys : b.Txn → ℕ → List Bytes → Outcome (List Bytes)
  old_keys txn cutoff_time [] = ok []
  old_keys txn cutoff_time (key ∷ rest) =
      let next = old_keys txn cutoff_time rest in
      then_do (message_at (b.get txn key)) λ msg.
        then_do next λ keys. ok (if signed_lt msg.timestamp cutoff_time then key ∷ keys else keys)

  unfoldable pub delete_all : List Bytes → b.Txn → Outcome b.Txn
  delete_all [] txn = ok txn
  delete_all (key ∷ rest) txn = then_do (b.delete txn key) λ txn'. delete_all rest txn'

  -- The count beside an error is left out.
  unfoldable pub delete_old_messages :
      Iterator b → Bytes → ℕ → ℕ → ℕ → StreamStorage b → Outcome ℕ × StreamStorage b
  delete_old_messages it topic partition retention_ms now s =
      let cutoff_time = (now + 2 ^ 64 - retention_ms) % 2 ^ 64 in
      let r = update b s.db (
        then_do (old_keys s.db cutoff_time (it.keys s.db (make_message_prefix topic partition)))
          λ keys_to_delete.
            then_do (delete_all keys_to_delete s.db) λ txn. ok (length keys_to_delete, txn)) in
      (r.0, record s { db = r.1 })
