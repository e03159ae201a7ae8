-- ===== src/Stream/Storage/Defs.antt =====
-- internal/stream/storage.go, storage_atomic.go: the counters, the buffer, topics and consumer offsets. The
-- operations run one at a time; a flush that the ticker or a full buffer starts is a call of its own.
use flin.Prelude.{ℕ, ◌+◌, ◌-◌, ◌%◌, ◌^◌, Option, none, some, List, [], ◌∷◌, ◌++◌, leb, length, Bool}
use flin.Wire.Outcome.{Bytes, Outcome, ok, err, then_do}
use flin.Wire.BigEndian.{put_be}
use flin.Wire.Reader.{run, uint}
use flin.Wire.Table.{Table, find, put}
use flin.Badger.{Badger, Lookup, found, missing, failed, update}
use flin.Queue.Storage.{err_key_not_found}
use flin.Stream.Message.Types.{Message, TopicMetadata}
use flin.Stream.Message.Encode.{encode_message, encode_topic_metadata}
use flin.Stream.Message.Decode.{decode_topic_metadata}
use flin.Stream.Keys.{
  make_message_key, make_offset_key, make_consumer_offset_key, make_topic_meta_key, partition_key,
}

-- The pattern of -1.
abbrev pub minus_one : ℕ
minus_one = 2 ^ 64 - 1

-- The messages in a buffered partition.
abbrev pub buffered : Option (List Message) → List Message
buffered none = []
buffered (some messages) = messages

module _ (b : Badger) where
  -- `flushTicker` and `stopFlush` say when the flushes run, which the model leaves open.
  pub record StreamStorage : Type 0 where
    pub db : b.Txn
    pub partition_offsets : Table ℕ
    pub write_buffer : Table (List Message)

  -- What is loaded for a counter; an error of the view is passed over.
  abbrev pub loaded_offset : Lookup → Outcome ℕ
  loaded_offset missing = ok minus_one
  loaded_offset (failed e) = ok minus_one
  loaded_offset (found val) = run (uint 8) val

  abbrev pub offset_or_load : Option ℕ → Lookup → Outcome ℕ
  offset_or_load (some offset) lookup = ok offset
  offset_or_load none lookup = loaded_offset lookup

  -- The value of the counter, with the counter in the map.
  unfoldable pub get_partition_offset : Bytes → ℕ → StreamStorage → Outcome (ℕ × StreamStorage)
  get_partition_offset topic partition s =
      let key = partition_key topic partition in
      then_do
        (offset_or_load (find key s.partition_offsets)
          (b.get s.db (make_offset_key topic partition)))
        λ offset. ok (offset, record s { partition_offsets = put key offset s.partition_offsets })

  -- The offset, whether a flush is started, and what is left.
  unfoldable pub append_message :
      Bytes → ℕ → Bytes → Bytes → ℕ → StreamStorage → Outcome ((ℕ × Bool) × StreamStorage)
  append_message topic partition key value now s =
      then_do (get_partition_offset topic partition s) λ r.
        let part_key = partition_key topic partition in
        let offset = (r.0 + 1) % 2 ^ 64 in
        let msg : Message = record {
          topic = topic;
          partition = partition;
          offset = offset;
          key = key;
          value = value;
          timestamp = now;
        } in
        let messages = buffered (find part_key r.1.write_buffer) ++ msg ∷ [] in
        ok (
          (offset, leb 1000 (length messages)),
          record r.1 {
            partition_offsets = put part_key offset r.1.partition_offsets;
            write_buffer = put part_key messages r.1.write_buffer;
          },
        )

  unfoldable pub store_messages : List Message → b.Txn → Outcome b.Txn
  store_messages [] txn = ok txn
  store_messages (msg ∷ rest) txn = then_do (encode_message msg) λ msg_data.
      then_do (b.set txn (make_message_key msg.topic msg.partition msg.offset) msg_data)
        λ txn'. store_messages rest txn'

  unfoldable pub store_buffer : Table (List Message) → b.Txn → Outcome b.Txn
  store_buffer [] txn = ok txn
  store_buffer ((part_key, messages) ∷ rest) txn =
      then_do (store_messages messages txn) λ txn'. store_buffer rest txn'

  -- The buffer is cleared before its messages are stored, and stays clear if they are not.
  unfoldable pub flush_writes : StreamStorage → Outcome (Unit {0}) × StreamStorage
  flush_writes s =
      let r = update b s.db (then_do (store_buffer s.write_buffer s.db) λ txn. ok (tt, txn)) in
      elim s.write_buffer [
        | [] ↦ (ok tt, s)
        | _ ∷ _ ↦ (r.0, record s { db = r.1; write_buffer = [] })
      ]

  unfoldable pub get_offset : Bytes → ℕ → StreamStorage → Outcome (ℕ × StreamStorage)
  get_offset topic partition s = get_partition_offset topic partition s

  unfoldable pub commit_offset :
      Bytes → Bytes → ℕ → ℕ → ℕ → StreamStorage → Outcome (Unit {0}) × StreamStorage
  commit_offset group topic partition offset now s =
      let key = make_consumer_offset_key group topic partition in
      let r =
        update b s.db
          (then_do (b.set s.db key (put_be 8 offset ++ put_be 8 now)) λ txn. ok (tt, txn)) in
      (r.0, record s { db = r.1 })

  abbrev pub consumer_offset_of : Lookup → Outcome ℕ
  consumer_offset_of missing = ok 0
  consumer_offset_of (failed e) = err e
  consumer_offset_of (found val) = run (uint 8) val

  unfoldable pub get_consumer_offset : Bytes → Bytes → ℕ → StreamStorage → Outcome ℕ
  get_consumer_offset group topic partition s =
      consumer_offset_of (b.get s.db (make_consumer_offset_key group topic partition))

  unfoldable pub create_topic : TopicMetadata → StreamStorage → Outcome (Unit {0}) × StreamStorage
  create_topic meta s =
      let r = update b s.db (
        then_do (encode_topic_metadata meta) λ bytes.
          then_do (b.set s.db (make_topic_meta_key meta.name) bytes) λ txn. ok (tt, txn)) in
      (r.0, record s { db = r.1 })

  abbrev pub stored_metadata : Lookup → Outcome TopicMetadata
  stored_metadata missing = err err_key_not_found
  stored_metadata (failed e) = err e
  stored_metadata (found val) = decode_topic_metadata val

  unfoldable pub get_topic_metadata : Bytes → StreamStorage → Outcome TopicMetadata
  get_topic_metadata topic s = stored_metadata (b.get s.db (make_topic_meta_key topic))
