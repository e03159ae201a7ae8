-- ===== src/Stream/Topics/Defs.antt =====
-- internal/stream/stream.go, stream_helpers.go: `Stream` and its operations on topics and offsets. The
-- clock and `fnv.New32a` are arguments.
use flin.Prelude.{ℕ, zero, suc, ◌%◌, Bool, Option, none, some, List, if◌then◌else◌}
use flin.Wire.Outcome.{Bytes, Outcome, ok, err, panic, then_do}
use flin.Wire.Signed.{signed_lt, magnitude, with_sign}
use flin.Wire.Table.{Table, find, put}
use flin.Badger.{Badger}
use flin.Queue.Storage.{is_empty}
use flin.Stream.Message.Types.{TopicMetadata}
use flin.Stream.Keys.{cache_key}
use flin.Stream.Storage.{StreamStorage, append_message, commit_offset, get_consumer_offset}
use flin.Stream.Storage

pub record Consumer : Type 0 where
  pub id : Bytes
  pub last_seen : ℕ
  pub partitions : List ℕ

pub record ConsumerGroup : Type 0 where
  pub name : Bytes
  pub topic : Bytes
  pub consumers : Table Consumer

-- `x <= 0` on an int or an int64, with the default in its place.
unfoldable pub or_default : ℕ → ℕ → ℕ
or_default default x = if signed_lt 0 x then x else default

-- 7 days in milliseconds.
abbrev pub default_retention_ms : ℕ
default_retention_ms = 604800000

-- `%` on an int, which has the sign of `n`, and panics on 0.
unfoldable pub remainder : ℕ → ℕ → Outcome ℕ
remainder n zero = panic
remainder n (suc m) = ok (with_sign n (magnitude n % magnitude (suc m)))

-- Publish and PublishBatch: the partition as given if it is one of the topic, and otherwise by the key
-- or the clock.
unfoldable pub select_partition : (Bytes → ℕ) → ℕ → ℕ → Bytes → ℕ → Outcome ℕ
select_partition sum32 unix_nano partition key partitions =
    let chosen = remainder (if is_empty key then unix_nano else sum32 key) partitions in
    if signed_lt partition 0
    then chosen
    else if signed_lt partition partitions
    then ok partition
    else chosen

module _ (b : Badger) where
  -- `stopChan` and `wg` belong to the background loops, which the model has not.
  pub record Stream : Type 0 where
    pub storage : StreamStorage b
    pub topics : Table TopicMetadata
    pub groups : Table ConsumerGroup
    pub offset_cache : Table ℕ

  abbrev pub cache_created :
      TopicMetadata → Outcome (Unit {0}) → Stream → Outcome (Unit {0}) × Stream
  cache_created meta (ok _) s = (ok tt, record s { topics = put meta.name meta s.topics })
  cache_created meta (err e) s = (err e, s)
  cache_created meta panic s = (panic, s)

  unfoldable pub create_topic : Bytes → ℕ → ℕ → ℕ → Stream → Outcome (Unit {0}) × Stream
  create_topic name partitions retention_ms now s =
      let meta : TopicMetadata = record {
        name = name;
        partitions = or_default 4 partitions;
        retention_ms = or_default default_retention_ms retention_ms;
        retention_bytes = 0;
        created_at = now;
      } in
      let r = Storage.create_topic b meta s.storage in
      cache_created meta r.0 (record s { storage = r.1 })

  abbrev pub cached_or_stored :
      Bytes → Option TopicMetadata → StreamStorage b → Outcome TopicMetadata
  cached_or_stored name (some meta) storage = ok meta
  cached_or_stored name none storage = Storage.get_topic_metadata b name storage

  abbrev pub cache_topic : Bytes → Outcome TopicMetadata → Stream → Stream
  cache_topic name (ok meta) s = record s { topics = put name meta s.topics }
  cache_topic name (err e) s = s
  cache_topic name panic s = s

  -- The metadata of a topic, from the map or from the storage.
  unfoldable pub topic_of : Bytes → Stream → Outcome TopicMetadata
  topic_of name s = cached_or_stored name (find name s.topics) s.storage

  unfoldable pub get_topic_metadata : Bytes → Stream → Outcome TopicMetadata × Stream
  get_topic_metadata name s = let r = topic_of name s in (r, cache_topic name r s)

  -- `meta, _ = s.GetTopicMetadata(topic)` after the topic was created; a nil `meta` is dereferenced.
  abbrev pub created_metadata : Bytes → Outcome (Unit {0}) → Stream → Outcome TopicMetadata × Stream
  created_metadata topic (err e) s = (err e, s)
  created_metadata topic panic s = (panic, s)
  created_metadata topic (ok _) s =
      let r = get_topic_metadata topic s in
      (elim r.0 [ ok meta ↦ ok meta | err e ↦ panic | panic ↦ panic ], r.1)

  abbrev pub or_create : Bytes → ℕ → Outcome TopicMetadata → Stream → Outcome TopicMetadata × Stream
  or_create topic now (ok meta) s = (ok meta, s)
  or_create topic now panic s = (panic, s)
  or_create topic now (err e) s =
      let r = create_topic topic 4 0 now s in created_metadata topic r.0 r.1

  -- The metadata that Publish goes on with: a topic that is not known is created.
  unfoldable pub ensure_topic : Bytes → ℕ → Stream → Outcome TopicMetadata × Stream
  ensure_topic topic now s = let r = get_topic_metadata topic s in or_create topic now r.0 r.1

  -- What is left when the storage has appended, or has not.
  abbrev pub keep_storage :
      {A : Type 0} → Stream → Outcome (A × StreamStorage b) → Outcome A × Stream
  keep_storage s (ok (a, storage)) = (ok a, record s { storage = storage })
  keep_storage s (err e) = (err e, s)
  keep_storage s panic = (panic, s)

  -- The offset, and whether a flush is started.
  unfoldable pub publish :
      (Bytes → ℕ) → ℕ → ℕ → Bytes → ℕ → Bytes → Bytes → Stream → Outcome (ℕ × Bool) × Stream
  publish sum32 unix_nano now topic partition key value s =
      let r = ensure_topic topic now s in
      keep_storage r.1 (
        then_do r.0 λ meta.
          then_do (select_partition sum32 unix_nano partition key meta.partitions)
            λ chosen. append_message b topic chosen key value now r.1.storage)

  abbrev pub cached_offset : Outcome ℕ → Bytes → Stream → Outcome ℕ × Stream
  cached_offset (ok offset) key s =
      (ok offset, record s { offset_cache = put key offset s.offset_cache })
  cached_offset (err e) key s = (err e, s)
  cached_offset panic key s = (panic, s)

  -- The offset in the cache, or the one that was stored.
  abbrev pub cached_or_fetched : Bytes → Outcome ℕ → Option ℕ → Stream → Outcome ℕ × Stream
  cached_or_fetched key stored (some offset) s = (ok offset, s)
  cached_or_fetched key stored none s = cached_offset stored key s

  unfoldable pub get_cached_offset : Bytes → Bytes → ℕ → Stream → Outcome ℕ × Stream
  get_cached_offset group topic partition s =
      let key = cache_key group topic partition in
      cached_or_fetched key (get_consumer_offset b group topic partition s.storage)
        (find key s.offset_cache) s

  unfoldable pub commit : Bytes → Bytes → ℕ → ℕ → ℕ → Stream → Outcome (Unit {0}) × Stream
  commit topic group partition offset now s =
      let key = cache_key group topic partition in
      let r = commit_offset b group topic partition offset now s.storage in
      (r.0, record s { storage = r.1; offset_cache = put key offset s.offset_cache })
