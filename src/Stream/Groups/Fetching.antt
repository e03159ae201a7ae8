-- ===== src/Stream/Groups/Fetching.antt =====
-- A fetch leaves what is known of the topics, and the groups.
use flin.Prelude.{ℕ, ◌≡◌, ◌≢◌, refl, sym, ap, ◌∙◌, Option, none, some, List, [], ◌∷◌, arith}
use flin.Wire.Outcome.{Bytes, Outcome, ok, err, panic, then_do, then_do-eq-ok}
use flin.Wire.Text.{byte_at}
use flin.Wire.Table.{Table, find}
use flin.Badger.{Badger, update, settle}
use flin.Stream.Message.Types.{Message, TopicMetadata}
use flin.Stream.Message.Encode.{encode_message}
use flin.Stream.Keys.{make_message_key, make_topic_meta_key}
use flin.Stream.Storage.{
  StreamStorage, store_messages, store_buffer, flush_writes, fetch_messages, stored_metadata,
  get_topic_metadata,
}
use flin.Stream.Topics.Defs.{
  Stream, topic_of, get_cached_offset, cached_offset, cached_or_fetched, cached_or_stored,
}
use flin.Stream.Groups.Consume.{consume_from, fetch_partitions, fetch_partition, fetched, per_part}

message_key-ne-topic : (t n : Bytes) (p o : ℕ) → make_message_key t p o ≢ make_topic_meta_key n
unfolding make_message_key make_topic_meta_key byte_at
message_key-ne-topic t n p o e = omega (arith, ap (byte_at 8) e)

module _ (b : Badger) where
  -- The metadata of topics stands as it stood.
  abbrev SameTopics : b.Txn → b.Txn → Type 0
  SameTopics t t' = (n : Bytes) → b.get t' (make_topic_meta_key n) ≡ b.get t (make_topic_meta_key n)

  store_messages-SameTopics :
      (ms : List Message) (t t' : b.Txn) → store_messages b ms t ≡ ok t' → SameTopics t t'
  unfolding store_messages
  store_messages-SameTopics [] t t' e n =
      let same : t ≡ t' = cc in ap (λ x. b.get x (make_topic_meta_key n)) (sym same)
  store_messages-SameTopics (m ∷ ms) t t' e n =
      let (msg_data, _, e1) = then_do-eq-ok (encode_message m) _ e in
      let (u, written, e2) =
        then_do-eq-ok (b.set t (make_message_key m.topic m.partition m.offset) msg_data) _ e1 in
      store_messages-SameTopics ms u t' e2 n
      ∙ b.get-set_ne t u _ _ _ written (message_key-ne-topic m.topic n m.partition m.offset)

  store_buffer-SameTopics :
      (buffer : Table (List Message)) (t t' : b.Txn)
      → store_buffer b buffer t ≡ ok t'
      → SameTopics t t'
  unfolding store_buffer
  store_buffer-SameTopics [] t t' e n =
      let same : t ≡ t' = cc in ap (λ x. b.get x (make_topic_meta_key n)) (sym same)
  store_buffer-SameTopics ((part_key, ms) ∷ rest) t t' e n =
      let (u, stored, e1) = then_do-eq-ok (store_messages b ms t) _ e in
      store_buffer-SameTopics rest u t' e1 n ∙ store_messages-SameTopics ms t u stored n

  update-SameTopics :
      (t : b.Txn) (o : Outcome b.Txn)
      → ((t' : b.Txn) → o ≡ ok t' → SameTopics t t')
      → SameTopics t (update b t (then_do o λ txn. ok (tt {0}, txn))).1
  update-SameTopics t (err x) h n = refl
  update-SameTopics t panic h n = refl
  update-SameTopics t (ok t') h n = settled (b.commit t')
    where
      settled :
          (o : Outcome (Unit {0}))
          → b.get (settle b t (tt {0}) t' o).1 (make_topic_meta_key n)
            ≡ b.get t (make_topic_meta_key n)
      settled (ok _) = h t' refl n
      settled (err x) = refl
      settled panic = refl

  flush_writes-SameTopics : (s : StreamStorage b) → SameTopics s.db (flush_writes b s).1.db
  unfolding flush_writes
  flush_writes-SameTopics s n = by_buffer s.write_buffer
    where
      by_buffer :
          (buffer : Table (List Message))
          → b.get (flush_writes b (record s { write_buffer = buffer })).1.db (make_topic_meta_key n)
            ≡ b.get s.db (make_topic_meta_key n)
      by_buffer [] = refl
      by_buffer (p ∷ ps) =
          update-SameTopics s.db (store_buffer b (p ∷ ps) s.db)
            (store_buffer-SameTopics (p ∷ ps) s.db) n

  -- A stream that knows of the topics what another knows, and has its groups.
  pub record Same (s t : Stream b) : Type 0 where
    pub same_topics : (name : Bytes) → topic_of b name t ≡ topic_of b name s
    pub same_groups : t.groups ≡ s.groups

  Same-trans : (s t u : Stream b) → Same s t → Same t u → Same s u
  Same-trans s t u h k = record {
    same_topics = λ name. k.same_topics name ∙ h.same_topics name;
    same_groups = k.same_groups ∙ h.same_groups;
  }

  Same-refl : (s : Stream b) → Same s s
  Same-refl s = record { same_topics = λ name. refl; same_groups = refl }

  cached_offset-Same :
      (o : Outcome ℕ) (key : Bytes) (s : Stream b) → Same s (cached_offset b o key s).1
  unfolding topic_of
  cached_offset-Same (ok offset) key s = record { same_topics = λ name. refl; same_groups = refl }
  cached_offset-Same (err x) key s = Same-refl s
  cached_offset-Same panic key s = Same-refl s

  cached_or_fetched-Same :
      (key : Bytes) (stored : Outcome ℕ) (o : Option ℕ) (s : Stream b)
      → Same s (cached_or_fetched b key stored o s).1
  cached_or_fetched-Same key stored (some offset) s = Same-refl s
  cached_or_fetched-Same key stored none s = cached_offset-Same stored key s

  topic_of-storage :
      (name : Bytes) (s : Stream b) (storage : StreamStorage b)
      → b.get storage.db (make_topic_meta_key name) ≡ b.get s.storage.db (make_topic_meta_key name)
      → topic_of b name (record s { storage = storage }) ≡ topic_of b name s
  unfolding topic_of get_topic_metadata
  topic_of-storage name s storage e = by_option (find name s.topics)
    where
      by_option :
          (o : Option TopicMetadata)
          → cached_or_stored b name o storage ≡ cached_or_stored b name o s.storage
      by_option (some meta) = refl
      by_option none = ap (stored_metadata b) e

  module _ (seek : b.Txn → Bytes → Bytes → List Bytes) where
    fetched-Same :
        (topic : Bytes) (partition count : ℕ) (o : Outcome ℕ) (s : Stream b)
        → Same s (fetched b seek topic partition count o s).1
    unfolding fetch_messages
    fetched-Same topic partition count (err x) s = Same-refl s
    fetched-Same topic partition count panic s = Same-refl s
    fetched-Same topic partition count (ok offset) s = record {
      same_topics = λ name.
          topic_of-storage name s (flush_writes b s.storage).1
            (flush_writes-SameTopics s.storage name);
      same_groups = refl;
    }

    fetch_partitions-Same :
        (topic group : Bytes) (count : ℕ) (partitions : List ℕ) (s : Stream b)
        → Same s (fetch_partitions b seek topic group count partitions s).1
    unfolding fetch_partitions fetch_partition get_cached_offset
    fetch_partitions-Same topic group count [] s = Same-refl s
    fetch_partitions-Same topic group count (p ∷ ps) s =
        let r = get_cached_offset b group topic p s in
        let t = (fetched b seek topic p count r.0 r.1).1 in
        Same-trans s t _
          (Same-trans s r.1 t (cached_or_fetched-Same _ _ _ s) (fetched-Same topic p count r.0 r.1))
          (fetch_partitions-Same topic group count ps t)

    pub consume_from-Same :
        (topic group : Bytes) (count : ℕ) (ps arriving : List ℕ) (s : Stream b)
        → Same s (consume_from b seek topic group count ps arriving s).1
    consume_from-Same topic group count [] arriving s = Same-refl s
    consume_from-Same topic group count (p ∷ ps) arriving s =
        fetch_partitions-Same topic group (per_part count (p ∷ ps)) arriving s
