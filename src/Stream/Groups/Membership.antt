-- ===== src/Stream/Groups/Membership.antt =====
-- Consumers that join and leave groups, in any order.
use mathlib.Core.Path.{subst}
use native.Mathlib.Nat.{div-add-mod}
use flin.Prelude.{
  ℕ, suc, ◌-◌, ◌/◌, ◌%◌, ◌≤◌, ◌≡◌, ◌≢◌, refl, sym, ap, ◌∙◌, inl, inr, Bool-cases, Option, none,
  some, [], ◌∷◌, length, arith,
}
use flin.Wire.Outcome.{Bytes, Outcome, ok, err, panic}
use flin.Wire.Table.{
  Table, All, All-put, All-remove, All-map, find, put, remove, put-put, find-put_self, find-put_ne,
}
use flin.Badger.{Badger}
use flin.Badger.Memory.{same_key, same_key_iff}
use flin.Stream.Message.Types.{TopicMetadata}
use flin.Stream.Storage.{StreamStorage}
use flin.Stream.Storage
use flin.Stream.Topics.Defs.{
  Consumer, ConsumerGroup, Stream, topic_of, get_topic_metadata, cache_topic, cached_or_stored,
}
use flin.Stream.Groups.Defs.{
  consecutive, assign, share_out, rebalance_group, rebalanced, store_group, subscribe, unsubscribe,
  leave, leave_found, found_group, seen_consumer,
}
use flin.Stream.Groups.Shares.{
  IsShared, all_partitions, all_partitions-assign, assign-HasShare, occurrences,
  occurrences-consecutive_in, occurrences-consecutive_above,
}

length-assign : (per extra a : ℕ) (cs : Table Consumer) → length (assign per extra a cs) ≡ length cs
unfolding assign
length-assign per extra a [] = refl
length-assign per extra a ((id, c) ∷ rest) = ap suc (length-assign per (extra - 1) _ rest)

pub IsShared-share_out :
    (partitions : ℕ) (c : Bytes × Consumer) (cs : Table Consumer)
    → IsShared partitions (share_out partitions (c ∷ cs))
unfolding share_out
IsShared-share_out partitions c cs =
    let n = length (c ∷ cs) in
    let few : partitions % n ≤ n = omega arith in
    let listed : all_partitions (share_out partitions (c ∷ cs)) ≡ consecutive 0 partitions =
      all_partitions-assign (partitions / n) (partitions % n) 0 (c ∷ cs) few
      ∙ ap (consecutive 0) (omega (arith, div-add-mod partitions n)) in
    record {
      each_once = λ p h.
          ap (occurrences p) listed
          ∙ occurrences-consecutive_in p 0 partitions (omega arith) (omega arith);
      no_other = λ p h.
          ap (occurrences p) listed ∙ occurrences-consecutive_above p 0 partitions (omega arith);
      fair =
          rw (length-assign (partitions / n) (partitions % n) 0 (c ∷ cs))
            (assign-HasShare (partitions / n) (partitions % n) 0 (c ∷ cs));
    }

pub put-cons :
    (key : Bytes) (v : Consumer) (t : Table Consumer)
    → (c : Bytes × Consumer) × (cs : Table Consumer) × (put key v t ≡ c ∷ cs)
unfolding put
put-cons key v [] = ((key, v), [], refl)
put-cons key v ((k, w) ∷ rest) = elim (Bool-cases (same_key k key)) [
  | inl y ↦ ((k, v), rest, rw y)
  | inr n ↦ ((k, w), put key v rest, rw n)
]

module _ (b : Badger) where
  -- What is known of a topic: what is cached, or else what is stored.
  abbrev known_cached : Bytes → Option TopicMetadata → StreamStorage b → Outcome TopicMetadata
  known_cached name (some meta) storage = ok meta
  known_cached name none storage = Storage.get_topic_metadata b name storage

  abbrev pub known_topic : Bytes → Stream b → Outcome TopicMetadata
  known_topic name s = known_cached name (find name s.topics) s.storage

  -- If the topic of a group is known, the consumers of the group share its partitions.
  pub record SharesTopic (s : Stream b) (g : ConsumerGroup) : Type 0 where
    pub shared :
        (meta : TopicMetadata)
        → known_topic g.topic s ≡ ok meta
        → IsShared meta.partitions g.consumers

  abbrev pub GroupsShare : Stream b → Type 0
  GroupsShare s = All (SharesTopic s) s.groups

  pub topic_of-eq-known_topic :
      (name : Bytes) (s : Stream b) → topic_of b name s ≡ known_topic name s
  unfolding topic_of
  topic_of-eq-known_topic name s = by_option (find name s.topics)
    where
      by_option :
          (o : Option TopicMetadata)
          → cached_or_stored b name o s.storage ≡ known_cached name o s.storage
      by_option none = refl
      by_option (some meta) = refl

  -- A topic that is cached is found as it was stored.
  topic_of-cache_topic :
      (name other : Bytes) (s : Stream b) (r : Outcome TopicMetadata)
      → topic_of b name s ≡ r
      → topic_of b other (cache_topic b name r s) ≡ topic_of b other s
  unfolding topic_of
  topic_of-cache_topic name other s (err x) e = refl
  topic_of-cache_topic name other s panic e = refl
  topic_of-cache_topic name other s (ok meta) e = elim (Bool-cases (same_key name other)) [
    | inl y ↦
        let same : name ≡ other = (same_key_iff name other).0 y in
        subst
          (λ k. cached_or_stored b k (find k (put name meta s.topics)) s.storage ≡ topic_of b k s)
          same
          (ap (λ o. cached_or_stored b name o s.storage) (find-put_self name meta s.topics) ∙ sym e)
    | inr n ↦
        let ne : name ≢ other = λ q. ground (arith, same_key_iff name other) in
        ap (λ o. cached_or_stored b other o s.storage) (find-put_ne name other meta s.topics ne)
  ]

  -- Whether groups share their topics depends on what is known of the topics only.
  pub SharesTopic-same :
      (s t : Stream b)
      → ((name : Bytes) → topic_of b name t ≡ topic_of b name s)
      → (g : ConsumerGroup) → SharesTopic s g
      → SharesTopic t g
  SharesTopic-same s t same g h = record {
    shared = λ meta e. h.shared meta (
        sym (topic_of-eq-known_topic g.topic s)
        ∙ sym (same g.topic)
        ∙ topic_of-eq-known_topic g.topic t
        ∙ e);
  }

  rebalanced-GroupsShare :
      (group : Bytes) (g : ConsumerGroup) (c : Bytes × Consumer) (cs : Table Consumer)
      (s : Stream b) (r : Outcome TopicMetadata)
      → topic_of b g.topic s ≡ r
      → g.consumers ≡ c ∷ cs
      → GroupsShare s
      → GroupsShare (rebalanced b group g r (cache_topic b g.topic r (store_group b group g s))).1
  unfolding topic_of
  rebalanced-GroupsShare group g c cs s (ok meta) e f h =
      let t = cache_topic b g.topic (ok meta) s in
      let same = λ (name : Bytes). topic_of-cache_topic g.topic name s (ok meta) e in
      let known : topic_of b g.topic t ≡ ok meta = same g.topic ∙ e in
      rw (put-put group (record g { consumers = share_out meta.partitions g.consumers }) g s.groups)
        (All-put _ group _ s.groups
          (record {
            shared = λ meta' e'.
                let q : ◌≡◌ {A = Outcome TopicMetadata} (ok meta) (ok meta') =
                  sym known ∙ topic_of-eq-known_topic g.topic t ∙ e' in
                let m : meta ≡ meta' = cc in
                subst (λ x. IsShared x.partitions (share_out meta.partitions g.consumers)) m
                  (rw f (IsShared-share_out meta.partitions c cs));
          })
          (All-map (SharesTopic s) _ s.groups (SharesTopic-same s _ same) h))
  rebalanced-GroupsShare group g c cs s (err x) e f h =
      All-put _ group g s.groups
        (record {
          shared = λ meta e'.
              let z : err x ≡ ok meta = sym e ∙ topic_of-eq-known_topic g.topic s ∙ e' in cc;
        })
        (All-map (SharesTopic s) _ s.groups (SharesTopic-same s _ (λ name. refl)) h)
  rebalanced-GroupsShare group g c cs s panic e f h =
      All-put _ group g s.groups
        (record {
          shared = λ meta e'.
              let z : panic ≡ ok meta = sym e ∙ topic_of-eq-known_topic g.topic s ∙ e' in cc;
        })
        (All-map (SharesTopic s) _ s.groups (SharesTopic-same s _ (λ name. refl)) h)

  rebalance_group-GroupsShare :
      (group : Bytes) (g : ConsumerGroup) (c : Bytes × Consumer) (cs : Table Consumer)
      (s : Stream b)
      → g.consumers ≡ c ∷ cs
      → GroupsShare s
      → GroupsShare (rebalance_group b group g (store_group b group g s)).1
  unfolding rebalance_group get_topic_metadata topic_of
  rebalance_group-GroupsShare group g c cs s f h =
      rebalanced-GroupsShare group g c cs s (topic_of b g.topic s) refl f h

  pub subscribe-GroupsShare :
      (topic group consumer_id : Bytes) (now : ℕ) (s : Stream b)
      → GroupsShare s
      → GroupsShare (subscribe b topic group consumer_id now s).1
  unfolding subscribe
  subscribe-GroupsShare topic group consumer_id now s h =
      let g = found_group group topic (find group s.groups) in
      let (c, cs, e) =
        put-cons consumer_id (seen_consumer consumer_id now g.consumers) g.consumers in
      elim (Bool-cases (same_key g.topic topic)) [
        | inl y ↦ rw y (rebalance_group-GroupsShare group _ c cs s e h)
        | inr n ↦ rw n h
      ]

  topic_of-remove :
      (group : Bytes) (s : Stream b) (name : Bytes)
      → topic_of b name (record s { groups = remove group s.groups }) ≡ topic_of b name s
  unfolding topic_of
  topic_of-remove group s name = refl

  leave-GroupsShare :
      (group : Bytes) (g : ConsumerGroup) (consumers : Table Consumer) (s : Stream b)
      → GroupsShare s
      → GroupsShare (leave b group g consumers s).1
  leave-GroupsShare group g [] s h =
      All-map (SharesTopic s) _ (remove group s.groups)
        (SharesTopic-same s _ (topic_of-remove group s))
        (All-remove (SharesTopic s) group s.groups h)
  leave-GroupsShare group g (c ∷ cs) s h = rebalance_group-GroupsShare group _ c cs s refl h

  pub unsubscribe-GroupsShare :
      (topic group consumer_id : Bytes) (s : Stream b)
      → GroupsShare s
      → GroupsShare (unsubscribe b topic group consumer_id s).1
  unfolding unsubscribe
  unsubscribe-GroupsShare topic group consumer_id s h = by_case (find group s.groups)
    where
      by_case : (o : Option ConsumerGroup) → GroupsShare (leave_found b group consumer_id o s).1
      by_case none = h
      by_case (some g) = leave-GroupsShare group g (remove consumer_id g.consumers) s h
