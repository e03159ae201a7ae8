-- ===== src/Stream/Groups/Joining.antt =====
-- A consumer that subscribes is a member of its group, and lists of calls.
use flin.Prelude.{
  ℕ, ◌-◌, ◌+◌, ◌≡◌, refl, ap, ◌∙◌, inl, inr, Bool-cases, true, none, some, List, [], ◌∷◌,
}
use flin.Wire.Outcome.{Bytes, ok}
use flin.Wire.Table.{Table, find, put, find-put_self}
use flin.Badger.{Badger}
use flin.Badger.Memory.{same_key, same_key_iff}
use flin.Stream.Message.Types.{TopicMetadata}
use flin.Stream.Topics.Defs.{Consumer, ConsumerGroup, Stream, topic_of, get_topic_metadata}
use flin.Stream.Groups.Defs.{
  consecutive, assign, parts_for, share_out, rebalance_group, subscribe, unsubscribe, found_group,
  seen_consumer,
}
use flin.Stream.Groups.Consume.{consume}
use flin.Stream.Groups.Consuming.{consume-GroupsShare}
use flin.Stream.Groups.Shares.{IsShared}
use flin.Stream.Groups.Membership.{
  known_topic, topic_of-eq-known_topic, GroupsShare, subscribe-GroupsShare, unsubscribe-GroupsShare,
  put-cons, IsShared-share_out,
}

find-assign :
    (key : Bytes) (per extra a : ℕ) (cs : Table Consumer) (c : Consumer)
    → find key cs ≡ some c
    → (c' : Consumer) × (find key (assign per extra a cs) ≡ some c')
unfolding find assign
find-assign key per extra a [] c e = absurd (let z : none ≡ some c = e in cc)
find-assign key per extra a ((k, x) ∷ rest) c e = elim (Bool-cases (same_key k key)) [
  | inl y ↦ (record x { partitions = consecutive a (parts_for per extra) }, rw y)
  | inr n ↦
      let (c', e') = find-assign key per (extra - 1) (a + parts_for per extra) rest c (rw n at e) in
      (c', rw n e')
]

find-share_out :
    (key : Bytes) (partitions : ℕ) (cs : Table Consumer) (c : Consumer)
    → find key cs ≡ some c
    → (c' : Consumer) × (find key (share_out partitions cs) ≡ some c')
unfolding share_out find
find-share_out key partitions [] c e = absurd (let z : none ≡ some c = e in cc)
find-share_out key partitions (x ∷ cs) c e = find-assign key _ _ 0 (x ∷ cs) c e

-- The calls of consumers.
pub data Membership : Type 0 where
  join : Bytes → Bytes → Bytes → ℕ → Membership
  quit : Bytes → Bytes → Bytes → Membership
  fetch : Bytes → Bytes → Bytes → ℕ → ℕ → Membership

module _ (b : Badger) (seek : b.Txn → Bytes → Bytes → List Bytes) (arrive : List ℕ → List ℕ) where
  unfoldable pub run_membership : List Membership → Stream b → Stream b
  run_membership [] s = s
  run_membership (join topic group consumer_id now ∷ rest) s =
      run_membership rest (subscribe b topic group consumer_id now s).1
  run_membership (quit topic group consumer_id ∷ rest) s =
      run_membership rest (unsubscribe b topic group consumer_id s).1
  run_membership (fetch topic group consumer_id count now ∷ rest) s =
      run_membership rest (consume b seek arrive topic group consumer_id count now s).1

  -- However consumers subscribe, unsubscribe and consume, in every group whose topic is known each partition
  -- of the topic belongs to exactly one consumer, and the numbers of partitions of two consumers differ by
  -- at most one, if this was so before.
  pub run_membership-GroupsShare :
      (calls : List Membership) (s : Stream b)
      → GroupsShare b s
      → GroupsShare b (run_membership calls s)
  unfolding run_membership
  run_membership-GroupsShare [] s h = h
  run_membership-GroupsShare (join topic group consumer_id now ∷ rest) s h =
      run_membership-GroupsShare rest _ (subscribe-GroupsShare b topic group consumer_id now s h)
  run_membership-GroupsShare (quit topic group consumer_id ∷ rest) s h =
      run_membership-GroupsShare rest _ (unsubscribe-GroupsShare b topic group consumer_id s h)
  run_membership-GroupsShare (fetch topic group consumer_id count now ∷ rest) s h =
      run_membership-GroupsShare rest _
        (consume-GroupsShare b seek arrive topic group consumer_id count now s h)

module _ (b : Badger) where
  -- The consumer is in the group, which shares the partitions.
  pub record Joined (s : Stream b) (group consumer_id topic : Bytes) (partitions : ℕ) : Type 0 where
    pub joined : ConsumerGroup
    pub stands : find group s.groups ≡ some joined
    pub on_topic : joined.topic ≡ topic
    pub member : Consumer
    pub listed : find consumer_id joined.consumers ≡ some member
    pub shared : IsShared partitions joined.consumers

  -- Subscribe to a known topic, of a group that is new or is on that topic, returns no error and makes the
  -- consumer a member; the members of the group share the partitions of the topic.
  pub subscribe-Joined :
      (topic group consumer_id : Bytes) (now : ℕ) (s : Stream b) (meta : TopicMetadata)
      → known_topic b topic s ≡ ok meta
      → (found_group group topic (find group s.groups)).topic ≡ topic
      → ((subscribe b topic group consumer_id now s).0 ≡ ok tt)
        × Joined
            (subscribe b topic group consumer_id now s).1
            group
            consumer_id
            topic
            meta.partitions
  unfolding subscribe rebalance_group get_topic_metadata topic_of
  subscribe-Joined topic group consumer_id now s meta known same =
      let g = found_group group topic (find group s.groups) in
      let seen = seen_consumer consumer_id now g.consumers in
      let consumers = put consumer_id seen g.consumers in
      let (c, cs, e) = put-cons consumer_id seen g.consumers in
      let y : same_key g.topic topic ≡ true = (same_key_iff g.topic topic).1 same in
      let there : topic_of b g.topic s ≡ ok meta =
        ap (λ t. topic_of b t s) same ∙ topic_of-eq-known_topic b topic s ∙ known in
      let (member, listed) =
        find-share_out consumer_id meta.partitions consumers seen
          (find-put_self consumer_id seen g.consumers) in
      rw (y, there)
        (
          refl,
          record {
            joined = record g { consumers = share_out meta.partitions consumers };
            stands = find-put_self group _ _;
            on_topic = same;
            member = member;
            listed = listed;
            shared = rw e (IsShared-share_out meta.partitions c cs);
          },
        )
