-- ===== src/Stream/Groups/Consuming.antt =====
-- Consume leaves the partitions with the consumers that have them.
use mathlib.Core.Path.{subst}
use flin.Prelude.{
  ℕ, suc, ◌/◌, ◌≡◌, refl, sym, ap, ◌∙◌, inl, inr, Bool-cases, Option, none, some, List, [], ◌∷◌,
  ◌++◌, length,
}
use flin.Wire.Outcome.{Bytes}
use flin.Wire.Table.{Table, All, All-put, All-find, All-map, find, put}
use flin.Badger.{Badger}
use flin.Badger.Memory.{same_key}
use flin.Stream.Topics.Defs.{Consumer, ConsumerGroup, Stream, topic_of}
use flin.Stream.Groups.Defs.{store_group}
use flin.Stream.Groups.Shares.{IsShared, HasShare, all_partitions, occurrences}
use flin.Stream.Groups.Membership.{SharesTopic, GroupsShare, SharesTopic-same}
use flin.Stream.Groups.Consume.{consume, consume_in, consume_as}
use flin.Stream.Groups.Fetching.{Same, consume_from-Same}

-- A consumer that is put back with the partitions that it had changes nothing of who has what.
all_partitions-put :
    (id : Bytes) (c c' : Consumer) (cs : Table Consumer)
    → find id cs ≡ some c
    → c'.partitions ≡ c.partitions
    → all_partitions (put id c' cs) ≡ all_partitions cs
unfolding find put
all_partitions-put id c c' [] e p = absurd (let z : none ≡ some c = e in cc)
all_partitions-put id c c' ((k, x) ∷ rest) e p = elim (Bool-cases (same_key k id)) [
  | inl y ↦
      let e' = rw y at e in
      let same : x ≡ c = cc in
      rw y (ap (λ q. q ++ all_partitions rest) (p ∙ ap (λ z. z.partitions) (sym same)))
  | inr n ↦ rw n (ap (λ q. x.partitions ++ q) (all_partitions-put id c c' rest (rw n at e) p))
]

length-put :
    (id : Bytes) (c c' : Consumer) (cs : Table Consumer)
    → find id cs ≡ some c
    → length (put id c' cs) ≡ length cs
unfolding find put
length-put id c c' [] e = absurd (let z : none ≡ some c = e in cc)
length-put id c c' ((k, x) ∷ rest) e = elim (Bool-cases (same_key k id)) [
  | inl y ↦ rw y
  | inr n ↦ rw n (ap suc (length-put id c c' rest (rw n at e)))
]

IsShared-put :
    (partitions : ℕ) (id : Bytes) (c c' : Consumer) (cs : Table Consumer)
    → find id cs ≡ some c
    → c'.partitions ≡ c.partitions
    → IsShared partitions cs
    → IsShared partitions (put id c' cs)
IsShared-put partitions id c c' cs e p h =
    let share = All-find (HasShare (partitions / length cs)) id cs c h.fair e in
    record {
      each_once = λ q l. ap (occurrences q) (all_partitions-put id c c' cs e p) ∙ h.each_once q l;
      no_other = λ q l. ap (occurrences q) (all_partitions-put id c c' cs e p) ∙ h.no_other q l;
      fair = rw (length-put id c c' cs e) (
          All-put (HasShare (partitions / length cs)) id c' cs
            (record { at_least = rw p share.at_least; at_most = rw p share.at_most }) h.fair);
    }

module _ (b : Badger) (seek : b.Txn → Bytes → Bytes → List Bytes) where
  GroupsShare-Same : (s t : Stream b) → Same b s t → GroupsShare b s → GroupsShare b t
  GroupsShare-Same s t k h = subst (All (SharesTopic b t)) (sym k.same_groups) (
      All-map (SharesTopic b s) (SharesTopic b t) s.groups (SharesTopic-same b s t k.same_topics) h)

  -- The heartbeat of a consumer that is there.
  heartbeat-GroupsShare :
      (group id : Bytes) (now : ℕ) (g : ConsumerGroup) (c : Consumer) (s : Stream b)
      → find group s.groups ≡ some g
      → find id g.consumers ≡ some c
      → GroupsShare b s
      → GroupsShare b (
          store_group b group
            (record g { consumers = put id (record c { last_seen = now }) g.consumers })
            s)
  unfolding topic_of
  heartbeat-GroupsShare group id now g c s e f h =
      let old = All-find (SharesTopic b s) group s.groups g h e in
      let t =
        store_group b group
          (record g { consumers = put id (record c { last_seen = now }) g.consumers }) s in
      All-put (SharesTopic b t) group _ s.groups
        (record {
          shared = λ meta known.
              IsShared-put meta.partitions id c (record c { last_seen = now }) g.consumers f refl
                (old.shared meta known);
        })
        (All-map (SharesTopic b s) (SharesTopic b t) s.groups
          (SharesTopic-same b s t (λ name. refl)) h)

  consume_as-GroupsShare :
      (arrive : List ℕ → List ℕ) (topic group id : Bytes) (count now : ℕ) (g : ConsumerGroup)
      (o : Option Consumer) (s : Stream b)
      → find group s.groups ≡ some g
      → find id g.consumers ≡ o
      → GroupsShare b s
      → GroupsShare b (consume_as b seek arrive topic group id count now g o s).1
  consume_as-GroupsShare arrive topic group id count now g none s e f h = h
  consume_as-GroupsShare arrive topic group id count now g (some c) s e f h =
      let seen = put id (record c { last_seen = now }) g.consumers in
      let t = store_group b group (record g { consumers = seen }) s in
      GroupsShare-Same t _
        (consume_from-Same b seek topic group count c.partitions (arrive c.partitions) t)
        (heartbeat-GroupsShare group id now g c s e f h)

  consume_in-GroupsShare :
      (arrive : List ℕ → List ℕ) (topic group id : Bytes) (count now : ℕ) (o : Option ConsumerGroup)
      (s : Stream b)
      → find group s.groups ≡ o
      → GroupsShare b s
      → GroupsShare b (consume_in b seek arrive topic group id count now o s).1
  consume_in-GroupsShare arrive topic group id count now none s e h = h
  consume_in-GroupsShare arrive topic group id count now (some g) s e h =
      consume_as-GroupsShare arrive topic group id count now g (find id g.consumers) s e refl h

  pub consume-GroupsShare :
      (arrive : List ℕ → List ℕ) (topic group id : Bytes) (count now : ℕ) (s : Stream b)
      → GroupsShare b s
      → GroupsShare b (consume b seek arrive topic group id count now s).1
  unfolding consume
  consume-GroupsShare arrive topic group id count now s h =
      consume_in-GroupsShare arrive topic group id count now (find group s.groups) s refl h
