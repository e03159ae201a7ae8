-- ===== src/Stream/Groups/Defs.antt =====
-- internal/stream/stream.go: Subscribe, Unsubscribe and the assignment of partitions. A group is stored back
-- where the source writes through its pointer. The consumers of a group stand in the order in which
-- `range` visits them.
use flin.Prelude.{
  ℕ, zero, suc, ◌+◌, ◌-◌, ◌/◌, ◌%◌, Option, none, some, List, [], ◌∷◌, ◌++◌, ltb, length,
  if◌then◌else◌,
}
use flin.Wire.Outcome.{Bytes, Error, Outcome, message_text, ok, err, panic}
use flin.Wire.Text.{text}
use flin.Wire.Table.{Table, find, put, remove}
use flin.Badger.{Badger}
use flin.Badger.Memory.{same_key}
use flin.Stream.Message.Types.{TopicMetadata}
use flin.Stream.Topics.Defs.{Consumer, ConsumerGroup, Stream, get_topic_metadata}

-- `for i := 0; i < numParts; i++ { append(currentPart); currentPart++ }`
unfoldable pub consecutive : ℕ → ℕ → List ℕ
consecutive current_part zero = []
consecutive current_part (suc num_parts) = current_part ∷ consecutive (current_part + 1) num_parts

-- How many partitions the next consumer takes.
unfoldable pub parts_for : ℕ → ℕ → ℕ
parts_for per_consumer extra = if ltb 0 extra then per_consumer + 1 else per_consumer

-- The loop over the consumers; each takes one of the extra partitions while there are any.
unfoldable pub assign : ℕ → ℕ → ℕ → Table Consumer → Table Consumer
assign per_consumer extra current_part [] = []
assign per_consumer extra current_part ((id, c) ∷ rest) =
    let num_parts = parts_for per_consumer extra in
    (id, record c { partitions = consecutive current_part num_parts })
    ∷ assign per_consumer (extra - 1) (current_part + num_parts) rest

-- The division of the partitions among the consumers, if there are any.
unfoldable pub share_out : ℕ → Table Consumer → Table Consumer
share_out partitions [] = []
share_out partitions (c ∷ cs) =
    let n = length (c ∷ cs) in assign (partitions / n) (partitions % n) 0 (c ∷ cs)

abbrev pub found_consumer : Bytes → Option Consumer → Consumer
found_consumer id none = record { id = id; last_seen = 0; partitions = [] }
found_consumer id (some c) = c

-- The consumer that is there or a new one, seen now.
unfoldable pub seen_consumer : Bytes → ℕ → Table Consumer → Consumer
seen_consumer id now consumers = record (found_consumer id (find id consumers)) { last_seen = now }

abbrev pub found_group : Bytes → Bytes → Option ConsumerGroup → ConsumerGroup
found_group group topic none = record { name = group; topic = topic; consumers = [] }
found_group group topic (some g) = g

abbrev pub other_topic : Bytes → Bytes → Error
other_topic group topic =
    message_text (text "group " ++ (group ++ (text " already subscribed to " ++ topic)))

module _ (b : Badger) where
  abbrev pub store_group : Bytes → ConsumerGroup → Stream b → Stream b
  store_group group g s = record s { groups = put group g s.groups }

  abbrev pub rebalanced :
      Bytes → ConsumerGroup → Outcome TopicMetadata → Stream b → Outcome (Unit {0}) × Stream b
  rebalanced group g (ok meta) s =
      (ok tt, store_group group (record g { consumers = share_out meta.partitions g.consumers }) s)
  rebalanced group g (err e) s = (err e, s)
  rebalanced group g panic s = (panic, s)

  unfoldable pub rebalance_group : Bytes → ConsumerGroup → Stream b → Outcome (Unit {0}) × Stream b
  rebalance_group group g s = let r = get_topic_metadata b g.topic s in rebalanced group g r.0 r.1

  unfoldable pub subscribe : Bytes → Bytes → Bytes → ℕ → Stream b → Outcome (Unit {0}) × Stream b
  subscribe topic group consumer_id now s =
      let g = found_group group topic (find group s.groups) in
      if same_key g.topic topic
      then (let g' : ConsumerGroup = record g {
        consumers = put consumer_id (seen_consumer consumer_id now g.consumers) g.consumers;
      } in
          rebalance_group group g' (store_group group g' s))
      else (err (other_topic group g.topic), s)

  abbrev pub leave :
      Bytes → ConsumerGroup → Table Consumer → Stream b → Outcome (Unit {0}) × Stream b
  leave group g [] s = (ok tt, record s { groups = remove group s.groups })
  leave group g (c ∷ cs) s =
      let g' : ConsumerGroup = record g { consumers = c ∷ cs } in
      rebalance_group group g' (store_group group g' s)

  abbrev pub leave_found :
      Bytes → Bytes → Option ConsumerGroup → Stream b → Outcome (Unit {0}) × Stream b
  leave_found group consumer_id none s = (ok tt, s)
  leave_found group consumer_id (some g) s = leave group g (remove consumer_id g.consumers) s

  -- The topic is not looked at.
  unfoldable pub unsubscribe : Bytes → Bytes → Bytes → Stream b → Outcome (Unit {0}) × Stream b
  unsubscribe topic group consumer_id s = leave_found group consumer_id (find group s.groups) s
