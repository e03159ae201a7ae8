-- ===== src/Stream/Groups/Consume.antt =====
-- internal/stream/stream.go: Consume. Each partition is fetched by a goroutine of its own; they run one
-- after the other here, in the order in which their results arrive.
use flin.Prelude.{ℕ, ◌/◌, ◌==◌, Option, none, some, List, [], ◌∷◌, ◌++◌, length, if◌then◌else◌}
use flin.Wire.Outcome.{Bytes, Error, Outcome, message, ok, err, panic}
use flin.Wire.Table.{find, put}
use flin.Wire.Signed.{signed_lt, magnitude, with_sign}
use flin.Badger.{Badger}
use flin.Stream.Message.Types.{Message}
use flin.Stream.Storage.{fetch_messages}
use flin.Stream.Topics.Defs.{Consumer, ConsumerGroup, Stream, get_cached_offset}
use flin.Stream.Groups.Defs.{store_group}

abbrev pub err_no_group : Error
err_no_group = message "consumer group not found"

abbrev pub err_no_consumer : Error
err_no_consumer = message "consumer not registered"

-- The loop over the results, until there are `count` messages.
unfoldable pub collect : ℕ → List (Outcome (List Message)) → List Message → Outcome (List Message)
collect count [] result = ok result
collect count (panic ∷ rest) result = panic
collect count (err e ∷ rest) result = err e
collect count (ok messages ∷ rest) result =
    let more = collect count rest (result ++ messages) in
    if signed_lt (length (result ++ messages)) count then more else ok (result ++ messages)

-- `count / len(partitions)`, and 1 in place of 0.
unfoldable pub per_part : ℕ → List ℕ → ℕ
per_part count partitions =
    let share = with_sign count (magnitude count / length partitions) in
    if share == 0 then 1 else share

module _ (b : Badger) (seek : b.Txn → Bytes → Bytes → List Bytes) where
  abbrev pub fetched : Bytes → ℕ → ℕ → Outcome ℕ → Stream b → Outcome (List Message) × Stream b
  fetched topic partition count (err e) s = (err e, s)
  fetched topic partition count panic s = (panic, s)
  fetched topic partition count (ok offset) s =
      let r = fetch_messages b seek topic partition offset count s.storage in
      (r.0, record s { storage = r.1 })

  unfoldable pub fetch_partition :
      Bytes → Bytes → ℕ → ℕ → Stream b → Outcome (List Message) × Stream b
  fetch_partition topic group count partition s =
      let r = get_cached_offset b group topic partition s in fetched topic partition count r.0 r.1

  unfoldable pub fetch_partitions :
      Bytes → Bytes → ℕ → List ℕ → Stream b → List (Outcome (List Message)) × Stream b
  fetch_partitions topic group count [] s = ([], s)
  fetch_partitions topic group count (partition ∷ rest) s =
      let r = fetch_partition topic group count partition s in
      let more = fetch_partitions topic group count rest r.1 in (r.0 ∷ more.0, more.1)

  -- `make([]*Message, 0, count)` panics on a negative count, when the partitions are being fetched.
  abbrev pub consume_from :
      Bytes → Bytes → ℕ → List ℕ → List ℕ → Stream b → Outcome (List Message) × Stream b
  consume_from topic group count [] arriving s = (ok [], s)
  consume_from topic group count (p ∷ ps) arriving s =
      let r = fetch_partitions topic group (per_part count (p ∷ ps)) arriving s in
      (if signed_lt count 0 then panic else collect count r.0 [], r.1)

  abbrev pub consume_as :
      (List ℕ → List ℕ)
      → Bytes
      → Bytes
      → Bytes
      → ℕ
      → ℕ
      → ConsumerGroup
      → Option Consumer
      → Stream b
      → Outcome (List Message) × Stream b
  consume_as arrive topic group consumer_id count now g none s = (err err_no_consumer, s)
  consume_as arrive topic group consumer_id count now g (some c) s =
      let seen = put consumer_id (record c { last_seen = now }) g.consumers in
      consume_from topic group count c.partitions (arrive c.partitions)
        (store_group b group (record g { consumers = seen }) s)

  abbrev pub consume_in :
      (List ℕ → List ℕ)
      → Bytes
      → Bytes
      → Bytes
      → ℕ
      → ℕ
      → Option ConsumerGroup
      → Stream b
      → Outcome (List Message) × Stream b
  consume_in arrive topic group consumer_id count now none s = (err err_no_group, s)
  consume_in arrive topic group consumer_id count now (some g) s =
      consume_as arrive topic group consumer_id count now g (find consumer_id g.consumers) s

  -- `arrive` is the order in which the results of the partitions come in.
  unfoldable pub consume :
      (List ℕ → List ℕ)
      → Bytes
      → Bytes
      → Bytes
      → ℕ
      → ℕ
      → Stream b
      → Outcome (List Message) × Stream b
  consume arrive topic group consumer_id count now s =
      consume_in arrive topic group consumer_id count now (find group s.groups) s
