-- ===== src/Stream/Storage/Batch.antt =====
-- internal/stream/storage_batch.go: the messages of a batch, by partition. A Go map is the list of its
-- entries, here in the order in which the partitions first occur; `range` may visit them in another.
use flin.Prelude.{
  ℕ, ◌+◌, ◌==◌, Bool, List, [], ◌∷◌, ◌++◌, leb, length, overwrite, replicate, if◌then◌else◌,
}
use flin.Wire.Outcome.{Bytes, Outcome, ok, then_do}
use flin.Wire.Table.{Table}
use flin.Badger.{Badger}
use flin.Stream.Message.Types.{Message, PublishMessage}
use flin.Stream.Storage.Defs.{StreamStorage, append_message}

-- `msgWithIndex`
abbrev pub Indexed : Type 0
Indexed = ℕ × PublishMessage

abbrev pub Partitioned : Type 0
Partitioned = List (ℕ × List Indexed)

-- `partitionMessages[p] = append(partitionMessages[p], m)`
unfoldable pub add_indexed : ℕ → Indexed → Partitioned → Partitioned
add_indexed partition m [] = (partition, m ∷ []) ∷ []
add_indexed partition m ((p, msgs) ∷ rest) =
    let rest' = add_indexed partition m rest in
    if p == partition then (p, msgs ++ m ∷ []) ∷ rest else (p, msgs) ∷ rest'

unfoldable pub partition_messages : ℕ → List PublishMessage → Partitioned → Partitioned
partition_messages i [] result = result
partition_messages i (msg ∷ rest) result =
    partition_messages (i + 1) rest (add_indexed msg.partition (i, msg) result)

unfoldable pub total_buffered : Table (List Message) → ℕ
total_buffered [] = 0
total_buffered ((part_key, msgs) ∷ rest) = length msgs + total_buffered rest

module _ (b : Badger) (topic : Bytes) (now : ℕ) where
  -- The offsets so far are `offsets`.
  unfoldable pub append_indexed :
      ℕ → List Indexed → List ℕ → StreamStorage b → Outcome (List ℕ × StreamStorage b)
  append_indexed partition [] offsets s = ok (offsets, s)
  append_indexed partition ((idx, msg) ∷ rest) offsets s =
      then_do (append_message b topic partition msg.key msg.value now s)
        λ r. append_indexed partition rest (overwrite offsets idx (r.0.0 ∷ [])) r.1

  unfoldable pub append_partitioned :
      Partitioned → List ℕ → StreamStorage b → Outcome (List ℕ × StreamStorage b)
  append_partitioned [] offsets s = ok (offsets, s)
  append_partitioned ((partition, msgs) ∷ rest) offsets s =
      then_do (append_indexed partition msgs offsets s) λ r. append_partitioned rest r.0 r.1

  -- The offsets, and whether a flush is asked for.
  unfoldable pub append_message_batch :
      List PublishMessage → StreamStorage b → Outcome ((List ℕ × Bool) × StreamStorage b)
  append_message_batch messages s =
      then_do
        (append_partitioned (partition_messages 0 messages []) (replicate (length messages) 0) s)
        λ r. ok ((r.0, leb 1000 (total_buffered r.1.write_buffer)), r.1)
