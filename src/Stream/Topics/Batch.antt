-- ===== src/Stream/Topics/Batch.antt =====
-- internal/stream/stream.go: PublishBatch.
use flin.Prelude.{ℕ, Bool, List, [], ◌∷◌}
use flin.Wire.Outcome.{Bytes, Outcome, ok, then_do}
use flin.Badger.{Badger}
use flin.Stream.Message.Types.{PublishMessage}
use flin.Stream.Storage.Batch.{append_message_batch}
use flin.Stream.Topics.Defs.{Stream, ensure_topic, select_partition, keep_storage}

-- `unix_nano` is the clock for the whole batch.
unfoldable pub assign_partitions :
    (Bytes → ℕ) → ℕ → ℕ → List PublishMessage → Outcome (List PublishMessage)
assign_partitions sum32 unix_nano partitions [] = ok []
assign_partitions sum32 unix_nano partitions (msg ∷ rest) =
    then_do (select_partition sum32 unix_nano msg.partition msg.key partitions) λ chosen.
      then_do (assign_partitions sum32 unix_nano partitions rest)
        λ rest'. ok (record msg { partition = chosen } ∷ rest')

module _ (b : Badger) where
  unfoldable pub publish_batch :
      (Bytes → ℕ)
      → ℕ
      → ℕ
      → Bytes
      → List PublishMessage
      → Stream b
      → Outcome (List ℕ × Bool) × Stream b
  publish_batch sum32 unix_nano now topic messages s =
      let r = ensure_topic b topic now s in
      keep_storage b r.1 (
        then_do r.0 λ meta.
          then_do (assign_partitions sum32 unix_nano meta.partitions messages)
            λ chosen. append_message_batch b topic now chosen r.1.storage)
