-- ===== src/Examples/Queue.antt =====
-- internal/queue/storage.go at concrete inputs, over the store in memory.
use flin.Prelude.{ℕ, ◌+◌, ◌<◌, ◌≤◌, ◌≡◌, ◌≢◌, refl, List, [], ◌∷◌, length, arith}
use flin.Wire.Outcome.{Bytes, ok}
use flin.Wire.BigEndian.{put_be, be_value}
use flin.Badger.{found, missing}
use flin.Badger.Memory.{Memory, memory, memory-Reliable, empty_memory, write}
use flin.Wire.Text.{decimal}
use flin.Queue.Keys.{data_key, metadata_key, data_key-injective}
use flin.Queue.Storage.{
  decode_metadata, encode_metadata, get_metadata, push, pop, clear, err_queue_empty,
}
use flin.Queue.Storage.Contents.{Holds, SameQueue, decode-encode_metadata}
use flin.Queue.Storage.Fifo.{push-Holds, pop-Holds}
use flin.Queue.Storage.Clear.{clear-Holds}
use flin.Queue.Storage.Trace.{Command, Answer, run, spec_run, run-spec}

abbrev jobs : Bytes
jobs = 106 ∷ []

empty-Holds : Holds memory empty_memory jobs 0 []
unfolding get_metadata
empty-Holds = record { metadata = refl; items_at = tt; in_range = omega arith }

abbrev script : List Command
script =
    Command.push (1 ∷ [])
    ∷ Command.push (2 ∷ [])
    ∷ Command.peek
    ∷ Command.pop
    ∷ Command.len
    ∷ Command.pop
    ∷ Command.pop
    ∷ []

spec_script :
    spec_run script []
    ≡ Answer.done
      ∷ Answer.done
      ∷ Answer.item (1 ∷ [])
      ∷ Answer.item (1 ∷ [])
      ∷ Answer.size 1
      ∷ Answer.item (2 ∷ [])
      ∷ Answer.refused err_queue_empty
      ∷ []
unfolding spec_run
spec_script = refl

run-spec_example : run memory jobs script empty_memory ≡ spec_run script []
run-spec_example =
    run-spec memory memory-Reliable jobs refl script empty_memory 0 [] empty-Holds (omega arith)

-- After one push, the store holds one item at position 0.
abbrev pushed : Memory
pushed =
    write (write empty_memory (data_key jobs 0) (found (7 ∷ []))) (metadata_key jobs)
      (found (encode_metadata (record { head = 0; tail = 1 })))

pushed-Holds : Holds memory pushed jobs 0 ((7 ∷ []) ∷ [])
unfolding get_metadata write decode_metadata encode_metadata put_be be_value data_key metadata_key
    decimal
pushed-Holds = record { metadata = refl; items_at = (refl, tt); in_range = omega arith }

push-Holds_example :
    (db' : Memory) × (push memory jobs (8 ∷ []) pushed ≡ (ok tt, db'))
    × Holds memory db' jobs 0 ((7 ∷ []) ∷ (8 ∷ []) ∷ [])
    × ((other : Bytes) → jobs ≢ other → SameQueue memory pushed db' other)
push-Holds_example =
    push-Holds memory memory-Reliable jobs refl pushed 0 ((7 ∷ []) ∷ []) (8 ∷ []) pushed-Holds
      (omega arith)

pop-Holds_example :
    (db' : Memory) × (pop memory jobs pushed ≡ (ok (7 ∷ []), db'))
    × Holds memory db' jobs 1 []
    × ((other : Bytes) → jobs ≢ other → SameQueue memory pushed db' other)
pop-Holds_example = pop-Holds memory memory-Reliable jobs refl pushed 0 (7 ∷ []) [] pushed-Holds

clear-Holds_example :
    (db' : Memory) × (clear memory jobs pushed ≡ (ok tt, db'))
    × Holds memory db' jobs 0 []
    × ((j : ℕ)
        → 0 ≤ j
        → j < 0 + length {A = Bytes} ((7 ∷ []) ∷ [])
        → db' (data_key jobs j) ≡ missing)
    × ((other : Bytes) → jobs ≢ other → SameQueue memory pushed db' other)
clear-Holds_example =
    clear-Holds memory memory-Reliable jobs refl pushed 0 ((7 ∷ []) ∷ []) pushed-Holds

data_key-injective_example : (jobs ≡ jobs) × (◌≡◌ {A = ℕ} 3 3)
data_key-injective_example = data_key-injective jobs jobs 3 3 (omega arith) (omega arith) refl

decode-encode_metadata_example :
    decode_metadata (encode_metadata (record { head = 5; tail = 300 }))
    ≡ record { head = 5; tail = 300 }
decode-encode_metadata_example = decode-encode_metadata 5 300 (omega arith) (omega arith)
