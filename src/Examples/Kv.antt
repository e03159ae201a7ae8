-- ===== src/Examples/Kv.antt =====
-- internal/kv/storage.go at concrete inputs, over the shelf.
use flin.Prelude.{
  ◌≡◌, refl, true, false, none, some, List, [], ◌∷◌, if◌then◌else◌, Bool-cases, inl, inr,
}
use flin.Wire.Outcome.{Bytes}
use flin.Badger.Memory.{same_key}
use flin.Badger.Shelf.{shelf, shelf-Reliable, look}
use flin.Badger.ShelfWriters.{shelf_writers, shelf_writers-IsLawful, shelf_writers-AreReliable}
use flin.Kv.Storage.{Storage, err_no_key}
use flin.Kv.View.{
  View, Operation, Answer, Shows, spec, update_view, update_pairs, remove_keys, number, has_blank,
  keys_of,
}
use flin.Kv.Trace.{run_calls, run_spec, run_calls-run_spec}

abbrev pub name_key : Bytes
name_key = 110 ∷ []

abbrev pub hits_key : Bytes
hits_key = 104 ∷ []

abbrev pub one_key : Storage shelf
one_key = record { db = (name_key, 7 ∷ []) ∷ []; closed = false }

abbrev pub one_key_view : View
one_key_view k = if same_key name_key k then some (7 ∷ []) else none

pub one_key-Shows : Shows shelf one_key one_key_view
unfolding look
one_key-Shows = record {
  is_open = refl;
  agrees = λ k. elim (Bool-cases (same_key name_key k)) [ inl y ↦ rw y | inr n ↦ rw n ];
}

abbrev script : List Operation
script =
    Operation.get name_key
    ∷ Operation.incr hits_key
    ∷ Operation.incr hits_key
    ∷ Operation.get hits_key
    ∷ Operation.batch_set ((hits_key, 1 ∷ []) ∷ (name_key, 2 ∷ []) ∷ []) 0
    ∷ Operation.decr hits_key
    ∷ Operation.batch_delete (name_key ∷ [])
    ∷ Operation.get name_key
    ∷ Operation.exists hits_key
    ∷ []

-- A value that is not 8 bytes long counts from 0, and 0 counts down to the pattern of -1.
spec_script :
    (run_spec script one_key_view).0
    ≡ Answer.value (7 ∷ [])
      ∷ Answer.count 1
      ∷ Answer.count 2
      ∷ Answer.value (0 ∷ 0 ∷ 0 ∷ 0 ∷ 0 ∷ 0 ∷ 0 ∷ 2 ∷ [])
      ∷ Answer.done
      ∷ Answer.count 18446744073709551615
      ∷ Answer.done
      ∷ Answer.refused err_no_key
      ∷ Answer.holds true
      ∷ []
unfolding run_spec spec update_view update_pairs remove_keys number has_blank keys_of
spec_script = refl

run_calls-run_spec_example :
    ((run_calls shelf shelf_writers script one_key).0 ≡ (run_spec script one_key_view).0)
    × Shows shelf (run_calls shelf shelf_writers script one_key).1 (run_spec script one_key_view).1
run_calls-run_spec_example =
    run_calls-run_spec shelf shelf_writers shelf-Reliable shelf_writers-IsLawful
      shelf_writers-AreReliable script one_key one_key_view one_key-Shows
