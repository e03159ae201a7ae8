-- ===== src/Kv/Calls.antt =====
-- A call of the storage by its operation, and its answer.
use flin.Wire.Outcome.{Outcome, ok, err, panic}
use flin.Badger.{Badger}
use flin.Badger.Writers.{Writers}
use flin.Kv.Storage.{Storage, Pairs, map_get}
use flin.Kv.Storage
use flin.Kv.View.{Operation, Answer}

abbrev pub answer {ℓ} : {A : Type ℓ} → (A → Answer) → Outcome A → Answer
answer f (ok a) = f a
answer f (err e) = Answer.refused e
answer f panic = Answer.crashed

-- The answer of a call that writes, and the storage it leaves.
abbrev pub after {ℓ} : {A S : Type ℓ} → (A → Answer) → Outcome A × S → Answer × S
after f r = (answer f r.0, r.1)

-- What a caller finds in the map that BatchGet returns.
abbrev pub found_values : Pairs → Answer
found_values ps = Answer.values (λ k. map_get k ps)

unfoldable pub call : (b : Badger) → Writers b → Operation → Storage b → Answer × Storage b
call b w (Operation.set key v ttl) s = after (λ _. Answer.done) (Storage.set b w key v ttl s)
call b w (Operation.get key) s = (answer Answer.value (Storage.get b key s), s)
call b w (Operation.delete key) s = after (λ _. Answer.done) (Storage.delete b key s)
call b w (Operation.exists key) s = (answer Answer.holds (Storage.exists b key s), s)
call b w (Operation.incr key) s = after Answer.count (Storage.incr b key s)
call b w (Operation.decr key) s = after Answer.count (Storage.decr b key s)
call b w (Operation.batch_set ps ttl) s = after (λ _. Answer.done) (Storage.batch_set b w ps ttl s)
call b w (Operation.batch_set_no_ttl ps) s =
    after (λ _. Answer.done) (Storage.batch_set_no_ttl b w ps s)
call b w (Operation.batch_get keys) s = (answer found_values (Storage.batch_get b keys s), s)
call b w (Operation.batch_delete keys) s =
    after (λ _. Answer.done) (Storage.batch_delete b w keys s)
