-- ===== src/Queue/Storage/Trace.antt =====
-- Every sequence of queue operations answers as a list of items does.
use flin.Prelude.{
  ℕ, ◌+◌, ◌^◌, ◌<◌, ◌≡◌, refl, ap, false, List, [], ◌∷◌, ◌++◌, length, length-append, arith,
}
use flin.Wire.Outcome.{Bytes, Error, Outcome, ok, err, panic}
use flin.Badger.{Badger, Reliable}
use flin.Queue.Storage.Defs
use flin.Queue.Storage.Defs.{is_empty, err_queue_empty}
use flin.Queue.Storage.Contents.{Holds}
use flin.Queue.Storage.Fifo.{push-Holds, pop-Holds, pop-empty, peek-Holds, peek-empty, len-Holds}
use flin.Queue.Storage.Clear.{clear-Holds}

pub data Command : Type 0 where
  push : Bytes → Command
  pop peek len clear : Command

-- What a caller gets back.
pub data Answer : Type 0 where
  done : Answer
  item : Bytes → Answer
  size : ℕ → Answer
  refused : Error → Answer
  crashed : Answer

-- The specification: a list of items, oldest first.
unfoldable pub spec_step : Command → List Bytes → Answer × List Bytes
spec_step (push v) items = (done, items ++ v ∷ [])
spec_step pop [] = (refused err_queue_empty, [])
spec_step pop (x ∷ xs) = (item x, xs)
spec_step peek [] = (refused err_queue_empty, [])
spec_step peek (x ∷ xs) = (item x, x ∷ xs)
spec_step len items = (size (length items), items)
spec_step clear items = (done, [])

unfoldable pub spec_run : List Command → List Bytes → List Answer
unfolding spec_step
spec_run [] items = []
spec_run (c ∷ cs) items = (spec_step c items).0 ∷ spec_run cs (spec_step c items).1

abbrev pub answer {ℓ} : {A : Type ℓ} → (A → Answer) → Outcome A → Answer
answer f (ok a) = f a
answer f (err e) = refused e
answer f panic = crashed

module _ (b : Badger) (name : Bytes) where
  open b use {Txn}

  unfoldable pub step : Command → Txn → Answer × Txn
  step (push v) db = let (r, db') = Defs.push b name v db in (answer (λ _. done) r, db')
  step pop db = let (r, db') = Defs.pop b name db in (answer item r, db')
  step peek db = (answer item (Defs.peek b name db), db)
  step len db = (answer size (Defs.len b name db), db)
  step clear db = let (r, db') = Defs.clear b name db in (answer (λ _. done) r, db')

  unfoldable pub run : List Command → Txn → List Answer
  run [] db = []
  run (c ∷ cs) db = (step c db).0 ∷ run cs (step c db).1

module _ (b : Badger) (r : Reliable b) (name : Bytes) (named : is_empty name ≡ false) where
  open b use {Txn}

  -- One step answers as the list does, and leaves what the list leaves, one position further at most.
  step-spec :
      (c : Command) (db : Txn) (head : ℕ) (items : List Bytes)
      → Holds b db name head items
      → head + length items + 1 < 2 ^ 64
      → (head' : ℕ) × ((step b name c db).0 ≡ (spec_step c items).0)
        × Holds b (step b name c db).1 name head' (spec_step c items).1
        × (head' + length (spec_step c items).1 < head + length items + 2)
  unfolding step spec_step
  step-spec (push v) db head items h room =
      let (db', e, holds, others) = push-Holds b r name named db head items v h room in
      (head, rw e, rw e holds, omega (arith, length-append items (v ∷ [])))
  step-spec pop db head [] h room =
      let e = pop-empty b r name named db head h in (head, rw e, rw e h, omega arith)
  step-spec pop db head (x ∷ xs) h room =
      let (db', e, holds, others) = pop-Holds b r name named db head x xs h in
      (head + 1, rw e, rw e holds, omega arith)
  step-spec peek db head [] h room =
      (head, rw (peek-empty b r name named db head h), h, omega arith)
  step-spec peek db head (x ∷ xs) h room =
      (head, rw (peek-Holds b r name named db head x xs h), h, omega arith)
  step-spec len db head items h room =
      (head, rw (len-Holds b r name named db head items h), h, omega arith)
  step-spec clear db head items h room =
      let (db', e, holds, gone, others) = clear-Holds b r name named db head items h in
      (0, rw e, rw e holds, omega arith)

  -- From a database that holds `items`, every sequence of operations gives the answers that the list
  -- gives, if the 64-bit positions do not run out.
  pub run-spec :
      (cs : List Command) (db : Txn) (head : ℕ) (items : List Bytes)
      → Holds b db name head items
      → head + length items + length cs < 2 ^ 64
      → run b name cs db ≡ spec_run cs items
  unfolding run spec_run
  run-spec [] db head items h room = refl
  run-spec (c ∷ cs) db head items h room =
      let (head', e, holds, near) = step-spec c db head items h (omega arith) in
      rw e (
        ap (◌∷◌ (spec_step c items).0)
          (run-spec cs (step b name c db).1 head' _ holds (omega arith)))
