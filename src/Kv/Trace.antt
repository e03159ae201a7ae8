-- ===== src/Kv/Trace.antt =====
-- Sequences of calls of the key-value storage.
use flin.Prelude.{◌≡◌, refl, ap, List, [], ◌∷◌}
use flin.Badger.{Badger, Reliable}
use flin.Badger.Writers.{Writers, IsLawful, AreReliable}
use flin.Kv.Storage.{Storage}
use flin.Kv.View.{View, Operation, Answer, Shows, spec}
use flin.Kv.Calls.{call}
use flin.Kv.Refinement.Single.{
  Follows, set-Follows, get-Follows, delete-Follows, exists-Follows, incr-Follows, decr-Follows,
}
use flin.Kv.Refinement.Batches.{
  batch_set-Follows, batch_set_no_ttl-Follows, batch_get-Follows, batch_delete-Follows,
}

-- The answers to a list of calls, and what they leave.
unfoldable pub run_calls :
    (b : Badger) → Writers b → List Operation → Storage b → List Answer × Storage b
run_calls b w [] s = ([], s)
run_calls b w (o ∷ os) s =
    let r = call b w o s in let rest = run_calls b w os r.1 in (r.0 ∷ rest.0, rest.1)

unfoldable pub run_spec : List Operation → View → List Answer × View
run_spec [] m = ([], m)
run_spec (o ∷ os) m = let r = spec o m in let rest = run_spec os r.1 in (r.0 ∷ rest.0, rest.1)

module _ (b : Badger) (w : Writers b) (r : Reliable b) (l : IsLawful b w)
    (a : AreReliable b w) where
  pub call-Follows :
      (o : Operation) (s : Storage b) (m : View) → Shows b s m → Follows b w r l a o s m
  call-Follows (Operation.set key v ttl) s m h = set-Follows b w r l a key v ttl s m h
  call-Follows (Operation.get key) s m h = get-Follows b w r l a key s m h
  call-Follows (Operation.delete key) s m h = delete-Follows b w r l a key s m h
  call-Follows (Operation.exists key) s m h = exists-Follows b w r l a key s m h
  call-Follows (Operation.incr key) s m h = incr-Follows b w r l a key s m h
  call-Follows (Operation.decr key) s m h = decr-Follows b w r l a key s m h
  call-Follows (Operation.batch_set ps ttl) s m h = batch_set-Follows b w r l a ps ttl s m h
  call-Follows (Operation.batch_set_no_ttl ps) s m h = batch_set_no_ttl-Follows b w r l a ps s m h
  call-Follows (Operation.batch_get keys) s m h = batch_get-Follows b w r l a keys s m h
  call-Follows (Operation.batch_delete keys) s m h = batch_delete-Follows b w r l a keys s m h

  -- On a store that accepts writes, every sequence of calls on an open storage is answered as by the
  -- map of keys to values that its database shows, before any time to live has passed, and leaves a
  -- storage that shows the map that the sequence leaves.
  pub run_calls-run_spec :
      (os : List Operation) (s : Storage b) (m : View)
      → Shows b s m
      → ((run_calls b w os s).0 ≡ (run_spec os m).0)
        × Shows b (run_calls b w os s).1 (run_spec os m).1
  unfolding run_calls run_spec
  run_calls-run_spec [] s m h = (refl, h)
  run_calls-run_spec (o ∷ os) s m h =
      let f = call-Follows o s m h in
      let (answers, shown) = run_calls-run_spec os f.next (spec o m).1 f.shows in
      rw f.called (ap (◌∷◌ (spec o m).0) answers, shown)
