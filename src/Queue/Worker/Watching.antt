-- ===== src/Queue/Worker/Watching.antt =====
-- What the worker watches after AddQueue and RemoveQueue: a set of names, each once.
use flin.Prelude.{
  ◌≡◌, refl, sym, ap, ◌∙◌, inl, inr, Bool-cases, Bool, true, false, ◌||◌, List, [], ◌∷◌, ◌++◌,
  if◌then◌else◌, arith,
}
use flin.Wire.Outcome.{Bytes}
use flin.Badger.Memory.{same_key, same_key_iff}
use flin.Queue.Worker.Defs.{VisibilityTimeoutWorker, is_watched, add_queue, cut_name, remove_queue}

-- The calls that change what is watched.
pub data Watch : Type 0 where
  add : Bytes → Watch
  drop : Bytes → Watch

unfoldable pub run_watch : List Watch → VisibilityTimeoutWorker → VisibilityTimeoutWorker
run_watch [] w = w
run_watch (add name ∷ calls) w = run_watch calls (add_queue name w)
run_watch (drop name ∷ calls) w = run_watch calls (remove_queue name w)

-- A set of names.
unfoldable pub update_set : (Bytes → Bool) → Bytes → Bool → Bytes → Bool
update_set m name v n = if same_key name n then v else m n

unfoldable pub watch_spec : List Watch → (Bytes → Bool) → Bytes → Bool
watch_spec [] m = m
watch_spec (add name ∷ calls) m = watch_spec calls (update_set m name true)
watch_spec (drop name ∷ calls) m = watch_spec calls (update_set m name false)

abbrev pub AreDistinct : List Bytes → Type 0
AreDistinct [] = Unit
AreDistinct (name ∷ names) = (is_watched name names ≡ false) × AreDistinct names

-- A worker that watches a set, each name once.
pub record Watches (w : VisibilityTimeoutWorker) (m : Bytes → Bool) : Type 0 where
  pub once : AreDistinct w.queue_names
  pub agrees : (n : Bytes) → is_watched n w.queue_names ≡ m n

is_watched-snoc :
    (n name : Bytes) (names : List Bytes)
    → is_watched n (names ++ name ∷ []) ≡ (is_watched n names || same_key name n)
unfolding is_watched
is_watched-snoc n name [] = ground arith
is_watched-snoc n name (x ∷ names) = ground (arith, is_watched-snoc n name names)

AreDistinct-snoc :
    (name : Bytes) (names : List Bytes)
    → AreDistinct names
    → is_watched name names ≡ false
    → AreDistinct (names ++ name ∷ [])
unfolding is_watched
AreDistinct-snoc name [] d h = (refl, tt)
AreDistinct-snoc name (x ∷ names) (f, d) h = (
  ground (arith, is_watched-snoc x name names, same_key_iff name x, same_key_iff x name),
  AreDistinct-snoc name names d (ground arith),
)

is_watched-cut_name :
    (n name : Bytes) (names : List Bytes)
    → AreDistinct names
    → is_watched n (cut_name name names) ≡ (if same_key name n then false else is_watched n names)
unfolding is_watched cut_name
is_watched-cut_name n name [] d = ground arith
is_watched-cut_name n name (x ∷ names) (f, d) = elim (Bool-cases (same_key x name)) [
  | inl y ↦
      let same : x ≡ name = (same_key_iff x name).0 y in
      elim (Bool-cases (same_key name n)) [
        | inl z ↦
            let same' : name ≡ n = (same_key_iff name n).0 z in
            rw (y, z) (ap (λ k. is_watched k names) (sym (same ∙ same')) ∙ f)
        | inr z ↦
            let apart : same_key x n ≡ false = ap (λ k. same_key k n) same ∙ z in rw (y, z, apart)
      ]
  | inr m ↦ rw m (
      ground (
        arith,
        is_watched-cut_name n name names d,
        same_key_iff x n,
        same_key_iff name n,
        same_key_iff x name,
      ))
]

AreDistinct-cut_name :
    (name : Bytes) (names : List Bytes) → AreDistinct names → AreDistinct (cut_name name names)
unfolding cut_name
AreDistinct-cut_name name [] d = tt
AreDistinct-cut_name name (x ∷ names) (f, d) = elim (Bool-cases (same_key x name)) [
  | inl y ↦ rw y d
  | inr n ↦ rw n (
    is_watched-cut_name x name names d ∙ ground (arith, same_key_iff name x, same_key_iff x name),
    AreDistinct-cut_name name names d,
  )
]

add_queue-Watches :
    (name : Bytes) (w : VisibilityTimeoutWorker) (m : Bytes → Bool)
    → Watches w m
    → Watches (add_queue name w) (update_set m name true)
unfolding add_queue update_set
add_queue-Watches name w m h = elim (Bool-cases (is_watched name w.queue_names)) [
  | inl y ↦ rw y (record { once = h.once; agrees = λ n. there n y })
  | inr f ↦ rw f (record {
    once = AreDistinct-snoc name w.queue_names h.once f;
    agrees = λ n. is_watched-snoc n name w.queue_names ∙ ground (arith, h.agrees n);
  })
]
  where
    there :
        (n : Bytes)
        → is_watched name w.queue_names ≡ true
        → is_watched n w.queue_names ≡ (if same_key name n then true else m n)
    there n y = elim (Bool-cases (same_key name n)) [
      | inl z ↦ rw z (ap (λ k. is_watched k w.queue_names) (sym ((same_key_iff name n).0 z)) ∙ y)
      | inr z ↦ rw z (h.agrees n)
    ]

remove_queue-Watches :
    (name : Bytes) (w : VisibilityTimeoutWorker) (m : Bytes → Bool)
    → Watches w m
    → Watches (remove_queue name w) (update_set m name false)
unfolding remove_queue update_set
remove_queue-Watches name w m h = record {
  once = AreDistinct-cut_name name w.queue_names h.once;
  agrees = λ n.
      is_watched-cut_name n name w.queue_names h.once
      ∙ ap (λ x. if same_key name n then false else x) (h.agrees n);
}

-- Whatever queues are added and removed, the worker watches the set of queues that the calls leave,
-- and each queue of it once, if it did so before.
pub run_watch-Watches :
    (calls : List Watch) (w : VisibilityTimeoutWorker) (m : Bytes → Bool)
    → Watches w m
    → Watches (run_watch calls w) (watch_spec calls m)
unfolding run_watch watch_spec
run_watch-Watches [] w m h = h
run_watch-Watches (add name ∷ calls) w m h =
    run_watch-Watches calls _ _ (add_queue-Watches name w m h)
run_watch-Watches (drop name ∷ calls) w m h =
    run_watch-Watches calls _ _ (remove_queue-Watches name w m h)
