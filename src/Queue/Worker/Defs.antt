-- ===== src/Queue/Worker/Defs.antt =====
-- internal/queue/worker.go: the queues that the visibility worker looks after, and one round of it. The
-- ticker, the logs and the locks are left out.
use flin.Prelude.{ℕ, Bool, false, ◌||◌, List, [], ◌∷◌, ◌++◌, if◌then◌else◌, ◌==◌}
use flin.Wire.Outcome.{Bytes}
use flin.Badger.{Badger, Iterator}
use flin.Badger.Memory.{same_key}
use flin.Queue.Delivery.Receive.{requeue_expired_messages}

-- 10 seconds in nanoseconds.
abbrev pub default_check_interval : ℕ
default_check_interval = 10000000000

pub record VisibilityTimeoutWorker : Type 0 where
  pub queue_names : List Bytes
  pub check_interval : ℕ

unfoldable pub new_visibility_timeout_worker : ℕ → VisibilityTimeoutWorker
new_visibility_timeout_worker check_interval = record {
  queue_names = [];
  check_interval = if check_interval == 0 then default_check_interval else check_interval;
}

-- `for _, name := range w.queueNames { if name == queueName … }`
unfoldable pub is_watched : Bytes → List Bytes → Bool
is_watched queue_name [] = false
is_watched queue_name (name ∷ names) = same_key name queue_name || is_watched queue_name names

unfoldable pub add_queue : Bytes → VisibilityTimeoutWorker → VisibilityTimeoutWorker
add_queue queue_name w =
    if is_watched queue_name w.queue_names
    then w
    else record w { queue_names = w.queue_names ++ queue_name ∷ [] }

-- The first entry with the name is cut out.
unfoldable pub cut_name : Bytes → List Bytes → List Bytes
cut_name queue_name [] = []
cut_name queue_name (name ∷ names) =
    let rest = cut_name queue_name names in if same_key name queue_name then names else name ∷ rest

unfoldable pub remove_queue : Bytes → VisibilityTimeoutWorker → VisibilityTimeoutWorker
remove_queue queue_name w = record w { queue_names = cut_name queue_name w.queue_names }

module _ (b : Badger) (it : Iterator b) where
  -- `checkExpiredMessages`: an error of one queue is logged, and the next queue is looked at. `now` has the
  -- time of each look.
  unfoldable pub check_queues : (Bytes → ℕ) → List Bytes → b.Txn → b.Txn
  check_queues now [] db = db
  check_queues now (queue_name ∷ queues) db =
      check_queues now queues (requeue_expired_messages b it queue_name (now queue_name) db).1

  unfoldable pub check_expired_messages : (Bytes → ℕ) → VisibilityTimeoutWorker → b.Txn → b.Txn
  check_expired_messages now w db = check_queues now w.queue_names db
