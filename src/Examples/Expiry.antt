-- ===== src/Examples/Expiry.antt =====
-- internal/queue/storage_ack.go and worker.go: RequeueExpiredMessages, and what the worker watches, at
-- concrete inputs.
use flin.Prelude.{◌≡◌, refl, List, Bool, false, ◌||◌, [], ◌∷◌, length, arith}
use flin.Wire.Outcome.{Bytes, ok}
use flin.Badger.Shelf.{Shelf, shelf, shelf-Reliable, shelf_keys, look}
use flin.Wire.Text.{text, decimal}
use flin.Badger.Memory.{same_key}
use flin.Queue.Worker.Defs.{VisibilityTimeoutWorker, is_watched}
use flin.Queue.Worker.Watching.{Watch, add, drop, run_watch, watch_spec, Watches, run_watch-Watches}
use flin.Queue.Keys.{state_text, message_key, message_index_key}
use flin.Queue.Message.Types.{QueueMessage}
use flin.Queue.Message.Recovery.{message_bytes}
use flin.Queue.Delivery.Receive.{taken}
use flin.Queue.Delivery.Slots.{slot_key}
use flin.Queue.Delivery.Writes.{at_slot}
use flin.Queue.Delivery.Kept.{delivered, Kept}
use flin.Examples.Delivery.{mail, first_id, letter}
use flin.Queue.Message.Recovery.{FitsMessage}
use flin.Queue.Keys.{message_index_prefix}
use flin.Queue.Delivery.Items.{ids_of, Items, entries_of, expired_of}
use flin.Queue.Delivery.Receive.{requeue_expired_messages}
use flin.Queue.Delivery.Expiry.{AllKept, PutBack, requeue_expired_messages-PutBack}
use mathlib.Core.List.Memᴰ.{not-nil}
use flin.Badger.Shelf.{begins, keys_in}

-- A message in flight since time 1000, with a timeout of 30.
abbrev late : QueueMessage
late = taken (1 ∷ []) 30 1000 letter

abbrev late_box : Shelf
late_box =
    (message_key mail first_id, message_bytes late)
    ∷ (message_index_key mail 1 first_id, 1 ∷ [])
    ∷ []

late-FitsMessage : FitsMessage late
late-FitsMessage = record {
  id_fits = omega arith;
  value_fits = omega arith;
  state_fits = omega arith;
  count_fits = omega arith;
  consumer_fits = omega arith;
  enqueued_fits = omega arith;
  in_flight_fits = omega arith;
  timeout_fits = omega arith;
  retries_fit = omega arith;
}

late-Kept : Kept shelf late_box mail first_id delivered late
unfolding at_slot slot_key look message_key message_index_key state_text decimal
late-Kept = record {
  stored = refl;
  fits = late-FitsMessage;
  own_id = refl;
  own_state = refl;
  indexed = refl;
  alone = refl;
}

abbrev late_items : Items
late_items = (first_id, late) ∷ []

late_keys : shelf_keys.keys late_box (message_index_prefix mail 1) ≡ entries_of mail late_items
unfolding keys_in begins entries_of message_key message_index_key message_index_prefix state_text
    decimal
late_keys = refl

requeue_expired_messages-PutBack_example :
    (db' : Shelf) × (requeue_expired_messages shelf shelf_keys mail 2000 late_box
      ≡ (ok (length (expired_of 2000 late_items)), db'))
    × PutBack shelf shelf_keys shelf-Reliable mail refl late_box db' 1 (expired_of 2000 late_items)
unfolding ids_of AllKept
requeue_expired_messages-PutBack_example =
    requeue_expired_messages-PutBack shelf shelf_keys shelf-Reliable mail refl late_box 1 2000
      late_items late_keys (refl, not-nil, tt) (late-Kept, tt) (omega arith)
      ((λ h. omega arith), tt)

abbrev watcher : VisibilityTimeoutWorker
watcher = record { queue_names = text "a" ∷ []; check_interval = 5 }

abbrev watched : List Watch
watched = add (text "b") ∷ add (text "a") ∷ drop (text "a") ∷ []

abbrev watch_a : Bytes → Bool
watch_a n = same_key (text "a") n || false

run_watch-Watches_example : Watches (run_watch watched watcher) (watch_spec watched watch_a)
unfolding is_watched
run_watch-Watches_example =
    run_watch-Watches watched watcher watch_a (record { once = (refl, tt); agrees = λ n. refl })
