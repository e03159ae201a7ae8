-- ===== src/Queue/Delivery/Receive.antt =====
-- internal/queue/storage_ack.go: PopMessage and RequeueExpiredMessages, which go through an index.
use flin.Prelude.{ℕ, ◌+◌, ◌%◌, ◌^◌, Bool, ◌&&◌, List, [], ◌∷◌, ◌++◌, if◌then◌else◌, length, drop}
use flin.Wire.Outcome.{Bytes, Outcome, ok, err, panic, then_do}
use flin.Wire.Signed.{signed_lt}
use flin.Badger.{Badger, Iterator, update}
use flin.Queue.Keys.{message_key, message_index_key, message_index_prefix}
use flin.Queue.Message.Types.{QueueMessage, state_pending, state_in_flight}
use flin.Queue.Message.Encode.{encode_queue_message}
use flin.Queue.Message.Decode.{decode_queue_message}
use flin.Queue.Storage.{is_empty, err_invalid_queue, err_queue_empty, item_value, or_else}
use flin.Queue.Delivery.Defs.{move_message, requeued}

-- A message as PopMessage hands it out; `visibility_timeout` is what `visibilityTimeout.Milliseconds()` is.
abbrev pub taken : Bytes → ℕ → ℕ → QueueMessage → QueueMessage
taken consumer_id visibility_timeout now msg = record msg {
  state = state_in_flight;
  consumer_id = consumer_id;
  in_flight_at = now;
  visibility_timeout = visibility_timeout;
  delivery_count = (msg.delivery_count + 1) % 2 ^ 64;
}

unfoldable pub is_expired : ℕ → QueueMessage → Bool
is_expired now msg =
    signed_lt 0 msg.visibility_timeout
    && signed_lt ((msg.in_flight_at + msg.visibility_timeout) % 2 ^ 64) now

-- `if err != nil { continue }`
abbrev pub or_continue {ℓ κ} :
    {A : Type ℓ} {B : Type κ} → Outcome A → Outcome B → (A → Outcome B) → Outcome B
or_continue (ok a) next f = f a
or_continue (err e) next f = next
or_continue panic next f = panic

module _ (b : Badger) (it : Iterator b) where
  open b use {Txn, get, set, delete}
  open it use {keys}

  -- `txn.Get(msgKey)` and `decodeQueueMessage`, for a message that an index names.
  unfoldable pub read_message : Bytes → Bytes → Txn → Outcome QueueMessage
  read_message queue_name message_id txn =
      then_do (item_value b (get txn (message_key queue_name message_id))) decode_queue_message

  unfoldable pub take_message : Bytes → Bytes → ℕ → ℕ → Bytes → Txn → Outcome (QueueMessage × Txn)
  take_message queue_name consumer_id visibility_timeout now message_id txn =
      then_do (read_message queue_name message_id txn) λ msg.
        let msg' = taken consumer_id visibility_timeout now msg in
        then_do (move_message b queue_name message_id state_pending msg' txn)
          λ txn'. ok (msg', txn')

  -- `it.Rewind(); if !it.Valid() { return ErrQueueEmpty }`, and what is done with the first key.
  abbrev pub first_of {ℓ} : {A : Type ℓ} → List Bytes → (Bytes → Outcome A) → Outcome A
  first_of [] f = err err_queue_empty
  first_of (key ∷ rest) f = f key

  unfoldable pub pop_message_body : Bytes → Bytes → ℕ → ℕ → Txn → Outcome (QueueMessage × Txn)
  pop_message_body queue_name consumer_id visibility_timeout now txn =
      let prefix = message_index_prefix queue_name state_pending in
      first_of (keys txn prefix) λ key.
        take_message queue_name consumer_id visibility_timeout now (drop (length prefix) key) txn

  -- The message that the source returns beside an error is left out.
  unfoldable pub pop_message : Bytes → Bytes → ℕ → ℕ → Txn → Outcome QueueMessage × Txn
  pop_message queue_name consumer_id visibility_timeout now db =
      if is_empty queue_name
      then (err err_invalid_queue, db)
      else update b db (pop_message_body queue_name consumer_id visibility_timeout now db)

  -- The loop over the in-flight index, with `expiredMessages` so far.
  unfoldable pub expired_ids : Bytes → ℕ → ℕ → Txn → List Bytes → List Bytes → Outcome (List Bytes)
  expired_ids queue_name prefix_len now txn [] ids = ok ids
  expired_ids queue_name prefix_len now txn (key ∷ rest) ids =
      let message_id = drop prefix_len key in
      let next = expired_ids queue_name prefix_len now txn rest in
      or_continue (read_message queue_name message_id txn) (next ids)
        λ msg. next (if is_expired now msg then ids ++ message_id ∷ [] else ids)

  -- The loop over `expiredMessages`, with `count` so far.
  unfoldable pub requeue_ids : Bytes → List Bytes → ℕ → Txn → Outcome (ℕ × Txn)
  requeue_ids queue_name [] count txn = ok (count, txn)
  requeue_ids queue_name (message_id ∷ rest) count txn =
      let next = requeue_ids queue_name rest in
      or_continue (read_message queue_name message_id txn) (next count txn) λ msg.
        then_do (encode_queue_message (requeued msg)) λ msg_data.
          or_continue (set txn (message_key queue_name message_id) msg_data) (next count txn)
            λ txn1.
              let txn2 =
                or_else b txn1
                  (delete txn1 (message_index_key queue_name state_in_flight message_id)) in
              or_continue
                (set txn2 (message_index_key queue_name state_pending message_id) (1 ∷ []))
                (next count txn2) λ txn3. next (count + 1) txn3

  unfoldable pub requeue_expired_body : Bytes → ℕ → Txn → Outcome (ℕ × Txn)
  requeue_expired_body queue_name now txn =
      let prefix = message_index_prefix queue_name state_in_flight in
      then_do (expired_ids queue_name (length prefix) now txn (keys txn prefix) [])
        λ ids. requeue_ids queue_name ids 0 txn

  -- The count that the source returns beside an error is left out.
  unfoldable pub requeue_expired_messages : Bytes → ℕ → Txn → Outcome ℕ × Txn
  requeue_expired_messages queue_name now db =
      if is_empty queue_name
      then (err err_invalid_queue, db)
      else update b db (requeue_expired_body queue_name now db)
