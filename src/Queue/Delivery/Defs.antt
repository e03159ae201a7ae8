-- ===== src/Queue/Delivery/Defs.antt =====
-- internal/queue/storage_ack.go: messages that are delivered, acknowledged, rejected and requeued.
-- A new message id (`uuid.New().String()`) and the clock (`time.Now().UnixMilli()`) are arguments.
use flin.Prelude.{ℕ, Bool, ◌&&◌, [], ◌∷◌, ltb, leb, if◌then◌else◌}
use flin.Wire.Outcome.{Bytes, Error, Outcome, message, ok, err, then_do}
use flin.Badger.{Badger, Lookup, found, missing, failed, update}
use flin.Queue.Keys.{message_key, message_index_key, queue_config_key}
use flin.Queue.Message.Types.{QueueMessage, QueueConfig, state_pending}
use flin.Queue.Message.Encode.{encode_queue_message, encode_queue_config}
use flin.Queue.Message.Decode.{decode_queue_message, decode_queue_config}
use flin.Queue.Storage.{is_empty, err_invalid_queue}

abbrev pub err_message_not_found : Error
err_message_not_found = message "message not found"

abbrev pub default_config : Bytes → QueueConfig
default_config queue_name = record {
  name = queue_name;
  dead_letter_queue = [];
  max_retries = 3;
  default_visibility_timeout = 30000;
}

-- A message as PushMessage makes it.
abbrev pub new_message : Bytes → Bytes → ℕ → ℕ → QueueMessage
new_message message_id value count now = record {
  id = message_id;
  value = value;
  state = state_pending;
  delivery_count = count;
  consumer_id = [];
  enqueued_at = now;
  in_flight_at = 0;
  visibility_timeout = 0;
  max_retries = 0;
}

-- A message put back: `msg.State = StatePending`, with no consumer and no time.
abbrev pub requeued : QueueMessage → QueueMessage
requeued msg = record msg { state = state_pending; consumer_id = []; in_flight_at = 0 }

module _ (b : Badger) where
  open b use {Txn, get, set, delete}

  unfoldable pub set_queue_config : QueueConfig → Txn → Outcome (Unit {0}) × Txn
  set_queue_config cfg db =
      if is_empty cfg.name
      then (err err_invalid_queue, db)
      else update b db (
          then_do (encode_queue_config cfg)
            λ msg_data. then_do (set db (queue_config_key cfg.name) msg_data) λ txn. ok (tt, txn))

  abbrev pub config_of : Bytes → Lookup → Outcome QueueConfig
  config_of queue_name missing = ok (default_config queue_name)
  config_of queue_name (failed e) = err e
  config_of queue_name (found val) = decode_queue_config val

  unfoldable pub get_queue_config : Bytes → Txn → Outcome QueueConfig
  get_queue_config queue_name db =
      if is_empty queue_name
      then err err_invalid_queue
      else config_of queue_name (get db (queue_config_key queue_name))

  -- `txn.Set(msgKey, encodeQueueMessage(msg))` and the entry in the index of its state.
  unfoldable pub put_message : Bytes → Bytes → QueueMessage → Txn → Outcome Txn
  put_message queue_name message_id msg txn = then_do (encode_queue_message msg) λ msg_data.
      then_do (set txn (message_key queue_name message_id) msg_data)
        λ txn'. set txn' (message_index_key queue_name msg.state message_id) (1 ∷ [])

  -- The id is returned beside an error too.
  unfoldable pub push_message : Bytes → Bytes → Bytes → ℕ → Txn → Bytes × (Outcome (Unit {0}) × Txn)
  push_message queue_name value message_id now db =
      if is_empty queue_name then ([], (err err_invalid_queue, db)) else (
        message_id,
        update b db (
            then_do (put_message queue_name message_id (new_message message_id value 0 now) db)
              λ txn. ok (tt, txn)),
      )

  -- `txn.Get(msgKey)` and `decodeQueueMessage`, for a caller who named the message.
  abbrev pub message_of : Lookup → Outcome QueueMessage
  message_of missing = err err_message_not_found
  message_of (failed e) = err e
  message_of (found val) = decode_queue_message val

  -- The message and its entry in an index are deleted.
  unfoldable pub remove_message : Bytes → ℕ → Bytes → Txn → Outcome Txn
  remove_message queue_name state message_id txn =
      then_do (delete txn (message_key queue_name message_id))
        λ txn'. delete txn' (message_index_key queue_name state message_id)

  unfoldable pub ack_message : Bytes → Bytes → Txn → Outcome (Unit {0}) × Txn
  ack_message queue_name message_id db =
      if is_empty queue_name
      then (err err_invalid_queue, db)
      else if is_empty message_id
      then (err err_invalid_queue, db)
      else update b db (
          then_do (message_of (get db (message_key queue_name message_id)))
            λ msg. then_do (remove_message queue_name msg.state message_id db) λ txn. ok (tt, txn))

  unfoldable pub move_to_dead_letter : Bytes → Bytes → QueueMessage → Bytes → ℕ → Txn → Outcome Txn
  move_to_dead_letter source_queue dlq_name msg dlq_message_id now txn =
      then_do (remove_message source_queue msg.state msg.id txn) λ txn'.
        put_message dlq_name dlq_message_id
          (new_message dlq_message_id msg.value msg.delivery_count now) txn'

  -- A message in a new state: its content, its entry under the old state, its entry under the new.
  unfoldable pub move_message : Bytes → Bytes → ℕ → QueueMessage → Txn → Outcome Txn
  move_message queue_name message_id old_state msg txn =
      then_do (encode_queue_message msg) λ msg_data.
        then_do (set txn (message_key queue_name message_id) msg_data) λ txn'.
          then_do (delete txn' (message_index_key queue_name old_state message_id))
            λ txn''. set txn'' (message_index_key queue_name msg.state message_id) (1 ∷ [])

  -- NackMessage with the message and the configuration read.
  unfoldable pub reject_message :
      Bytes → Bytes → Bool → Bytes → ℕ → QueueMessage → QueueConfig → Txn → Outcome Txn
  reject_message queue_name message_id requeue dlq_message_id now msg cfg txn =
      if leb cfg.max_retries msg.delivery_count && ltb 0 cfg.max_retries
      then if is_empty cfg.dead_letter_queue
        then remove_message queue_name msg.state message_id txn
        else move_to_dead_letter queue_name cfg.dead_letter_queue msg dlq_message_id now txn
      else if requeue
      then move_message queue_name message_id msg.state (requeued msg) txn
      else remove_message queue_name msg.state message_id txn

  -- The configuration is read in a transaction of its own, which sees the same database: this one
  -- has written nothing yet.
  unfoldable pub nack_message : Bytes → Bytes → Bool → Bytes → ℕ → Txn → Outcome (Unit {0}) × Txn
  nack_message queue_name message_id requeue dlq_message_id now db =
      if is_empty queue_name
      then (err err_invalid_queue, db)
      else if is_empty message_id
      then (err err_invalid_queue, db)
      else update b db (
          then_do (message_of (get db (message_key queue_name message_id))) λ msg.
            then_do (get_queue_config queue_name db) λ cfg.
              then_do (reject_message queue_name message_id requeue dlq_message_id now msg cfg db)
                λ txn. ok (tt, txn))
