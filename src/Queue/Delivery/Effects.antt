-- ===== src/Queue/Delivery/Effects.antt =====
-- On a store that accepts writes: what PushMessage, AckMessage and NackMessage do to the messages.
use flin.Prelude.{ℕ, ◌^◌, ◌<◌, ◌≡◌, refl, false, length, arith}
use flin.Wire.Outcome.{Bytes, ok, err}
use flin.Badger.{Badger, Reliable}
use flin.Queue.Keys.{message_key}
use flin.Queue.Storage.{is_empty}
use flin.Queue.Message.Types.{QueueMessage}
use flin.Queue.Message.Recovery.{FitsMessage, decode_queue_message_lem}
use flin.Queue.Delivery.Defs.{
  new_message, push_message, message_of, ack_message, err_message_not_found,
}
use flin.Queue.Delivery.Expected.{fresh}
use flin.Queue.Delivery.Slots.{slot_key}
use flin.Queue.Delivery.Writes.{at_slot, SameElsewhere}
use flin.Queue.Delivery.Kept.{Phase, waiting, Kept, Gone, remove-Kept, put-Kept}

pub new_message-FitsMessage :
    (id value : Bytes) (count now : ℕ)
    → length id < 2 ^ 16
    → length value < 2 ^ 32
    → count < 2 ^ 32
    → now < 2 ^ 64
    → FitsMessage (new_message id value count now)
new_message-FitsMessage id value count now hi hv hc hn = record {
  id_fits = hi;
  value_fits = hv;
  state_fits = omega arith;
  count_fits = hc;
  consumer_fits = omega arith;
  enqueued_fits = hn;
  in_flight_fits = omega arith;
  timeout_fits = omega arith;
  retries_fit = omega arith;
}

module _ (b : Badger) (r : Reliable b) (name id : Bytes) (named : is_empty name ≡ false) where
  -- PushMessage on a named queue, under an id that is not in use, with fields that fit their
  -- widths: the value is kept as a pending message with no delivery, and every other message with an id
  -- as long is as it was.
  pub push_message-Kept :
      (db : b.Txn) (value : Bytes) (now : ℕ)
      → length id < 2 ^ 16
      → length value < 2 ^ 32
      → now < 2 ^ 64
      → Gone b db name id
      → (db' : b.Txn) × (push_message b name value id now db ≡ (id, (ok tt, db')))
        × Kept b db' name id waiting (fresh id value 0 now)
        × SameElsewhere b db db' name id
  unfolding push_message
  push_message-Kept db value now hi hv hn gone =
      let msg : QueueMessage = new_message id value 0 now in
      let (db', e, kept, same) =
        put-Kept b r name id msg db (new_message-FitsMessage id value 0 now hi hv (omega arith) hn)
          refl refl gone in
      (db', rw (named, e, r.commits db'), kept, same)

  pub message_of-Kept :
      (db : b.Txn) (phase : Phase) (msg : QueueMessage)
      → Kept b db name id phase msg
      → message_of b (b.get db (message_key name id)) ≡ ok msg
  unfolding at_slot slot_key
  message_of-Kept db phase msg k = rw k.stored (decode_queue_message_lem msg k.fits)

  module _ (given : is_empty id ≡ false) where
    -- AckMessage on a named queue removes a kept message, pending or in flight, with its entry,
    -- and every other message with an id as long is as it was.
    pub ack_message-Gone :
        (db : b.Txn) (phase : Phase) (msg : QueueMessage)
        → Kept b db name id phase msg
        → (db' : b.Txn) × (ack_message b name id db ≡ (ok tt, db'))
          × Gone b db' name id
          × SameElsewhere b db db' name id
    unfolding ack_message
    ack_message-Gone db phase msg k =
        let (db', e, gone, same) = remove-Kept b r name id msg db phase k in
        (db', rw (named, given, message_of-Kept db phase msg k, e, r.commits db'), gone, same)

    -- AckMessage of a message that is not there reports it, and leaves the store as it was.
    ack_message-missing :
        (db : b.Txn)
        → Gone b db name id
        → ack_message b name id db ≡ (err err_message_not_found, db)
    unfolding ack_message at_slot slot_key
    ack_message-missing db gone = rw (named, given, gone.no_content)
