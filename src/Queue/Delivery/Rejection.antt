-- ===== src/Queue/Delivery/Rejection.antt =====
-- On a store that accepts writes: the ways in which NackMessage disposes of a message.
use flin.Prelude.{
  ℕ, ◌^◌, ◌<◌, ◌≤◌, ◌≡◌, refl, sym, ap, ◌∙◌, true, false, Bool, ◌&&◌, ltb, leb, lt→ltb, le→leb,
  length, arith,
}
use flin.Wire.Outcome.{Bytes, ok}
use flin.Badger.{Badger, Reliable}
use flin.Queue.Storage.{is_empty}
use flin.Queue.Message.Types.{QueueMessage, QueueConfig}
use flin.Queue.Delivery.Defs.{
  new_message, nack_message, reject_message, get_queue_config, requeued, move_to_dead_letter,
  remove_message,
}
use flin.Queue.Delivery.Expected.{fresh, waiting_again}
use flin.Queue.Delivery.Slots.{Slot, content, pending, in_flight}
use flin.Queue.Delivery.Writes.{at_slot, SameElsewhere}
use flin.Queue.Delivery.Kept.{
  Phase, waiting, Kept, Gone, remove-Kept, put-Kept, move-Kept, requeued-FitsMessage,
}
use flin.Queue.Delivery.Effects.{message_of-Kept, new_message-FitsMessage}

-- The deliveries that the configuration allows are used up; with a limit of 0 they never are.
abbrev pub Exhausted : QueueConfig → QueueMessage → Type 0
Exhausted cfg msg = (0 < cfg.max_retries) × (cfg.max_retries ≤ msg.delivery_count)

Exhausted-test :
    (cfg : QueueConfig) (msg : QueueMessage)
    → Exhausted cfg msg
    → (leb cfg.max_retries msg.delivery_count && ltb 0 cfg.max_retries) ≡ true
Exhausted-test cfg msg (h, h') = rw (le→leb _ _ h', lt→ltb _ _ h)

Exhausted-test_ne :
    (cfg : QueueConfig) (msg : QueueMessage)
    → ¬ (Exhausted cfg msg)
    → (leb cfg.max_retries msg.delivery_count && ltb 0 cfg.max_retries) ≡ false
Exhausted-test_ne cfg msg h = ground arith

module _ (b : Badger) (r : Reliable b) (name id : Bytes) (named : is_empty name ≡ false)
    (given : is_empty id ≡ false) (msg : QueueMessage) (cfg : QueueConfig) where
  -- What the transaction of NackMessage comes to once the message and the configuration are read.
  nack_message_lem :
      (db t' : b.Txn) (phase : Phase) (requeue : Bool) (new_id : Bytes) (now : ℕ)
      → Kept b db name id phase msg
      → get_queue_config b name db ≡ ok cfg
      → reject_message b name id requeue new_id now msg cfg db ≡ ok t'
      → nack_message b name id requeue new_id now db ≡ (ok tt, t')
  unfolding nack_message
  nack_message_lem db t' phase requeue new_id now k c e =
      rw (named, given, message_of-Kept b r name id named db phase msg k, c, e, r.commits t')

  -- NackMessage with requeue of a kept message that is not exhausted under the configuration
  -- read: the message is kept as pending, without consumer and time, and every other message with
  -- an id as long is as it was.
  pub nack_message-requeue :
      (db : b.Txn) (phase : Phase) (new_id : Bytes) (now : ℕ)
      → Kept b db name id phase msg
      → get_queue_config b name db ≡ ok cfg
      → ¬ (Exhausted cfg msg)
      → (db' : b.Txn) × (nack_message b name id true new_id now db ≡ (ok tt, db'))
        × Kept b db' name id waiting (waiting_again msg)
        × SameElsewhere b db db' name id
  unfolding reject_message
  nack_message-requeue db phase new_id now k c h =
      let (db', e, kept, same) =
        move-Kept b r name id msg db phase waiting (requeued msg) k
          (requeued-FitsMessage msg k.fits) k.own_id refl in
      (
        db',
        nack_message_lem db db' phase true new_id now k c (rw (Exhausted-test_ne cfg msg h, e)),
        kept,
        same,
      )

  -- NackMessage without requeue of a kept message that is not exhausted under the configuration
  -- read: the message is removed with its entry, and every other message with an id as long is as
  -- it was.
  pub nack_message-drop :
      (db : b.Txn) (phase : Phase) (new_id : Bytes) (now : ℕ)
      → Kept b db name id phase msg
      → get_queue_config b name db ≡ ok cfg
      → ¬ (Exhausted cfg msg)
      → (db' : b.Txn) × (nack_message b name id false new_id now db ≡ (ok tt, db'))
        × Gone b db' name id
        × SameElsewhere b db db' name id
  unfolding reject_message
  nack_message-drop db phase new_id now k c h =
      let (db', e, gone, same) = remove-Kept b r name id msg db phase k in
      (
        db',
        nack_message_lem db db' phase false new_id now k c (rw (Exhausted-test_ne cfg msg h, e)),
        gone,
        same,
      )

  -- NackMessage of a kept message that is exhausted under the configuration read, which names no
  -- dead letter queue: the message is removed with its entry, requeue or not, and every other
  -- message with an id as long is as it was.
  pub nack_message-Exhausted :
      (db : b.Txn) (phase : Phase) (requeue : Bool) (new_id : Bytes) (now : ℕ)
      → Kept b db name id phase msg
      → get_queue_config b name db ≡ ok cfg
      → Exhausted cfg msg
      → is_empty cfg.dead_letter_queue ≡ true
      → (db' : b.Txn) × (nack_message b name id requeue new_id now db ≡ (ok tt, db'))
        × Gone b db' name id
        × SameElsewhere b db db' name id
  unfolding reject_message
  nack_message-Exhausted db phase requeue new_id now k c h none =
      let (db', e, gone, same) = remove-Kept b r name id msg db phase k in
      (
        db',
        nack_message_lem db db' phase requeue new_id now k c
            (rw (Exhausted-test cfg msg h, none, e)),
        gone,
        same,
      )

  -- A kept message is not the one that is not there.
  Kept-ne-Gone :
      (db : b.Txn) (phase : Phase) (name' id' : Bytes)
      → Kept b db name id phase msg
      → Gone b db name' id'
      → ¬ ((name ≡ name') × (id ≡ id'))
  Kept-ne-Gone db phase name' id' k gone (p, q) = let e = k.stored in let e' = gone.no_content in cc

  Gone-same :
      (t t' : b.Txn) (q m q' m' : Bytes)
      → SameElsewhere b t t' q m
      → length m' ≡ length m
      → ¬ ((q ≡ q') × (m ≡ m'))
      → Gone b t q' m'
      → Gone b t' q' m'
  Gone-same t t' q m q' m' same h ne gone = record {
    no_content = same.same q' content m' h ne ∙ gone.no_content;
    not_pending = same.same q' pending m' h ne ∙ gone.not_pending;
    not_in_flight = same.same q' in_flight m' h ne ∙ gone.not_in_flight;
  }

  -- NackMessage of a kept message that is exhausted under the configuration read, which names a
  -- dead letter queue: under a new id as long, which is not in use there, and a time of 64 bits,
  -- the message is removed with its entry and a message with its value and its count of
  -- deliveries is kept as pending in the dead letter queue; every other message with an id as
  -- long is as it was.
  pub nack_message-dead_letter :
      (db : b.Txn) (phase : Phase) (requeue : Bool) (new_id : Bytes) (now : ℕ)
      → Kept b db name id phase msg
      → get_queue_config b name db ≡ ok cfg
      → Exhausted cfg msg
      → is_empty cfg.dead_letter_queue ≡ false
      → length new_id ≡ length id
      → now < 2 ^ 64
      → Gone b db cfg.dead_letter_queue new_id
      → (db' : b.Txn) × (nack_message b name id requeue new_id now db ≡ (ok tt, db'))
        × Gone b db' name id
        × Kept b db' cfg.dead_letter_queue new_id waiting
            (fresh new_id msg.value msg.delivery_count now)
        × ((q : Bytes) (s : Slot) (m : Bytes)
            → length m ≡ length id
            → ¬ ((name ≡ q) × (id ≡ m))
            → ¬ ((cfg.dead_letter_queue ≡ q) × (new_id ≡ m))
            → at_slot b db' q s m ≡ at_slot b db q s m)
  unfolding reject_message move_to_dead_letter
  nack_message-dead_letter db phase requeue new_id now k c h some len hn unused =
      let dlq : Bytes = cfg.dead_letter_queue in
      let sent : QueueMessage = new_message new_id msg.value msg.delivery_count now in
      let ne = Kept-ne-Gone db phase dlq new_id k unused in
      let own : length msg.id ≡ length id = ap length k.own_id in
      let fits =
        new_message-FitsMessage new_id msg.value msg.delivery_count now
          (omega (arith, k.fits.id_fits)) k.fits.value_fits k.fits.count_fits hn in
      let (t, e, gone, same) = remove-Kept b r name id msg db phase k in
      let e' : remove_message b name msg.state msg.id db ≡ ok t =
        ap (λ i. remove_message b name msg.state i db) k.own_id ∙ e in
      let (db', f, kept, same') =
        put-Kept b r dlq new_id sent t fits refl refl
          (Gone-same db t name id dlq new_id same len ne unused) in
      (
        db',
        nack_message_lem db db' phase requeue new_id now k c
            (rw (Exhausted-test cfg msg h, some, e', f)),
        Gone-same t db' dlq new_id name id same' (sym len) (λ p. ne (sym p.0, sym p.1)) gone,
        kept,
        λ q s m l a z. same'.same q s m (l ∙ sym len) z ∙ same.same q s m l a,
      )
