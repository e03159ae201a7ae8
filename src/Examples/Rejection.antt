-- ===== src/Examples/Rejection.antt =====
-- internal/queue/storage_ack.go: NackMessage and PopMessage at concrete inputs.
use mathlib.Core.Path.{subst}
use flin.Prelude.{
  ◌∙◌, inl, inr, Bool-cases, if◌then◌else◌, ◌≡◌, refl, true, false, [], ◌∷◌, length, arith,
}
use flin.Wire.Outcome.{Bytes, ok, err}
use flin.Badger.{found, missing}
use flin.Badger.Memory.{same_key, same_key_iff}
use flin.Badger.Shelf.{Shelf, shelf, shelf-Reliable, shelf_keys, look}
use flin.Wire.Text.{decimal}
use flin.Queue.Keys.{state_text, message_key, message_index_key, queue_config_key}
use flin.Queue.Storage.{err_queue_empty}
use flin.Queue.Message.Types.{QueueMessage}
use flin.Queue.Message.Recovery.{message_bytes, config_bytes, decode_queue_config_lem}
use flin.Queue.Delivery.Defs.{new_message, nack_message, default_config, get_queue_config}
use flin.Queue.Delivery.Expected.{fresh, handed_out, waiting_again}
use flin.Queue.Delivery.Receive.{pop_message}
use flin.Queue.Delivery.Slots.{Slot, slot_key}
use flin.Queue.Delivery.Writes.{at_slot, SameElsewhere}
use flin.Queue.Delivery.Kept.{waiting, delivered, Kept, Gone}
use flin.Queue.Delivery.Effects.{new_message-FitsMessage}
use flin.Queue.Delivery.Rejection.{
  nack_message-requeue, nack_message-drop, nack_message-Exhausted, nack_message-dead_letter,
}
use flin.Queue.Delivery.Popping.{TidyIndex, pop_message-Kept, pop_message-empty}
use flin.Examples.Delivery.{
  mail, first_id, second_id, letter, mailbox, mail_config, letter-FitsMessage, letter-Kept,
  empty-Gone, mail_config-FitsConfig,
}

-- A message that was delivered once.
abbrev card : QueueMessage
card = new_message first_id (7 ∷ []) 1 1000

abbrev card_box : Shelf
card_box =
    (message_key mail first_id, message_bytes card)
    ∷ (message_index_key mail 0 first_id, 1 ∷ [])
    ∷ []

card-Kept : Kept shelf card_box mail first_id waiting card
unfolding at_slot slot_key look message_key message_index_key state_text decimal
card-Kept = record {
  stored = refl;
  fits =
      new_message-FitsMessage first_id (7 ∷ []) 1 1000 (omega arith) (omega arith) (omega arith)
        (omega arith);
  own_id = refl;
  own_state = refl;
  indexed = refl;
  alone = refl;
}

card_config : get_queue_config shelf mail card_box ≡ ok (default_config mail)
unfolding get_queue_config look queue_config_key message_key message_index_key state_text decimal
card_config = refl

nack_message-requeue_example :
    (db' : Shelf) × (nack_message shelf mail first_id true second_id 9 card_box ≡ (ok tt, db'))
    × Kept shelf db' mail first_id waiting (waiting_again card)
    × SameElsewhere shelf card_box db' mail first_id
nack_message-requeue_example =
    nack_message-requeue shelf shelf-Reliable mail first_id refl refl card (default_config mail)
      card_box waiting second_id 9 card-Kept card_config (λ h. omega (arith, h.1))

nack_message-drop_example :
    (db' : Shelf) × (nack_message shelf mail first_id false second_id 9 card_box ≡ (ok tt, db'))
    × Gone shelf db' mail first_id
    × SameElsewhere shelf card_box db' mail first_id
nack_message-drop_example =
    nack_message-drop shelf shelf-Reliable mail first_id refl refl card (default_config mail)
      card_box waiting second_id 9 card-Kept card_config (λ h. omega (arith, h.1))

mailbox_config : get_queue_config shelf mail mailbox ≡ ok (default_config mail)
unfolding get_queue_config look queue_config_key message_key message_index_key state_text decimal
mailbox_config = refl

nack_message-Exhausted_example :
    (db' : Shelf) × (nack_message shelf mail first_id true second_id 9 mailbox ≡ (ok tt, db'))
    × Gone shelf db' mail first_id
    × SameElsewhere shelf mailbox db' mail first_id
nack_message-Exhausted_example =
    nack_message-Exhausted shelf shelf-Reliable mail first_id refl refl letter (default_config mail)
      mailbox waiting true second_id 9 letter-Kept mailbox_config (omega arith, omega arith) refl

-- The mailbox of a queue with a dead letter queue.
abbrev office : Shelf
office = (queue_config_key mail, config_bytes mail_config) ∷ mailbox

office-Kept : Kept shelf office mail first_id waiting letter
unfolding at_slot slot_key look message_key message_index_key queue_config_key state_text decimal
office-Kept = record {
  stored = refl;
  fits = letter-FitsMessage;
  own_id = refl;
  own_state = refl;
  indexed = refl;
  alone = refl;
}

office_config : get_queue_config shelf mail office ≡ ok mail_config
unfolding get_queue_config look queue_config_key
office_config = decode_queue_config_lem mail_config mail_config-FitsConfig

dead_letter-Gone : Gone shelf office (100 ∷ []) second_id
unfolding at_slot slot_key look message_key message_index_key queue_config_key state_text decimal
dead_letter-Gone = record { no_content = refl; not_pending = refl; not_in_flight = refl }

nack_message-dead_letter_example :
    (db' : Shelf) × (nack_message shelf mail first_id true second_id 9 office ≡ (ok tt, db'))
    × Gone shelf db' mail first_id
    × Kept shelf db' (100 ∷ []) second_id waiting (fresh second_id (7 ∷ []) 3 9)
    × ((q : Bytes) (s : Slot) (m : Bytes)
        → length m ≡ length first_id
        → ¬ ((mail ≡ q) × (first_id ≡ m))
        → ¬ ((mail_config.dead_letter_queue ≡ q) × (second_id ≡ m))
        → at_slot shelf db' q s m ≡ at_slot shelf office q s m)
nack_message-dead_letter_example =
    nack_message-dead_letter shelf shelf-Reliable mail first_id refl refl letter mail_config office
      waiting true second_id 9 office-Kept office_config (omega arith, omega arith) refl refl
      (omega arith) dead_letter-Gone

pop_message-empty_example :
    pop_message shelf shelf_keys mail (1 ∷ []) 30 9 [] ≡ (err err_queue_empty, [])
pop_message-empty_example =
    pop_message-empty shelf shelf_keys mail refl [] (1 ∷ []) 30 9
      (λ id. (empty-Gone mail id).not_pending)

-- The pending index of the card box names the card only.
card_only :
    (id : Bytes)
    → at_slot shelf card_box mail Slot.pending id
      ≡ (if same_key first_id id then found (1 ∷ []) else missing)
unfolding at_slot slot_key look message_key message_index_key state_text decimal
card_only id = refl

card-TidyIndex : TidyIndex shelf shelf_keys mail refl card_box
card-TidyIndex = record {
  message_at = λ id h. elim (Bool-cases (same_key first_id id)) [
    | inl y ↦
        let e : first_id ≡ id = (same_key_iff first_id id).0 y in
        (card, subst (λ i. Kept shelf card_box mail i waiting card) e card-Kept, omega arith)
    | inr n ↦ absurd (h (card_only id ∙ rw n))
  ];
}

pop_message-Kept_example :
    (id : Bytes) × (msg : QueueMessage) × (db' : Shelf) × (pop_message shelf shelf_keys mail
        (1 ∷ [])
        30
        9
        card_box
      ≡ (ok (handed_out (1 ∷ []) 30 9 msg), db'))
    × Kept shelf card_box mail id waiting msg
    × Kept shelf db' mail id delivered (handed_out (1 ∷ []) 30 9 msg)
    × SameElsewhere shelf card_box db' mail id
unfolding at_slot slot_key look message_key message_index_key state_text decimal
pop_message-Kept_example =
    pop_message-Kept shelf shelf_keys mail refl shelf-Reliable card_box (1 ∷ []) first_id 30 9
      card-TidyIndex (λ e. cc) (omega arith) (omega arith) (omega arith)
