-- ===== src/Examples/Delivery.antt =====
-- internal/queue/storage_ack.go at concrete inputs, over a store that lists its keys.
use flin.Prelude.{◌≡◌, refl, [], ◌∷◌, replicate, arith}
use flin.Wire.Outcome.{Bytes, ok, panic, then_do}
use flin.Wire.BigEndian.{be_value}
use flin.Wire.Reader.{run, ◌>>◌, need, ◌>>=◌, uint, bytes}
use flin.Badger.Shelf.{Shelf, shelf, shelf-Reliable, look}
use flin.Wire.Text.{decimal}
use flin.Queue.Keys.{state_text, message_key, message_index_key}
use flin.Queue.Message.Types.{QueueMessage, QueueConfig}
use flin.Queue.Message.Encode.{encode_queue_message, encode_queue_config}
use flin.Queue.Message.Decode.{decode_queue_message, decode_queue_config}
use flin.Queue.Message.Recovery.{
  FitsMessage, FitsConfig, message_bytes, decode-encode_queue_message, decode-encode_queue_config,
}
use flin.Queue.Delivery.Defs.{
  default_config, get_queue_config, new_message, push_message, ack_message,
}
use flin.Queue.Delivery.Slots.{slot_key}
use flin.Queue.Calls.Defs.{set_dead_letter_queue, set_visibility_timeout, milliseconds}
use flin.Queue.Calls.Settings.{set_visibility_timeout-set_dead_letter_queue}
use flin.Queue.Delivery.Writes.{at_slot, SameElsewhere}
use flin.Queue.Delivery.Expected.{fresh}
use flin.Queue.Delivery.Kept.{waiting, Kept, Gone}
use flin.Queue.Delivery.Effects.{new_message-FitsMessage, push_message-Kept, ack_message-Gone}

abbrev pub mail : Bytes
mail = 109 ∷ []

abbrev pub first_id : Bytes
first_id = 97 ∷ []

abbrev pub second_id : Bytes
second_id = 98 ∷ []

-- A message delivered three times and waiting again.
abbrev pub letter : QueueMessage
letter = new_message first_id (7 ∷ []) 3 1000

pub letter-FitsMessage : FitsMessage letter
letter-FitsMessage =
    new_message-FitsMessage first_id (7 ∷ []) 3 1000 (omega arith) (omega arith) (omega arith)
      (omega arith)

abbrev pub mailbox : Shelf
mailbox =
    (message_key mail first_id, message_bytes letter)
    ∷ (message_index_key mail 0 first_id, 1 ∷ [])
    ∷ []

pub letter-Kept : Kept shelf mailbox mail first_id waiting letter
unfolding at_slot slot_key look message_key message_index_key state_text decimal
letter-Kept = record {
  stored = refl;
  fits = letter-FitsMessage;
  own_id = refl;
  own_state = refl;
  indexed = refl;
  alone = refl;
}

pub empty-Gone : (name id : Bytes) → Gone shelf [] name id
unfolding at_slot look
empty-Gone name id = record { no_content = refl; not_pending = refl; not_in_flight = refl }

decode-encode_queue_message_example :
    then_do (encode_queue_message letter) decode_queue_message ≡ ok letter
decode-encode_queue_message_example = decode-encode_queue_message letter letter-FitsMessage

abbrev pub mail_config : QueueConfig
mail_config = record {
  name = mail;
  dead_letter_queue = 100 ∷ [];
  max_retries = 2;
  default_visibility_timeout = 30000;
}

pub mail_config-FitsConfig : FitsConfig mail_config
mail_config-FitsConfig = record {
  name_fits = omega arith;
  dlq_fits = omega arith;
  limit_fits = omega arith;
  default_fits = omega arith;
}

decode-encode_queue_config_example :
    then_do (encode_queue_config mail_config) decode_queue_config ≡ ok mail_config
decode-encode_queue_config_example = decode-encode_queue_config mail_config mail_config-FitsConfig

-- 39 bytes pass the first length check, and the last field does not fit in them.
short_message_panics : decode_queue_message (replicate 39 0) ≡ panic
unfolding decode_queue_message be_value run ◌>>◌ need ◌>>=◌ uint bytes
short_message_panics = refl

-- A colon in a queue's name makes messages of two queues share a key.
colon_in_name :
    message_key (97 ∷ []) (98 ∷ 58 ∷ 99 ∷ []) ≡ message_key (97 ∷ 58 ∷ 98 ∷ []) (99 ∷ [])
unfolding message_key
colon_in_name = refl

push_message-Kept_example :
    (db' : Shelf) × (push_message shelf mail (7 ∷ []) first_id 5 [] ≡ (first_id, (ok tt, db')))
    × Kept shelf db' mail first_id waiting (fresh first_id (7 ∷ []) 0 5)
    × SameElsewhere shelf [] db' mail first_id
push_message-Kept_example =
    push_message-Kept shelf shelf-Reliable mail first_id refl [] (7 ∷ []) 5 (omega arith)
      (omega arith) (omega arith) (empty-Gone mail first_id)

ack_message-Gone_example :
    (db' : Shelf) × (ack_message shelf mail first_id mailbox ≡ (ok tt, db'))
    × Gone shelf db' mail first_id
    × SameElsewhere shelf mailbox db' mail first_id
ack_message-Gone_example =
    ack_message-Gone shelf shelf-Reliable mail first_id refl refl mailbox waiting letter letter-Kept

abbrev mail_defaults : QueueConfig
mail_defaults = default_config mail

mail_defaults-FitsConfig : FitsConfig mail_defaults
mail_defaults-FitsConfig = record {
  name_fits = omega arith;
  dlq_fits = omega arith;
  limit_fits = omega arith;
  default_fits = omega arith;
}

set_visibility_timeout-set_dead_letter_queue_example :
    let first = set_dead_letter_queue shelf mail (100 ∷ []) 5 [] in
    let second = set_visibility_timeout shelf mail 2500000000 first.1 in
    (first.0 ≡ ok tt)
    × (second.0 ≡ ok tt)
    × (get_queue_config shelf mail second.1
        ≡ ok (record mail_defaults {
          dead_letter_queue = 100 ∷ [];
          max_retries = 5;
          default_visibility_timeout = milliseconds 2500000000;
        }))
unfolding get_queue_config look
set_visibility_timeout-set_dead_letter_queue_example =
    set_visibility_timeout-set_dead_letter_queue shelf shelf-Reliable (100 ∷ []) 5 2500000000
      mail_defaults [] refl refl mail_defaults-FitsConfig (omega arith) (omega arith) (omega arith)
