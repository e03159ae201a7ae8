-- ===== src/Queue/Delivery/Popping.antt =====
-- On a store that accepts writes: PopMessage hands out a pending message, if there is one.
use mathlib.Core.Path.{subst}
use mathlib.Core.List.{Memᴰ}
use mathlib.Core.List.Memᴰ.{head, not-nil}
use native.Mathlib.Nat.{mod-eq_of_lt}
use flin.Prelude.{
  ℕ, ◌+◌, ◌%◌, ◌^◌, ◌<◌, ◌≡◌, ◌≢◌, refl, sym, ap, ◌∙◌, false, List, [], ◌∷◌, ◌++◌, length, drop,
  drop-append, append_assoc, arith,
}
use flin.Wire.Outcome.{Bytes, ok, err}
use flin.Badger.{Badger, Iterator, Reliable, missing}
use flin.Queue.Keys.{message_index_key, message_index_prefix}
use flin.Queue.Storage.{is_empty, err_queue_empty}
use flin.Queue.Message.Types.{QueueMessage}
use flin.Queue.Message.Recovery.{FitsMessage, decode_queue_message_lem}
use flin.Queue.Delivery.Defs.{move_message}
use flin.Queue.Delivery.Expected.{handed_out}
use flin.Queue.Delivery.Slots.{slot_key, pending}
use flin.Queue.Delivery.Writes.{at_slot, SameElsewhere}
use flin.Queue.Delivery.Kept.{Phase, waiting, delivered, Kept, move-Kept}
use flin.Queue.Delivery.Receive.{taken, read_message, take_message, pop_message, pop_message_body}

pub prefix_entry :
    (name id : Bytes) (state : ℕ)
    → message_index_prefix name state ++ id ≡ message_index_key name state id
unfolding message_index_prefix message_index_key
prefix_entry name id state = simp append_assoc

taken-FitsMessage :
    (consumer : Bytes) (timeout now : ℕ) (msg : QueueMessage)
    → length consumer < 2 ^ 16
    → timeout < 2 ^ 64
    → now < 2 ^ 64
    → msg.delivery_count + 1 < 2 ^ 32
    → FitsMessage msg
    → FitsMessage (taken consumer timeout now msg)
taken-FitsMessage consumer timeout now msg hc ht hn room fits = record {
  id_fits = fits.id_fits;
  value_fits = fits.value_fits;
  state_fits = omega arith;
  count_fits = omega arith;
  consumer_fits = hc;
  enqueued_fits = fits.enqueued_fits;
  in_flight_fits = hn;
  timeout_fits = ht;
  retries_fit = fits.retries_fit;
}

taken-eq-handed_out :
    (consumer : Bytes) (timeout now : ℕ) (msg : QueueMessage)
    → msg.delivery_count + 1 < 2 ^ 32
    → taken consumer timeout now msg ≡ handed_out consumer timeout now msg
taken-eq-handed_out consumer timeout now msg room =
    let e : (msg.delivery_count + 1) % 2 ^ 64 ≡ msg.delivery_count + 1 =
      mod-eq_of_lt (omega arith) in
    λ i. record (handed_out consumer timeout now msg) { delivery_count = e i }

some_first :
    (ks : List Bytes) (k : Bytes) → Memᴰ k ks → (j : Bytes) × (rest : List Bytes) × (ks ≡ j ∷ rest)
some_first [] k m = absurd (not-nil m)
some_first (j ∷ ks) k m = (j, ks, refl)

first_listed : (ks rest : List Bytes) (j : Bytes) → ks ≡ j ∷ rest → Memᴰ j ks
first_listed ks rest j e = subst (Memᴰ j) (sym e) (head refl)

module _ (b : Badger) (it : Iterator b) (name : Bytes) (named : is_empty name ≡ false) where
  -- The pending index of the queue names only messages that are kept as pending, each with room for
  -- one more delivery in its count.
  pub record TidyIndex (db : b.Txn) : Type 0 where
    pub message_at :
        (id : Bytes)
        → at_slot b db name pending id ≢ missing
        → (msg : QueueMessage) × Kept b db name id waiting msg × (msg.delivery_count + 1 < 2 ^ 32)

  entry_at :
      (db : b.Txn) (id : Bytes)
      → b.get db (message_index_prefix name 0 ++ id) ≡ at_slot b db name pending id
  unfolding at_slot slot_key
  entry_at db id = ap (b.get db) (prefix_entry name id 0)

  pub read_message-Kept :
      (db : b.Txn) (id : Bytes) (phase : Phase) (msg : QueueMessage)
      → Kept b db name id phase msg
      → read_message b it name id db ≡ ok msg
  unfolding read_message at_slot slot_key
  read_message-Kept db id phase msg k = rw k.stored (decode_queue_message_lem msg k.fits)

  -- PopMessage where the index lists an entry of a kept message first.
  pop_message_lem :
      Reliable b
      → (db db' : b.Txn) (key : Bytes) (rest : List Bytes) (id consumer : Bytes) (timeout now : ℕ)
        (msg : QueueMessage)
      → it.keys db (message_index_prefix name 0) ≡ key ∷ rest
      → key ≡ message_index_prefix name 0 ++ id
      → Kept b db name id waiting msg
      → move_message b name id msg.state (taken consumer timeout now msg) db ≡ ok db'
      → pop_message b it name consumer timeout now db ≡ (ok (taken consumer timeout now msg), db')
  unfolding pop_message pop_message_body take_message
  pop_message_lem r db db' key rest id consumer timeout now msg listed split kept e =
      let prefix : Bytes = message_index_prefix name 0 in
      let msg' : QueueMessage = taken consumer timeout now msg in
      let named_id : drop (length prefix) key ≡ id =
        ap (drop (length prefix)) split ∙ drop-append prefix id in
      let e0 : move_message b name id 0 msg' db ≡ ok db' =
        ap (λ s. move_message b name id s msg' db) (sym kept.own_state) ∙ e in
      rw (named, listed, named_id, read_message-Kept db id waiting msg kept, e0, r.commits db')

  -- PopMessage on a queue whose pending index is tidy and has an entry, with arguments that fit
  -- their widths: a message kept as pending is returned and kept as in flight, with the consumer,
  -- the time, the timeout and one more delivery, and every other message with an id as long is as
  -- it was.
  pub pop_message-Kept :
      Reliable b
      → (db : b.Txn) (consumer waiting_id : Bytes) (timeout now : ℕ) → TidyIndex db
      → at_slot b db name pending waiting_id ≢ missing
      → length consumer < 2 ^ 16
      → timeout < 2 ^ 64
      → now < 2 ^ 64
      → (id : Bytes) × (msg : QueueMessage) × (db' : b.Txn) × (pop_message b it name consumer
            timeout now db
          ≡ (ok (handed_out consumer timeout now msg), db'))
        × Kept b db name id waiting msg
        × Kept b db' name id delivered (handed_out consumer timeout now msg)
        × SameElsewhere b db db' name id
  pop_message-Kept r db consumer waiting_id timeout now tidy some_pending hc ht hn =
      let prefix : Bytes = message_index_prefix name 0 in
      let (key, rest, listed) = some_first (it.keys db prefix) (prefix ++ waiting_id) (
        it.keys_complete db prefix waiting_id
          (λ e. some_pending (sym (entry_at db waiting_id) ∙ e))) in
      let (id, split, there) = it.keys_sound db prefix key (first_listed _ rest key listed) in
      let (msg, kept, room) =
        tidy.message_at id (λ e. there (ap (b.get db) split ∙ entry_at db id ∙ e)) in
      let (db', e, kept', same) =
        move-Kept b r name id msg db waiting delivered (taken consumer timeout now msg) kept
          (taken-FitsMessage consumer timeout now msg hc ht hn room kept.fits) kept.own_id refl in
      let same_message = taken-eq-handed_out consumer timeout now msg room in
      (
        id,
        msg,
        db',
        pop_message_lem r db db' key rest id consumer timeout now msg listed split kept e
            ∙ ap (λ x. (ok x, db')) same_message,
        kept,
        subst (Kept b db' name id delivered) same_message kept',
        same,
      )

  -- PopMessage on a queue whose pending index has no entry reports that it is empty, and leaves
  -- the store as it was.
  pub pop_message-empty :
      (db : b.Txn) (consumer : Bytes) (timeout now : ℕ)
      → ((id : Bytes) → at_slot b db name pending id ≡ missing)
      → pop_message b it name consumer timeout now db ≡ (err err_queue_empty, db)
  unfolding pop_message pop_message_body
  pop_message-empty db consumer timeout now none = rw (named, no_keys (it.keys db prefix) refl)
    where
      prefix : Bytes
      prefix = message_index_prefix name 0

      no_keys : (ks : List Bytes) → it.keys db prefix ≡ ks → it.keys db prefix ≡ []
      no_keys [] e = e
      no_keys (k ∷ ks) e =
          let (id, split, there) = it.keys_sound db prefix k (first_listed _ ks k e) in
          absurd (there (ap (b.get db) split ∙ entry_at db id ∙ none id))
