-- ===== src/Queue/Delivery/Expiry.antt =====
-- On a store that accepts writes: RequeueExpiredMessages puts messages back that have expired.
use mathlib.Core.Path.{subst}
use mathlib.Core.List.{Memᴰ}
use mathlib.Core.List.Memᴰ.{head, tail}
use flin.Prelude.{
  ℕ, suc, ◌+◌, ◌^◌, ◌<◌, ◌≡◌, refl, sym, ap, ◌∙◌, false, List, [], ◌∷◌, ◌++◌, length, Bool-cases,
  inl, inr, drop-append, append_assoc, append-nil, arith,
}
use flin.Wire.Outcome.{Bytes, Outcome, ok}
use flin.Badger.{Badger, Iterator, Reliable}
use flin.Queue.Keys.{message_key, message_index_key, message_index_prefix}
use flin.Queue.Storage.{is_empty}
use flin.Queue.Message.Types.{QueueMessage}
use flin.Wire.Signed.{signed_lt}
use flin.Queue.Message.Recovery.{FitsMessage, encode_queue_message_lem, message_bytes}
use flin.Queue.Delivery.Defs.{move_message, requeued}
use flin.Queue.Delivery.Receive.{
  requeue_ids, expired_ids, is_expired, requeue_expired_messages, requeue_expired_body,
}
use flin.Queue.Delivery.Expected.{waiting_again, is_overdue, EndsInTime}
use flin.Queue.Delivery.Slots.{Slot, content}
use flin.Queue.Delivery.Writes.{at_slot, SameElsewhere}
use flin.Queue.Delivery.Kept.{
  Phase, phase_slot, opposite, waiting, delivered, Kept, move-Kept, requeued-FitsMessage,
}
use flin.Queue.Delivery.Items.{
  AllEndInTime, Items, ids_of, requeued_all, expired_of, Distinct, Distinct-expired, entries_of,
}
use flin.Queue.Delivery.Popping.{read_message-Kept}

module _ (b : Badger) (it : Iterator b) (r : Reliable b) (name : Bytes)
    (named : is_empty name ≡ false) where
  unfoldable pub AllKept : b.Txn → Phase → Items → Type 0
  AllKept t phase [] = Unit {0}
  AllKept t phase ((id, msg) ∷ items) = Kept b t name id phase msg × AllKept t phase items

  Kept-same :
      (t t' : b.Txn) (id : Bytes) (phase : Phase) (msg : QueueMessage)
      → ((s : Slot) → at_slot b t' name s id ≡ at_slot b t name s id)
      → Kept b t name id phase msg
      → Kept b t' name id phase msg
  Kept-same t t' id phase msg same k = record {
    stored = same content ∙ k.stored;
    fits = k.fits;
    own_id = k.own_id;
    own_state = k.own_state;
    indexed = same (phase_slot phase) ∙ k.indexed;
    alone = same (phase_slot (opposite phase)) ∙ k.alone;
  }

  AllKept-same :
      (t t' : b.Txn) (id : Bytes) (phase : Phase) (items : Items)
      → SameElsewhere b t t' name id
      → Distinct (length id) items
      → ¬ Memᴰ id (ids_of items)
      → AllKept t phase items
      → AllKept t' phase items
  unfolding AllKept ids_of
  AllKept-same t t' id phase [] same d ne k = tt
  AllKept-same t t' id phase ((j, msg) ∷ items) same (l, f, d) ne (k, ks) = (
    Kept-same t t' j phase msg (λ s. same.same name s j l (λ p. ne (head p.1))) k,
    AllKept-same t t' id phase items same d (λ m. ne (tail m)) ks,
  )

  returned : (t t' : b.Txn) → ◌≡◌ {A = Outcome b.Txn} (ok t) (ok t') → t ≡ t'
  returned t t' e = cc

  -- One round of the second loop.
  requeue_ids-cons :
      (t : b.Txn) (id : Bytes) (msg : QueueMessage)
      → Kept b t name id delivered msg
      → (t' : b.Txn) × ((rest : List Bytes) (count : ℕ)
          → requeue_ids b it name (id ∷ rest) count t ≡ requeue_ids b it name rest (count + 1) t')
        × Kept b t' name id waiting (waiting_again msg)
        × SameElsewhere b t t' name id
  unfolding requeue_ids move_message
  requeue_ids-cons t id msg k =
      let (t1, e1) = r.sets t (message_key name id) (message_bytes (requeued msg)) in
      let (t2, e2) = r.deletes t1 (message_index_key name 1 id) in
      let (t3, e3) = r.sets t2 (message_index_key name 0 id) (1 ∷ []) in
      let (t', e, kept, same) =
        move-Kept b r name id msg t delivered waiting (requeued msg) k
          (requeued-FitsMessage msg k.fits) k.own_id refl in
      let moved : move_message b name id 1 (requeued msg) t ≡ ok t' =
        ap (λ s. move_message b name id s (requeued msg) t) (sym k.own_state) ∙ e in
      let run : move_message b name id 1 (requeued msg) t ≡ ok t3 =
        rw (encode_queue_message_lem (requeued msg), e1, e2, e3) in
      let same_end : t' ≡ t3 = returned t' t3 (sym moved ∙ run) in
      (
        t3,
        λ rest count. rw (
          read_message-Kept b it name named t id delivered msg k,
          encode_queue_message_lem (requeued msg),
          e1,
          e2,
          e3,
        ),
        subst (λ x. Kept b x name id waiting (requeued msg)) same_end kept,
        subst (λ x. SameElsewhere b t x name id) same_end same,
      )

  -- What the loop leaves: the listed messages are pending, and the others as they were.
  pub record PutBack (t t' : b.Txn) (width : ℕ) (items : Items) : Type 0 where
    pub put_back : AllKept t' waiting (requeued_all items)
    pub others :
        (q : Bytes) (s : Slot) (m : Bytes)
        → length m ≡ width
        → ¬ ((name ≡ q) × Memᴰ m (ids_of items))
        → at_slot b t' q s m ≡ at_slot b t q s m

  requeue_ids-PutBack :
      (t : b.Txn) (width count : ℕ) (items : Items)
      → Distinct width items
      → AllKept t delivered items
      → (t' : b.Txn) × (requeue_ids b it name (ids_of items) count t
          ≡ ok (count + length items, t'))
        × PutBack t t' width items
  unfolding requeue_ids AllKept ids_of requeued_all
  requeue_ids-PutBack t width count [] d k =
      let z : count + 0 ≡ count = omega arith in
      (t, rw z, record { put_back = tt; others = λ q s m l ne. refl })
  requeue_ids-PutBack t width count ((id, msg) ∷ items) (l, f, d) (k, ks) =
      let (t1, run, kept, same) = requeue_ids-cons t id msg k in
      let d' : Distinct (length id) items = subst (λ w. Distinct w items) (sym l) d in
      let (t2, e, p) =
        requeue_ids-PutBack t1 width (count + 1) items d
          (AllKept-same t t1 id delivered items same d' f ks) in
      let n : count + 1 + length items ≡ count + suc (length items) = omega arith in
      (
        t2,
        run (ids_of items) count ∙ e ∙ ap (λ c. ok (c, t2)) n,
        record {
          put_back = (
            Kept-same t1 t2 id waiting (requeued msg) (λ s. p.others name s id l (λ z. f z.1)) kept,
            p.put_back,
          );
          others = λ q s m lm ne.
              p.others q s m lm (λ z. ne (z.0, tail z.1))
              ∙ same.same q s m (lm ∙ sym l) (λ z. ne (z.0, head (sym z.1)));
        },
      )

  is_expired-eq-is_overdue :
      (now : ℕ) (msg : QueueMessage)
      → now < 2 ^ 63
      → FitsMessage msg
      → EndsInTime msg
      → is_expired now msg ≡ is_overdue now msg
  unfolding is_expired is_overdue signed_lt
  is_expired-eq-is_overdue now msg h fits ends =
      ground (arith, fits.in_flight_fits, fits.timeout_fits, ends)

  expired_ids_lem :
      (t : b.Txn) (now : ℕ) (items : Items) (ids : List Bytes)
      → now < 2 ^ 63
      → AllEndInTime items
      → AllKept t delivered items
      → expired_ids b it name
          (length (message_index_prefix name 1))
          now
          t
          (entries_of name items)
          ids
        ≡ ok (ids ++ ids_of (expired_of now items))
  unfolding expired_ids AllKept ids_of expired_of entries_of
  expired_ids_lem t now [] ids h a k = rw append-nil
  expired_ids_lem t now ((id, msg) ∷ items) ids h (a, rest_end) (k, ks) =
      let same = is_expired-eq-is_overdue now msg h k.fits a in
      elim (Bool-cases (is_overdue now msg)) [
        | inl y ↦
            rw
              (
                drop-append (message_index_prefix name 1) id,
                read_message-Kept b it name named t id delivered msg k,
                same,
                y,
              )
              (expired_ids_lem t now items (ids ++ id ∷ []) h rest_end ks
                ∙ ap ok (append_assoc ids (id ∷ []) (ids_of (expired_of now items))))
        | inr n ↦
            rw
              (
                drop-append (message_index_prefix name 1) id,
                read_message-Kept b it name named t id delivered msg k,
                same,
                n,
              )
              (expired_ids_lem t now items ids h rest_end ks)
      ]

  AllKept-expired :
      (t : b.Txn) (now : ℕ) (items : Items)
      → AllKept t delivered items
      → AllKept t delivered (expired_of now items)
  unfolding AllKept expired_of
  AllKept-expired t now [] k = tt
  AllKept-expired t now ((id, msg) ∷ items) (k, ks) = elim (Bool-cases (is_overdue now msg)) [
    | inl y ↦ rw y (k, AllKept-expired t now items ks)
    | inr n ↦ rw n (AllKept-expired t now items ks)
  ]

  -- RequeueExpiredMessages on a named queue whose in-flight index lists messages that are kept as in
  -- flight, under distinct ids of one length, with a clock and ends of positive timeouts below 2^63: the
  -- result is the number of those with a positive timeout that ended before now, these are kept as
  -- pending, without consumer and time, and every other message with an id as long is as it was.
  pub requeue_expired_messages-PutBack :
      (db : b.Txn) (width now : ℕ) (items : Items)
      → it.keys db (message_index_prefix name 1) ≡ entries_of name items
      → Distinct width items
      → AllKept db delivered items
      → now < 2 ^ 63
      → AllEndInTime items
      → (db' : b.Txn) × (requeue_expired_messages b it name now db
          ≡ (ok (length (expired_of now items)), db'))
        × PutBack db db' width (expired_of now items)
  unfolding requeue_expired_messages requeue_expired_body
  requeue_expired_messages-PutBack db width now items listed d k h a =
      let (db', e, p) =
        requeue_ids-PutBack db width 0 (expired_of now items) (Distinct-expired width now items d)
          (AllKept-expired db now items k) in
      let z : 0 + length (expired_of now items) ≡ length (expired_of now items) = omega arith in
      let e0 = e ∙ ap (λ c. ok (c, db')) z in
      (db', rw (named, listed, expired_ids_lem db now items [] h a k, e0, r.commits db'), p)
