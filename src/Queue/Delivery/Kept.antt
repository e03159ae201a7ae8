-- ===== src/Queue/Delivery/Kept.antt =====
-- A message that is kept stands under its own key and in the index of its state, and in no other.
use flin.Prelude.{ℕ, ◌≡◌, ◌≢◌, refl, sym, ap, ◌∙◌, [], ◌∷◌, arith}
use flin.Wire.Outcome.{Bytes, ok}
use flin.Badger.{Badger, Reliable, found, missing}
use flin.Queue.Keys.{message_key, message_index_key}
use flin.Queue.Message.Types.{QueueMessage}
use flin.Queue.Message.Recovery.{FitsMessage, message_bytes, encode_queue_message_lem}
use flin.Queue.Delivery.Defs.{put_message, remove_message, move_message, requeued}
use flin.Queue.Delivery.Slots.{Slot, content, pending, in_flight, slot_key}
use flin.Queue.Delivery.Writes.{
  at_slot, SameElsewhere, Wrote, set-Wrote, delete-Wrote, other_slot, Wrote-SameElsewhere,
  SameElsewhere-trans,
}

pub data Phase : Type 0 where
  waiting : Phase
  delivered : Phase

abbrev pub phase_state : Phase → ℕ
phase_state waiting = 0
phase_state delivered = 1

abbrev pub phase_slot : Phase → Slot
phase_slot waiting = pending
phase_slot delivered = in_flight

abbrev pub opposite : Phase → Phase
opposite waiting = delivered
opposite delivered = waiting

index_slot :
    (name id : Bytes) (phase : Phase)
    → message_index_key name (phase_state phase) id ≡ slot_key name (phase_slot phase) id
unfolding slot_key
index_slot name id waiting = refl
index_slot name id delivered = refl

entry_slot :
    (name id : Bytes) (phase : Phase) (state : ℕ)
    → state ≡ phase_state phase
    → message_index_key name state id ≡ slot_key name (phase_slot phase) id
entry_slot name id phase state e =
    ap (λ n. message_index_key name n id) e ∙ index_slot name id phase

content_slot : (name id : Bytes) → message_key name id ≡ slot_key name content id
unfolding slot_key
content_slot name id = refl

content-ne-phase : (phase : Phase) → content ≢ phase_slot phase
content-ne-phase waiting e = cc
content-ne-phase delivered e = cc

phase-ne-opposite : (phase : Phase) → phase_slot phase ≢ phase_slot (opposite phase)
phase-ne-opposite waiting e = cc
phase-ne-opposite delivered e = cc

pub requeued-FitsMessage : (msg : QueueMessage) → FitsMessage msg → FitsMessage (requeued msg)
requeued-FitsMessage msg fits = record {
  id_fits = fits.id_fits;
  value_fits = fits.value_fits;
  state_fits = omega arith;
  count_fits = fits.count_fits;
  consumer_fits = omega arith;
  enqueued_fits = fits.enqueued_fits;
  in_flight_fits = omega arith;
  timeout_fits = fits.timeout_fits;
  retries_fit = fits.retries_fit;
}

module _ (b : Badger) where
  pub record Kept (t : b.Txn) (name id : Bytes) (phase : Phase) (msg : QueueMessage) : Type 0 where
    pub stored : at_slot b t name content id ≡ found (message_bytes msg)
    pub fits : FitsMessage msg
    pub own_id : msg.id ≡ id
    pub own_state : msg.state ≡ phase_state phase
    pub indexed : at_slot b t name (phase_slot phase) id ≡ found (1 ∷ [])
    pub alone : at_slot b t name (phase_slot (opposite phase)) id ≡ missing

  pub record Gone (t : b.Txn) (name id : Bytes) : Type 0 where
    pub no_content : at_slot b t name content id ≡ missing
    pub not_pending : at_slot b t name pending id ≡ missing
    pub not_in_flight : at_slot b t name in_flight id ≡ missing

  Gone-phase :
      (t : b.Txn) (name id : Bytes) (phase : Phase)
      → at_slot b t name content id ≡ missing
      → at_slot b t name (phase_slot phase) id ≡ missing
      → at_slot b t name (phase_slot (opposite phase)) id ≡ missing
      → Gone t name id
  Gone-phase t name id waiting c p o = record { no_content = c; not_pending = p; not_in_flight = o }
  Gone-phase t name id delivered c p o = record {
    no_content = c;
    not_pending = o;
    not_in_flight = p;
  }

  module _ (r : Reliable b) (name id : Bytes) (msg : QueueMessage) where
    -- A kept message is removed with its entry.
    pub remove-Kept :
        (t : b.Txn) (phase : Phase)
        → Kept t name id phase msg
        → (t' : b.Txn) × (remove_message b name msg.state id t ≡ ok t')
          × Gone t' name id
          × SameElsewhere b t t' name id
    unfolding remove_message
    remove-Kept t phase k =
        let (t', e') = r.deletes t (slot_key name content id) in
        let (t'', e'') = r.deletes t' (slot_key name (phase_slot phase) id) in
        let w' = delete-Wrote b t t' name id content e' in
        let w'' = delete-Wrote b t' t'' name id (phase_slot phase) e'' in
        (
          t'',
          rw (content_slot name id, entry_slot name id phase msg.state k.own_state, e', e''),
          Gone-phase t'' name id phase
              (other_slot b w'' content (λ e. content-ne-phase phase (sym e)) ∙ w'.self) w''.self
              (other_slot b w'' (phase_slot (opposite phase)) (phase-ne-opposite phase)
                ∙ other_slot b w' (phase_slot (opposite phase)) (content-ne-phase (opposite phase))
                ∙ k.alone),
          SameElsewhere-trans b (Wrote-SameElsewhere b w') (Wrote-SameElsewhere b w''),
        )

    -- A message under a new id is kept as pending.
    pub put-Kept :
        (t : b.Txn)
        → FitsMessage msg
        → msg.id ≡ id
        → msg.state ≡ 0
        → Gone t name id
        → (t' : b.Txn) × (put_message b name id msg t ≡ ok t')
          × Kept t' name id waiting msg
          × SameElsewhere b t t' name id
    unfolding put_message
    put-Kept t fits own state gone =
        let (t', e') = r.sets t (slot_key name content id) (message_bytes msg) in
        let (t'', e'') = r.sets t' (slot_key name pending id) (1 ∷ []) in
        let w' = set-Wrote b t t' name id (message_bytes msg) content e' in
        let w'' = set-Wrote b t' t'' name id (1 ∷ []) pending e'' in
        (
          t'',
          rw (
            encode_queue_message_lem msg,
            content_slot name id,
            entry_slot name id waiting msg.state state,
            e',
            e'',
          ),
          record {
            stored = other_slot b w'' content (λ e. cc) ∙ w'.self;
            fits = fits;
            own_id = own;
            own_state = state;
            indexed = w''.self;
            alone =
                other_slot b w'' in_flight (λ e. cc)
                ∙ other_slot b w' in_flight (λ e. cc)
                ∙ gone.not_in_flight;
          },
          SameElsewhere-trans b (Wrote-SameElsewhere b w') (Wrote-SameElsewhere b w''),
        )

    -- The entry of the other phase is absent once the entry of the old one is deleted.
    none_opposite :
        (t t' : b.Txn) (phase phase' : Phase)
        → Wrote b t t' name id (phase_slot phase) missing
        → at_slot b t name (phase_slot (opposite phase)) id ≡ missing
        → at_slot b t' name (phase_slot (opposite phase')) id ≡ missing
    none_opposite t t' waiting waiting w h = other_slot b w in_flight (λ e. cc) ∙ h
    none_opposite t t' waiting delivered w h = w.self
    none_opposite t t' delivered waiting w h = w.self
    none_opposite t t' delivered delivered w h = other_slot b w pending (λ e. cc) ∙ h

    -- A kept message that is moved to a state is kept in that state.
    pub move-Kept :
        (t : b.Txn) (phase phase' : Phase) (msg' : QueueMessage)
        → Kept t name id phase msg
        → FitsMessage msg'
        → msg'.id ≡ id
        → msg'.state ≡ phase_state phase'
        → (t' : b.Txn) × (move_message b name id msg.state msg' t ≡ ok t')
          × Kept t' name id phase' msg'
          × SameElsewhere b t t' name id
    unfolding move_message
    move-Kept t phase phase' msg' k fits own state =
        let (t1, e1) = r.sets t (slot_key name content id) (message_bytes msg') in
        let (t2, e2) = r.deletes t1 (slot_key name (phase_slot phase) id) in
        let (t3, e3) = r.sets t2 (slot_key name (phase_slot phase') id) (1 ∷ []) in
        let w1 = set-Wrote b t t1 name id (message_bytes msg') content e1 in
        let w2 = delete-Wrote b t1 t2 name id (phase_slot phase) e2 in
        let w3 = set-Wrote b t2 t3 name id (1 ∷ []) (phase_slot phase') e3 in
        let kept_off =
          other_slot b w1 (phase_slot (opposite phase)) (content-ne-phase (opposite phase))
          ∙ k.alone in
        (
          t3,
          rw (
            encode_queue_message_lem msg',
            content_slot name id,
            entry_slot name id phase msg.state k.own_state,
            entry_slot name id phase' msg'.state state,
            e1,
            e2,
            e3,
          ),
          record {
            stored =
                other_slot b w3 content (λ e. content-ne-phase phase' (sym e))
                ∙ other_slot b w2 content (λ e. content-ne-phase phase (sym e))
                ∙ w1.self;
            fits = fits;
            own_id = own;
            own_state = state;
            indexed = w3.self;
            alone =
                other_slot b w3 (phase_slot (opposite phase')) (phase-ne-opposite phase')
                ∙ none_opposite t1 t2 phase phase' w2 kept_off;
          },
          SameElsewhere-trans b (Wrote-SameElsewhere b w1)
              (SameElsewhere-trans b (Wrote-SameElsewhere b w2) (Wrote-SameElsewhere b w3)),
        )
