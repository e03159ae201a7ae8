-- ===== src/Queue/Delivery/Slots.antt =====
-- The three keys of a message: its content, and its entries among the pending and the in-flight ones.
use flin.Prelude.{ℕ, ◌≡◌, ◌≢◌, refl, sym, ap, ◌++◌, length, length-append, arith}
use flin.Wire.Outcome.{Bytes}
use flin.Wire.Text.{text, byte_at, append-cancel, decimal}
use flin.Queue.Keys.{state_text, message_key, message_index_key}

pub data Slot : Type 0 where
  content : Slot
  pending : Slot
  in_flight : Slot

unfoldable pub slot_key : Bytes → Slot → Bytes → Bytes
slot_key queue_name content id = message_key queue_name id
slot_key queue_name pending id = message_index_key queue_name 0 id
slot_key queue_name in_flight id = message_index_key queue_name 1 id

-- Two message keys of one queue, or of ids of one length, are those of one message.
same_message :
    (p q id id' : Bytes)
    → length id ≡ length id'
    → message_key p id ≡ message_key q id'
    → (p ≡ q) × (id ≡ id')
unfolding message_key
same_message p q id id' h e =
    let body : p ++ (text ":" ++ id) ≡ q ++ (text ":" ++ id') = cc in
    let (names, ends) = append-cancel p q _ _ (omega arith) body in (names, cc)

same_entry :
    (p q id id' : Bytes) (st st' : ℕ)
    → length (state_text st) ≡ length (state_text st')
    → length id ≡ length id'
    → message_index_key p st id ≡ message_index_key q st' id'
    → (p ≡ q) × (state_text st ++ (text ":" ++ id) ≡ state_text st' ++ (text ":" ++ id'))
unfolding message_index_key
same_entry p q id id' st st' hs h e =
    let rest : Bytes = state_text st ++ (text ":" ++ id) in
    let rest' : Bytes = state_text st' ++ (text ":" ++ id') in
    let body : p ++ (text ":" ++ rest) ≡ q ++ (text ":" ++ rest') = cc in
    let same : length (text ":" ++ rest) ≡ length (text ":" ++ rest') = omega (
      arith,
      length-append (state_text st) (text ":" ++ id),
      length-append (state_text st') (text ":" ++ id'),
    ) in
    let (names, ends) = append-cancel p q _ _ same body in (names, cc)

content_ne_entry : (p q id id' : Bytes) (st : ℕ) → message_key p id ≢ message_index_key q st id'
unfolding message_key message_index_key byte_at
content_ne_entry p q id id' st e = omega (arith, ap (byte_at 6) e)

-- Where ids have one length, as UUIDs have, no two slots share a key.
pub slot_key-injective :
    (p q id id' : Bytes) (s s' : Slot)
    → length id ≡ length id'
    → slot_key p s id ≡ slot_key q s' id'
    → (p ≡ q) × (s ≡ s') × (id ≡ id')
unfolding slot_key state_text decimal byte_at
slot_key-injective p q id id' content content h e =
    let (names, ids) = same_message p q id id' h e in (names, refl, ids)
slot_key-injective p q id id' content pending h e = absurd (content_ne_entry p q id id' 0 e)
slot_key-injective p q id id' content in_flight h e = absurd (content_ne_entry p q id id' 1 e)
slot_key-injective p q id id' pending content h e = absurd (content_ne_entry q p id' id 0 (sym e))
slot_key-injective p q id id' in_flight content h e = absurd (content_ne_entry q p id' id 1 (sym e))
slot_key-injective p q id id' pending pending h e =
    let (names, ends) = same_entry p q id id' 0 0 refl h e in (names, refl, cc)
slot_key-injective p q id id' in_flight in_flight h e =
    let (names, ends) = same_entry p q id id' 1 1 refl h e in (names, refl, cc)
slot_key-injective p q id id' pending in_flight h e =
    let (names, ends) = same_entry p q id id' 0 1 refl h e in
    absurd (omega (arith, ap (byte_at 0) ends))
slot_key-injective p q id id' in_flight pending h e =
    let (names, ends) = same_entry p q id id' 1 0 refl h e in
    absurd (omega (arith, ap (byte_at 0) ends))
