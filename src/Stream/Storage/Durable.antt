-- ===== src/Stream/Storage/Durable.antt =====
-- What was appended to a partition is in the database once the buffer is flushed.
use flin.Prelude.{
  ℕ, suc, ◌+◌, ◌^◌, ◌<◌, ◌≡◌, refl, sym, ap, ◌∙◌, List, [], ◌∷◌, ◌++◌, append_assoc, length, arith,
}
use flin.Wire.Outcome.{Bytes, ok}
use flin.Wire.Text.{decimal, length-decimal, decimal-injective, append-cancel}
use flin.Wire.Signed.{signed_lt}
use flin.Badger.{Badger, Reliable, found}
use flin.Stream.Message.Types.{Message}
use flin.Stream.Message.Recovery.{message_bytes, encode_message_lem}
use flin.Stream.Keys.{make_message_key, make_message_prefix, padded}
use flin.Stream.Storage.Defs.{store_messages}

padded_lem : (n : ℕ) → n < 2 ^ 63 → padded n ≡ decimal 20 n
unfolding padded signed_lt
padded_lem n h = ground arith

make_message_key-prefix :
    (topic : Bytes) (partition offset : ℕ)
    → make_message_key topic partition offset ≡ make_message_prefix topic partition ++ padded offset
unfolding make_message_key make_message_prefix
make_message_key-prefix topic partition offset = simp append_assoc

-- The keys of two messages of one partition are those of one offset.
make_message_key-injective :
    (topic : Bytes) (partition i j : ℕ)
    → i < 2 ^ 63
    → j < 2 ^ 63
    → make_message_key topic partition i ≡ make_message_key topic partition j
    → i ≡ j
make_message_key-injective topic partition i j hi hj e =
    let front : Bytes = make_message_prefix topic partition in
    let split = λ (n : ℕ) (h : n < 2 ^ 63).
      make_message_key-prefix topic partition n ∙ ap (λ d. front ++ d) (padded_lem n h) in
    let (_, ends) =
      append-cancel front front (decimal 20 i) (decimal 20 j)
        (length-decimal 20 i ∙ sym (length-decimal 20 j)) (sym (split i hi) ∙ e ∙ split j hj) in
    decimal-injective 20 i j (omega arith) (omega arith) ends

-- A message of a partition, without its offset.
pub record Entry : Type 0 where
  pub key : Bytes
  pub value : Bytes
  pub now : ℕ

module _ (topic : Bytes) (partition : ℕ) where
  abbrev pub entry_message : Entry → ℕ → Message
  entry_message x offset = record {
    topic = topic;
    partition = partition;
    offset = offset;
    key = x.key;
    value = x.value;
    timestamp = x.now;
  }

  -- The messages with consecutive offsets.
  unfoldable pub numbered : ℕ → List Entry → List Message
  numbered offset [] = []
  numbered offset (x ∷ xs) = entry_message x offset ∷ numbered (offset + 1) xs

  pub numbered-append :
      (offset : ℕ) (xs ys : List Entry)
      → numbered offset (xs ++ ys) ≡ numbered offset xs ++ numbered (offset + length xs) ys
  unfolding numbered
  numbered-append offset [] ys = let e : offset + 0 ≡ offset = omega arith in rw e
  numbered-append offset (x ∷ xs) ys =
      let e : offset + suc (length xs) ≡ offset + 1 + length xs = omega arith in
      rw e (ap (◌∷◌ (entry_message x offset)) (numbered-append (offset + 1) xs ys))

  module _ (b : Badger) (r : Reliable b) where
    -- The database has the bytes of each message under the message's key.
    pub data Stored (t : b.Txn) : ℕ → List Entry → Type 0 where
      none_left : {offset : ℕ} → Stored t offset []
      stands :
          {offset : ℕ} {x : Entry} {xs : List Entry}
          → b.get t (make_message_key topic partition offset)
            ≡ found (message_bytes (entry_message x offset))
          → Stored t (offset + 1) xs
          → Stored t offset (x ∷ xs)

    -- Messages are stored, and no key but theirs is written.
    pub store_messages-Stored :
        (offset : ℕ) (xs : List Entry) (t : b.Txn)
        → offset + length xs < 2 ^ 63
        → (t' : b.Txn) × (store_messages b (numbered offset xs) t ≡ ok t')
          × Stored t' offset xs
          × ((i : ℕ)
              → i < offset
              → b.get t' (make_message_key topic partition i)
                ≡ b.get t (make_message_key topic partition i))
    unfolding store_messages numbered
    store_messages-Stored offset [] t h = (t, refl, none_left, λ i l. refl)
    store_messages-Stored offset (x ∷ xs) t h =
        let msg = entry_message x offset in
        let (u, written) = r.sets t (make_message_key topic partition offset) (message_bytes msg) in
        let (t', stored, rest, kept) = store_messages-Stored (offset + 1) xs u (omega arith) in
        (
          t',
          rw (encode_message_lem msg, written) stored,
          stands (kept offset (omega arith) ∙ b.get-set_self t u _ _ written) rest,
          λ i l.
              kept i (omega arith)
              ∙ b.get-set_ne t u _ _ _ written (λ e. absurd (
                  omega (
                    arith,
                    make_message_key-injective topic partition offset i (omega arith) (omega arith)
                        e,
                  ))),
        )
