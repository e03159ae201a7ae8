-- ===== src/Stream/Storage/Appending.antt =====
-- Appends to one partition, and the flush that stores them.
use native.Mathlib.Nat.{mod-eq_of_lt}
use mathlib.Core.Path.{subst}
use flin.Prelude.{
  ℕ, ◌+◌, ◌%◌, ◌^◌, ◌<◌, ◌≡◌, refl, sym, ap, ◌∙◌, Bool, true, List, [], ◌∷◌, ◌++◌, append-nil,
  append_assoc, leb, length, length-append, arith,
}
use flin.Wire.Outcome.{Bytes, Outcome, ok, then_do}
use flin.Wire.Table.{Table, find, put, find-put_self}
use flin.Badger.{Badger, Reliable}
use flin.Badger.Memory.{same_key, same_key_iff}
use flin.Stream.Message.Types.{Message}
use flin.Stream.Keys.{partition_key, make_offset_key}
use flin.Stream.Storage.Defs.{
  StreamStorage, buffered, offset_or_load, append_message, get_partition_offset, store_buffer,
  flush_writes,
}
use flin.Stream.Storage.Durable.{
  Entry, entry_message, numbered, numbered-append, Stored, none_left, store_messages-Stored,
}

unfoldable pub offsets_from : ℕ → List Entry → List ℕ
offsets_from offset [] = []
offsets_from offset (x ∷ xs) = offset ∷ offsets_from (offset + 1) xs

module _ (topic : Bytes) (partition : ℕ) (b : Badger) where
  -- Appends one after the other; the flush that a full buffer starts has not run yet.
  unfoldable pub append_all : List Entry → StreamStorage b → Outcome (List ℕ × StreamStorage b)
  append_all [] s = ok ([], s)
  append_all (x ∷ xs) s =
      then_do (append_message b topic partition x.key x.value x.now s)
        λ r. then_do (append_all xs r.1) λ q. ok (r.0.0 ∷ q.0, q.1)

  -- The buffer with the messages of the partition only.
  unfoldable pub buffer_of : ℕ → List Entry → Table (List Message)
  buffer_of first [] = []
  buffer_of first (x ∷ xs) =
      (partition_key topic partition, numbered topic partition first (x ∷ xs)) ∷ []

  -- The counter stands before the next offset, and the messages from `first` on are buffered.
  pub record Buffers (s : StreamStorage b) (first : ℕ) (xs : List Entry) : Type 0 where
    pub count : ℕ
    pub counter :
        offset_or_load b
          (find (partition_key topic partition) s.partition_offsets)
          (b.get s.db (make_offset_key topic partition))
        ≡ ok count
    pub follows : (count + 1) % 2 ^ 64 ≡ first + length xs
    pub buffer : s.write_buffer ≡ buffer_of first xs

  buffered-buffer_of :
      (first : ℕ) (xs : List Entry)
      → buffered (find (partition_key topic partition) (buffer_of first xs))
        ≡ numbered topic partition first xs
  unfolding buffer_of find numbered
  buffered-buffer_of first [] = refl
  buffered-buffer_of first (x ∷ xs) =
      let key = partition_key topic partition in
      let e : same_key key key ≡ true = (same_key_iff key key).1 refl in rw e

  put-buffer_of :
      (first : ℕ) (xs : List Entry) (messages : List Message)
      → put (partition_key topic partition) messages (buffer_of first xs)
        ≡ (partition_key topic partition, messages) ∷ []
  unfolding buffer_of put
  put-buffer_of first [] messages = refl
  put-buffer_of first (x ∷ xs) messages =
      let key = partition_key topic partition in
      let e : same_key key key ≡ true = (same_key_iff key key).1 refl in rw e

  buffer_of-append :
      (first : ℕ) (xs : List Entry) (x : Entry)
      → buffer_of first (xs ++ x ∷ [])
        ≡ (partition_key topic partition, numbered topic partition first (xs ++ x ∷ [])) ∷ []
  unfolding buffer_of
  buffer_of-append first [] x = refl
  buffer_of-append first (y ∷ xs) x = refl

  append_message-Buffers :
      (x : Entry) (s : StreamStorage b) (first : ℕ) (xs : List Entry)
      → first + length xs + 1 < 2 ^ 64
      → Buffers s first xs
      → (full : Bool) × (s' : StreamStorage b) × (append_message b topic partition x.key x.value
            x.now s
          ≡ ok ((first + length xs, full), s'))
        × Buffers s' first (xs ++ x ∷ [])
        × (s'.db ≡ s.db)
  unfolding append_message get_partition_offset numbered
  append_message-Buffers x s first xs room h =
      let key = partition_key topic partition in
      let messages =
        numbered topic partition first xs
        ++ entry_message topic partition x (first + length xs) ∷ [] in
      let was : buffered (find key s.write_buffer) ≡ numbered topic partition first xs =
        ap (λ w. buffered (find key w)) h.buffer ∙ buffered-buffer_of first xs in
      (
        leb 1000 (length messages),
        record {
          db = s.db;
          partition_offsets = put key (first + length xs) (put key h.count s.partition_offsets);
          write_buffer = put key messages s.write_buffer;
        },
        rw (h.counter, h.follows, was),
        record {
          count = first + length xs;
          counter =
              rw (find-put_self key (first + length xs) (put key h.count s.partition_offsets));
          follows = omega (arith, mod-eq_of_lt room, length-append xs (x ∷ []));
          buffer =
              ap (put key messages) h.buffer
              ∙ put-buffer_of first xs messages
              ∙ ap (λ m. (key, m) ∷ []) (sym (numbered-append topic partition first xs (x ∷ [])))
              ∙ sym (buffer_of-append first xs x);
        },
        refl,
      )

  append_all-Buffers :
      (ys : List Entry) (s : StreamStorage b) (first : ℕ) (xs : List Entry)
      → first + length xs + length ys < 2 ^ 63
      → Buffers s first xs
      → (s' : StreamStorage b) × (append_all ys s ≡ ok (offsets_from (first + length xs) ys, s'))
        × Buffers s' first (xs ++ ys)
        × (s'.db ≡ s.db)
  unfolding append_all offsets_from
  append_all-Buffers [] s first xs room h = (s, refl, rw (append-nil xs) h, refl)
  append_all-Buffers (y ∷ ys) s first xs room h =
      let (full, t, appended, h', same) = append_message-Buffers y s first xs (omega arith) h in
      let more : length (xs ++ y ∷ []) ≡ length xs + 1 = omega (arith, length-append xs (y ∷ [])) in
      let (u, rest, k, same') =
        append_all-Buffers ys t first (xs ++ y ∷ []) (omega (arith, more)) h' in
      let next : first + length (xs ++ y ∷ []) ≡ first + length xs + 1 = omega (arith, more) in
      (u, rw (appended, rest, next), rw (append_assoc xs (y ∷ []) ys) at k, same' ∙ same)

  module _ (r : Reliable b) where
    abbrev Flushes : StreamStorage b → ℕ → List Entry → Type 0
    Flushes s first xs =
        ((flush_writes b s).0 ≡ ok tt)
        × Stored topic partition b r (flush_writes b s).1.db first xs
        × ((flush_writes b s).1.write_buffer ≡ [])

    flush_buffer_of :
        (s : StreamStorage b) (first : ℕ) (xs : List Entry)
        → first + length xs < 2 ^ 63
        → Flushes (record s { write_buffer = buffer_of first xs }) first xs
    unfolding flush_writes store_buffer buffer_of
    flush_buffer_of s first [] room = (refl, none_left, refl)
    flush_buffer_of s first (x ∷ xs) room =
        let (t, stored, all_stand, _) =
          store_messages-Stored topic partition b r first (x ∷ xs) s.db room in
        rw (stored, r.commits t) (refl, all_stand, refl)

    flush_writes-Stored :
        (s : StreamStorage b) (first : ℕ) (xs : List Entry)
        → first + length xs < 2 ^ 63
        → s.write_buffer ≡ buffer_of first xs
        → Flushes s first xs
    flush_writes-Stored s first xs room e =
        subst (λ w. Flushes (record s { write_buffer = w }) first xs) (sym e)
          (flush_buffer_of s first xs room)

    -- On a store that accepts writes and a buffer that is empty, messages appended to a partition one
    -- after the other get the offsets that follow the partition's counter, and the next flush stores
    -- each under the key of its offset and leaves the buffer empty.
    pub append_all-flush_writes :
        (xs : List Entry) (s : StreamStorage b) (count : ℕ)
        → s.write_buffer ≡ []
        → offset_or_load b
            (find (partition_key topic partition) s.partition_offsets)
            (b.get s.db (make_offset_key topic partition))
          ≡ ok count
        → (count + 1) % 2 ^ 64 + length xs < 2 ^ 63
        → (s' : StreamStorage b) × (append_all xs s
            ≡ ok (offsets_from ((count + 1) % 2 ^ 64) xs, s'))
          × ((flush_writes b s').0 ≡ ok tt)
          × Stored topic partition b r (flush_writes b s').1.db ((count + 1) % 2 ^ 64) xs
          × ((flush_writes b s').1.write_buffer ≡ [])
    unfolding buffer_of
    append_all-flush_writes xs s count empty counter room =
        let first = (count + 1) % 2 ^ 64 in
        let none : first + 0 ≡ first = omega arith in
        let (s', appended, h, _) =
          append_all-Buffers xs s first [] (omega arith)
            (record { count = count; counter = counter; follows = sym none; buffer = empty }) in
        let (flushed, stored, clear) = flush_writes-Stored s' first xs room h.buffer in
        (s', rw none at appended, flushed, stored, clear)
