-- ===== src/Examples/Stream.antt =====
-- internal/stream at concrete inputs, over the shelf.
use flin.Prelude.{◌+◌, ◌%◌, ◌^◌, ◌≡◌, ◌≢◌, refl, List, [], ◌∷◌, arith}
use flin.Wire.Outcome.{Bytes, ok, panic, then_do}
use flin.Wire.Text.{text}
use flin.Wire.Table.{find}
use flin.Badger.Shelf.{shelf, shelf-Reliable, look, keys_in}
use flin.Stream.Message.Types.{Message, TopicMetadata}
use flin.Stream.Message.Encode.{encode_message, encode_topic_metadata}
use flin.Stream.Message.Decode.{decode_message, decode_topic_metadata}
use flin.Stream.Message.Recovery.{decode-encode_message, decode-encode_topic_metadata}
use flin.Stream.Message.Safety.{decoders-ne-panic}
use flin.Stream.Storage.{StreamStorage, flush_writes, minus_one}
use flin.Stream.Storage.Durable.{Entry, Stored}
use flin.Stream.Storage.Appending.{append_all, offsets_from, append_all-flush_writes}
use flin.Stream.Topics.Defs.{Stream, topic_of, commit, get_cached_offset}
use flin.Stream.Topics.Offsets.{restarted, commit-get_cached_offset}
use flin.Stream.Groups.Defs.{subscribe}
use flin.Stream.Groups.Membership.{GroupsShare}
use flin.Stream.Groups.Joining.{
  Joined, Membership, join, quit, fetch, run_membership, run_membership-GroupsShare,
  subscribe-Joined,
}

abbrev events : Bytes
events = text "events"

abbrev workers : Bytes
workers = text "workers"

abbrev order_placed : Message
order_placed = record {
  topic = events;
  partition = 1;
  offset = 300;
  key = 107 ∷ [];
  value = 1 ∷ 2 ∷ [];
  timestamp = 1700000000000;
}

decode-encode_message_example :
    then_do (encode_message order_placed) decode_message
    ≡ ok (record order_placed { topic = []; partition = 0 })
decode-encode_message_example = decode-encode_message order_placed (record {
  offset_fits = omega arith;
  timestamp_fits = omega arith;
  key_fits = omega arith;
  value_fits = omega arith;
})

abbrev event_topic : TopicMetadata
event_topic = record {
  name = events;
  partitions = 5;
  retention_ms = 604800000;
  retention_bytes = 0;
  created_at = 1700000000000;
}

decode-encode_topic_metadata_example :
    then_do (encode_topic_metadata event_topic) decode_topic_metadata ≡ ok event_topic
decode-encode_topic_metadata_example = decode-encode_topic_metadata event_topic (record {
  name_fits = omega arith;
  partitions_fit = omega arith;
  retention_fits = omega arith;
  size_fits = omega arith;
  created_fits = omega arith;
})

decoders-ne-panic_example :
    (decode_message (0 ∷ 200 ∷ []) ≢ panic) × (decode_topic_metadata (0 ∷ 200 ∷ []) ≢ panic)
decoders-ne-panic_example = decoders-ne-panic (0 ∷ 200 ∷ [])

abbrev no_messages : StreamStorage shelf
no_messages = record { db = []; partition_offsets = []; write_buffer = [] }

abbrev entries : List Entry
entries =
    record { key = []; value = 7 ∷ []; now = 10 }
    ∷ record { key = 1 ∷ []; value = 8 ∷ []; now = 11 }
    ∷ []

append_all-flush_writes_example :
    (s' : StreamStorage shelf) × (append_all events 2 shelf entries no_messages
      ≡ ok (offsets_from ((minus_one + 1) % 2 ^ 64) entries, s'))
    × ((flush_writes shelf s').0 ≡ ok tt)
    × Stored events 2 shelf shelf-Reliable
        (flush_writes shelf s').1.db
        ((minus_one + 1) % 2 ^ 64)
        entries
    × ((flush_writes shelf s').1.write_buffer ≡ [])
unfolding find look
append_all-flush_writes_example =
    append_all-flush_writes events 2 shelf shelf-Reliable entries no_messages minus_one refl refl
      (omega arith)

abbrev start : Stream shelf
start = record {
  storage = no_messages;
  topics = (events, event_topic) ∷ [];
  groups = [];
  offset_cache = [];
}

commit-get_cached_offset_example :
    let left = (commit shelf events workers 2 41 1700000000000 start).1 in
    ((commit shelf events workers 2 41 1700000000000 start).0 ≡ ok tt)
    × ((get_cached_offset shelf workers events 2 left).0 ≡ ok 41)
    × ((get_cached_offset shelf workers events 2 (restarted shelf shelf-Reliable left)).0 ≡ ok 41)
commit-get_cached_offset_example =
    commit-get_cached_offset shelf shelf-Reliable workers events 2 41 1700000000000 start
      (omega arith)

abbrev calls : List Membership
calls =
    join events workers (text "a") 1
    ∷ join events workers (text "b") 2
    ∷ join events workers (text "c") 3
    ∷ fetch events workers (text "c") 10 4
    ∷ quit events workers (text "b")
    ∷ []

run_membership-GroupsShare_example :
    GroupsShare shelf (
      run_membership shelf
        (λ t prefix key. keys_in t prefix)
        (λ partitions. partitions)
        calls
        start)
run_membership-GroupsShare_example =
    run_membership-GroupsShare shelf (λ t prefix key. keys_in t prefix) (λ partitions. partitions)
      calls start tt

subscribe-Joined_example :
    ((subscribe shelf events workers (text "a") 1 start).0 ≡ ok tt)
    × Joined shelf (subscribe shelf events workers (text "a") 1 start).1 workers (text "a") events 5
unfolding topic_of find
subscribe-Joined_example =
    subscribe-Joined shelf events workers (text "a") 1 start event_topic refl refl
