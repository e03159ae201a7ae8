-- ===== src/Examples/Server.antt =====
-- internal/server at concrete inputs: both stores are shelves.
use flin.Prelude.{◌*◌, ◌≡◌, refl, List, [], ◌∷◌, ◌++◌, arith}
use flin.Wire.Outcome.{Bytes, ok}
use flin.Wire.BigEndian.{put_be}
use flin.Wire.Text.{error_text}
use flin.Badger.Memory.{memory, memory-Reliable, empty_memory}
use flin.Badger.Shelf.{shelf, shelf-Reliable, keys_in}
use flin.Badger.ShelfWriters.{shelf_writers, shelf_writers-IsLawful, shelf_writers-AreReliable}
use flin.Protocol.Encode.Response.{encode_error_response}
use flin.Protocol.Commands.Kv.{KvCommand, encode_kv}
use flin.Protocol.RoundTrip.Response.{reply_frame}
use flin.Queue.Storage.{get_metadata, err_queue_empty}
use flin.Queue.Storage.Contents.{Holds}
use flin.Kv.Storage.{Storage}
use flin.Kv.View.{Shows, update_view}
use flin.Server.Stores.{Backends, Stores}
use flin.Server.Binary.{dispatch, process_request_binary}
use flin.Server.Spec.{serve_spec}
use flin.Server.EndToEnd.{process_request_binary-Serves}
use flin.Server.Session.{session, session_spec, session-session_spec}
use flin.Server.Gap.{Push, push, pop_request, serve_pushes, serve_pushes-pop}
use flin.Examples.Kv.{name_key, hits_key, one_key, one_key_view, one_key-Shows}

abbrev backends : Backends
backends = record {
  kv_db = shelf;
  kv_writers = shelf_writers;
  queue_db = memory;
  stream_db = shelf;
  unix_nano = λ now. now * 1000000;
  sum32 = λ key. 0;
  seek = λ t prefix key. keys_in t prefix;
  arrive = λ partitions. partitions;
  Rest = Unit;
  handle_rest = λ req rest. (ok [], rest);
}

abbrev start : Stores backends
start = record {
  kv = one_key;
  queue = empty_memory;
  stream = record {
    storage = record { db = []; partition_offsets = []; write_buffer = [] };
    topics = [];
    groups = [];
    offset_cache = [];
  };
  rest = tt;
}

abbrev read_both : KvCommand
read_both = KvCommand.mget (name_key ∷ hits_key ∷ [])

process_request_binary-Serves_example :
    (frame : Bytes) × (left : Storage shelf) × (encode_kv read_both ≡ ok frame)
    × (process_request_binary backends [] 0 (frame ++ (9 ∷ [])) start
        ≡ (ok (reply_frame (serve_spec read_both one_key_view).0), record start { kv = left }))
    × Shows shelf left (serve_spec read_both one_key_view).1
unfolding put_be
process_request_binary-Serves_example =
    process_request_binary-Serves backends shelf-Reliable shelf_writers-IsLawful
      shelf_writers-AreReliable [] 0 read_both start one_key_view (9 ∷ [])
      (omega arith, ((omega arith, (omega arith, tt)), omega arith)) one_key-Shows

abbrev commands : List KvCommand
commands = KvCommand.set hits_key (1 ∷ []) ∷ KvCommand.get name_key ∷ []

session-session_spec_example :
    ((session backends [] 0 commands start).0 ≡ (session_spec commands one_key_view).0)
    × Shows shelf (session backends [] 0 commands start).1.kv (session_spec commands one_key_view).1
unfolding serve_spec put_be update_view
session-session_spec_example =
    session-session_spec backends shelf-Reliable shelf_writers-IsLawful shelf_writers-AreReliable []
      0 commands start one_key_view
      (
        (omega arith, (omega arith, omega arith)),
        (omega arith, tt),
        ((omega arith, omega arith), (omega arith, tt), tt),
      )
      one_key-Shows

abbrev pushes : List Push
pushes = push (1 ∷ []) (5 ∷ []) 0 ∷ push (2 ∷ []) (6 ∷ []) 1 ∷ []

start-Holds : Holds memory empty_memory name_key 0 []
unfolding get_metadata
start-Holds = record { metadata = refl; items_at = tt; in_range = omega arith }

serve_pushes-pop_example :
    dispatch backends [] 2 (pop_request name_key) (serve_pushes backends name_key pushes start) ≡ (
      encode_error_response (error_text err_queue_empty),
      serve_pushes backends name_key pushes start,
    )
serve_pushes-pop_example =
    serve_pushes-pop backends memory-Reliable name_key refl pushes start [] 2 0 start-Holds
