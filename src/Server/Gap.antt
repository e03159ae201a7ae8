-- ===== src/Server/Gap.antt =====
-- QPush stores by message, and QPop takes by position: the two do not meet.
use flin.Prelude.{ℕ, ◌+◌, ◌≡◌, ◌≢◌, refl, ap, ◌∙◌, true, false, List, [], ◌∷◌, leb, arith}
use flin.Wire.Outcome.{Bytes, ok, err}
use flin.Wire.Text.{byte_at, error_text}
use flin.Badger.{Badger, Reliable}
use flin.Protocol.Types.{Request, new_request, op_qpush, op_qpop}
use flin.Protocol.Encode.Response.{encode_value_response, encode_error_response}
use flin.Queue.Keys.{metadata_key, message_key, message_index_key}
use flin.Queue.Storage.{is_empty, get_metadata, pop, pop_body, err_queue_empty, metadata_of}
use flin.Queue.Storage.Contents.{Holds}
use flin.Queue.Message.Recovery.{message_bytes, encode_queue_message_lem}
use flin.Queue.Delivery.Defs.{push_message, put_message, new_message}
use flin.Server.Stores.{Backends, Stores, respond}
use flin.Server.Queue.{process_binary_qpush, process_binary_qpop}
use flin.Server.Binary.{dispatch}

metadata-ne-message : (p q id : Bytes) → message_key q id ≢ metadata_key p
unfolding metadata_key message_key byte_at
metadata-ne-message p q id e = omega (arith, ap (byte_at 7) e)

metadata-ne-entry : (p q id : Bytes) (st : ℕ) → message_index_key q st id ≢ metadata_key p
unfolding metadata_key message_index_key byte_at
metadata-ne-entry p q id st e = omega (arith, ap (byte_at 6) e)

-- PushMessage leaves the positions of every queue.
push_message-get_metadata :
    (b : Badger) (r : Reliable b) (name value id : Bytes) (now : ℕ) (db : b.Txn)
    → is_empty name ≡ false
    → (db' : b.Txn) × (push_message b name value id now db ≡ (id, (ok tt, db')))
      × ((q : Bytes) → get_metadata b db' q ≡ get_metadata b db q)
unfolding push_message put_message get_metadata
push_message-get_metadata b r name value id now db named =
    let msg = new_message id value 0 now in
    let (t, e) = r.sets db (message_key name id) (message_bytes msg) in
    let (t', e') = r.sets t (message_index_key name 0 id) (1 ∷ []) in
    (
      t',
      rw (named, encode_queue_message_lem msg, e, e', r.commits t'),
      λ q. ap (metadata_of b) (
          b.get-set_ne t t' _ _ _ e' (metadata-ne-entry q name id 0)
          ∙ b.get-set_ne db t _ _ _ e (metadata-ne-message q name id)),
    )

abbrev pub push_request : Bytes → Bytes → Request
push_request name value = record (new_request op_qpush) { key = name; value = value }

abbrev pub pop_request : Bytes → Request
pop_request name = record (new_request op_qpop) { key = name }

-- Pushes to one queue, each with the id and the time that it gets.
pub data Push : Type 0 where
  push : Bytes → Bytes → ℕ → Push

unfoldable pub serve_pushes : (e : Backends) → Bytes → List Push → Stores e → Stores e
serve_pushes e name [] s = s
serve_pushes e name (push value id now ∷ ps) s =
    serve_pushes e name ps (dispatch e id now (push_request name value) s).1

pop_empty :
    (b : Badger) (name : Bytes) (db : b.Txn) (head : ℕ)
    → is_empty name ≡ false
    → get_metadata b db name ≡ ok (record { head = head; tail = head + 0 })
    → pop b name db ≡ (err err_queue_empty, db)
unfolding pop pop_body
pop_empty b name db head named meta =
    let done : leb (head + 0) head ≡ true = ground arith in rw (named, meta, done)

module _ (e : Backends) (r : Reliable e.queue_db) (name : Bytes)
    (named : is_empty name ≡ false) where
  serve_pushes-get_metadata :
      (ps : List Push) (s : Stores e)
      → get_metadata e.queue_db (serve_pushes e name ps s).queue name
        ≡ get_metadata e.queue_db s.queue name
  unfolding serve_pushes dispatch process_binary_qpush
  serve_pushes-get_metadata [] s = refl
  serve_pushes-get_metadata (push value id now ∷ ps) s =
      let (db', pushed, same) =
        push_message-get_metadata e.queue_db r name value id now s.queue named in
      rw (pushed, serve_pushes)
        (serve_pushes-get_metadata ps (record s { queue = db' }) ∙ same name)

  -- However many values a client pushes, a pop on a queue that holds no item by position is answered
  -- with the error that the queue is empty.
  pub serve_pushes-pop :
      (ps : List Push) (s : Stores e) (id : Bytes) (now head : ℕ)
      → Holds e.queue_db s.queue name head []
      → dispatch e id now (pop_request name) (serve_pushes e name ps s)
        ≡ (encode_error_response (error_text err_queue_empty), serve_pushes e name ps s)
  unfolding dispatch process_binary_qpop
  serve_pushes-pop ps s id now head h =
      let t = serve_pushes e name ps s in
      let p =
        pop_empty e.queue_db name t.queue head named
          (serve_pushes-get_metadata ps s ∙ h.metadata) in
      ap (λ r. (respond r.0 encode_value_response, record t { queue = r.1 })) p
