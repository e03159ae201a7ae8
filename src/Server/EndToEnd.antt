-- ===== src/Server/EndToEnd.antt =====
-- A client's command through the encoder, the server and the database, to the response.
use mathlib.Core.Path.{subst}
use flin.Protocol.RoundTrip.Batch.{PairsFit}
use flin.Prelude.{
  ℕ, ◌≡◌, refl, sym, ap, ◌∙◌, Option, none, some, List, [], ◌∷◌, ◌++◌, Bool-cases, inl, inr,
}
use flin.Wire.Outcome.{then_do-eq-ok, Bytes, Outcome, ok, err, panic}
use flin.Wire.Text.{error_text}
use flin.Badger.{Reliable}
use flin.Badger.Writers.{IsLawful, AreReliable}
use flin.Protocol.Encode.Response.{
  encode_ok_response, encode_value_response, encode_multi_value_response, encode_error_response,
}
use flin.Protocol.Decode.Frame.{decode_request}
use flin.Protocol.Commands.Kv.{KvCommand, encode_kv, kv_request, KvFits, decode-encode_kv}
use flin.Protocol.RoundTrip.Response.{encode_reply, encode_reply-framed, reply_frame}
use flin.Kv.Storage.{Storage, Pairs}
use flin.Kv.Storage
use flin.Kv.View.{View, Operation, Answer, Shows, spec, answer_value, has_blank}
use flin.Kv.Calls.{call, answer, after, found_values}
use flin.Kv.Trace.{call-Follows}
use flin.Server.Stores.{Backends, Stores, respond}
use flin.Server.Kv.{
  process_binary_set, process_binary_get, process_binary_del, process_binary_mset,
  process_binary_mget, process_binary_mdel, ordered_values,
}
use flin.Server.Binary.{dispatch, is_rest, process_request_binary}
use flin.Server.Spec.{serve_spec, found_reply, values_or_nothing}
use flin.Server.Batches.{collect_pairs_lem, values_or_nothing-restrict, ordered_values-map_get}

-- The response for an answer of the storage.
abbrev encode_answer : (Answer → Outcome Bytes) → Answer → Outcome Bytes
encode_answer f (Answer.refused e) = encode_error_response (error_text e)
encode_answer f Answer.crashed = panic
encode_answer f a = f a

abbrev value_response : Answer → Outcome Bytes
value_response (Answer.value v) = encode_value_response v
value_response a = panic

abbrev pairs_response : List Bytes → Answer → Outcome Bytes
pairs_response keys (Answer.values f) = encode_multi_value_response (values_or_nothing f keys)
pairs_response keys a = panic

module _ (e : Backends) (r : Reliable e.kv_db) (l : IsLawful e.kv_db e.kv_writers)
    (a : AreReliable e.kv_db e.kv_writers) (message_id : Bytes) (now : ℕ) where
  -- A command is answered as the map of keys to values answers it, and the queues, streams and
  -- documents stay as they were.
  pub record Serves (c : KvCommand) (s : Stores e) (m : View) : Type 0 where
    pub left : Storage e.kv_db
    pub served :
        dispatch e message_id now (kv_request c) s
        ≡ (encode_reply (serve_spec c m).0, record s { kv = left })
    pub shows : Shows e.kv_db left (serve_spec c m).1

  ok_answer :
      (o : Outcome (Unit {0}))
      → respond o (λ _. encode_ok_response)
        ≡ encode_answer (λ _. encode_ok_response) (answer (λ _. Answer.done) o)
  ok_answer (ok _) = refl
  ok_answer (err x) = refl
  ok_answer panic = refl

  -- The answer of the storage and the reply to the command, with the views that they leave.
  record Agree (o : Operation) (c : KvCommand) (m : View) : Type 0 where
    pub same_reply :
        encode_answer (λ _. encode_ok_response) (spec o m).0 ≡ encode_reply (serve_spec c m).0
    pub same_view : (spec o m).1 ≡ (serve_spec c m).1

  -- A command whose handler makes one call that writes.
  write-Serves :
      (o : Operation) (c : KvCommand) (s : Stores e) (m : View)
      (res : Outcome (Unit {0}) × Storage e.kv_db)
      → Shows e.kv_db s.kv m
      → call e.kv_db e.kv_writers o s.kv ≡ after (λ _. Answer.done) res
      → dispatch e message_id now (kv_request c) s
        ≡ (respond res.0 (λ _. encode_ok_response), record s { kv = res.1 })
      → Agree o c m
      → Serves c s m
  write-Serves o c s m res h called handled g =
      let f = call-Follows e.kv_db e.kv_writers r l a o s.kv m h in
      let q : after (λ _. Answer.done) res ≡ ((spec o m).0, f.next) = sym called ∙ f.called in
      record {
        left = f.next;
        served = handled ∙ λ i. (
          (ok_answer res.0 ∙ ap (λ p. encode_answer (λ _. encode_ok_response) p.0) q ∙ g.same_reply)
              i,
          record s { kv = (q i).1 },
        );
        shows = subst (Shows e.kv_db f.next) g.same_view f.shows;
      }

  -- A command whose handler leaves everything as it was.
  read-Serves :
      (c : KvCommand) (s : Stores e) (m : View) (res : Outcome Bytes)
      → Shows e.kv_db s.kv m
      → dispatch e message_id now (kv_request c) s ≡ (res, s)
      → res ≡ encode_reply (serve_spec c m).0
      → m ≡ (serve_spec c m).1
      → Serves c s m
  read-Serves c s m res h handled p q = record {
    left = s.kv;
    served = handled ∙ ap (λ x. (x, s)) p;
    shows = subst (Shows e.kv_db s.kv) q h;
  }

  set-Serves :
      (key v : Bytes) (s : Stores e) (m : View)
      → Shows e.kv_db s.kv m
      → Serves (KvCommand.set key v) s m
  unfolding dispatch process_binary_set call spec serve_spec encode_reply
  set-Serves key v s m h =
      write-Serves (Operation.set key v 0) (KvCommand.set key v) s m
        (Storage.set e.kv_db e.kv_writers key v 0 s.kv) h refl refl
        (elim key as (λ k. Agree (Operation.set k v 0) (KvCommand.set k v) m) [
          | [] ↦ record { same_reply = refl; same_view = refl }
          | x ∷ xs ↦ record { same_reply = refl; same_view = refl }
        ])

  delete-Serves :
      (key : Bytes) (s : Stores e) (m : View)
      → Shows e.kv_db s.kv m
      → Serves (KvCommand.delete key) s m
  unfolding dispatch process_binary_del call spec serve_spec encode_reply
  delete-Serves key s m h =
      write-Serves (Operation.delete key) (KvCommand.delete key) s m
        (Storage.delete e.kv_db key s.kv) h refl refl
        (elim key as (λ k. Agree (Operation.delete k) (KvCommand.delete k) m) [
          | [] ↦ record { same_reply = refl; same_view = refl }
          | x ∷ xs ↦ record { same_reply = refl; same_view = refl }
        ])

  mdelete-Serves :
      (keys : List Bytes) (s : Stores e) (m : View)
      → Shows e.kv_db s.kv m
      → Serves (KvCommand.mdelete keys) s m
  unfolding dispatch process_binary_mdel call spec serve_spec encode_reply
  mdelete-Serves keys s m h =
      write-Serves (Operation.batch_delete keys) (KvCommand.mdelete keys) s m
        (Storage.batch_delete e.kv_db e.kv_writers keys s.kv) h refl refl
        (elim (Bool-cases (has_blank keys)) [
          | inl y ↦ record { same_reply = rw y; same_view = rw y }
          | inr n ↦ record { same_reply = rw n; same_view = rw n }
        ])

  mset-Serves :
      (keys values : List Bytes) (s : Stores e) (m : View)
      → PairsFit keys values
      → Shows e.kv_db s.kv m
      → Serves (KvCommand.mset keys values) s m
  unfolding dispatch process_binary_mset call spec serve_spec encode_reply
  mset-Serves keys values s m fits h =
      let (ps, collected, view, empty) = collect_pairs_lem keys values m fits in
      write-Serves (Operation.batch_set ps 0) (KvCommand.mset keys values) s m
        (Storage.batch_set e.kv_db e.kv_writers ps 0 s.kv) h refl (rw collected)
        (elim (Bool-cases (has_blank keys)) [
          | inl y ↦ record { same_reply = rw (empty, y); same_view = rw (empty, y) }
          | inr n ↦ record { same_reply = rw (empty, n); same_view = rw (empty, n) view }
        ])

  value_answer :
      (o : Outcome Bytes)
      → respond o encode_value_response ≡ encode_answer value_response (answer Answer.value o)
  value_answer (ok v) = refl
  value_answer (err x) = refl
  value_answer panic = refl

  found_answer :
      (o : Option Bytes)
      → encode_answer value_response (answer_value o) ≡ encode_reply (found_reply o)
  unfolding encode_reply
  found_answer none = refl
  found_answer (some v) = refl

  get_reply :
      (key : Bytes) (m : View)
      → encode_answer value_response (spec (Operation.get key) m).0
        ≡ encode_reply (serve_spec (KvCommand.get key) m).0
  unfolding spec serve_spec encode_reply
  get_reply [] m = refl
  get_reply (x ∷ xs) m = found_answer (m (x ∷ xs))

  get_view : (key : Bytes) (m : View) → m ≡ (serve_spec (KvCommand.get key) m).1
  unfolding serve_spec
  get_view [] m = refl
  get_view (x ∷ xs) m = refl

  get-Serves :
      (key : Bytes) (s : Stores e) (m : View)
      → Shows e.kv_db s.kv m
      → Serves (KvCommand.get key) s m
  unfolding dispatch process_binary_get call spec serve_spec encode_reply
  get-Serves key s m h =
      let f = call-Follows e.kv_db e.kv_writers r l a (Operation.get key) s.kv m h in
      let res = Storage.get e.kv_db key s.kv in
      let p : respond res encode_value_response
          ≡ encode_answer value_response (spec (Operation.get key) m).0 =
        value_answer res ∙ ap (λ p. encode_answer value_response p.0) f.called in
      read-Serves (KvCommand.get key) s m _ h refl (p ∙ get_reply key m) (get_view key m)

  pairs_answer :
      (keys : List Bytes) (o : Outcome Pairs)
      → respond o (λ results. encode_multi_value_response (ordered_values keys results))
        ≡ encode_answer (pairs_response keys) (answer found_values o)
  pairs_answer keys (ok ps) = ap encode_multi_value_response (ordered_values-map_get keys ps)
  pairs_answer keys (err x) = refl
  pairs_answer keys panic = refl

  mget-Serves :
      (keys : List Bytes) (s : Stores e) (m : View)
      → Shows e.kv_db s.kv m
      → Serves (KvCommand.mget keys) s m
  unfolding dispatch process_binary_mget call spec serve_spec encode_reply
  mget-Serves keys s m h =
      let f = call-Follows e.kv_db e.kv_writers r l a (Operation.batch_get keys) s.kv m h in
      let res = Storage.batch_get e.kv_db keys s.kv in
      let p : respond res (λ results. encode_multi_value_response (ordered_values keys results))
          ≡ encode_answer (pairs_response keys) (spec (Operation.batch_get keys) m).0 =
        pairs_answer keys res ∙ ap (λ p. encode_answer (pairs_response keys) p.0) f.called in
      elim (Bool-cases (has_blank keys)) [
        | inl y ↦ read-Serves (KvCommand.mget keys) s m _ h refl (p ∙ rw y) (rw y)
        | inr n ↦
            read-Serves (KvCommand.mget keys) s m _ h refl
              (p ∙ (rw n (ap encode_multi_value_response (values_or_nothing-restrict keys m))))
              (rw n)
      ]

  kv-Serves :
      (c : KvCommand) (s : Stores e) (m : View) → KvFits c → Shows e.kv_db s.kv m → Serves c s m
  unfolding dispatch is_rest serve_spec encode_reply
  kv-Serves (KvCommand.set key v) s m fits h = set-Serves key v s m h
  kv-Serves (KvCommand.get key) s m fits h = get-Serves key s m h
  kv-Serves (KvCommand.delete key) s m fits h = delete-Serves key s m h
  kv-Serves (KvCommand.exists key) s m fits h =
      read-Serves (KvCommand.exists key) s m _ h refl refl refl
  kv-Serves (KvCommand.incr key) s m fits h =
      read-Serves (KvCommand.incr key) s m _ h refl refl refl
  kv-Serves (KvCommand.decr key) s m fits h =
      read-Serves (KvCommand.decr key) s m _ h refl refl refl
  kv-Serves (KvCommand.mset keys values) s m (_, f) h = mset-Serves keys values s m f.0 h
  kv-Serves (KvCommand.mget keys) s m fits h = mget-Serves keys s m h
  kv-Serves (KvCommand.mdelete keys) s m fits h = mdelete-Serves keys s m h

  -- If a command fits the protocol and the store accepts writes and meets its laws, what a client encodes
  -- of it, with whatever was read behind it, is answered with the bytes of the reply that the map of keys
  -- to values that the database shows gives to the command, and the database then shows the map that the
  -- command leaves.
  pub process_request_binary-Serves :
      (c : KvCommand) (s : Stores e) (m : View) (rest : Bytes)
      → KvFits c
      → Shows e.kv_db s.kv m
      → (frame : Bytes) × (left : Storage e.kv_db) × (encode_kv c ≡ ok frame)
        × (process_request_binary e message_id now (frame ++ rest) s
            ≡ (ok (reply_frame (serve_spec c m).0), record s { kv = left }))
        × Shows e.kv_db left (serve_spec c m).1
  unfolding process_request_binary
  process_request_binary-Serves c s m rest fits h =
      let (frame, e1, e2) =
        then_do-eq-ok (encode_kv c) (λ x. decode_request (x ++ rest))
          (decode-encode_kv c rest fits) in
      let v = kv-Serves c s m fits h in
      let written = encode_reply-framed (serve_spec c m).0 in
      (
        frame,
        v.left,
        e1,
        (rw e2 v.served) ∙ ap (λ o. (o, record s { kv = v.left })) written,
        v.shows,
      )
