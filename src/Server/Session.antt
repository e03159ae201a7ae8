-- ===== src/Server/Session.antt =====
-- A client that sends key-value commands one after the other, each in a read of its own.
use flin.Prelude.{ℕ, ◌≡◌, refl, sym, ap, ◌∙◌, List, [], ◌∷◌, ◌++◌, append-nil}
use flin.Wire.Outcome.{Bytes, Outcome, ok, err, panic, then_do}
use flin.Badger.{Reliable}
use flin.Badger.Writers.{IsLawful, AreReliable}
use flin.Protocol.Types.{Response}
use flin.Protocol.Decode.Response.{decode_response}
use flin.Protocol.Commands.Kv.{KvCommand, encode_kv, KvFits}
use flin.Protocol.RoundTrip.Response.{
  Reply, reply_frame, encode_reply-framed, reply_response, ReplyFits, decode-encode_reply,
}
use flin.Kv.Storage.{Storage}
use flin.Kv.View.{View, Shows}
use flin.Server.Stores.{Backends, Stores}
use flin.Server.Binary.{process_request_binary}
use flin.Server.Spec.{serve_spec}
use flin.Server.EndToEnd.{process_request_binary-Serves}

module _ (e : Backends) (message_id : Bytes) (now : ℕ) where
  -- The server on a frame, and the client on its response.
  abbrev pub exchange_frame : Outcome Bytes → Stores e → Outcome Response × Stores e
  exchange_frame (ok frame) s =
      let r = process_request_binary e message_id now frame s in (then_do r.0 decode_response, r.1)
  exchange_frame (err x) s = (err x, s)
  exchange_frame panic s = (panic, s)

  unfoldable pub session : List KvCommand → Stores e → List (Outcome Response) × Stores e
  session [] s = ([], s)
  session (c ∷ cs) s =
      let r = exchange_frame (encode_kv c) s in let rest = session cs r.1 in (r.0 ∷ rest.0, rest.1)

unfoldable pub session_spec : List KvCommand → View → List (Outcome Response) × View
session_spec [] m = ([], m)
session_spec (c ∷ cs) m =
    let r = serve_spec c m in
    let rest = session_spec cs r.1 in (ok (reply_response r.0) ∷ rest.0, rest.1)

-- Every command and the reply that is due to it fit the widths of the protocol.
abbrev pub SessionFits : List KvCommand → View → Type 0
SessionFits [] m = Unit
SessionFits (c ∷ cs) m = KvFits c × ReplyFits (serve_spec c m).0 × SessionFits cs (serve_spec c m).1

module _ (e : Backends) (r : Reliable e.kv_db) (l : IsLawful e.kv_db e.kv_writers)
    (a : AreReliable e.kv_db e.kv_writers) (message_id : Bytes) (now : ℕ) where
  received : (x : Reply) → ReplyFits x → decode_response (reply_frame x) ≡ ok (reply_response x)
  received x h =
      let frame = reply_frame x in
      ap decode_response (sym (append-nil frame))
      ∙ ap (λ o. then_do o (λ f. decode_response (f ++ []))) (sym (encode_reply-framed x))
      ∙ decode-encode_reply x [] h

  exchange_lem :
      (c : KvCommand) (s : Stores e) (m : View)
      → KvFits c
      → ReplyFits (serve_spec c m).0
      → Shows e.kv_db s.kv m
      → (left : Storage e.kv_db) × (exchange_frame e message_id now (encode_kv c) s
          ≡ (ok (reply_response (serve_spec c m).0), record s { kv = left }))
        × Shows e.kv_db left (serve_spec c m).1
  exchange_lem c s m fits small h =
      let (frame, left, sent, served, shows) =
        process_request_binary-Serves e r l a message_id now c s m [] fits h in
      let served' = rw (append-nil frame) at served in
      (
        left,
        rw (sent, served') (λ i. (received (serve_spec c m).0 small i, record s { kv = left })),
        shows,
      )

  -- The responses that a client decodes to a list of commands, each sent in a read of its own, are those
  -- of the map of keys to values that the database shows, if commands and replies fit the protocol and
  -- the store accepts writes.
  pub session-session_spec :
      (cs : List KvCommand) (s : Stores e) (m : View)
      → SessionFits cs m
      → Shows e.kv_db s.kv m
      → ((session e message_id now cs s).0 ≡ (session_spec cs m).0)
        × Shows e.kv_db (session e message_id now cs s).1.kv (session_spec cs m).1
  unfolding session session_spec
  session-session_spec [] s m fits h = (refl, h)
  session-session_spec (c ∷ cs) s m (fits, small, rest) h =
      let (left, served, shows) = exchange_lem c s m fits small h in
      let (replies, shown) =
        session-session_spec cs (record s { kv = left }) (serve_spec c m).1 rest shows in
      rw served (ap (◌∷◌ (ok (reply_response (serve_spec c m).0))) replies, shown)
