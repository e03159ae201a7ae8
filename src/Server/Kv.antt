-- ===== src/Server/Kv.antt =====
-- internal/server/kv_handlers.go: the handlers of the binary protocol. Each returns the response that it
-- puts on the connection's queue; the counters and the latency are left out.
use flin.Prelude.{Option, none, some, List, [], ◌∷◌}
use flin.Wire.Outcome.{Bytes, Outcome, ok, err, panic}
use flin.Protocol.Types.{Request}
use flin.Protocol.Encode.Response.{
  encode_ok_response, encode_value_response, encode_multi_value_response,
}
use flin.Kv.Storage
use flin.Kv.Storage.{Pairs, map_set, map_get}
use flin.Server.Stores.{Backends, Stores, respond}

-- `for i, key := range req.Keys { kvPairs[key] = req.Values[i] }`
unfoldable pub collect_pairs : List Bytes → List Bytes → Pairs → Outcome Pairs
collect_pairs [] values kv_pairs = ok kv_pairs
collect_pairs (key ∷ keys) [] kv_pairs = panic
collect_pairs (key ∷ keys) (value ∷ values) kv_pairs =
    collect_pairs keys values (map_set key value kv_pairs)

-- `if val, ok := results[key]; ok { val } else { []byte{} }`
abbrev pub or_nothing : Option Bytes → Bytes
or_nothing none = []
or_nothing (some val) = val

unfoldable pub ordered_values : List Bytes → Pairs → List Bytes
ordered_values [] results = []
ordered_values (key ∷ keys) results = or_nothing (map_get key results) ∷ ordered_values keys results

module _ (e : Backends) where
  unfoldable pub process_binary_set : Request → Stores e → Outcome Bytes × Stores e
  process_binary_set req s =
      let r = Storage.set e.kv_db e.kv_writers req.key req.value 0 s.kv in
      (respond r.0 (λ _. encode_ok_response), record s { kv = r.1 })

  unfoldable pub process_binary_get : Request → Stores e → Outcome Bytes × Stores e
  process_binary_get req s = (respond (Storage.get e.kv_db req.key s.kv) encode_value_response, s)

  unfoldable pub process_binary_del : Request → Stores e → Outcome Bytes × Stores e
  process_binary_del req s =
      let r = Storage.delete e.kv_db req.key s.kv in
      (respond r.0 (λ _. encode_ok_response), record s { kv = r.1 })

  abbrev pub set_all : Outcome Pairs → Stores e → Outcome Bytes × Stores e
  set_all (ok kv_pairs) s =
      let r = Storage.batch_set e.kv_db e.kv_writers kv_pairs 0 s.kv in
      (respond r.0 (λ _. encode_ok_response), record s { kv = r.1 })
  set_all (err e') s = (err e', s)
  set_all panic s = (panic, s)

  unfoldable pub process_binary_mset : Request → Stores e → Outcome Bytes × Stores e
  process_binary_mset req s = set_all (collect_pairs req.keys req.values []) s

  unfoldable pub process_binary_mget : Request → Stores e → Outcome Bytes × Stores e
  process_binary_mget req s = (
    respond (Storage.batch_get e.kv_db req.keys s.kv)
        (λ results. encode_multi_value_response (ordered_values req.keys results)),
    s,
  )

  unfoldable pub process_binary_mdel : Request → Stores e → Outcome Bytes × Stores e
  process_binary_mdel req s =
      let r = Storage.batch_delete e.kv_db e.kv_writers req.keys s.kv in
      (respond r.0 (λ _. encode_ok_response), record s { kv = r.1 })
