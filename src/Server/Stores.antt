-- ===== src/Server/Stores.antt =====
-- internal/server: the packages that the handlers call.
use flin.Prelude.{ℕ, List}
use flin.Wire.Outcome.{Bytes, Outcome, ok, err, panic}
use flin.Wire.Text.{error_text}
use flin.Badger.{Badger}
use flin.Badger.Writers.{Writers}
use flin.Protocol.Types.{Request}
use flin.Protocol.Encode.Response.{encode_error_response}
use flin.Kv.Storage.{Storage}
use flin.Stream.Topics.Defs.{Stream}

-- The databases, what the streams call, and the handlers of documents with the state that they act on.
-- `unix_nano` is the clock in nanoseconds where it shows a time in milliseconds, `sum32` is fnv.New32a,
-- `seek` lists what an iterator meets from a key on, and `arrive` is the order in which the partitions
-- of a fetch come in.
pub record Backends : Type 1 where
  pub kv_db : Badger
  pub kv_writers : Writers kv_db
  pub queue_db : Badger
  pub stream_db : Badger
  pub unix_nano : ℕ → ℕ
  pub sum32 : Bytes → ℕ
  pub seek : stream_db.Txn → Bytes → Bytes → List Bytes
  pub arrive : List ℕ → List ℕ
  pub Rest : Type 0
  pub handle_rest : Request → Rest → Outcome Bytes × Rest

pub record Stores (e : Backends) : Type 0 where
  pub kv : Storage e.kv_db
  pub queue : e.queue_db.Txn
  pub stream : Stream e.stream_db
  pub rest : e.Rest

-- `if err != nil { EncodeErrorResponse(err) } else { … }`
abbrev pub respond {ℓ} : {A : Type ℓ} → Outcome A → (A → Outcome Bytes) → Outcome Bytes
respond (ok a) f = f a
respond (err e) f = encode_error_response (error_text e)
respond panic f = panic
