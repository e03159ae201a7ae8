-- ===== src/Protocol/Types.antt =====
-- internal/net/protocol.go: codes, `Request`, `BatchMessage` and `Response`.
-- Machine integers are the numbers of their bit patterns, so `int64(x)` and `uint64(x)` keep them.
use flin.Prelude.{ℕ, Bool, false, List, []}
use flin.Wire.Outcome.{Bytes}

abbrev pub op_set : ℕ
op_set = 0x01

abbrev pub op_get : ℕ
op_get = 0x02

abbrev pub op_del : ℕ
op_del = 0x03

abbrev pub op_exists : ℕ
op_exists = 0x04

abbrev pub op_incr : ℕ
op_incr = 0x05

abbrev pub op_decr : ℕ
op_decr = 0x06

abbrev pub op_mset : ℕ
op_mset = 0x10

abbrev pub op_mget : ℕ
op_mget = 0x11

abbrev pub op_mdel : ℕ
op_mdel = 0x12

abbrev pub op_qpush : ℕ
op_qpush = 0x20

abbrev pub op_qpop : ℕ
op_qpop = 0x21

abbrev pub op_qpeek : ℕ
op_qpeek = 0x22

abbrev pub op_qlen : ℕ
op_qlen = 0x23

abbrev pub op_qclear : ℕ
op_qclear = 0x24

abbrev pub op_spublish : ℕ
op_spublish = 0x30

abbrev pub op_sconsume : ℕ
op_sconsume = 0x31

abbrev pub op_scommit : ℕ
op_scommit = 0x32

abbrev pub op_screate_topic : ℕ
op_screate_topic = 0x33

abbrev pub op_ssubscribe : ℕ
op_ssubscribe = 0x34

abbrev pub op_sunsubscribe : ℕ
op_sunsubscribe = 0x35

abbrev pub op_spublish_batch : ℕ
op_spublish_batch = 0x37

abbrev pub op_doc_insert : ℕ
op_doc_insert = 0x40

abbrev pub op_doc_find : ℕ
op_doc_find = 0x41

abbrev pub op_doc_update : ℕ
op_doc_update = 0x42

abbrev pub op_doc_delete : ℕ
op_doc_delete = 0x43

abbrev pub op_doc_index : ℕ
op_doc_index = 0x44

abbrev pub status_ok : ℕ
status_ok = 0x00

abbrev pub status_error : ℕ
status_error = 0x01

abbrev pub status_not_found : ℕ
status_not_found = 0x02

abbrev pub status_key_exists : ℕ
status_key_exists = 0x03

abbrev pub status_multi_value : ℕ
status_multi_value = 0x04

abbrev pub max_batch_size : ℕ
max_batch_size = 10000

pub record BatchMessage : Type 0 where
  pub partition : ℕ
  pub key : Bytes
  pub value : Bytes

pub record Request : Type 0 where
  pub op_code : ℕ
  pub key : Bytes
  pub value : Bytes
  pub keys : List Bytes
  pub values : List Bytes
  pub queue_name : Bytes
  pub consumer_id : Bytes
  pub message_id : Bytes
  pub visibility_timeout : ℕ
  pub requeue : Bool
  pub topic : Bytes
  pub partition : ℕ
  pub group : Bytes
  pub consumer : Bytes
  pub count : ℕ
  pub retention_ms : ℕ
  pub offset : ℕ
  pub batch_messages : List BatchMessage
  pub collection : Bytes

pub record Response : Type 0 where
  pub status : ℕ
  pub value : Bytes
  pub values : List Bytes
  pub error : Bytes

-- `&Request{OpCode: op}`: the other fields hold their zero values.
abbrev pub new_request : ℕ → Request
new_request op = record {
  op_code = op;
  key = [];
  value = [];
  keys = [];
  values = [];
  queue_name = [];
  consumer_id = [];
  message_id = [];
  visibility_timeout = 0;
  requeue = false;
  topic = [];
  partition = 0;
  group = [];
  consumer = [];
  count = 0;
  retention_ms = 0;
  offset = 0;
  batch_messages = [];
  collection = [];
}

-- `&Response{Status: status}`
abbrev pub new_response : ℕ → Response
new_response status = record { status = status; value = []; values = []; error = [] }
