-- ===== src/Server/Spec.antt =====
-- What the server promises a client of the key-value store: a map from keys to values, and the reply to
-- each command.
use flin.Prelude.{Option, none, some, List, [], ◌∷◌, if◌then◌else◌}
use flin.Wire.Outcome.{Bytes, Error, message}
use flin.Wire.Text.{error_text}
use flin.Protocol.Commands.Kv.{KvCommand}
use flin.Protocol.RoundTrip.Response.{Reply}
use flin.Kv.View.{View, update_view, remove_keys, has_blank, no_key, blank_key}

abbrev pub unknown_opcode : Error
unknown_opcode = message "unknown opcode"

abbrev pub refusal : Error → Reply
refusal e = Reply.failed (error_text e)

abbrev pub found_reply : Option Bytes → Reply
found_reply none = refusal no_key
found_reply (some v) = Reply.value v

-- Keys are set in their order, so that the last value of a repeated key stays.
unfoldable pub update_all : View → List Bytes → List Bytes → View
update_all m [] values = m
update_all m (key ∷ keys) [] = m
update_all m (key ∷ keys) (v ∷ values) = update_all (update_view m key (some v)) keys values

abbrev pub value_or_empty : Option Bytes → Bytes
value_or_empty none = []
value_or_empty (some v) = v

unfoldable pub values_or_nothing : View → List Bytes → List Bytes
values_or_nothing m [] = []
values_or_nothing m (key ∷ keys) = value_or_empty (m key) ∷ values_or_nothing m keys

abbrev pub for_key : Bytes → View → Reply × View → Reply × View
for_key [] m r = (refusal blank_key, m)
for_key (x ∷ xs) m r = r

abbrev pub for_keys : List Bytes → View → Reply × View → Reply × View
for_keys keys m r = if has_blank keys then (refusal blank_key, m) else r

-- A missing value is sent as an empty one by MGet; Exists, Incr and Decr have no handler.
unfoldable pub serve_spec : KvCommand → View → Reply × View
serve_spec (KvCommand.set key v) m = for_key key m (Reply.done, update_view m key (some v))
serve_spec (KvCommand.get key) m = for_key key m (found_reply (m key), m)
serve_spec (KvCommand.delete key) m = for_key key m (Reply.done, update_view m key none)
serve_spec (KvCommand.exists key) m = (refusal unknown_opcode, m)
serve_spec (KvCommand.incr key) m = (refusal unknown_opcode, m)
serve_spec (KvCommand.decr key) m = (refusal unknown_opcode, m)
serve_spec (KvCommand.mset keys values) m = for_keys keys m (Reply.done, update_all m keys values)
serve_spec (KvCommand.mget keys) m =
    for_keys keys m (Reply.multi_value (values_or_nothing m keys), m)
serve_spec (KvCommand.mdelete keys) m = for_keys keys m (Reply.done, remove_keys m keys)
