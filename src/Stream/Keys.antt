-- ===== src/Stream/Keys.antt =====
-- internal/stream/storage.go: the keys under which streams are stored.
use flin.Prelude.{ℕ, ◌-◌, ◌^◌, ◌++◌, if◌then◌else◌}
use flin.Wire.Outcome.{Bytes}
use flin.Wire.Text.{text, decimal, unsigned}
use flin.Wire.Signed.{signed_lt}

-- `%d` on an int.
unfoldable pub signed : ℕ → Bytes
signed n = if signed_lt n 0 then text "-" ++ unsigned (2 ^ 64 - n) else unsigned n

-- `%020d` on an int64.
unfoldable pub padded : ℕ → Bytes
padded n = if signed_lt n 0 then text "-" ++ decimal 19 (2 ^ 64 - n) else decimal 20 n

unfoldable pub make_message_prefix : Bytes → ℕ → Bytes
make_message_prefix topic partition =
    text "stream:msg:" ++ (topic ++ (text ":" ++ (signed partition ++ text ":")))

unfoldable pub make_message_key : Bytes → ℕ → ℕ → Bytes
make_message_key topic partition offset =
    text "stream:msg:" ++ (topic ++ (text ":" ++ (signed partition ++ (text ":" ++ padded offset))))

unfoldable pub make_offset_key : Bytes → ℕ → Bytes
make_offset_key topic partition = text "stream:offset:" ++ (topic ++ (text ":" ++ signed partition))

unfoldable pub make_consumer_offset_key : Bytes → Bytes → ℕ → Bytes
make_consumer_offset_key group topic partition =
    text "stream:consumer:" ++ (group ++ (text ":" ++ (topic ++ (text ":" ++ signed partition))))

unfoldable pub make_topic_meta_key : Bytes → Bytes
make_topic_meta_key topic = text "stream:meta:" ++ topic

-- The key of a partition in the maps in memory: `%s:%d`.
unfoldable pub partition_key : Bytes → ℕ → Bytes
partition_key topic partition = topic ++ (text ":" ++ signed partition)

-- The key of a group's offset in the cache: `%s:%s:%d`.
unfoldable pub cache_key : Bytes → Bytes → ℕ → Bytes
cache_key group topic partition = group ++ (text ":" ++ (topic ++ (text ":" ++ signed partition)))
