-- ===== src/Queue/Keys.antt =====
-- internal/queue/storage.go: the keys under which a queue is stored.
use mathlib.Core.List.{tail-eq_of_cons-eq}
use flin.Prelude.{ℕ, ◌^◌, ◌<◌, ◌≡◌, ◌≢◌, ap, ◌++◌, length, ltb, if◌then◌else◌, arith}
use flin.Wire.Outcome.{Bytes}
use flin.Wire.Text.{text, decimal, length-decimal, decimal-injective, append-cancel, byte_at}

unfoldable pub metadata_key : Bytes → Bytes
metadata_key queue_name = text "queue:meta:" ++ queue_name

unfoldable pub data_key : Bytes → ℕ → Bytes
data_key queue_name seq_id = text "queue:data:" ++ (queue_name ++ (text ":" ++ decimal 20 seq_id))

unfoldable pub message_key : Bytes → Bytes → Bytes
message_key queue_name message_id = text "queue:msg:" ++ (queue_name ++ (text ":" ++ message_id))

-- `%d` on a number below 1000: a state is read from one byte.
unfoldable pub state_text : ℕ → Bytes
state_text n = if ltb n 10 then decimal 1 n else if ltb n 100 then decimal 2 n else decimal 3 n

-- `queue:idx:%s:%d:`
unfoldable pub message_index_prefix : Bytes → ℕ → Bytes
message_index_prefix queue_name state =
    text "queue:idx:" ++ (queue_name ++ (text ":" ++ (state_text state ++ text ":")))

unfoldable pub message_index_key : Bytes → ℕ → Bytes → Bytes
message_index_key queue_name state message_id =
    text "queue:idx:"
    ++ (queue_name ++ (text ":" ++ (state_text state ++ (text ":" ++ message_id))))

unfoldable pub queue_config_key : Bytes → Bytes
queue_config_key queue_name = text "queue:config:" ++ queue_name

-- Keys of items are the same only for the same queue and the same 64-bit position.
pub data_key-injective :
    (p q : Bytes) (i j : ℕ)
    → i < 2 ^ 64
    → j < 2 ^ 64
    → data_key p i ≡ data_key q j
    → (p ≡ q) × (i ≡ j)
unfolding data_key
data_key-injective p q i j hi hj e =
    let body : p ++ (text ":" ++ decimal 20 i) ≡ q ++ (text ":" ++ decimal 20 j) = cc in
    let same : length (text ":" ++ decimal 20 i) ≡ length (text ":" ++ decimal 20 j) =
      omega (arith, length-decimal 20 i, length-decimal 20 j) in
    let (names, ends) = append-cancel p q _ _ same body in
    (names, decimal-injective 20 i j (omega arith) (omega arith) (tail-eq_of_cons-eq ends))

-- No queue's metadata stands under the key of an item.
pub metadata_key-ne-data_key : (p q : Bytes) (j : ℕ) → metadata_key p ≢ data_key q j
unfolding metadata_key data_key byte_at
metadata_key-ne-data_key p q j e = omega (arith, ap (byte_at 6) e)

pub metadata_key-injective : (p q : Bytes) → metadata_key p ≡ metadata_key q → p ≡ q
unfolding metadata_key
metadata_key-injective p q e = cc
