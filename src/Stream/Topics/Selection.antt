-- ===== src/Stream/Topics/Selection.antt =====
-- Where a published message goes.
use flin.Prelude.{ℕ, ◌%◌, ltb, [], ◌∷◌, if◌then◌else◌}
use flin.Wire.Outcome.{Bytes}

-- What decides where the client names no partition of the topic: its key, or the clock.
abbrev pub decisive : (Bytes → ℕ) → ℕ → Bytes → ℕ
decisive sum32 unix_nano [] = unix_nano
decisive sum32 unix_nano (x ∷ xs) = sum32 (x ∷ xs)

-- The partition that the client names, if the topic has it, and the remainder of what decides if not.
unfoldable pub meant_partition : (Bytes → ℕ) → ℕ → ℕ → Bytes → ℕ → ℕ
meant_partition sum32 unix_nano partition key partitions =
    if ltb partition partitions then partition else decisive sum32 unix_nano key % partitions
