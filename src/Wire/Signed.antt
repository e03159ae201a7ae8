-- ===== src/Wire/Signed.antt =====
-- int64 values as bit patterns.
use flin.Prelude.{ℕ, ◌+◌, ◌-◌, ◌%◌, ◌^◌, Bool, ltb, if◌then◌else◌}

-- `<` on int64.
unfoldable pub signed_lt : ℕ → ℕ → Bool
signed_lt x y = ltb ((x + 2 ^ 63) % 2 ^ 64) ((y + 2 ^ 63) % 2 ^ 64)

-- The distance of an int64 from 0.
unfoldable pub magnitude : ℕ → ℕ
magnitude x = if signed_lt x 0 then 2 ^ 64 - x else x

-- A distance from 0 as an int64 with the sign of `x`.
unfoldable pub with_sign : ℕ → ℕ → ℕ
with_sign x distance = if signed_lt x 0 then (2 ^ 64 - distance) % 2 ^ 64 else distance
