-- ===== src/Base/Int.antt =====
-- Signed numbers: the `int` arguments that the code tests for being negative, and `int64` values. `negsuc n`
-- is -(n + 1).
use gogguf.Base.{ℕ, ◌-◌, ◌^◌, ◌≤◌, ◌<◌, ◌≡◌, ltb, if◌then◌else◌, lt→ltb, le→ltb}

pub data ℤ : Type 0 where
  pos : ℕ → ℤ
  negsuc : ℕ → ℤ

-- `if n < 0 { n = 0 }`.
abbrev pub pos_part : ℤ → ℕ
pos_part (pos n) = n
pos_part (negsuc n) = 0

-- The number that the bit pattern of an `int64` stands for.
unfoldable pub signed64 : ℕ → ℤ
signed64 w = if ltb w (2 ^ 63) then pos w else negsuc (2 ^ 64 - w - 1)

pub signed64-pos : (w : ℕ) → w < 2 ^ 63 → signed64 w ≡ pos w
unfolding signed64
signed64-pos w h = rw (lt→ltb w (2 ^ 63) h)

pub signed64-negsuc : (w : ℕ) → 2 ^ 63 ≤ w → signed64 w ≡ negsuc (2 ^ 64 - w - 1)
unfolding signed64
signed64-negsuc w h = rw (le→ltb w (2 ^ 63) h)
