-- ===== src/Jinja/Runtime/Numbers.antt =====
-- pkg/chat/jinja/runtime.go: the arithmetic of int in `%` and `range`, without a bound.
use gogguf.Base.{
  ℕ, zero, suc, ◌+◌, ◌-◌, ◌%◌, Bool, true, false, List, [], ◌∷◌, ltb, leb, if◌then◌else◌,
}
use gogguf.Base.Int.{ℤ, pos, negsuc, pos_part}

infixl 6 ◌+ℤ◌
abbrev pub ◌+ℤ◌ : ℤ → ℤ → ℤ
pos a +ℤ pos b = pos (a + b)
pos a +ℤ negsuc b = if leb (suc b) a then pos (a - suc b) else negsuc (b - a)
negsuc a +ℤ pos b = if leb (suc a) b then pos (b - suc a) else negsuc (a - b)
negsuc a +ℤ negsuc b = negsuc (suc (a + b))

unfoldable pub neg_int : ℤ → ℤ
neg_int (pos zero) = pos 0
neg_int (pos (suc n)) = negsuc n
neg_int (negsuc n) = pos (suc n)

unfoldable pub lt_int : ℤ → ℤ → Bool
lt_int (pos a) (pos b) = ltb a b
lt_int (pos a) (negsuc b) = false
lt_int (negsuc a) (pos b) = true
lt_int (negsuc a) (negsuc b) = ltb b a

abbrev pub magnitude : ℤ → ℕ
magnitude (pos n) = n
magnitude (negsuc n) = suc n

-- Go's `%`, for a divisor that is not 0: the sign is the dividend's.
unfoldable pub rem_int : ℤ → ℤ → ℤ
unfolding neg_int
rem_int (pos a) b = pos (a % magnitude b)
rem_int (negsuc a) b = neg_int (pos (suc a % magnitude b))

-- `max(to - from, 0)`, which no loop of `evalRange` exceeds.
unfoldable pub distance : ℤ → ℤ → ℕ
unfolding neg_int
distance from to = pos_part (to +ℤ neg_int from)

-- `for i := start; i < end; i += step`.
unfoldable pub count_up : ℕ → ℤ → ℤ → ℤ → List ℤ
unfolding lt_int
count_up zero i end step = []
count_up (suc f) i end step =
    let rest = count_up f (i +ℤ step) end step in if lt_int i end then i ∷ rest else []

-- `for i := start; i > end; i += step`.
unfoldable pub count_down : ℕ → ℤ → ℤ → ℤ → List ℤ
unfolding lt_int
count_down zero i end step = []
count_down (suc f) i end step =
    let rest = count_down f (i +ℤ step) end step in if lt_int end i then i ∷ rest else []
