-- ===== src/Mempool/Arena.antt =====
-- pkg/model/mempool/arena.go: `Arena`, a slab from which buffers are carved. A slice is its content
-- when it is handed out.
pub mod Disjoint
use gogguf.Base.{
  ℕ, ◌+◌, ◌-◌, ◌*◌, max, List, [], ◌++◌, length, take, drop, replicate, ltb, if◌then◌else◌,
}
use gogguf.Base.Int.{ℤ, pos, negsuc, pos_part}

pub record Arena {ℓ} (A : Type ℓ) : Type ℓ where
  pub buf : List A
  pub off : ℕ

module _ {ℓ} {A : Type ℓ} (zero_value : A) where
  unfoldable pub new_arena : ℤ → Arena A
  new_arena capacity = record { buf = replicate (pos_part capacity) zero_value; off = 0 }

  -- The capacity of the new slab when `n` more elements do not fit.
  unfoldable pub grown_cap : Arena A → ℕ → ℕ
  grown_cap a n = max (max (length a.buf * 2) (a.off + n)) 64

  -- A new slab that begins with what was handed out of the old one.
  unfoldable pub grow : Arena A → ℕ → Arena A
  unfolding grown_cap
  grow a n = record a {
    buf = take a.off a.buf ++ replicate (grown_cap a n - length (take a.off a.buf)) zero_value;
  }

  unfoldable pub carve : Arena A → ℕ → Arena A × List A
  carve a n = (record a { off = a.off + n }, take n (drop a.off a.buf))

  unfoldable pub alloc : Arena A → ℤ → Arena A × List A
  unfolding grow carve
  alloc a (negsuc _) = (a, [])
  alloc a (pos n) =
      if ltb 0 n
      then (if ltb (length a.buf) (a.off + n) then carve (grow a n) n else carve a n)
      else (a, [])

  unfoldable pub reset : Arena A → Arena A
  reset a = record a { off = 0 }

-- `Cap` and `Used`.
unfoldable pub cap_of {ℓ} : {A : Type ℓ} → Arena A → ℕ
cap_of a = length a.buf

unfoldable pub used {ℓ} : {A : Type ℓ} → Arena A → ℕ
used a = a.off
