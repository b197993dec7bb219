-- ===== src/Base/Space.antt =====
-- `strings.TrimSpace` on the bytes of a string: the white space of Unicode, by its UTF-8 encodings.
use mathlib.Core.List.{reverse}
use gogguf.Base.Bytes.{Bytes}
use gogguf.Base.Tests.{leb, ◌==◌, if◌then◌else◌}
use Prim.Native.Nat.{ℕ, zero, suc}
use mathlib.Core.Bool.{Bool, ◌&&◌, ◌||◌}
use mathlib.Core.List.{[], ◌∷◌}

-- `unicode.IsSpace` below 0x80.
abbrev pub ascii_space : ℕ → Bool
ascii_space b = leb 9 b && leb b 13 || b == 32

-- The second and third byte of a space whose encoding begins with 0xE1, 0xE2 or 0xE3.
abbrev wide_space : ℕ → ℕ → ℕ → Bool
wide_space a b c =
    a == 0xE1 && b == 0x9A && c == 0x80
    || a == 0xE2 && b == 0x80 && (leb 0x80 c && leb c 0x8A || c == 0xA8 || c == 0xA9 || c == 0xAF)
    || a == 0xE2 && b == 0x81 && c == 0x9F
    || a == 0xE3 && b == 0x80 && c == 0x80

abbrev pair_space : ℕ → ℕ → Bool
pair_space a b = a == 0xC2 && (b == 0x85 || b == 0xA0)

-- The length of the space at the front, 0 if there is none.
unfoldable pub space_len : Bytes → ℕ
space_len [] = 0
space_len (a ∷ []) = if ascii_space a then 1 else 0
space_len (a ∷ b ∷ []) = if ascii_space a then 1 else if pair_space a b then 2 else 0
space_len (a ∷ b ∷ c ∷ _) =
    if ascii_space a then 1 else if pair_space a b then 2 else if wide_space a b c then 3 else 0

-- The same of the reversed bytes.
unfoldable pub space_len_back : Bytes → ℕ
space_len_back [] = 0
space_len_back (a ∷ []) = if ascii_space a then 1 else 0
space_len_back (a ∷ b ∷ []) = if ascii_space a then 1 else if pair_space b a then 2 else 0
space_len_back (a ∷ b ∷ c ∷ _) =
    if ascii_space a then 1 else if pair_space b a then 2 else if wide_space c b a then 3 else 0

-- Drops spaces from the front; `skip` bytes of one are still to go.
unfoldable pub trim_front : (Bytes → ℕ) → ℕ → Bytes → Bytes
trim_front len skip [] = []
trim_front len (suc skip) (b ∷ bs) = trim_front len skip bs
trim_front len zero (b ∷ bs) = elim (len (b ∷ bs)) [
  | zero ↦ b ∷ bs
  | suc skip ↦ trim_front len skip bs
]

unfoldable pub trim_space : Bytes → Bytes
unfolding trim_front space_len space_len_back
trim_space s = reverse (trim_front space_len_back 0 (reverse (trim_front space_len 0 s)))
