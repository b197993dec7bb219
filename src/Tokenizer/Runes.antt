-- ===== src/Tokenizer/Runes.antt =====
-- Go's conversions between a string and its runes, as far as pkg/tokenizer/pretokenize.go uses them:
-- `[]rune(text)` and `string(runes)`. A byte that begins no valid encoding is read as U+FFFD.
pub mod RoundTrip
use gogguf.Base.{
  ℕ, zero, suc, ◌+◌, ◌-◌, ◌*◌, ◌/◌, ◌%◌, Bool, ◌&&◌, ◌||◌, List, [], ◌∷◌, ◌++◌, ltb, if◌then◌else◌,
  length, drop,
}
use gogguf.Base.Bytes.{Bytes}
use gogguf.Tokenizer.Utf8.{within, is_tail, second_of_three, second_of_four, rune_size}

abbrev pub one_byte : ℕ → ℕ
one_byte a = if ltb a 0x80 then a else 0xFFFD

abbrev pub two_bytes : ℕ → ℕ → ℕ
two_bytes a b = (a - 0xC0) * 64 + (b - 0x80)

abbrev pub three_bytes : ℕ → ℕ → ℕ → ℕ
three_bytes a b c = (a - 0xE0) * 4096 + (b - 0x80) * 64 + (c - 0x80)

abbrev pub four_bytes : ℕ → ℕ → ℕ → ℕ → ℕ
four_bytes a b c d = (a - 0xF0) * 262144 + (b - 0x80) * 4096 + (c - 0x80) * 64 + (d - 0x80)

-- The first rune of a string that is not empty.
unfoldable pub first_rune : Bytes → ℕ
first_rune (a ∷ b ∷ c ∷ d ∷ _) =
    if within 0xC2 0xDF a && is_tail b
    then two_bytes a b
    else if second_of_three a b && is_tail c
    then three_bytes a b c
    else if second_of_four a b && is_tail c && is_tail d
    then four_bytes a b c d
    else one_byte a
first_rune (a ∷ b ∷ c ∷ []) =
    if within 0xC2 0xDF a && is_tail b
    then two_bytes a b
    else if second_of_three a b && is_tail c
    then three_bytes a b c
    else one_byte a
first_rune (a ∷ b ∷ []) = if within 0xC2 0xDF a && is_tail b then two_bytes a b else one_byte a
first_rune (a ∷ []) = one_byte a
first_rune [] = 0xFFFD

unfoldable pub runes_fuel : ℕ → Bytes → List ℕ
unfolding first_rune
runes_fuel zero s = []
runes_fuel (suc fuel) [] = []
runes_fuel (suc fuel) (c ∷ cs) =
    first_rune (c ∷ cs) ∷ runes_fuel fuel (drop (rune_size (c ∷ cs)) (c ∷ cs))

-- `[]rune(s)`; every rune takes at least one byte.
unfoldable pub runes : Bytes → List ℕ
unfolding runes_fuel
runes s = runes_fuel (length s) s

-- The encoding of a rune, U+FFFD for a number that is none.
unfoldable pub put_rune : ℕ → Bytes
put_rune r =
    if ltb r 0x80
    then r ∷ []
    else if ltb r 0x800
    then (0xC0 + r / 64) ∷ (0x80 + r % 64) ∷ []
    else if within 0xD800 0xDFFF r || ltb 0x10FFFF r
    then 0xEF ∷ 0xBF ∷ 0xBD ∷ []
    else if ltb r 0x10000
    then (0xE0 + r / 4096) ∷ (0x80 + r / 64 % 64) ∷ (0x80 + r % 64) ∷ []
    else (0xF0 + r / 262144) ∷ (0x80 + r / 4096 % 64) ∷ (0x80 + r / 64 % 64) ∷ (0x80 + r % 64) ∷ []

-- `string(rs)`.
unfoldable pub string_of : List ℕ → Bytes
unfolding put_rune
string_of [] = []
string_of (r ∷ rs) = put_rune r ++ string_of rs
