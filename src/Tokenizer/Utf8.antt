-- ===== src/Tokenizer/Utf8.antt =====
-- `utf8.DecodeRuneInString` as far as the code uses its size, and `utf8Symbols` of tokenizer.go.
use gogguf.Base.{
  ℕ, zero, suc, ◌≤◌, ◌<◌, ◌≡◌, refl, ap, ◌∙◌, Bool, ◌&&◌, ◌||◌, Option, none, some, List, [], ◌∷◌,
  ◌++◌, arith, leb, ◌==◌, if◌then◌else◌, length, take, drop, length-drop, take-append-drop,
}
use gogguf.Base.Bytes.{Bytes, join}

abbrev pub within : ℕ → ℕ → ℕ → Bool
within lo hi c = leb lo c && leb c hi

abbrev pub is_tail : ℕ → Bool
is_tail = within 0x80 0xBF

-- The second byte that the first one allows.
abbrev pub second_of_three : ℕ → ℕ → Bool
second_of_three a b =
    a == 0xE0 && within 0xA0 0xBF b
    || (within 0xE1 0xEC a || within 0xEE 0xEF a) && is_tail b
    || a == 0xED && within 0x80 0x9F b

abbrev pub second_of_four : ℕ → ℕ → Bool
second_of_four a b =
    a == 0xF0 && within 0x90 0xBF b
    || within 0xF1 0xF3 a && is_tail b
    || a == 0xF4 && within 0x80 0x8F b

-- The size of the first rune, which is 1 where the bytes are no valid encoding.
unfoldable pub rune_size : Bytes → ℕ
rune_size (a ∷ b ∷ c ∷ d ∷ _) =
    if within 0xC2 0xDF a && is_tail b
    then 2
    else if second_of_three a b && is_tail c
    then 3
    else if second_of_four a b && is_tail c && is_tail d
    then 4
    else 1
rune_size (a ∷ b ∷ c ∷ []) =
    if within 0xC2 0xDF a && is_tail b then 2 else if second_of_three a b && is_tail c then 3 else 1
rune_size (a ∷ b ∷ []) = if within 0xC2 0xDF a && is_tail b then 2 else 1
rune_size _ = 1

pub rune_size_pos : (s : Bytes) → 0 < rune_size s
unfolding rune_size
rune_size_pos (a ∷ b ∷ c ∷ d ∷ s) = ground arith
rune_size_pos (a ∷ b ∷ c ∷ []) = ground arith
rune_size_pos (a ∷ b ∷ []) = ground arith
rune_size_pos _ = omega arith

-- The loop of `utf8Symbols`.
unfoldable pub symbols_fuel : ℕ → Bytes → Option (List Bytes)
symbols_fuel zero s = none
symbols_fuel (suc fuel) [] = some []
symbols_fuel (suc fuel) (c ∷ cs) =
    let n = rune_size (c ∷ cs) in
    elim (symbols_fuel fuel (drop n (c ∷ cs))) [
      | none ↦ none
      | some more ↦ some (take n (c ∷ cs) ∷ more)
    ]

unfoldable pub utf8_symbols : Bytes → Option (List Bytes)
unfolding symbols_fuel
utf8_symbols s = symbols_fuel (suc (length s)) s

symbols_fuel-join :
    (fuel : ℕ) (s : Bytes)
    → length s < fuel
    → (out : List Bytes) × (symbols_fuel fuel s ≡ some out)
      × (join out ≡ s)
      × (length out ≤ length s)
symbols_fuel-join zero s h = absurd (omega arith)
symbols_fuel-join (suc fuel) [] h = ([], (unfold symbols_fuel in refl), refl, omega arith)
symbols_fuel-join (suc fuel) (c ∷ cs) h =
    let n = rune_size (c ∷ cs) in
    let shorter = length-drop n (c ∷ cs) in
    let (out, run, whole, few) =
      symbols_fuel-join fuel (drop n (c ∷ cs)) (omega (arith, shorter, rune_size_pos (c ∷ cs))) in
    (
      take n (c ∷ cs) ∷ out,
      step fuel c cs out run,
      ap (λ t. take n (c ∷ cs) ++ t) whole ∙ take-append-drop n (c ∷ cs),
      omega (arith, shorter, rune_size_pos (c ∷ cs)),
    )
  where
    step :
        (fuel c : ℕ) (cs : Bytes) (out : List Bytes)
        → symbols_fuel fuel (drop (rune_size (c ∷ cs)) (c ∷ cs)) ≡ some out
        → symbols_fuel (suc fuel) (c ∷ cs) ≡ some (take (rune_size (c ∷ cs)) (c ∷ cs) ∷ out)
    step fuel c cs out e = unfold symbols_fuel in rw (e, symbols_fuel)

-- The symbols of a text, one behind the other, are the text; every text has them.
pub utf8_symbols-join :
    (s : Bytes)
    → (out : List Bytes) × (utf8_symbols s ≡ some out) × (join out ≡ s) × (length out ≤ length s)
unfolding utf8_symbols
utf8_symbols-join s = symbols_fuel-join (suc (length s)) s (omega arith)
