-- ===== src/Tokenizer/Runes/RoundTrip.antt =====
-- A string of valid UTF-8 is the string of its runes.
use gogguf.Base.{
  ℕ, zero, suc, ◌+◌, ◌*◌, ◌/◌, ◌%◌, ◌≤◌, ◌<◌, ◌≡◌, refl, sym, ap, ◌∙◌, ◌⊎◌, inl, inr, true, false,
  ◌&&◌, ◌||◌, List, [], ◌∷◌, ◌++◌, append_assoc, arith, ltb, ltb→lt, ltb→le, Bool-cases, length,
  drop, length-append, drop-append_exact, All,
}
use gogguf.Base.Bytes.{Bytes}
use gogguf.Tokenizer.Utf8.{within, is_tail, second_of_three, second_of_four, rune_size}
use gogguf.Tokenizer.Runes.{
  two_bytes, three_bytes, four_bytes, first_rune, runes_fuel, runes, put_rune, string_of,
}

-- The numbers that are runes of Unicode text.
abbrev pub IsScalar : ℕ → Type 0
IsScalar r = (r < 0xD800) ⊎ ((0xE000 ≤ r) × (r < 0x110000))

-- The first rune of a string, and its size.
abbrev IsFirst : ℕ → ℕ → Bytes → Type 0
IsFirst r n s = (rune_size s ≡ n) × (first_rune s ≡ r)

one-IsFirst : (a : ℕ) (s : Bytes) → a < 0x80 → IsFirst a 1 (a ∷ s)
unfolding rune_size first_rune
one-IsFirst a [] h = (refl, ground arith)
one-IsFirst a (b ∷ []) h = (ground arith, ground arith)
one-IsFirst a (b ∷ c ∷ []) h = (ground arith, ground arith)
one-IsFirst a (b ∷ c ∷ d ∷ s) h = (ground arith, ground arith)

two-IsFirst :
    (a b : ℕ) (s : Bytes)
    → (within 0xC2 0xDF a && is_tail b) ≡ true
    → IsFirst (two_bytes a b) 2 (a ∷ b ∷ s)
unfolding rune_size first_rune
two-IsFirst a b [] h = rw (h, rune_size) (refl, refl)
two-IsFirst a b (c ∷ []) h = rw h (refl, refl)
two-IsFirst a b (c ∷ d ∷ s) h = rw h (refl, refl)

three-IsFirst :
    (a b c : ℕ) (s : Bytes)
    → (within 0xC2 0xDF a && is_tail b) ≡ false
    → (second_of_three a b && is_tail c) ≡ true
    → IsFirst (three_bytes a b c) 3 (a ∷ b ∷ c ∷ s)
unfolding rune_size first_rune
three-IsFirst a b c [] h k = rw (h, k) (refl, refl)
three-IsFirst a b c (d ∷ s) h k = rw (h, k) (refl, refl)

four-IsFirst :
    (a b c d : ℕ) (s : Bytes)
    → (within 0xC2 0xDF a && is_tail b) ≡ false
    → (second_of_three a b && is_tail c) ≡ false
    → (second_of_four a b && is_tail c && is_tail d) ≡ true
    → IsFirst (four_bytes a b c d) 4 (a ∷ b ∷ c ∷ d ∷ s)
unfolding rune_size first_rune
four-IsFirst a b c d s h k m = rw (h, k, m) (refl, refl)

-- Three digits to the base 64, the first one above 0x1F or not.
put_three :
    (r x y z : ℕ) (s : Bytes)
    → r ≡ x * 4096 + y * 64 + z
    → x < 16
    → y < 64
    → z < 64
    → 0x800 ≤ r
    → IsScalar r
    → IsFirst r 3 ((0xE0 + x) ∷ (0x80 + y) ∷ (0x80 + z) ∷ s)
put_three r x y z s e hx hy hz big h =
    let two : (within 0xC2 0xDF (0xE0 + x) && is_tail (0x80 + y)) ≡ false = ground arith in
    let three : (second_of_three (0xE0 + x) (0x80 + y) && is_tail (0x80 + z)) ≡ true =
      ground (arith, h) in
    let value : three_bytes (0xE0 + x) (0x80 + y) (0x80 + z) ≡ r = omega (arith, e) in
    let (size, first) = three-IsFirst (0xE0 + x) (0x80 + y) (0x80 + z) s two three in
    (size, first ∙ value)

put_four :
    (r w x y z : ℕ) (s : Bytes)
    → r ≡ w * 262144 + x * 4096 + y * 64 + z
    → x < 64
    → y < 64
    → z < 64
    → 0x10000 ≤ r
    → r < 0x110000
    → IsFirst r 4 ((0xF0 + w) ∷ (0x80 + x) ∷ (0x80 + y) ∷ (0x80 + z) ∷ s)
put_four r w x y z s e hx hy hz big small =
    let few : w ≤ 4 = omega (arith, e) in
    let two : (within 0xC2 0xDF (0xF0 + w) && is_tail (0x80 + x)) ≡ false = ground arith in
    let three : (second_of_three (0xF0 + w) (0x80 + x) && is_tail (0x80 + y)) ≡ false =
      ground arith in
    let four : (second_of_four (0xF0 + w) (0x80 + x) && is_tail (0x80 + y) && is_tail (0x80 + z))
        ≡ true =
      ground (arith, e) in
    let value : four_bytes (0xF0 + w) (0x80 + x) (0x80 + y) (0x80 + z) ≡ r = omega (arith, e) in
    let (size, first) = four-IsFirst (0xF0 + w) (0x80 + x) (0x80 + y) (0x80 + z) s two three four in
    (size, first ∙ value)

put_two :
    (r x y : ℕ) (s : Bytes)
    → r ≡ x * 64 + y
    → y < 64
    → 0x80 ≤ r
    → r < 0x800
    → IsFirst r 2 ((0xC0 + x) ∷ (0x80 + y) ∷ s)
put_two r x y s e hy big small =
    let two : (within 0xC2 0xDF (0xC0 + x) && is_tail (0x80 + y)) ≡ true = ground (arith, e) in
    let value : two_bytes (0xC0 + x) (0x80 + y) ≡ r = omega (arith, e) in
    let (size, first) = two-IsFirst (0xC0 + x) (0x80 + y) s two in (size, first ∙ value)

-- The encoding of a rune is read as this rune, whatever follows.
put_rune-IsFirst :
    (r : ℕ) (s : Bytes) → IsScalar r → IsFirst r (length (put_rune r)) (put_rune r ++ s)
unfolding put_rune
put_rune-IsFirst r s h = elim (Bool-cases (ltb r 0x80)) [
  | inl one ↦ rw one (one-IsFirst r s (ltb→lt r 0x80 one))
  | inr more ↦ elim (Bool-cases (ltb r 0x800)) [
    | inl two ↦
        rw (more, two)
          (put_two r (r / 64) (r % 64) s (omega arith) (omega arith) (ltb→le r 0x80 more)
            (ltb→lt r 0x800 two))
    | inr many ↦
        let scalar : (within 0xD800 0xDFFF r || ltb 0x10FFFF r) ≡ false = ground (arith, h) in
        elim (Bool-cases (ltb r 0x10000)) [
          | inl three ↦
              rw (more, many, scalar, three)
                (put_three r (r / 4096) (r / 64 % 64) (r % 64) s (omega arith)
                  (omega (arith, ltb→lt r 0x10000 three)) (omega arith) (omega arith)
                  (ltb→le r 0x800 many) h)
          | inr four ↦
              rw (more, many, scalar, four)
                (put_four r (r / 262144) (r / 4096 % 64) (r / 64 % 64) (r % 64) s (omega arith)
                  (omega arith) (omega arith) (omega arith) (ltb→le r 0x10000 four)
                  (ground (arith, h)))
        ]
  ]
]

pub put_rune-pos : (r : ℕ) → 0 < length (put_rune r)
unfolding put_rune
put_rune-pos r = ground arith

runes_fuel-step :
    (fuel : ℕ) (s : Bytes)
    → 0 < length s
    → runes_fuel (suc fuel) s ≡ first_rune s ∷ runes_fuel fuel (drop (rune_size s) s)
unfolding runes_fuel
runes_fuel-step fuel [] h = absurd (omega arith)
runes_fuel-step fuel (c ∷ cs) h = refl

runes_fuel-cons :
    (fuel r : ℕ) (s : Bytes)
    → IsScalar r
    → runes_fuel (suc fuel) (put_rune r ++ s) ≡ r ∷ runes_fuel fuel s
runes_fuel-cons fuel r s h =
    let (size, first) = put_rune-IsFirst r s h in
    let there : 0 < length (put_rune r ++ s) =
      omega (arith, length-append (put_rune r) s, put_rune-pos r) in
    runes_fuel-step fuel (put_rune r ++ s) there
    ∙ ap (λ q. q ∷ runes_fuel fuel (drop (rune_size (put_rune r ++ s)) (put_rune r ++ s))) first
    ∙ ap (λ n. r ∷ runes_fuel fuel (drop n (put_rune r ++ s))) size
    ∙ ap (λ t. r ∷ runes_fuel fuel t) (drop-append_exact _ (put_rune r) s refl)

runes_fuel-string_of :
    (fuel : ℕ) (rs : List ℕ)
    → length (string_of rs) ≤ fuel
    → All IsScalar rs
    → runes_fuel fuel (string_of rs) ≡ rs
unfolding string_of
runes_fuel-string_of zero [] le h = unfold runes_fuel in refl
runes_fuel-string_of (suc fuel) [] le h = unfold runes_fuel in refl
runes_fuel-string_of zero (r ∷ rs) le h =
    absurd (omega (arith, length-append (put_rune r) (string_of rs), put_rune-pos r))
runes_fuel-string_of (suc fuel) (r ∷ rs) le h =
    let shorter : length (string_of rs) ≤ fuel =
      omega (arith, length-append (put_rune r) (string_of rs), put_rune-pos r) in
    runes_fuel-cons fuel r (string_of rs) h.0
    ∙ ap (λ ts. r ∷ ts) (runes_fuel-string_of fuel rs shorter h.1)

-- A string of valid UTF-8 has the runes that it was made of.
pub runes-string_of : (rs : List ℕ) → All IsScalar rs → runes (string_of rs) ≡ rs
unfolding runes
runes-string_of rs h = runes_fuel-string_of (length (string_of rs)) rs (omega arith) h

pub string_of-append : (rs ss : List ℕ) → string_of (rs ++ ss) ≡ string_of rs ++ string_of ss
unfolding string_of
string_of-append [] ss = refl
string_of-append (r ∷ rs) ss =
    ap (λ t. put_rune r ++ t) (string_of-append rs ss)
    ∙ sym (append_assoc (put_rune r) (string_of rs) (string_of ss))
