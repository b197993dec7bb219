-- ===== src/Tokenizer/ByteLevel/RoundTrip.antt =====
-- pkg/tokenizer/bytes.go: what `byteEncodeWord` writes, `byteDecodeToken` reads.
use gogguf.Base.{
  ℕ, zero, suc, ◌+◌, ◌-◌, ◌/◌, ◌%◌, ◌≤◌, ◌<◌, ◌≡◌, refl, ap, ◌∙◌, ◌⊎◌, inl, inr, Bool, true, false,
  some, [], ◌∷◌, ◌++◌, arith, ltb, if◌then◌else◌, ltb→lt, Bool-cases, length, length-append,
  drop-length-append, take-length-append, All,
}
use gogguf.Base.Bytes.{Bytes, equal, equal_iff}
use gogguf.Tokenizer.Utf8.{within, is_tail, rune_size}
use gogguf.Tokenizer.ByteLevel.{
  is_kept, added_below, byte_rune, encode_rune, byte_to_unicode, find_byte, unicode_to_byte,
  byte_encode_word, decode_fuel, byte_decode_token,
}

added_below-le : (b : ℕ) → added_below b ≤ b
unfolding added_below
added_below-le zero = omega arith
added_below-le (suc b) = ground (arith, added_below-le b)

added_below_mono : (b d : ℕ) → added_below b ≤ added_below (d + b)
unfolding added_below
added_below_mono b zero = let e : 0 + b ≡ b = omega arith in rw e (omega arith)
added_below_mono b (suc d) =
    let e : suc d + b ≡ suc (d + b) = omega arith in rw e (ground (arith, added_below_mono b d))

added_below-lt : (b c : ℕ) → is_kept b ≡ false → b < c → added_below b < added_below c
added_below-lt b c h l =
    let e : (c - suc b) + suc b ≡ c = omega arith in
    let low : added_below (suc b) ≤ added_below ((c - suc b) + suc b) =
      added_below_mono (suc b) (c - suc b) in
    let low2 : added_below (suc b) ≤ added_below c = rw e at low in
    let next : added_below (suc b) ≡ 1 + added_below b = unfold added_below in rw h refl in
    omega (arith, low2, next)

byte_rune-kept : (b : ℕ) → is_kept b ≡ true → byte_rune b ≡ b
byte_rune-kept b h = unfold byte_rune in rw h refl

byte_rune-added : (b : ℕ) → is_kept b ≡ false → byte_rune b ≡ 256 + added_below b
byte_rune-added b h = unfold byte_rune in rw h refl

byte_rune-lt : (b : ℕ) → b < 256 → byte_rune b < 512
byte_rune-lt b h = elim (Bool-cases (is_kept b)) [
  | inl kept ↦ omega (arith, byte_rune-kept b kept)
  | inr added ↦ omega (arith, byte_rune-added b added, added_below-le b)
]

byte_rune-inj : (b c : ℕ) → b < 256 → c < 256 → byte_rune b ≡ byte_rune c → b ≡ c
byte_rune-inj b c hb hc e = elim (Bool-cases (is_kept b)) [
  | inl kept ↦ elim (Bool-cases (is_kept c)) [
    | inl kept2 ↦ omega (arith, byte_rune-kept b kept, byte_rune-kept c kept2)
    | inr added2 ↦ absurd (omega (arith, byte_rune-kept b kept, byte_rune-added c added2))
  ]
  | inr added ↦ elim (Bool-cases (is_kept c)) [
    | inl kept2 ↦ absurd (omega (arith, byte_rune-added b added, byte_rune-kept c kept2))
    | inr added2 ↦ added-inj added added2
  ]
]
  where
    ltb-cases : (b c : ℕ) → (b < c) ⊎ ((c < b) ⊎ (b ≡ c))
    ltb-cases b c = elim (Bool-cases (ltb b c)) [
      | inl l ↦ inl (ltb→lt b c l)
      | inr n ↦ elim (Bool-cases (ltb c b)) [
        | inl l ↦ inr (inl (ltb→lt c b l))
        | inr m ↦ inr (inr (ground arith))
      ]
    ]

    added-inj : is_kept b ≡ false → is_kept c ≡ false → b ≡ c
    added-inj f g = elim (ltb-cases b c) [
      | inl l ↦
          absurd (omega (arith, added_below-lt b c f l, byte_rune-added b f, byte_rune-added c g))
      | inr (inl l) ↦
          absurd (omega (arith, added_below-lt c b g l, byte_rune-added b f, byte_rune-added c g))
      | inr (inr s) ↦ s
    ]

encode_rune-inj : (r s : ℕ) → encode_rune r ≡ encode_rune s → r ≡ s
encode_rune-inj r s e = elim (Bool-cases (ltb r 0x80)) [
  | inl small ↦ elim (Bool-cases (ltb s 0x80)) [
    | inl small2 ↦ one r s (unfold encode_rune in rw (small, small2) at e)
    | inr big2 ↦
        absurd
          (mixed r (0xC0 + s / 64) (0x80 + s % 64) (unfold encode_rune in rw (small, big2) at e))
  ]
  | inr big ↦ elim (Bool-cases (ltb s 0x80)) [
    | inl small2 ↦
        absurd (
          mixed_back s (0xC0 + r / 64) (0x80 + r % 64)
            (unfold encode_rune in rw (big, small2) at e))
    | inr big2 ↦ two (unfold encode_rune in rw (big, big2) at e)
  ]
]
  where
    one : (x y : ℕ) → x ∷ [] ≡ y ∷ [] → x ≡ y
    one x y h = cc

    mixed_back : (x y z : ℕ) → y ∷ z ∷ [] ≡ x ∷ [] → ⊥
    mixed_back x y z h = cc

    mixed : (x y z : ℕ) → x ∷ [] ≡ y ∷ z ∷ [] → ⊥
    mixed x y z h = cc

    two : (0xC0 + r / 64) ∷ (0x80 + r % 64) ∷ [] ≡ (0xC0 + s / 64) ∷ (0x80 + s % 64) ∷ [] → r ≡ s
    two h =
        let high : 0xC0 + r / 64 ≡ 0xC0 + s / 64 = cc in
        let low : 0x80 + r % 64 ≡ 0x80 + s % 64 = cc in omega (arith, high, low)

byte_to_unicode-inj : (b c : ℕ) → b < 256 → c < 256 → byte_to_unicode b ≡ byte_to_unicode c → b ≡ c
byte_to_unicode-inj b c hb hc e =
    byte_rune-inj b c hb hc
      (encode_rune-inj (byte_rune b) (byte_rune c) (unfold byte_to_unicode in e))

-- The search finds the byte, and only it.
find_byte-some : (n b : ℕ) → n ≤ 256 → b < n → find_byte n (byte_to_unicode b) ≡ some b
find_byte-some zero b h l = absurd (omega arith)
find_byte-some (suc n) b h l = elim (Bool-cases (equal (byte_to_unicode n) (byte_to_unicode b))) [
  | inl same ↦
      let e : n ≡ b =
        byte_to_unicode-inj n b (omega (arith)) (omega (arith))
          ((equal_iff (byte_to_unicode n) (byte_to_unicode b)).0 same) in
      now n b same ∙ ap some e
  | inr other ↦ later n b other ∙ find_byte-some n b (omega arith) (below other)
]
  where
    now :
        (n b : ℕ)
        → equal (byte_to_unicode n) (byte_to_unicode b) ≡ true
        → find_byte (suc n) (byte_to_unicode b) ≡ some n
    now n b e = unfold find_byte in rw e refl

    later :
        (n b : ℕ)
        → equal (byte_to_unicode n) (byte_to_unicode b) ≡ false
        → find_byte (suc n) (byte_to_unicode b) ≡ find_byte n (byte_to_unicode b)
    later n b e = unfold find_byte in rw (e, find_byte) refl

    bad : {t : Bool} → t ≡ true → t ≡ false → ⊥
    bad e f = cc

    below : equal (byte_to_unicode n) (byte_to_unicode b) ≡ false → b < n
    below e = elim (Bool-cases (ltb b n)) [
      | inl less ↦ ltb→lt b n less
      | inr reached ↦
          let same : b ≡ n = ground arith in
          let f : equal (byte_to_unicode n) (byte_to_unicode n) ≡ false = rw same at e in
          absurd (bad ((equal_iff (byte_to_unicode n) (byte_to_unicode n)).1 refl) f)
    ]

unicode_to_byte-byte_to_unicode : (b : ℕ) → b < 256 → unicode_to_byte (byte_to_unicode b) ≡ some b
unicode_to_byte-byte_to_unicode b h = unfold unicode_to_byte in find_byte-some 256 b (omega arith) h

-- The string of a byte is one rune, whatever follows.
byte_to_unicode-rune :
    (b : ℕ) (s : Bytes) → b < 256 → rune_size (byte_to_unicode b ++ s) ≡ length (byte_to_unicode b)
byte_to_unicode-rune b s h = elim (Bool-cases (ltb (byte_rune b) 0x80)) [
  | inl small ↦
      rw (byte_to_unicode-eq b, small) (ascii (byte_rune b) s (ltb→lt (byte_rune b) 0x80 small))
  | inr big ↦ rw (byte_to_unicode-eq b, big) (two (byte_rune b) s (byte_rune-lt b h) big)
]
  where
    byte_to_unicode-eq :
        (b : ℕ)
        → byte_to_unicode b ≡ (
            if ltb (byte_rune b) 0x80
            then byte_rune b ∷ []
            else (0xC0 + byte_rune b / 64) ∷ (0x80 + byte_rune b % 64) ∷ [])
    byte_to_unicode-eq b = unfold byte_to_unicode encode_rune in refl

    ascii : (r : ℕ) (s : Bytes) → r < 0x80 → rune_size (r ∷ s) ≡ 1
    ascii r [] h = unfold rune_size in refl
    ascii r (a ∷ []) h = unfold rune_size in ground arith
    ascii r (a ∷ b ∷ []) h = unfold rune_size in ground arith
    ascii r (a ∷ b ∷ c ∷ s) h = unfold rune_size in ground arith

    pair :
        (a b : ℕ) (s : Bytes)
        → within 0xC2 0xDF a ≡ true
        → is_tail b ≡ true
        → rune_size (a ∷ b ∷ s) ≡ 2
    pair a b [] x y = unfold rune_size in rw (x, y) refl
    pair a b (c ∷ []) x y = unfold rune_size in rw (x, y) refl
    pair a b (c ∷ d ∷ s) x y = unfold rune_size in rw (x, y) refl

    two :
        (r : ℕ) (s : Bytes)
        → r < 512
        → ltb r 0x80 ≡ false
        → rune_size ((0xC0 + r / 64) ∷ (0x80 + r % 64) ∷ s) ≡ 2
    two r s h l =
        let x : within 0xC2 0xDF (0xC0 + r / 64) ≡ true = ground arith in
        let y : is_tail (0x80 + r % 64) ≡ true = ground arith in
        pair (0xC0 + r / 64) (0x80 + r % 64) s x y

byte_to_unicode-pos : (b : ℕ) → 0 < length (byte_to_unicode b)
byte_to_unicode-pos b = unfold byte_to_unicode encode_rune in ground arith

decode_fuel-cons :
    (fuel b : ℕ) (t s out : Bytes)
    → 0 < length t
    → rune_size (t ++ s) ≡ length t
    → unicode_to_byte t ≡ some b
    → decode_fuel fuel s ≡ some out
    → decode_fuel (suc fuel) (t ++ s) ≡ some (b ∷ out)
decode_fuel-cons fuel b [] s out p r u run = absurd (omega arith)
decode_fuel-cons fuel b (c ∷ cs) s out p r u run =
    unfold decode_fuel in
    rw (r, drop-length-append cs s, run, r, take-length-append cs s, u, decode_fuel) refl

-- One round of the decoder reads one byte back.
decode_fuel-byte :
    (fuel b : ℕ) (s out : Bytes)
    → b < 256
    → decode_fuel fuel s ≡ some out
    → decode_fuel (suc fuel) (byte_to_unicode b ++ s) ≡ some (b ∷ out)
decode_fuel-byte fuel b s out h run =
    decode_fuel-cons fuel b (byte_to_unicode b) s out (byte_to_unicode-pos b)
      (byte_to_unicode-rune b s h) (unicode_to_byte-byte_to_unicode b h) run

decode_fuel-encode :
    (w : Bytes) (fuel : ℕ)
    → All (λ b. b < 256) w
    → length (byte_encode_word w) < fuel
    → decode_fuel fuel (byte_encode_word w) ≡ some w
decode_fuel-encode w zero h l = absurd (omega arith)
decode_fuel-encode [] (suc fuel) h l = unfold byte_encode_word decode_fuel in refl
decode_fuel-encode (b ∷ w) (suc fuel) (h, hs) l =
    let e : byte_encode_word (b ∷ w) ≡ byte_to_unicode b ++ byte_encode_word w =
      unfold byte_encode_word in refl in
    let less : length (byte_encode_word w) < fuel = omega (
      arith,
      l,
      ap length e,
      length-append (byte_to_unicode b) (byte_encode_word w),
      byte_to_unicode-pos b,
    ) in
    rw e (decode_fuel-byte fuel b (byte_encode_word w) w h (decode_fuel-encode w fuel hs less))

-- `byteDecodeToken` gives back every word of bytes that `byteEncodeWord` wrote.
pub byte_decode_token-byte_encode_word :
    (w : Bytes) → All (λ b. b < 256) w → byte_decode_token (byte_encode_word w) ≡ some w
byte_decode_token-byte_encode_word w h =
    unfold byte_decode_token in
    decode_fuel-encode w (suc (length (byte_encode_word w))) h (omega arith)
