-- ===== src/Tokenizer/Pretokenize/Pieces.antt =====
-- pkg/tokenizer/pretokenize.go: every round of `pretokenizeQwen2` takes a piece that is there.
use gogguf.Base.{
  ℕ, zero, suc, ◌+◌, ◌≤◌, ◌<◌, ◌≡◌, refl, sym, ap, map, length-append, ◌∙◌, inl, inr, true, Option,
  some, List, [], ◌∷◌, ◌++◌, arith, leb, if◌then◌else◌, Bool-cases, length, take, drop, length-take,
  length-drop, take-append-drop, All,
}
use mathlib.Core.Path.{subst}
use gogguf.Base.Bytes.{Bytes, join}
use gogguf.Tokenizer.Runes.{runes, put_rune, string_of}
use gogguf.Tokenizer.Runes.RoundTrip.{IsScalar, put_rune-pos, string_of-append, runes-string_of}
use gogguf.Tokenizer.Pretokenize.{
  CptFlags, is_newline, newline_len, is_plain, contraction, letters_len, plain_len, space_len,
  last_rn, plain_piece, space_piece, piece_len, round, pieces_fuel, pretokenize_runes,
  pretokenize_qwen2,
}

newline_len-le : (cs : List ℕ) → newline_len cs ≤ length cs
unfolding newline_len
newline_len-le [] = omega arith
newline_len-le (c ∷ cs) = ground (arith, newline_len-le cs)

leb_of : (m n : ℕ) → m ≤ n → leb m n ≡ true
leb_of m n h = ground arith

string_of-pos : (p : List ℕ) → 0 < length p → 0 < length (string_of p)
unfolding string_of
string_of-pos [] h = absurd (omega arith)
string_of-pos (r ∷ rs) h = omega (arith, put_rune-pos r, length-append (put_rune r) (string_of rs))

-- The sizes that a round may have.
abbrev pub Fits : ℕ → List ℕ → Type 0
Fits n cs = (0 < n) × (n ≤ length cs)

module _ (flags_for : ℕ → CptFlags) (to_lower : ℕ → ℕ) where
  letters_len-le : (cs : List ℕ) → letters_len flags_for to_lower cs ≤ length cs
  unfolding letters_len
  letters_len-le [] = omega arith
  letters_len-le (c ∷ cs) = ground (arith, letters_len-le cs)

  plain_len-le : (cs : List ℕ) → plain_len flags_for to_lower cs ≤ length cs
  unfolding plain_len
  plain_len-le [] = omega arith
  plain_len-le (c ∷ cs) = ground (arith, plain_len-le cs)

  space_len-le : (cs : List ℕ) → space_len flags_for to_lower cs ≤ length cs
  unfolding space_len
  space_len-le [] = omega arith
  space_len-le (c ∷ cs) = ground (arith, space_len-le cs)

  last_rn-le :
      (i last : ℕ) (cs : List ℕ) → last ≤ i → last_rn flags_for to_lower i last cs ≤ i + length cs
  unfolding last_rn
  last_rn-le i last [] h = omega arith
  last_rn-le i last (c ∷ cs) h =
      ground (arith, last_rn-le (suc i) (if is_newline c then suc i else last) cs (ground arith))

  plain_piece-le : (cs : List ℕ) → plain_piece flags_for to_lower cs ≤ length cs
  unfolding plain_piece
  plain_piece-le cs =
      let n = plain_len flags_for to_lower cs in
      omega (arith, plain_len-le cs, newline_len-le (drop n cs), length-drop n cs)

  plain_piece-pos :
      (c : ℕ) (cs : List ℕ)
      → is_plain flags_for to_lower (flags_for c) ≡ true
      → 0 < plain_piece flags_for to_lower (c ∷ cs)
  plain_piece-pos c cs h =
      let e : plain_len flags_for to_lower (c ∷ cs) ≡ suc (plain_len flags_for to_lower cs) =
        unfold plain_len in rw (h, plain_len) refl in
      unfold plain_piece in omega (arith, e)

  space_piece-Fits : (c : ℕ) (cs : List ℕ) → Fits (space_piece flags_for to_lower (c ∷ cs)) (c ∷ cs)
  unfolding space_piece
  space_piece-Fits c cs =
      ground (arith, space_len-le (c ∷ cs), last_rn-le 0 0 (c ∷ cs) (omega arith))

  contraction-le : (c : ℕ) (cs : List ℕ) → contraction flags_for to_lower (c ∷ cs) ≤ length (c ∷ cs)
  unfolding contraction
  contraction-le c [] = omega arith
  contraction-le c (d ∷ []) = ground arith
  contraction-le c (d ∷ e ∷ cs) = ground arith

  piece_len-Fits : (c : ℕ) (cs : List ℕ) → Fits (piece_len flags_for to_lower c cs) (c ∷ cs)
  unfolding piece_len
  piece_len-Fits c cs = elim (Bool-cases (is_plain flags_for to_lower (flags_for c))) [
    | inl plain ↦
        let pos = plain_piece-pos c cs plain in
        let fits = space_piece-Fits c cs in
        ground (
          arith,
          pos,
          fits.0,
          fits.1,
          letters_len-le cs,
          plain_piece-le cs,
          plain_piece-le (c ∷ cs),
        )
    | inr other ↦
        let fits = space_piece-Fits c cs in
        ground (
          arith,
          other,
          fits.0,
          fits.1,
          letters_len-le cs,
          plain_piece-le cs,
          plain_piece-le (c ∷ cs),
        )
  ]

  round-Fits : (c : ℕ) (cs : List ℕ) → Fits (round flags_for to_lower c cs) (c ∷ cs)
  unfolding round
  round-Fits c cs =
      let fits = piece_len-Fits c cs in ground (arith, fits.0, fits.1, contraction-le c cs)

  -- A cut of a text into pieces, none of them empty.
  abbrev pub Pieces : List ℕ → Option (List (List ℕ)) → Type 0
  Pieces cs out =
      (pieces : List (List ℕ)) × (out ≡ some pieces)
      × (join pieces ≡ cs)
      × All (λ p. 0 < length p) pieces

  pieces_fuel-go :
      (fuel c : ℕ) (cs : List ℕ) (more : List (List ℕ))
      → leb (round flags_for to_lower c cs) (length (c ∷ cs)) ≡ true
      → pieces_fuel flags_for to_lower fuel (drop (round flags_for to_lower c cs) (c ∷ cs))
        ≡ some more
      → pieces_fuel flags_for to_lower (suc fuel) (c ∷ cs)
        ≡ some (take (round flags_for to_lower c cs) (c ∷ cs) ∷ more)
  pieces_fuel-go fuel c cs more e m = unfold pieces_fuel in rw (e, m, pieces_fuel) refl

  pieces_fuel-Pieces :
      (fuel : ℕ) (cs : List ℕ)
      → length cs < fuel
      → Pieces cs (pieces_fuel flags_for to_lower fuel cs)
  pieces_fuel-Pieces zero cs h = absurd (omega arith)
  pieces_fuel-Pieces (suc fuel) [] h = ([], (unfold pieces_fuel in refl), refl, tt)
  pieces_fuel-Pieces (suc fuel) (c ∷ cs) h =
      let n = round flags_for to_lower c cs in
      let (pos, fits) = round-Fits c cs in
      let (more, run, whole, fine) =
        pieces_fuel-Pieces fuel (drop n (c ∷ cs)) (omega (arith, pos, h, length-drop n (c ∷ cs))) in
      (
        take n (c ∷ cs) ∷ more,
        pieces_fuel-go fuel c cs more (leb_of n (length (c ∷ cs)) fits) run,
        ap (λ t. take n (c ∷ cs) ++ t) whole ∙ take-append-drop n (c ∷ cs),
        (omega (arith, pos, fits, length-take n (c ∷ cs)), fine),
      )

  pretokenize_runes-Pieces : (cs : List ℕ) → Pieces cs (pretokenize_runes flags_for to_lower cs)
  pretokenize_runes-Pieces cs =
      unfold pretokenize_runes in pieces_fuel-Pieces (suc (length cs)) cs (omega arith)

  join-map-string_of : (ps : List (List ℕ)) → join (map string_of ps) ≡ string_of (join ps)
  join-map-string_of [] = unfold string_of in refl
  join-map-string_of (p ∷ ps) =
      ap (λ t. string_of p ++ t) (join-map-string_of ps) ∙ sym (string_of-append p (join ps))

  strings_there :
      (ps : List (List ℕ)) → All (λ p. 0 < length p) ps → All (λ p. 0 < length p) (map string_of ps)
  strings_there [] h = tt
  strings_there (p ∷ ps) h = (string_of-pos p h.0, strings_there ps h.1)

  -- `pretokenizeQwen2` ends on every text, whatever the tests of `unicode` answer, and slices only
  -- inside it: its pieces, one behind the other, are the text, in which U+FFFD stands for every byte that
  -- begins no valid UTF-8, and none is empty.
  pub pretokenize_qwen2-Pieces :
      (text : Bytes) → Pieces (string_of (runes text)) (pretokenize_qwen2 flags_for to_lower text)
  unfolding pretokenize_qwen2
  pretokenize_qwen2-Pieces text =
      let (pieces, run, whole, there) = pretokenize_runes-Pieces (runes text) in
      (
        map string_of pieces,
        rw (run, pretokenize_qwen2) refl,
        join-map-string_of pieces ∙ ap string_of whole,
        strings_there pieces there,
      )

  -- `pretokenizeQwen2` cuts every text of valid UTF-8 into pieces that are the text again, one behind
  -- the other, and none of them is empty.
  pub pretokenize_qwen2-string_of :
      (rs : List ℕ)
      → All IsScalar rs
      → Pieces (string_of rs) (pretokenize_qwen2 flags_for to_lower (string_of rs))
  pretokenize_qwen2-string_of rs h =
      subst (λ t. Pieces (string_of t) (pretokenize_qwen2 flags_for to_lower (string_of rs)))
        (runes-string_of rs h) (pretokenize_qwen2-Pieces (string_of rs))
