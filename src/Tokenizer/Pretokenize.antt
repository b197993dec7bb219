-- ===== src/Tokenizer/Pretokenize.antt =====
-- pkg/tokenizer/pretokenize.go: `pretokenizeQwen2`, on the runes of the text. The tests of the
-- package `unicode` are parameters. The positions are counted from the begin of the piece, where
-- each round starts, and `none` is `outOfRange`.
pub mod Pieces
use gogguf.Base.{
  ℕ, zero, suc, ◌+◌, ◌-◌, ◌*◌, ◌/◌, ◌%◌, ◌^◌, ◌≤◌, ◌<◌, min, max, ◌≡◌, refl, sym, ap, ◌∙◌, ◌≢◌, ◌↔◌,
  ◌⊎◌, inl, inr, Bool, true, false, not, ◌&&◌, ◌||◌, Option, none, some, List, [], ◌∷◌, ◌++◌, map,
  append-nil, append_assoc, arith, ltb, leb, ◌==◌, if◌then◌else◌, ltb→lt, ltb→le, lt→ltb, le→ltb,
  leb→le, ==_iff, ==_self, Bool-cases, Option-cases, length, get_elem?, set, take, drop, replicate,
  length-append, length-replicate, length-take, length-drop, take-append-drop, take_of_length-le,
  drop_of_length-le, take-append, drop_nil, take_nil, drop-append, drop-length-append,
  take-length-append, take-append_exact, drop-append_exact, drop-drop, take-take, take-drop,
  take-add, length-set, get_elem?-set_self, get_elem?-set_ne, get_elem?-set_inv, length-map,
  get_elem?-map, get_elem?-map_inv, All, All-get_elem?, All-set,
}
use gogguf.Base.Bytes.{Bytes}
use gogguf.Tokenizer.Runes.{runes, string_of}

-- `cptFlags`.
pub record CptFlags : Type 0 where
  pub letter : Bool
  pub number : Bool
  pub whitespace : Bool

abbrev pub no_flags : CptFlags
no_flags = record { letter = false; number = false; whitespace = false }

abbrev pub is_newline : ℕ → Bool
is_newline c = c == b'\r' || c == b'\n'

-- The newlines at the begin.
unfoldable pub newline_len : List ℕ → ℕ
newline_len [] = 0
newline_len (c ∷ cs) = let more = newline_len cs in if is_newline c then suc more else 0

module _ (flags_for : ℕ → CptFlags) (to_lower : ℕ → ℕ) where
  -- `getFlags` at the begin of what is left.
  unfoldable pub get_flags : List ℕ → CptFlags
  get_flags [] = no_flags
  get_flags (c ∷ cs) = flags_for c

  abbrev pub is_plain : CptFlags → Bool
  is_plain f = not f.whitespace && not f.letter && not f.number

  abbrev pub is_short : ℕ → Bool
  is_short c = c == b's' || c == b't' || c == b'm' || c == b'd'

  abbrev pub is_long : ℕ → ℕ → Bool
  is_long c d = c == b'r' && d == b'e' || c == b'v' && d == b'e' || c == b'l' && d == b'l'

  -- The size of a contraction as in `it's` and `they're`; 0 where there is none.
  unfoldable pub contraction : List ℕ → ℕ
  contraction (q ∷ c ∷ []) = if q == b'\'' && is_short (to_lower c) then 2 else 0
  contraction (q ∷ c ∷ d ∷ cs) =
      if q == b'\''
      then (if is_short (to_lower c) then 2 else if is_long (to_lower c) (to_lower d) then 3 else 0)
      else 0
  contraction _ = 0

  -- The letters at the begin.
  unfoldable pub letters_len : List ℕ → ℕ
  letters_len [] = 0
  letters_len (c ∷ cs) = let more = letters_len cs in if (flags_for c).letter then suc more else 0

  -- The runes at the begin that are no letter, no number and no space.
  unfoldable pub plain_len : List ℕ → ℕ
  plain_len [] = 0
  plain_len (c ∷ cs) = let more = plain_len cs in if is_plain (flags_for c) then suc more else 0

  -- `numWS`.
  unfoldable pub space_len : List ℕ → ℕ
  space_len [] = 0
  space_len (c ∷ cs) = let more = space_len cs in if (flags_for c).whitespace then suc more else 0

  -- `lastRN` of the loop over the spaces, from the position i on.
  unfoldable pub last_rn : ℕ → ℕ → List ℕ → ℕ
  last_rn i last [] = last
  last_rn i last (c ∷ cs) =
      let more = last_rn (suc i) (if is_newline c then suc i else last) cs in
      if (flags_for c).whitespace then more else last

  -- The punctuation branch, behind the space that may stand before it.
  unfoldable pub plain_piece : List ℕ → ℕ
  unfolding plain_len newline_len
  plain_piece cs = plain_len cs + newline_len (drop (plain_len cs) cs)

  -- The branches for spaces.
  unfoldable pub space_piece : List ℕ → ℕ
  unfolding space_len last_rn
  space_piece cs =
      if ltb 0 (last_rn 0 0 cs)
      then last_rn 0 0 cs
      else if ltb 1 (space_len cs) && ltb (space_len cs) (length cs)
      then space_len cs - 1
      else if ltb 0 (space_len cs)
      then space_len cs
      else 1

  -- One round behind the test for a contraction: how far `pos` moves.
  unfoldable pub piece_len : ℕ → List ℕ → ℕ
  unfolding get_flags letters_len plain_piece space_piece
  piece_len c cs =
      if not (is_newline c)
        && not (flags_for c).number
        && ((flags_for c).letter || (get_flags cs).letter)
      then suc (letters_len cs)
      else if (flags_for c).number
      then 1
      else if is_plain (if c == b' ' then get_flags cs else flags_for c) && not (c == 0)
      then (if c == b' ' then suc (plain_piece cs) else plain_piece (c ∷ cs))
      else space_piece (c ∷ cs)

  unfoldable pub round : ℕ → List ℕ → ℕ
  unfolding contraction piece_len
  round c cs = if ltb 0 (contraction (c ∷ cs)) then contraction (c ∷ cs) else piece_len c cs

  -- The loop: `none` is a slice out of range or the end of the fuel.
  unfoldable pub pieces_fuel : ℕ → List ℕ → Option (List (List ℕ))
  unfolding round
  pieces_fuel zero cs = none
  pieces_fuel (suc fuel) [] = some []
  pieces_fuel (suc fuel) (c ∷ cs) = elim (leb (round c cs) (length (c ∷ cs))) [
    | false ↦ none
    | true ↦ elim (pieces_fuel fuel (drop (round c cs) (c ∷ cs))) [
      | none ↦ none
      | some more ↦ some (take (round c cs) (c ∷ cs) ∷ more)
    ]
  ]

  -- The loop of `pretokenizeQwen2`, on the runes of the text.
  unfoldable pub pretokenize_runes : List ℕ → Option (List (List ℕ))
  unfolding pieces_fuel
  pretokenize_runes cs = pieces_fuel (suc (length cs)) cs

  -- `pretokenizeQwen2`.
  unfoldable pub pretokenize_qwen2 : Bytes → Option (List Bytes)
  unfolding pretokenize_runes
  pretokenize_qwen2 text = elim (pretokenize_runes (runes text)) [
    | none ↦ none
    | some pieces ↦ some (map string_of pieces)
  ]
