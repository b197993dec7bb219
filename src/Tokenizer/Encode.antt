-- ===== src/Tokenizer/Encode.antt =====
-- pkg/tokenizer/tokenizer.go and special.go: `Encode`, `Decode` and the special tokens of a
-- vocabulary. The sort of the special tokens and the pretokenizer are functions of the tokenizer.
pub mod Total
use gogguf.Base.{
  ℕ, zero, suc, ◌+◌, ◌-◌, ◌*◌, ◌/◌, ◌%◌, ◌^◌, ◌≤◌, ◌<◌, min, max, ◌≡◌, refl, sym, ap, ◌∙◌, ◌≢◌, ◌↔◌,
  ◌⊎◌, inl, inr, Bool, true, false, not, ◌&&◌, ◌||◌, Option, none, some, List, [], ◌∷◌, ◌++◌, map,
  append-nil, append_assoc, arith, ltb, leb, ◌==◌, if◌then◌else◌, ltb→lt, ltb→le, lt→ltb, le→ltb,
  leb→le, ==_iff, ==_self, Bool-cases, Option-cases, length, get_elem?, set, take, drop, replicate,
  length-append, length-replicate, length-take, length-drop, take-append-drop, take_of_length-le,
  drop_of_length-le, take-append, drop_nil, take_nil, drop-append, drop-length-append,
  take-length-append, take-append_exact, drop-append_exact, drop-drop, take-take, take-drop,
  take-add, length-set, get_elem?-set_self, get_elem?-set_ne, get_elem?-set_inv, length-map,
  get_elem?-map, get_elem?-map_inv, All, All-get_elem?, All-set,
}
use gogguf.Base.Bytes.{Bytes, codes, equal, has_prefix}
use gogguf.Base.Int.{ℤ, pos, negsuc}
use gogguf.Base.Result.{Result, ok, err, ◌>>=◌}
use gogguf.Tokenizer.ByteLevel.{byte_encode_word, byte_decode_token}
use gogguf.Tokenizer.Special.{TextSegment, split_by_special}
use gogguf.Tokenizer.Bpe.{Merges, bpe}
use gogguf.Tokenizer.Greedy.{TokenizerError, Vocabulary, word_mark, encode_greedy_vocab}

-- `merge_count` is `len(t.merges)`.
pub record Tokenizer : Type 0 where
  pub tokens : List Bytes
  pub id : Vocabulary
  pub merges : Merges
  pub merge_count : ℕ
  pub bos_id : ℤ
  pub eos_id : ℤ
  pub byte_encode : Bool
  pub pretokenize : Bytes → List Bytes
  pub special : Option (List Bytes)

-- `t.id[tok]`, which is 0 for an unknown token.
unfoldable pub id_or_zero : Tokenizer → Bytes → ℕ
id_or_zero t tok = elim (t.id tok) [ none ↦ 0 | some n ↦ n ]

-- The first loop of `buildSpecialTokens`; a number is never negative.
abbrev pub is_marker : Bytes → Bool
is_marker (c ∷ d ∷ cs) = c == b'<'
is_marker _ = false

unfoldable pub markers : List Bytes → List Bytes
markers [] = []
markers (tok ∷ toks) = let more = markers toks in if is_marker tok then tok ∷ more else more

abbrev pub known : Tokenizer → Bytes → List Bytes
known t tok = elim (t.id tok) [ none ↦ [] | some _ ↦ tok ∷ [] ]

-- `buildSpecialTokens`, with the sort by length, longest first.
unfoldable pub build_special_tokens : (List Bytes → List Bytes) → Tokenizer → Tokenizer
unfolding markers
build_special_tokens sort t = elim t.special [
  | some _ ↦ t
  | none ↦ record t {
    special = some (
        sort (
          markers t.tokens
          ++ (if t.merge_count == 0
              then known t (codes "[INST]") ++ known t (codes "[/INST]")
              else [])));
  }
]

-- The loop over the symbols of a word.
unfoldable pub symbol_ids : Vocabulary → List Bytes → Result TokenizerError (List ℕ)
symbol_ids id [] = ok []
symbol_ids id (sym ∷ syms) = elim (id sym) [
  | none ↦ err TokenizerError.unknown_token
  | some n ↦ do more ← symbol_ids id syms; ok (n ∷ more)
]

unfoldable pub word_ids : Tokenizer → Bytes → Result TokenizerError (List ℕ)
unfolding symbol_ids bpe byte_encode_word
word_ids t piece = elim (bpe t.merges (if t.byte_encode then byte_encode_word piece else piece)) [
  | none ↦ err TokenizerError.out_of_fuel
  | some syms ↦ symbol_ids t.id syms
]

-- The loop over the pieces.
unfoldable pub piece_ids : Tokenizer → List Bytes → Result TokenizerError (List ℕ)
unfolding word_ids
piece_ids t [] = ok []
piece_ids t (piece ∷ pieces) = do
  ids ← word_ids t piece
  more ← piece_ids t pieces
  ok (ids ++ more)

unfoldable pub encode_segment : Tokenizer → Bytes → Result TokenizerError (List ℕ)
unfolding encode_greedy_vocab piece_ids
encode_segment t s =
    if (t.merge_count == 0) && not t.byte_encode
    then encode_greedy_vocab t.id s
    else piece_ids t (t.pretokenize s)

-- The loop over the segments of `Encode`.
unfoldable pub segment_ids : Tokenizer → List TextSegment → Result TokenizerError (List ℕ)
unfolding encode_segment id_or_zero
segment_ids t [] = ok []
segment_ids t (g ∷ gs) = do
  ids ← if g.is_special then ok (id_or_zero t g.text ∷ []) else encode_segment t g.text
  more ← segment_ids t gs
  ok (ids ++ more)

abbrev pub special_of : Tokenizer → List Bytes
special_of t = elim t.special [ none ↦ [] | some toks ↦ toks ]

-- `Encode`, with the tokenizer behind it, which keeps the special tokens.
unfoldable pub encode :
    (List Bytes → List Bytes) → Tokenizer → Bytes → Tokenizer × Result TokenizerError (List ℕ)
unfolding build_special_tokens split_by_special segment_ids
encode sort t [] = (t, ok [])
encode sort t (c ∷ cs) =
    let u = build_special_tokens sort t in
    (
      u,
      elim (split_by_special (c ∷ cs) (special_of u)) [
        | none ↦ err TokenizerError.out_of_fuel
        | some segments ↦ segment_ids u segments
      ],
    )

-- `strings.ReplaceAll` of a mark by a blank: the first byte of the rest of a mark is skipped over.
unfoldable pub replace_skip : ℕ → Bytes → Bytes → Bytes
unfolding has_prefix
replace_skip skip mark [] = []
replace_skip (suc skip) mark (c ∷ cs) = replace_skip skip mark cs
replace_skip zero mark (c ∷ cs) = elim (has_prefix mark (c ∷ cs)) [
  | true ↦ b' ' ∷ replace_skip (length mark - 1) mark cs
  | false ↦ c ∷ replace_skip 0 mark cs
]

abbrev pub blank_mark : Bytes
blank_mark = 0xC4 ∷ 0xA0 ∷ []

unfoldable pub decode_token : Tokenizer → Bytes → Option Bytes
unfolding replace_skip byte_decode_token
decode_token t tok =
    if t.byte_encode
    then byte_decode_token tok
    else some (replace_skip 0 word_mark (replace_skip 0 blank_mark tok))

-- A number outside the vocabulary, a negative one too, is left out.
unfoldable pub token_at : Tokenizer → ℤ → Option Bytes
token_at t (pos n) = get_elem? t.tokens n
token_at t (negsuc _) = none

unfoldable pub decode_all : Tokenizer → List ℤ → Option Bytes
unfolding decode_token token_at
decode_all t [] = some []
decode_all t (i ∷ ids) =
    let more = decode_all t ids in
    elim (token_at t i) [
      | none ↦ more
      | some tok ↦ elim (decode_token t tok) [
        | none ↦ none
        | some s ↦ elim more [ none ↦ none | some rest ↦ some (s ++ rest) ]
      ]
    ]

-- `stripLeadSPM`: the first token begins with the mark of a word.
unfoldable pub strips_lead : Tokenizer → List ℤ → Bool
unfolding token_at has_prefix
strips_lead t [] = false
strips_lead t (i ∷ ids) = elim (token_at t i) [
  | none ↦ false
  | some tok ↦ not t.byte_encode && has_prefix word_mark tok
]

unfoldable pub strip_lead : Bool → Bytes → Bytes
strip_lead strips [] = []
strip_lead strips (c ∷ cs) = if strips && (c == b' ') then cs else c ∷ cs

-- `Decode`: `none` is the end of the model's fuel.
unfoldable pub decode : Tokenizer → List ℤ → Option Bytes
unfolding decode_all strips_lead strip_lead
decode t ids = elim (decode_all t ids) [
  | none ↦ none
  | some s ↦ some (strip_lead (strips_lead t ids) s)
]
