-- ===== src/Jinja/Lexer.antt =====
-- pkg/chat/jinja/lexer.go. The code walks the source by an index; here the state of each loop is what
-- is left of it. A source is its bytes.
pub mod Words
pub mod Total
pub mod Print
pub mod RoundTrip
pub mod Tags
unfoldable pub use Words.*
use gogguf.Base.{
  ℕ, zero, suc, ◌+◌, ◌-◌, ◌*◌, ◌/◌, ◌%◌, ◌^◌, ◌≤◌, ◌<◌, min, max, ◌≡◌, refl, sym, ap, ◌∙◌, ◌≢◌, ◌↔◌,
  ◌⊎◌, inl, inr, Bool, true, false, not, ◌&&◌, ◌||◌, Option, none, some, List, [], ◌∷◌, ◌++◌, map,
  append-nil, append_assoc, arith, ltb, leb, ◌==◌, if◌then◌else◌, ltb→lt, ltb→le, lt→ltb, le→ltb,
  leb→le, ==_iff, ==_self, Bool-cases, Option-cases, length, get_elem?, set, take, drop, replicate,
  length-append, length-replicate, length-take, length-drop, take-append-drop, take_of_length-le,
  drop_of_length-le, take-append, drop_nil, take_nil, drop-append, drop-length-append,
  take-length-append, take-append_exact, drop-append_exact, drop-drop, take-take, take-drop,
  take-add, length-set, get_elem?-set_self, get_elem?-set_ne, get_elem?-set_inv, length-map,
  get_elem?-map, get_elem?-map_inv, All, All-get_elem?, All-set,
}
use gogguf.Base.Bytes.{Bytes, codes, equal, has_prefix}
use gogguf.Base.Result.{Result, ok, err, ◌>>=◌}
use gogguf.Base.Space.{trim_space}

-- `findClose`: what stands in front of the first `end`, and what is left behind it.
unfoldable pub find_close : Bytes → Bytes → Result LexError (Bytes × Bytes)
unfolding has_prefix
find_close end [] = err unclosed_tag
find_close end (c ∷ cs) =
    let later = find_close end cs in
    if has_prefix end (c ∷ cs)
    then ok ([], drop (length end) (c ∷ cs))
    else (do (inner, after) ← later; ok (c ∷ inner, after))

-- `trimRight` and the end of the inner part: a dash in front of the closing mark is taken off.
unfoldable pub strip_dash : Bytes → Bytes × Bool
strip_dash [] = ([], false)
strip_dash (c ∷ []) = if c == b'-' then ([], true) else (c ∷ [], false)
strip_dash (c ∷ d ∷ cs) = let (inner, trim) = strip_dash (d ∷ cs) in (c ∷ inner, trim)

-- `trimLeft`, and what is left behind the dash.
unfoldable pub open_dash : Bytes → Bytes × Bool
open_dash [] = ([], false)
open_dash (c ∷ cs) = if c == b'-' then (cs, true) else (c ∷ cs, false)

-- The mark that opens a tag: `some false` for `{{`, `some true` for `{%`.
unfoldable pub opening : Bytes → Option Bool
opening (a ∷ b ∷ _) =
    if a == b'{'
    then (if b == b'{' then some false else if b == b'%' then some true else none)
    else none
opening _ = none

-- The inner loop over text: what stands in front of the next tag, and the rest.
unfoldable pub span_text : Bytes → Bytes × Bytes
unfolding opening
span_text [] = ([], [])
span_text (c ∷ cs) =
    let (plain, rest) = span_text cs in
    elim (opening (c ∷ cs)) [ some _ ↦ ([], c ∷ cs) | none ↦ (c ∷ plain, rest) ]

-- One tag, from behind its opening mark: its tokens, and what is left behind it.
unfoldable pub lex_tag : Bool → Bytes → Result LexError (List Token × Bytes)
unfolding open_dash find_close strip_dash lex_words trim_space
lex_tag stmt src = do
  let (body, trim_left) = open_dash src
  (inner, after) ← find_close (if stmt then codes "%}" else codes "}}") body
  let (core, trim_right) = strip_dash inner
  toks ← lex_words stmt (if stmt then trim_space core else core)
  ok (
    (if stmt then Token.stmt_open trim_left else Token.expr_open trim_left)
        ∷ (toks
            ++ (if stmt then Token.stmt_close trim_right else Token.expr_close trim_right) ∷ []),
    after,
  )

-- One round of the outer loop of `tokenize`, on what is not empty.
unfoldable pub lex_piece : Bytes → Result LexError (List Token × Bytes)
unfolding opening lex_tag span_text
lex_piece src = elim (opening src) [
  | some stmt ↦ lex_tag stmt (drop 2 src)
  | none ↦ let (plain, rest) = span_text src in ok (Token.text plain ∷ [], rest)
]

unfoldable pub tokenize_fuel : ℕ → Bytes → Result LexError (List Token)
unfolding lex_piece
tokenize_fuel zero src = err out_of_fuel
tokenize_fuel (suc fuel) [] = ok (Token.eof ∷ [])
tokenize_fuel (suc fuel) (c ∷ cs) = do
  (toks, rest) ← lex_piece (c ∷ cs)
  more ← tokenize_fuel fuel rest
  ok (toks ++ more)

unfoldable pub tokenize : Bytes → Result LexError (List Token)
unfolding tokenize_fuel
tokenize src = tokenize_fuel (suc (length src)) src
