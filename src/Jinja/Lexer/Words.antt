-- ===== src/Jinja/Lexer/Words.antt =====
-- The tokens, and `lexWords`, which lexes the inside of a tag.
use gogguf.Base.{
  ℕ, zero, suc, Bool, false, ◌&&◌, ◌||◌, Option, none, some, List, [], ◌∷◌, leb, ◌==◌,
  if◌then◌else◌, length, drop,
}
use gogguf.Base.Bytes.{Bytes, codes, equal}
use gogguf.Base.Result.{Result, ok, err, ◌>>=◌}

-- `out_of_fuel` is no error of the code: it stands for the end of the fuel of the model.
pub data LexError : Type 0 where
  unclosed_tag unexpected_eq unexpected_bang unclosed_string unexpected_character out_of_fuel :
      LexError

-- Tokens with no text of their own.
pub data Mark : Type 0 where
  lparen rparen lbracket rbracket lbrace rbrace dot comma pipe colon : Mark
  eq ne lt gt le ge plus minus star slash percent assign : Mark
  true_word false_word none_word and_word or_word not_word in_word is_word : Mark

-- `token`: `trimLeft` and `trimRight` are only set on the tokens that open and close a tag.
pub data Token : Type 0 where
  text : Bytes → Token
  expr_open expr_close stmt_open stmt_close : Bool → Token
  ident string number : Bytes → Token
  mark : Mark → Token
  eof : Token

abbrev pub is_blank : ℕ → Bool
is_blank c = c == b' ' || c == b'\t' || c == b'\r' || c == b'\n'

abbrev pub is_digit : ℕ → Bool
is_digit c = leb b'0' c && leb c b'9'

-- `unicode.IsLetter` of a byte, which is read as a code point.
unfoldable pub is_letter : ℕ → Bool
is_letter c =
    leb b'a' c && leb c b'z'
    || leb b'A' c && leb c b'Z'
    || c == 0xAA
    || c == 0xB5
    || c == 0xBA
    || leb 0xC0 c && leb c 0xD6
    || leb 0xD8 c && leb c 0xF6
    || leb 0xF8 c && leb c 0xFF

unfoldable pub is_ident_start : ℕ → Bool
unfolding is_letter
is_ident_start c = is_letter c || c == b'_'

unfoldable pub is_ident_part : ℕ → Bool
unfolding is_letter
is_ident_part c = is_letter c || is_digit c || c == b'_'

-- The loop over a number's digits and dots.
abbrev pub is_number_part : ℕ → Bool
is_number_part c = is_digit c || c == b'.'

-- The longest part in front whose bytes pass the test, and the rest.
unfoldable pub span : (ℕ → Bool) → Bytes → Bytes × Bytes
span test [] = ([], [])
span test (c ∷ cs) =
    let (front, rest) = span test cs in if test c then (c ∷ front, rest) else ([], c ∷ cs)

-- The byte of an escape, if the code knows it.
unfoldable pub unescape : ℕ → Option ℕ
unescape c =
    if c == b'n'
    then some b'\n'
    else if c == b't'
    then some b'\t'
    else if c == b'r'
    then some b'\r'
    else if c == b'\\' || c == b'\'' || c == b'"'
    then some c
    else none

-- What an escape writes; one that the code does not know is kept with its backslash.
abbrev pub escape_bytes : ℕ → Bytes → Bytes
escape_bytes d out = elim (unescape d) [ some e ↦ e ∷ out | none ↦ b'\\' ∷ d ∷ out ]

-- The loop over a string literal, from behind the opening quote `q`.
unfoldable pub lex_string : ℕ → Bytes → Result LexError (Bytes × Bytes)
unfolding unescape
lex_string q [] = err unclosed_string
lex_string q (c ∷ []) = if c == q then ok ([], []) else err unclosed_string
lex_string q (c ∷ d ∷ cs) =
    let escaped = lex_string q cs in
    let plain = lex_string q (d ∷ cs) in
    if c == b'\\'
    then (do (out, rest) ← escaped; ok (escape_bytes d out, rest))
    else if c == q
    then ok ([], d ∷ cs)
    else (do (out, rest) ← plain; ok (c ∷ out, rest))

-- The words that are tokens of their own.
unfoldable pub keyword : Bytes → Option Mark
unfolding equal
keyword w =
    if equal w (codes "true")
    then some Mark.true_word
    else if equal w (codes "false")
    then some Mark.false_word
    else if equal w (codes "none")
    then some Mark.none_word
    else if equal w (codes "and")
    then some Mark.and_word
    else if equal w (codes "or")
    then some Mark.or_word
    else if equal w (codes "not")
    then some Mark.not_word
    else if equal w (codes "in")
    then some Mark.in_word
    else if equal w (codes "is")
    then some Mark.is_word
    else none

abbrev pub word_token : Bytes → Token
word_token w = elim (keyword w) [ some m ↦ Token.mark m | none ↦ Token.ident w ]

-- The tokens of one byte, whatever follows.
unfoldable pub single : ℕ → Option Mark
single c =
    if c == b'('
    then some Mark.lparen
    else if c == b')'
    then some Mark.rparen
    else if c == b'['
    then some Mark.lbracket
    else if c == b']'
    then some Mark.rbracket
    else if c == b'{'
    then some Mark.lbrace
    else if c == b'}'
    then some Mark.rbrace
    else if c == b'.'
    then some Mark.dot
    else if c == b','
    then some Mark.comma
    else if c == b'|'
    then some Mark.pipe
    else if c == b':'
    then some Mark.colon
    else if c == b'+'
    then some Mark.plus
    else if c == b'*'
    then some Mark.star
    else if c == b'/'
    then some Mark.slash
    else if c == b'%'
    then some Mark.percent
    else none

-- The next byte is an equals sign.
abbrev pub eq_follows : Bytes → Bool
eq_follows [] = false
eq_follows (c ∷ _) = c == b'='

abbrev pub digit_follows : Bytes → Bool
digit_follows [] = false
digit_follows (c ∷ _) = is_digit c

-- The cases of `-`, `=`, `!`, `<` and `>`, which look at the next byte.
unfoldable pub lex_minus : Bytes → Token × Bytes
lex_minus cs =
    let (digits, rest) = span is_number_part cs in
    if digit_follows cs then (Token.number (b'-' ∷ digits), rest) else (Token.mark Mark.minus, cs)

unfoldable pub lex_eq : Bool → Bytes → Result LexError (Token × Bytes)
lex_eq stmt cs =
    if eq_follows cs
    then ok (Token.mark Mark.eq, drop 1 cs)
    else if stmt
    then ok (Token.mark Mark.assign, cs)
    else err unexpected_eq

unfoldable pub lex_bang : Bytes → Result LexError (Token × Bytes)
lex_bang cs = if eq_follows cs then ok (Token.mark Mark.ne, drop 1 cs) else err unexpected_bang

unfoldable pub lex_compare : Mark → Mark → Bytes → Token × Bytes
lex_compare strict loose cs =
    if eq_follows cs then (Token.mark loose, drop 1 cs) else (Token.mark strict, cs)

-- The `default` case: a number, a word, or an error.
unfoldable pub lex_default : ℕ → Bytes → Result LexError (Token × Bytes)
lex_default c cs =
    let (digits, after_number) = span is_number_part cs in
    let (letters, after_word) = span is_ident_part cs in
    if is_digit c
    then ok (Token.number (c ∷ digits), after_number)
    else if is_ident_start c
    then ok (word_token (c ∷ letters), after_word)
    else err unexpected_character

abbrev pub as_string_token : Bytes × Bytes → Token × Bytes
as_string_token (out, rest) = (Token.string out, rest)

-- The other cases of the switch of `lexWords`.
unfoldable pub lex_other : Bool → ℕ → Bytes → Result LexError (Token × Bytes)
lex_other stmt c cs =
    if c == b'-'
    then ok (lex_minus cs)
    else if c == b'='
    then lex_eq stmt cs
    else if c == b'!'
    then lex_bang cs
    else if c == b'<'
    then ok (lex_compare Mark.lt Mark.le cs)
    else if c == b'>'
    then ok (lex_compare Mark.gt Mark.ge cs)
    else if c == b'\'' || c == b'"'
    then (do s ← lex_string c cs; ok (as_string_token s))
    else lex_default c cs

-- One round of `lexWords` at a byte that is no blank: its token, and what is left.
unfoldable pub lex_word : Bool → ℕ → Bytes → Result LexError (Token × Bytes)
lex_word stmt c cs = elim (single c) [ some m ↦ ok (Token.mark m, cs) | none ↦ lex_other stmt c cs ]

-- The loop over blanks.
unfoldable pub skip_blanks : Bytes → Bytes
skip_blanks [] = []
skip_blanks (c ∷ cs) = let rest = skip_blanks cs in if is_blank c then rest else c ∷ cs

unfoldable pub lex_words_fuel : ℕ → Bool → Bytes → Result LexError (List Token)
lex_words_fuel zero stmt src = err out_of_fuel
lex_words_fuel (suc fuel) stmt src = elim (skip_blanks src) [
  | [] ↦ ok []
  | c ∷ cs ↦ do
    (tok, rest) ← lex_word stmt c cs
    toks ← lex_words_fuel fuel stmt rest
    ok (tok ∷ toks)
]

-- `lexWords`.
unfoldable pub lex_words : Bool → Bytes → Result LexError (List Token)
unfolding lex_words_fuel skip_blanks lex_word single lex_other lex_minus lex_eq lex_bang lex_compare
    lex_string lex_default span is_ident_start is_ident_part keyword
lex_words stmt src = lex_words_fuel (suc (length src)) stmt src
