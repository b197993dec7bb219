-- ===== src/Jinja/Lexer/Print.antt =====
-- A text for each token of a tag, from which the lexer reads it back.
use gogguf.Base.{
  ℕ, zero, suc, ◌<◌, ◌≡◌, refl, sym, ap, ◌∙◌, ◌⊎◌, inl, inr, Bool, true, false, not, ◌&&◌, ◌||◌,
  Option, none, some, List, [], ◌∷◌, ◌++◌, append_assoc, arith, ◌==◌, if◌then◌else◌, Bool-cases,
  Option-cases,
}
use gogguf.Base.Bytes.{Bytes, codes}
use gogguf.Base.Result.{Result, ok, ◌>>=◌}
use gogguf.Jinja.Lexer.Words.{
  LexError, Token, Mark, is_blank, is_digit, is_ident_start, is_ident_part, is_number_part, span,
  unescape, escape_bytes, lex_string, keyword, word_token, single, lex_minus, lex_eq, lex_bang,
  lex_compare, lex_default, lex_other, lex_word,
}

unfoldable pub show_mark : Mark → Bytes
show_mark Mark.lparen = codes "("
show_mark Mark.rparen = codes ")"
show_mark Mark.lbracket = codes "["
show_mark Mark.rbracket = codes "]"
show_mark Mark.lbrace = codes "{"
show_mark Mark.rbrace = codes "}"
show_mark Mark.dot = codes "."
show_mark Mark.comma = codes ","
show_mark Mark.pipe = codes "|"
show_mark Mark.colon = codes ":"
show_mark Mark.eq = codes "=="
show_mark Mark.ne = codes "!="
show_mark Mark.lt = codes "<"
show_mark Mark.gt = codes ">"
show_mark Mark.le = codes "<="
show_mark Mark.ge = codes ">="
show_mark Mark.plus = codes "+"
show_mark Mark.minus = codes "-"
show_mark Mark.star = codes "*"
show_mark Mark.slash = codes "/"
show_mark Mark.percent = codes "%"
show_mark Mark.assign = codes "="
show_mark Mark.true_word = codes "true"
show_mark Mark.false_word = codes "false"
show_mark Mark.none_word = codes "none"
show_mark Mark.and_word = codes "and"
show_mark Mark.or_word = codes "or"
show_mark Mark.not_word = codes "not"
show_mark Mark.in_word = codes "in"
show_mark Mark.is_word = codes "is"

-- The inside of a string literal in double quotes.
unfoldable pub show_string : Bytes → Bytes
show_string [] = []
show_string (c ∷ cs) =
    let more = show_string cs in if c == b'"' || c == b'\\' then b'\\' ∷ c ∷ more else c ∷ more

unfoldable pub show : Token → Bytes
unfolding show_mark show_string
show (Token.mark m) = show_mark m
show (Token.ident w) = w
show (Token.number w) = w
show (Token.string s) = b'"' ∷ (show_string s ++ b'"' ∷ [])
show _ = []

-- A blank behind each token.
unfoldable pub show_all : List Token → Bytes
unfolding show
show_all [] = []
show_all (t ∷ ts) = show t ++ b' ' ∷ show_all ts

abbrev pub AllPass : (ℕ → Bool) → Bytes → Type 0
AllPass test [] = Unit
AllPass test (c ∷ cs) = (test c ≡ true) × AllPass test cs

-- A word that is no keyword.
abbrev pub IsIdent : Bytes → Type 0
IsIdent [] = ⊥
IsIdent (c ∷ cs) = (is_ident_start c ≡ true) × AllPass is_ident_part cs × (keyword (c ∷ cs) ≡ none)

-- A digit and then digits and dots, behind a minus sign or not.
abbrev pub IsNumber : Bytes → Type 0
IsNumber [] = ⊥
IsNumber (c ∷ []) = is_digit c ≡ true
IsNumber (c ∷ d ∷ cs) =
    ((is_digit c ≡ true) × (is_number_part d ≡ true) × AllPass is_number_part cs)
    ⊎ ((c ≡ b'-') × (is_digit d ≡ true) × AllPass is_number_part cs)

-- A token that can stand in a tag: a single `=` only in a statement.
abbrev pub IsWord : Bool → Token → Type 0
IsWord stmt (Token.ident w) = IsIdent w
IsWord stmt (Token.number w) = IsNumber w
IsWord stmt (Token.string s) = Unit {0}
IsWord stmt (Token.mark m) = (m ≡ Mark.assign) → (stmt ≡ true)
IsWord stmt _ = ⊥

-- The lexer reads these bytes, with a blank behind them, as this token.
pub record LexesTo (stmt : Bool) (bytes : Bytes) (t : Token) : Type 0 where
  pub first : ℕ
  pub others : Bytes
  pub splits : bytes ≡ first ∷ others
  pub no_blank : is_blank first ≡ false
  pub read : (rest : Bytes) → lex_word stmt first (others ++ b' ' ∷ rest) ≡ ok (t, b' ' ∷ rest)

span-AllPass :
    (test : ℕ → Bool) (cs : Bytes) (c : ℕ) (rest : Bytes)
    → AllPass test cs
    → test c ≡ false
    → span test (cs ++ c ∷ rest) ≡ (cs, c ∷ rest)
unfolding span
span-AllPass test [] c rest h stop = rw stop
span-AllPass test (d ∷ cs) c rest h stop = rw (h.0, span-AllPass test cs c rest h.1 stop)

-- The bytes that reach the `default` case of `lexWords`, and are no blank.
abbrev is_none : Option Mark → Bool
is_none none = true
is_none (some _) = false

falls_through : ℕ → Bool
falls_through c =
    is_none (single c)
    && not (c == b'-')
    && not (c == b'=')
    && not (c == b'!')
    && not (c == b'<')
    && not (c == b'>')
    && not (c == b'\'' || c == b'"')
    && not (is_blank c)

all_below : ℕ → (ℕ → Bool) → Bool
all_below zero test = true
all_below (suc n) test = test n && all_below n test

all_below_sound :
    (n : ℕ) (test : ℕ → Bool) (x : ℕ) → all_below n test ≡ true → x < n → test x ≡ true
unfolding all_below
all_below_sound zero test x h lt = absurd (omega arith)
all_below_sound (suc n) test x h lt = ground (arith, all_below_sound n test x)

starts_table : all_below 256 (λ c. not (is_ident_start c || is_digit c) || falls_through c) ≡ true
unfolding all_below is_ident_start falls_through single
starts_table = refl

ident_start-lt : (c : ℕ) → is_ident_start c ≡ true → c < 256
unfolding is_ident_start
ident_start-lt c h = ground arith

start-falls_through :
    (c : ℕ) → (is_ident_start c || is_digit c) ≡ true → c < 256 → falls_through c ≡ true
start-falls_through c h small =
    let row =
      all_below_sound 256 (λ c. not (is_ident_start c || is_digit c) || falls_through c) c
        starts_table small in
    ground arith

falls_through-no_blank : (c : ℕ) → falls_through c ≡ true → is_blank c ≡ false
unfolding falls_through
falls_through-no_blank c h = ground arith

skips :
    (c : ℕ) (stmt : Bool) (cs : Bytes)
    → (not (c == b'-')
        && not (c == b'=')
        && not (c == b'!')
        && not (c == b'<')
        && not (c == b'>')
        && not (c == b'\'' || c == b'"')
        && not (is_blank c))
      ≡ true
    → lex_other stmt c cs ≡ lex_default c cs
unfolding lex_other
skips c stmt cs h =
    let facts : ((c == b'-') ≡ false)
        × ((c == b'=') ≡ false)
        × ((c == b'!') ≡ false)
        × ((c == b'<') ≡ false)
        × ((c == b'>') ≡ false)
        × ((c == b'\'' || c == b'"') ≡ false) =
      ground arith in
    rw (facts.0, facts.1, facts.2, facts.3, facts.4, facts.5)

lex_word-default :
    (stmt : Bool) (c : ℕ) (cs : Bytes)
    → falls_through c ≡ true
    → lex_word stmt c cs ≡ lex_default c cs
unfolding falls_through lex_word
lex_word-default stmt c cs h = elim (Option-cases (single c)) [
  | inr (m, one) ↦ absurd (cc (rw one at h))
  | inl other ↦ rw (other, lex_word) (skips c stmt cs (rw other at h))
]

lex_default-ident :
    (c : ℕ) (cs rest : Bytes)
    → IsIdent (c ∷ cs)
    → lex_default c (cs ++ b' ' ∷ rest) ≡ ok (Token.ident (c ∷ cs), b' ' ∷ rest)
unfolding lex_default
lex_default-ident c cs rest h =
    let no_digit : is_digit c ≡ false = ident_start-digit c h.0 in
    let blank : is_ident_part b' ' ≡ false = unfold is_ident_part in refl in
    rw (no_digit, h.0, span-AllPass is_ident_part cs b' ' rest h.1 blank)
      (ap (λ t. ok (t, b' ' ∷ rest)) (word (c ∷ cs) h.2))
  where
    word : (w : Bytes) → keyword w ≡ none → word_token w ≡ Token.ident w
    word w e = rw (e, word_token)

    ident_start-digit : (c : ℕ) → is_ident_start c ≡ true → is_digit c ≡ false
    ident_start-digit c h = unfold is_ident_start in ground arith

lex_default-number :
    (c : ℕ) (cs rest : Bytes)
    → is_digit c ≡ true
    → AllPass is_number_part cs
    → lex_default c (cs ++ b' ' ∷ rest) ≡ ok (Token.number (c ∷ cs), b' ' ∷ rest)
unfolding lex_default
lex_default-number c cs rest h all = rw (h, span-AllPass is_number_part cs b' ' rest all refl)

digit-LexesTo :
    (stmt : Bool) (c : ℕ) (cs : Bytes)
    → is_digit c ≡ true
    → AllPass is_number_part cs
    → LexesTo stmt (c ∷ cs) (Token.number (c ∷ cs))
digit-LexesTo stmt c cs h all =
    let start : (is_ident_start c || is_digit c) ≡ true = or_right (is_ident_start c) h in
    let free = start-falls_through c start (ground arith) in
    record {
      first = c;
      others = cs;
      splits = refl;
      no_blank = falls_through-no_blank c free;
      read = λ rest.
          lex_word-default stmt c (cs ++ b' ' ∷ rest) free ∙ lex_default-number c cs rest h all;
    }
  where
    or_right : (a : Bool) {b : Bool} → b ≡ true → (a || b) ≡ true
    or_right true e = refl
    or_right false e = e

negative-LexesTo :
    (stmt : Bool) (d : ℕ) (cs : Bytes)
    → is_digit d ≡ true
    → AllPass is_number_part cs
    → LexesTo stmt (b'-' ∷ d ∷ cs) (Token.number (b'-' ∷ d ∷ cs))
negative-LexesTo stmt d cs h all = record {
  first = b'-';
  others = d ∷ cs;
  splits = refl;
  no_blank = refl;
  read = λ rest. unfold lex_word single lex_other in ap ok (minus rest);
}
  where
    minus :
        (rest : Bytes)
        → lex_minus (d ∷ (cs ++ b' ' ∷ rest)) ≡ (Token.number (b'-' ∷ d ∷ cs), b' ' ∷ rest)
    minus rest =
        let part : is_number_part d ≡ true = rw h in
        unfold lex_minus in rw (h, span-AllPass is_number_part (d ∷ cs) b' ' rest (part, all) refl)

number-LexesTo : (stmt : Bool) (w : Bytes) → IsNumber w → LexesTo stmt w (Token.number w)
number-LexesTo stmt [] h = absurd h
number-LexesTo stmt (c ∷ []) h = digit-LexesTo stmt c [] h tt
number-LexesTo stmt (c ∷ d ∷ cs) (inl (h, k, all)) = digit-LexesTo stmt c (d ∷ cs) h (k, all)
number-LexesTo stmt (c ∷ d ∷ cs) (inr (e, h, all)) = rw e (negative-LexesTo stmt d cs h all)

lex_string_step :
    (q c d : ℕ) (cs : Bytes)
    → (c == b'\\') ≡ false
    → (c == q) ≡ false
    → lex_string q (c ∷ d ∷ cs) ≡ (lex_string q (d ∷ cs) >>= λ p. ok (c ∷ p.0, p.1))
unfolding lex_string
lex_string_step q c d cs h k = rw (h, k)

lex_string_escape :
    (c : ℕ) (cs : Bytes)
    → lex_string b'"' (b'\\' ∷ c ∷ cs) ≡ (lex_string b'"' cs >>= λ p. ok (escape_bytes c p.0, p.1))
unfolding lex_string
lex_string_escape c cs = refl

append_nonempty :
    (xs : Bytes) (y : ℕ) (ys : Bytes) → (d : ℕ) × (ds : Bytes) × (xs ++ y ∷ ys ≡ d ∷ ds)
append_nonempty [] y ys = (y, ys, refl)
append_nonempty (x ∷ xs) y ys = (x, xs ++ y ∷ ys, refl)

lex_string-show_string :
    (s rest : Bytes) → lex_string b'"' (show_string s ++ b'"' ∷ b' ' ∷ rest) ≡ ok (s, b' ' ∷ rest)
unfolding show_string
lex_string-show_string [] rest = unfold lex_string in refl
lex_string-show_string (c ∷ cs) rest = elim (Bool-cases (c == b'"' || c == b'\\')) [
  | inl special ↦ rw special (
      lex_string_escape c (show_string cs ++ b'"' ∷ b' ' ∷ rest)
      ∙ ap (λ r. r >>= λ p. ok (escape_bytes c p.0, p.1)) (lex_string-show_string cs rest)
      ∙ known c cs special)
  | inr plain ↦
      let (d, ds, e) = append_nonempty (show_string cs) b'"' (b' ' ∷ rest) in
      let apart : ((c == b'\\') ≡ false) × ((c == b'"') ≡ false) = ground arith in
      rw (plain, e)
        (lex_string_step b'"' c d ds apart.0 apart.1
          ∙ ap (λ r. r >>= λ p. ok (c ∷ p.0, p.1))
              (ap (lex_string b'"') (sym e) ∙ lex_string-show_string cs rest))
]
  where
    known :
        (c : ℕ) (cs : Bytes)
        → (c == b'"' || c == b'\\') ≡ true
        → ◌≡◌ {A = Result LexError (Bytes × Bytes)}
            (ok (escape_bytes c cs, b' ' ∷ rest))
            (ok (c ∷ cs, b' ' ∷ rest))
    known c cs h =
        let e : unescape c ≡ some c = unfold unescape in ground arith in
        ap (λ t. ok (t, b' ' ∷ rest)) (rw (e, escape_bytes))

string-LexesTo :
    (stmt : Bool) (s : Bytes) → LexesTo stmt (b'"' ∷ (show_string s ++ b'"' ∷ [])) (Token.string s)
string-LexesTo stmt s = record {
  first = b'"';
  others = show_string s ++ b'"' ∷ [];
  splits = refl;
  no_blank = refl;
  read = λ rest.
      unfold lex_word single lex_other in (rw append_assoc (rw (lex_string-show_string s rest)));
}

abbrev head : Bytes → ℕ
head [] = 0
head (c ∷ _) = c

abbrev rest_of : Bytes → Bytes
rest_of [] = []
rest_of (_ ∷ cs) = cs

mark-LexesTo :
    (stmt : Bool) (m : Mark)
    → (m ≡ Mark.assign → stmt ≡ true)
    → LexesTo stmt (show_mark m) (Token.mark m)
unfolding show_mark lex_word single lex_other lex_eq lex_bang lex_compare lex_minus lex_default span
    is_ident_start is_ident_part keyword
mark-LexesTo stmt Mark.assign h = record {
  first = b'=';
  others = [];
  splits = refl;
  no_blank = refl;
  read = λ rest. rw (h refl);
}
mark-LexesTo stmt m h = record {
  first = head (show_mark m);
  others = rest_of (show_mark m);
  splits = refl;
  no_blank = refl;
  read = λ rest. refl;
}

ident-LexesTo : (stmt : Bool) (w : Bytes) → IsIdent w → LexesTo stmt w (Token.ident w)
ident-LexesTo stmt [] h = absurd h
ident-LexesTo stmt (c ∷ cs) h =
    let start : (is_ident_start c || is_digit c) ≡ true = rw h.0 in
    let free = start-falls_through c start (ident_start-lt c h.0) in
    record {
      first = c;
      others = cs;
      splits = refl;
      no_blank = falls_through-no_blank c free;
      read =
          λ rest. lex_word-default stmt c (cs ++ b' ' ∷ rest) free ∙ lex_default-ident c cs rest h;
    }

-- Every token that can stand in a tag is read back from its text.
pub show-LexesTo : (stmt : Bool) (t : Token) → IsWord stmt t → LexesTo stmt (show t) t
unfolding show
show-LexesTo stmt (Token.mark m) h = mark-LexesTo stmt m h
show-LexesTo stmt (Token.ident w) h = ident-LexesTo stmt w h
show-LexesTo stmt (Token.number w) h = number-LexesTo stmt w h
show-LexesTo stmt (Token.string s) h = string-LexesTo stmt s
show-LexesTo stmt _ h = absurd h
