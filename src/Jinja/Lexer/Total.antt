-- ===== src/Jinja/Lexer/Total.antt =====
-- The lexer ends: every round takes at least one byte, so that the fuel suffices.
use gogguf.Base.{
  ℕ, zero, suc, ◌≤◌, ◌<◌, ◌≡◌, refl, ap, ◌≢◌, inl, inr, Bool, true, false, ◌||◌, none, [], ◌∷◌,
  ◌++◌, arith, ◌==◌, if◌then◌else◌, Bool-cases, Option-cases, length, drop, length-drop,
}
use gogguf.Base.Bytes.{Bytes, codes, has_prefix}
use gogguf.Base.Space.{trim_space}
use gogguf.Base.Result.{Result, ok, err, ◌>>=◌}
use gogguf.Jinja.Lexer.Words.{
  LexError, Token, Mark, span, lex_string, escape_bytes, single, eq_follows, lex_minus, lex_eq,
  lex_bang, lex_compare, lex_default, lex_other, lex_word, skip_blanks, lex_words_fuel, lex_words,
  is_number_part, is_ident_part,
}
use gogguf.Jinja.Lexer.{
  find_close, strip_dash, open_dash, opening, span_text, lex_tag, lex_piece, tokenize_fuel,
  tokenize,
}

abbrev is_fuel : LexError → Bool
is_fuel LexError.out_of_fuel = true
is_fuel _ = false

-- A step that leaves at most `n` bytes, or fails with an error of the code.
abbrev Leaves : {A : Type 0} → ℕ → Result LexError (A × Bytes) → Type 0
Leaves n (ok (_, rest)) = length rest ≤ n
Leaves n (err e) = is_fuel e ≡ false

length-span : (test : ℕ → Bool) (cs : Bytes) → length (span test cs).1 ≤ length cs
unfolding span
length-span test [] = omega arith
length-span test (c ∷ cs) = ground (arith, length-span test cs)

Leaves-map :
    {A B : Type 0} (f : A → B) (n m : ℕ) (r : Result LexError (A × Bytes))
    → n ≤ m
    → Leaves n r
    → Leaves m (r >>= λ p. ok (f p.0, p.1))
Leaves-map f n m (ok (a, rest)) h l = omega arith
Leaves-map f n m (err e) h l = l

Leaves-weaken :
    {A : Type 0} (n m : ℕ) (r : Result LexError (A × Bytes)) → n ≤ m → Leaves n r → Leaves m r
Leaves-weaken n m (ok (a, rest)) h l = omega arith
Leaves-weaken n m (err e) h l = l

lex_string-Leaves : (q : ℕ) (cs : Bytes) → Leaves (length cs) (lex_string q cs)
unfolding lex_string
lex_string-Leaves q [] = refl
lex_string-Leaves q (c ∷ []) = ground arith
lex_string-Leaves q (c ∷ d ∷ cs) = elim (Bool-cases (c == b'\\')) [
  | inl slash ↦ rw slash (
      Leaves-map (λ out. escape_bytes d out) (length cs) (length (c ∷ d ∷ cs)) (lex_string q cs)
        (omega arith) (lex_string-Leaves q cs))
  | inr other ↦ elim (Bool-cases (c == q)) [
    | inl quote ↦ rw (other, quote) (omega arith)
    | inr plain ↦
        rw (other, plain)
          (Leaves-map (λ out. c ∷ out) (length (d ∷ cs)) (length (c ∷ d ∷ cs))
            (lex_string q (d ∷ cs)) (omega arith) (lex_string-Leaves q (d ∷ cs)))
  ]
]

length-drop_one : (cs : Bytes) → length (drop 1 cs) ≤ length cs
length-drop_one [] = omega arith
length-drop_one (c ∷ cs) = omega arith

lex_minus-le : (cs : Bytes) → length (lex_minus cs).1 ≤ length cs
unfolding lex_minus
lex_minus-le cs = ground (arith, length-span is_number_part cs)

lex_compare-le : (m n : Mark) (cs : Bytes) → length (lex_compare m n cs).1 ≤ length cs
unfolding lex_compare
lex_compare-le m n cs = elim (Bool-cases (eq_follows cs)) [
  | inl e ↦ rw e (length-drop_one cs)
  | inr e ↦ rw e (omega arith)
]

lex_eq-Leaves : (stmt : Bool) (cs : Bytes) → Leaves (length cs) (lex_eq stmt cs)
unfolding lex_eq
lex_eq-Leaves stmt [] = ground arith
lex_eq-Leaves stmt (c ∷ cs) = ground arith

lex_bang-Leaves : (cs : Bytes) → Leaves (length cs) (lex_bang cs)
unfolding lex_bang
lex_bang-Leaves [] = ground arith
lex_bang-Leaves (c ∷ cs) = ground arith

lex_default-Leaves : (c : ℕ) (cs : Bytes) → Leaves (length cs) (lex_default c cs)
unfolding lex_default
lex_default-Leaves c cs =
    ground (arith, length-span is_number_part cs, length-span is_ident_part cs)

-- The same as a type of its own, for the branches of a switch.
record Steps {A : Type 0} (n : ℕ) (r : Result LexError (A × Bytes)) : Type 0 where
  holds : Leaves n r

Steps-if :
    {A : Type 0} {n : ℕ} {r s : Result LexError (A × Bytes)} (b : Bool)
    → Steps n r
    → Steps n s
    → Steps n (if b then r else s)
Steps-if true hr hs = hr
Steps-if false hr hs = hs

lex_other-Steps : (stmt : Bool) (c : ℕ) (cs : Bytes) → Steps (length cs) (lex_other stmt c cs)
unfolding lex_other
lex_other-Steps stmt c cs =
    Steps-if (c == b'-') (record { holds = lex_minus-le cs })
      (Steps-if (c == b'=') (record { holds = lex_eq-Leaves stmt cs })
        (Steps-if (c == b'!') (record { holds = lex_bang-Leaves cs })
          (Steps-if (c == b'<') (record { holds = lex_compare-le Mark.lt Mark.le cs })
            (Steps-if (c == b'>') (record { holds = lex_compare-le Mark.gt Mark.ge cs })
              (Steps-if (c == b'\'' || c == b'"')
                (record {
                  holds =
                      Leaves-map Token.string (length cs) (length cs) (lex_string c cs)
                        (omega arith) (lex_string-Leaves c cs);
                })
                (record { holds = lex_default-Leaves c cs }))))))

lex_word-Leaves : (stmt : Bool) (c : ℕ) (cs : Bytes) → Leaves (length cs) (lex_word stmt c cs)
unfolding lex_word
lex_word-Leaves stmt c cs = elim (Option-cases (single c)) [
  | inr (m, one) ↦ rw (one, Leaves, lex_word) (omega arith)
  | inl other ↦ rw (other, Leaves, lex_word) (lex_other-Steps stmt c cs).holds
]

length-skip_blanks : (cs : Bytes) → length (skip_blanks cs) ≤ length cs
unfolding skip_blanks
length-skip_blanks [] = omega arith
length-skip_blanks (c ∷ cs) = ground (arith, length-skip_blanks cs)

-- A result that is no exhausted fuel.
abbrev Ends : {A : Type 0} → Result LexError A → Type 0
Ends (ok _) = Unit
Ends (err e) = is_fuel e ≡ false

Ends-bind :
    {A B : Type 0} (r : Result LexError A) (f : A → Result LexError B)
    → Ends r
    → ((a : A) → r ≡ ok a → Ends (f a))
    → Ends (r >>= f)
Ends-bind (ok a) f h k = k a refl
Ends-bind (err e) f h k = h

Leaves-Ends : {A : Type 0} (n : ℕ) (r : Result LexError (A × Bytes)) → Leaves n r → Ends r
Leaves-Ends n (ok a) h = tt
Leaves-Ends n (err e) h = h

Leaves-le :
    {A : Type 0} (n : ℕ) (r : Result LexError (A × Bytes)) (a : A × Bytes)
    → Leaves n r
    → r ≡ ok a
    → length a.1 ≤ n
Leaves-le n (ok b) a h e = let same : b ≡ a = cc in rw (← same) h
Leaves-le n (err f) a h e = absurd (cc)

lex_words_fuel-Ends :
    (fuel : ℕ) (stmt : Bool) (src : Bytes) → length src < fuel → Ends (lex_words_fuel fuel stmt src)
unfolding lex_words_fuel
lex_words_fuel-Ends zero stmt src h = absurd (omega arith)
lex_words_fuel-Ends (suc fuel) stmt src h =
    round (skip_blanks src) (length-skip_blanks src)
      (λ left small. lex_words_fuel-Ends fuel stmt left small)
  where
    round :
        (left : Bytes)
        → length left ≤ length src
        → ((rest : Bytes) → length rest < fuel → Ends (lex_words_fuel fuel stmt rest))
        → Ends (elim left [
          | [] ↦ ok []
          | c ∷ cs ↦ do
            (tok, rest) ← lex_word stmt c cs
            toks ← lex_words_fuel fuel stmt rest
            ok (tok ∷ toks)
        ])
    round [] small again = tt
    round (c ∷ cs) small again =
        let word = lex_word-Leaves stmt c cs in
        Ends-bind (lex_word stmt c cs) _ (Leaves-Ends (length cs) (lex_word stmt c cs) word) (λ p e.
          Ends-bind (lex_words_fuel fuel stmt p.1) _
            (again p.1 (omega (arith, Leaves-le (length cs) (lex_word stmt c cs) p word e)))
            (λ toks _. tt))

Ends-ne : {A : Type 0} (r : Result LexError A) → Ends r → r ≢ err LexError.out_of_fuel
Ends-ne (ok a) h e = cc
Ends-ne (err LexError.out_of_fuel) h e = cc
Ends-ne (err LexError.unclosed_tag) h e = cc
Ends-ne (err f) h e = cc

lex_words-Ends : (stmt : Bool) (src : Bytes) → Ends (lex_words stmt src)
unfolding lex_words
lex_words-Ends stmt src = lex_words_fuel-Ends (suc (length src)) stmt src (omega arith)

find_close-Leaves : (end src : Bytes) → 0 < length end → Leaves (length src) (find_close end src)
unfolding find_close
find_close-Leaves end [] p = refl
find_close-Leaves end (c ∷ cs) p = elim (Bool-cases (has_prefix end (c ∷ cs))) [
  | inl here ↦ rw here (omega (arith, length-drop (length end) (c ∷ cs)))
  | inr later ↦ rw later (
      Leaves-map (λ inner. c ∷ inner) (length cs) (length (c ∷ cs)) (find_close end cs)
        (omega arith) (find_close-Leaves end cs p))
]

length-open_dash : (src : Bytes) → length (open_dash src).0 ≤ length src
unfolding open_dash
length-open_dash [] = omega arith
length-open_dash (c ∷ cs) = ground arith

length-span_text : (src : Bytes) → length (span_text src).1 ≤ length src
unfolding span_text
length-span_text [] = omega arith
length-span_text (c ∷ cs) = elim (Option-cases (opening (c ∷ cs))) [
  | inl plain ↦ rw (plain, span_text) (omega (arith, length-span_text cs))
  | inr (b, tag) ↦ rw (tag, span_text) (omega arith)
]

closing-pos : (stmt : Bool) → 0 < length (if stmt then codes "%}" else codes "}}")
closing-pos true = omega arith
closing-pos false = omega arith

Leaves-then :
    {A B C : Type 0} (n m : ℕ) (r : Result LexError (A × Bytes)) (f : A → Result LexError B)
    (g : A → B → C)
    → n ≤ m
    → Leaves n r
    → ((a : A) → Ends (f a))
    → Leaves m (r >>= λ p. f p.0 >>= λ b. ok (g p.0 b, p.1))
Leaves-then n m (err e) f g h l k = l
Leaves-then n m (ok (a, rest)) f g h l k = value (f a) (g a) (k a)
  where
    value :
        {B C : Type 0} (r : Result LexError B) (g : B → C)
        → Ends r
        → Leaves m (r >>= λ b. ok (g b, rest))
    value (ok b) g e = omega arith
    value (err x) g e = e

lex_tag-Leaves : (stmt : Bool) (src : Bytes) → Leaves (length src) (lex_tag stmt src)
unfolding lex_tag
lex_tag-Leaves stmt src =
    let body = (open_dash src).0 in
    Leaves-then (length body) (length src)
      (find_close (if stmt then codes "%}" else codes "}}") body)
      (λ inner.
        lex_words stmt (if stmt then trim_space (strip_dash inner).0 else (strip_dash inner).0))
      (λ inner toks.
        (if stmt then Token.stmt_open (open_dash src).1 else Token.expr_open (open_dash src).1)
        ∷ (toks
            ++ (if stmt
                then Token.stmt_close (strip_dash inner).1
                else Token.expr_close (strip_dash inner).1)
              ∷ []))
      (length-open_dash src) (find_close-Leaves _ body (closing-pos stmt))
      (λ inner.
        lex_words-Ends stmt
          (if stmt then trim_space (strip_dash inner).0 else (strip_dash inner).0))

span_text_plain :
    (c : ℕ) (cs : Bytes)
    → opening (c ∷ cs) ≡ none
    → span_text (c ∷ cs) ≡ (c ∷ (span_text cs).0, (span_text cs).1)
unfolding span_text
span_text_plain c cs plain = rw (plain, span_text)

length-drop_two : (c : ℕ) (cs : Bytes) → length (drop 2 (c ∷ cs)) ≤ length cs
length-drop_two c cs = length-drop_one cs

lex_piece-Leaves : (c : ℕ) (cs : Bytes) → Leaves (length cs) (lex_piece (c ∷ cs))
unfolding lex_piece
lex_piece-Leaves c cs = elim (Option-cases (opening (c ∷ cs))) [
  | inl plain ↦
      rw (plain, Leaves, lex_piece)
        (rw (ap (λ t. length t.1) (span_text_plain c cs plain)) (length-span_text cs))
  | inr (stmt, tag) ↦
      rw (tag, Leaves, lex_piece)
        (Leaves-weaken (length (drop 2 (c ∷ cs))) (length cs) (lex_tag stmt (drop 2 (c ∷ cs)))
          (length-drop_two c cs) (lex_tag-Leaves stmt (drop 2 (c ∷ cs))))
]

tokenize_fuel-Ends : (fuel : ℕ) (src : Bytes) → length src < fuel → Ends (tokenize_fuel fuel src)
unfolding tokenize_fuel
tokenize_fuel-Ends zero src h = absurd (omega arith)
tokenize_fuel-Ends (suc fuel) [] h = tt
tokenize_fuel-Ends (suc fuel) (c ∷ cs) h =
    let piece = lex_piece-Leaves c cs in
    Ends-bind (lex_piece (c ∷ cs)) _ (Leaves-Ends (length cs) (lex_piece (c ∷ cs)) piece) (λ p e.
      Ends-bind (tokenize_fuel fuel p.1) _
        (tokenize_fuel-Ends fuel p.1
          (omega (arith, Leaves-le (length cs) (lex_piece (c ∷ cs)) p piece e)))
        (λ more _. tt))

-- `tokenize` ends on every source: its loops take at least one byte in each round, so that the fuel of
-- the model, one more than the bytes of the source, never runs out; so it is for the words of a tag.
pub tokenize-ne-out_of_fuel :
    (src : Bytes) (stmt : Bool)
    → (tokenize src ≢ err LexError.out_of_fuel) × (lex_words stmt src ≢ err LexError.out_of_fuel)
unfolding tokenize
tokenize-ne-out_of_fuel src stmt = (
  Ends-ne (tokenize_fuel (suc (length src)) src)
      (tokenize_fuel-Ends (suc (length src)) src (omega arith)),
  Ends-ne (lex_words stmt src) (lex_words-Ends stmt src),
)
