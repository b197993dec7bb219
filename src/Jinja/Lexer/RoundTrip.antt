-- ===== src/Jinja/Lexer/RoundTrip.antt =====
-- The lexer after the texts of the tokens.
use gogguf.Base.{
  ℕ, zero, suc, ◌≤◌, ◌<◌, ◌≡◌, refl, ap, ◌∙◌, Bool, false, List, [], ◌∷◌, ◌++◌, arith, length,
  length-append, All,
}
use gogguf.Base.Bytes.{Bytes}
use gogguf.Base.Result.{ok, ◌>>=◌}
use gogguf.Jinja.Lexer.Words.{Token, is_blank, lex_word, skip_blanks, lex_words_fuel, lex_words}
use gogguf.Jinja.Lexer.Print.{show, show_all, IsWord, LexesTo, show-LexesTo}

-- A blank in front is skipped.
lex_words_fuel-blank :
    (fuel : ℕ) (stmt : Bool) (rest : Bytes)
    → lex_words_fuel (suc fuel) stmt (b' ' ∷ rest) ≡ lex_words_fuel (suc fuel) stmt rest
unfolding lex_words_fuel skip_blanks
lex_words_fuel-blank fuel stmt rest = refl

lex_words_fuel-step :
    (fuel : ℕ) (stmt : Bool) (c : ℕ) (cs : Bytes)
    → is_blank c ≡ false
    → lex_words_fuel (suc fuel) stmt (c ∷ cs)
      ≡ (lex_word stmt c cs >>= λ p. lex_words_fuel fuel stmt p.1 >>= λ toks. ok (p.0 ∷ toks))
unfolding lex_words_fuel skip_blanks
lex_words_fuel-step fuel stmt c cs h = rw (h, lex_words_fuel)

lex_words_fuel-token :
    (fuel : ℕ) (stmt : Bool) (bytes : Bytes) (t : Token) (rest : Bytes)
    → LexesTo stmt bytes t
    → lex_words_fuel (suc fuel) stmt (bytes ++ b' ' ∷ rest)
      ≡ (lex_words_fuel fuel stmt (b' ' ∷ rest) >>= λ toks. ok (t ∷ toks))
lex_words_fuel-token fuel stmt bytes t rest l =
    ap (λ b. lex_words_fuel (suc fuel) stmt (b ++ b' ' ∷ rest)) l.splits
    ∙ lex_words_fuel-step fuel stmt l.first (l.others ++ b' ' ∷ rest) l.no_blank
    ∙ ap (λ r. r >>= λ p. lex_words_fuel fuel stmt p.1 >>= λ toks. ok (p.0 ∷ toks)) (l.read rest)

show_all-cons : (t : Token) (ts : List Token) → show_all (t ∷ ts) ≡ show t ++ b' ' ∷ show_all ts
unfolding show_all
show_all-cons t ts = refl

lex_words_fuel-show_all :
    (fuel : ℕ) (stmt : Bool) (ts : List Token)
    → length ts < fuel
    → All (IsWord stmt) ts
    → lex_words_fuel fuel stmt (show_all ts) ≡ ok ts
lex_words_fuel-show_all zero stmt ts h words = absurd (omega arith)
lex_words_fuel-show_all (suc fuel) stmt [] h words =
    unfold lex_words_fuel skip_blanks show_all in refl
lex_words_fuel-show_all (suc zero) stmt (t ∷ ts) h words = absurd (omega arith)
lex_words_fuel-show_all (suc (suc fuel)) stmt (t ∷ ts) h words =
    ap (lex_words_fuel (suc (suc fuel)) stmt) (show_all-cons t ts)
    ∙ lex_words_fuel-token (suc fuel) stmt (show t) t (show_all ts) (show-LexesTo stmt t words.0)
    ∙ ap (λ r. r >>= λ toks. ok (t ∷ toks))
        (lex_words_fuel-blank fuel stmt (show_all ts)
          ∙ lex_words_fuel-show_all (suc fuel) stmt ts (omega arith) words.1)

length-show_all : (ts : List Token) → length ts ≤ length (show_all ts)
unfolding show_all
length-show_all [] = omega arith
length-show_all (t ∷ ts) =
    omega (arith, length-append (show t) (b' ' ∷ show_all ts), length-show_all ts)

-- `lexWords` reads back every list of tokens that can stand in a tag from their texts with a blank
-- behind each: words that are no keyword, numbers, strings of any bytes, and all marks and keywords,
-- a single `=` only in a statement.
pub lex_words-show_all :
    (stmt : Bool) (ts : List Token) → All (IsWord stmt) ts → lex_words stmt (show_all ts) ≡ ok ts
unfolding lex_words
lex_words-show_all stmt ts words =
    lex_words_fuel-show_all (suc (length (show_all ts))) stmt ts (omega (arith, length-show_all ts))
      words
