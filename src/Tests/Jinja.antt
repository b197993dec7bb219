-- ===== src/Tests/Jinja.antt =====
-- Concrete templates for the theorems about pkg/chat/jinja.
use gogguf.Base.{◌≡◌, refl, ◌≢◌, inr, false, List, [], ◌∷◌, All}
use gogguf.Base.Bytes.{Bytes, codes}
use gogguf.Base.Result.{ok, err}
use gogguf.Jinja.Lexer.{opening, tokenize}
use gogguf.Jinja.Lexer.Words.{
  is_ident_start, is_ident_part, keyword, LexError, Mark, Token, lex_words,
}
use gogguf.Jinja.Lexer.Total.{tokenize-ne-out_of_fuel}
use gogguf.Jinja.Lexer.Print.{IsWord, show_all}
use gogguf.Jinja.Lexer.RoundTrip.{lex_words-show_all}
use gogguf.Jinja.Lexer.Tags.{IsPlain}

abbrev some_template : Bytes
some_template = codes "a{{ x }}"

tokenize-ne-out_of_fuel_example :
    (tokenize some_template ≢ err LexError.out_of_fuel)
    × (lex_words false some_template ≢ err LexError.out_of_fuel)
tokenize-ne-out_of_fuel_example = tokenize-ne-out_of_fuel some_template false

two_letters-IsPlain : IsPlain (codes "a b")
unfolding opening
two_letters-IsPlain = (refl, (refl, (refl, tt)))

-- `x1 == "a\"" -2`
abbrev some_words : List Token
some_words =
    Token.ident (codes "x1")
    ∷ Token.mark Mark.eq
    ∷ Token.string (b'a' ∷ b'"' ∷ [])
    ∷ Token.number (codes "-2")
    ∷ []

some_words-IsWord : All (IsWord false) some_words
unfolding keyword is_ident_start is_ident_part
some_words-IsWord =
    ((refl, (refl, tt), refl), ((λ e. absurd (cc)), (tt, (inr (refl, refl, tt), tt))))

lex_words-show_all_example : lex_words false (show_all some_words) ≡ ok some_words
lex_words-show_all_example = lex_words-show_all false some_words some_words-IsWord
