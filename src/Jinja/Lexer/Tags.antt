-- ===== src/Jinja/Lexer/Tags.antt =====
-- Text and tags in a template.
use gogguf.Base.{ℕ, ◌≡◌, refl, none, [], ◌∷◌}
use gogguf.Base.Bytes.{Bytes}
use gogguf.Base.Result.{ok, ◌>>=◌}
use gogguf.Jinja.Lexer.Words.{Token}
use gogguf.Jinja.Lexer.{opening, span_text, lex_piece, tokenize_fuel, tokenize}

-- No tag opens in the text.
abbrev pub IsPlain : Bytes → Type 0
IsPlain [] = Unit
IsPlain (c ∷ cs) = (opening (c ∷ cs) ≡ none) × IsPlain cs

span_text-IsPlain : (src : Bytes) → IsPlain src → span_text src ≡ (src, [])
unfolding span_text
span_text-IsPlain [] h = refl
span_text-IsPlain (c ∷ cs) h = rw (h.0, span_text) (rw (span_text-IsPlain cs h.1))

-- A template in which no tag opens is one text, all of it, and the end.
pub tokenize-IsPlain :
    (c : ℕ) (cs : Bytes)
    → IsPlain (c ∷ cs)
    → tokenize (c ∷ cs) ≡ ok (Token.text (c ∷ cs) ∷ Token.eof ∷ [])
unfolding tokenize tokenize_fuel
tokenize-IsPlain c cs h =
    let piece : lex_piece (c ∷ cs) ≡ ok (Token.text (c ∷ cs) ∷ [], []) =
      unfold lex_piece in rw (h.0, lex_piece) (rw (span_text-IsPlain (c ∷ cs) h)) in
    rw (piece, ◌>>=◌)
