-- ===== src/Jinja/Parser/Front.antt =====
-- pkg/chat/jinja/parse.go: the first tokens of a printed expression, by which the parser tells its forms
-- apart.
use gogguf.Base.{
  ℕ, suc, ◌≤◌, ◌≡◌, refl, sym, ap, ◌∙◌, inl, inr, Bool, true, false, [], ◌∷◌, ◌++◌, append_assoc,
  arith, ltb, if◌then◌else◌, ltb→le, Bool-cases,
}
use mathlib.Core.Path.{subst}
use gogguf.Base.Bytes.{Bytes}
use gogguf.Jinja.Lexer.Words.{Mark, Token}
use gogguf.Jinja.Syntax.{
  Literal, Expr, lit, variable, attr, index, bin, unary, call, filter, test, object, array, kwarg,
}
use gogguf.Jinja.Parser.Expressions.{Tokens, Level, is_op}
use gogguf.Jinja.Parser.Print.{
  prec, rank, body, show, literal_token, negation, arg_tokens, IsPrintable,
}
use gogguf.Jinja.Parser.Strong.{opens, opens_mono, Opens}

unfoldable pub starts_assign : Tokens → Bool
starts_assign (Token.mark Mark.assign ∷ ts) = true
starts_assign _ = false

-- A keyword argument begins here.
unfoldable pub assigns : Tokens → Bool
assigns (Token.ident x ∷ Token.mark Mark.assign ∷ ts) = true
assigns _ = false

-- The tokens open an expression of rank p, and no keyword argument.
pub record Front (p : ℕ) (ts : Tokens) : Type 0 where
  pub first : Opens p ts
  pub second : (rest : Tokens) → starts_assign rest ≡ false → assigns (ts ++ rest) ≡ false

prec-le : (m : Mark) → prec m ≤ 9
unfolding prec
prec-le Mark.or_word = omega arith
prec-le _ = omega arith

pub rank-le : (e : Expr) → rank e ≤ 9
unfolding rank
rank-le (bin op l r) = prec-le op
rank-le (unary Mark.not_word e) = omega arith
rank-le (unary m e) = omega arith
rank-le (test e name negated) = omega arith
rank-le _ = omega arith

Front-mono : (p q : ℕ) (ts : Tokens) → p ≤ q → Front q ts → Front p ts
Front-mono p q ts h f = record {
  first = λ rest. opens_mono p q (ts ++ rest) h (f.first rest);
  second = f.second;
}

Front-append :
    (p : ℕ) (ts us : Tokens)
    → Front p ts
    → ((rest : Tokens) → starts_assign (us ++ rest) ≡ false)
    → Front p (ts ++ us)
Front-append p ts us f h = record {
  first = λ rest. ap (opens p) (append_assoc ts us rest) ∙ f.first (us ++ rest);
  second = λ rest s. ap assigns (append_assoc ts us rest) ∙ f.second (us ++ rest) (h rest);
}

-- One token that is no name decides both.
Front-token :
    (p : ℕ) (t : Token) (ts : Tokens)
    → ((us : Tokens) → opens p (t ∷ us) ≡ true)
    → ((us : Tokens) → assigns (t ∷ us) ≡ false)
    → Front p (t ∷ ts)
Front-token p t ts h k = record {
  first = λ rest. h (ts ++ rest);
  second = λ rest s. k (ts ++ rest);
}

show-Front : (p : ℕ) (e : Expr) → Front (rank e) (body e) → Front p (show p e)
show-Front p e f = elim (Bool-cases (ltb (rank e) p)) [
  | inl low ↦ subst (Front p) (sym (ap (λ b. if b then in_parens else body e) low)) (
      Front-token p (Token.mark Mark.lparen) (body e ++ Token.mark Mark.rparen ∷ [])
        (λ us. unfold opens in refl) (λ us. unfold assigns in refl))
  | inr high ↦
      subst (Front p) (sym (ap (λ b. if b then in_parens else body e) high))
        (Front-mono p (rank e) (body e) (ltb→le (rank e) p high) f)
]
  where
    in_parens : Tokens
    in_parens = Token.mark Mark.lparen ∷ (body e ++ Token.mark Mark.rparen ∷ [])

literal-Front : (v : Literal) → Front 9 (literal_token v ∷ [])
literal-Front v =
    Front-token 9 (literal_token v) [] (λ us. unfold opens literal_token in opened v us)
      (λ us. named v us)
  where
    opened : (v : Literal) (us : Tokens) → opens 9 (literal_token v ∷ us) ≡ true
    opened (Literal.text s) us = unfold opens literal_token in refl
    opened (Literal.number s) us = unfold opens literal_token in refl
    opened (Literal.bool true) us = unfold opens literal_token in refl
    opened (Literal.bool false) us = unfold opens literal_token in refl
    opened Literal.none_lit us = unfold opens literal_token in refl

    named : (v : Literal) (us : Tokens) → assigns (literal_token v ∷ us) ≡ false
    named (Literal.text s) us = unfold assigns literal_token in refl
    named (Literal.number s) us = unfold assigns literal_token in refl
    named (Literal.bool true) us = unfold assigns literal_token in refl
    named (Literal.bool false) us = unfold assigns literal_token in refl
    named Literal.none_lit us = unfold assigns literal_token in refl

variable-Front : (x : Bytes) → Front 9 (Token.ident x ∷ [])
variable-Front x = record { first = λ rest. unfold opens in refl; second = λ rest s. alone rest s }
  where
    alone : (rest : Tokens) → starts_assign rest ≡ false → assigns (Token.ident x ∷ rest) ≡ false
    alone [] s = unfold assigns in refl
    alone (Token.mark Mark.assign ∷ ts) s = unfold starts_assign in absurd (cc)
    alone (t ∷ ts) s = unfold assigns in refl

no_assign :
    (l : Level) (op : Mark) (us : Tokens)
    → is_op l op ≡ true
    → starts_assign (Token.mark op ∷ us) ≡ false
unfolding starts_assign is_op
no_assign Level.or_level Mark.assign us h = absurd (cc)
no_assign Level.and_level Mark.assign us h = absurd (cc)
no_assign Level.compare_level Mark.assign us h = absurd (cc)
no_assign Level.add_level Mark.assign us h = absurd (cc)
no_assign Level.mul_level Mark.assign us h = absurd (cc)
no_assign l _ us h = refl

pub body-Front : (e : Expr) → IsPrintable false e → Front (rank e) (body e)
unfolding body IsPrintable
body-Front (lit v) h = literal-Front v
body-Front (variable x) h = variable-Front x
body-Front (attr e a) h =
    Front-append 9 (show 9 e) _ (show-Front 9 e (body-Front e h))
      (λ rest. unfold starts_assign in refl)
body-Front (index e k) h =
    Front-append 9 (show 9 e) _ (show-Front 9 e (body-Front e h.0))
      (λ rest. unfold starts_assign in refl)
body-Front (bin op l r) ((v, is), hl, hr) =
    Front-append (prec op) (show (prec op) l) (Token.mark op ∷ show (suc (prec op)) r)
      (show-Front (prec op) l (body-Front l hl))
      (λ rest. no_assign v op (show (suc (prec op)) r ++ rest) is)
body-Front (unary Mark.not_word e) h =
    Front-token 3 (Token.mark Mark.not_word) (show 3 e) (λ us. unfold opens in refl)
      (λ us. unfold assigns in refl)
body-Front (unary Mark.minus e) h =
    Front-token 8 (Token.mark Mark.minus) (show 8 e) (λ us. unfold opens in refl)
      (λ us. unfold assigns in refl)
body-Front (unary _ e) h = absurd h
body-Front (call e args) h =
    Front-append 9 (show 9 e) (Token.mark Mark.lparen ∷ arg_tokens args)
      (show-Front 9 e (body-Front e h.0)) (λ rest. unfold starts_assign in refl)
body-Front (filter e name args) h =
    Front-append 9 (show 9 e)
      (Token.mark Mark.pipe ∷ Token.ident name ∷ Token.mark Mark.lparen ∷ arg_tokens args)
      (show-Front 9 e (body-Front e h.0)) (λ rest. unfold starts_assign in refl)
body-Front (test e name negated) h =
    Front-append 4 (show 6 e)
      (Token.mark Mark.is_word ∷ (negation negated ++ Token.ident name ∷ []))
      (Front-mono 4 6 (show 6 e) (omega arith) (show-Front 6 e (body-Front e h)))
      (λ rest. unfold starts_assign in refl)
body-Front (object fs) h =
    Front-token 9 (Token.mark Mark.lbrace) _ (λ us. unfold opens in refl)
      (λ us. unfold assigns in refl)
body-Front (array es) h =
    Front-token 9 (Token.mark Mark.lbracket) _ (λ us. unfold opens in refl)
      (λ us. unfold assigns in refl)
body-Front (kwarg name e) h = absurd (cc)
