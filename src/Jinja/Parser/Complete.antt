-- ===== src/Jinja/Parser/Complete.antt =====
-- pkg/chat/jinja/parse.go: the parser reads back every printed expression.
use gogguf.Base.{
  ℕ, zero, suc, ◌+◌, ◌*◌, ◌≤◌, ◌<◌, ◌≡◌, refl, sym, Bool, true, false, [], ◌∷◌, ◌++◌, arith, length,
}
use mathlib.Core.Path.{subst}
use gogguf.Base.Bytes.{Bytes}
use gogguf.Base.Result.{ok}
use gogguf.Jinja.Lexer.Words.{Mark, Token}
use gogguf.Jinja.Syntax.{
  Literal, Expr, Exprs, Fields, lit, variable, attr, index, bin, unary, call, filter, test, object,
  array, kwarg, no_exprs, more_exprs, no_fields, more_fields,
}
use gogguf.Jinja.Parser.Expressions.{Tokens, Level, is_op, parse_binary, parse_primary}
use gogguf.Jinja.Parser.Print.{
  level_rank, is_op-prec, rank, body, show, literal_token, arg_tokens, IsPrintable, ArePrintable,
  ArePrintableFields,
}
use gogguf.Jinja.Parser.Strong.{
  stops, opens, opens_mono, Opens, Strong, StrongChain, to_operand, down,
}
use gogguf.Jinja.Parser.Steps.{
  primary-Strong, show-Strong, bin-Strong, attr-Strong, index-Strong, ReadsArgs, call-Strong,
  filter-Strong, test-Strong, not-Strong, minus-Strong,
}
use gogguf.Jinja.Parser.Front.{rank-le, body-Front}
use gogguf.Jinja.Parser.Lists.{
  Reads, ReadsArg, plain-ReadsArg, kwarg-ReadsArg, ReadsTail, ReadsItems, none-ReadsTail,
  more-ReadsTail, none-ReadsArgs, more-ReadsArgs, none-ReadsItems, more-ReadsItems,
  no_items-ReadsPrimary, items-ReadsPrimary,
}
use gogguf.Jinja.Parser.FieldLists.{
  AreDistinct, ReadsFields, none-ReadsFields, more-ReadsFields, no_fields-ReadsPrimary,
  fields-ReadsPrimary,
}

-- The expression is read at its own rank.
abbrev Core : Expr → Type 0
Core e = Strong (rank e) (body e) e

printed-Strong : (p : ℕ) (e : Expr) → p ≤ 9 → IsPrintable false e → Core e → Strong p (show p e) e
printed-Strong p e b h c = let f = body-Front e h in show-Strong p e b (rank-le e) f.first c

Core-Reads : (e : Expr) → IsPrintable false e → Core e → Reads (body e) e
Core-Reads e h c =
    let f = body-Front e h in
    down (rank e) 0 (rank e) (body e) e (omega arith) (rank-le e) f.first c

Core-Opens : (e : Expr) → IsPrintable false e → Opens 0 (body e)
Core-Opens e h rest =
    let f = body-Front e h in opens_mono 0 (rank e) (body e ++ rest) (omega arith) (f.first rest)

Core-ReadsArg : (e : Expr) → IsPrintable false e → Core e → ReadsArg (body e) e
Core-ReadsArg e h c =
    let f = body-Front e h in plain-ReadsArg (body e) e f.second (Core-Reads e h c)

lit-Core : (v : Literal) → Core (lit v)
unfolding rank body
lit-Core v = primary-Strong (literal_token v ∷ []) (lit v) (read v)
  where
    read :
        (v : Literal) (rest : Tokens) (f : ℕ)
        → 16 * length ((literal_token v ∷ []) ++ rest) < f
        → parse_primary f ((literal_token v ∷ []) ++ rest) ≡ ok (lit v, rest)
    read v rest zero n = absurd (omega arith)
    read (Literal.text s) rest (suc f) n = unfold literal_token parse_binary in refl
    read (Literal.number s) rest (suc f) n = unfold literal_token parse_binary in refl
    read (Literal.bool true) rest (suc f) n = unfold literal_token parse_binary in refl
    read (Literal.bool false) rest (suc f) n = unfold literal_token parse_binary in refl
    read Literal.none_lit rest (suc f) n = unfold literal_token parse_binary in refl

variable-Core : (x : Bytes) → Core (variable x)
unfolding rank body
variable-Core x = primary-Strong (Token.ident x ∷ []) (variable x) read
  where
    read :
        (rest : Tokens) (f : ℕ)
        → 16 * length ((Token.ident x ∷ []) ++ rest) < f
        → parse_primary f ((Token.ident x ∷ []) ++ rest) ≡ ok (variable x, rest)
    read rest zero n = absurd (omega arith)
    read rest (suc f) n = unfold parse_binary in refl

chain_at : (l : Level) (ts : Tokens) (e : Expr) → Strong (level_rank l) ts e → StrongChain l ts e
chain_at Level.or_level ts e h = h
chain_at Level.and_level ts e h = h
chain_at Level.compare_level ts e h = h
chain_at Level.add_level ts e h = h
chain_at Level.mul_level ts e h = h

at_chain : (l : Level) (ts : Tokens) (e : Expr) → StrongChain l ts e → Strong (level_rank l) ts e
at_chain Level.or_level ts e h = h
at_chain Level.and_level ts e h = h
at_chain Level.compare_level ts e h = h
at_chain Level.add_level ts e h = h
at_chain Level.mul_level ts e h = h

level_rank-lt : (l : Level) → level_rank l < 9
level_rank-lt Level.or_level = omega arith
level_rank-lt Level.and_level = omega arith
level_rank-lt Level.compare_level = omega arith
level_rank-lt Level.add_level = omega arith
level_rank-lt Level.mul_level = omega arith

bin-Core :
    (v : Level) (op : Mark) (l r : Expr)
    → is_op v op ≡ true
    → IsPrintable false l
    → IsPrintable false r
    → Core l
    → Core r
    → Core (bin op l r)
unfolding rank body
bin-Core v op l r is hl hr cl cr =
    subst (λ p. Strong p (show p l ++ Token.mark op ∷ show (suc p) r) (bin op l r))
      (sym (is_op-prec v op is))
      (at_chain v _ _ (
        bin-Strong v op (show (level_rank v) l) (show (suc (level_rank v)) r) l r is
          (chain_at v (show (level_rank v) l) l
            (printed-Strong (level_rank v) l (omega (arith, level_rank-lt v)) hl cl))
          (to_operand v (show (suc (level_rank v)) r) r
            (printed-Strong (suc (level_rank v)) r (omega (arith, level_rank-lt v)) hr cr))))

arg-Opens : (e : Expr) → IsPrintable true e → Opens 0 (body e)
unfolding IsPrintable
arg-Opens (kwarg name x) h rest = unfold body opens in refl
arg-Opens (unary Mark.not_word e) h rest = Core-Opens (unary Mark.not_word e) h rest
arg-Opens (unary Mark.minus e) h rest = Core-Opens (unary Mark.minus e) h rest
arg-Opens (unary _ e) h rest = absurd h
arg-Opens (lit v) h rest = Core-Opens (lit v) h rest
arg-Opens (variable x) h rest = Core-Opens (variable x) h rest
arg-Opens (attr e a) h rest = Core-Opens (attr e a) h rest
arg-Opens (index e k) h rest = Core-Opens (index e k) h rest
arg-Opens (bin op l r) h rest = Core-Opens (bin op l r) h rest
arg-Opens (call e args) h rest = Core-Opens (call e args) h rest
arg-Opens (filter e name args) h rest = Core-Opens (filter e name args) h rest
arg-Opens (test e name negated) h rest = Core-Opens (test e name negated) h rest
arg-Opens (object fs) h rest = Core-Opens (object fs) h rest
arg-Opens (array es) h rest = Core-Opens (array es) h rest

fields-AreDistinct : (fs : Fields) → ArePrintableFields fs → AreDistinct fs
unfolding IsPrintable
fields-AreDistinct no_fields h = tt
fields-AreDistinct (more_fields k e fs) (lacks, _, h) = (lacks, fields-AreDistinct fs h)

-- What is read of an argument: of a keyword argument, its value.
abbrev Whole : Expr → Type 0
Whole (kwarg name x) = Reads (body x) x
Whole e = Core e

plain-Core : (e : Expr) → IsPrintable false e → Whole e → Core e
unfolding IsPrintable
plain-Core (kwarg name x) h w = absurd (cc)
plain-Core _ h w = w

Whole-ReadsArg : (e : Expr) → IsPrintable true e → Whole e → ReadsArg (body e) e
unfolding IsPrintable
Whole-ReadsArg (kwarg name x) h w = unfold body in kwarg-ReadsArg name (body x) x w
Whole-ReadsArg (unary Mark.not_word e) h w = Core-ReadsArg (unary Mark.not_word e) h w
Whole-ReadsArg (unary Mark.minus e) h w = Core-ReadsArg (unary Mark.minus e) h w
Whole-ReadsArg (unary _ e) h w = absurd h
Whole-ReadsArg (lit v) h w = Core-ReadsArg (lit v) h w
Whole-ReadsArg (variable x) h w = Core-ReadsArg (variable x) h w
Whole-ReadsArg (attr e a) h w = Core-ReadsArg (attr e a) h w
Whole-ReadsArg (index e k) h w = Core-ReadsArg (index e k) h w
Whole-ReadsArg (bin op l r) h w = Core-ReadsArg (bin op l r) h w
Whole-ReadsArg (call e args) h w = Core-ReadsArg (call e args) h w
Whole-ReadsArg (filter e name args) h w = Core-ReadsArg (filter e name args) h w
Whole-ReadsArg (test e name negated) h w = Core-ReadsArg (test e name negated) h w
Whole-ReadsArg (object fs) h w = Core-ReadsArg (object fs) h w
Whole-ReadsArg (array es) h w = Core-ReadsArg (array es) h w

mutual
  unfolding rank body IsPrintable

  core : (arg : Bool) (e : Expr) → IsPrintable arg e → Whole e
  core arg (lit v) h = lit-Core v
  core arg (variable x) h = variable-Core x
  core arg (attr e a) h =
      attr-Strong (show 9 e) e a
        (printed-Strong 9 e (omega arith) h (plain-Core e h (core false e h)))
  core arg (index e k) (h, w) =
      index-Strong (show 9 e) (body k) e k
        (printed-Strong 9 e (omega arith) h (plain-Core e h (core false e h)))
        (Core-Reads k w (plain-Core k w (core false k w)))
  core arg (bin op l r) ((v, is), hl, hr) =
      bin-Core v op l r is hl hr (plain-Core l hl (core false l hl))
        (plain-Core r hr (core false r hr))
  core arg (unary Mark.not_word e) h =
      not-Strong (show 3 e) e (printed-Strong 3 e (omega arith) h (plain-Core e h (core false e h)))
  core arg (unary Mark.minus e) h =
      minus-Strong (show 8 e) e
        (printed-Strong 8 e (omega arith) h (plain-Core e h (core false e h)))
  core arg (unary _ e) h = absurd h
  core arg (call e args) (h, w) =
      call-Strong (show 9 e) (arg_tokens args) e args
        (printed-Strong 9 e (omega arith) h (plain-Core e h (core false e h))) (args_read args w)
  core arg (filter e name args) (h, w) =
      filter-Strong (show 9 e) (arg_tokens args) e name args
        (printed-Strong 9 e (omega arith) h (plain-Core e h (core false e h))) (args_read args w)
  core arg (test e name negated) h =
      test-Strong (show 6 e) e name negated
        (printed-Strong 6 e (omega arith) h (plain-Core e h (core false e h)))
  core arg (object no_fields) h =
      primary-Strong (body (object no_fields)) (object no_fields) no_fields-ReadsPrimary
  core arg (object (more_fields k e fs)) (lacks, h, w) =
      primary-Strong (body (object (more_fields k e fs))) (object (more_fields k e fs)) (
        fields-ReadsPrimary k e fs (lacks, fields-AreDistinct fs w)
          (Core-Reads e h (plain-Core e h (core false e h))) (fields_read fs w))
  core arg (array no_exprs) h =
      primary-Strong (body (array no_exprs)) (array no_exprs) no_items-ReadsPrimary
  core arg (array (more_exprs e es)) (h, w) =
      primary-Strong (body (array (more_exprs e es))) (array (more_exprs e es)) (
        items-ReadsPrimary e es (Core-Opens e h) (Core-Reads e h (plain-Core e h (core false e h)))
          (items_read es w))
  core arg (kwarg name e) (_, h) = Core-Reads e h (plain-Core e h (core false e h))

  args_read : (es : Exprs) → ArePrintable true es → ReadsArgs (arg_tokens es) es
  args_read no_exprs h = none-ReadsArgs
  args_read (more_exprs e es) (h, w) =
      more-ReadsArgs e es (arg-Opens e h) (Whole-ReadsArg e h (core true e h)) (tail_read es w)

  tail_read : (es : Exprs) → ArePrintable true es → ReadsTail es
  tail_read no_exprs h = none-ReadsTail
  tail_read (more_exprs e es) (h, w) =
      more-ReadsTail e es (Whole-ReadsArg e h (core true e h)) (tail_read es w)

  items_read : (es : Exprs) → ArePrintable false es → ReadsItems es
  items_read no_exprs h = none-ReadsItems
  items_read (more_exprs e es) (h, w) =
      more-ReadsItems e es (Core-Opens e h) (Core-Reads e h (plain-Core e h (core false e h)))
        (items_read es w)

  fields_read : (fs : Fields) → ArePrintableFields fs → ReadsFields fs
  fields_read no_fields h = none-ReadsFields
  fields_read (more_fields k e fs) (lacks, h, w) =
      more-ReadsFields k e fs (Core-Reads e h (plain-Core e h (core false e h))) (fields_read fs w)

-- Each printable expression, written with parentheses only where the precedences ask for them and
-- followed by tokens that begin with no operator, is read back as itself and nothing more is read, with
-- fuel in proportion to the tokens.
pub parse_binary-body :
    (e : Expr) (rest : Tokens) (f : ℕ)
    → IsPrintable false e
    → stops 1 rest ≡ true
    → 13 + 16 * length (body e ++ rest) < f
    → parse_binary f Level.or_level (body e ++ rest) ≡ ok (e, rest)
parse_binary-body e rest f h s n = Core-Reads e h (plain-Core e h (core false e h)) rest f n s
