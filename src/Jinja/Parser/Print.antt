-- ===== src/Jinja/Parser/Print.antt =====
-- Tokens for each expression, with parentheses only where the precedences ask for them.
use gogguf.Base.{ℕ, suc, ◌≡◌, refl, Bool, true, false, [], ◌∷◌, ◌++◌, ltb, if◌then◌else◌}
use gogguf.Base.Bytes.{Bytes, equal}
use gogguf.Jinja.Lexer.Words.{Mark, Token}
use gogguf.Jinja.Syntax.{
  Literal, Expr, Exprs, Fields, lit, variable, attr, index, bin, unary, call, filter, test, object,
  array, kwarg, no_exprs, more_exprs, no_fields, more_fields,
}
use gogguf.Jinja.Parser.Expressions.{Tokens, Level, is_op}

-- How tightly a mark binds what stands before it; 0 where it ends an expression.
unfoldable pub prec : Mark → ℕ
prec Mark.or_word = 1
prec Mark.and_word = 2
prec Mark.is_word = 5
prec Mark.in_word = 5
prec Mark.eq = 5
prec Mark.ne = 5
prec Mark.lt = 5
prec Mark.gt = 5
prec Mark.le = 5
prec Mark.ge = 5
prec Mark.plus = 6
prec Mark.minus = 6
prec Mark.star = 7
prec Mark.slash = 7
prec Mark.percent = 7
prec Mark.dot = 9
prec Mark.lbracket = 9
prec Mark.lparen = 9
prec Mark.pipe = 9
prec _ = 0

abbrev pub level_rank : Level → ℕ
level_rank Level.or_level = 1
level_rank Level.and_level = 2
level_rank Level.compare_level = 5
level_rank Level.add_level = 6
level_rank Level.mul_level = 7

pub is_op-prec : (l : Level) (m : Mark) → is_op l m ≡ true → prec m ≡ level_rank l
unfolding is_op prec
is_op-prec Level.or_level Mark.or_word h = refl
is_op-prec Level.and_level Mark.and_word h = refl
is_op-prec Level.compare_level Mark.in_word h = refl
is_op-prec Level.compare_level Mark.eq h = refl
is_op-prec Level.compare_level Mark.ne h = refl
is_op-prec Level.compare_level Mark.lt h = refl
is_op-prec Level.compare_level Mark.gt h = refl
is_op-prec Level.compare_level Mark.le h = refl
is_op-prec Level.compare_level Mark.ge h = refl
is_op-prec Level.add_level Mark.plus h = refl
is_op-prec Level.add_level Mark.minus h = refl
is_op-prec Level.mul_level Mark.star h = refl
is_op-prec Level.mul_level Mark.slash h = refl
is_op-prec Level.mul_level Mark.percent h = refl
is_op-prec _ _ h = absurd (cc)

-- How tightly an expression is bound by itself: 3 for a negation, 4 for a test, 8 for a minus sign.
unfoldable pub rank : Expr → ℕ
unfolding prec
rank (bin op l r) = prec op
rank (unary Mark.not_word e) = 3
rank (unary m e) = 8
rank (test e name negated) = 4
rank _ = 9

-- The tokens of an expression of rank k where rank p is wanted.
abbrev pub wrap : ℕ → ℕ → Tokens → Tokens
wrap p k ts = if ltb k p then Token.mark Mark.lparen ∷ (ts ++ Token.mark Mark.rparen ∷ []) else ts

unfoldable pub literal_token : Literal → Token
literal_token (Literal.text s) = Token.string s
literal_token (Literal.number s) = Token.number s
literal_token (Literal.bool b) = if b then Token.mark Mark.true_word else Token.mark Mark.false_word
literal_token Literal.none_lit = Token.mark Mark.none_word

abbrev pub negation : Bool → Tokens
negation negated = if negated then Token.mark Mark.not_word ∷ [] else []

abbrev pub key_tokens : Bytes → Tokens
key_tokens k = Token.string k ∷ Token.mark Mark.colon ∷ []

unfoldable mutual
  unfolding rank literal_token

  pub body : Expr → Tokens
  body (lit v) = literal_token v ∷ []
  body (variable x) = Token.ident x ∷ []
  body (attr e a) = wrap 9 (rank e) (body e) ++ Token.mark Mark.dot ∷ Token.ident a ∷ []
  body (index e k) =
      wrap 9 (rank e) (body e)
      ++ Token.mark Mark.lbracket ∷ (body k ++ Token.mark Mark.rbracket ∷ [])
  body (bin op l r) =
      wrap (prec op) (rank l) (body l) ++ Token.mark op ∷ wrap (suc (prec op)) (rank r) (body r)
  body (unary Mark.not_word e) = Token.mark Mark.not_word ∷ wrap 3 (rank e) (body e)
  body (unary m e) = Token.mark m ∷ wrap 8 (rank e) (body e)
  body (call e args) = wrap 9 (rank e) (body e) ++ Token.mark Mark.lparen ∷ arg_tokens args
  body (filter e name args) =
      wrap 9 (rank e) (body e)
      ++ Token.mark Mark.pipe ∷ Token.ident name ∷ Token.mark Mark.lparen ∷ arg_tokens args
  body (test e name negated) =
      wrap 6 (rank e) (body e)
      ++ Token.mark Mark.is_word ∷ (negation negated ++ Token.ident name ∷ [])
  body (object fs) = Token.mark Mark.lbrace ∷ field_tokens fs
  body (array es) = Token.mark Mark.lbracket ∷ item_tokens es
  body (kwarg name e) = Token.ident name ∷ Token.mark Mark.assign ∷ body e

  -- What stands behind the opening parenthesis, and behind an argument.
  pub arg_tokens : Exprs → Tokens
  arg_tokens no_exprs = Token.mark Mark.rparen ∷ []
  arg_tokens (more_exprs e es) = body e ++ args_tail es

  pub args_tail : Exprs → Tokens
  args_tail no_exprs = Token.mark Mark.rparen ∷ []
  args_tail (more_exprs e es) = Token.mark Mark.comma ∷ (body e ++ args_tail es)

  pub item_tokens : Exprs → Tokens
  item_tokens no_exprs = Token.mark Mark.rbracket ∷ []
  item_tokens (more_exprs e es) = body e ++ items_tail es

  pub items_tail : Exprs → Tokens
  items_tail no_exprs = Token.mark Mark.rbracket ∷ []
  items_tail (more_exprs e es) = Token.mark Mark.comma ∷ (body e ++ items_tail es)

  pub field_tokens : Fields → Tokens
  field_tokens no_fields = Token.mark Mark.rbrace ∷ []
  field_tokens (more_fields k e fs) = key_tokens k ++ (body e ++ fields_tail fs)

  pub fields_tail : Fields → Tokens
  fields_tail no_fields = Token.mark Mark.rbrace ∷ []
  fields_tail (more_fields k e fs) =
      Token.mark Mark.comma ∷ (key_tokens k ++ (body e ++ fields_tail fs))

-- The tokens of an expression where rank p is wanted.
abbrev pub show : ℕ → Expr → Tokens
show p e = wrap p (rank e) (body e)

-- No field has the name.
abbrev pub Lacks : Bytes → Fields → Type 0
Lacks key no_fields = Unit
Lacks key (more_fields k e fs) = (equal key k ≡ false) × Lacks key fs

-- A tree that the parser can make: operators of their levels, a keyword argument only where an
-- argument stands, and no two fields with one name.
unfoldable mutual
  pub IsPrintable : Bool → Expr → Type 0
  IsPrintable arg (lit v) = Unit
  IsPrintable arg (variable x) = Unit
  IsPrintable arg (attr e a) = IsPrintable false e
  IsPrintable arg (index e k) = IsPrintable false e × IsPrintable false k
  IsPrintable arg (bin op l r) =
      ((v : Level) × (is_op v op ≡ true)) × IsPrintable false l × IsPrintable false r
  IsPrintable arg (unary Mark.not_word e) = IsPrintable false e
  IsPrintable arg (unary Mark.minus e) = IsPrintable false e
  IsPrintable arg (unary _ e) = ⊥
  IsPrintable arg (call e args) = IsPrintable false e × ArePrintable true args
  IsPrintable arg (filter e name args) = IsPrintable false e × ArePrintable true args
  IsPrintable arg (test e name negated) = IsPrintable false e
  IsPrintable arg (object fs) = ArePrintableFields fs
  IsPrintable arg (array es) = ArePrintable false es
  IsPrintable arg (kwarg name e) = (arg ≡ true) × IsPrintable false e

  pub ArePrintable : Bool → Exprs → Type 0
  ArePrintable arg no_exprs = Unit
  ArePrintable arg (more_exprs e es) = IsPrintable arg e × ArePrintable arg es

  pub ArePrintableFields : Fields → Type 0
  ArePrintableFields no_fields = Unit
  ArePrintableFields (more_fields k e fs) = Lacks k fs × IsPrintable false e × ArePrintableFields fs
