-- ===== src/Jinja/Parser/Expressions.antt =====
-- pkg/chat/jinja/parse.go: the expressions. The methods for the five binary levels are one function of
-- the level. Each call costs a unit of fuel.
use gogguf.Base.{
  ℕ, zero, suc, Bool, true, false, Option, none, some, List, ◌∷◌, if◌then◌else◌, drop,
}
use gogguf.Base.Bytes.{Bytes}
use gogguf.Base.Result.{Result, ok, err, ◌>>=◌}
use gogguf.Jinja.Lexer.Words.{Mark, Token}
use gogguf.Jinja.Syntax.{
  Literal, Expr, Exprs, Fields, no_exprs, more_exprs, no_fields, lit, variable, attr, index, bin,
  unary, call, filter, test, object, array, kwarg, set_field,
}

-- `out_of_fuel` is no error of the code: it stands for the end of the fuel of the model.
pub data ParseError : Type 0 where
  expected_attribute expected_filter expected_test expected_key expected_colon : ParseError
  expected_rparen expected_rbracket expected_rbrace unexpected_in_expression : ParseError
  expected_keyword expected_expr_close expected_stmt_close unexpected_token unknown_block :
      ParseError
  expected_endif expected_endfor expected_loop_variable expected_in expected_assign extra_tokens :
      ParseError
  out_of_fuel : ParseError

abbrev pub Tokens : Type 0
Tokens = List Token

abbrev pub Parser : Type 0 → Type 0
Parser A = Tokens → Result ParseError (A × Tokens)

-- `parseOr`, `parseAnd`, `parseCompare`, `parseAdd` and `parseMul`.
pub data Level : Type 0 where
  or_level and_level compare_level add_level mul_level : Level

-- The operators that the loop of a level goes on with.
unfoldable pub is_op : Level → Mark → Bool
is_op Level.or_level Mark.or_word = true
is_op Level.and_level Mark.and_word = true
is_op Level.compare_level Mark.in_word = true
is_op Level.compare_level Mark.eq = true
is_op Level.compare_level Mark.ne = true
is_op Level.compare_level Mark.lt = true
is_op Level.compare_level Mark.gt = true
is_op Level.compare_level Mark.le = true
is_op Level.compare_level Mark.ge = true
is_op Level.add_level Mark.plus = true
is_op Level.add_level Mark.minus = true
is_op Level.mul_level Mark.star = true
is_op Level.mul_level Mark.slash = true
is_op Level.mul_level Mark.percent = true
is_op _ _ = false

unfoldable pub op_at : Level → Tokens → Option Mark
unfolding is_op
op_at l (Token.mark m ∷ ts) = if is_op l m then some m else none
op_at l _ = none

-- The `is` test of `parseCompare`, if there is one.
unfoldable pub parse_test : Level → Expr → Tokens → Option (Result ParseError (Expr × Tokens))
parse_test Level.compare_level left
      (Token.mark Mark.is_word ∷ Token.mark Mark.not_word ∷ Token.ident name ∷ ts) =
    some (ok (test left name true, ts))
parse_test Level.compare_level left (Token.mark Mark.is_word ∷ Token.ident name ∷ ts) =
    some (ok (test left name false, ts))
parse_test Level.compare_level left (Token.mark Mark.is_word ∷ ts) =
    some (err ParseError.expected_test)
parse_test _ left ts = none

-- `p.at` of a closing mark, and `p.advance`.
unfoldable pub expect_rparen : Parser (Unit {0})
expect_rparen (Token.mark Mark.rparen ∷ ts) = ok (tt, ts)
expect_rparen _ = err ParseError.expected_rparen

unfoldable pub expect_rbracket : Parser (Unit {0})
expect_rbracket (Token.mark Mark.rbracket ∷ ts) = ok (tt, ts)
expect_rbracket _ = err ParseError.expected_rbracket

-- The key of an object literal and the colon.
unfoldable pub parse_key : Parser Bytes
parse_key (Token.string k ∷ Token.mark Mark.colon ∷ ts) = ok (k, ts)
parse_key (Token.ident k ∷ Token.mark Mark.colon ∷ ts) = ok (k, ts)
parse_key (Token.string k ∷ ts) = err ParseError.expected_colon
parse_key (Token.ident k ∷ ts) = err ParseError.expected_colon
parse_key _ = err ParseError.expected_key

unfoldable mutual
  -- A binary level: an operand, and then a test or the loop.
  pub parse_binary : ℕ → Level → Parser Expr
  parse_binary zero l ts = err ParseError.out_of_fuel
  parse_binary (suc f) l ts = do
    (left, us) ← parse_operand f l ts
    elim (parse_test l left us) [ some result ↦ result | none ↦ parse_rest f l left us ]

  -- What stands between the operators of a level.
  pub parse_operand : ℕ → Level → Parser Expr
  parse_operand zero l ts = err ParseError.out_of_fuel
  parse_operand (suc f) Level.or_level ts = parse_binary f Level.and_level ts
  parse_operand (suc f) Level.and_level ts = parse_not f ts
  parse_operand (suc f) Level.compare_level ts = parse_binary f Level.add_level ts
  parse_operand (suc f) Level.add_level ts = parse_binary f Level.mul_level ts
  parse_operand (suc f) Level.mul_level ts = parse_unary f ts

  -- The loop of a level.
  pub parse_rest : ℕ → Level → Expr → Parser Expr
  parse_rest zero l left ts = err ParseError.out_of_fuel
  parse_rest (suc f) l left ts = elim (op_at l ts) [
    | none ↦ ok (left, ts)
    | some op ↦ do
      (right, us) ← parse_operand f l (drop 1 ts)
      parse_rest f l (bin op left right) us
  ]

  pub parse_not : ℕ → Parser Expr
  parse_not zero ts = err ParseError.out_of_fuel
  parse_not (suc f) (Token.mark Mark.not_word ∷ ts) = do
    (e, us) ← parse_not f ts
    ok (unary Mark.not_word e, us)
  parse_not (suc f) ts = parse_binary f Level.compare_level ts

  pub parse_unary : ℕ → Parser Expr
  parse_unary zero ts = err ParseError.out_of_fuel
  parse_unary (suc f) (Token.mark Mark.minus ∷ ts) = do
    (e, us) ← parse_unary f ts
    ok (unary Mark.minus e, us)
  parse_unary (suc f) ts = parse_postfix f ts

  pub parse_postfix : ℕ → Parser Expr
  parse_postfix zero ts = err ParseError.out_of_fuel
  parse_postfix (suc f) ts = do (e, us) ← parse_primary f ts; postfix_rest f e us

  -- The loop of `parsePostfix`.
  pub postfix_rest : ℕ → Expr → Parser Expr
  postfix_rest zero e ts = err ParseError.out_of_fuel
  postfix_rest (suc f) e (Token.mark Mark.dot ∷ Token.ident a ∷ ts) = postfix_rest f (attr e a) ts
  postfix_rest (suc f) e (Token.mark Mark.dot ∷ ts) = err ParseError.expected_attribute
  postfix_rest (suc f) e (Token.mark Mark.lbracket ∷ ts) = do
    (key, us) ← parse_binary f Level.or_level ts
    (_, vs) ← expect_rbracket us
    postfix_rest f (index e key) vs
  postfix_rest (suc f) e (Token.mark Mark.lparen ∷ ts) = do
    (args, us) ← parse_args f ts
    postfix_rest f (call e args) us
  postfix_rest (suc f) e (Token.mark Mark.pipe ∷ Token.ident name ∷ Token.mark Mark.lparen ∷ ts) =
      do (args, us) ← parse_args f ts; postfix_rest f (filter e name args) us
  postfix_rest (suc f) e (Token.mark Mark.pipe ∷ Token.ident name ∷ ts) =
      postfix_rest f (filter e name no_exprs) ts
  postfix_rest (suc f) e (Token.mark Mark.pipe ∷ ts) = err ParseError.expected_filter
  postfix_rest (suc f) e ts = ok (e, ts)

  pub parse_primary : ℕ → Parser Expr
  parse_primary zero ts = err ParseError.out_of_fuel
  parse_primary (suc f) (Token.string s ∷ ts) = ok (lit (Literal.text s), ts)
  parse_primary (suc f) (Token.number s ∷ ts) = ok (lit (Literal.number s), ts)
  parse_primary (suc f) (Token.mark Mark.true_word ∷ ts) = ok (lit (Literal.bool true), ts)
  parse_primary (suc f) (Token.mark Mark.false_word ∷ ts) = ok (lit (Literal.bool false), ts)
  parse_primary (suc f) (Token.mark Mark.none_word ∷ ts) = ok (lit Literal.none_lit, ts)
  parse_primary (suc f) (Token.ident name ∷ ts) = ok (variable name, ts)
  parse_primary (suc f) (Token.mark Mark.lparen ∷ ts) = do
    (e, us) ← parse_binary f Level.or_level ts
    (_, vs) ← expect_rparen us
    ok (e, vs)
  parse_primary (suc f) (Token.mark Mark.lbracket ∷ Token.mark Mark.rbracket ∷ ts) =
      ok (array no_exprs, ts)
  parse_primary (suc f) (Token.mark Mark.lbracket ∷ ts) = do
    (items, us) ← parse_items f ts
    ok (array items, us)
  parse_primary (suc f) (Token.mark Mark.lbrace ∷ Token.mark Mark.rbrace ∷ ts) =
      ok (object no_fields, ts)
  parse_primary (suc f) (Token.mark Mark.lbrace ∷ ts) = do
    (fields, us) ← parse_fields f no_fields ts
    ok (object fields, us)
  parse_primary (suc f) ts = err ParseError.unexpected_in_expression

  -- The loop over the items of an array literal; a comma may stand behind the last one.
  pub parse_items : ℕ → Parser Exprs
  parse_items zero ts = err ParseError.out_of_fuel
  parse_items (suc f) ts = do (item, us) ← parse_binary f Level.or_level ts; items_rest f item us

  pub items_rest : ℕ → Expr → Parser Exprs
  items_rest zero item ts = err ParseError.out_of_fuel
  items_rest (suc f) item (Token.mark Mark.comma ∷ Token.mark Mark.rbracket ∷ ts) =
      ok (more_exprs item no_exprs, ts)
  items_rest (suc f) item (Token.mark Mark.comma ∷ ts) = do
    (items, us) ← parse_items f ts
    ok (more_exprs item items, us)
  items_rest (suc f) item (Token.mark Mark.rbracket ∷ ts) = ok (more_exprs item no_exprs, ts)
  items_rest (suc f) item ts = err ParseError.expected_rbracket

  -- The loop of `parseObjectLiteral`, with the map so far.
  pub parse_fields : ℕ → Fields → Parser Fields
  parse_fields zero obj ts = err ParseError.out_of_fuel
  parse_fields (suc f) obj ts = do
    (key, us) ← parse_key ts
    (value, vs) ← parse_binary f Level.or_level us
    fields_rest f (set_field key value obj) vs

  pub fields_rest : ℕ → Fields → Parser Fields
  fields_rest zero obj ts = err ParseError.out_of_fuel
  fields_rest (suc f) obj (Token.mark Mark.comma ∷ Token.mark Mark.rbrace ∷ ts) = ok (obj, ts)
  fields_rest (suc f) obj (Token.mark Mark.comma ∷ ts) = parse_fields f obj ts
  fields_rest (suc f) obj (Token.mark Mark.rbrace ∷ ts) = ok (obj, ts)
  fields_rest (suc f) obj ts = err ParseError.expected_rbrace

  pub parse_args : ℕ → Parser Exprs
  parse_args zero ts = err ParseError.out_of_fuel
  parse_args (suc f) (Token.mark Mark.rparen ∷ ts) = ok (no_exprs, ts)
  parse_args (suc f) ts = args_loop f ts

  -- The loop of `parseArgs`.
  pub args_loop : ℕ → Parser Exprs
  args_loop zero ts = err ParseError.out_of_fuel
  args_loop (suc f) (Token.ident name ∷ Token.mark Mark.assign ∷ ts) = do
    (value, us) ← parse_binary f Level.or_level ts
    args_rest f (kwarg name value) us
  args_loop (suc f) ts = do (e, us) ← parse_binary f Level.or_level ts; args_rest f e us

  pub args_rest : ℕ → Expr → Parser Exprs
  args_rest zero arg ts = err ParseError.out_of_fuel
  args_rest (suc f) arg (Token.mark Mark.comma ∷ ts) = do
    (args, us) ← args_loop f ts
    ok (more_exprs arg args, us)
  args_rest (suc f) arg (Token.mark Mark.rparen ∷ ts) = ok (more_exprs arg no_exprs, ts)
  args_rest (suc f) arg ts = err ParseError.expected_rparen
