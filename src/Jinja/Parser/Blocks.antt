-- ===== src/Jinja/Parser/Blocks.antt =====
-- pkg/chat/jinja/parse.go: the blocks. The state is what is left of the tokens, and
-- `pendingTrimRight`.
use gogguf.Base.{
  ℕ, zero, suc, ◌+◌, ◌*◌, Bool, true, false, ◌||◌, List, [], ◌∷◌, if◌then◌else◌, length, drop,
}
use gogguf.Base.Bytes.{Bytes, codes, equal}
use gogguf.Base.Result.{Result, ok, err, ◌>>=◌}
use gogguf.Jinja.Lexer.Words.{Mark, Token, is_blank}
use gogguf.Jinja.Syntax.{
  Expr, Nodes, Elifs, attr, text_node, expr_node, if_node, for_node, set_node, no_nodes, more_nodes,
  no_elifs, more_elifs, append_nodes, one_node,
}
use gogguf.Jinja.Parser.Expressions.{ParseError, Tokens, Parser, Level, parse_binary, parse_primary}

-- `stringsTrimLeft` and `stringsTrimRight`.
unfoldable pub trim_left : Bytes → Bytes
trim_left [] = []
trim_left (c ∷ cs) = let rest = trim_left cs in if is_blank c then rest else c ∷ cs

unfoldable pub keep_left : ℕ → Bytes → Bytes
keep_left c [] = if is_blank c then [] else c ∷ []
keep_left c (d ∷ ds) = c ∷ d ∷ ds

unfoldable pub trim_right : Bytes → Bytes
unfolding keep_left
trim_right [] = []
trim_right (c ∷ cs) = keep_left c (trim_right cs)

-- `trimLastText`.
unfoldable pub trim_last_text : Nodes → Nodes
unfolding trim_right
trim_last_text no_nodes = no_nodes
trim_last_text (more_nodes (text_node s) no_nodes) = more_nodes (text_node (trim_right s)) no_nodes
trim_last_text (more_nodes n no_nodes) = more_nodes n no_nodes
trim_last_text (more_nodes n (more_nodes m ns)) = more_nodes n (trim_last_text (more_nodes m ns))

abbrev pub trim_if : Bool → Nodes → Nodes
trim_if trims ns = if trims then trim_last_text ns else ns

unfoldable pub contains : List Bytes → Bytes → Bool
contains [] kw = false
contains (k ∷ ks) kw = equal k kw || contains ks kw

-- The tag that ends the block begins here.
unfoldable pub ends_here : List Bytes → Tokens → Bool
unfolding contains
ends_here ends (Token.stmt_open _ ∷ Token.ident kw ∷ ts) = contains ends kw
ends_here ends _ = false

-- A tag with this keyword begins here.
unfoldable pub tag_at : Bytes → Tokens → Bool
tag_at kw (Token.stmt_open _ ∷ Token.ident word ∷ ts) = equal word kw
tag_at kw _ = false

abbrev pub State : Type 0
State = Tokens × Bool

abbrev pub BlockParser : Type 0 → Type 0
BlockParser A = State → Result ParseError (A × State)

-- `expectStmtClose` and the flag that follows from it.
unfoldable pub close_stmt : BlockParser (Unit {0})
close_stmt (Token.stmt_close trims ∷ ts, pending) = ok (tt, (ts, pending || trims))
close_stmt _ = err ParseError.expected_stmt_close

-- The end of an expression tag, with its trim mark.
unfoldable pub close_expr : Parser Bool
close_expr (Token.expr_close trims ∷ ts) = ok (trims, ts)
close_expr _ = err ParseError.expected_expr_close

-- `matchStmtKeyword`.
unfoldable pub match_end : Bytes → ParseError → BlockParser (Unit {0})
match_end kw e (Token.stmt_open _ ∷ Token.ident word ∷ Token.stmt_close _ ∷ ts, pending) =
    if equal word kw then ok (tt, (ts, pending)) else err e
match_end kw e _ = err e

-- An expression of a block.
unfoldable pub block_expr : ℕ → BlockParser Expr
unfolding parse_binary
block_expr f (ts, pending) = do (e, us) ← parse_binary f Level.or_level ts; ok (e, (us, pending))

-- The loop variables and `in`.
unfoldable pub parse_in : List Bytes → Parser (List Bytes)
parse_in vars (Token.mark Mark.in_word ∷ ts) = ok (vars, ts)
parse_in vars (Token.ident word ∷ ts) =
    if equal word (codes "in") then ok (vars, ts) else err ParseError.expected_in
parse_in vars _ = err ParseError.expected_in

unfoldable pub parse_vars : Parser (List Bytes)
unfolding parse_in
parse_vars (Token.ident x ∷ Token.mark Mark.comma ∷ Token.ident y ∷ ts) = parse_in (x ∷ y ∷ []) ts
parse_vars (Token.ident x ∷ Token.mark Mark.comma ∷ ts) = err ParseError.expected_loop_variable
parse_vars (Token.ident x ∷ ts) = parse_in (x ∷ []) ts
parse_vars _ = err ParseError.expected_loop_variable

-- The loop of `parseSetTarget`.
unfoldable pub target_rest : Expr → Parser Expr
target_rest e (Token.mark Mark.dot ∷ Token.ident a ∷ ts) = target_rest (attr e a) ts
target_rest e (Token.mark Mark.dot ∷ ts) = err ParseError.expected_attribute
target_rest e ts = ok (e, ts)

unfoldable pub parse_set_target : ℕ → Parser Expr
unfolding parse_binary target_rest
parse_set_target f ts = do (e, us) ← parse_primary f ts; target_rest e us

unfoldable pub expect_assign : Parser (Unit {0})
expect_assign (Token.mark Mark.assign ∷ ts) = ok (tt, ts)
expect_assign _ = err ParseError.expected_assign

-- A comma goes on with the next assignment.
unfoldable pub comma_at : Tokens → Bool
comma_at (Token.mark Mark.comma ∷ ts) = true
comma_at _ = false

-- The loop of `parseSet`.
unfoldable pub parse_assigns : ℕ → Parser (List (Expr × Expr))
unfolding parse_binary parse_set_target expect_assign comma_at
parse_assigns zero ts = err ParseError.out_of_fuel
parse_assigns (suc f) ts = do
  (target, us) ← parse_set_target f ts
  (_, vs) ← expect_assign us
  (value, ws) ← parse_binary f Level.or_level vs
  elim (comma_at ws) [
    | false ↦ ok ((target, value) ∷ [], ws)
    | true ↦ do (more, xs) ← parse_assigns f (drop 1 ws); ok ((target, value) ∷ more, xs)
  ]

-- The keywords that end a block.
abbrev pub if_ends : List Bytes
if_ends = codes "elif" ∷ codes "else" ∷ codes "endif" ∷ []

abbrev pub for_ends : List Bytes
for_ends = codes "else" ∷ codes "endfor" ∷ []

unfoldable pub parse_set : ℕ → BlockParser Nodes
unfolding parse_assigns close_stmt
parse_set f (ts, pending) = do
  (assigns, us) ← parse_assigns f ts
  (_, s) ← close_stmt (us, pending)
  ok (one_node (set_node assigns), s)

-- The kinds of tag that `parseStmt` tells apart.
pub data Keyword : Type 0 where
  if_tag for_tag set_tag other_tag : Keyword

unfoldable pub keyword_of : Bytes → Keyword
unfolding equal
keyword_of kw =
    if equal kw (codes "if")
    then Keyword.if_tag
    else if equal kw (codes "for")
    then Keyword.for_tag
    else if equal kw (codes "set")
    then Keyword.set_tag
    else Keyword.other_tag

unfoldable mutual
  unfolding ends_here tag_at close_stmt close_expr match_end block_expr parse_vars parse_set

  -- The loop of `parseBlockUntil`, with the nodes so far.
  pub parse_block : ℕ → List Bytes → Nodes → BlockParser Nodes
  parse_block zero ends ns s = err ParseError.out_of_fuel
  parse_block (suc f) ends ns ([], pending) = ok (ns, ([], pending))
  parse_block (suc f) ends ns (Token.eof ∷ ts, pending) = ok (ns, (Token.eof ∷ ts, pending))
  parse_block (suc f) ends ns (Token.stmt_open trims ∷ ts, pending) =
      elim (ends_here ends (Token.stmt_open trims ∷ ts)) [
        | true ↦ ok (ns, (Token.stmt_open trims ∷ ts, pending))
        | false ↦ do
          (ms, s) ← parse_stmt f (ts, pending)
          parse_block f ends (append_nodes (trim_if trims ns) ms) s
      ]
  parse_block (suc f) ends ns (Token.text t ∷ ts, pending) =
      parse_block f ends
        (append_nodes ns (one_node (text_node (if pending then trim_left t else t)))) (ts, false)
  parse_block (suc f) ends ns (Token.expr_open trims ∷ ts, pending) = do
    (e, us) ← parse_binary f Level.or_level ts
    (trims_right, vs) ← close_expr us
    parse_block f ends (append_nodes (trim_if trims ns) (one_node (expr_node e))) (vs, trims_right)
  parse_block (suc f) ends ns s = err ParseError.unexpected_token

  -- `parseStmt`, from the keyword on.
  pub parse_stmt : ℕ → BlockParser Nodes
  parse_stmt zero s = err ParseError.out_of_fuel
  parse_stmt (suc f) (Token.ident kw ∷ ts, pending) = elim (keyword_of kw) [
    | if_tag ↦ parse_if f (ts, pending)
    | for_tag ↦ parse_for f (ts, pending)
    | set_tag ↦ parse_set f (ts, pending)
    | other_tag ↦ err ParseError.unknown_block
  ]
  parse_stmt (suc f) s = err ParseError.expected_keyword

  pub parse_if : ℕ → BlockParser Nodes
  parse_if zero s = err ParseError.out_of_fuel
  parse_if (suc f) s = do
    (cond, s₁) ← block_expr f s
    (_, s₂) ← close_stmt s₁
    (body, s₃) ← parse_block f if_ends no_nodes s₂
    (elifs, s₄) ← parse_elifs f s₃
    (else_body, s₅) ← parse_else f (codes "endif") s₄
    (_, s₆) ← match_end (codes "endif") ParseError.expected_endif s₅
    ok (one_node (if_node cond body elifs else_body), s₆)

  -- The loop over the `elif` tags.
  pub parse_elifs : ℕ → BlockParser Elifs
  parse_elifs zero s = err ParseError.out_of_fuel
  parse_elifs (suc f) (ts, pending) = elim (tag_at (codes "elif") ts) [
    | false ↦ ok (no_elifs, (ts, pending))
    | true ↦ do
      (cond, s₁) ← block_expr f (drop 2 ts, pending)
      (_, s₂) ← close_stmt s₁
      (body, s₃) ← parse_block f if_ends no_nodes s₂
      (more, s₄) ← parse_elifs f s₃
      ok (more_elifs cond body more, s₄)
  ]

  -- The `else` tag and its block, up to the given end.
  pub parse_else : ℕ → Bytes → BlockParser Nodes
  parse_else zero end_kw s = err ParseError.out_of_fuel
  parse_else (suc f) end_kw (ts, pending) = elim (tag_at (codes "else") ts) [
    | false ↦ ok (no_nodes, (ts, pending))
    | true ↦ do (_, s₁) ← close_stmt (drop 2 ts, pending); parse_block f (end_kw ∷ []) no_nodes s₁
  ]

  pub parse_for : ℕ → BlockParser Nodes
  parse_for zero s = err ParseError.out_of_fuel
  parse_for (suc f) (ts, pending) = do
    (vars, us) ← parse_vars ts
    (iter, s₁) ← block_expr f (us, pending)
    (_, s₂) ← close_stmt s₁
    (body, s₃) ← parse_block f for_ends no_nodes s₂
    (else_body, s₄) ← parse_else f (codes "endfor") s₃
    (_, s₅) ← match_end (codes "endfor") ParseError.expected_endfor s₄
    ok (one_node (for_node vars iter body else_body), s₅)

-- What `parse` does at the end.
unfoldable pub finish : Nodes → State → Result ParseError Nodes
finish ns ([], pending) = ok ns
finish ns (Token.eof ∷ ts, pending) = ok ns
finish ns s = err ParseError.extra_tokens

-- `parse`.
unfoldable pub parse : Tokens → Result ParseError Nodes
unfolding parse_block finish
parse ts = do (ns, s) ← parse_block (16 * length ts + 32) [] no_nodes (ts, false); finish ns s
