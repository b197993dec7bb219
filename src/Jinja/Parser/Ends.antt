-- ===== src/Jinja/Parser/Ends.antt =====
-- pkg/chat/jinja/parse.go: the parser of blocks ends.
use gogguf.Base.{
  ℕ, zero, suc, ◌+◌, ◌*◌, ◌≤◌, ◌<◌, refl, ◌≢◌, Bool, true, false, List, [], ◌∷◌, arith,
  if◌then◌else◌, length, drop, length-drop,
}
use gogguf.Base.Bytes.{Bytes, codes, equal}
use gogguf.Base.Result.{Result, ok, err, ◌>>=◌}
use gogguf.Base.Outcome.{Promises, gives, fails, Promises-bind, Promises-weaken, Promises-err}
use gogguf.Jinja.Lexer.Words.{Mark, Token}
use gogguf.Jinja.Syntax.{
  Expr, Nodes, Elifs, attr, text_node, expr_node, no_nodes, no_elifs, more_elifs, append_nodes,
  one_node,
}
use gogguf.Jinja.Parser.Expressions.{ParseError, Tokens, Level}
use gogguf.Jinja.Parser.Total.{IsReal, Shrinks, parse_binary-Shrinks, parse_primary-Shrinks}
use gogguf.Jinja.Parser.Blocks.{
  State, trim_left, trim_if, ends_here, tag_at, close_stmt, close_expr, match_end, block_expr,
  parse_in, parse_vars, target_rest, parse_set_target, expect_assign, comma_at, parse_assigns,
  if_ends, for_ends, parse_set, Keyword, keyword_of, parse_block, parse_stmt, parse_if, parse_elifs,
  parse_else, parse_for, finish, parse,
}

-- The same of a parser of blocks.
abbrev pub Shortens : {A : Type 0} → ℕ → Result ParseError (A × State) → Type 0
Shortens n = Promises (λ q. length q.1.0 < n) IsReal

Promises-if :
    {A E : Type 0} {P : A → Type 0} {Q : E → Type 0} (b : Bool) {x y : Result E A}
    → Promises P Q x
    → Promises P Q y
    → Promises P Q (if b then x else y)
Promises-if true p q = p
Promises-if false p q = q

close_stmt-Shortens : (s : State) → Shortens (length s.0) (close_stmt s)
unfolding close_stmt
close_stmt-Shortens (Token.stmt_close trims ∷ ts, pending) = gives (omega arith)
close_stmt-Shortens _ = fails refl

close_expr-Shrinks : (ts : Tokens) → Shrinks (length ts) (close_expr ts)
unfolding close_expr
close_expr-Shrinks (Token.expr_close trims ∷ ts) = gives (omega arith)
close_expr-Shrinks _ = fails refl

match_end-Shortens :
    (kw : Bytes) (e : ParseError) (s : State) → IsReal e → Shortens (length s.0) (match_end kw e s)
unfolding match_end
match_end-Shortens kw e (Token.stmt_open _ ∷ Token.ident word ∷ Token.stmt_close _ ∷ ts, pending)
      h =
    Promises-if (equal word kw) (gives (omega arith)) (fails h)
match_end-Shortens kw e _ h = fails h

block_expr-Shortens :
    (f : ℕ) (s : State) → 13 + 16 * length s.0 < f → Shortens (length s.0) (block_expr f s)
unfolding block_expr
block_expr-Shortens f (ts, pending) h =
    Promises-bind (parse_binary-Shrinks f Level.or_level ts (omega arith))
      λ (e, us) p. gives (omega (arith, p))

parse_in-Shrinks : (vars : List Bytes) (ts : Tokens) → Shrinks (length ts) (parse_in vars ts)
unfolding parse_in
parse_in-Shrinks vars (Token.mark Mark.in_word ∷ ts) = gives (omega arith)
parse_in-Shrinks vars (Token.ident word ∷ ts) =
    Promises-if (equal word (codes "in")) (gives (omega arith)) (fails refl)
parse_in-Shrinks vars _ = fails refl

parse_vars-Shrinks : (ts : Tokens) → Shrinks (length ts) (parse_vars ts)
unfolding parse_vars
parse_vars-Shrinks (Token.ident x ∷ Token.mark Mark.comma ∷ Token.ident y ∷ ts) =
    Promises-weaken (parse_in-Shrinks (x ∷ y ∷ []) ts) λ q r. omega (arith, r)
parse_vars-Shrinks (Token.ident x ∷ Token.mark Mark.comma ∷ ts) = fails refl
parse_vars-Shrinks (Token.ident x ∷ ts) =
    Promises-weaken (parse_in-Shrinks (x ∷ []) ts) λ q r. omega (arith, r)
parse_vars-Shrinks _ = fails refl

target_rest-Shrinks : (e : Expr) (ts : Tokens) → Shrinks (suc (length ts)) (target_rest e ts)
unfolding target_rest
target_rest-Shrinks e (Token.mark Mark.dot ∷ Token.ident a ∷ ts) =
    Promises-weaken (target_rest-Shrinks (attr e a) ts) λ q r. omega (arith, r)
target_rest-Shrinks e (Token.mark Mark.dot ∷ ts) = fails refl
target_rest-Shrinks e ts = gives (omega arith)

parse_set_target-Shrinks :
    (f : ℕ) (ts : Tokens) → 16 * length ts < f → Shrinks (length ts) (parse_set_target f ts)
unfolding parse_set_target
parse_set_target-Shrinks f ts h =
    Promises-bind (parse_primary-Shrinks f ts h)
      λ (e, us) p. Promises-weaken (target_rest-Shrinks e us) λ q r. omega (arith, p, r)

expect_assign-Shrinks : (ts : Tokens) → Shrinks (length ts) (expect_assign ts)
unfolding expect_assign
expect_assign-Shrinks (Token.mark Mark.assign ∷ ts) = gives (omega arith)
expect_assign-Shrinks _ = fails refl

length-drop_le : (n : ℕ) (ts : Tokens) → length (drop n ts) ≤ length ts
length-drop_le n ts = omega (arith, length-drop n ts)

parse_assigns-Shrinks :
    (f : ℕ) (ts : Tokens) → 1 + 16 * length ts < f → Shrinks (length ts) (parse_assigns f ts)
unfolding parse_assigns
parse_assigns-Shrinks zero ts h = absurd (omega arith)
parse_assigns-Shrinks (suc f) ts h =
    Promises-bind (parse_set_target-Shrinks f ts (omega arith)) λ (target, us) p.
      Promises-bind (expect_assign-Shrinks us) λ (_, vs) q.
        Promises-bind (parse_binary-Shrinks f Level.or_level vs (omega (arith, p, q)))
          λ (value, ws) r.
            go target value ws (comma_at ws) (omega (arith, p, q, r))
              (parse_assigns-Shrinks f (drop 1 ws) (omega (arith, p, q, r, length-drop_le 1 ws)))
  where
    go :
        (target value : Expr) (ws : Tokens) (comma : Bool)
        → length ws < length ts
        → Shrinks (length (drop 1 ws)) (parse_assigns f (drop 1 ws))
        → Shrinks {A = List (Expr × Expr)}
            (length ts)
            (elim comma as (λ x. Result ParseError (List (Expr × Expr) × Tokens)) [
              | false ↦ ok ((target, value) ∷ [], ws)
              | true ↦ parse_assigns f (drop 1 ws) >>= λ (more, xs). ok ((target, value) ∷ more, xs)
            ])
    go target value ws false l more = gives l
    go target value ws true l more =
        Promises-bind more λ (ms, xs) r. gives (omega (arith, l, r, length-drop_le 1 ws))

parse_set-Shortens :
    (f : ℕ) (s : State) → 1 + 16 * length s.0 < f → Shortens (length s.0) (parse_set f s)
unfolding parse_set
parse_set-Shortens f (ts, pending) h =
    Promises-bind (parse_assigns-Shrinks f ts h) λ (assigns, us) p.
      Promises-bind (close_stmt-Shortens (us, pending)) λ (_, s) q. gives (omega (arith, p, q))

-- The blocks, by one induction on the fuel.
mutual
  unfolding parse_block

  parse_block-Shortens :
      (f : ℕ) (ends : List Bytes) (ns : Nodes) (s : State)
      → 16 * length s.0 < f
      → Shortens (suc (length s.0)) (parse_block f ends ns s)
  parse_block-Shortens zero ends ns s h = absurd (omega arith)
  parse_block-Shortens (suc f) ends ns ([], pending) h = gives (omega arith)
  parse_block-Shortens (suc f) ends ns (Token.eof ∷ ts, pending) h = gives (omega arith)
  parse_block-Shortens (suc f) ends ns (Token.stmt_open trims ∷ ts, pending) h =
      elim (ends_here ends (Token.stmt_open trims ∷ ts))
        as (λ here.
          Shortens {A = Nodes} (suc (suc (length ts)))
            (elim here as (λ x. Result ParseError (Nodes × State)) [
              | true ↦ ok (ns, (Token.stmt_open trims ∷ ts, pending))
              | false ↦ parse_stmt f (ts, pending) >>= λ (ms, s).
                  parse_block f ends (append_nodes (trim_if trims ns) ms) s
            ])) [
              | true ↦ gives (omega arith)
              | false ↦
                  Promises-bind (parse_stmt-Shortens f (ts, pending) (omega arith)) λ (ms, s) p.
                    Promises-weaken
                      (parse_block-Shortens f ends (append_nodes (trim_if trims ns) ms) s
                        (omega (arith, p)))
                      λ q r. omega (arith, p, r)
            ]
  parse_block-Shortens (suc f) ends ns (Token.text t ∷ ts, pending) h =
      Promises-weaken
        (parse_block-Shortens f ends
          (append_nodes ns (one_node (text_node (if pending then trim_left t else t)))) (ts, false)
          (omega arith))
        λ q r. omega (arith, r)
  parse_block-Shortens (suc f) ends ns (Token.expr_open trims ∷ ts, pending) h =
      Promises-bind (parse_binary-Shrinks f Level.or_level ts (omega arith)) λ (e, us) p.
        Promises-bind (close_expr-Shrinks us) λ (trims_right, vs) q.
          Promises-weaken
            (parse_block-Shortens f ends (append_nodes (trim_if trims ns) (one_node (expr_node e)))
              (vs, trims_right) (omega (arith, p, q)))
            λ r t. omega (arith, p, q, t)
  parse_block-Shortens (suc f) ends ns s h = fails refl

  parse_stmt-Shortens :
      (f : ℕ) (s : State) → 15 + 16 * length s.0 < f → Shortens (length s.0) (parse_stmt f s)
  parse_stmt-Shortens zero s h = absurd (omega arith)
  parse_stmt-Shortens (suc f) (Token.ident kw ∷ ts, pending) h =
      elim (keyword_of kw)
        as (λ k.
          Shortens {A = Nodes} (suc (length ts))
            (elim k as (λ x. Result ParseError (Nodes × State)) [
              | Keyword.if_tag ↦ parse_if f (ts, pending)
              | Keyword.for_tag ↦ parse_for f (ts, pending)
              | Keyword.set_tag ↦ parse_set f (ts, pending)
              | Keyword.other_tag ↦ err ParseError.unknown_block
            ])) [
              | Keyword.if_tag ↦
                  Promises-weaken (parse_if-Shortens f (ts, pending) (omega arith))
                    λ q r. omega (arith, r)
              | Keyword.for_tag ↦
                  Promises-weaken (parse_for-Shortens f (ts, pending) (omega arith))
                    λ q r. omega (arith, r)
              | Keyword.set_tag ↦
                  Promises-weaken (parse_set-Shortens f (ts, pending) (omega arith))
                    λ q r. omega (arith, r)
              | Keyword.other_tag ↦ fails refl
            ]
  parse_stmt-Shortens (suc f) s h = fails refl

  parse_if-Shortens :
      (f : ℕ) (s : State) → 20 + 16 * length s.0 < f → Shortens (length s.0) (parse_if f s)
  parse_if-Shortens zero s h = absurd (omega arith)
  parse_if-Shortens (suc f) s h =
      Promises-bind (block_expr-Shortens f s (omega arith)) λ (cond, s₁) p₁.
        Promises-bind (close_stmt-Shortens s₁) λ (_, s₂) p₂.
          Promises-bind (parse_block-Shortens f if_ends no_nodes s₂ (omega (arith, p₁, p₂)))
            λ (body, s₃) p₃.
              Promises-bind (parse_elifs-Shortens f s₃ (omega (arith, p₁, p₂, p₃)))
                λ (elifs, s₄) p₄.
                  Promises-bind
                    (parse_else-Shortens f (codes "endif") s₄ (omega (arith, p₁, p₂, p₃, p₄)))
                    λ (else_body, s₅) p₅.
                      Promises-bind
                        (match_end-Shortens (codes "endif") ParseError.expected_endif s₅ refl)
                        λ (_, s₆) p₆. gives (omega (arith, p₁, p₂, p₃, p₄, p₅, p₆))

  parse_elifs-Shortens :
      (f : ℕ) (s : State) → 14 + 16 * length s.0 < f → Shortens (suc (length s.0)) (parse_elifs f s)
  parse_elifs-Shortens zero s h = absurd (omega arith)
  parse_elifs-Shortens (suc f) (ts, pending) h =
      elim (tag_at (codes "elif") ts)
        as (λ there.
          Shortens {A = Elifs} (suc (length ts))
            (elim there as (λ x. Result ParseError (Elifs × State)) [
              | false ↦ ok (no_elifs, (ts, pending))
              | true ↦ block_expr f (drop 2 ts, pending) >>= λ (cond, s₁).
                  close_stmt s₁ >>= λ (_, s₂). parse_block f if_ends no_nodes s₂ >>= λ (body, s₃).
                  parse_elifs f s₃ >>= λ (more, s₄). ok (more_elifs cond body more, s₄)
            ])) [
              | false ↦ gives (omega arith)
              | true ↦
                  let d = length-drop_le 2 ts in
                  Promises-bind (block_expr-Shortens f (drop 2 ts, pending) (omega (arith, d)))
                    λ (cond, s₁) p₁. Promises-bind (close_stmt-Shortens s₁) λ (_, s₂) p₂.
                      Promises-bind
                        (parse_block-Shortens f if_ends no_nodes s₂ (omega (arith, d, p₁, p₂)))
                        λ (body, s₃) p₃.
                          Promises-bind (parse_elifs-Shortens f s₃ (omega (arith, d, p₁, p₂, p₃)))
                            λ (more, s₄) p₄. gives (omega (arith, d, p₁, p₂, p₃, p₄))
            ]

  parse_else-Shortens :
      (f : ℕ) (end_kw : Bytes) (s : State)
      → 14 + 16 * length s.0 < f
      → Shortens (suc (length s.0)) (parse_else f end_kw s)
  parse_else-Shortens zero end_kw s h = absurd (omega arith)
  parse_else-Shortens (suc f) end_kw (ts, pending) h =
      elim (tag_at (codes "else") ts)
        as (λ there.
          Shortens {A = Nodes} (suc (length ts))
            (elim there as (λ x. Result ParseError (Nodes × State)) [
              | false ↦ ok (no_nodes, (ts, pending))
              | true ↦ close_stmt (drop 2 ts, pending) >>= λ (_, s₁).
                  parse_block f (end_kw ∷ []) no_nodes s₁
            ])) [
              | false ↦ gives (omega arith)
              | true ↦
                  let d = length-drop_le 2 ts in
                  Promises-bind (close_stmt-Shortens (drop 2 ts, pending)) λ (_, s₁) p.
                    Promises-weaken
                      (parse_block-Shortens f (end_kw ∷ []) no_nodes s₁ (omega (arith, d, p)))
                      λ q r. omega (arith, d, p, r)
            ]

  parse_for-Shortens :
      (f : ℕ) (s : State) → 20 + 16 * length s.0 < f → Shortens (length s.0) (parse_for f s)
  parse_for-Shortens zero s h = absurd (omega arith)
  parse_for-Shortens (suc f) (ts, pending) h =
      Promises-bind (parse_vars-Shrinks ts) λ (vars, us) p₀.
        Promises-bind (block_expr-Shortens f (us, pending) (omega (arith, p₀))) λ (iter, s₁) p₁.
          Promises-bind (close_stmt-Shortens s₁) λ (_, s₂) p₂.
            Promises-bind (parse_block-Shortens f for_ends no_nodes s₂ (omega (arith, p₀, p₁, p₂)))
              λ (body, s₃) p₃.
                Promises-bind
                  (parse_else-Shortens f (codes "endfor") s₃ (omega (arith, p₀, p₁, p₂, p₃)))
                  λ (else_body, s₄) p₄.
                    Promises-bind
                      (match_end-Shortens (codes "endfor") ParseError.expected_endfor s₄ refl)
                      λ (_, s₅) p₅. gives (omega (arith, p₀, p₁, p₂, p₃, p₄, p₅))

finish-IsReal : (ns : Nodes) (s : State) → Promises (λ _. Unit {0}) IsReal (finish ns s)
unfolding finish
finish-IsReal ns ([], pending) = gives tt
finish-IsReal ns (Token.eof ∷ ts, pending) = gives tt
finish-IsReal ns _ = fails refl

-- `parse` ends on every list of tokens, with a template or with an error of the code: the fuel of the
-- model, a multiple of the number of tokens, never runs out.
pub parse-ne-out_of_fuel : (ts : Tokens) → parse ts ≢ err ParseError.out_of_fuel
unfolding parse
parse-ne-out_of_fuel ts e =
    let real : IsReal ParseError.out_of_fuel =
      Promises-err
        (Promises-bind
          (parse_block-Shortens (16 * length ts + 32) [] no_nodes (ts, false) (omega arith))
          λ (ns, s) p. finish-IsReal ns s)
        e in
    absurd (cc real)
