-- ===== src/Jinja/Parser/Steps.antt =====
-- pkg/chat/jinja/parse.go: what each form of expression adds to its parts.
use gogguf.Base.{
  ℕ, zero, suc, ◌+◌, ◌-◌, ◌*◌, ◌≤◌, ◌<◌, ◌≡◌, refl, sym, ap, ◌∙◌, inl, inr, Bool, true, false, some,
  [], ◌∷◌, ◌++◌, append_assoc, arith, ltb, if◌then◌else◌, ltb→le, lt→ltb, Bool-cases, length,
  length-append,
}
use mathlib.Core.Path.{subst}
use gogguf.Base.Bytes.{Bytes}
use gogguf.Base.Result.{ok, ◌>>=◌}
use gogguf.Jinja.Lexer.Words.{Mark, Token}
use gogguf.Jinja.Syntax.{Expr, Exprs, attr, index, bin, unary, call, filter, test}
use gogguf.Jinja.Parser.Expressions.{
  Tokens, Level, is_op, op_at, parse_test, expect_rparen, expect_rbracket, parse_binary,
  parse_operand, parse_rest, parse_not, parse_unary, parse_postfix, postfix_rest, parse_primary,
  parse_args,
}
use gogguf.Jinja.Parser.Total.{need, parse_rest-go}
use gogguf.Jinja.Parser.Print.{prec, level_rank, is_op-prec, rank, body, show, negation}
use gogguf.Jinja.Parser.Strong.{
  stops, parse_test-op, opens, Opens, Strong, StrongChain, StrongOperand, down, to_operand,
}

need_lt : (l : Level) → need l < 14
need_lt Level.or_level = omega arith
need_lt Level.and_level = omega arith
need_lt Level.compare_level = omega arith
need_lt Level.add_level = omega arith
need_lt Level.mul_level = omega arith

-- A primary expression and then the loop.
pub primary-Strong :
    (ts : Tokens) (e : Expr)
    → ((rest : Tokens) (f : ℕ)
        → 16 * length (ts ++ rest) < f
        → parse_primary f (ts ++ rest) ≡ ok (e, rest))
    → Strong 9 ts e
primary-Strong ts e h rest zero n = absurd (omega arith)
primary-Strong ts e h rest (suc f) n =
    (f, omega (arith, n, length-append ts rest), step f (ts ++ rest) (h rest f (omega arith)))
  where
    step :
        (f : ℕ) (us : Tokens)
        → parse_primary f us ≡ ok (e, rest)
        → parse_postfix (suc f) us ≡ postfix_rest f e rest
    step f us run = unfold parse_binary in rw (run, parse_postfix, ◌>>=◌) refl

-- One more round of the loop.
pub postfix-step :
    (ts more : Tokens) (e e' : Expr)
    → Strong 9 ts e
    → ((rest : Tokens) (g : ℕ)
        → 16 * length (more ++ rest) < suc g
        → (g' : ℕ) × (16 * length rest < g')
          × (postfix_rest (suc g) e (more ++ rest) ≡ postfix_rest g' e' rest))
    → Strong 9 (ts ++ more) e'
postfix-step ts more e e' h k rest f n =
    let assoc = append_assoc ts more rest in
    let (g, big, run) = h (more ++ rest) f (rw assoc at n) in go g big run
  where
    go :
        (g : ℕ)
        → 16 * length (more ++ rest) < g
        → parse_postfix f (ts ++ (more ++ rest)) ≡ postfix_rest g e (more ++ rest)
        → (g' : ℕ) × (16 * length rest < g')
          × (parse_postfix f ((ts ++ more) ++ rest) ≡ postfix_rest g' e' rest)
    go zero big run = absurd (omega arith)
    go (suc g) big run =
        let (g', enough, next) = k rest g big in
        (g', enough, ap (parse_postfix f) (append_assoc ts more rest) ∙ run ∙ next)

-- Parentheses around an expression of any rank.
pub paren-Strong :
    (ts : Tokens) (e : Expr)
    → Strong 0 ts e
    → Strong 9 (Token.mark Mark.lparen ∷ (ts ++ Token.mark Mark.rparen ∷ [])) e
paren-Strong ts e h =
    primary-Strong (Token.mark Mark.lparen ∷ (ts ++ Token.mark Mark.rparen ∷ [])) e read
  where
    step :
        (f : ℕ) (us rest : Tokens)
        → parse_binary f Level.or_level us ≡ ok (e, Token.mark Mark.rparen ∷ rest)
        → parse_primary (suc f) (Token.mark Mark.lparen ∷ us) ≡ ok (e, rest)
    step f us rest run =
        unfold parse_binary in rw (run, parse_primary, ◌>>=◌) (unfold expect_rparen in refl)

    read :
        (rest : Tokens) (f : ℕ)
        → 16 * length (Token.mark Mark.lparen ∷ ((ts ++ Token.mark Mark.rparen ∷ []) ++ rest)) < f
        → parse_primary f (Token.mark Mark.lparen ∷ ((ts ++ Token.mark Mark.rparen ∷ []) ++ rest))
          ≡ ok (e, rest)
    read rest zero n = absurd (omega arith)
    read rest (suc f) n =
        let assoc = append_assoc ts (Token.mark Mark.rparen ∷ []) rest in
        let m : 16 * suc (length (ts ++ Token.mark Mark.rparen ∷ rest)) < suc f = rw assoc at n in
        step f _ rest (
          ap (parse_binary f Level.or_level) assoc
          ∙ h (Token.mark Mark.rparen ∷ rest) f (omega (arith, m)) (unfold stops prec in refl))

-- From the rank of an expression to the one that is wanted.
pub show-Strong :
    (p : ℕ) (e : Expr)
    → p ≤ 9
    → rank e ≤ 9
    → Opens (rank e) (body e)
    → Strong (rank e) (body e) e
    → Strong p (show p e) e
show-Strong p e hp hr o h = elim (Bool-cases (ltb (rank e) p)) [
  | inl low ↦
      subst (λ ts. Strong p ts e) (sym (ap (λ b. if b then in_parens else body e) low))
        (down (9 - p) p 9 in_parens e (omega (arith, hp)) (omega arith)
          (λ rest. unfold opens in refl)
          (paren-Strong (body e) e (down (rank e) 0 (rank e) (body e) e (omega arith) hr o h)))
  | inr high ↦
      let at : p ≤ rank e = ltb→le (rank e) p high in
      subst (λ ts. Strong p ts e) (sym (ap (λ b. if b then in_parens else body e) high))
        (down (rank e - p) p (rank e) (body e) e (omega (arith, at)) hr o h)
]
  where
    in_parens : Tokens
    in_parens = Token.mark Mark.lparen ∷ (body e ++ Token.mark Mark.rparen ∷ [])

-- An operator between an expression of its level and an operand.
pub bin-Strong :
    (l : Level) (op : Mark) (ts us : Tokens) (left right : Expr)
    → is_op l op ≡ true
    → StrongChain l ts left
    → StrongOperand l us right
    → StrongChain l (ts ++ Token.mark op ∷ us) (bin op left right)
bin-Strong l op ts us left right is h k rest f n s t =
    let assoc = append_assoc ts (Token.mark op ∷ us) rest in
    let m : need l + 16 * length (ts ++ Token.mark op ∷ (us ++ rest)) < f = rw assoc at n in
    let tight : stops (suc (level_rank l)) (Token.mark op ∷ (us ++ rest)) ≡ true =
      unfold stops in lt→ltb (prec op) (suc (level_rank l)) (omega (arith, is_op-prec l op is)) in
    let (g, big, run) =
      h (Token.mark op ∷ (us ++ rest)) f m tight (parse_test-op l op (us ++ rest) is) in
    go g big (ap (parse_binary f l) assoc ∙ run)
  where
    op_at-here : op_at l (Token.mark op ∷ (us ++ rest)) ≡ some op
    op_at-here = unfold op_at in rw is refl

    go :
        (g : ℕ)
        → 16 * length (Token.mark op ∷ (us ++ rest)) < g
        → parse_binary f l ((ts ++ Token.mark op ∷ us) ++ rest)
          ≡ parse_rest g l left (Token.mark op ∷ (us ++ rest))
        → (g' : ℕ) × (16 * length rest < g')
          × (parse_binary f l ((ts ++ Token.mark op ∷ us) ++ rest)
              ≡ parse_rest g' l (bin op left right) rest)
    go zero big run = absurd (omega arith)
    go (suc g) big run =
        let operand : parse_operand g l (us ++ rest) ≡ ok (right, rest) =
          k rest g (omega (arith, big, need_lt l)) s in
        (
          g,
          omega (arith, big, length-append us rest),
          run
              ∙ parse_rest-go g l left (Token.mark op ∷ (us ++ rest)) op op_at-here
              ∙ ap (λ r. r >>= λ (right, us). parse_rest g l (bin op left right) us) operand,
        )

-- The loop of postfixes.
pub attr-Strong :
    (ts : Tokens) (e : Expr) (a : Bytes)
    → Strong 9 ts e
    → Strong 9 (ts ++ Token.mark Mark.dot ∷ Token.ident a ∷ []) (attr e a)
attr-Strong ts e a h =
    postfix-step ts (Token.mark Mark.dot ∷ Token.ident a ∷ []) e (attr e a) h
      λ rest g n. (g, omega (arith, n), unfold parse_binary in refl)

pub index-Strong :
    (ts us : Tokens) (e k : Expr)
    → Strong 9 ts e
    → Strong 0 us k
    → Strong 9 (ts ++ Token.mark Mark.lbracket ∷ (us ++ Token.mark Mark.rbracket ∷ [])) (index e k)
index-Strong ts us e k h w =
    postfix-step ts (Token.mark Mark.lbracket ∷ (us ++ Token.mark Mark.rbracket ∷ [])) e (index e k)
      h
      λ rest g n.
        let assoc = append_assoc us (Token.mark Mark.rbracket ∷ []) rest in
        let m : 16 * suc (length (us ++ Token.mark Mark.rbracket ∷ rest)) < suc g = rw assoc at n in
        (
          g,
          omega (arith, m, length-append us (Token.mark Mark.rbracket ∷ rest)),
          step g _ rest (
              ap (parse_binary g Level.or_level) assoc
              ∙ w (Token.mark Mark.rbracket ∷ rest) g (omega (arith, m))
                  (unfold stops prec in refl)),
        )
  where
    step :
        (g : ℕ) (vs rest : Tokens)
        → parse_binary g Level.or_level vs ≡ ok (k, Token.mark Mark.rbracket ∷ rest)
        → postfix_rest (suc g) e (Token.mark Mark.lbracket ∷ vs) ≡ postfix_rest g (index e k) rest
    step g vs rest run =
        unfold parse_binary in rw (run, postfix_rest, ◌>>=◌) (unfold expect_rbracket in refl)

-- Arguments, up to the closing parenthesis.
abbrev pub ReadsArgs : Tokens → Exprs → Type 0
ReadsArgs us args =
    (rest : Tokens) (f : ℕ)
    → 15 + 16 * length (us ++ rest) < f
    → parse_args f (us ++ rest) ≡ ok (args, rest)

pub call-Strong :
    (ts us : Tokens) (e : Expr) (args : Exprs)
    → Strong 9 ts e
    → ReadsArgs us args
    → Strong 9 (ts ++ Token.mark Mark.lparen ∷ us) (call e args)
call-Strong ts us e args h w =
    postfix-step ts (Token.mark Mark.lparen ∷ us) e (call e args) h λ rest g n. (
      g,
      omega (arith, n, length-append us rest),
      step g (us ++ rest) rest (w rest g (omega (arith, n))),
    )
  where
    step :
        (g : ℕ) (vs rest : Tokens)
        → parse_args g vs ≡ ok (args, rest)
        → postfix_rest (suc g) e (Token.mark Mark.lparen ∷ vs) ≡ postfix_rest g (call e args) rest
    step g vs rest run = unfold parse_binary in rw (run, postfix_rest, ◌>>=◌) refl

pub filter-Strong :
    (ts us : Tokens) (e : Expr) (name : Bytes) (args : Exprs)
    → Strong 9 ts e
    → ReadsArgs us args
    → Strong 9
        (ts ++ Token.mark Mark.pipe ∷ Token.ident name ∷ Token.mark Mark.lparen ∷ us)
        (filter e name args)
filter-Strong ts us e name args h w =
    postfix-step ts (Token.mark Mark.pipe ∷ Token.ident name ∷ Token.mark Mark.lparen ∷ us) e
      (filter e name args) h
      λ rest g n. (
        g,
        omega (arith, n, length-append us rest),
        step g (us ++ rest) rest (w rest g (omega (arith, n))),
      )
  where
    step :
        (g : ℕ) (vs rest : Tokens)
        → parse_args g vs ≡ ok (args, rest)
        → postfix_rest
            (suc g)
            e
            (Token.mark Mark.pipe ∷ Token.ident name ∷ Token.mark Mark.lparen ∷ vs)
          ≡ postfix_rest g (filter e name args) rest
    step g vs rest run = unfold parse_binary in rw (run, postfix_rest, ◌>>=◌) refl

-- A test, behind which nothing is read.
pub test-Strong :
    (ts : Tokens) (e : Expr) (name : Bytes) (negated : Bool)
    → Strong 6 ts e
    → Strong 4
        (ts ++ Token.mark Mark.is_word ∷ (negation negated ++ Token.ident name ∷ []))
        (test e name negated)
test-Strong ts e name negated h rest zero n s = absurd (omega arith)
test-Strong ts e name negated h rest (suc f) n s =
    let more = negation negated ++ Token.ident name ∷ [] in
    let assoc = append_assoc ts (Token.mark Mark.is_word ∷ more) rest in
    let m : 8 + 16 * length (ts ++ Token.mark Mark.is_word ∷ (more ++ rest)) < suc f =
      rw assoc at n in
    let left : parse_operand f Level.compare_level (ts ++ Token.mark Mark.is_word ∷ (more ++ rest))
        ≡ ok (e, Token.mark Mark.is_word ∷ (more ++ rest)) =
      to_operand Level.compare_level ts e h (Token.mark Mark.is_word ∷ (more ++ rest)) f
        (omega (arith, m)) (unfold stops prec in refl) in
    ap (parse_binary (suc f) Level.compare_level) assoc ∙ step f _ _ left (is_test negated)
  where
    is_test :
        (negated : Bool)
        → parse_test Level.compare_level e
            (Token.mark Mark.is_word ∷ ((negation negated ++ Token.ident name ∷ []) ++ rest))
          ≡ some (ok (test e name negated, rest))
    is_test true = unfold parse_test in refl
    is_test false = unfold parse_test in refl

    step :
        (f : ℕ) (us vs : Tokens)
        → parse_operand f Level.compare_level us ≡ ok (e, vs)
        → parse_test Level.compare_level e vs ≡ some (ok (test e name negated, rest))
        → parse_binary (suc f) Level.compare_level us ≡ ok (test e name negated, rest)
    step f us vs run there = unfold parse_binary in rw (run, ◌>>=◌, parse_binary, there) refl

pub not-Strong :
    (ts : Tokens) (e : Expr)
    → Strong 3 ts e
    → Strong 3 (Token.mark Mark.not_word ∷ ts) (unary Mark.not_word e)
not-Strong ts e h rest zero n s = absurd (omega arith)
not-Strong ts e h rest (suc f) n s = step f (ts ++ rest) (h rest f (omega (arith, n)) s)
  where
    step :
        (f : ℕ) (us : Tokens)
        → parse_not f us ≡ ok (e, rest)
        → parse_not (suc f) (Token.mark Mark.not_word ∷ us) ≡ ok (unary Mark.not_word e, rest)
    step f us run = unfold parse_binary in rw (run, parse_not, ◌>>=◌) refl

pub minus-Strong :
    (ts : Tokens) (e : Expr)
    → Strong 8 ts e
    → Strong 8 (Token.mark Mark.minus ∷ ts) (unary Mark.minus e)
minus-Strong ts e h rest zero n s = absurd (omega arith)
minus-Strong ts e h rest (suc f) n s = step f (ts ++ rest) (h rest f (omega (arith, n)) s)
  where
    step :
        (f : ℕ) (us : Tokens)
        → parse_unary f us ≡ ok (e, rest)
        → parse_unary (suc f) (Token.mark Mark.minus ∷ us) ≡ ok (unary Mark.minus e, rest)
    step f us run = unfold parse_binary in rw (run, parse_unary, ◌>>=◌) refl
