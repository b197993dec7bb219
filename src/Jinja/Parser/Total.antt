-- ===== src/Jinja/Parser/Total.antt =====
-- pkg/chat/jinja/parse.go: the parser of expressions ends.
use gogguf.Base.{
  ℕ, zero, suc, ◌+◌, ◌*◌, ◌≤◌, ◌<◌, ◌≡◌, refl, sym, inl, inr, Bool, true, false, Option, none, some,
  [], ◌∷◌, arith, Option-cases, length, drop,
}
use mathlib.Core.Path.{subst}
use gogguf.Base.Result.{Result, ok, ◌>>=◌}
use gogguf.Base.Outcome.{Promises, gives, fails, Promises-bind, Promises-weaken}
use gogguf.Jinja.Lexer.Words.{Mark, Token}
use gogguf.Jinja.Syntax.{
  Expr, Fields, bin, attr, index, call, filter, kwarg, no_fields, set_field, no_exprs,
}
use gogguf.Jinja.Parser.Expressions.{
  ParseError, Tokens, Level, op_at, parse_test, expect_rparen, expect_rbracket, parse_key,
  parse_binary, parse_operand, parse_rest, parse_not, parse_unary, parse_postfix, postfix_rest,
  parse_primary, parse_items, items_rest, parse_fields, fields_rest, parse_args, args_loop,
  args_rest,
}

abbrev is_stuck : ParseError → Bool
is_stuck ParseError.out_of_fuel = true
is_stuck _ = false

abbrev pub IsReal : ParseError → Type 0
IsReal e = is_stuck e ≡ false

-- A parser that leaves fewer tokens than n, or fails with an error of the code.
abbrev pub Shrinks : {A : Type 0} → ℕ → Result ParseError (A × Tokens) → Type 0
Shrinks n = Promises (λ q. length q.1 < n) IsReal

-- The fuel that a level takes above the tokens' share.
abbrev pub need : Level → ℕ
need Level.or_level = 13
need Level.and_level = 11
need Level.compare_level = 8
need Level.add_level = 6
need Level.mul_level = 4

expect_rparen-Shrinks : (ts : Tokens) → Shrinks (length ts) (expect_rparen ts)
unfolding expect_rparen
expect_rparen-Shrinks (Token.mark Mark.rparen ∷ ts) = gives (omega arith)
expect_rparen-Shrinks _ = fails refl

expect_rbracket-Shrinks : (ts : Tokens) → Shrinks (length ts) (expect_rbracket ts)
unfolding expect_rbracket
expect_rbracket-Shrinks (Token.mark Mark.rbracket ∷ ts) = gives (omega arith)
expect_rbracket-Shrinks _ = fails refl

parse_key-Shrinks : (ts : Tokens) → Shrinks (length ts) (parse_key ts)
unfolding parse_key
parse_key-Shrinks (Token.string k ∷ Token.mark Mark.colon ∷ ts) = gives (omega arith)
parse_key-Shrinks (Token.ident k ∷ Token.mark Mark.colon ∷ ts) = gives (omega arith)
parse_key-Shrinks _ = fails refl

op_at-pos :
    (l : Level) (ts : Tokens) (op : Mark) → op_at l ts ≡ some op → length (drop 1 ts) < length ts
unfolding op_at
op_at-pos l [] op h = absurd (cc)
op_at-pos l (t ∷ ts) op h = omega arith

-- The outcome of a test, where there is one.
abbrev TestShrinks : ℕ → Option (Result ParseError (Expr × Tokens)) → Type 0
TestShrinks n none = Unit
TestShrinks n (some r) = Shrinks n r

parse_test-Shrinks :
    (l : Level) (e : Expr) (ts : Tokens) → TestShrinks (length ts) (parse_test l e ts)
unfolding parse_test
parse_test-Shrinks Level.compare_level left
      (Token.mark Mark.is_word ∷ Token.mark Mark.not_word ∷ Token.ident name ∷ ts) =
    gives (omega arith)
parse_test-Shrinks Level.compare_level left (Token.mark Mark.is_word ∷ Token.ident name ∷ ts) =
    gives (omega arith)
parse_test-Shrinks Level.compare_level left (Token.mark Mark.is_word ∷ ts) = fails refl
parse_test-Shrinks _ left ts = tt

pub parse_rest-stop :
    (f : ℕ) (l : Level) (left : Expr) (ts : Tokens)
    → op_at l ts ≡ none
    → parse_rest (suc f) l left ts ≡ ok (left, ts)
parse_rest-stop f l left ts e = unfold parse_binary in rw (e, parse_rest) refl

pub parse_rest-go :
    (f : ℕ) (l : Level) (left : Expr) (ts : Tokens) (op : Mark)
    → op_at l ts ≡ some op
    → parse_rest (suc f) l left ts
      ≡ (parse_operand f l (drop 1 ts) >>= λ (right, us). parse_rest f l (bin op left right) us)
parse_rest-go f l left ts op e = unfold parse_binary in rw (e, parse_rest) refl

-- One induction on the fuel: each token that was read pays for the calls up to the next one.
mutual
  unfolding parse_binary

  pub parse_binary-Shrinks :
      (f : ℕ) (l : Level) (ts : Tokens)
      → need l + 16 * length ts < f
      → Shrinks (length ts) (parse_binary f l ts)
  parse_binary-Shrinks zero l ts h = absurd (omega arith)
  parse_binary-Shrinks (suc f) l ts h =
      Promises-bind (parse_operand-Shrinks f l ts (omega arith)) λ (left, us) p.
        after f l left us p (parse_test-Shrinks l left us)
          (parse_rest-Shrinks f l left us (omega (arith, p)))
    where
      after :
          (f : ℕ) (l : Level) (left : Expr) (us : Tokens)
          → length us < length ts
          → TestShrinks (length us) (parse_test l left us)
          → Shrinks (suc (length us)) (parse_rest f l left us)
          → Shrinks
              (length ts)
              (elim (parse_test l left us) [ some result ↦ result | none ↦ parse_rest f l left us ])
      after f l left us p test rest = elim (Option-cases (parse_test l left us)) [
        | inl none_there ↦ rw none_there (Promises-weaken rest λ q r. omega (arith, p, r))
        | inr (result, there) ↦
            let t : Shrinks (length us) result = rw there at test in
            rw there (Promises-weaken t λ q r. omega (arith, p, r))
      ]

  parse_operand-Shrinks :
      (f : ℕ) (l : Level) (ts : Tokens)
      → need l + 16 * length ts ≤ f
      → Shrinks (length ts) (parse_operand f l ts)
  parse_operand-Shrinks zero Level.or_level ts h = absurd (omega arith)
  parse_operand-Shrinks zero Level.and_level ts h = absurd (omega arith)
  parse_operand-Shrinks zero Level.compare_level ts h = absurd (omega arith)
  parse_operand-Shrinks zero Level.add_level ts h = absurd (omega arith)
  parse_operand-Shrinks zero Level.mul_level ts h = absurd (omega arith)
  parse_operand-Shrinks (suc f) Level.or_level ts h =
      parse_binary-Shrinks f Level.and_level ts (omega arith)
  parse_operand-Shrinks (suc f) Level.and_level ts h = parse_not-Shrinks f ts (omega arith)
  parse_operand-Shrinks (suc f) Level.compare_level ts h =
      parse_binary-Shrinks f Level.add_level ts (omega arith)
  parse_operand-Shrinks (suc f) Level.add_level ts h =
      parse_binary-Shrinks f Level.mul_level ts (omega arith)
  parse_operand-Shrinks (suc f) Level.mul_level ts h = parse_unary-Shrinks f ts (omega arith)

  parse_rest-Shrinks :
      (f : ℕ) (l : Level) (left : Expr) (ts : Tokens)
      → 16 * length ts < f
      → Shrinks (suc (length ts)) (parse_rest f l left ts)
  parse_rest-Shrinks zero l left ts h = absurd (omega arith)
  parse_rest-Shrinks (suc f) l left ts h = elim (Option-cases (op_at l ts)) [
    | inl none_there ↦
        subst (Shrinks (suc (length ts))) (sym (parse_rest-stop f l left ts none_there))
          (gives (omega arith))
    | inr (op, there) ↦
        let d = op_at-pos l ts op there in
        subst (Shrinks (suc (length ts))) (sym (parse_rest-go f l left ts op there)) (
          Promises-bind
            (parse_operand-Shrinks f l (drop 1 ts) (need_le l f (drop 1 ts) (omega (arith, d))))
            λ (right, us) p.
              Promises-weaken (parse_rest-Shrinks f l (bin op left right) us (omega (arith, d, p)))
                λ q r. omega (arith, d, p, r))
  ]
    where
      need_le :
          (l : Level) (f : ℕ) (us : Tokens) → 16 + 16 * length us ≤ f → need l + 16 * length us ≤ f
      need_le Level.or_level f us h = omega arith
      need_le Level.and_level f us h = omega arith
      need_le Level.compare_level f us h = omega arith
      need_le Level.add_level f us h = omega arith
      need_le Level.mul_level f us h = omega arith

  parse_not-Shrinks :
      (f : ℕ) (ts : Tokens) → 9 + 16 * length ts < f → Shrinks (length ts) (parse_not f ts)
  parse_not-Shrinks zero ts h = absurd (omega arith)
  parse_not-Shrinks (suc f) (Token.mark Mark.not_word ∷ ts) h =
      Promises-bind (parse_not-Shrinks f ts (omega arith)) λ (e, us) p. gives (omega (arith, p))
  parse_not-Shrinks (suc f) ts h = parse_binary-Shrinks f Level.compare_level ts (omega arith)

  parse_unary-Shrinks :
      (f : ℕ) (ts : Tokens) → 2 + 16 * length ts < f → Shrinks (length ts) (parse_unary f ts)
  parse_unary-Shrinks zero ts h = absurd (omega arith)
  parse_unary-Shrinks (suc f) (Token.mark Mark.minus ∷ ts) h =
      Promises-bind (parse_unary-Shrinks f ts (omega arith)) λ (e, us) p. gives (omega (arith, p))
  parse_unary-Shrinks (suc f) ts h = parse_postfix-Shrinks f ts (omega arith)

  parse_postfix-Shrinks :
      (f : ℕ) (ts : Tokens) → 1 + 16 * length ts < f → Shrinks (length ts) (parse_postfix f ts)
  parse_postfix-Shrinks zero ts h = absurd (omega arith)
  parse_postfix-Shrinks (suc f) ts h =
      Promises-bind (parse_primary-Shrinks f ts (omega arith)) λ (e, us) p.
        Promises-weaken (postfix_rest-Shrinks f e us (omega (arith, p))) λ q r. omega (arith, p, r)

  postfix_rest-Shrinks :
      (f : ℕ) (e : Expr) (ts : Tokens)
      → 16 * length ts < f
      → Shrinks (suc (length ts)) (postfix_rest f e ts)
  postfix_rest-Shrinks zero e ts h = absurd (omega arith)
  postfix_rest-Shrinks (suc f) e (Token.mark Mark.dot ∷ Token.ident a ∷ ts) h =
      Promises-weaken (postfix_rest-Shrinks f (attr e a) ts (omega arith)) λ q r. omega (arith, r)
  postfix_rest-Shrinks (suc f) e (Token.mark Mark.dot ∷ ts) h = fails refl
  postfix_rest-Shrinks (suc f) e (Token.mark Mark.lbracket ∷ ts) h =
      Promises-bind (parse_binary-Shrinks f Level.or_level ts (omega arith)) λ (key, us) p.
        Promises-bind (expect_rbracket-Shrinks us) λ (_, vs) r.
          Promises-weaken (postfix_rest-Shrinks f (index e key) vs (omega (arith, p, r)))
            λ q s. omega (arith, p, r, s)
  postfix_rest-Shrinks (suc f) e (Token.mark Mark.lparen ∷ ts) h =
      Promises-bind (parse_args-Shrinks f ts (omega arith)) λ (args, us) p.
        Promises-weaken (postfix_rest-Shrinks f (call e args) us (omega (arith, p)))
          λ q r. omega (arith, p, r)
  postfix_rest-Shrinks (suc f) e
        (Token.mark Mark.pipe ∷ Token.ident name ∷ Token.mark Mark.lparen ∷ ts) h =
      Promises-bind (parse_args-Shrinks f ts (omega arith)) λ (args, us) p.
        Promises-weaken (postfix_rest-Shrinks f (filter e name args) us (omega (arith, p)))
          λ q r. omega (arith, p, r)
  postfix_rest-Shrinks (suc f) e (Token.mark Mark.pipe ∷ Token.ident name ∷ ts) h =
      Promises-weaken (postfix_rest-Shrinks f (filter e name no_exprs) ts (omega arith))
        λ q r. omega (arith, r)
  postfix_rest-Shrinks (suc f) e (Token.mark Mark.pipe ∷ ts) h = fails refl
  postfix_rest-Shrinks (suc f) e ts h = gives (omega arith)

  pub parse_primary-Shrinks :
      (f : ℕ) (ts : Tokens) → 16 * length ts < f → Shrinks (length ts) (parse_primary f ts)
  parse_primary-Shrinks zero ts h = absurd (omega arith)
  parse_primary-Shrinks (suc f) (Token.string s ∷ ts) h = gives (omega arith)
  parse_primary-Shrinks (suc f) (Token.number s ∷ ts) h = gives (omega arith)
  parse_primary-Shrinks (suc f) (Token.mark Mark.true_word ∷ ts) h = gives (omega arith)
  parse_primary-Shrinks (suc f) (Token.mark Mark.false_word ∷ ts) h = gives (omega arith)
  parse_primary-Shrinks (suc f) (Token.mark Mark.none_word ∷ ts) h = gives (omega arith)
  parse_primary-Shrinks (suc f) (Token.ident name ∷ ts) h = gives (omega arith)
  parse_primary-Shrinks (suc f) (Token.mark Mark.lparen ∷ ts) h =
      Promises-bind (parse_binary-Shrinks f Level.or_level ts (omega arith)) λ (e, us) p.
        Promises-bind (expect_rparen-Shrinks us) λ (_, vs) r. gives (omega (arith, p, r))
  parse_primary-Shrinks (suc f) (Token.mark Mark.lbracket ∷ Token.mark Mark.rbracket ∷ ts) h =
      gives (omega arith)
  parse_primary-Shrinks (suc f) (Token.mark Mark.lbracket ∷ ts) h =
      Promises-bind (parse_items-Shrinks f ts (omega arith))
        λ (items, us) p. gives (omega (arith, p))
  parse_primary-Shrinks (suc f) (Token.mark Mark.lbrace ∷ Token.mark Mark.rbrace ∷ ts) h =
      gives (omega arith)
  parse_primary-Shrinks (suc f) (Token.mark Mark.lbrace ∷ ts) h =
      Promises-bind (parse_fields-Shrinks f no_fields ts (omega arith))
        λ (fields, us) p. gives (omega (arith, p))
  parse_primary-Shrinks (suc f) ts h = fails refl

  parse_items-Shrinks :
      (f : ℕ) (ts : Tokens) → 14 + 16 * length ts < f → Shrinks (length ts) (parse_items f ts)
  parse_items-Shrinks zero ts h = absurd (omega arith)
  parse_items-Shrinks (suc f) ts h =
      Promises-bind (parse_binary-Shrinks f Level.or_level ts (omega arith)) λ (item, us) p.
        Promises-weaken (items_rest-Shrinks f item us (omega (arith, p))) λ q r. omega (arith, p, r)

  items_rest-Shrinks :
      (f : ℕ) (item : Expr) (ts : Tokens)
      → 16 * length ts < f
      → Shrinks (length ts) (items_rest f item ts)
  items_rest-Shrinks zero item ts h = absurd (omega arith)
  items_rest-Shrinks (suc f) item (Token.mark Mark.comma ∷ Token.mark Mark.rbracket ∷ ts) h =
      gives (omega arith)
  items_rest-Shrinks (suc f) item (Token.mark Mark.comma ∷ ts) h =
      Promises-bind (parse_items-Shrinks f ts (omega arith))
        λ (items, us) p. gives (omega (arith, p))
  items_rest-Shrinks (suc f) item (Token.mark Mark.rbracket ∷ ts) h = gives (omega arith)
  items_rest-Shrinks (suc f) item ts h = fails refl

  parse_fields-Shrinks :
      (f : ℕ) (obj : Fields) (ts : Tokens)
      → 14 + 16 * length ts < f
      → Shrinks (length ts) (parse_fields f obj ts)
  parse_fields-Shrinks zero obj ts h = absurd (omega arith)
  parse_fields-Shrinks (suc f) obj ts h = Promises-bind (parse_key-Shrinks ts) λ (key, us) p.
      Promises-bind (parse_binary-Shrinks f Level.or_level us (omega (arith, p))) λ (value, vs) r.
        Promises-weaken (fields_rest-Shrinks f (set_field key value obj) vs (omega (arith, p, r)))
          λ q s. omega (arith, p, r, s)

  fields_rest-Shrinks :
      (f : ℕ) (obj : Fields) (ts : Tokens)
      → 16 * length ts < f
      → Shrinks (length ts) (fields_rest f obj ts)
  fields_rest-Shrinks zero obj ts h = absurd (omega arith)
  fields_rest-Shrinks (suc f) obj (Token.mark Mark.comma ∷ Token.mark Mark.rbrace ∷ ts) h =
      gives (omega arith)
  fields_rest-Shrinks (suc f) obj (Token.mark Mark.comma ∷ ts) h =
      Promises-weaken (parse_fields-Shrinks f obj ts (omega arith)) λ q r. omega (arith, r)
  fields_rest-Shrinks (suc f) obj (Token.mark Mark.rbrace ∷ ts) h = gives (omega arith)
  fields_rest-Shrinks (suc f) obj ts h = fails refl

  parse_args-Shrinks :
      (f : ℕ) (ts : Tokens) → 15 + 16 * length ts < f → Shrinks (length ts) (parse_args f ts)
  parse_args-Shrinks zero ts h = absurd (omega arith)
  parse_args-Shrinks (suc f) (Token.mark Mark.rparen ∷ ts) h = gives (omega arith)
  parse_args-Shrinks (suc f) ts h = args_loop-Shrinks f ts (omega arith)

  args_loop-Shrinks :
      (f : ℕ) (ts : Tokens) → 14 + 16 * length ts < f → Shrinks (length ts) (args_loop f ts)
  args_loop-Shrinks zero ts h = absurd (omega arith)
  args_loop-Shrinks (suc f) (Token.ident name ∷ Token.mark Mark.assign ∷ ts) h =
      Promises-bind (parse_binary-Shrinks f Level.or_level ts (omega arith)) λ (value, us) p.
        Promises-weaken (args_rest-Shrinks f (kwarg name value) us (omega (arith, p)))
          λ q r. omega (arith, p, r)
  args_loop-Shrinks (suc f) ts h =
      Promises-bind (parse_binary-Shrinks f Level.or_level ts (omega arith)) λ (e, us) p.
        Promises-weaken (args_rest-Shrinks f e us (omega (arith, p))) λ q r. omega (arith, p, r)

  args_rest-Shrinks :
      (f : ℕ) (arg : Expr) (ts : Tokens)
      → 16 * length ts < f
      → Shrinks (length ts) (args_rest f arg ts)
  args_rest-Shrinks zero arg ts h = absurd (omega arith)
  args_rest-Shrinks (suc f) arg (Token.mark Mark.comma ∷ ts) h =
      Promises-bind (args_loop-Shrinks f ts (omega arith)) λ (args, us) p. gives (omega (arith, p))
  args_rest-Shrinks (suc f) arg (Token.mark Mark.rparen ∷ ts) h = gives (omega arith)
  args_rest-Shrinks (suc f) arg ts h = fails refl
