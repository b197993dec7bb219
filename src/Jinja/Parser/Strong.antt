-- ===== src/Jinja/Parser/Strong.antt =====
-- pkg/chat/jinja/parse.go: what the parser does on tokens that are an expression of some rank, and how
-- this carries over from a rank to the ones below it.
use gogguf.Base.{
  ℕ, zero, suc, ◌+◌, ◌*◌, ◌≤◌, ◌<◌, ◌≡◌, refl, ◌∙◌, inl, inr, Bool, true, false, none, some, List,
  [], ◌∷◌, ◌++◌, arith, ltb, ltb→lt, Bool-cases, length, get_elem?, length-append,
}
use mathlib.Core.Path.{subst}
use gogguf.Base.Result.{Result, ok, ◌>>=◌}
use gogguf.Jinja.Lexer.Words.{Mark, Token}
use gogguf.Jinja.Syntax.{Expr}
use gogguf.Jinja.Parser.Expressions.{
  ParseError, Tokens, Level, is_op, op_at, parse_test, parse_binary, parse_operand, parse_rest,
  parse_not, parse_unary, parse_postfix, postfix_rest,
}
use gogguf.Jinja.Parser.Total.{need, parse_rest-stop}
use gogguf.Jinja.Parser.Print.{prec, level_rank, is_op-prec}

-- What follows does not bind as tightly as p.
unfoldable pub stops : ℕ → Tokens → Bool
unfolding prec
stops p (Token.mark m ∷ ts) = ltb (prec m) p
stops p _ = true

pub stops_mono : (p q : ℕ) (ts : Tokens) → p ≤ q → stops p ts ≡ true → stops q ts ≡ true
unfolding stops
stops_mono p q (Token.mark m ∷ ts) h s = ground (arith, h, s)
stops_mono p q _ h s = refl

pub op_at-stops : (l : Level) (ts : Tokens) → stops (level_rank l) ts ≡ true → op_at l ts ≡ none
unfolding op_at stops
op_at-stops l (Token.mark m ∷ ts) h = elim (Bool-cases (is_op l m)) [
  | inl op ↦ absurd (omega (arith, is_op-prec l m op, ltb→lt (prec m) (level_rank l) h))
  | inr other ↦ rw other refl
]
op_at-stops l _ h = refl

-- No test follows.
abbrev pub NoTest : Level → Tokens → Type 0
NoTest l ts = (e : Expr) → parse_test l e ts ≡ none

pub parse_test-stops : (l : Level) (ts : Tokens) → stops 5 ts ≡ true → NoTest l ts
unfolding parse_test stops prec
parse_test-stops Level.compare_level (Token.mark Mark.is_word ∷ ts) h e = absurd (cc)
parse_test-stops _ _ h e = refl

pub parse_test-op :
    (l : Level) (m : Mark) (ts : Tokens) → is_op l m ≡ true → NoTest l (Token.mark m ∷ ts)
unfolding parse_test is_op
parse_test-op Level.compare_level Mark.is_word ts h e = absurd (cc)
parse_test-op _ _ ts h e = refl

-- The first token of an expression of rank p.
unfoldable pub opens : ℕ → Tokens → Bool
opens p (Token.ident x ∷ ts) = true
opens p (Token.string s ∷ ts) = true
opens p (Token.number s ∷ ts) = true
opens p (Token.mark Mark.true_word ∷ ts) = true
opens p (Token.mark Mark.false_word ∷ ts) = true
opens p (Token.mark Mark.none_word ∷ ts) = true
opens p (Token.mark Mark.lparen ∷ ts) = true
opens p (Token.mark Mark.lbracket ∷ ts) = true
opens p (Token.mark Mark.lbrace ∷ ts) = true
opens p (Token.mark Mark.minus ∷ ts) = ltb p 9
opens p (Token.mark Mark.not_word ∷ ts) = ltb p 4
opens p _ = false

pub opens_mono : (p q : ℕ) (ts : Tokens) → p ≤ q → opens q ts ≡ true → opens p ts ≡ true
unfolding opens
opens_mono p q (Token.mark Mark.minus ∷ ts) h s = ground (arith, h, s)
opens_mono p q (Token.mark Mark.not_word ∷ ts) h s = ground (arith, h, s)
opens_mono p q _ h s = s

-- The parser of a binary level goes on behind the tokens with what may follow the expression.
abbrev pub StrongChain : Level → Tokens → Expr → Type 0
StrongChain l ts e =
    (rest : Tokens) (f : ℕ)
    → need l + 16 * length (ts ++ rest) < f
    → stops (suc (level_rank l)) rest ≡ true
    → NoTest l rest
    → (g : ℕ) × (16 * length rest < g) × (parse_binary f l (ts ++ rest) ≡ parse_rest g l e rest)

-- The operand of a binary level is read off the tokens.
abbrev pub StrongOperand : Level → Tokens → Expr → Type 0
StrongOperand l ts e =
    (rest : Tokens) (f : ℕ)
    → need l + 16 * length (ts ++ rest) ≤ f
    → stops (suc (level_rank l)) rest ≡ true
    → parse_operand f l (ts ++ rest) ≡ ok (e, rest)

-- A parser that needs n more than the tokens' share reads the expression off, where rank p stops.
abbrev pub StrongRead :
    (ℕ → Tokens → Result ParseError (Expr × Tokens)) → ℕ → ℕ → Tokens → Expr → Type 0
StrongRead parser n p ts e =
    (rest : Tokens) (f : ℕ)
    → n + 16 * length (ts ++ rest) < f
    → stops p rest ≡ true
    → parser f (ts ++ rest) ≡ ok (e, rest)

abbrev pub StrongPostfix : Tokens → Expr → Type 0
StrongPostfix ts e =
    (rest : Tokens) (f : ℕ)
    → 1 + 16 * length (ts ++ rest) < f
    → (g : ℕ) × (16 * length rest < g) × (parse_postfix f (ts ++ rest) ≡ postfix_rest g e rest)

-- The forms by rank, from the whole expression down to what a postfix may follow.
abbrev forms : List (Tokens → Expr → Type 0)
forms =
    StrongRead (λ f. parse_binary f Level.or_level) 13 1
    ∷ StrongChain Level.or_level
    ∷ StrongChain Level.and_level
    ∷ StrongRead parse_not 9 5
    ∷ StrongRead (λ f. parse_binary f Level.compare_level) 8 5
    ∷ StrongChain Level.compare_level
    ∷ StrongChain Level.add_level
    ∷ StrongChain Level.mul_level
    ∷ StrongRead parse_unary 2 9
    ∷ StrongPostfix
    ∷ []

-- The tokens are an expression of rank k.
abbrev pub Strong : ℕ → Tokens → Expr → Type 0
Strong k ts e = elim (get_elem? forms k) [ none ↦ ⊥ | some P ↦ P ts e ]

pub postfix_rest-stops :
    (g : ℕ) (e : Expr) (rest : Tokens)
    → 0 < g
    → stops 9 rest ≡ true
    → postfix_rest g e rest ≡ ok (e, rest)
unfolding parse_binary stops prec
postfix_rest-stops zero e rest h s = absurd (omega arith)
postfix_rest-stops (suc g) e (Token.mark Mark.dot ∷ ts) h s = absurd (cc)
postfix_rest-stops (suc g) e (Token.mark Mark.lbracket ∷ ts) h s = absurd (cc)
postfix_rest-stops (suc g) e (Token.mark Mark.lparen ∷ ts) h s = absurd (cc)
postfix_rest-stops (suc g) e (Token.mark Mark.pipe ∷ ts) h s = absurd (cc)
postfix_rest-stops (suc g) e _ h s = refl

pub parse_rest-stops :
    (g : ℕ) (l : Level) (e : Expr) (rest : Tokens)
    → 0 < g
    → stops (level_rank l) rest ≡ true
    → parse_rest g l e rest ≡ ok (e, rest)
parse_rest-stops zero l e rest h s = absurd (omega arith)
parse_rest-stops (suc g) l e rest h s = parse_rest-stop g l e rest (op_at-stops l rest s)

parse_unary-opens :
    (f : ℕ) (ts : Tokens) → opens 9 ts ≡ true → parse_unary (suc f) ts ≡ parse_postfix f ts
unfolding parse_binary opens
parse_unary-opens f (Token.mark Mark.minus ∷ ts) h = absurd (cc)
parse_unary-opens f _ h = refl

parse_not-opens :
    (f : ℕ) (ts : Tokens)
    → opens 4 ts ≡ true
    → parse_not (suc f) ts ≡ parse_binary f Level.compare_level ts
unfolding parse_binary opens
parse_not-opens f (Token.mark Mark.not_word ∷ ts) h = absurd (cc)
parse_not-opens f _ h = refl

pub parse_binary-eq :
    (f : ℕ) (l : Level) (e : Expr) (ts rest : Tokens)
    → parse_operand f l ts ≡ ok (e, rest)
    → parse_test l e rest ≡ none
    → parse_binary (suc f) l ts ≡ parse_rest f l e rest
parse_binary-eq f l e ts rest run no_test =
    unfold parse_binary in rw (run, ◌>>=◌, parse_binary, no_test) refl

pub need_pos : (l : Level) → 3 < need l
need_pos Level.or_level = omega arith
need_pos Level.and_level = omega arith
need_pos Level.compare_level = omega arith
need_pos Level.add_level = omega arith
need_pos Level.mul_level = omega arith

-- From a rank to the one below it.
chain-from_operand :
    (l : Level) (ts : Tokens) (e : Expr) → StrongOperand l ts e → StrongChain l ts e
chain-from_operand l ts e h rest zero n s t = absurd (omega arith)
chain-from_operand l ts e h rest (suc f) n s t = (
  f,
  omega (arith, n, need_pos l, length-append ts rest),
  parse_binary-eq f l e (ts ++ rest) rest (h rest f (omega arith) s) (t e),
)

operand-from_chain :
    (l : Level) (ts : Tokens) (e : Expr) (rest : Tokens) (f : ℕ)
    → StrongChain l ts e
    → need l + 16 * length (ts ++ rest) < f
    → stops (level_rank l) rest ≡ true
    → NoTest l rest
    → parse_binary f l (ts ++ rest) ≡ ok (e, rest)
operand-from_chain l ts e rest f h n s t =
    let (g, big, run) =
      h rest f n (stops_mono (level_rank l) (suc (level_rank l)) rest (omega arith) s) t in
    run ∙ parse_rest-stops g l e rest (omega (arith, big)) s

stops-NoTest : (l : Level) (rest : Tokens) → stops (level_rank l) rest ≡ true → NoTest l rest
stops-NoTest Level.or_level rest s e = unfold parse_test in refl
stops-NoTest Level.and_level rest s e = unfold parse_test in refl
stops-NoTest Level.compare_level rest s e = parse_test-stops Level.compare_level rest s e
stops-NoTest Level.add_level rest s e = unfold parse_test in refl
stops-NoTest Level.mul_level rest s e = unfold parse_test in refl

parse_operand-chain :
    (l m : Level) (ts : Tokens) (e : Expr) (rest : Tokens) (f : ℕ)
    → ((f : ℕ) (us : Tokens) → parse_operand (suc f) l us ≡ parse_binary f m us)
    → StrongChain m ts e
    → need m + 16 * length (ts ++ rest) < f
    → stops (level_rank m) rest ≡ true
    → parse_operand (suc f) l (ts ++ rest) ≡ ok (e, rest)
parse_operand-chain l m ts e rest f step h n s =
    step f (ts ++ rest) ∙ operand-from_chain m ts e rest f h n s (stops-NoTest m rest s)

pub to_operand :
    (l : Level) (ts : Tokens) (e : Expr) → Strong (suc (level_rank l)) ts e → StrongOperand l ts e
to_operand Level.or_level ts e h rest zero n s = absurd (omega arith)
to_operand Level.and_level ts e h rest zero n s = absurd (omega arith)
to_operand Level.compare_level ts e h rest zero n s = absurd (omega arith)
to_operand Level.add_level ts e h rest zero n s = absurd (omega arith)
to_operand Level.mul_level ts e h rest zero n s = absurd (omega arith)
to_operand Level.or_level ts e h rest (suc f) n s =
    parse_operand-chain Level.or_level Level.and_level ts e rest f
      (λ f us. unfold parse_binary in refl) h (omega arith) s
to_operand Level.and_level ts e h rest (suc f) n s =
    unfold parse_binary in h rest f (omega arith) (stops_mono 3 5 rest (omega arith) s)
to_operand Level.compare_level ts e h rest (suc f) n s =
    parse_operand-chain Level.compare_level Level.add_level ts e rest f
      (λ f us. unfold parse_binary in refl) h (omega arith) s
to_operand Level.add_level ts e h rest (suc f) n s =
    parse_operand-chain Level.add_level Level.mul_level ts e rest f
      (λ f us. unfold parse_binary in refl) h (omega arith) s
to_operand Level.mul_level ts e h rest (suc f) n s =
    unfold parse_binary in h rest f (omega arith) (stops_mono 8 9 rest (omega arith) s)

-- The first token of the expression, whatever follows.
abbrev pub Opens : ℕ → Tokens → Type 0
Opens p ts = (rest : Tokens) → opens p (ts ++ rest) ≡ true

lift_unary : (ts : Tokens) (e : Expr) → Opens 9 ts → Strong 9 ts e → Strong 8 ts e
lift_unary ts e o h rest zero n s = absurd (omega arith)
lift_unary ts e o h rest (suc f) n s =
    let (g, big, run) = h rest f (omega (arith, n)) in
    parse_unary-opens f (ts ++ rest) (o rest)
    ∙ run
    ∙ postfix_rest-stops g e rest (omega (arith, big)) s

lift_not : (ts : Tokens) (e : Expr) → Opens 4 ts → Strong 4 ts e → Strong 3 ts e
lift_not ts e o h rest zero n s = absurd (omega arith)
lift_not ts e o h rest (suc f) n s =
    parse_not-opens f (ts ++ rest) (o rest) ∙ h rest f (omega (arith, n)) s

lift :
    (k : ℕ) (ts : Tokens) (e : Expr)
    → k < 9
    → Opens (suc k) ts
    → Strong (suc k) ts e
    → Strong k ts e
lift zero ts e b o h = λ rest f n s.
    operand-from_chain Level.or_level ts e rest f h n s (stops-NoTest Level.or_level rest s)
lift (suc zero) ts e b o h =
    chain-from_operand Level.or_level ts e (to_operand Level.or_level ts e h)
lift (suc (suc zero)) ts e b o h =
    chain-from_operand Level.and_level ts e (to_operand Level.and_level ts e h)
lift (suc (suc (suc zero))) ts e b o h = lift_not ts e o h
lift (suc (suc (suc (suc zero)))) ts e b o h = λ rest f n s.
    operand-from_chain Level.compare_level ts e rest f h n s
      (stops-NoTest Level.compare_level rest s)
lift (suc (suc (suc (suc (suc zero))))) ts e b o h =
    chain-from_operand Level.compare_level ts e (to_operand Level.compare_level ts e h)
lift (suc (suc (suc (suc (suc (suc zero)))))) ts e b o h =
    chain-from_operand Level.add_level ts e (to_operand Level.add_level ts e h)
lift (suc (suc (suc (suc (suc (suc (suc zero))))))) ts e b o h =
    chain-from_operand Level.mul_level ts e (to_operand Level.mul_level ts e h)
lift (suc (suc (suc (suc (suc (suc (suc (suc zero)))))))) ts e b o h = lift_unary ts e o h
lift (suc (suc (suc (suc (suc (suc (suc (suc (suc k))))))))) ts e b o h = absurd (omega arith)

-- From a rank to all below it.
pub down :
    (d p k : ℕ) (ts : Tokens) (e : Expr)
    → k ≡ d + p
    → k ≤ 9
    → Opens k ts
    → Strong k ts e
    → Strong p ts e
down zero p k ts e same b o h =
    let q : k ≡ p = omega (arith, same) in subst (λ k. Strong k ts e) q h
down (suc d) p k ts e same b o h =
    let above : Strong (suc p) ts e = down d (suc p) k ts e (omega (arith, same)) b o h in
    lift p ts e (omega (arith, same, b))
      (λ rest. opens_mono (suc p) k (ts ++ rest) (omega (arith, same)) (o rest)) above
