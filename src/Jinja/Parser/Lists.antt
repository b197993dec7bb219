-- ===== src/Jinja/Parser/Lists.antt =====
-- pkg/chat/jinja/parse.go: arguments, items and fields, given how each expression among them is read.
use gogguf.Base.{
  ℕ, zero, suc, ◌+◌, ◌*◌, ◌<◌, ◌≡◌, refl, ap, ◌∙◌, true, false, ◌∷◌, ◌++◌, append_assoc, arith,
  length, length-append,
}
use gogguf.Base.Bytes.{Bytes}
use gogguf.Base.Result.{ok, ◌>>=◌}
use gogguf.Jinja.Lexer.Words.{Mark, Token}
use gogguf.Jinja.Syntax.{Expr, Exprs, array, kwarg, no_exprs, more_exprs}
use gogguf.Jinja.Parser.Expressions.{
  Tokens, Level, parse_binary, parse_primary, parse_items, items_rest, parse_args, args_loop,
  args_rest,
}
use gogguf.Jinja.Parser.Print.{prec, body, arg_tokens, args_tail, item_tokens, items_tail}
use gogguf.Jinja.Parser.Strong.{stops, opens, Opens, Strong}
use gogguf.Jinja.Parser.Steps.{ReadsArgs}
use gogguf.Jinja.Parser.Front.{starts_assign, assigns}

-- A whole expression, with what may follow it.
abbrev pub Reads : Tokens → Expr → Type 0
Reads ts e = Strong 0 ts e

-- The loop of the arguments reads one off.
abbrev pub ReadsArg : Tokens → Expr → Type 0
ReadsArg ts e =
    (rest : Tokens) (f : ℕ)
    → 14 + 16 * length (ts ++ rest) < f
    → stops 1 rest ≡ true
    → starts_assign rest ≡ false
    → (g : ℕ) × (16 * length rest < g) × (args_loop f (ts ++ rest) ≡ args_rest g e rest)

parse_args-opens :
    (f : ℕ) (ts : Tokens) → opens 0 ts ≡ true → parse_args (suc f) ts ≡ args_loop f ts
unfolding parse_binary opens
parse_args-opens f (Token.mark Mark.rparen ∷ ts) h = absurd (cc)
parse_args-opens f _ h = refl

args_loop-plain :
    (f : ℕ) (ts : Tokens)
    → assigns ts ≡ false
    → args_loop (suc f) ts ≡ (parse_binary f Level.or_level ts >>= λ (e, us). args_rest f e us)
unfolding parse_binary assigns
args_loop-plain f (Token.ident x ∷ Token.mark Mark.assign ∷ ts) h = absurd (cc)
args_loop-plain f _ h = refl

items_rest-opens :
    (f : ℕ) (item : Expr) (ts : Tokens)
    → opens 0 ts ≡ true
    → items_rest (suc f) item (Token.mark Mark.comma ∷ ts)
      ≡ (parse_items f ts >>= λ (items, us). ok (more_exprs item items, us))
unfolding parse_binary opens
items_rest-opens f item (Token.mark Mark.rbracket ∷ ts) h = absurd (cc)
items_rest-opens f item _ h = refl

primary_items-opens :
    (f : ℕ) (ts : Tokens)
    → opens 0 ts ≡ true
    → parse_primary (suc f) (Token.mark Mark.lbracket ∷ ts)
      ≡ (parse_items f ts >>= λ (items, us). ok (array items, us))
unfolding parse_binary opens
primary_items-opens f (Token.mark Mark.rbracket ∷ ts) h = absurd (cc)
primary_items-opens f _ h = refl

pub plain-ReadsArg :
    (ts : Tokens) (e : Expr)
    → ((rest : Tokens) → starts_assign rest ≡ false → assigns (ts ++ rest) ≡ false)
    → Reads ts e
    → ReadsArg ts e
plain-ReadsArg ts e k h rest zero n s t = absurd (omega arith)
plain-ReadsArg ts e k h rest (suc f) n s t = (
  f,
  omega (arith, n, length-append ts rest),
  args_loop-plain f (ts ++ rest) (k rest t)
      ∙ ap (λ r. r >>= λ (e, us). args_rest f e us) (h rest f (omega (arith, n)) s),
)

pub kwarg-ReadsArg :
    (name : Bytes) (ts : Tokens) (e : Expr)
    → Reads ts e
    → ReadsArg (Token.ident name ∷ Token.mark Mark.assign ∷ ts) (kwarg name e)
kwarg-ReadsArg name ts e h rest zero n s t = absurd (omega arith)
kwarg-ReadsArg name ts e h rest (suc f) n s t =
    (f, omega (arith, n, length-append ts rest), step (ts ++ rest) (h rest f (omega (arith, n)) s))
  where
    step :
        (us : Tokens)
        → parse_binary f Level.or_level us ≡ ok (e, rest)
        → args_loop (suc f) (Token.ident name ∷ Token.mark Mark.assign ∷ us)
          ≡ args_rest f (kwarg name e) rest
    step us run = unfold parse_binary in rw (run, args_loop, ◌>>=◌) refl

-- What stands behind an argument is read behind any.
abbrev pub ReadsTail : Exprs → Type 0
ReadsTail es =
    (arg : Expr) (rest : Tokens) (f : ℕ)
    → 16 * length (args_tail es ++ rest) < f
    → args_rest f arg (args_tail es ++ rest) ≡ ok (more_exprs arg es, rest)

abbrev pub ReadsItems : Exprs → Type 0
ReadsItems es =
    (item : Expr) (rest : Tokens) (f : ℕ)
    → 16 * length (items_tail es ++ rest) < f
    → items_rest f item (items_tail es ++ rest) ≡ ok (more_exprs item es, rest)

args_tail-stops : (es : Exprs) (rest : Tokens) → stops 1 (args_tail es ++ rest) ≡ true
unfolding body stops prec
args_tail-stops no_exprs rest = refl
args_tail-stops (more_exprs e es) rest = refl

args_tail-no_assign : (es : Exprs) (rest : Tokens) → starts_assign (args_tail es ++ rest) ≡ false
unfolding body starts_assign
args_tail-no_assign no_exprs rest = refl
args_tail-no_assign (more_exprs e es) rest = refl

items_tail-stops : (es : Exprs) (rest : Tokens) → stops 1 (items_tail es ++ rest) ≡ true
unfolding body stops prec
items_tail-stops no_exprs rest = refl
items_tail-stops (more_exprs e es) rest = refl

-- An argument and what stands behind it.
args_loop-more :
    (e : Expr) (es : Exprs) (rest : Tokens) (f : ℕ)
    → ReadsArg (body e) e
    → ReadsTail es
    → 14 + 16 * length ((body e ++ args_tail es) ++ rest) < f
    → args_loop f ((body e ++ args_tail es) ++ rest) ≡ ok (more_exprs e es, rest)
args_loop-more e es rest f h t n =
    let assoc = append_assoc (body e) (args_tail es) rest in
    let m : 14 + 16 * length (body e ++ (args_tail es ++ rest)) < f = rw assoc at n in
    let (g, big, run) =
      h (args_tail es ++ rest) f m (args_tail-stops es rest) (args_tail-no_assign es rest) in
    ap (args_loop f) assoc ∙ run ∙ t e rest g big

pub none-ReadsTail : ReadsTail no_exprs
unfolding body parse_binary
none-ReadsTail arg rest zero n = absurd (omega arith)
none-ReadsTail arg rest (suc f) n = refl

pub more-ReadsTail :
    (e : Expr) (es : Exprs) → ReadsArg (body e) e → ReadsTail es → ReadsTail (more_exprs e es)
unfolding body
more-ReadsTail e es h t arg rest zero n = absurd (omega arith)
more-ReadsTail e es h t arg rest (suc f) n =
    step ((body e ++ args_tail es) ++ rest) (args_loop-more e es rest f h t (omega (arith, n)))
  where
    step :
        (us : Tokens)
        → args_loop f us ≡ ok (more_exprs e es, rest)
        → args_rest (suc f) arg (Token.mark Mark.comma ∷ us)
          ≡ ok (more_exprs arg (more_exprs e es), rest)
    step us run = unfold parse_binary in rw (run, args_rest, ◌>>=◌) refl

pub none-ReadsArgs : ReadsArgs (arg_tokens no_exprs) no_exprs
unfolding body parse_binary
none-ReadsArgs rest zero n = absurd (omega arith)
none-ReadsArgs rest (suc f) n = refl

pub more-ReadsArgs :
    (e : Expr) (es : Exprs)
    → Opens 0 (body e)
    → ReadsArg (body e) e
    → ReadsTail es
    → ReadsArgs (arg_tokens (more_exprs e es)) (more_exprs e es)
unfolding body
more-ReadsArgs e es o h t rest zero n = absurd (omega arith)
more-ReadsArgs e es o h t rest (suc f) n =
    let assoc = append_assoc (body e) (args_tail es) rest in
    parse_args-opens f ((body e ++ args_tail es) ++ rest)
      (ap (opens 0) assoc ∙ o (args_tail es ++ rest))
    ∙ args_loop-more e es rest f h t (omega (arith, n))

-- An item and what stands behind it.
parse_items-more :
    (e : Expr) (es : Exprs) (rest : Tokens) (f : ℕ)
    → Reads (body e) e
    → ReadsItems es
    → 14 + 16 * length ((body e ++ items_tail es) ++ rest) < f
    → parse_items f ((body e ++ items_tail es) ++ rest) ≡ ok (more_exprs e es, rest)
parse_items-more e es rest zero h t n = absurd (omega arith)
parse_items-more e es rest (suc f) h t n =
    let assoc = append_assoc (body e) (items_tail es) rest in
    let m : 14 + 16 * length (body e ++ (items_tail es ++ rest)) < suc f = rw assoc at n in
    ap (parse_items (suc f)) assoc
    ∙ step (body e ++ (items_tail es ++ rest))
        (h (items_tail es ++ rest) f (omega (arith, m)) (items_tail-stops es rest))
    ∙ t e rest f (omega (arith, m, length-append (body e) (items_tail es ++ rest)))
  where
    step :
        (us : Tokens)
        → parse_binary f Level.or_level us ≡ ok (e, items_tail es ++ rest)
        → parse_items (suc f) us ≡ items_rest f e (items_tail es ++ rest)
    step us run = unfold parse_binary in rw (run, parse_items, ◌>>=◌) refl

pub none-ReadsItems : ReadsItems no_exprs
unfolding body parse_binary
none-ReadsItems item rest zero n = absurd (omega arith)
none-ReadsItems item rest (suc f) n = refl

pub more-ReadsItems :
    (e : Expr) (es : Exprs)
    → Opens 0 (body e)
    → Reads (body e) e
    → ReadsItems es
    → ReadsItems (more_exprs e es)
unfolding body
more-ReadsItems e es o h t item rest zero n = absurd (omega arith)
more-ReadsItems e es o h t item rest (suc f) n =
    let assoc = append_assoc (body e) (items_tail es) rest in
    items_rest-opens f item ((body e ++ items_tail es) ++ rest)
      (ap (opens 0) assoc ∙ o (items_tail es ++ rest))
    ∙ ap (λ r. r >>= λ (items, us). ok (more_exprs item items, us))
        (parse_items-more e es rest f h t (omega (arith, n)))

-- The array literals.
abbrev pub ReadsPrimary : Tokens → Expr → Type 0
ReadsPrimary ts e =
    (rest : Tokens) (f : ℕ)
    → 16 * length (ts ++ rest) < f
    → parse_primary f (ts ++ rest) ≡ ok (e, rest)

pub no_items-ReadsPrimary :
    ReadsPrimary (Token.mark Mark.lbracket ∷ item_tokens no_exprs) (array no_exprs)
unfolding body parse_binary
no_items-ReadsPrimary rest zero n = absurd (omega arith)
no_items-ReadsPrimary rest (suc f) n = refl

pub items-ReadsPrimary :
    (e : Expr) (es : Exprs)
    → Opens 0 (body e)
    → Reads (body e) e
    → ReadsItems es
    → ReadsPrimary
        (Token.mark Mark.lbracket ∷ item_tokens (more_exprs e es))
        (array (more_exprs e es))
unfolding body
items-ReadsPrimary e es o h t rest zero n = absurd (omega arith)
items-ReadsPrimary e es o h t rest (suc f) n =
    let assoc = append_assoc (body e) (items_tail es) rest in
    primary_items-opens f ((body e ++ items_tail es) ++ rest)
      (ap (opens 0) assoc ∙ o (items_tail es ++ rest))
    ∙ ap (λ r. r >>= λ (items, us). ok (array items, us))
        (parse_items-more e es rest f h t (omega (arith, n)))
