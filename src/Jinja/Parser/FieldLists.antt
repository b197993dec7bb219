-- ===== src/Jinja/Parser/FieldLists.antt =====
-- pkg/chat/jinja/parse.go: object literals, given how each value among them is read.
use gogguf.Base.{
  ℕ, zero, suc, ◌*◌, ◌<◌, ◌≡◌, refl, ap, ◌∙◌, true, ◌∷◌, ◌++◌, append_assoc, arith, length,
  length-append,
}
use gogguf.Base.Bytes.{Bytes}
use gogguf.Base.Result.{ok, ◌>>=◌}
use gogguf.Jinja.Lexer.Words.{Mark, Token}
use gogguf.Jinja.Syntax.{Expr, Fields, object, no_fields, more_fields, set_field}
use gogguf.Jinja.Parser.Expressions.{
  Tokens, Level, parse_binary, parse_key, parse_primary, parse_fields, fields_rest,
}
use gogguf.Jinja.Parser.Print.{prec, body, field_tokens, fields_tail, Lacks}
use gogguf.Jinja.Parser.Strong.{stops}
use gogguf.Jinja.Parser.Lists.{Reads, ReadsPrimary}

-- The assignments of a literal, one after the other.
abbrev pub set_fields : Fields → Fields → Fields
set_fields obj no_fields = obj
set_fields obj (more_fields k e fs) = set_fields (set_field k e obj) fs

set_fields-more :
    (k : Bytes) (e : Expr) (obj fs : Fields)
    → Lacks k fs
    → set_fields (more_fields k e obj) fs ≡ more_fields k e (set_fields obj fs)
set_fields-more k e obj no_fields h = refl
set_fields-more k e obj (more_fields j d fs) (other, h) =
    let past : set_field j d (more_fields k e obj) ≡ more_fields k e (set_field j d obj) =
      unfold set_field in rw other refl in
    ap (λ o. set_fields o fs) past ∙ set_fields-more k e (set_field j d obj) fs h

-- No two fields have one name.
abbrev pub AreDistinct : Fields → Type 0
AreDistinct no_fields = Unit
AreDistinct (more_fields k e fs) = Lacks k fs × AreDistinct fs

pub set_fields-none : (fs : Fields) → AreDistinct fs → set_fields no_fields fs ≡ fs
set_fields-none no_fields h = refl
set_fields-none (more_fields k e fs) (lacks, h) =
    let first : set_field k e no_fields ≡ more_fields k e no_fields = unfold set_field in refl in
    ap (λ o. set_fields o fs) first
    ∙ set_fields-more k e no_fields fs lacks
    ∙ ap (more_fields k e) (set_fields-none fs h)

-- What stands behind a value is read behind any fields.
abbrev pub ReadsFields : Fields → Type 0
ReadsFields fs =
    (obj : Fields) (rest : Tokens) (f : ℕ)
    → 16 * length (fields_tail fs ++ rest) < f
    → fields_rest f obj (fields_tail fs ++ rest) ≡ ok (set_fields obj fs, rest)

fields_tail-stops : (fs : Fields) (rest : Tokens) → stops 1 (fields_tail fs ++ rest) ≡ true
unfolding body stops prec
fields_tail-stops no_fields rest = refl
fields_tail-stops (more_fields k e fs) rest = refl

parse_fields-more :
    (k : Bytes) (e : Expr) (fs obj : Fields) (rest : Tokens) (f : ℕ)
    → Reads (body e) e
    → ReadsFields fs
    → 16 * suc (length ((body e ++ fields_tail fs) ++ rest)) < f
    → parse_fields f obj
        (Token.string k ∷ Token.mark Mark.colon ∷ ((body e ++ fields_tail fs) ++ rest))
      ≡ ok (set_fields obj (more_fields k e fs), rest)
parse_fields-more k e fs obj rest zero h t n = absurd (omega arith)
parse_fields-more k e fs obj rest (suc f) h t n =
    let assoc = append_assoc (body e) (fields_tail fs) rest in
    let m : 16 * suc (length (body e ++ (fields_tail fs ++ rest))) < suc f = rw assoc at n in
    ap (λ us. parse_fields (suc f) obj (Token.string k ∷ Token.mark Mark.colon ∷ us)) assoc
    ∙ step (body e ++ (fields_tail fs ++ rest))
        (h (fields_tail fs ++ rest) f (omega (arith, m)) (fields_tail-stops fs rest))
    ∙ t (set_field k e obj) rest f
        (omega (arith, m, length-append (body e) (fields_tail fs ++ rest)))
  where
    step :
        (us : Tokens)
        → parse_binary f Level.or_level us ≡ ok (e, fields_tail fs ++ rest)
        → parse_fields (suc f) obj (Token.string k ∷ Token.mark Mark.colon ∷ us)
          ≡ fields_rest f (set_field k e obj) (fields_tail fs ++ rest)
    step us run = unfold parse_binary in unfold parse_key in rw (parse_fields, ◌>>=◌, run) refl

pub none-ReadsFields : ReadsFields no_fields
unfolding body parse_binary
none-ReadsFields obj rest zero n = absurd (omega arith)
none-ReadsFields obj rest (suc f) n = refl

pub more-ReadsFields :
    (k : Bytes) (e : Expr) (fs : Fields)
    → Reads (body e) e
    → ReadsFields fs
    → ReadsFields (more_fields k e fs)
unfolding body
more-ReadsFields k e fs h t obj rest zero n = absurd (omega arith)
more-ReadsFields k e fs h t obj rest (suc f) n =
    step ((body e ++ fields_tail fs) ++ rest)
      (parse_fields-more k e fs obj rest f h t (omega (arith, n)))
  where
    step :
        (us : Tokens)
        → parse_fields f obj (Token.string k ∷ Token.mark Mark.colon ∷ us)
          ≡ ok (set_fields obj (more_fields k e fs), rest)
        → fields_rest
            (suc f)
            obj
            (Token.mark Mark.comma ∷ Token.string k ∷ Token.mark Mark.colon ∷ us)
          ≡ ok (set_fields obj (more_fields k e fs), rest)
    step us run = unfold parse_binary in run

-- The object literals.
pub no_fields-ReadsPrimary :
    ReadsPrimary (Token.mark Mark.lbrace ∷ field_tokens no_fields) (object no_fields)
unfolding body parse_binary
no_fields-ReadsPrimary rest zero n = absurd (omega arith)
no_fields-ReadsPrimary rest (suc f) n = refl

pub fields-ReadsPrimary :
    (k : Bytes) (e : Expr) (fs : Fields)
    → AreDistinct (more_fields k e fs)
    → Reads (body e) e
    → ReadsFields fs
    → ReadsPrimary
        (Token.mark Mark.lbrace ∷ field_tokens (more_fields k e fs))
        (object (more_fields k e fs))
unfolding body
fields-ReadsPrimary k e fs d h t rest zero n = absurd (omega arith)
fields-ReadsPrimary k e fs d h t rest (suc f) n = step ((body e ++ fields_tail fs) ++ rest) (
    parse_fields-more k e fs no_fields rest f h t (omega (arith, n))
    ∙ ap (λ o. ok (o, rest)) (set_fields-none (more_fields k e fs) d))
  where
    step :
        (us : Tokens)
        → parse_fields f no_fields (Token.string k ∷ Token.mark Mark.colon ∷ us)
          ≡ ok (more_fields k e fs, rest)
        → parse_primary
            (suc f)
            (Token.mark Mark.lbrace ∷ Token.string k ∷ Token.mark Mark.colon ∷ us)
          ≡ ok (object (more_fields k e fs), rest)
    step us run = unfold parse_binary in rw (run, parse_primary, ◌>>=◌) refl
