-- ===== src/Tests/Template.antt =====
-- Concrete templates for the theorems about the parser and the evaluator of pkg/chat/jinja.
use gogguf.Base.{
  ℕ, ◌+◌, ◌-◌, ◌*◌, ◌≡◌, refl, ◌≢◌, true, false, some, List, [], ◌∷◌, ◌++◌, arith, ltb, leb, ◌==◌,
}
use gogguf.Base.Bytes.{codes}
use gogguf.Base.Int.{pos, pos_part}
use gogguf.Base.Result.{ok, err}
use gogguf.Jinja.Lexer.{opening}
use gogguf.Jinja.Lexer.Words.{Mark, Token}
use gogguf.Jinja.Lexer.Tags.{IsPlain}
use gogguf.Jinja.Syntax.{
  Literal, Expr, Nodes, lit, variable, attr, index, bin, unary, call, filter, test, array, no_exprs,
  more_exprs, text_node, expr_node, for_node, set_node, no_nodes, more_nodes,
}
use gogguf.Jinja.Parser.Expressions.{ParseError, Level, is_op, parse_binary}
use gogguf.Jinja.Parser.Blocks.{parse}
use gogguf.Jinja.Parser.Ends.{parse-ne-out_of_fuel}
use gogguf.Jinja.Parser.Print.{body, IsPrintable}
use gogguf.Jinja.Parser.Strong.{stops}
use gogguf.Jinja.Parser.Complete.{parse_binary-body}
use gogguf.Jinja.Parser.Template.{template_tokens, AreTags, parse-template_tokens}
use gogguf.Jinja.Runtime.Values.{Floats, str_val}
use gogguf.Jinja.Runtime.Exec.{State, loop_fields, exec_nodes}
use gogguf.Jinja.Runtime.Exec.Later.{AreUnset, StateIsValid, IsLater}
use gogguf.Jinja.Runtime.Exec.Scope.{exec_nodes-IsLater}
use gogguf.Jinja.Runtime.Context.{
  AnyFields, any_string, any_map, any_array, any_int, any_bool, more_anys, no_anys, no_any_fields,
  more_any_fields, new_exec_ctx,
}
use gogguf.Jinja.Runtime.Context.Shows.{FieldsAreShown, new_exec_ctx-FieldsAreShown}
use gogguf.Jinja.Runtime.Render.{render, render-IsPlain}

-- `(a + -1) * xs[0]["k"] is not defined or not f(true, b|tojson()).g`
abbrev some_expr : Expr
some_expr =
    bin Mark.or_word
      (test
        (bin Mark.star
          (bin Mark.plus (variable (codes "a"))
            (unary Mark.minus (lit (Literal.number (codes "1")))))
          (index (index (variable (codes "xs")) (lit (Literal.number (codes "0"))))
            (lit (Literal.text (codes "k")))))
        (codes "defined") true)
      (unary Mark.not_word (
        attr
          (call (variable (codes "f")) (
            more_exprs (lit (Literal.bool true))
              (more_exprs (filter (variable (codes "b")) (codes "tojson") no_exprs) no_exprs)))
          (codes "g")))

some_expr-IsPrintable : IsPrintable false some_expr
unfolding IsPrintable is_op
some_expr-IsPrintable = (
  (Level.or_level, refl),
  (((Level.mul_level, refl), ((Level.add_level, refl), tt, tt), ((tt, tt), tt))),
  (tt, (tt, ((tt, tt), tt))),
)

parse_binary-body_example :
    parse_binary 1000 Level.or_level (body some_expr ++ Token.eof ∷ [])
    ≡ ok (some_expr, Token.eof ∷ [])
parse_binary-body_example =
    parse_binary-body some_expr (Token.eof ∷ []) 1000 some_expr-IsPrintable (unfold stops in refl)
      (unfold body in omega arith)

-- `Hi {{ name }}!`
abbrev some_nodes : Nodes
some_nodes =
    more_nodes (text_node (codes "Hi ")) (
      more_nodes (expr_node (variable (codes "name")))
        (more_nodes (text_node (codes "!")) no_nodes))

some_nodes-AreTags : AreTags some_nodes
unfolding IsPrintable
some_nodes-AreTags = (tt, tt)

parse-template_tokens_example : parse (template_tokens some_nodes) ≡ ok some_nodes
parse-template_tokens_example = parse-template_tokens some_nodes some_nodes-AreTags

abbrev broken_tokens : List Token
broken_tokens = Token.stmt_open false ∷ Token.ident (codes "if") ∷ Token.eof ∷ []

parse-ne-out_of_fuel_example : parse broken_tokens ≢ err ParseError.out_of_fuel
parse-ne-out_of_fuel_example = parse-ne-out_of_fuel broken_tokens

-- Natural numbers in place of floats.
abbrev whole_floats : Floats ℕ
whole_floats = record {
  zero_num = 0;
  of_int = pos_part;
  to_int = pos;
  parse_float = λ s. 0;
  plus_num = λ a b. a + b;
  minus_num = λ a b. a - b;
  times_num = λ a b. a * b;
  over_num = λ a b. a;
  neg_num = λ a. a;
  eq_num = λ a b. a == b;
  lt_num = ltb;
  le_num = leb;
  is_whole = λ a. true;
  itoa = λ i. (pos_part i + 48) ∷ [];
  format_float = λ a. [];
  marshal = λ j. some (codes "{}");
}

-- `{% for i in [3, 4] %}{% set x = i %}{{ x }}{% endfor %}`
abbrev some_loop : Nodes
some_loop =
    more_nodes
      (for_node (codes "i" ∷ [])
        (array (
          more_exprs (lit (Literal.number (codes "3")))
            (more_exprs (lit (Literal.number (codes "4"))) no_exprs)))
        (more_nodes (set_node ((variable (codes "x"), variable (codes "i")) ∷ []))
          (more_nodes (expr_node (variable (codes "x"))) no_nodes))
        no_nodes)
      no_nodes

abbrev some_ctx : AnyFields ℕ
some_ctx = more_any_fields (codes "x") (any_string (codes "y")) no_any_fields

-- `{"x": "y", "m": {"a": [1, true]}}`
abbrev nested_ctx : AnyFields ℕ
nested_ctx = more_any_fields (codes "x") (any_string (codes "y")) (
    more_any_fields (codes "m")
      (any_map (
        more_any_fields (codes "a")
          (any_array (more_anys (any_int (pos 1)) (more_anys (any_bool true) no_anys)))
          no_any_fields))
      no_any_fields)

new_exec_ctx-FieldsAreShown_example :
    FieldsAreShown whole_floats
      (new_exec_ctx whole_floats nested_ctx).heap
      nested_ctx
      (new_exec_ctx whole_floats nested_ctx).vars
    × ((new_exec_ctx whole_floats nested_ctx).out ≡ [])
    × StateIsValid (new_exec_ctx whole_floats nested_ctx)
new_exec_ctx-FieldsAreShown_example = new_exec_ctx-FieldsAreShown whole_floats nested_ctx

render-IsPlain_example : render whole_floats (codes "a b") some_ctx ≡ ok (codes "a b")
render-IsPlain_example = render-IsPlain whole_floats (codes "a b") some_ctx plain
  where
    plain : IsPlain (codes "a b")
    plain = unfold opening in (refl, (refl, (refl, tt)))

-- Behind the loop, `x` is what it was.
abbrev some_start : State ℕ
some_start = record {
  vars = (codes "x", str_val whole_floats (codes "y")) ∷ [];
  heap = [];
  out = [];
}

abbrev some_later : State ℕ
some_later = record {
  vars = (codes "x", str_val whole_floats (codes "y")) ∷ [];
  heap = loop_fields whole_floats 0 2 ∷ loop_fields whole_floats 1 2 ∷ [];
  out = codes "00";
}

some_loop-runs : exec_nodes whole_floats some_loop some_start ≡ ok some_later
unfolding exec_nodes
some_loop-runs = refl

some_start-IsValid : StateIsValid some_start
unfolding str_val
some_start-IsValid = (tt, ((tt, tt), tt))

exec_nodes-IsLater_example : IsLater (λ x. AreUnset x some_loop) some_start some_later
exec_nodes-IsLater_example =
    exec_nodes-IsLater whole_floats some_loop some_start some_later some_start-IsValid
      some_loop-runs
