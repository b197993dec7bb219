-- ===== src/Jinja/Parser/Template.antt =====
-- pkg/chat/jinja/parse.go: templates of texts and expression tags without trim marks.
use gogguf.Base.{
  ℕ, zero, suc, ◌+◌, ◌*◌, ◌<◌, ◌≡◌, refl, sym, ap, ◌∙◌, false, [], ◌∷◌, ◌++◌, arith, length,
  length-append,
}
use gogguf.Base.Result.{ok, ◌>>=◌}
use gogguf.Jinja.Lexer.Words.{Token}
use gogguf.Jinja.Syntax.{
  Expr, Node, Nodes, text_node, expr_node, no_nodes, more_nodes, append_nodes, one_node,
}
use gogguf.Jinja.Parser.Expressions.{Tokens, Level, parse_binary}
use gogguf.Jinja.Parser.Blocks.{close_expr, parse_block, finish, parse}
use gogguf.Jinja.Parser.Print.{body, IsPrintable}
use gogguf.Jinja.Parser.Strong.{stops}
use gogguf.Jinja.Parser.Complete.{parse_binary-body}

-- The tokens of a template.
abbrev pub template_tokens : Nodes → Tokens
template_tokens (more_nodes (text_node s) ns) = Token.text s ∷ template_tokens ns
template_tokens (more_nodes (expr_node e) ns) =
    Token.expr_open false ∷ (body e ++ Token.expr_close false ∷ template_tokens ns)
template_tokens _ = Token.eof ∷ []

-- Texts and expression tags.
abbrev pub AreTags : Nodes → Type 0
AreTags no_nodes = Unit
AreTags (more_nodes (text_node s) ns) = AreTags ns
AreTags (more_nodes (expr_node e) ns) = IsPrintable false e × AreTags ns
AreTags _ = ⊥

append_nodes-none : (ns : Nodes) → append_nodes ns no_nodes ≡ ns
unfolding append_nodes
append_nodes-none no_nodes = refl
append_nodes-none (more_nodes n ns) = ap (more_nodes n) (append_nodes-none ns)

append_nodes-one :
    (ns ms : Nodes) (n : Node)
    → append_nodes (append_nodes ns (one_node n)) ms ≡ append_nodes ns (more_nodes n ms)
unfolding append_nodes
append_nodes-one no_nodes ms n = refl
append_nodes-one (more_nodes m ns) ms n = ap (more_nodes m) (append_nodes-one ns ms n)

-- The loop over the nodes goes on behind an expression tag.
parse_block-expr :
    (f : ℕ) (acc : Nodes) (e : Expr) (us rest : Tokens)
    → parse_binary f Level.or_level us ≡ ok (e, Token.expr_close false ∷ rest)
    → parse_block (suc f) [] acc (Token.expr_open false ∷ us, false)
      ≡ parse_block f [] (append_nodes acc (one_node (expr_node e))) (rest, false)
parse_block-expr f acc e us rest run = unfold parse_block close_expr in rw (run, ◌>>=◌) refl

template-parse_block :
    (ns acc : Nodes) (f : ℕ)
    → AreTags ns
    → 14 + 16 * length (template_tokens ns) < f
    → parse_block f [] acc (template_tokens ns, false)
      ≡ ok (append_nodes acc ns, (Token.eof ∷ [], false))
template-parse_block ns acc zero h n = absurd (omega arith)
template-parse_block no_nodes acc (suc f) h n =
    unfold parse_block in ap (λ ms. ok (ms, (Token.eof ∷ [], false))) (sym (append_nodes-none acc))
template-parse_block (more_nodes (text_node s) ns) acc (suc f) h n =
    let first : parse_block (suc f) [] acc (Token.text s ∷ template_tokens ns, false)
        ≡ parse_block f [] (append_nodes acc (one_node (text_node s))) (template_tokens ns, false) =
      unfold parse_block in refl in
    first
    ∙ template-parse_block ns (append_nodes acc (one_node (text_node s))) f h (omega (arith, n))
    ∙ ap (λ ms. ok (ms, (Token.eof ∷ [], false))) (append_nodes-one acc ns (text_node s))
template-parse_block (more_nodes (expr_node e) ns) acc (suc f) (h, w) n =
    let rest = Token.expr_close false ∷ template_tokens ns in
    parse_block-expr f acc e (body e ++ rest) (template_tokens ns)
      (parse_binary-body e rest f h (unfold stops in refl) (omega (arith, n)))
    ∙ template-parse_block ns (append_nodes acc (one_node (expr_node e))) f w
        (omega (arith, n, length-append (body e) rest))
    ∙ ap (λ ms. ok (ms, (Token.eof ∷ [], false))) (append_nodes-one acc ns (expr_node e))
template-parse_block (more_nodes _ ns) acc (suc f) h n = absurd h

-- A template of texts and expression tags without trim marks, each expression written with parentheses
-- only where the precedences ask for them, is parsed to the list of these texts and expressions.
pub parse-template_tokens : (ns : Nodes) → AreTags ns → parse (template_tokens ns) ≡ ok ns
unfolding parse
parse-template_tokens ns h =
    let run =
      template-parse_block ns no_nodes (16 * length (template_tokens ns) + 32) h (omega arith) in
    ap (λ r. r >>= λ (ns, s). finish ns s) run ∙ (unfold finish append_nodes in refl)
