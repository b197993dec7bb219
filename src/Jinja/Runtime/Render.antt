-- ===== src/Jinja/Runtime/Render.antt =====
-- pkg/chat/jinja/jinja.go: `Render`, the lexer, the parser and the evaluator one behind the other.
use gogguf.Base.{◌≡◌, refl, [], ◌∷◌}
use gogguf.Base.Bytes.{Bytes}
use gogguf.Base.Result.{Result, ok, err, ◌>>=◌}
use gogguf.Jinja.Lexer.Words.{LexError, Token}
use gogguf.Jinja.Lexer.{tokenize}
use gogguf.Jinja.Lexer.Tags.{IsPlain, tokenize-IsPlain}
use gogguf.Jinja.Syntax.{Nodes, no_nodes, text_node, one_node}
use gogguf.Jinja.Parser.Expressions.{ParseError}
use gogguf.Jinja.Parser.Blocks.{parse}
use gogguf.Jinja.Parser.Template.{parse-template_tokens}
use gogguf.Jinja.Runtime.Values.{Floats}
use gogguf.Jinja.Runtime.Eval.Apply.{EvalError}
use gogguf.Jinja.Runtime.Exec.{exec_nodes}
use gogguf.Jinja.Runtime.Context.{AnyFields, new_exec_ctx}

pub data RenderError : Type 0 where
  lex_error : LexError → RenderError
  parse_error : ParseError → RenderError
  exec_error : EvalError → RenderError

-- The error of a part as an error of the whole.
abbrev pub lift : {E A : Type 0} → (E → RenderError) → Result E A → Result RenderError A
lift wrap (ok a) = ok a
lift wrap (err e) = err (wrap e)

module _ {N : Type 0} (floats : Floats N) where
  -- `execProgram`, with what is written.
  unfoldable pub exec_program : Nodes → AnyFields N → Result EvalError Bytes
  unfolding exec_nodes new_exec_ctx
  exec_program prog root = do st ← exec_nodes floats prog (new_exec_ctx floats root); ok st.out

  unfoldable pub render : Bytes → AnyFields N → Result RenderError Bytes
  render template ctx = do
    tokens ← lift RenderError.lex_error (tokenize template)
    prog ← lift RenderError.parse_error (parse tokens)
    lift RenderError.exec_error (exec_program prog ctx)

  -- A template in which no tag opens is rendered as itself, whatever the context.
  pub render-IsPlain : (text : Bytes) (ctx : AnyFields N) → IsPlain text → render text ctx ≡ ok text
  render-IsPlain [] ctx h =
      let lexed : tokenize [] ≡ ok (Token.eof ∷ []) = unfold tokenize in refl in
      let parsed : parse (Token.eof ∷ []) ≡ ok no_nodes = parse-template_tokens no_nodes tt in
      let ran : exec_program no_nodes ctx ≡ ok [] =
        unfold exec_program exec_nodes new_exec_ctx in refl in
      unfold render in rw (lexed, ◌>>=◌, parsed, ran) refl
  render-IsPlain (c ∷ cs) ctx h =
      let lexed : tokenize (c ∷ cs) ≡ ok (Token.text (c ∷ cs) ∷ Token.eof ∷ []) =
        tokenize-IsPlain c cs h in
      let parsed : parse (Token.text (c ∷ cs) ∷ Token.eof ∷ [])
          ≡ ok (one_node (text_node (c ∷ cs))) =
        parse-template_tokens (one_node (text_node (c ∷ cs))) tt in
      let ran : exec_program (one_node (text_node (c ∷ cs))) ctx ≡ ok (c ∷ cs) =
        unfold exec_program exec_nodes new_exec_ctx in refl in
      unfold render in rw (lexed, ◌>>=◌, parsed, ran) refl
