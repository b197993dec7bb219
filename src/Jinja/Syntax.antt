-- ===== src/Jinja/Syntax.antt =====
-- pkg/chat/jinja/ast.go: the syntax trees. A type holds no list of itself, so that each list inside a
-- tree is a type of its own. A literal keeps the text of a number, which `numVal` converts.
use gogguf.Base.{Bool, List, if◌then◌else◌}
use gogguf.Base.Bytes.{Bytes, equal}
use gogguf.Jinja.Lexer.Words.{Mark}

pub data Literal : Type 0 where
  text number : Bytes → Literal
  bool : Bool → Literal
  none_lit : Literal

mutual
  pub data Expr : Type 0 where
    lit : Literal → Expr
    variable : Bytes → Expr
    attr : Expr → Bytes → Expr
    index : Expr → Expr → Expr
    bin : Mark → Expr → Expr → Expr
    unary : Mark → Expr → Expr
    call : Expr → Exprs → Expr
    filter : Expr → Bytes → Exprs → Expr
    test : Expr → Bytes → Bool → Expr
    object : Fields → Expr
    array : Exprs → Expr
    kwarg : Bytes → Expr → Expr

  pub data Exprs : Type 0 where
    no_exprs : Exprs
    more_exprs : Expr → Exprs → Exprs

  -- A map: no two fields have one name.
  pub data Fields : Type 0 where
    no_fields : Fields
    more_fields : Bytes → Expr → Fields → Fields

mutual
  pub data Node : Type 0 where
    text_node : Bytes → Node
    expr_node : Expr → Node
    if_node : Expr → Nodes → Elifs → Nodes → Node
    for_node : List Bytes → Expr → Nodes → Nodes → Node
    set_node : List (Expr × Expr) → Node

  pub data Nodes : Type 0 where
    no_nodes : Nodes
    more_nodes : Node → Nodes → Nodes

  pub data Elifs : Type 0 where
    no_elifs : Elifs
    more_elifs : Expr → Nodes → Elifs → Elifs

-- `obj[key] = value`.
unfoldable pub set_field : Bytes → Expr → Fields → Fields
set_field key value no_fields = more_fields key value no_fields
set_field key value (more_fields k e fs) =
    let later = set_field key value fs in
    if equal k key then more_fields k value fs else more_fields k e later

unfoldable pub append_nodes : Nodes → Nodes → Nodes
append_nodes no_nodes ms = ms
append_nodes (more_nodes n ns) ms = more_nodes n (append_nodes ns ms)

abbrev pub one_node : Node → Nodes
one_node n = more_nodes n no_nodes
