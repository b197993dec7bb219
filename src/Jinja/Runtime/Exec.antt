-- ===== src/Jinja/Runtime/Exec.antt =====
-- pkg/chat/jinja/runtime.go: the nodes. A context's variables are a map of its own, copied by `fork`; the
-- heap and the output are shared by all contexts.
pub mod Later
pub mod Scope
use gogguf.Base.{
  ℕ, zero, suc, ◌+◌, ◌-◌, ◌*◌, ◌/◌, ◌%◌, ◌^◌, ◌≤◌, ◌<◌, min, max, ◌≡◌, refl, sym, ap, ◌∙◌, ◌≢◌, ◌↔◌,
  ◌⊎◌, inl, inr, Bool, true, false, not, ◌&&◌, ◌||◌, Option, none, some, List, [], ◌∷◌, ◌++◌, map,
  append-nil, append_assoc, arith, ltb, leb, ◌==◌, if◌then◌else◌, ltb→lt, ltb→le, lt→ltb, le→ltb,
  leb→le, ==_iff, ==_self, Bool-cases, Option-cases, length, get_elem?, set, take, drop, replicate,
  length-append, length-replicate, length-take, length-drop, take-append-drop, take_of_length-le,
  drop_of_length-le, take-append, drop_nil, take_nil, drop-append, drop-length-append,
  take-length-append, take-append_exact, drop-append_exact, drop-drop, take-take, take-drop,
  take-add, length-set, get_elem?-set_self, get_elem?-set_ne, get_elem?-set_inv, length-map,
  get_elem?-map, get_elem?-map_inv, All, All-get_elem?, All-set,
}
use gogguf.Base.Bytes.{Bytes, codes}
use gogguf.Base.Int.{ℤ, pos}
use gogguf.Base.Result.{Result, ok, err, ◌>>=◌}
use gogguf.Jinja.Syntax.{
  Expr, Node, Nodes, Elifs, variable, attr, text_node, expr_node, if_node, for_node, set_node,
  no_nodes, more_nodes, no_elifs, more_elifs,
}
use gogguf.Jinja.Runtime.Values.{
  Kind, Value, Floats, Map, Heap, put, same_kind, obj_of, set_obj, is_kind, to_array, alloc,
  bool_val, int_val, object_val, truthy, to_string,
}
use gogguf.Jinja.Runtime.Eval.{get, eval}
use gogguf.Jinja.Runtime.Eval.Apply.{EvalError}

-- A context with what all contexts share.
pub record State (N : Type 0) : Type 0 where
  pub vars : Map (Value N)
  pub heap : Heap N
  pub out : Bytes

module _ {N : Type 0} where
  abbrev pub set_var : Bytes → Value N → State N → State N
  set_var name v st = record { vars = put name v st.vars; heap = st.heap; out = st.out }

  abbrev pub with_heap : Heap N → State N → State N
  with_heap heap st = record { vars = st.vars; heap = heap; out = st.out }

  -- `WriteString`.
  abbrev pub write : Bytes → State N → State N
  write s st = record { vars = st.vars; heap = st.heap; out = st.out ++ s }

  -- `base.obj[name] = v`, with a new map where there is none.
  unfoldable pub set_attr : Value N → Bytes → Value N → Heap N → Value N × Heap N
  unfolding put alloc
  set_attr base name v heap = elim (obj_of base) [
    | none ↦ (set_obj (alloc ((name, v) ∷ []) heap).0 base, (alloc ((name, v) ∷ []) heap).1)
    | some a ↦ (base, set heap a (put name v (elim (get_elem? heap a) [ none ↦ [] | some m ↦ m ])))
  ]

module _ {N : Type 0} (floats : Floats N) where
  -- `storeBase`.
  unfoldable pub store_base : Expr → Value N → State N → Result EvalError (State N)
  unfolding put set_attr eval
  store_base (variable x) v st = ok (set_var x v st)
  store_base (attr e a) v st = do
    (parent, heap₁) ← eval floats st.vars e st.heap
    store_base e (set_attr parent a v heap₁).0 (with_heap (set_attr parent a v heap₁).1 st)
  store_base _ v st = ok st

  -- The target `e.a` where e is no variable.
  unfoldable pub assign_attr : Expr → Bytes → Value N → State N → Result EvalError (State N)
  unfolding same_kind set_attr eval store_base
  assign_attr e a v st = do
    (base, heap₁) ← eval floats st.vars e st.heap
    elim (is_kind Kind.namespace_kind base || is_kind Kind.object_kind base) [
      | true ↦ store_base e (set_attr base a v heap₁).0 (with_heap (set_attr base a v heap₁).1 st)
      | false ↦ err EvalError.cannot_assign
    ]

  -- `assignTarget`.
  unfoldable pub assign_target : Expr → Value N → State N → Result EvalError (State N)
  unfolding put get set_attr assign_attr
  assign_target (variable x) v st = ok (set_var x v st)
  assign_target (attr (variable x) a) v st =
      let written = set_attr (get floats st.vars x) a v st.heap in
      ok (set_var x written.0 (with_heap written.1 st))
  assign_target (attr e a) v st = assign_attr e a v st
  assign_target _ v st = err EvalError.unsupported_target

  -- The loop of a `set` tag.
  unfoldable pub exec_assigns : List (Expr × Expr) → State N → Result EvalError (State N)
  unfolding eval assign_target
  exec_assigns [] st = ok st
  exec_assigns ((target, e) ∷ assigns) st = do
    (v, heap₁) ← eval floats st.vars e st.heap
    st₁ ← assign_target target v (with_heap heap₁ st)
    exec_assigns assigns st₁

  -- `fromLoop`, for round i of n.
  unfoldable pub loop_fields : ℕ → ℕ → Map (Value N)
  unfolding int_val bool_val
  loop_fields i n =
      (codes "index", int_val floats (pos (i + 1)))
      ∷ (codes "index0", int_val floats (pos i))
      ∷ (codes "first", bool_val floats (i == 0))
      ∷ (codes "last", bool_val floats (i + 1 == n))
      ∷ (codes "length", int_val floats (pos n))
      ∷ (codes "revindex", int_val floats (pos (n - i)))
      ∷ (codes "revindex0", int_val floats (pos (n - i - 1)))
      ∷ []

  -- The loop variables.
  unfoldable pub bind_vars : List Bytes → ℕ → Value N → Map (Value N) → Map (Value N)
  unfolding put int_val
  bind_vars (x ∷ []) i item vars = put x item vars
  bind_vars (x ∷ y ∷ []) i item vars = put y item (put x (int_val floats (pos i)) vars)
  bind_vars _ i item vars = vars

  -- The context of a round, forked from the one of the loop.
  unfoldable pub enter_round : List Bytes → ℕ → ℕ → Value N → State N → State N
  unfolding put alloc object_val loop_fields bind_vars
  enter_round names i n item st =
      let loop = alloc (loop_fields i n) st.heap in
      record {
        vars = bind_vars names i item (put (codes "loop") (object_val floats loop.0) st.vars);
        heap = loop.1;
        out = st.out;
      }

  -- The rounds of a loop, each in a context of its own.
  unfoldable pub exec_rounds :
      (State N → Result EvalError (State N))
      → List Bytes
      → ℕ
      → ℕ
      → List (Value N)
      → State N
      → Result EvalError (State N)
  unfolding enter_round
  exec_rounds body names i n [] st = ok st
  exec_rounds body names i n (item ∷ items) st = do
    local ← body (enter_round names i n item st)
    exec_rounds body names (suc i) n items
        (record { vars = st.vars; heap = local.heap; out = local.out })

  unfoldable mutual
    unfolding eval truthy to_string to_array exec_assigns exec_rounds

    pub exec_node : Node → State N → Result EvalError (State N)
    exec_node (text_node s) st = ok (write s st)
    exec_node (expr_node e) st = do
      (v, heap₁) ← eval floats st.vars e st.heap
      ok (write (to_string floats v) (with_heap heap₁ st))
    exec_node (if_node cond body elifs else_body) st = do
      (v, heap₁) ← eval floats st.vars cond st.heap
      elim (truthy floats heap₁ v) [
        | true ↦ exec_nodes body (with_heap heap₁ st)
        | false ↦ exec_elifs elifs (λ st. exec_nodes else_body st) (with_heap heap₁ st)
      ]
    exec_node (for_node names iter body else_body) st = do
      (v, heap₁) ← eval floats st.vars iter st.heap
      elim (to_array v) [
        | [] ↦ exec_nodes else_body (with_heap heap₁ st)
        | item ∷ items ↦
            exec_rounds (λ local. exec_nodes body local) names 0 (length (item ∷ items))
              (item ∷ items) (with_heap heap₁ st)
      ]
    exec_node (set_node assigns) st = exec_assigns assigns st

    pub exec_nodes : Nodes → State N → Result EvalError (State N)
    exec_nodes no_nodes st = ok st
    exec_nodes (more_nodes n ns) st = do st₁ ← exec_node n st; exec_nodes ns st₁

    -- The `elif` branches, and what the `else` branch does.
    pub exec_elifs :
        Elifs → (State N → Result EvalError (State N)) → State N → Result EvalError (State N)
    exec_elifs no_elifs otherwise st = otherwise st
    exec_elifs (more_elifs cond body elifs) otherwise st = do
      (v, heap₁) ← eval floats st.vars cond st.heap
      elim (truthy floats heap₁ v) [
        | true ↦ exec_nodes body (with_heap heap₁ st)
        | false ↦ exec_elifs elifs otherwise (with_heap heap₁ st)
      ]
