-- ===== src/Jinja/Runtime/Eval.antt =====
-- pkg/chat/jinja/runtime.go: the evaluation of expressions. The variables stay as they are; the heap
-- grows by the maps that are made. Go visits the fields of an object literal in any order, the model in
-- that of the list: the order decides at most which of two errors is given.
pub mod Apply
pub mod Operations
pub mod Valid
use gogguf.Base.{
  ℕ, zero, suc, ◌+◌, ◌-◌, ◌*◌, ◌/◌, ◌%◌, ◌^◌, ◌≤◌, ◌<◌, min, max, ◌≡◌, refl, sym, ap, ◌∙◌, ◌≢◌, ◌↔◌,
  ◌⊎◌, inl, inr, Bool, true, false, not, ◌&&◌, ◌||◌, Option, none, some, List, [], ◌∷◌, ◌++◌, map,
  append-nil, append_assoc, arith, ltb, leb, ◌==◌, if◌then◌else◌, ltb→lt, ltb→le, lt→ltb, le→ltb,
  leb→le, ==_iff, ==_self, Bool-cases, Option-cases, length, get_elem?, set, take, drop, replicate,
  length-append, length-replicate, length-take, length-drop, take-append-drop, take_of_length-le,
  drop_of_length-le, take-append, drop_nil, take_nil, drop-append, drop-length-append,
  take-length-append, take-append_exact, drop-append_exact, drop-drop, take-take, take-drop,
  take-add, length-set, get_elem?-set_self, get_elem?-set_ne, get_elem?-set_inv, length-map,
  get_elem?-map, get_elem?-map_inv, All, All-get_elem?, All-set,
}
use gogguf.Base.Bytes.{Bytes, codes, equal}
use gogguf.Base.Result.{Result, ok, err, ◌>>=◌}
use gogguf.Jinja.Syntax.{
  Literal, Expr, Exprs, Fields, lit, variable, attr, index, bin, unary, call, filter, test, object,
  array, kwarg, no_exprs, more_exprs, no_fields, more_fields,
}
use gogguf.Jinja.Runtime.Values.{
  Kind, Value, Floats, Map, Heap, find, put, same_kind, kind_of, str_of, is_kind, of_list, alloc,
  undefined_val, none_val, bool_val, str_val, num_val, array_val, object_val, namespace_val,
  to_string,
}
use gogguf.Jinja.Runtime.Strings.{method_of, string_method}
use gogguf.Jinja.Runtime.Eval.Apply.{
  EvalError, get_attr, get_index, bin_op, unary_op, Function, function_of, range, apply_filter,
  apply_test,
}

module _ {N : Type 0} (floats : Floats N) where
  -- The value that the parser puts into a literal.
  unfoldable pub literal : Literal → Value N
  unfolding str_val num_val bool_val none_val
  literal (Literal.text s) = str_val floats s
  literal (Literal.number s) = num_val floats s
  literal (Literal.bool b) = bool_val floats b
  literal Literal.none_lit = none_val floats

  -- `get`.
  unfoldable pub get : Map (Value N) → Bytes → Value N
  unfolding find undefined_val
  get vars name = elim (find name vars) [ none ↦ undefined_val floats | some v ↦ v ]

  -- The method of a string, behind the arguments.
  unfoldable pub call_method : Value N → Bytes → List (Value N) → Result EvalError (Value N)
  unfolding method_of string_method
  call_method self name args = elim (method_of name) [
    | none ↦ err EvalError.unknown_method
    | some m ↦ ok (string_method floats (str_of self) m args)
  ]

  -- A new map, as an object and as a namespace.
  abbrev pub new_object : Map (Value N) → Heap N → Value N × Heap N
  new_object m heap = (object_val floats (alloc m heap).0, (alloc m heap).1)

  abbrev pub new_namespace : Map (Value N) → Heap N → Value N × Heap N
  new_namespace m heap = (namespace_val floats (alloc m heap).0, (alloc m heap).1)

  unfoldable mutual
    unfolding array_val of_list object_val namespace_val alloc same_kind literal get call_method
        to_string get_attr get_index bin_op unary_op function_of range apply_filter apply_test

    pub eval : Map (Value N) → Expr → Heap N → Result EvalError (Value N × Heap N)
    eval vars (lit v) heap = ok (literal v, heap)
    eval vars (variable x) heap = ok (get vars x, heap)
    eval vars (attr e a) heap = do (v, heap₁) ← eval vars e heap; ok (get_attr floats heap₁ v a)
    eval vars (index e k) heap = do
      (v, heap₁) ← eval vars e heap
      (key, heap₂) ← eval vars k heap₁
      ok (get_index floats heap₂ v key, heap₂)
    eval vars (bin op l r) heap = do
      (left, heap₁) ← eval vars l heap
      (right, heap₂) ← eval vars r heap₁
      v ← bin_op floats heap₂ op left right
      ok (v, heap₂)
    eval vars (unary op e) heap = do
      (v, heap₁) ← eval vars e heap
      w ← unary_op floats heap₁ op v
      ok (w, heap₁)
    eval vars (call (attr e name) args) heap = do
      (self, heap₁) ← eval vars e heap
      elim (is_kind Kind.string_kind self) [
        | false ↦ err EvalError.method_only_for_strings
        | true ↦ do
          (given, heap₂) ← eval_list vars args heap₁
          v ← call_method self name given
          ok (v, heap₂)
      ]
    eval vars (call (variable name) args) heap = elim (function_of name) [
      | Function.namespace_fn ↦ do
        (m, heap₁) ← eval_namespace vars args [] heap
        ok (new_namespace m heap₁)
      | Function.raise_fn ↦ eval_raise vars args heap
      | Function.range_fn ↦ do
        (given, heap₁) ← eval_list vars args heap
        v ← range floats given
        ok (v, heap₁)
      | Function.method_fn ↦ err EvalError.method_without_dot
      | Function.unknown_fn ↦ err EvalError.unknown_function
    ]
    eval vars (call _ args) heap = err EvalError.call_of_non_function
    eval vars (filter e name args) heap = do
      (v, heap₁) ← eval vars e heap
      w ← apply_filter floats heap₁ v name
      ok (w, heap₁)
    eval vars (test e name negated) heap = do
      (v, heap₁) ← eval vars e heap
      w ← apply_test floats v name negated
      ok (w, heap₁)
    eval vars (object fs) heap = do (m, heap₁) ← eval_fields vars fs heap; ok (new_object m heap₁)
    eval vars (array es) heap = do
      (items, heap₁) ← eval_list vars es heap
      ok (array_val floats (of_list items), heap₁)
    eval vars (kwarg name e) heap = err EvalError.kwarg_outside_call

    -- Arguments and items, one after the other.
    pub eval_list : Map (Value N) → Exprs → Heap N → Result EvalError (List (Value N) × Heap N)
    eval_list vars no_exprs heap = ok ([], heap)
    eval_list vars (more_exprs e es) heap = do
      (v, heap₁) ← eval vars e heap
      (more, heap₂) ← eval_list vars es heap₁
      ok (v ∷ more, heap₂)

    -- The loop of `evalObjectLiteral`.
    pub eval_fields : Map (Value N) → Fields → Heap N → Result EvalError (Map (Value N) × Heap N)
    eval_fields vars no_fields heap = ok ([], heap)
    eval_fields vars (more_fields k e fs) heap = do
      (v, heap₁) ← eval vars e heap
      (more, heap₂) ← eval_fields vars fs heap₁
      ok ((k, v) ∷ more, heap₂)

    -- The loop of `evalNamespaceCall`, with the map so far.
    pub eval_namespace :
        Map (Value N) → Exprs → Map (Value N) → Heap N → Result EvalError (Map (Value N) × Heap N)
    eval_namespace vars no_exprs m heap = ok (m, heap)
    eval_namespace vars (more_exprs (kwarg name e) es) m heap = do
      (v, heap₁) ← eval vars e heap
      eval_namespace vars es (put name v m) heap₁
    eval_namespace vars (more_exprs _ es) m heap = eval_namespace vars es m heap

    -- `raise_exception`.
    pub eval_raise : Map (Value N) → Exprs → Heap N → Result EvalError (Value N × Heap N)
    eval_raise vars no_exprs heap = err (EvalError.raised (codes "template error"))
    eval_raise vars (more_exprs e es) heap = do
      (v, heap₁) ← eval vars e heap
      err (EvalError.raised (to_string floats v))
