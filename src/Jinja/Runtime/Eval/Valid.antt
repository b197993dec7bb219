-- ===== src/Jinja/Runtime/Eval/Valid.antt =====
-- pkg/chat/jinja/runtime.go: an evaluation takes no map away, and what it gives refers to maps of the
-- heap.
use gogguf.Base.{ℕ, ◌≤◌, Bool, true, false, List, [], arith, length}
use gogguf.Base.Result.{Result, ok, err, ◌>>=◌}
use gogguf.Base.Outcome.{gives, fails, Promises-bind, Promises-weaken}
use gogguf.Jinja.Syntax.{
  Expr, Exprs, Fields, lit, variable, attr, index, bin, unary, call, filter, test, object, array,
  kwarg, no_exprs, more_exprs, no_fields, more_fields,
}
use gogguf.Jinja.Runtime.Values.{
  Kind, Value, Floats, Map, Heap, put, is_kind, object_val, namespace_val,
}
use gogguf.Jinja.Runtime.Addresses.{
  ValueIsValid, ListIsValid, MapIsValid, HeapIsValid, value_mono, map_mono, put-IsValid,
}
use gogguf.Jinja.Runtime.Eval.{
  new_object, new_namespace, eval, eval_list, eval_fields, eval_namespace, eval_raise,
}
use gogguf.Jinja.Runtime.Eval.Apply.{EvalError, get_attr, Function, function_of, range}
use gogguf.Jinja.Runtime.Eval.Operations.{
  Gives, IsSound, array_lem, literal_lem, get-IsValid, new_object-IsSound, get_attr-IsSound,
  get_index-IsValid, unary_op-IsValid, bin_op-IsValid, range-IsValid, apply_filter-IsValid,
  apply_test-IsValid, call_method-IsValid,
}

-- A heap behind at least n maps, with something that refers to its maps.
abbrev pub Behind : {N A : Type 0} → (ℕ → A → Type 0) → ℕ → A × Heap N → Type 0
Behind P n r = (n ≤ length r.1) × HeapIsValid r.1 × P (length r.1) r.0

pub Gives-branch :
    {A : Type 0} {P : A → Type 0} (b : Bool) {yes no : Result EvalError A}
    → Gives P yes
    → Gives P no
    → Gives P (elim b [ true ↦ yes | false ↦ no ])
Gives-branch true h k = h
Gives-branch false h k = k

module _ {N : Type 0} (floats : Floats N) where
  -- An operation on values, at the end of an evaluation.
  pub last_step :
      (heap : Heap N) {n : ℕ} {r : Result EvalError (Value N)}
      → n ≤ length heap
      → HeapIsValid heap
      → Gives (ValueIsValid (length heap)) r
      → Gives (IsSound n) (r >>= λ v. ok (v, heap))
  last_step heap h w (gives v) = gives (h, w, v)
  last_step heap h w (fails e) = fails tt

  from_later : (n p : ℕ) (r : Value N × Heap N) → n ≤ p → IsSound p r → IsSound n r
  from_later n p r h (k, w, v) = (omega (arith, h, k), w, v)

  module _ (vars : Map (Value N)) where
    mutual
      unfolding eval namespace_val object_val

      pub eval-IsSound :
          (e : Expr) (heap : Heap N)
          → HeapIsValid heap
          → MapIsValid (length heap) vars
          → Gives (IsSound (length heap)) (eval floats vars e heap)
      eval-IsSound (lit v) heap w m = gives (omega arith, w, literal_lem floats (length heap) v)
      eval-IsSound (variable x) heap w m =
          gives (omega arith, w, get-IsValid floats (length heap) vars x m)
      eval-IsSound (attr e a) heap w m =
          Promises-bind (eval-IsSound e heap w m) λ (v, heap₁) (g₁, w₁, v₁). gives (
            from_later (length heap) (length heap₁) (get_attr floats heap₁ v a) g₁
              (get_attr-IsSound floats heap₁ v a w₁ v₁))
      eval-IsSound (index e k) heap w m =
          Promises-bind (eval-IsSound e heap w m) λ (v, heap₁) (g₁, w₁, v₁).
            Promises-bind
              (eval-IsSound k heap₁ w₁ (map_mono (length heap) (length heap₁) g₁ vars m))
              λ (key, heap₂) (g₂, w₂, v₂). gives (
                omega (arith, g₁, g₂),
                w₂,
                get_index-IsValid floats heap₂ v key w₂
                    (value_mono (length heap₁) (length heap₂) g₂ v v₁),
              )
      eval-IsSound (bin op l r) heap w m =
          Promises-bind (eval-IsSound l heap w m) λ (left, heap₁) (g₁, w₁, v₁).
            Promises-bind
              (eval-IsSound r heap₁ w₁ (map_mono (length heap) (length heap₁) g₁ vars m))
              λ (right, heap₂) (g₂, w₂, v₂).
                last_step heap₂ (omega (arith, g₁, g₂)) w₂
                  (bin_op-IsValid floats (length heap₂) heap₂ op left right)
      eval-IsSound (unary op e) heap w m =
          Promises-bind (eval-IsSound e heap w m) λ (v, heap₁) (g₁, w₁, v₁).
            last_step heap₁ g₁ w₁ (unary_op-IsValid floats (length heap₁) heap₁ op v)
      eval-IsSound (call (attr e name) args) heap w m =
          Promises-bind (eval-IsSound e heap w m) λ (self, heap₁) (g₁, w₁, v₁).
            Gives-branch (is_kind Kind.string_kind self)
              (Promises-bind
                (eval_list-AreValid args heap₁ w₁ (map_mono (length heap) (length heap₁) g₁ vars m))
                λ (given, heap₂) (g₂, w₂, v₂).
                  last_step heap₂ (omega (arith, g₁, g₂)) w₂
                    (call_method-IsValid floats (length heap₂) self name given))
              (fails tt)
      eval-IsSound (call (variable name) args) heap w m =
          elim (function_of name)
            as (λ fn.
              Gives {A = Value N × Heap N} (IsSound (length heap))
                (elim fn as (λ _. Result EvalError (Value N × Heap N)) [
                  | Function.namespace_fn ↦ do
                    (m, heap₁) ← eval_namespace floats vars args [] heap
                    ok (new_namespace floats m heap₁)
                  | Function.raise_fn ↦ eval_raise floats vars args heap
                  | Function.range_fn ↦ do
                    (given, heap₁) ← eval_list floats vars args heap
                    v ← range floats given
                    ok (v, heap₁)
                  | Function.method_fn ↦ err EvalError.method_without_dot
                  | Function.unknown_fn ↦ err EvalError.unknown_function
                ])) [
                  | Function.namespace_fn ↦
                      Promises-bind (eval_namespace-IsValid args [] heap w m tt)
                        λ (m, heap₁) (g₁, w₁, v₁). gives (
                          from_later (length heap) (length heap₁) (new_namespace floats m heap₁) g₁
                            (new_object-IsSound floats m heap₁ w₁ v₁))
                  | Function.raise_fn ↦ eval_raise-IsSound args heap w m
                  | Function.range_fn ↦
                      Promises-bind (eval_list-AreValid args heap w m)
                        λ (given, heap₁) (g₁, w₁, v₁).
                          last_step heap₁ g₁ w₁ (range-IsValid floats (length heap₁) given)
                  | Function.method_fn ↦ fails tt
                  | Function.unknown_fn ↦ fails tt
                ]
      eval-IsSound (call _ args) heap w m = fails tt
      eval-IsSound (filter e name args) heap w m =
          Promises-bind (eval-IsSound e heap w m) λ (v, heap₁) (g₁, w₁, v₁).
            last_step heap₁ g₁ w₁ (apply_filter-IsValid floats (length heap₁) heap₁ v name)
      eval-IsSound (test e name negated) heap w m =
          Promises-bind (eval-IsSound e heap w m) λ (v, heap₁) (g₁, w₁, v₁).
            last_step heap₁ g₁ w₁ (apply_test-IsValid floats (length heap₁) v name negated)
      eval-IsSound (object fs) heap w m =
          Promises-bind (eval_fields-AreValid fs heap w m) λ (m, heap₁) (g₁, w₁, v₁). gives (
            from_later (length heap) (length heap₁) (new_object floats m heap₁) g₁
              (new_object-IsSound floats m heap₁ w₁ v₁))
      eval-IsSound (array es) heap w m =
          Promises-bind (eval_list-AreValid es heap w m)
            λ (items, heap₁) (g₁, w₁, v₁). gives (g₁, w₁, array_lem floats (length heap₁) items v₁)
      eval-IsSound (kwarg name e) heap w m = fails tt

      pub eval_list-AreValid :
          (es : Exprs) (heap : Heap N)
          → HeapIsValid heap
          → MapIsValid (length heap) vars
          → Gives
              (Behind {N = N} {A = List (Value N)} ListIsValid (length heap))
              (eval_list floats vars es heap)
      eval_list-AreValid no_exprs heap w m = gives (omega arith, w, tt)
      eval_list-AreValid (more_exprs e es) heap w m =
          Promises-bind (eval-IsSound e heap w m) λ (v, heap₁) (g₁, w₁, v₁).
            Promises-bind
              (eval_list-AreValid es heap₁ w₁ (map_mono (length heap) (length heap₁) g₁ vars m))
              λ (more, heap₂) (g₂, w₂, v₂).
                gives (
                  omega (arith, g₁, g₂),
                  w₂,
                  (value_mono (length heap₁) (length heap₂) g₂ v v₁, v₂),
                )

      pub eval_fields-AreValid :
          (fs : Fields) (heap : Heap N)
          → HeapIsValid heap
          → MapIsValid (length heap) vars
          → Gives
              (Behind {N = N} {A = Map (Value N)} MapIsValid (length heap))
              (eval_fields floats vars fs heap)
      eval_fields-AreValid no_fields heap w m = gives (omega arith, w, tt)
      eval_fields-AreValid (more_fields k e fs) heap w m =
          Promises-bind (eval-IsSound e heap w m) λ (v, heap₁) (g₁, w₁, v₁).
            Promises-bind
              (eval_fields-AreValid fs heap₁ w₁ (map_mono (length heap) (length heap₁) g₁ vars m))
              λ (more, heap₂) (g₂, w₂, v₂).
                gives (
                  omega (arith, g₁, g₂),
                  w₂,
                  (value_mono (length heap₁) (length heap₂) g₂ v v₁, v₂),
                )

      pub eval_namespace-IsValid :
          (es : Exprs) (given : Map (Value N)) (heap : Heap N)
          → HeapIsValid heap
          → MapIsValid (length heap) vars
          → MapIsValid (length heap) given
          → Gives
              (Behind {N = N} {A = Map (Value N)} MapIsValid (length heap))
              (eval_namespace floats vars es given heap)
      eval_namespace-IsValid no_exprs given heap w m h = gives (omega arith, w, h)
      eval_namespace-IsValid (more_exprs (kwarg name e) es) given heap w m h =
          Promises-bind (eval-IsSound e heap w m) λ (v, heap₁) (g₁, w₁, v₁).
            let later = map_mono (length heap) (length heap₁) g₁ in
            Promises-weaken
              (eval_namespace-IsValid es (put name v given) heap₁ w₁ (later vars m)
                (put-IsValid (length heap₁) name v given v₁ (later given h)))
              λ r (g₂, w₂, v₂). (omega (arith, g₁, g₂), w₂, v₂)
      eval_namespace-IsValid (more_exprs _ es) given heap w m h =
          eval_namespace-IsValid es given heap w m h

      pub eval_raise-IsSound :
          (es : Exprs) (heap : Heap N)
          → HeapIsValid heap
          → MapIsValid (length heap) vars
          → Gives (IsSound (length heap)) (eval_raise floats vars es heap)
      eval_raise-IsSound no_exprs heap w m = fails tt
      eval_raise-IsSound (more_exprs e es) heap w m =
          Promises-bind (eval-IsSound e heap w m) λ (v, heap₁) p. fails tt
