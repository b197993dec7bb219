-- ===== src/Jinja/Runtime/Exec/Scope.antt =====
-- pkg/chat/jinja/runtime.go: what the nodes leave as it was. Variables that are only set inside a loop
-- keep their values, the output is only written behind, and no map is taken away.
use gogguf.Base.{ℕ, suc, ◌≤◌, ◌≡◌, refl, ap, ◌∙◌, ◌||◌, List, [], ◌∷◌, ◌++◌, arith, length}
use gogguf.Base.Bytes.{Bytes, codes}
use gogguf.Base.Int.{pos}
use gogguf.Base.Result.{Result, ok}
use gogguf.Base.Outcome.{gives, fails, Promises-bind, Promises-weaken, Promises-ok}
use gogguf.Jinja.Syntax.{
  Expr, Node, Nodes, Elifs, variable, attr, text_node, expr_node, if_node, for_node, set_node,
  no_nodes, more_nodes, no_elifs, more_elifs,
}
use gogguf.Jinja.Runtime.Values.{
  Kind, Value, Floats, Map, Heap, put, is_kind, to_array, alloc, int_val, object_val, truthy,
  to_string,
}
use gogguf.Jinja.Runtime.Addresses.{
  ValueIsValid, ListIsValid, MapIsValid, HeapIsValid, value_mono, list_mono, map_mono, put-IsValid,
  to_array-IsValid,
}
use gogguf.Jinja.Runtime.Eval.{get}
use gogguf.Jinja.Runtime.Eval.Apply.{EvalError}
use gogguf.Jinja.Runtime.Eval.Operations.{Gives, get-IsValid, new_object-IsSound}
use gogguf.Jinja.Runtime.Eval.Valid.{Gives-branch, eval-IsSound}
use gogguf.Jinja.Runtime.Exec.{
  State, set_var, with_heap, set_attr, store_base, assign_attr, assign_target, exec_assigns,
  loop_fields, bind_vars, enter_round, exec_rounds, exec_node, exec_nodes, exec_elifs,
}
use gogguf.Jinja.Runtime.Exec.Later.{
  RootIsNot, AssignsOthers, IsUnset, AreUnset, AreUnsetIn, StateIsValid, IsLater, IsLater-trans,
  same-IsLater, heap-IsLater, write-IsLater, set-IsLater, set_attr-IsSound,
}

module _ {N : Type 0} (floats : Floats N) where
  -- What goes on from a later state.
  then-IsLater :
      {U V W : Bytes → Type 0} {st mid : State N} {r : Result EvalError (State N)}
      → ((x : Bytes) → W x → U x)
      → ((x : Bytes) → W x → V x)
      → IsLater U st mid
      → Gives (IsLater V mid) r
      → Gives (IsLater W st) r
  then-IsLater u v p g = Promises-weaken g λ later q. IsLater-trans u v p q

  -- A step behind an evaluation.
  after_eval :
      {U : Bytes → Type 0} {r : Result EvalError (State N)} (st : State N) (heap : Heap N)
      → StateIsValid st
      → length st.heap ≤ length heap
      → HeapIsValid heap
      → (StateIsValid (with_heap heap st) → Gives (IsLater U (with_heap heap st)) r)
      → Gives (IsLater U st) r
  after_eval {U} st heap w g h k =
      let p : IsLater U st (with_heap heap st) = heap-IsLater st heap w g h in
      then-IsLater (λ x u. u) (λ x u. u) p (k p.valid)

  -- An attribute is written into a map, and what comes after it.
  after_set_attr :
      {U : Bytes → Type 0} (base : Value N) (name : Bytes) (v : Value N) (st : State N)
      {k : Value N → State N → Result EvalError (State N)}
      → StateIsValid st
      → ValueIsValid (length st.heap) base
      → ValueIsValid (length st.heap) v
      → ((written : Value N) (later : State N)
          → StateIsValid later
          → ValueIsValid (length later.heap) written
          → Gives (IsLater U later) (k written later))
      → Gives
          (IsLater U st)
          (k (set_attr base name v st.heap).0 (with_heap (set_attr base name v st.heap).1 st))
  after_set_attr {U} base name v st w b i h =
      let heap = (set_attr base name v st.heap).1 in
      let (g, heap_valid, value_valid) = set_attr-IsSound base name v st.heap w.0 b i in
      let p : IsLater U st (with_heap heap st) = heap-IsLater st heap w g heap_valid in
      then-IsLater (λ x u. u) (λ x u. u) p
        (h (set_attr base name v st.heap).0 (with_heap heap st) p.valid value_valid)

  store_base-IsLater :
      (e : Expr) (v : Value N) (st : State N)
      → StateIsValid st
      → ValueIsValid (length st.heap) v
      → Gives (IsLater (λ x. RootIsNot x e) st) (store_base floats e v st)
  unfolding store_base
  store_base-IsLater (variable x) v st w h = gives (set-IsLater x v st w h)
  store_base-IsLater (attr e a) v st w h =
      Promises-bind (eval-IsSound floats st.vars e st.heap w.0 w.1) λ (parent, heap) (g, h₁, p).
        after_eval st heap w g h₁ λ w₁.
          after_set_attr parent a v (with_heap heap st) {k = store_base floats e} w₁ p
            (value_mono (length st.heap) (length heap) g v h)
            λ written later w₂ i. store_base-IsLater e written later w₂ i
  store_base-IsLater _ v st w h = gives (same-IsLater st w)

  assign_attr-IsLater :
      (e : Expr) (a : Bytes) (v : Value N) (st : State N)
      → StateIsValid st
      → ValueIsValid (length st.heap) v
      → Gives (IsLater (λ x. RootIsNot x e) st) (assign_attr floats e a v st)
  unfolding assign_attr
  assign_attr-IsLater e a v st w h =
      Promises-bind (eval-IsSound floats st.vars e st.heap w.0 w.1) λ (base, heap) (g, h₁, p).
        after_eval st heap w g h₁ λ w₁.
          Gives-branch (is_kind Kind.namespace_kind base || is_kind Kind.object_kind base)
            (after_set_attr base a v (with_heap heap st) {k = store_base floats e} w₁ p
              (value_mono (length st.heap) (length heap) g v h)
              λ written later w₂ i. store_base-IsLater e written later w₂ i)
            (fails tt)

  assign_target-IsLater :
      (target : Expr) (v : Value N) (st : State N)
      → StateIsValid st
      → ValueIsValid (length st.heap) v
      → Gives (IsLater (λ x. RootIsNot x target) st) (assign_target floats target v st)
  unfolding assign_target
  assign_target-IsLater (variable x) v st w h = gives (set-IsLater x v st w h)
  assign_target-IsLater (attr (variable x) a) v st w h =
      after_set_attr (get floats st.vars x) a v st
        {k = λ written later. ok (set_var x written later)} w
        (get-IsValid floats (length st.heap) st.vars x w.1) h
        λ written later w₂ i. gives (set-IsLater x written later w₂ i)
  assign_target-IsLater (attr e a) v st w h = assign_attr-IsLater e a v st w h
  assign_target-IsLater _ v st w h = fails tt

  exec_assigns-IsLater :
      (assigns : List (Expr × Expr)) (st : State N)
      → StateIsValid st
      → Gives (IsLater (λ x. AssignsOthers x assigns) st) (exec_assigns floats assigns st)
  unfolding exec_assigns
  exec_assigns-IsLater [] st w = gives (same-IsLater st w)
  exec_assigns-IsLater ((target, e) ∷ assigns) st w =
      Promises-bind (eval-IsSound floats st.vars e st.heap w.0 w.1) λ (v, heap) (g, h₁, p).
        after_eval st heap w g h₁ λ w₁.
          Promises-bind (assign_target-IsLater target v (with_heap heap st) w₁ p) λ mid q.
            then-IsLater (λ x u. u.0) (λ x u. u.1) q (exec_assigns-IsLater assigns mid q.valid)

  loop_fields-IsValid : (n i k : ℕ) → MapIsValid n (loop_fields floats i k)
  unfolding loop_fields
  loop_fields-IsValid n i k =
      ((tt, tt), ((tt, tt), ((tt, tt), ((tt, tt), ((tt, tt), ((tt, tt), ((tt, tt), tt)))))))

  bind_vars-IsValid :
      (n : ℕ) (names : List Bytes) (i : ℕ) (item : Value N) (vars : Map (Value N))
      → ValueIsValid n item
      → MapIsValid n vars
      → MapIsValid n (bind_vars floats names i item vars)
  unfolding bind_vars
  bind_vars-IsValid n [] i item vars h w = w
  bind_vars-IsValid n (x ∷ []) i item vars h w = put-IsValid n x item vars h w
  bind_vars-IsValid n (x ∷ y ∷ []) i item vars h w =
      put-IsValid n y item (put x (int_val floats (pos i)) vars) h
        (put-IsValid n x (int_val floats (pos i)) vars (tt, tt) w)
  bind_vars-IsValid n (x ∷ y ∷ z ∷ names) i item vars h w = w

  enter_round-IsValid :
      (names : List Bytes) (i n : ℕ) (item : Value N) (st : State N)
      → StateIsValid st
      → ValueIsValid (length st.heap) item
      → StateIsValid (enter_round floats names i n item st)
        × (length st.heap ≤ length (enter_round floats names i n item st).heap)
  unfolding enter_round
  enter_round-IsValid names i n item st w h =
      let fields = loop_fields floats i n in
      let (g, heap_valid, loop_valid) =
        new_object-IsSound floats fields st.heap w.0 (loop_fields-IsValid (length st.heap) i n) in
      let p = length (alloc fields st.heap).1 in
      (
        (
          heap_valid,
          bind_vars-IsValid p names i item
              (put (codes "loop") (object_val floats (alloc fields st.heap).0) st.vars)
              (value_mono (length st.heap) p g item h)
              (put-IsValid p (codes "loop") (object_val floats (alloc fields st.heap).0) st.vars
                loop_valid (map_mono (length st.heap) p g st.vars w.1)),
        ),
        g,
      )

  -- A round leaves all variables of the loop's own context.
  leave_round :
      {U V : Bytes → Type 0} (st inner local : State N)
      → StateIsValid st
      → length st.heap ≤ length inner.heap
      → inner.out ≡ st.out
      → IsLater U inner local
      → IsLater V st (record { vars = st.vars; heap = local.heap; out = local.out })
  leave_round st inner local w g same p =
      let (more, eq) = p.writes in
      record {
        valid = (
          p.valid.0,
          map_mono (length st.heap) (length local.heap) (omega (arith, g, p.grows)) st.vars w.1,
        );
        grows = omega (arith, g, p.grows);
        writes = (more, eq ∙ ap (λ out. out ++ more) same);
        keeps = λ x u. refl;
      }

  exec_rounds-IsLater :
      {U V : Bytes → Type 0} (body : State N → Result EvalError (State N)) (names : List Bytes)
      (i n : ℕ) (items : List (Value N)) (st : State N)
      → ((st : State N) → StateIsValid st → Gives (IsLater U st) (body st))
      → StateIsValid st
      → ListIsValid (length st.heap) items
      → Gives (IsLater V st) (exec_rounds floats body names i n items st)
  unfolding exec_rounds
  exec_rounds-IsLater body names i n [] st h w k = gives (same-IsLater st w)
  exec_rounds-IsLater {V = V} body names i n (item ∷ items) st h w k =
      let inner = enter_round floats names i n item st in
      let (inner_valid, g) = enter_round-IsValid names i n item st w k.0 in
      Promises-bind (h inner inner_valid) λ local p.
        let next : State N = record { vars = st.vars; heap = local.heap; out = local.out } in
        let q : IsLater V st next = leave_round st inner local w g (unfold enter_round in refl) p in
        then-IsLater (λ x u. u) (λ x u. u) q
          (exec_rounds-IsLater {V = V} body names (suc i) n items next h q.valid
            (list_mono (length st.heap) (length local.heap) (omega (arith, g, p.grows)) items k.1))

  rounds-IsLater :
      {U V : Bytes → Type 0} (body : State N → Result EvalError (State N))
      (otherwise : Result EvalError (State N)) (names : List Bytes) (items : List (Value N))
      (st : State N)
      → ((st : State N) → StateIsValid st → Gives (IsLater U st) (body st))
      → Gives (IsLater V st) otherwise
      → StateIsValid st
      → ListIsValid (length st.heap) items
      → Gives (IsLater V st) (elim items [
        | [] ↦ otherwise
        | item ∷ items ↦ exec_rounds floats body names 0 (length (item ∷ items)) (item ∷ items) st
      ])
  rounds-IsLater body otherwise names [] st h o w k = o
  rounds-IsLater body otherwise names (item ∷ items) st h o w k =
      exec_rounds-IsLater body names 0 (length (item ∷ items)) (item ∷ items) st h w k

  mutual
    unfolding exec_node IsUnset

    exec_node-IsLater :
        (n : Node) (st : State N)
        → StateIsValid st
        → Gives (IsLater (λ x. IsUnset x n) st) (exec_node floats n st)
    exec_node-IsLater (text_node s) st w = gives (write-IsLater s st w)
    exec_node-IsLater (expr_node e) st w =
        Promises-bind (eval-IsSound floats st.vars e st.heap w.0 w.1) λ (v, heap) (g, h₁, p).
          after_eval st heap w g h₁
            λ w₁. gives (write-IsLater (to_string floats v) (with_heap heap st) w₁)
    exec_node-IsLater (if_node cond body elifs else_body) st w =
        Promises-bind (eval-IsSound floats st.vars cond st.heap w.0 w.1) λ (v, heap) (g, h₁, p).
          after_eval {U = λ x. IsUnset x (if_node cond body elifs else_body)} st heap w g h₁ λ w₁.
            Gives-branch (truthy floats heap v)
              (Promises-weaken (exec_nodes-Gives body (with_heap heap st) w₁) λ later q.
                IsLater-trans (λ x u. tt) (λ x u. u.0) (same-IsLater (with_heap heap st) w₁) q)
              (Promises-weaken
                (exec_elifs-IsLater elifs (λ st. exec_nodes floats else_body st) else_body
                  (λ st w. exec_nodes-Gives else_body st w) (with_heap heap st) w₁)
                λ later q.
                  IsLater-trans (λ x u. tt) (λ x u. (u.1, u.2))
                    (same-IsLater (with_heap heap st) w₁) q)
    exec_node-IsLater (for_node names iter body else_body) st w =
        Promises-bind (eval-IsSound floats st.vars iter st.heap w.0 w.1) λ (v, heap) (g, h₁, p).
          after_eval st heap w g h₁ λ w₁.
            rounds-IsLater (λ local. exec_nodes floats body local)
              (exec_nodes floats else_body (with_heap heap st)) names (to_array v)
              (with_heap heap st) (λ st w. exec_nodes-Gives body st w)
              (exec_nodes-Gives else_body (with_heap heap st) w₁) w₁
              (to_array-IsValid (length heap) v p)
    exec_node-IsLater (set_node assigns) st w = exec_assigns-IsLater assigns st w

    exec_nodes-Gives :
        (ns : Nodes) (st : State N)
        → StateIsValid st
        → Gives (IsLater (λ x. AreUnset x ns) st) (exec_nodes floats ns st)
    exec_nodes-Gives no_nodes st w = gives (same-IsLater st w)
    exec_nodes-Gives (more_nodes n ns) st w =
        Promises-bind (exec_node-IsLater n st w)
          λ mid p. then-IsLater (λ x u. u.0) (λ x u. u.1) p (exec_nodes-Gives ns mid p.valid)

    exec_elifs-IsLater :
        (elifs : Elifs) (otherwise : State N → Result EvalError (State N)) (else_body : Nodes)
        → ((st : State N)
            → StateIsValid st
            → Gives (IsLater (λ x. AreUnset x else_body) st) (otherwise st))
        → (st : State N) → StateIsValid st
        → Gives
            (IsLater (λ x. AreUnsetIn x elifs × AreUnset x else_body) st)
            (exec_elifs floats elifs otherwise st)
    exec_elifs-IsLater no_elifs otherwise else_body h st w =
        Promises-weaken (h st w)
          λ later q. IsLater-trans (λ x u. tt) (λ x u. u.1) (same-IsLater st w) q
    exec_elifs-IsLater (more_elifs cond body elifs) otherwise else_body h st w =
        Promises-bind (eval-IsSound floats st.vars cond st.heap w.0 w.1) λ (v, heap) (g, h₁, p).
          after_eval {U = λ x. AreUnsetIn x (more_elifs cond body elifs) × AreUnset x else_body} st
            heap w g h₁
            λ w₁.
              Gives-branch (truthy floats heap v)
                (Promises-weaken (exec_nodes-Gives body (with_heap heap st) w₁) λ later q.
                  IsLater-trans (λ x u. tt) (λ x u. u.0.0) (same-IsLater (with_heap heap st) w₁) q)
                (Promises-weaken
                  (exec_elifs-IsLater elifs otherwise else_body h (with_heap heap st) w₁)
                  λ later q.
                    IsLater-trans (λ x u. tt) (λ x u. (u.0.1, u.1))
                      (same-IsLater (with_heap heap st) w₁) q)

  -- Nodes that come out without an error, from variables and maps that refer to maps of the heap, lead to
  -- such variables and maps again, take no map away, only write behind the output, and leave every
  -- variable bound to what it was that no `set` tag outside the bodies of loops sets; what a map holds that
  -- it refers to may change.
  pub exec_nodes-IsLater :
      (ns : Nodes) (st later : State N)
      → StateIsValid st
      → exec_nodes floats ns st ≡ ok later
      → IsLater (λ x. AreUnset x ns) st later
  exec_nodes-IsLater ns st later w ran = Promises-ok (exec_nodes-Gives ns st w) ran
