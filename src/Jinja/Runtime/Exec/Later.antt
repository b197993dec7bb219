-- ===== src/Jinja/Runtime/Exec/Later.antt =====
-- pkg/chat/jinja/runtime.go: what a step of the evaluator leaves as it was.
use gogguf.Base.{
  ℕ, ◌≤◌, ◌<◌, ◌≡◌, refl, sym, ap, ◌∙◌, inl, inr, false, none, some, List, [], ◌∷◌, ◌++◌,
  append-nil, append_assoc, arith, if◌then◌else◌, Bool-cases, length, get_elem?, set, length-set,
}
use gogguf.Base.Bytes.{Bytes, equal, equal_iff}
use gogguf.Jinja.Syntax.{
  Expr, Node, Nodes, Elifs, variable, attr, text_node, expr_node, if_node, for_node, set_node,
  no_nodes, more_nodes, no_elifs, more_elifs,
}
use gogguf.Jinja.Runtime.Values.{Value, Map, Heap, find, put, set_obj, alloc, value}
use gogguf.Jinja.Runtime.Addresses.{
  ValueIsValid, MapIsValid, HeapIsValid, value_mono, values_mono, map_mono, put-IsValid,
  get_map-IsValid, alloc-IsValid, set-IsValid,
}
use gogguf.Jinja.Runtime.Eval.Operations.{IsSound}
use gogguf.Jinja.Runtime.Exec.{State, set_var, with_heap, write, set_attr}

-- The variable that an assignment to the target sets is another one.
abbrev pub RootIsNot : Bytes → Expr → Type 0
RootIsNot x (variable y) = equal y x ≡ false
RootIsNot x (attr e a) = RootIsNot x e
RootIsNot x _ = Unit

abbrev pub AssignsOthers : Bytes → List (Expr × Expr) → Type 0
AssignsOthers x [] = Unit
AssignsOthers x (a ∷ assigns) = RootIsNot x a.0 × AssignsOthers x assigns

-- No `set` tag outside the bodies of loops sets the variable.
unfoldable mutual
  pub IsUnset : Bytes → Node → Type 0
  IsUnset x (text_node s) = Unit
  IsUnset x (expr_node e) = Unit
  IsUnset x (if_node cond body elifs else_body) =
      AreUnset x body × AreUnsetIn x elifs × AreUnset x else_body
  IsUnset x (for_node names iter body else_body) = AreUnset x else_body
  IsUnset x (set_node assigns) = AssignsOthers x assigns

  pub AreUnset : Bytes → Nodes → Type 0
  AreUnset x no_nodes = Unit
  AreUnset x (more_nodes n ns) = IsUnset x n × AreUnset x ns

  pub AreUnsetIn : Bytes → Elifs → Type 0
  AreUnsetIn x no_elifs = Unit
  AreUnsetIn x (more_elifs cond body elifs) = AreUnset x body × AreUnsetIn x elifs

module _ {N : Type 0} where
  -- The variables and the maps refer to maps of the heap.
  abbrev pub StateIsValid : State N → Type 0
  StateIsValid st = HeapIsValid st.heap × MapIsValid (length st.heap) st.vars

  -- A later state, in which the variables of U are as before.
  pub record IsLater (U : Bytes → Type 0) (st later : State N) : Type 0 where
    pub valid : StateIsValid later
    pub grows : length st.heap ≤ length later.heap
    pub writes : (more : Bytes) × (later.out ≡ st.out ++ more)
    pub keeps : (x : Bytes) → U x → find x later.vars ≡ find x st.vars

  pub IsLater-trans :
      {U V W : Bytes → Type 0} {st mid later : State N}
      → ((x : Bytes) → W x → U x)
      → ((x : Bytes) → W x → V x)
      → IsLater U st mid
      → IsLater V mid later
      → IsLater W st later
  IsLater-trans {st = st} {mid = mid} {later = later} u v p q =
      let (s, eq₁) = p.writes in
      let (t, eq₂) = q.writes in
      record {
        valid = q.valid;
        grows = omega (arith, p.grows, q.grows);
        writes = (s ++ t, eq₂ ∙ ap (λ out. out ++ t) eq₁ ∙ append_assoc st.out s t);
        keeps = λ x w. q.keeps x (v x w) ∙ p.keeps x (u x w);
      }

  pub same-IsLater : {U : Bytes → Type 0} (st : State N) → StateIsValid st → IsLater U st st
  same-IsLater st w = record {
    valid = w;
    grows = omega arith;
    writes = ([], sym (append-nil st.out));
    keeps = λ x u. refl;
  }

  pub heap-IsLater :
      {U : Bytes → Type 0} (st : State N) (heap : Heap N)
      → StateIsValid st
      → length st.heap ≤ length heap
      → HeapIsValid heap
      → IsLater U st (with_heap heap st)
  heap-IsLater st heap w g h = record {
    valid = (h, map_mono (length st.heap) (length heap) g st.vars w.1);
    grows = g;
    writes = ([], sym (append-nil st.out));
    keeps = λ x u. refl;
  }

  pub write-IsLater :
      {U : Bytes → Type 0} (s : Bytes) (st : State N) → StateIsValid st → IsLater U st (write s st)
  write-IsLater s st w = record {
    valid = w;
    grows = omega arith;
    writes = (s, refl);
    keeps = λ x u. refl;
  }

  find-put :
      (x y : Bytes) (v : Value N) (vars : Map (Value N))
      → equal y x ≡ false
      → find x (put y v vars) ≡ find x vars
  unfolding find put
  find-put x y v [] h = rw h refl
  find-put x y v ((k, u) ∷ vars) h = elim (Bool-cases (equal k y)) [
    | inl same ↦
        let eq : k ≡ y = (equal_iff k y).0 same in
        let other : equal k x ≡ false = ap (λ k. equal k x) eq ∙ h in rw (same, other) refl
    | inr apart ↦ rw apart (ap (λ rest. if equal k x then some u else rest) (find-put x y v vars h))
  ]

  pub set-IsLater :
      (name : Bytes) (v : Value N) (st : State N)
      → StateIsValid st
      → ValueIsValid (length st.heap) v
      → IsLater (λ x. equal name x ≡ false) st (set_var name v st)
  set-IsLater name v st w h = record {
    valid = (w.0, put-IsValid (length st.heap) name v st.vars h w.1);
    grows = omega arith;
    writes = ([], sym (append-nil st.out));
    keeps = λ x other. find-put x name v st.vars other;
  }

  obj-IsValid : (n a : ℕ) (v : Value N) → a < n → ValueIsValid n v → ValueIsValid n (set_obj a v)
  obj-IsValid n a (value k x s b vs o) h w = (h, w.1)

  pub set_attr-IsSound :
      (base : Value N) (name : Bytes) (v : Value N) (heap : Heap N)
      → HeapIsValid heap
      → ValueIsValid (length heap) base
      → ValueIsValid (length heap) v
      → IsSound (length heap) (set_attr base name v heap)
  unfolding set_attr
  set_attr-IsSound (value k x s b vs none) name v heap w h i =
      let (heap_valid, address, grown) = alloc-IsValid ((name, v) ∷ []) heap w (i, tt) in
      (
        grown,
        heap_valid,
        (address, values_mono (length heap) (length (alloc ((name, v) ∷ []) heap).1) grown vs h.1),
      )
  set_attr-IsSound (value k x s b vs (some a)) name v heap w h i =
      let m : Map (Value N) = elim (get_elem? heap a) [ none ↦ [] | some m ↦ m ] in
      let same : length (set heap a (put name v m)) ≡ length heap =
        length-set heap a (put name v m) in
      (
        omega (arith, same),
        set-IsValid heap a (put name v m) w
            (put-IsValid (length heap) name v m i (get_map-IsValid (length heap) heap a w)),
        value_mono (length heap) (length (set heap a (put name v m))) (omega (arith, same))
            (value k x s b vs (some a)) h,
      )
