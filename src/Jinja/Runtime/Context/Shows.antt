-- ===== src/Jinja/Runtime/Context/Shows.antt =====
-- pkg/chat/jinja/runtime.go: the variables of a new context have the values that the caller gave.
use gogguf.Base.{
  ℕ, zero, suc, ◌≡◌, refl, sym, ap, ◌∙◌, some, List, [], ◌∷◌, ◌++◌, append-nil, append_assoc,
  length, get_elem?,
}
use mathlib.Core.Path.{subst}
use gogguf.Jinja.Runtime.Values.{
  Kind, Value, Values, no_values, more_values, Map, Heap, Floats, kind_of, num_of, str_of, bool_of,
  arr_of, obj_of, undefined_val, none_val, bool_val, str_val, int_val, array_val, object_val, alloc,
}
use gogguf.Jinja.Runtime.Exec.Later.{StateIsValid}
use gogguf.Jinja.Runtime.Context.{
  Any, any_nil, any_bool, any_int, any_float, any_string, any_array, any_map, any_other, Anys,
  no_anys, more_anys, AnyFields, no_any_fields, more_any_fields, from_any, from_anys, from_any_map,
  new_exec_ctx, new_exec_ctx-IsValid,
}

module _ {A : Type 0} where
  get_elem?-append :
      (xs ys : List A) (i : ℕ) (a : A) → get_elem? xs i ≡ some a → get_elem? (xs ++ ys) i ≡ some a
  get_elem?-append [] ys i a h = absurd (cc)
  get_elem?-append (x ∷ xs) ys zero a h = h
  get_elem?-append (x ∷ xs) ys (suc i) a h = get_elem?-append xs ys i a h

  get_elem?-length-append : (xs : List A) (a : A) → get_elem? (xs ++ a ∷ []) (length xs) ≡ some a
  get_elem?-length-append [] a = refl
  get_elem?-length-append (x ∷ xs) a = get_elem?-length-append xs a

module _ {N : Type 0} (floats : Floats N) where
  -- A value is what the caller gave: of its kind, with its content; the fields of a map stand in the
  -- heap, under the same names and in the same order.
  abbrev mutual
    pub Shows : Heap N → Any N → Value N → Type 0
    Shows heap any_nil v = kind_of v ≡ Kind.none_kind
    Shows heap (any_bool b) v = (kind_of v ≡ Kind.bool_kind) × (bool_of v ≡ b)
    Shows heap (any_int i) v = (kind_of v ≡ Kind.number_kind) × (num_of v ≡ floats.of_int i)
    Shows heap (any_float x) v = (kind_of v ≡ Kind.number_kind) × (num_of v ≡ x)
    Shows heap (any_string s) v = (kind_of v ≡ Kind.string_kind) × (str_of v ≡ s)
    Shows heap (any_array xs) v = (kind_of v ≡ Kind.array_kind) × AreShown heap xs (arr_of v)
    Shows heap (any_map fs) v =
        (kind_of v ≡ Kind.object_kind)
        × ((a : ℕ) × (m : Map (Value N)) × (obj_of v ≡ some a)
            × (get_elem? heap a ≡ some m)
            × FieldsAreShown heap fs m)
    Shows heap any_other v = kind_of v ≡ Kind.undefined_kind

    pub AreShown : Heap N → Anys N → Values N → Type 0
    AreShown heap no_anys no_values = Unit
    AreShown heap no_anys (more_values v vs) = ⊥
    AreShown heap (more_anys x xs) no_values = ⊥
    AreShown heap (more_anys x xs) (more_values v vs) = Shows heap x v × AreShown heap xs vs

    pub FieldsAreShown : Heap N → AnyFields N → Map (Value N) → Type 0
    FieldsAreShown heap no_any_fields [] = Unit
    FieldsAreShown heap no_any_fields (e ∷ m) = ⊥
    FieldsAreShown heap (more_any_fields k x fs) [] = ⊥
    FieldsAreShown heap (more_any_fields k x fs) (e ∷ m) =
        (e.0 ≡ k) × Shows heap x e.1 × FieldsAreShown heap fs m

  mutual
    Shows-mono :
        (heap more : Heap N) (x : Any N) (v : Value N) → Shows heap x v → Shows (heap ++ more) x v
    Shows-mono heap more any_nil v h = h
    Shows-mono heap more (any_bool b) v h = h
    Shows-mono heap more (any_int i) v h = h
    Shows-mono heap more (any_float x) v h = h
    Shows-mono heap more (any_string s) v h = h
    Shows-mono heap more (any_array xs) v h = (h.0, AreShown-mono heap more xs (arr_of v) h.1)
    Shows-mono heap more (any_map fs) v h =
        let (kind, (a, m, at, there, shown)) = h in
        (
          kind,
          (
            a,
            m,
            at,
            get_elem?-append heap more a m there,
            FieldsAreShown-mono heap more fs m shown,
          ),
        )
    Shows-mono heap more any_other v h = h

    AreShown-mono :
        (heap more : Heap N) (xs : Anys N) (vs : Values N)
        → AreShown heap xs vs
        → AreShown (heap ++ more) xs vs
    AreShown-mono heap more no_anys no_values h = tt
    AreShown-mono heap more no_anys (more_values v vs) h = absurd h
    AreShown-mono heap more (more_anys x xs) no_values h = absurd h
    AreShown-mono heap more (more_anys x xs) (more_values v vs) h =
        (Shows-mono heap more x v h.0, AreShown-mono heap more xs vs h.1)

    FieldsAreShown-mono :
        (heap more : Heap N) (fs : AnyFields N) (m : Map (Value N))
        → FieldsAreShown heap fs m
        → FieldsAreShown (heap ++ more) fs m
    FieldsAreShown-mono heap more no_any_fields [] h = tt
    FieldsAreShown-mono heap more no_any_fields (e ∷ m) h = absurd h
    FieldsAreShown-mono heap more (more_any_fields k x fs) [] h = absurd h
    FieldsAreShown-mono heap more (more_any_fields k x fs) (e ∷ m) h =
        (h.0, Shows-mono heap more x e.1 h.1, FieldsAreShown-mono heap more fs m h.2)

  -- The heap only grows.
  abbrev Grows : Heap N → Heap N → Type 0
  Grows heap later = (more : Heap N) × (later ≡ heap ++ more)

  Grows-trans : (a b c : Heap N) → Grows a b → Grows b c → Grows a c
  Grows-trans a b c (xs, p) (ys, q) = (xs ++ ys, q ∙ ap (λ t. t ++ ys) p ∙ append_assoc a xs ys)

  Shows-later : (a b : Heap N) (x : Any N) (v : Value N) → Grows a b → Shows a x v → Shows b x v
  Shows-later a b x v (more, p) h = subst (λ t. Shows t x v) (sym p) (Shows-mono a more x v h)

  same_heap : (heap : Heap N) → Grows heap heap
  same_heap heap = ([], sym (append-nil heap))

  mutual
    unfolding from_any from_anys from_any_map none_val bool_val int_val str_val array_val object_val
        undefined_val alloc

    from_any-Shows :
        (x : Any N) (heap : Heap N)
        → Grows heap (from_any floats x heap).1
          × Shows (from_any floats x heap).1 x (from_any floats x heap).0
    from_any-Shows any_nil heap = (same_heap heap, refl)
    from_any-Shows (any_bool b) heap = (same_heap heap, (refl, refl))
    from_any-Shows (any_int i) heap = (same_heap heap, (refl, refl))
    from_any-Shows (any_float x) heap = (same_heap heap, (refl, refl))
    from_any-Shows (any_string s) heap = (same_heap heap, (refl, refl))
    from_any-Shows (any_array xs) heap =
        let (grows, shown) = from_anys-AreShown xs heap in (grows, (refl, shown))
    from_any-Shows (any_map fs) heap =
        let (grows, shown) = from_any_map-FieldsAreShown fs heap in
        let m = (from_any_map floats fs heap).0 in
        let later = (from_any_map floats fs heap).1 in
        (
          Grows-trans heap later (later ++ m ∷ []) grows (m ∷ [], refl),
          (
            refl,
            (
              length later,
              m,
              refl,
              get_elem?-length-append later m,
              FieldsAreShown-mono later (m ∷ []) fs m shown,
            ),
          ),
        )
    from_any-Shows any_other heap = (same_heap heap, refl)

    from_anys-AreShown :
        (xs : Anys N) (heap : Heap N)
        → Grows heap (from_anys floats xs heap).1
          × AreShown (from_anys floats xs heap).1 xs (from_anys floats xs heap).0
    from_anys-AreShown no_anys heap = (same_heap heap, tt)
    from_anys-AreShown (more_anys x xs) heap =
        let first = from_any floats x heap in
        let (grows, shown) = from_any-Shows x heap in
        let (grows', shown') = from_anys-AreShown xs first.1 in
        let later = (from_anys floats xs first.1).1 in
        (
          Grows-trans heap first.1 later grows grows',
          (Shows-later first.1 later x first.0 grows' shown, shown'),
        )

    from_any_map-FieldsAreShown :
        (fs : AnyFields N) (heap : Heap N)
        → Grows heap (from_any_map floats fs heap).1
          × FieldsAreShown (from_any_map floats fs heap).1 fs (from_any_map floats fs heap).0
    from_any_map-FieldsAreShown no_any_fields heap = (same_heap heap, tt)
    from_any_map-FieldsAreShown (more_any_fields k x fs) heap =
        let first = from_any floats x heap in
        let (grows, shown) = from_any-Shows x heap in
        let (grows', shown') = from_any_map-FieldsAreShown fs first.1 in
        let later = (from_any_map floats fs first.1).1 in
        (
          Grows-trans heap first.1 later grows grows',
          (refl, Shows-later first.1 later x first.0 grows' shown, shown'),
        )

  -- A new context has the variables that the caller gave, in their order and no other: every one reads as
  -- its value, of its kind and with its content, through all arrays and maps inside it. A value of a type
  -- that the code does not know is undefined. Nothing is written yet, and all references are to maps of the
  -- heap.
  pub new_exec_ctx-FieldsAreShown :
      (root : AnyFields N)
      → FieldsAreShown (new_exec_ctx floats root).heap root (new_exec_ctx floats root).vars
        × ((new_exec_ctx floats root).out ≡ [])
        × StateIsValid (new_exec_ctx floats root)
  new_exec_ctx-FieldsAreShown root = (
    (unfold new_exec_ctx in (from_any_map-FieldsAreShown root []).1),
    (unfold new_exec_ctx in refl),
    new_exec_ctx-IsValid floats root,
  )
