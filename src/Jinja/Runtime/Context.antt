-- ===== src/Jinja/Runtime/Context.antt =====
-- pkg/chat/jinja/runtime.go: the context that a template is rendered with. An `any` is one of the types
-- that `fromAny` tells apart; int64 and float32 are converted first. Go visits a map in any order: the
-- order decides only which addresses the maps have.
pub mod Shows
use gogguf.Base.{Bool, [], ◌∷◌, arith, length}
use gogguf.Base.Bytes.{Bytes}
use gogguf.Base.Int.{ℤ}
use gogguf.Jinja.Runtime.Values.{
  Value, Values, no_values, more_values, Floats, Map, Heap, undefined_val, none_val, bool_val,
  str_val, number_val, int_val, array_val, object_val, alloc,
}
use gogguf.Jinja.Runtime.Addresses.{ValuesAreValid, MapIsValid, HeapIsValid, value_mono}
use gogguf.Jinja.Runtime.Eval.Operations.{IsSound, new_object-IsSound}
use gogguf.Jinja.Runtime.Eval.Valid.{Behind}
use gogguf.Jinja.Runtime.Exec.{State}
use gogguf.Jinja.Runtime.Exec.Later.{StateIsValid}

mutual
  pub data Any (N : Type 0) : Type 0 where
    any_nil : Any N
    any_bool : Bool → Any N
    any_int : ℤ → Any N
    any_float : N → Any N
    any_string : Bytes → Any N
    any_array : Anys N → Any N
    any_map : AnyFields N → Any N
    any_other : Any N

  pub data Anys (N : Type 0) : Type 0 where
    no_anys : Anys N
    more_anys : Any N → Anys N → Anys N

  pub data AnyFields (N : Type 0) : Type 0 where
    no_any_fields : AnyFields N
    more_any_fields : Bytes → Any N → AnyFields N → AnyFields N

module _ {N : Type 0} (floats : Floats N) where
  unfoldable mutual
    unfolding undefined_val none_val bool_val str_val int_val array_val object_val alloc

    pub from_any : Any N → Heap N → Value N × Heap N
    from_any any_nil heap = (none_val floats, heap)
    from_any (any_bool b) heap = (bool_val floats b, heap)
    from_any (any_int i) heap = (int_val floats i, heap)
    from_any (any_float x) heap = (number_val floats x, heap)
    from_any (any_string s) heap = (str_val floats s, heap)
    from_any (any_array xs) heap =
        let items = from_anys xs heap in (array_val floats items.0, items.1)
    from_any (any_map fs) heap =
        let fields = from_any_map fs heap in
        (object_val floats (alloc fields.0 fields.1).0, (alloc fields.0 fields.1).1)
    from_any any_other heap = (undefined_val floats, heap)

    pub from_anys : Anys N → Heap N → Values N × Heap N
    from_anys no_anys heap = (no_values, heap)
    from_anys (more_anys x xs) heap =
        let first = from_any x heap in
        let more = from_anys xs first.1 in (more_values first.0 more.0, more.1)

    pub from_any_map : AnyFields N → Heap N → Map (Value N) × Heap N
    from_any_map no_any_fields heap = ([], heap)
    from_any_map (more_any_fields k x fs) heap =
        let first = from_any x heap in
        let more = from_any_map fs first.1 in ((k, first.0) ∷ more.0, more.1)

  -- `newExecCtx`, with nothing written yet.
  unfoldable pub new_exec_ctx : AnyFields N → State N
  unfolding from_any
  new_exec_ctx root =
      let fields = from_any_map root [] in record { vars = fields.0; heap = fields.1; out = [] }

  mutual
    unfolding from_any

    from_any-IsSound :
        (x : Any N) (heap : Heap N) → HeapIsValid heap → IsSound (length heap) (from_any x heap)
    from_any-IsSound any_nil heap w = (omega arith, w, (tt, tt))
    from_any-IsSound (any_bool b) heap w = (omega arith, w, (tt, tt))
    from_any-IsSound (any_int i) heap w = (omega arith, w, (tt, tt))
    from_any-IsSound (any_float x) heap w = (omega arith, w, (tt, tt))
    from_any-IsSound (any_string s) heap w = (omega arith, w, (tt, tt))
    from_any-IsSound (any_array xs) heap w =
        let (g, heap_valid, values_valid) = from_anys-AreSound xs heap w in
        (g, heap_valid, (tt, values_valid))
    from_any-IsSound (any_map fs) heap w =
        let (g, heap_valid, fields_valid) = from_any_map-IsSound fs heap w in
        let (g', heap_valid', object_valid) =
          new_object-IsSound floats (from_any_map fs heap).0 (from_any_map fs heap).1 heap_valid
            fields_valid in
        (omega (arith, g, g'), heap_valid', object_valid)
    from_any-IsSound any_other heap w = (omega arith, w, (tt, tt))

    from_anys-AreSound :
        (xs : Anys N) (heap : Heap N)
        → HeapIsValid heap
        → Behind {N = N} {A = Values N} ValuesAreValid (length heap) (from_anys xs heap)
    from_anys-AreSound no_anys heap w = (omega arith, w, tt)
    from_anys-AreSound (more_anys x xs) heap w =
        let (g, heap_valid, value_valid) = from_any-IsSound x heap w in
        let (g', heap_valid', values_valid) =
          from_anys-AreSound xs (from_any x heap).1 heap_valid in
        let n = length (from_any x heap).1 in
        let p = length (from_anys xs (from_any x heap).1).1 in
        (
          omega (arith, g, g'),
          heap_valid',
          (value_mono n p g' (from_any x heap).0 value_valid, values_valid),
        )

    from_any_map-IsSound :
        (fs : AnyFields N) (heap : Heap N)
        → HeapIsValid heap
        → Behind {N = N} {A = Map (Value N)} MapIsValid (length heap) (from_any_map fs heap)
    from_any_map-IsSound no_any_fields heap w = (omega arith, w, tt)
    from_any_map-IsSound (more_any_fields k x fs) heap w =
        let (g, heap_valid, value_valid) = from_any-IsSound x heap w in
        let (g', heap_valid', fields_valid) =
          from_any_map-IsSound fs (from_any x heap).1 heap_valid in
        let n = length (from_any x heap).1 in
        let p = length (from_any_map fs (from_any x heap).1).1 in
        (
          omega (arith, g, g'),
          heap_valid',
          (value_mono n p g' (from_any x heap).0 value_valid, fields_valid),
        )

  -- Every context begins with variables and maps that refer to maps of the heap.
  pub new_exec_ctx-IsValid : (root : AnyFields N) → StateIsValid (new_exec_ctx root)
  unfolding new_exec_ctx
  new_exec_ctx-IsValid root =
      let (g, heap_valid, fields_valid) = from_any_map-IsSound root [] tt in
      (heap_valid, fields_valid)
