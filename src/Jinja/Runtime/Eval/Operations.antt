-- ===== src/Jinja/Runtime/Eval/Operations.antt =====
-- pkg/chat/jinja/runtime.go: what the operations on values give refers to maps of the heap.
use gogguf.Base.{
  ℕ, ◌≤◌, ◌≡◌, refl, Bool, ◌&&◌, ◌||◌, Option, none, some, List, [], ◌∷◌, map, arith, ltb, ◌==◌,
  if◌then◌else◌, length, get_elem?,
}
use gogguf.Base.Bytes.{Bytes, codes, equal}
use gogguf.Base.Int.{ℤ, pos, negsuc}
use gogguf.Base.Result.{Result, ok, err}
use gogguf.Base.Outcome.{if_holds, option_holds, Promises, gives, fails}
use gogguf.Jinja.Lexer.Words.{Mark}
use gogguf.Jinja.Runtime.Numbers.{distance, count_up, count_down, rem_int}
use gogguf.Jinja.Runtime.Values.{
  Kind, Value, Floats, Map, Heap, find, str_of, num_of, arr_of, is_kind, to_list, of_list, alloc,
  fields_of, undefined_val, none_val, bool_val, str_val, num_val, int_val, array_val, object_val,
}
use gogguf.Jinja.Runtime.Strings.{Method, method_of, string_method}
use gogguf.Jinja.Runtime.Addresses.{
  ValueIsValid, ListIsValid, MapIsValid, OptionIsValid, HeapIsValid, value_mono, find-IsValid,
  fields_of-IsValid, alloc-IsValid, of_list-IsValid, arr_of-IsValid, get_elem?-IsValid,
}
use gogguf.Jinja.Syntax.{Literal}
use gogguf.Jinja.Runtime.Eval.{literal, get, call_method}
use gogguf.Jinja.Runtime.Eval.Apply.{
  EvalError, get_method, get_attr, get_index, bin_op, unary_op, range, filter_to_json,
  filter_length, apply_filter, apply_test,
}

-- What a step promises where it gives a value; any error may come.
abbrev pub Gives : {A : Type 0} → (A → Type 0) → Result EvalError A → Type 0
Gives P r = Promises P (λ _. Unit {0}) r

-- A value and the heap behind at least n maps.
abbrev pub IsSound : {N : Type 0} → ℕ → Value N × Heap N → Type 0
IsSound n r = (n ≤ length r.1) × HeapIsValid r.1 × ValueIsValid (length r.1) r.0

module _ {N : Type 0} (floats : Floats N) where
  undefined_lem : (n : ℕ) → ValueIsValid n (undefined_val floats)
  unfolding undefined_val
  undefined_lem n = (tt, tt)

  bool_lem : (n : ℕ) (b : Bool) → ValueIsValid n (bool_val floats b)
  unfolding bool_val
  bool_lem n b = (tt, tt)

  str_lem : (n : ℕ) (s : Bytes) → ValueIsValid n (str_val floats s)
  unfolding str_val
  str_lem n s = (tt, tt)

  pub int_lem : (n : ℕ) (i : ℤ) → ValueIsValid n (int_val floats i)
  unfolding int_val
  int_lem n i = (tt, tt)

  pub array_lem :
      (n : ℕ) (vs : List (Value N))
      → ListIsValid n vs
      → ValueIsValid n (array_val floats (of_list vs))
  unfolding array_val
  array_lem n vs w = (tt, of_list-IsValid n vs w)

  pub literal_lem : (n : ℕ) (v : Literal) → ValueIsValid n (literal floats v)
  unfolding literal
  literal_lem n (Literal.text s) = str_lem n s
  literal_lem n (Literal.number s) = unfold num_val in (tt, tt)
  literal_lem n (Literal.bool b) = bool_lem n b
  literal_lem n Literal.none_lit = unfold none_val in (tt, tt)

  or_undefined_lem :
      (n : ℕ) (o : Option (Value N))
      → OptionIsValid n o
      → ValueIsValid n (elim o [ none ↦ undefined_val floats | some v ↦ v ])
  or_undefined_lem n none w = undefined_lem n
  or_undefined_lem n (some v) w = w

  pub get-IsValid :
      (n : ℕ) (vars : Map (Value N)) (x : Bytes)
      → MapIsValid n vars
      → ValueIsValid n (get floats vars x)
  unfolding get
  get-IsValid n vars x w = or_undefined_lem n (find x vars) (find-IsValid n x vars w)

  same_heap :
      (heap : Heap N) (v : Value N)
      → HeapIsValid heap
      → ValueIsValid (length heap) v
      → IsSound (length heap) (v, heap)
  same_heap heap v w h = (omega arith, w, h)

  pub new_object-IsSound :
      (m : Map (Value N)) (heap : Heap N)
      → HeapIsValid heap
      → MapIsValid (length heap) m
      → IsSound (length heap) (object_val floats (alloc m heap).0, (alloc m heap).1)
  unfolding object_val
  new_object-IsSound m heap w h =
      let (heap_valid, address, grown) = alloc-IsValid m heap w h in
      (grown, heap_valid, (address, tt))

  get_method-IsSound :
      (heap : Heap N) (v : Value N) (name : Bytes)
      → HeapIsValid heap
      → ValueIsValid (length heap) v
      → IsSound (length heap) (get_method floats heap v name)
  unfolding get_method
  get_method-IsSound heap v name w h =
      let n = length heap in
      let nothing = same_heap heap (undefined_val floats) w (undefined_lem n) in
      let fields = fields_of-IsValid n heap v w in
      if_holds (IsSound n) (is_kind Kind.string_kind v)
        (option_holds (IsSound n) (method_of name) nothing λ m.
          new_object-IsSound
            ((codes "__method__", str_val floats name) ∷ (codes "__self__", v) ∷ []) heap w
            (str_lem n name, (h, tt)))
        (if_holds (IsSound n) (is_kind Kind.object_kind v)
          (option_holds (IsSound n) (find (codes "__method__") (fields_of heap v)) nothing λ m.
            if_holds (IsSound n) (ltb 0 (length (str_of m)))
              (new_object-IsSound _ heap w (
                str_lem n (str_of m),
                (
                  or_undefined_lem n (find (codes "__self__") (fields_of heap v))
                      (find-IsValid n (codes "__self__") (fields_of heap v) fields),
                  tt,
                ),
              ))
              nothing)
          nothing)

  sub_or :
      (n : ℕ) (heap : Heap N) (o : Option (Value N)) (other : Value N × Heap N)
      → n ≡ length heap
      → HeapIsValid heap
      → OptionIsValid n o
      → IsSound {N = N} n other
      → IsSound {N = N} n
          (elim o as (λ _. Value N × Heap N) [ some sub ↦ (sub, heap) | none ↦ other ])
  sub_or n heap none other e w o h = h
  sub_or n heap (some sub) other e w o h =
      (omega (arith, e), w, value_mono n (length heap) (omega (arith, e)) sub o)

  pub get_attr-IsSound :
      (heap : Heap N) (v : Value N) (name : Bytes)
      → HeapIsValid heap
      → ValueIsValid (length heap) v
      → IsSound (length heap) (get_attr floats heap v name)
  unfolding get_attr
  get_attr-IsSound heap v name w h =
      let n = length heap in
      let other = get_method-IsSound heap v name w h in
      if_holds (IsSound n) (is_kind Kind.object_kind v || is_kind Kind.namespace_kind v)
        (sub_or n heap (find name (fields_of heap v)) (get_method floats heap v name) refl w
          (find-IsValid n name (fields_of heap v) (fields_of-IsValid n heap v w)) other)
        other

  pub get_index-IsValid :
      (heap : Heap N) (v key : Value N)
      → HeapIsValid heap
      → ValueIsValid (length heap) v
      → ValueIsValid (length heap) (get_index floats heap v key)
  unfolding get_index
  get_index-IsValid heap v key w h =
      let n = length heap in
      let item : (i : ℤ)
          → ValueIsValid n (elim i [
            | pos i ↦ elim (get_elem? (to_list (arr_of v)) i) [
              | none ↦ undefined_val floats
              | some u ↦ u
            ]
            | negsuc i ↦ undefined_val floats
          ]) =
        λ i.
          elim i
            as (λ k. ValueIsValid n (elim k [
              | pos i ↦ elim (get_elem? (to_list (arr_of v)) i) [
                | none ↦ undefined_val floats
                | some u ↦ u
              ]
              | negsuc i ↦ undefined_val floats
            ])) [
              | pos i ↦
                  or_undefined_lem n (get_elem? (to_list (arr_of v)) i)
                    (get_elem?-IsValid n (to_list (arr_of v)) i (arr_of-IsValid n v h))
              | negsuc i ↦ undefined_lem n
            ] in
      if_holds (ValueIsValid n) (is_kind Kind.array_kind v) (item (floats.to_int (num_of key))) (
        if_holds (ValueIsValid n)
          ((is_kind Kind.object_kind v || is_kind Kind.namespace_kind v)
            && is_kind Kind.string_kind key)
          (or_undefined_lem n (find (str_of key) (fields_of heap v))
            (find-IsValid n (str_of key) (fields_of heap v) (fields_of-IsValid n heap v w)))
          (undefined_lem n))

  pub unary_op-IsValid :
      (n : ℕ) (heap : Heap N) (op : Mark) (v : Value N)
      → Gives (ValueIsValid n) (unary_op floats heap op v)
  unfolding unary_op
  unary_op-IsValid n heap Mark.not_word v = gives (tt, tt)
  unary_op-IsValid n heap Mark.minus v = gives (tt, tt)
  unary_op-IsValid n heap _ v = fails tt

  remainder_lem :
      (n : ℕ) (l : Value N) (i : ℤ)
      → Gives (ValueIsValid n) (elim i [
        | pos d ↦
            if d == 0
            then err EvalError.divide_by_zero
            else ok (int_val floats (rem_int (floats.to_int (num_of l)) (pos d)))
        | negsuc d ↦ ok (int_val floats (rem_int (floats.to_int (num_of l)) (negsuc d)))
      ])
  remainder_lem n l (pos d) =
      if_holds (Gives (ValueIsValid n)) (d == 0) (fails tt) (gives (int_lem n _))
  remainder_lem n l (negsuc d) = gives (int_lem n _)

  pub bin_op-IsValid :
      (n : ℕ) (heap : Heap N) (op : Mark) (l r : Value N)
      → Gives (ValueIsValid n) (bin_op floats heap op l r)
  unfolding bin_op
  bin_op-IsValid n heap Mark.plus l r =
      if_holds (Gives (ValueIsValid n)) (is_kind Kind.string_kind l || is_kind Kind.string_kind r)
        (gives (tt, tt)) (gives (tt, tt))
  bin_op-IsValid n heap Mark.minus l r = gives (tt, tt)
  bin_op-IsValid n heap Mark.star l r = gives (tt, tt)
  bin_op-IsValid n heap Mark.slash l r = gives (tt, tt)
  bin_op-IsValid n heap Mark.percent l r = remainder_lem n l (floats.to_int (num_of r))
  bin_op-IsValid n heap Mark.and_word l r = gives (tt, tt)
  bin_op-IsValid n heap Mark.or_word l r = gives (tt, tt)
  bin_op-IsValid n heap Mark.eq l r = gives (tt, tt)
  bin_op-IsValid n heap Mark.ne l r = gives (tt, tt)
  bin_op-IsValid n heap Mark.lt l r = gives (tt, tt)
  bin_op-IsValid n heap Mark.gt l r = gives (tt, tt)
  bin_op-IsValid n heap Mark.le l r = gives (tt, tt)
  bin_op-IsValid n heap Mark.ge l r = gives (tt, tt)
  bin_op-IsValid n heap Mark.in_word l r =
      if_holds (Gives (ValueIsValid n)) (is_kind Kind.string_kind r) (gives (tt, tt))
        (gives (tt, tt))
  bin_op-IsValid n heap _ l r = fails tt

  ints_lem : (n : ℕ) (is : List ℤ) → ListIsValid n (map (int_val floats) is)
  ints_lem n [] = tt
  ints_lem n (i ∷ is) = (int_lem n i, ints_lem n is)

  counted_lem :
      (n : ℕ) (is : List ℤ) → ValueIsValid n (array_val floats (of_list (map (int_val floats) is)))
  counted_lem n is = array_lem n (map (int_val floats) is) (ints_lem n is)

  steps_lem :
      (n : ℕ) (start end by : ℤ)
      → Gives (ValueIsValid n) (elim by [
        | negsuc k ↦ ok (
            array_val floats (
              of_list
                (map (int_val floats) (count_down (distance end start) start end (negsuc k)))))
        | pos k ↦
            if k == 0
            then err EvalError.range_step_zero
            else ok (
                array_val floats (
                  of_list (map (int_val floats) (count_up (distance start end) start end (pos k)))))
      ])
  steps_lem n start end (negsuc k) = gives (counted_lem n _)
  steps_lem n start end (pos k) =
      if_holds (Gives (ValueIsValid n)) (k == 0) (fails tt) (gives (counted_lem n _))

  pub range-IsValid : (n : ℕ) (args : List (Value N)) → Gives (ValueIsValid n) (range floats args)
  unfolding range
  range-IsValid n [] = fails tt
  range-IsValid n (a ∷ []) = gives (counted_lem n _)
  range-IsValid n (a ∷ b ∷ []) = gives (counted_lem n _)
  range-IsValid n (a ∷ b ∷ c ∷ []) =
      steps_lem n (floats.to_int (num_of a)) (floats.to_int (num_of b)) (floats.to_int (num_of c))
  range-IsValid n (a ∷ b ∷ c ∷ d ∷ vs) = fails tt

  filter_to_json-IsValid :
      (n : ℕ) (heap : Heap N) (v : Value N) → Gives (ValueIsValid n) (filter_to_json floats heap v)
  unfolding filter_to_json
  filter_to_json-IsValid n heap v = option_holds (Gives (ValueIsValid n)) _ (fails tt) λ j.
      option_holds (Gives (ValueIsValid n)) (floats.marshal j) (fails tt) λ s. gives (str_lem n s)

  filter_length-IsValid : (n : ℕ) (v : Value N) → ValueIsValid n (filter_length floats v)
  unfolding filter_length
  filter_length-IsValid n v =
      if_holds (ValueIsValid n) (is_kind Kind.string_kind v) (tt, tt)
        (if_holds (ValueIsValid n) (is_kind Kind.array_kind v) (tt, tt) (tt, tt))

  pub apply_filter-IsValid :
      (n : ℕ) (heap : Heap N) (v : Value N) (name : Bytes)
      → Gives (ValueIsValid n) (apply_filter floats heap v name)
  unfolding apply_filter
  apply_filter-IsValid n heap v name =
      if_holds (Gives (ValueIsValid n)) (equal name (codes "tojson"))
        (filter_to_json-IsValid n heap v)
        (if_holds (Gives (ValueIsValid n)) (equal name (codes "length"))
          (gives (filter_length-IsValid n v)) (fails tt))

  pub apply_test-IsValid :
      (n : ℕ) (v : Value N) (name : Bytes) (negated : Bool)
      → Gives (ValueIsValid n) (apply_test floats v name negated)
  unfolding apply_test
  apply_test-IsValid n v name negated =
      if_holds (Gives (ValueIsValid n)) (equal name (codes "defined")) (gives (tt, tt))
        (if_holds (Gives (ValueIsValid n)) (equal name (codes "none")) (gives (tt, tt)) (fails tt))

  strings_lem : (n : ℕ) (ss : List Bytes) → ListIsValid n (map (str_val floats) ss)
  strings_lem n [] = tt
  strings_lem n (s ∷ ss) = (str_lem n s, strings_lem n ss)

  string_method-IsValid :
      (n : ℕ) (s : Bytes) (m : Method) (args : List (Value N))
      → ValueIsValid n (string_method floats s m args)
  unfolding string_method
  string_method-IsValid n s Method.split_method args = array_lem n _ (strings_lem n _)
  string_method-IsValid n s Method.lstrip_method args = (tt, tt)
  string_method-IsValid n s Method.rstrip_method args = (tt, tt)
  string_method-IsValid n s Method.strip_method args = (tt, tt)

  pub call_method-IsValid :
      (n : ℕ) (self : Value N) (name : Bytes) (args : List (Value N))
      → Gives (ValueIsValid n) (call_method floats self name args)
  unfolding call_method
  call_method-IsValid n self name args =
      option_holds (Gives (ValueIsValid n)) (method_of name) (fails tt)
        λ m. gives (string_method-IsValid n (str_of self) m args)
