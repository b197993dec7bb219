-- ===== src/Jinja/Runtime/Eval/Apply.antt =====
-- pkg/chat/jinja/runtime.go: attributes, indices, operators, `range`, filters and tests on values.
use gogguf.Base.{
  ℕ, zero, suc, Bool, false, not, ◌&&◌, ◌||◌, Option, none, some, List, [], ◌∷◌, ◌++◌, map, ltb,
  ◌==◌, if◌then◌else◌, length, get_elem?,
}
use gogguf.Base.Bytes.{Bytes, codes, equal}
use gogguf.Base.Int.{pos, negsuc, pos_part}
use gogguf.Base.Result.{Result, ok, err}
use gogguf.Jinja.Lexer.Words.{Mark}
use gogguf.Jinja.Runtime.Numbers.{lt_int, rem_int, distance, count_up, count_down}
use gogguf.Jinja.Runtime.Values.{
  Kind, Value, Values, value, no_values, more_values, Json, Jsons, JsonFields, json_null, json_bool,
  json_int, json_float, json_string, json_array, json_object, no_jsons, more_jsons, no_json_fields,
  more_json_fields, Floats, Map, Heap, find, same_kind, num_of, str_of, arr_of, is_kind, to_list,
  of_list, fields_of, to_array, alloc, undefined_val, bool_val, str_val, number_val, int_val,
  array_val, object_val, truthy, to_string, values_equal,
}
use gogguf.Jinja.Runtime.Strings.{has_substring, method_of}

-- `divide_by_zero` is Go's panic, and `endless_map` stands for a map that contains itself, on which
-- `valueToJSON` does not end.
pub data EvalError : Type 0 where
  kwarg_outside_call unknown_binary unknown_unary method_only_for_strings unknown_method
        call_of_non_function :
      EvalError
  method_without_dot unknown_function range_step_zero range_arguments unknown_filter unknown_test
        cannot_marshal :
      EvalError
  cannot_assign unsupported_target divide_by_zero endless_map : EvalError
  raised : Bytes → EvalError

-- The functions of `evalCall`.
pub data Function : Type 0 where
  namespace_fn raise_fn range_fn method_fn unknown_fn : Function

unfoldable pub function_of : Bytes → Function
unfolding equal method_of
function_of name =
    if equal name (codes "namespace")
    then Function.namespace_fn
    else if equal name (codes "raise_exception")
    then Function.raise_fn
    else if equal name (codes "range")
    then Function.range_fn
    else elim (method_of name) [ none ↦ Function.unknown_fn | some m ↦ Function.method_fn ]

module _ {N : Type 0} (floats : Floats N) where
  abbrev or_undefined : Option (Value N) → Value N
  or_undefined o = elim o [ none ↦ undefined_val floats | some v ↦ v ]

  -- A string with the name of a method, or the bound method of such an object.
  unfoldable pub get_method : Heap N → Value N → Bytes → Value N × Heap N
  unfolding same_kind method_of find fields_of alloc str_val object_val undefined_val
  get_method heap v name =
      let bound =
        alloc ((codes "__method__", str_val floats name) ∷ (codes "__self__", v) ∷ []) heap in
      if is_kind Kind.string_kind v
      then elim (method_of name) [
        | none ↦ (undefined_val floats, heap)
        | some m ↦ (object_val floats bound.0, bound.1)
      ]
      else if is_kind Kind.object_kind v
      then elim (find (codes "__method__") (fields_of heap v)) [
        | none ↦ (undefined_val floats, heap)
        | some m ↦
            let self = or_undefined (find (codes "__self__") (fields_of heap v)) in
            let made =
              alloc ((codes "__bound__", str_val floats (str_of m)) ∷ (codes "__self__", self) ∷ [])
                heap in
            if ltb 0 (length (str_of m))
            then (object_val floats made.0, made.1)
            else (undefined_val floats, heap)
      ]
      else (undefined_val floats, heap)

  -- `getAttr`.
  unfoldable pub get_attr : Heap N → Value N → Bytes → Value N × Heap N
  unfolding same_kind find fields_of get_method
  get_attr heap v name =
      let other = get_method heap v name in
      if is_kind Kind.object_kind v || is_kind Kind.namespace_kind v
      then elim (find name (fields_of heap v)) [ some sub ↦ (sub, heap) | none ↦ other ]
      else other

  -- `getIndex`.
  unfoldable pub get_index : Heap N → Value N → Value N → Value N
  unfolding same_kind find fields_of to_list undefined_val
  get_index heap v key =
      if is_kind Kind.array_kind v
      then elim (floats.to_int (num_of key)) [
        | pos i ↦ or_undefined (get_elem? (to_list (arr_of v)) i)
        | negsuc i ↦ undefined_val floats
      ]
      else if (is_kind Kind.object_kind v || is_kind Kind.namespace_kind v)
          && is_kind Kind.string_kind key
      then or_undefined (find (str_of key) (fields_of heap v))
      else undefined_val floats

  unfoldable pub any_equal : Value N → List (Value N) → Bool
  unfolding values_equal
  any_equal v [] = false
  any_equal v (w ∷ ws) = values_equal floats v w || any_equal v ws

  -- The switch of `evalBin`; both operands are there, also for `and` and `or`.
  unfoldable pub bin_op : Heap N → Mark → Value N → Value N → Result EvalError (Value N)
  unfolding same_kind str_val bool_val int_val to_string truthy values_equal rem_int has_substring
      to_array any_equal
  bin_op heap Mark.plus l r =
      if is_kind Kind.string_kind l || is_kind Kind.string_kind r
      then ok (str_val floats (to_string floats l ++ to_string floats r))
      else ok (number_val floats (floats.plus_num (num_of l) (num_of r)))
  bin_op heap Mark.minus l r = ok (number_val floats (floats.minus_num (num_of l) (num_of r)))
  bin_op heap Mark.star l r = ok (number_val floats (floats.times_num (num_of l) (num_of r)))
  bin_op heap Mark.slash l r = ok (number_val floats (floats.over_num (num_of l) (num_of r)))
  bin_op heap Mark.percent l r = elim (floats.to_int (num_of r)) [
    | pos d ↦
        if d == 0
        then err EvalError.divide_by_zero
        else ok (int_val floats (rem_int (floats.to_int (num_of l)) (pos d)))
    | negsuc d ↦ ok (int_val floats (rem_int (floats.to_int (num_of l)) (negsuc d)))
  ]
  bin_op heap Mark.and_word l r =
      ok (bool_val floats (truthy floats heap l && truthy floats heap r))
  bin_op heap Mark.or_word l r = ok (bool_val floats (truthy floats heap l || truthy floats heap r))
  bin_op heap Mark.eq l r = ok (bool_val floats (values_equal floats l r))
  bin_op heap Mark.ne l r = ok (bool_val floats (not (values_equal floats l r)))
  bin_op heap Mark.lt l r = ok (bool_val floats (floats.lt_num (num_of l) (num_of r)))
  bin_op heap Mark.gt l r = ok (bool_val floats (floats.lt_num (num_of r) (num_of l)))
  bin_op heap Mark.le l r = ok (bool_val floats (floats.le_num (num_of l) (num_of r)))
  bin_op heap Mark.ge l r = ok (bool_val floats (floats.le_num (num_of r) (num_of l)))
  bin_op heap Mark.in_word l r =
      if is_kind Kind.string_kind r
      then ok (bool_val floats (has_substring (str_of r) (to_string floats l)))
      else ok (bool_val floats (any_equal l (to_array r)))
  bin_op heap _ l r = err EvalError.unknown_binary

  -- The switch of `evalUnary`.
  unfoldable pub unary_op : Heap N → Mark → Value N → Result EvalError (Value N)
  unfolding bool_val truthy
  unary_op heap Mark.not_word v = ok (bool_val floats (not (truthy floats heap v)))
  unary_op heap Mark.minus v = ok (number_val floats (floats.neg_num (num_of v)))
  unary_op heap _ v = err EvalError.unknown_unary

  -- `evalRange`.
  unfoldable pub range : List (Value N) → Result EvalError (Value N)
  unfolding array_val of_list int_val lt_int distance count_up count_down
  range (last ∷ []) =
      let end = floats.to_int (num_of last) in
      ok (
        array_val floats
          (of_list (map (int_val floats) (count_up (pos_part end) (pos 0) end (pos 1)))))
  range (first ∷ last ∷ []) =
      let start = floats.to_int (num_of first) in
      let end = floats.to_int (num_of last) in
      ok (
        array_val floats
          (of_list (map (int_val floats) (count_up (distance start end) start end (pos 1)))))
  range (first ∷ last ∷ by ∷ []) =
      let start = floats.to_int (num_of first) in
      let end = floats.to_int (num_of last) in
      elim (floats.to_int (num_of by)) [
        | negsuc n ↦ ok (
            array_val floats (
              of_list
                (map (int_val floats) (count_down (distance end start) start end (negsuc n)))))
        | pos n ↦
            if n == 0
            then err EvalError.range_step_zero
            else ok (
                array_val floats (
                  of_list (map (int_val floats) (count_up (distance start end) start end (pos n)))))
      ]
  range _ = err EvalError.range_arguments

  -- `valueToJSON`, given what it makes of the map at an address.
  unfoldable mutual
    pub value_to_json : (ℕ → Option (JsonFields N)) → Value N → Option (Json N)
    value_to_json at_map (value Kind.string_kind x s b vs o) = some (json_string s)
    value_to_json at_map (value Kind.number_kind x s b vs o) =
        some (if floats.is_whole x then json_int (floats.to_int x) else json_float x)
    value_to_json at_map (value Kind.bool_kind x s b vs o) = some (json_bool b)
    value_to_json at_map (value Kind.array_kind x s b vs o) = elim (values_to_json at_map vs) [
      | none ↦ none
      | some js ↦ some (json_array js)
    ]
    value_to_json at_map (value Kind.object_kind x s b vs o) = elim o [
      | none ↦ some (json_object no_json_fields)
      | some a ↦ elim (at_map a) [ none ↦ none | some js ↦ some (json_object js) ]
    ]
    value_to_json at_map (value Kind.namespace_kind x s b vs o) = elim o [
      | none ↦ some (json_object no_json_fields)
      | some a ↦ elim (at_map a) [ none ↦ none | some js ↦ some (json_object js) ]
    ]
    value_to_json at_map (value _ x s b vs o) = some json_null

    pub values_to_json : (ℕ → Option (JsonFields N)) → Values N → Option (Jsons N)
    values_to_json at_map no_values = some no_jsons
    values_to_json at_map (more_values v vs) = elim (value_to_json at_map v) [
      | none ↦ none
      | some j ↦ elim (values_to_json at_map vs) [ none ↦ none | some js ↦ some (more_jsons j js) ]
    ]

  unfoldable pub map_to_json : (ℕ → Option (JsonFields N)) → Map (Value N) → Option (JsonFields N)
  unfolding value_to_json
  map_to_json at_map [] = some no_json_fields
  map_to_json at_map ((k, v) ∷ m) = elim (value_to_json at_map v) [
    | none ↦ none
    | some j ↦ elim (map_to_json at_map m) [
      | none ↦ none
      | some js ↦ some (more_json_fields k j js)
    ]
  ]

  -- The maps on the way to a map are counted: when there are more than the heap has, one of them contains
  -- itself.
  unfoldable pub json_at : ℕ → Heap N → ℕ → Option (JsonFields N)
  unfolding map_to_json
  json_at zero heap a = none
  json_at (suc f) heap a = elim (get_elem? heap a) [
    | none ↦ some no_json_fields
    | some m ↦ map_to_json (json_at f heap) m
  ]

  -- `filterToJSON`.
  unfoldable pub filter_to_json : Heap N → Value N → Result EvalError (Value N)
  unfolding value_to_json json_at str_val
  filter_to_json heap v = elim (value_to_json (json_at (suc (length heap)) heap) v) [
    | none ↦ err EvalError.endless_map
    | some j ↦ elim (floats.marshal j) [
      | none ↦ err EvalError.cannot_marshal
      | some s ↦ ok (str_val floats s)
    ]
  ]

  unfoldable pub filter_length : Value N → Value N
  unfolding int_val to_list same_kind
  filter_length v =
      if is_kind Kind.string_kind v
      then int_val floats (pos (length (str_of v)))
      else if is_kind Kind.array_kind v
      then int_val floats (pos (length (to_list (arr_of v))))
      else int_val floats (pos 0)

  -- The switch of `evalFilter`.
  unfoldable pub apply_filter : Heap N → Value N → Bytes → Result EvalError (Value N)
  unfolding equal filter_to_json filter_length
  apply_filter heap v name =
      if equal name (codes "tojson")
      then filter_to_json heap v
      else if equal name (codes "length")
      then ok (filter_length v)
      else err EvalError.unknown_filter

  -- The switch of `evalTest`.
  unfoldable pub apply_test : Value N → Bytes → Bool → Result EvalError (Value N)
  unfolding equal same_kind bool_val
  apply_test v name negated =
      let given = not (is_kind Kind.undefined_kind v) in
      let none_given = is_kind Kind.none_kind v in
      if equal name (codes "defined")
      then ok (bool_val floats (if negated then not given else given))
      else if equal name (codes "none")
      then ok (bool_val floats (if negated then not none_given else none_given))
      else err EvalError.unknown_test
