-- ===== src/Jinja/Runtime/Values.antt =====
-- pkg/chat/jinja/runtime.go: the values. A value is the struct of the code, with all its fields whatever
-- its kind. A map is an address in a heap, since maps are shared: nil is `none`. Floats and what the code
-- calls of strconv, math and encoding/json are an interface.
use gogguf.Base.{
  ℕ, Bool, true, false, not, ◌&&◌, Option, none, some, List, [], ◌∷◌, ◌++◌, ltb, if◌then◌else◌,
  length, get_elem?,
}
use gogguf.Base.Bytes.{Bytes, codes, equal}
use gogguf.Base.Int.{ℤ}

-- The kinds of `valueKind`.
pub data Kind : Type 0 where
  undefined_kind none_kind bool_kind number_kind string_kind array_kind object_kind namespace_kind :
      Kind

unfoldable pub same_kind : Kind → Kind → Bool
same_kind Kind.undefined_kind Kind.undefined_kind = true
same_kind Kind.none_kind Kind.none_kind = true
same_kind Kind.bool_kind Kind.bool_kind = true
same_kind Kind.number_kind Kind.number_kind = true
same_kind Kind.string_kind Kind.string_kind = true
same_kind Kind.array_kind Kind.array_kind = true
same_kind Kind.object_kind Kind.object_kind = true
same_kind Kind.namespace_kind Kind.namespace_kind = true
same_kind _ _ = false

mutual
  pub data Value (N : Type 0) : Type 0 where
    value : Kind → N → Bytes → Bool → Values N → Option ℕ → Value N

  pub data Values (N : Type 0) : Type 0 where
    no_values : Values N
    more_values : Value N → Values N → Values N

-- What `valueToJSON` gives to `json.Marshal`.
mutual
  pub data Json (N : Type 0) : Type 0 where
    json_null : Json N
    json_bool : Bool → Json N
    json_int : ℤ → Json N
    json_float : N → Json N
    json_string : Bytes → Json N
    json_array : Jsons N → Json N
    json_object : JsonFields N → Json N

  pub data Jsons (N : Type 0) : Type 0 where
    no_jsons : Jsons N
    more_jsons : Json N → Jsons N → Jsons N

  pub data JsonFields (N : Type 0) : Type 0 where
    no_json_fields : JsonFields N
    more_json_fields : Bytes → Json N → JsonFields N → JsonFields N

-- float64, `strconv.ParseFloat`, `math.Mod(x, 1) == 0`, `strconv.Itoa`, `strconv.FormatFloat` and
-- `json.Marshal`.
pub record Floats (N : Type 0) : Type 0 where
  pub zero_num : N
  pub of_int : ℤ → N
  pub to_int : N → ℤ
  pub parse_float : Bytes → N
  pub plus_num : N → N → N
  pub minus_num : N → N → N
  pub times_num : N → N → N
  pub over_num : N → N → N
  pub neg_num : N → N
  pub eq_num : N → N → Bool
  pub lt_num : N → N → Bool
  pub le_num : N → N → Bool
  pub is_whole : N → Bool
  pub itoa : ℤ → Bytes
  pub format_float : N → Bytes
  pub marshal : Json N → Option Bytes

-- A Go map, and the maps at their addresses.
abbrev pub Map : Type 0 → Type 0
Map V = List (Bytes × V)

abbrev pub Heap : Type 0 → Type 0
Heap N = List (Map (Value N))

module _ {V : Type 0} where
  unfoldable pub find : Bytes → Map V → Option V
  find key [] = none
  find key ((k, v) ∷ m) = let rest = find key m in if equal k key then some v else rest

  unfoldable pub put : Bytes → V → Map V → Map V
  put key v [] = (key, v) ∷ []
  put key v ((k, w) ∷ m) =
      let rest = put key v m in if equal k key then (k, v) ∷ m else (k, w) ∷ rest

module _ {N : Type 0} where
  abbrev pub kind_of : Value N → Kind
  kind_of (value k x s b vs o) = k

  abbrev pub num_of : Value N → N
  num_of (value k x s b vs o) = x

  abbrev pub str_of : Value N → Bytes
  str_of (value k x s b vs o) = s

  abbrev pub bool_of : Value N → Bool
  bool_of (value k x s b vs o) = b

  abbrev pub arr_of : Value N → Values N
  arr_of (value k x s b vs o) = vs

  abbrev pub obj_of : Value N → Option ℕ
  obj_of (value k x s b vs o) = o

  abbrev pub set_obj : ℕ → Value N → Value N
  set_obj a (value k x s b vs o) = value k x s b vs (some a)

  abbrev pub is_kind : Kind → Value N → Bool
  is_kind k v = same_kind (kind_of v) k

  unfoldable pub to_list : Values N → List (Value N)
  to_list no_values = []
  to_list (more_values v vs) = v ∷ to_list vs

  unfoldable pub of_list : List (Value N) → Values N
  of_list [] = no_values
  of_list (v ∷ vs) = more_values v (of_list vs)

  -- The map at an address; `nil` reads as the empty map.
  unfoldable pub fields_of : Heap N → Value N → Map (Value N)
  fields_of heap v = elim (obj_of v) [
    | none ↦ []
    | some a ↦ elim (get_elem? heap a) [ none ↦ [] | some m ↦ m ]
  ]

  -- `toArray`.
  unfoldable pub to_array : Value N → List (Value N)
  unfolding same_kind to_list
  to_array v = if is_kind Kind.array_kind v then to_list (arr_of v) else []

  -- A new map.
  unfoldable pub alloc : Map (Value N) → Heap N → ℕ × Heap N
  alloc m heap = (length heap, heap ++ m ∷ [])

module _ {N : Type 0} (floats : Floats N) where
  unfoldable pub undefined_val : Value N
  undefined_val = value Kind.undefined_kind floats.zero_num [] false no_values none

  unfoldable pub none_val : Value N
  none_val = value Kind.none_kind floats.zero_num [] false no_values none

  unfoldable pub bool_val : Bool → Value N
  bool_val b = value Kind.bool_kind floats.zero_num [] b no_values none

  unfoldable pub str_val : Bytes → Value N
  str_val s = value Kind.string_kind floats.zero_num s false no_values none

  abbrev pub number_val : N → Value N
  number_val x = value Kind.number_kind x [] false no_values none

  unfoldable pub num_val : Bytes → Value N
  num_val s = number_val (floats.parse_float s)

  unfoldable pub int_val : ℤ → Value N
  int_val n = number_val (floats.of_int n)

  unfoldable pub array_val : Values N → Value N
  array_val vs = value Kind.array_kind floats.zero_num [] false vs none

  unfoldable pub object_val : ℕ → Value N
  object_val a = value Kind.object_kind floats.zero_num [] false no_values (some a)

  unfoldable pub namespace_val : ℕ → Value N
  namespace_val a = value Kind.namespace_kind floats.zero_num [] false no_values (some a)

  -- `truthy`.
  unfoldable pub truthy : Heap N → Value N → Bool
  unfolding fields_of to_list
  truthy heap v = elim (kind_of v) [
    | undefined_kind ↦ false
    | none_kind ↦ false
    | bool_kind ↦ bool_of v
    | number_kind ↦ not (floats.eq_num (num_of v) floats.zero_num)
    | string_kind ↦ ltb 0 (length (str_of v))
    | array_kind ↦ ltb 0 (length (to_list (arr_of v)))
    | object_kind ↦ ltb 0 (length (fields_of heap v))
    | namespace_kind ↦ ltb 0 (length (fields_of heap v))
  ]

  -- `toString`.
  unfoldable pub to_string : Value N → Bytes
  to_string v = elim (kind_of v) [
    | undefined_kind ↦ []
    | none_kind ↦ []
    | bool_kind ↦ if bool_of v then codes "true" else codes "false"
    | number_kind ↦
        if floats.is_whole (num_of v)
        then floats.itoa (floats.to_int (num_of v))
        else floats.format_float (num_of v)
    | string_kind ↦ str_of v
    | array_kind ↦ []
    | object_kind ↦ []
    | namespace_kind ↦ []
  ]

  -- `valuesEqual`.
  unfoldable pub values_equal : Value N → Value N → Bool
  unfolding equal same_kind to_string
  values_equal a b =
      if is_kind Kind.string_kind a && is_kind Kind.string_kind b
      then equal (str_of a) (str_of b)
      else if is_kind Kind.number_kind a && is_kind Kind.number_kind b
      then floats.eq_num (num_of a) (num_of b)
      else if is_kind Kind.bool_kind a && is_kind Kind.bool_kind b
      then (if bool_of a then bool_of b else not (bool_of b))
      else if is_kind Kind.none_kind a && is_kind Kind.none_kind b
      then true
      else equal (to_string a) (to_string b)
