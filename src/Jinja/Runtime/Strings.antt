-- ===== src/Jinja/Runtime/Strings.antt =====
-- pkg/chat/jinja/runtime.go: the methods of strings and `in` on strings, with what they call of the
-- package strings, on texts and sets that are UTF-8.
use gogguf.Base.{
  ℕ, zero, suc, ◌+◌, Bool, true, false, ◌||◌, Option, none, some, List, [], ◌∷◌, map, if◌then◌else◌,
  length, set, take, drop,
}
use gogguf.Base.Bytes.{Bytes, codes, equal, join}
use gogguf.Tokenizer.Special.{index_of}
use gogguf.Tokenizer.Utf8.{utf8_symbols}
use gogguf.Jinja.Runtime.Values.{Value, Floats, str_val, array_val, of_list, to_string}

abbrev symbols : Bytes → List Bytes
symbols s = elim (utf8_symbols s) [ none ↦ [] | some out ↦ out ]

-- `strings.Contains`.
unfoldable pub has_substring : Bytes → Bytes → Bool
unfolding index_of
has_substring s sub = elim (index_of s sub) [ none ↦ false | some i ↦ true ]

-- `strings.Split`; the empty separator splits into symbols.
unfoldable pub split_fuel : ℕ → Bytes → Bytes → List Bytes
unfolding index_of
split_fuel zero sep s = s ∷ []
split_fuel (suc f) sep s = elim (index_of s sep) [
  | none ↦ s ∷ []
  | some i ↦ take i s ∷ split_fuel f sep (drop (i + length sep) s)
]

unfoldable pub split : Bytes → Bytes → List Bytes
unfolding split_fuel utf8_symbols
split [] s = symbols s
split (c ∷ cs) s = split_fuel (length s) (c ∷ cs) s

unfoldable is_in : List Bytes → Bytes → Bool
unfolding equal
is_in [] x = false
is_in (y ∷ ys) x = equal y x || is_in ys x

unfoldable drop_in : List Bytes → List Bytes → List Bytes
unfolding is_in
drop_in set [] = []
drop_in set (x ∷ xs) = let rest = drop_in set xs in if is_in set x then rest else x ∷ xs

unfoldable keep_in : List Bytes → Bytes → List Bytes → List Bytes
unfolding is_in
keep_in set x [] = if is_in set x then [] else x ∷ []
keep_in set x (y ∷ ys) = x ∷ y ∷ ys

unfoldable drop_last_in : List Bytes → List Bytes → List Bytes
unfolding keep_in
drop_last_in set [] = []
drop_last_in set (x ∷ xs) = keep_in set x (drop_last_in set xs)

-- `strings.TrimLeft`, `strings.TrimRight` and `strings.Trim`.
unfoldable pub trim_left_set : Bytes → Bytes → Bytes
unfolding utf8_symbols drop_in
trim_left_set s cutset = join (drop_in (symbols cutset) (symbols s))

unfoldable pub trim_right_set : Bytes → Bytes → Bytes
unfolding utf8_symbols drop_last_in
trim_right_set s cutset = join (drop_last_in (symbols cutset) (symbols s))

abbrev pub trim_set : Bytes → Bytes → Bytes
trim_set s cutset = trim_right_set (trim_left_set s cutset) cutset

-- The four methods.
pub data Method : Type 0 where
  split_method lstrip_method rstrip_method strip_method : Method

unfoldable pub method_of : Bytes → Option Method
unfolding equal
method_of name =
    if equal name (codes "split")
    then some Method.split_method
    else if equal name (codes "lstrip")
    then some Method.lstrip_method
    else if equal name (codes "rstrip")
    then some Method.rstrip_method
    else if equal name (codes "strip")
    then some Method.strip_method
    else none

module _ {N : Type 0} (floats : Floats N) where
  -- The separator, or the set of what is trimmed: a newline where there is no argument.
  unfoldable pub first_or_newline : List (Value N) → Bytes
  unfolding to_string
  first_or_newline [] = codes "\n"
  first_or_newline (v ∷ vs) = to_string floats v

  -- The switch of `callStringMethod`.
  unfoldable pub string_method : Bytes → Method → List (Value N) → Value N
  unfolding str_val array_val of_list split trim_left_set trim_right_set first_or_newline
  string_method s Method.split_method args =
      array_val floats (of_list (map (str_val floats) (split (first_or_newline args) s)))
  string_method s Method.lstrip_method args =
      str_val floats (trim_left_set s (first_or_newline args))
  string_method s Method.rstrip_method args =
      str_val floats (trim_right_set s (first_or_newline args))
  string_method s Method.strip_method args = str_val floats (trim_set s (first_or_newline args))
