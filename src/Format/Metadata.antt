-- ===== src/Format/Metadata.antt =====
-- pkg/format/metadata.go and prefixed_meta.go: reading values out of the metadata.
pub mod Get
use gogguf.Base.{
  ℕ, zero, suc, ◌+◌, ◌-◌, ◌*◌, ◌/◌, ◌%◌, ◌^◌, ◌≤◌, ◌<◌, min, max, ◌≡◌, refl, sym, ap, ◌∙◌, ◌≢◌, ◌↔◌,
  ◌⊎◌, inl, inr, Bool, true, false, not, ◌&&◌, ◌||◌, Option, none, some, List, [], ◌∷◌, ◌++◌, map,
  append-nil, append_assoc, arith, ltb, leb, ◌==◌, if◌then◌else◌, ltb→lt, ltb→le, lt→ltb, le→ltb,
  leb→le, ==_iff, ==_self, Bool-cases, Option-cases, length, get_elem?, set, take, drop, replicate,
  length-append, length-replicate, length-take, length-drop, take-append-drop, take_of_length-le,
  drop_of_length-le, take-append, drop_nil, take_nil, drop-append, drop-length-append,
  take-length-append, take-append_exact, drop-append_exact, drop-drop, take-take, take-drop,
  take-add, length-set, get_elem?-set_self, get_elem?-set_ne, get_elem?-set_inv, length-map,
  get_elem?-map, get_elem?-map_inv, All, All-get_elem?, All-set,
}
use gogguf.Base.Bytes.{Bytes, codes, equal}
use gogguf.Base.Int.{ℤ, pos, negsuc}
use gogguf.Base.Result.{Result, ok, err, ◌>>=◌}
use gogguf.Format.Types.{
  FormatError, not_found, wrong_type, not_a_number, Num, Value, num, bool, str, filetype, nums,
  bools, strs, Metadata,
}

-- `metadata[name]`.
unfoldable pub lookup : Bytes → Metadata → Option Value
lookup name [] = none
lookup name ((k, v) ∷ md) = if equal k name then some v else lookup name md

-- `metadata[name] = value`.
unfoldable pub insert : Bytes → Value → Metadata → Metadata
insert name v [] = (name, v) ∷ []
insert name v ((k, w) ∷ md) = if equal k name then (k, v) ∷ md else (k, w) ∷ insert name v md

-- `MetaValue[any]`, for each `T` that the code asks for a cast of the value.
unfoldable pub meta_value {ℓ} :
    {T : Type ℓ} → (Value → Option T) → Metadata → Bytes → Result FormatError T
meta_value cast md name = elim (lookup name md) [
  | none ↦ err not_found
  | some v ↦ elim (cast v) [ none ↦ err wrong_type | some t ↦ ok t ]
]

unfoldable pub meta_value_or {ℓ} : {T : Type ℓ} → (Value → Option T) → Metadata → Bytes → T → T
unfolding meta_value
meta_value_or cast md key def = elim (meta_value cast md key) [ ok v ↦ v | err _ ↦ def ]

unfoldable pub as_string : Value → Option Bytes
as_string (str s) = some s
as_string _ = none

unfoldable pub as_strings : Value → Option (List Bytes)
as_strings (strs ss) = some ss
as_strings _ = none

unfoldable pub as_f32 : Value → Option ℕ
as_f32 (num Num.f32 n) = some n
as_f32 _ = none

unfoldable pub string : Metadata → Bytes → Result FormatError Bytes
unfolding meta_value as_string
string = meta_value as_string

unfoldable pub string_array : Metadata → Bytes → Result FormatError (List Bytes)
unfolding meta_value as_strings
string_array = meta_value as_strings

-- The integer that a w-bit pattern in two's complement stands for; `half` is 2 ^ (w - 1).
unfoldable pub signed : ℕ → ℕ → ℤ
signed half n = if ltb n half then pos n else negsuc (2 * half - n - 1)

-- The conversions of floats to `int`, of which the language leaves those out of range open.
pub record FloatToInt : Type 0 where
  pub from_f32 : ℕ → ℤ
  pub from_f64 : ℕ → ℤ

module _ (floats : FloatToInt) where
  -- `int(vv)` in the cases of `MetaValueNumber[int]`; an `int` has 64 bits.
  unfoldable pub to_int : Num → ℕ → ℤ
  unfolding signed
  to_int Num.u8 n = pos n
  to_int Num.i8 n = signed (2 ^ 7) n
  to_int Num.u16 n = pos n
  to_int Num.i16 n = signed (2 ^ 15) n
  to_int Num.u32 n = pos n
  to_int Num.i32 n = signed (2 ^ 31) n
  to_int Num.f32 n = floats.from_f32 n
  to_int Num.u64 n = signed (2 ^ 63) n
  to_int Num.i64 n = signed (2 ^ 63) n
  to_int Num.f64 n = floats.from_f64 n

  unfoldable pub number_of : Value → Result FormatError ℤ
  unfolding to_int
  number_of (num k n) = ok (to_int k n)
  number_of _ = err not_a_number

  -- `Int`, that is `MetaValueNumber[int]`.
  unfoldable pub int : Metadata → Bytes → Result FormatError ℤ
  unfolding number_of
  int md name = elim (lookup name md) [ none ↦ err not_found | some v ↦ number_of v ]

  -- `IntOptional` and `MetaValueNumberOr[int]`.
  unfoldable pub int_optional : Metadata → Bytes → ℤ → ℤ
  unfolding int
  int_optional md name def = elim (int md name) [ ok v ↦ v | err _ ↦ def ]

  -- `PrefixedMeta`: its `Int` and `IntOr`.
  unfoldable pub prefixed_int : Bytes → Metadata → Bytes → Result FormatError ℤ
  unfolding int
  prefixed_int prefix md key = int md (prefix ++ key)

  unfoldable pub prefixed_int_or : Bytes → Metadata → Bytes → ℤ → ℤ
  unfolding int_optional
  prefixed_int_or prefix md key def = int_optional md (prefix ++ key) def

unfoldable pub prefixed_f32_or : Bytes → Metadata → Bytes → ℕ → ℕ
unfolding meta_value_or as_f32
prefixed_f32_or prefix md key def = meta_value_or as_f32 md (prefix ++ key) def
