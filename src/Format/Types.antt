-- ===== src/Format/Types.antt =====
-- pkg/format/types.go: the type numbers of metadata values, the values, and the names of file types.
use gogguf.Base.{ℕ, ◌≡◌, refl, Bool, Option, none, some, List, ◌==◌, if◌then◌else◌}
use gogguf.Base.Bytes.{Bytes}

pub data FormatError : Type 0 where
  eof unexpected_eof seek_range invalid_whence read_at_range : FormatError
  bad_magic bad_version bad_bool bad_scalar_type bad_array_type bad_alignment_type : FormatError
  not_found wrong_type not_a_number panics : FormatError

-- The numeric Go types that metadata can hold; a value of one is its bit pattern.
pub data Num : Type 0 where
  u8 i8 u16 i16 u32 i32 f32 u64 i64 f64 : Num

-- The size of a value in the file, in bytes.
unfoldable pub width : Num → ℕ
width Num.u8 = 1
width Num.i8 = 1
width Num.u16 = 2
width Num.i16 = 2
width Num.u32 = 4
width Num.i32 = 4
width Num.f32 = 4
width Num.u64 = 8
width Num.i64 = 8
width Num.f64 = 8

-- The constants of `Type`.
unfoldable pub type_number : Num → ℕ
type_number Num.u8 = 0
type_number Num.i8 = 1
type_number Num.u16 = 2
type_number Num.i16 = 3
type_number Num.u32 = 4
type_number Num.i32 = 5
type_number Num.f32 = 6
type_number Num.u64 = 10
type_number Num.i64 = 11
type_number Num.f64 = 12

abbrev pub bool_type : ℕ
bool_type = 7

abbrev pub string_type : ℕ
string_type = 8

abbrev pub array_type : ℕ
array_type = 9

-- The numeric cases of a `switch` over a type number.
unfoldable pub num_of : ℕ → Option Num
num_of t =
    if t == 0
    then some Num.u8
    else if t == 1
    then some Num.i8
    else if t == 2
    then some Num.u16
    else if t == 3
    then some Num.i16
    else if t == 4
    then some Num.u32
    else if t == 5
    then some Num.i32
    else if t == 6
    then some Num.f32
    else if t == 10
    then some Num.u64
    else if t == 11
    then some Num.i64
    else if t == 12
    then some Num.f64
    else none

pub num_of-type_number : (k : Num) → num_of (type_number k) ≡ some k
unfolding num_of type_number
num_of-type_number Num.u8 = refl
num_of-type_number _ = refl

-- What `any` holds in `Metadata`: a value of a Go type that the reader makes.
pub data Value : Type 0 where
  num : Num → ℕ → Value
  bool : Bool → Value
  str : Bytes → Value
  filetype : ℕ → Value
  nums : Num → List ℕ → Value
  bools : List Bool → Value
  strs : List Bytes → Value

-- `Metadata`: a map, as the list of its entries.
abbrev pub Metadata : Type 0
Metadata = List (Bytes × Value)
