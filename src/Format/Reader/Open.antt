-- ===== src/Format/Reader/Open.antt =====
-- `readMetaValue`, `Open` and the queries of `Reader`.
use gogguf.Base.{
  ℕ, zero, suc, ◌+◌, ◌-◌, ◌*◌, ◌/◌, ◌%◌, Bool, ◌||◌, Option, none, some, List, [], ◌∷◌, ◌++◌, ◌==◌,
  if◌then◌else◌, length, replicate,
}
use gogguf.Base.Bytes.{Bytes, codes, equal}
use gogguf.Base.Int.{pos, negsuc}
use gogguf.Base.Result.{Result, ok, err}
use gogguf.Dtype.{data_size_bits, u64_mod}
use gogguf.Format.Types.{
  FormatError, bad_magic, bad_version, bad_scalar_type, bad_array_type, bad_alignment_type,
  not_found, panics, Num, num_of, bool_type, string_type, array_type, Value, num, bool, str,
  filetype, nums, bools, strs, Metadata,
}
use gogguf.Format.Source.{Source, read, seek, read_full}
use gogguf.Format.Metadata.{lookup, insert}
use gogguf.Format.Reader.Monad.{
  M, pure, fail, ◌>>=◌, ByteOrder, read_num, read_string, to_bool, repeat,
}

-- `readMetaDataValueScalar`.
unfoldable pub read_scalar : ByteOrder → ℕ → M Value
unfolding read_num read_string to_bool
read_scalar order typ = elim (num_of typ) [
  | some k ↦ do n ← read_num order k; pure (num k n)
  | none ↦
      if typ == bool_type
      then (do i ← read_num order Num.u8; b ← to_bool i; pure (bool b))
      else if typ == string_type
      then (do s ← read_string order; pure (str s))
      else fail bad_scalar_type
]

-- The loop that turns a `[]uint8` into a `[]bool`.
unfoldable pub to_bools : List ℕ → M (List Bool)
unfolding to_bool
to_bools [] = pure []
to_bools (v ∷ vs) = do b ← to_bool v; rest ← to_bools vs; pure (b ∷ rest)

-- The array cases of `readMetaValue`.
unfoldable pub read_array : ByteOrder → ℕ → ℕ → M Value
unfolding read_num read_string to_bools repeat
read_array order typ length = elim (num_of typ) [
  | some k ↦ do a ← repeat length (read_num order k); pure (nums k a)
  | none ↦
      if typ == bool_type
      then (do a ← repeat length (read_num order Num.u8); b ← to_bools a; pure (bools b))
      else if typ == string_type
      then (do a ← repeat length (read_string order); pure (strs a))
      else fail bad_array_type
]

unfoldable pub read_array_value : ByteOrder → M Value
unfolding read_num read_array
read_array_value order = do
  typ ← read_num order Num.u32
  length ← read_num order Num.u64
  read_array order typ length

-- `readMetaValue`.
unfoldable pub read_meta_value : ByteOrder → M Value
unfolding read_num read_array_value read_scalar
read_meta_value order = do
  typ ← read_num order Num.u32
  if typ == array_type then read_array_value order else read_scalar order typ

-- The value that is stored: the number of the file type gets its own Go type.
unfoldable pub stored : Bytes → Value → Value
stored name (num Num.u32 n) =
    if equal name (codes "general.file_type") then filetype n else num Num.u32 n
stored name v = v

-- The loop over the metadata.
unfoldable pub read_metadata : ByteOrder → ℕ → Metadata → M Metadata
unfolding read_string read_meta_value stored insert
read_metadata order zero md = pure md
read_metadata order (suc n) md = do
  name ← read_string order
  value ← read_meta_value order
  read_metadata order n (insert name (stored name value) md)

-- The alignment of the tensor data.
unfoldable pub alignment_value : Value → Result FormatError ℕ
alignment_value (num Num.u32 n) = ok n
alignment_value _ = err bad_alignment_type

unfoldable pub alignment_of : Metadata → Result FormatError ℕ
unfolding lookup alignment_value
alignment_of md = elim (lookup (codes "general.alignment") md) [
  | none ↦ ok 32
  | some v ↦ alignment_value v
]

-- `TensorInfo`, but for the link to its reader.
pub record TensorInfo : Type 0 where
  pub name : Bytes
  pub dimensions : List ℕ
  pub type : ℕ
  pub offset : ℕ

-- One round of the loop over the tensors.
unfoldable pub read_tensor : ByteOrder → M TensorInfo
unfolding read_num read_string repeat
read_tensor order = do
  name ← read_string order
  n_dimensions ← read_num order Num.u32
  dimensions ← repeat n_dimensions (read_num order Num.u64)
  typ ← read_num order Num.u32
  offset ← read_num order Num.u64
  pure (record { name = name; dimensions = dimensions; type = typ; offset = offset })

-- `Reader`.
pub record Reader : Type 0 where
  pub source : Source
  pub byte_order : ByteOrder
  pub version : ℕ
  pub metadata : Metadata
  pub tensors : List TensorInfo
  pub tensor_offset : ℕ

-- `(current + alignment - 1) / alignment * alignment`; the division by zero panics.
unfoldable pub align : ℕ → ℕ → Result FormatError ℕ
align current alignment =
    if alignment == 0 then err panics else ok ((current + alignment - 1) / alignment * alignment)

-- A step that only fails or gives a value.
abbrev pub lift : {A : Type 0} → Result FormatError A → M A
lift r s = elim r [ ok a ↦ ok (a, s) | err e ↦ err e ]

-- The first four bytes; `Read` may give fewer, and the rest of the buffer is zero.
unfoldable pub check_magic : M (Unit {0})
unfolding read equal
check_magic = do
  got ← read 4
  if equal (got ++ replicate (4 - length got) 0) (codes "GGUF") then pure tt else fail bad_magic

-- The byte order: the last byte of a little-endian version is 0.
unfoldable pub detect_order : M ByteOrder
unfolding seek read_full
detect_order = do
  _ ← seek (pos 3) 1
  marker ← read_full 1
  _ ← seek (negsuc 3) 1
  pure (elim marker [
    | [] ↦ ByteOrder.little
    | b ∷ _ ↦ if b == 0 then ByteOrder.little else ByteOrder.big
  ])

unfoldable pub read_version : ByteOrder → M ℕ
unfolding read_num
read_version order = do
  version ← read_num order Num.u32
  if version == 2 || version == 3 then pure version else fail bad_version

-- The part of `Open` from the counts to the loop over the tensors: the metadata, the alignment and the
-- tensors.
unfoldable pub read_tables : ByteOrder → M (Metadata × ℕ × List TensorInfo)
unfolding read_num read_metadata alignment_of read_tensor repeat
read_tables order = do
  tensor_count ← read_num order Num.u64
  metadata_count ← read_num order Num.u64
  md ← read_metadata order metadata_count []
  alignment ← lift (alignment_of md)
  tensors ← repeat tensor_count (read_tensor order)
  pure (md, alignment, tensors)

-- The end of `Open`: the tensors' data begins at the next multiple of the alignment.
unfoldable pub make_reader : ByteOrder → ℕ → Metadata × ℕ × List TensorInfo → M Reader
unfolding align
make_reader order version (md, alignment, tensors) s = elim (align s.pos alignment) [
  | err e ↦ err e
  | ok tensor_offset ↦ ok (
    record {
      source = s;
      byte_order = order;
      version = version;
      metadata = md;
      tensors = tensors;
      tensor_offset = tensor_offset;
    },
    s,
  )
]

unfoldable pub open_source : M Reader
unfolding check_magic detect_order read_version read_tables make_reader
open_source = do
  _ ← check_magic
  order ← detect_order
  version ← read_version order
  tables ← read_tables order
  make_reader order version tables

-- `Open` at the start of a file.
unfoldable pub open_file : Bytes → Result FormatError Reader
unfolding open_source
open_file bytes = elim (open_source (record { bytes = bytes; pos = 0 })) [
  | ok (r, _) ↦ ok r
  | err e ↦ err e
]

-- `TensorInfo(name)`.
unfoldable pub find_tensor : Bytes → List TensorInfo → Result FormatError TensorInfo
find_tensor name [] = err not_found
find_tensor name (t ∷ ts) = if equal t.name name then ok t else find_tensor name ts

unfoldable pub tensor_info : Reader → Bytes → Result FormatError TensorInfo
unfolding find_tensor
tensor_info r name = find_tensor name r.tensors

-- `TensorSize`: the sum of the sizes as the bit pattern of its `int64`; `none` is the panic on an unknown type.
unfoldable pub total_size : ℕ → List TensorInfo → Option ℕ
total_size size [] = some size
total_size size (t ∷ ts) = elim (data_size_bits t.type t.dimensions) [
  | none ↦ none
  | some n ↦ total_size ((size + n) % u64_mod) ts
]

unfoldable pub tensor_size : Reader → Option ℕ
unfolding total_size
tensor_size r = total_size 0 r.tensors
