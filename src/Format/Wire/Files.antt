-- ===== src/Format/Wire/Files.antt =====
-- Whole files: `Open` after the layout.
use gogguf.Base.{ℕ, ◌^◌, ◌<◌, ◌≡◌, ◌⊎◌, List, [], ◌∷◌, map, ◌++◌, length, All}
use gogguf.Base.Bytes.{Bytes}
use gogguf.Base.Space.{trim_space}
use gogguf.Base.Int.{pos}
use gogguf.Base.Result.{Result}
use gogguf.Format.Types.{Num, width, Value, Metadata}
use gogguf.Format.Source.{Source}
use gogguf.Format.Metadata.{insert}
use gogguf.Format.Reader.Open.{TensorInfo, Reader, stored}
use gogguf.Format.Wire.{put_num, put_all, put_entry, put_tensor, File, put_file}
use gogguf.Format.Wire.Reads.{advance, Reads}
use gogguf.Format.Wire.Values.{IsText, IsWritable, trimmed}

abbrev pub IsWritableEntry : Bytes × Value → Type 0
IsWritableEntry (name, v) = IsText name × IsWritable v

pub record IsWritableTensor (t : TensorInfo) : Type 0 where
  pub name : IsText t.name
  pub few : length t.dimensions < 256 ^ width Num.u32
  pub small : All (λ n. n < 256 ^ width Num.u64) t.dimensions
  pub type : t.type < 256 ^ width Num.u32
  pub offset : t.offset < 256 ^ width Num.u64

-- An entry and a tensor without the white space at the ends of their names and strings.
abbrev pub trimmed_entry : Bytes × Value → Bytes × Value
trimmed_entry (name, v) = (trim_space name, trimmed v)

abbrev pub trimmed_tensor : TensorInfo → TensorInfo
trimmed_tensor t = record t { name = trim_space t.name }

-- The metadata that a list of entries makes: the later of two with one name stands.
abbrev pub stored_all : Metadata → List (Bytes × Value) → Metadata
stored_all md [] = md
stored_all md ((name, v) ∷ es) = stored_all (insert name (stored name v) md) es

pub record IsWritableFile (f : File) : Type 0 where
  pub version : (f.version ≡ 2) ⊎ (f.version ≡ 3)
  pub few_entries : length f.entries < 256 ^ width Num.u64
  pub few_tensors : length f.tensors < 256 ^ width Num.u64
  pub entries : All IsWritableEntry f.entries
  pub tensors : All IsWritableTensor f.tensors

-- The bytes in front of the tensors' data, behind the version.
abbrev put_body : File → Bytes
put_body f =
    put_num f.order Num.u64 (length f.tensors)
    ++ (put_num f.order Num.u64 (length f.entries)
        ++ (put_all (put_entry f.order) f.entries ++ put_all (put_tensor f.order) f.tensors))

abbrev pub opened : File → Source → ℕ → Reader
opened f s tensor_offset = record {
  source = s;
  byte_order = f.order;
  version = f.version;
  metadata = stored_all [] (map trimmed_entry f.entries);
  tensors = map trimmed_tensor f.tensors;
  tensor_offset = tensor_offset;
}

-- The source at the start of the file, behind the magic bytes, and behind the version.
abbrev start : File → Bytes → Source
start f tail = record { bytes = put_file f ++ tail; pos = 0 }

abbrev after_magic : File → Bytes → Source
after_magic f tail = advance (start f tail) 4

abbrev after_version : File → Bytes → Source
after_version f tail = advance (after_magic f tail) (length (put_num f.order Num.u32 f.version))
