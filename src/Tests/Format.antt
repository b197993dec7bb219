-- ===== src/Tests/Format.antt =====
-- Concrete files for the theorems about pkg/format.
use gogguf.Base.{◌+◌, ◌-◌, ◌^◌, ◌≤◌, ◌<◌, ◌≡◌, refl, ◌⊎◌, none, some, [], ◌∷◌, arith, take, drop}
use gogguf.Base.Bytes.{codes}
use gogguf.Base.Int.{pos}
use gogguf.Base.Result.{ok, err}
use gogguf.Base.Space.{trim_space}
use gogguf.Format.Types.{FormatError, Num, Value}
use gogguf.Format.Source.{Source, seek, read_full, slice}
use gogguf.Format.Source.Bounds.{IsInside, seek-IsInside, read_full_lem, slice_lem, slice-eq-panics}
use gogguf.Format.Reader.Monad.{ByteOrder}
use gogguf.Format.Reader.Open.{read_meta_value}
use gogguf.Format.Wire.{File, put_value}
use gogguf.Format.Wire.Reads.{Reads}
use gogguf.Format.Wire.Values.{IsWritable, trimmed, read_meta_value-Reads}

abbrev some_source : Source
some_source = record { bytes = 1 ∷ 2 ∷ 3 ∷ 4 ∷ 5 ∷ []; pos = 2 }

seek_two_on : seek (pos 2) 1 some_source ≡ ok (4, record some_source { pos = 4 })
unfolding seek
seek_two_on = refl

seek-IsInside_example :
    IsInside (record some_source { pos = 4 })
    × ((record some_source { pos = 4 }).pos ≡ 4)
    × ((record some_source { pos = 4 }).bytes ≡ some_source.bytes)
seek-IsInside_example =
    seek-IsInside (pos 2) 1 some_source (record some_source { pos = 4 }) 4 seek_two_on

read_full_lem_example :
    ((read_full 3 some_source
        ≡ ok (take 3 (drop 2 some_source.bytes), record some_source { pos = 2 + 3 }))
      × (3 + 2 ≤ 5))
    ⊎ (((read_full 3 some_source ≡ err FormatError.eof) × (5 ≤ 2))
        ⊎ ((read_full 3 some_source ≡ err FormatError.unexpected_eof) × (2 < 5) × (5 < 3 + 2)))
read_full_lem_example = read_full_lem 3 some_source (omega arith)

slice_lem_example :
    ((slice 1 3 some_source ≡ ok (some (take 3 (drop 1 some_source.bytes)))) × (1 + 3 ≤ 5))
    ⊎ ((slice 1 3 some_source ≡ ok none) × (5 < 1 + 3))
slice_lem_example = slice_lem 1 3 some_source (omega arith)

slice-eq-panics_example : slice (2 ^ 63 - 1) 2 some_source ≡ err FormatError.panics
slice-eq-panics_example =
    slice-eq-panics (2 ^ 63 - 1) 2 some_source (omega arith) (omega arith) (omega arith)

abbrev some_value : Value
some_value = Value.strs (codes "a" ∷ codes " bc" ∷ [])

some_value-IsWritable : IsWritable some_value
unfolding trim_space
some_value-IsWritable = (omega arith, (omega arith, (omega arith, tt)))

read_meta_value-Reads_example :
    Reads (read_meta_value ByteOrder.big) (put_value ByteOrder.big some_value) (trimmed some_value)
read_meta_value-Reads_example = read_meta_value-Reads ByteOrder.big some_value some_value-IsWritable

abbrev some_file : File
some_file = record {
  order = ByteOrder.little;
  version = 3;
  entries = (codes "k", Value.num Num.u8 7) ∷ (codes "names", some_value) ∷ [];
  tensors = record { name = codes "t"; dimensions = 32 ∷ 2 ∷ []; type = 8; offset = 0 } ∷ [];
}
