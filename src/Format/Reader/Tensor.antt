-- ===== src/Format/Reader/Tensor.antt =====
-- `TensorInfo`'s access to its data, in pkg/format/tensor.go, and pkg/weights/raw.go.
use gogguf.Base.{ℕ, ◌+◌, ◌%◌, Option, none, some}
use gogguf.Base.Bytes.{Bytes}
use gogguf.Base.Result.{Result, ok, err, ◌>>=◌}
use gogguf.Dtype.{data_size_bits, u64_mod}
use gogguf.Format.Types.{FormatError, panics}
use gogguf.Format.Source.{slice}
use gogguf.Format.Reader.Open.{Reader, TensorInfo}

-- `Size`, the bit pattern of its `int64`.
unfoldable pub size : TensorInfo → Result FormatError ℕ
unfolding data_size_bits
size t = elim (data_size_bits t.type t.dimensions) [ none ↦ err panics | some n ↦ ok n ]

-- `RawView` of a mapped file, which is a `dataReader`.
unfoldable pub raw_view : Reader → TensorInfo → Result FormatError (Option Bytes)
unfolding size slice
raw_view r t = do n ← size t; slice ((r.tensor_offset + t.offset) % u64_mod) n r.source
