-- ===== src/Format/Source.antt =====
-- pkg/format/mmap.go: `mmapSource`, the bytes of a file with a position. An `int64` of a caller is an
-- integer, or its bit pattern where the code computes it from `uint64` values.
pub mod Bounds
use gogguf.Base.{
  ℕ, zero, suc, ◌+◌, ◌-◌, ◌*◌, ◌/◌, ◌%◌, ◌^◌, ◌≤◌, ◌<◌, min, max, ◌≡◌, refl, sym, ap, ◌∙◌, ◌≢◌, ◌↔◌,
  ◌⊎◌, inl, inr, Bool, true, false, not, ◌&&◌, ◌||◌, Option, none, some, List, [], ◌∷◌, ◌++◌, map,
  append-nil, append_assoc, arith, ltb, leb, ◌==◌, if◌then◌else◌, ltb→lt, ltb→le, lt→ltb, le→ltb,
  leb→le, ==_iff, ==_self, Bool-cases, Option-cases, length, get_elem?, set, take, drop, replicate,
  length-append, length-replicate, length-take, length-drop, take-append-drop, take_of_length-le,
  drop_of_length-le, take-append, drop_nil, take_nil, drop-append, drop-length-append,
  take-length-append, take-append_exact, drop-append_exact, drop-drop, take-take, take-drop,
  take-add, length-set, get_elem?-set_self, get_elem?-set_ne, get_elem?-set_inv, length-map,
  get_elem?-map, get_elem?-map_inv, All, All-get_elem?, All-set,
}
use gogguf.Base.Bytes.{Bytes}
use gogguf.Base.Int.{ℤ, pos, negsuc, signed64}
use gogguf.Base.Result.{Result, ok, err, ◌>>=◌}
use gogguf.Format.Types.{
  FormatError, eof, unexpected_eof, seek_range, invalid_whence, read_at_range, panics,
}

pub record Source : Type 0 where
  pub bytes : Bytes
  pub pos : ℕ

-- `Read(p)` for a `p` of n bytes: what is copied to its front.
unfoldable pub read : ℕ → Source → Result FormatError (Bytes × Source)
read n s =
    let got = take n (drop s.pos s.bytes) in
    if leb (length s.bytes) s.pos then err eof else ok (got, record s { pos = s.pos + length got })

-- a + b for a position a.
unfoldable pub offset : ℕ → ℤ → ℤ
offset a (pos b) = pos (a + b)
offset a (negsuc b) = if ltb b a then pos (a - suc b) else negsuc (b - a)

-- The target of `Seek`, before its range is tested.
unfoldable pub seek_target : Source → ℤ → ℕ → Result FormatError ℤ
unfolding offset
seek_target s off whence =
    if whence == 0
    then ok off
    else if whence == 1
    then ok (offset s.pos off)
    else if whence == 2
    then ok (offset (length s.bytes) off)
    else err invalid_whence

unfoldable pub seek_to : Source → ℤ → Result FormatError (ℕ × Source)
seek_to s (negsuc _) = err seek_range
seek_to s (pos at) =
    if ltb (length s.bytes) at then err seek_range else ok (at, record s { pos = at })

unfoldable pub seek : ℤ → ℕ → Source → Result FormatError (ℕ × Source)
unfolding seek_target seek_to
seek off whence s = do target ← seek_target s off whence; seek_to s target

-- `ReadAt(p, off)` for a `p` of n bytes: what is copied, and whether `io.EOF` is returned with it.
unfoldable pub read_at : ℕ → ℤ → Source → Result FormatError (Bytes × Bool)
read_at n (negsuc _) s = err read_at_range
read_at n (pos off) s =
    let got = take n (drop off s.bytes) in
    if ltb (length s.bytes) off then err read_at_range else ok (got, ltb (length got) n)

-- `data[off:hi]`.
unfoldable pub cut : Bytes → ℕ → ℕ → Result FormatError Bytes
cut bytes off hi =
    if leb off hi && leb hi (length bytes)
    then ok (take (hi - off) (drop off bytes))
    else err panics

unfoldable pub slice_from : Source → ℕ → ℤ → Result FormatError (Option Bytes)
unfolding cut
slice_from s off (negsuc _) = err panics
slice_from s off (pos hi) =
    if ltb (length s.bytes) hi then ok none else (do view ← cut s.bytes off hi; ok (some view))

-- `Slice(off, size)`; `none` is the nil slice.
unfoldable pub slice : ℕ → ℕ → Source → Result FormatError (Option Bytes)
slice off size s = elim (signed64 off) [
  | negsuc _ ↦ ok none
  | pos at ↦ slice_from s at (signed64 ((off + size) % 2 ^ 64))
]

-- `io.ReadFull` over `Read`: nothing is read for no bytes, and a short read is followed by one at the
-- end of the file.
unfoldable pub read_full : ℕ → Source → Result FormatError (Bytes × Source)
unfolding read
read_full zero s = ok ([], s)
read_full (suc n) s = do
  (got, t) ← read (suc n) s
  if length got == suc n then ok (got, t) else err unexpected_eof
