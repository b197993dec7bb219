-- ===== src/Format/Source/Bounds.antt =====
-- What the operations of `mmapSource` give, on every branch.
use gogguf.Base.{
  ℕ, zero, suc, ◌+◌, ◌-◌, ◌%◌, ◌^◌, ◌≤◌, ◌<◌, ◌≡◌, refl, ◌∙◌, ◌⊎◌, inl, inr, true, false, none,
  some, arith, ltb, leb, ◌==◌, if◌then◌else◌, ltb→lt, ltb→le, leb→le, ==_self, Bool-cases, length,
  take, drop, length-take, length-drop,
}
use gogguf.Base.Int.{ℤ, pos, negsuc, signed64-pos, signed64-negsuc}
use gogguf.Base.Result.{ok, err, >>=-eq-ok}
use gogguf.Format.Types.{eof, unexpected_eof, panics}
use gogguf.Format.Source.{Source, seek, seek_target, seek_to, read_full, slice, slice_from, cut}

-- The position is within the file.
abbrev pub IsInside : Source → Type 0
IsInside s = s.pos ≤ length s.bytes

seek_to-IsInside :
    (target : ℤ) (s t : Source) (at : ℕ)
    → seek_to s target ≡ ok (at, t)
    → IsInside t × (t.pos ≡ at) × (t.bytes ≡ s.bytes) × (target ≡ pos at)
unfolding seek_to
seek_to-IsInside (negsuc n) s t at h = absurd (cc)
seek_to-IsInside (pos n) s t at h = elim (Bool-cases (ltb (length s.bytes) n)) [
  | inl beyond ↦ absurd (cc (rw beyond at h))
  | inr inside ↦
      let done : ok (n, record s { pos = n }) ≡ ok (at, t) = rw inside at h in
      let e : n ≡ at = cc done in
      let f : record s { pos = n } ≡ t = cc done in
      rw (← f, ← e) (ltb→le (length s.bytes) n inside, refl, refl, refl)
]

-- A successful `Seek` gives a position within the file, whatever the arguments, returns it, and
-- changes nothing else.
pub seek-IsInside :
    (off : ℤ) (whence : ℕ) (s t : Source) (at : ℕ)
    → seek off whence s ≡ ok (at, t)
    → IsInside t × (t.pos ≡ at) × (t.bytes ≡ s.bytes)
unfolding seek
seek-IsInside off whence s t at h =
    let (target, _, done) = >>=-eq-ok (seek_target s off whence) (seek_to s) h in
    let (inside, moved, kept, _) = seek_to-IsInside target s t at done in (inside, moved, kept)

read_full-enough :
    (n : ℕ) (s : Source)
    → n + s.pos ≤ length s.bytes
    → read_full n s ≡ ok (take n (drop s.pos s.bytes), record s { pos = s.pos + n })
unfolding read_full
read_full-enough zero s h = let e : s.pos + 0 ≡ s.pos = omega arith in rw e
read_full-enough (suc n) s h =
    let len : length (take (suc n) (drop s.pos s.bytes)) ≡ suc n =
      omega (arith, length-take (suc n) (drop s.pos s.bytes), length-drop s.pos s.bytes) in
    let more : leb (length s.bytes) s.pos ≡ false = ground arith in
    rw (more, read_full) (rw (len, ==_self (suc n)))

-- `io.ReadFull` of n bytes, at least one, on every branch: it gives the next n bytes and moves behind them
-- if that many are left; at the end of the file it gives `io.EOF`, and where fewer are left
-- `io.ErrUnexpectedEOF`.
pub read_full_lem :
    (n : ℕ) (s : Source)
    → 0 < n
    → ((read_full n s ≡ ok (take n (drop s.pos s.bytes), record s { pos = s.pos + n }))
        × (n + s.pos ≤ length s.bytes))
      ⊎ (((read_full n s ≡ err eof) × (length s.bytes ≤ s.pos))
          ⊎ ((read_full n s ≡ err unexpected_eof)
              × (s.pos < length s.bytes)
              × (length s.bytes < n + s.pos)))
unfolding read_full
read_full_lem zero s p = absurd (omega arith)
read_full_lem (suc n) s p = elim (Bool-cases (ltb (length s.bytes) (suc n + s.pos))) [
  | inr enough ↦ inl (read_full-enough (suc n) s (ltb→le _ _ enough), ltb→le _ _ enough)
  | inl few ↦ inr (elim (Bool-cases (leb (length s.bytes) s.pos)) [
    | inl ended ↦ inl (rw ended refl, leb→le _ _ ended)
    | inr more ↦
        let missing : length s.bytes < suc n + s.pos = ltb→lt _ _ few in
        let short : (length (take (suc n) (drop s.pos s.bytes)) == suc n) ≡ false =
          ground
            (arith, missing, length-take (suc n) (drop s.pos s.bytes), length-drop s.pos s.bytes) in
        inr ((rw (more, read_full) (rw short refl)), ground arith, missing)
  ])
]

slice_at :
    (off size : ℕ) (s : Source)
    → off + size < 2 ^ 63
    → slice off size s ≡ (
        if ltb (length s.bytes) (off + size)
        then ok none
        else ok (some (take size (drop off s.bytes))))
unfolding slice slice_from cut
slice_at off size s h =
    let wrap : (off + size) % 2 ^ 64 ≡ off + size = omega arith in
    let back : off + size - off ≡ size = omega arith in
    rw (signed64-pos off (omega arith), slice)
      (rw (wrap, signed64-pos (off + size) h, slice_from)
        (elim (Bool-cases (ltb (length s.bytes) (off + size))) [
          | inl beyond ↦ rw beyond
          | inr inside ↦
              let ordered : leb off (off + size) ≡ true = ground arith in
              let bounded : leb (off + size) (length s.bytes) ≡ true =
                ground (arith, ltb→le _ _ inside) in
              rw (inside, ordered, bounded, back)
        ]))

-- `Slice`, for a range whose end is an `int64`, gives the bytes of the range if it lies in the file,
-- and nil otherwise; it never panics there.
pub slice_lem :
    (off size : ℕ) (s : Source)
    → off + size < 2 ^ 63
    → ((slice off size s ≡ ok (some (take size (drop off s.bytes))))
        × (off + size ≤ length s.bytes))
      ⊎ ((slice off size s ≡ ok none) × (length s.bytes < off + size))
slice_lem off size s h = elim (Bool-cases (ltb (length s.bytes) (off + size))) [
  | inl beyond ↦ inr (slice_at off size s h ∙ rw beyond, ltb→lt _ _ beyond)
  | inr inside ↦ inl (slice_at off size s h ∙ rw inside, ltb→le _ _ inside)
]

-- `Slice` panics where the range begins in an `int64` and its end does not fit one: the test
-- `off + size > len` passes on the wrapped sum.
pub slice-eq-panics :
    (off size : ℕ) (s : Source)
    → off < 2 ^ 63
    → size < 2 ^ 63
    → 2 ^ 63 ≤ off + size
    → slice off size s ≡ err panics
unfolding slice slice_from
slice-eq-panics off size s h k over =
    let wrap : (off + size) % 2 ^ 64 ≡ off + size = omega arith in
    rw (signed64-pos off h, slice) (rw (wrap, signed64-negsuc (off + size) over, slice_from))
