-- ===== src/Mempool/Kv/Copy.antt =====
-- Facts about the copies that the cache makes within a buffer.
use gogguf.Base.{
  ℕ, ◌+◌, ◌-◌, ◌*◌, ◌≤◌, ◌≡◌, sym, ap, ◌∙◌, List, ◌++◌, append_assoc, arith, length, take, drop,
  length-append, length-take, length-drop, take-append_exact, take-drop,
}
use gogguf.Base.Result.{ok}
use gogguf.Mempool.Kv.{copy_at, copy_row, move_down}

module _ {A : Type 0} where
  pub length-copy_at :
      (dst : List A) (off : ℕ) (src : List A)
      → off + length src ≤ length dst
      → length (copy_at dst off src) ≡ length dst
  unfolding copy_at
  length-copy_at dst off src h = omega (
    arith,
    length-append (take off dst) (src ++ drop (off + length src) dst),
    length-append src (drop (off + length src) dst),
    length-take off dst,
    length-drop (off + length src) dst,
  )

  -- After the copy the buffer begins with what stood before the offset, and then the source.
  pub take-copy_at :
      (dst : List A) (off : ℕ) (src : List A)
      → off + length src ≤ length dst
      → take (off + length src) (copy_at dst off src) ≡ take off dst ++ src
  unfolding copy_at
  take-copy_at dst off src h =
      let pre : List A = take off dst in
      let post : List A = drop (off + length src) dst in
      let len : length pre ≡ off = omega (arith, length-take off dst) in
      let e : off + length src ≡ length (pre ++ src) = omega (arith, length-append pre src) in
      ap (take (off + length src)) (sym (append_assoc pre src post))
      ∙ take-append_exact (off + length src) (pre ++ src) post e

  pub copy_row-copy_at :
      (dim : ℕ) (dst : List A) (off : ℕ) (src : List A) (from : ℕ)
      → off + dim ≤ length dst
      → from + dim ≤ length src
      → copy_row dim dst off src from ≡ ok (copy_at dst off (take dim (drop from src)))
  unfolding copy_row
  copy_row-copy_at dim dst off src from h k =
      let e : from + dim - from ≡ dim = omega arith in ground (arith, e)

  pub length-row :
      (dim : ℕ) (src : List A) (from : ℕ)
      → from + dim ≤ length src
      → length (take dim (drop from src)) ≡ dim
  length-row dim src from h = omega (arith, length-take dim (drop from src), length-drop from src)

  -- The rows that stay after the oldest are dropped are the later ones, in order.
  pub take-move_down :
      (dim dropped n : ℕ) (buf : List A)
      → dropped ≤ n
      → n * dim ≤ length buf
      → take ((n - dropped) * dim) (move_down dim dropped n buf)
        ≡ drop (dropped * dim) (take (n * dim) buf)
  unfolding move_down
  take-move_down dim dropped n buf h k =
      let m : ℕ = (n - dropped) * dim in
      let split : dropped * dim + m ≡ n * dim = split_rows dim dropped n h in
      let e : m ≡ length (take m (drop (dropped * dim) buf)) =
        omega (
          arith,
          split,
          length-take m (drop (dropped * dim) buf),
          length-drop (dropped * dim) buf,
        ) in
      take-append_exact m (take m (drop (dropped * dim) buf)) _ e
      ∙ take-drop m (dropped * dim) buf
      ∙ ap (λ t. drop (dropped * dim) (take t buf)) split
    where
      split_rows : (dim dropped n : ℕ) → dropped ≤ n → dropped * dim + (n - dropped) * dim ≡ n * dim
      split_rows dim dropped n h =
          let e : dropped + (n - dropped) ≡ n = omega arith in
          omega (arith, ap (λ (t : ℕ). t * dim) e)

  pub length-move_down :
      (dim dropped n : ℕ) (buf : List A)
      → n * dim ≤ length buf
      → length (move_down dim dropped n buf) ≡ length buf
  unfolding move_down
  length-move_down dim dropped n buf k =
      let rows : List A = take ((n - dropped) * dim) (drop (dropped * dim) buf) in
      length-copy_at buf 0 rows (
        omega (
          arith,
          length-take ((n - dropped) * dim) (drop (dropped * dim) buf),
          length-drop (dropped * dim) buf,
        ))
