-- ===== src/Mempool/Arena/Disjoint.antt =====
-- What `Alloc` hands out: a whole slice behind all that was handed out before.
use gogguf.Base.{
  ltb→lt, ℕ, ◌+◌, ◌-◌, ◌≤◌, ◌<◌, ◌≡◌, refl, ap, ◌∙◌, inl, inr, List, ◌++◌, append-nil, arith, ltb,
  ltb→le, lt→ltb, Bool-cases, length, take, drop, replicate, length-append, length-replicate,
  length-take, length-drop, take_of_length-le, take-append, take-add,
}
use gogguf.Base.Int.{pos}
use gogguf.Mempool.Arena.{Arena, alloc, grow, carve, grown_cap}

-- The slab holds what was handed out.
abbrev pub IsSound {ℓ} : {A : Type ℓ} → Arena A → Type 0
IsSound a = a.off ≤ length a.buf

module _ {ℓ} {A : Type ℓ} (zero_value : A) (a : Arena A) (sound : IsSound a) where
  length-grow : (n : ℕ) → a.off + n ≤ length (grow zero_value a n).buf
  unfolding grow
  length-grow n = omega (
    arith,
    length-append (take a.off a.buf)
        (replicate (grown_cap zero_value a n - length (take a.off a.buf)) zero_value),
    length-replicate (grown_cap zero_value a n - length (take a.off a.buf)) zero_value,
    length-take a.off a.buf,
    grown_cap-le n,
  )
    where
      grown_cap-le : (n : ℕ) → a.off + n ≤ grown_cap zero_value a n
      grown_cap-le n = omega arith

  take-grow : (n : ℕ) → take a.off (grow zero_value a n).buf ≡ take a.off a.buf
  unfolding grow
  take-grow n =
      let len : length (take a.off a.buf) ≡ a.off = omega (arith, length-take a.off a.buf) in
      let cut : take a.off (take a.off a.buf) ≡ take a.off a.buf =
        take_of_length-le _ _ (omega arith) in
      let fresh = replicate (grown_cap zero_value a n - length (take a.off a.buf)) zero_value in
      take-append a.off (take a.off a.buf) fresh
      ∙ (let none_left : a.off - length (take a.off a.buf) ≡ 0 = omega arith in
          rw (none_left, cut) (append-nil (take a.off a.buf)))

-- What `alloc` promises of a slab `a`, its later state `b` and the slice `s`.
pub record Appends {ℓ} {A : Type ℓ} (n : ℕ) (a b : Arena A) (s : List A) : Type ℓ where
  pub whole : length s ≡ n
  pub moved : b.off ≡ a.off + n
  pub sound : IsSound b
  pub kept : take b.off b.buf ≡ take a.off a.buf ++ s

module _ {ℓ} {A : Type ℓ} (zero_value : A) where
  carve-Appends :
      (a : Arena A) (n : ℕ)
      → a.off + n ≤ length a.buf
      → Appends n a (carve zero_value a n).0 (carve zero_value a n).1
  unfolding carve
  carve-Appends a n h = record {
    whole = omega (arith, length-take n (drop a.off a.buf), length-drop a.off a.buf);
    moved = refl;
    sound = h;
    kept = take-add a.off n a.buf;
  }

  off-grow : (a : Arena A) (n : ℕ) → (grow zero_value a n).off ≡ a.off
  unfolding grow
  off-grow a n = refl

  grow-carve-Appends :
      (a : Arena A) (n : ℕ)
      → IsSound a
      → Appends n a
          (carve zero_value (grow zero_value a n) n).0
          (carve zero_value (grow zero_value a n) n).1
  grow-carve-Appends a n h =
      let same = off-grow a n in
      let r =
        carve-Appends (grow zero_value a n) n (omega (arith, same, length-grow zero_value a h n)) in
      record {
        whole = r.whole;
        moved = omega (arith, r.moved, same);
        sound = r.sound;
        kept =
            r.kept
            ∙ ap (λ t. t ++ (carve zero_value (grow zero_value a n) n).1)
                (rw same (take-grow zero_value a h n));
      }

  -- `Alloc(n)`, with n at least 1, hands out a slice of exactly n elements that starts where the
  -- last one ended: what the slab held is kept, also when it grows, and the slice stands behind it.
  pub alloc-Appends :
      (a : Arena A) (n : ℕ)
      → IsSound a
      → 0 < n
      → Appends n a (alloc zero_value a (pos n)).0 (alloc zero_value a (pos n)).1
  unfolding alloc
  alloc-Appends a n h p = elim (Bool-cases (ltb (length a.buf) (a.off + n))) [
    | inl full ↦ rw (lt→ltb 0 n p, full) (grow-carve-Appends a n h)
    | inr fits ↦ rw (lt→ltb 0 n p, fits) (carve-Appends a n (ltb→le _ _ fits))
  ]

  -- A slice has the length that was asked for, none included.
  pub length-alloc :
      (a : Arena A) (n : ℕ)
      → IsSound a
      → (length (alloc zero_value a (pos n)).1 ≡ n) × IsSound (alloc zero_value a (pos n)).0
  length-alloc a n h = elim (Bool-cases (ltb 0 n)) [
    | inl p ↦ let r = alloc-Appends a n h (ltb→lt 0 n p) in (r.whole, r.sound)
    | inr z ↦ let e : n ≡ 0 = omega (arith, ltb→le 0 n z) in rw e (unfold alloc in (refl, h))
  ]
