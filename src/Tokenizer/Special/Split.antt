-- ===== src/Tokenizer/Special/Split.antt =====
-- pkg/tokenizer/special.go: what the segments of `splitBySpecial` are.
use gogguf.Base.{
  ℕ, zero, suc, ◌+◌, ◌-◌, ◌≤◌, ◌<◌, ◌≡◌, refl, sym, ap, ◌∙◌, ◌⊎◌, inl, inr, true, false, Option,
  none, some, List, [], ◌∷◌, ◌++◌, map, append-nil, arith, ltb, ◌==◌, lt→ltb, Bool-cases,
  Option-cases, length, take, drop, length-take, length-drop, take-append-drop, take_nil, All,
}
use gogguf.Base.Bytes.{Bytes, has_prefix, has_prefix-append, join}
use gogguf.Tokenizer.Special.{
  TextSegment, special_segment, plain_segment, index_from, index_of, find_special, nearer,
  next_special, split_fuel, split_by_special,
}

-- One of the tokens.
abbrev pub IsOneOf : Bytes → List Bytes → Type 0
IsOneOf tok [] = ⊥
IsOneOf tok (t ∷ ts) = (tok ≡ t) ⊎ IsOneOf tok ts

-- No token begins anywhere in the text.
abbrev pub HasNone : List Bytes → Bytes → Type 0
HasNone special [] = Unit
HasNone special (c ∷ cs) = (find_special special (c ∷ cs) ≡ none) × HasNone special cs

HasNone-of :
    (special : List Bytes) (s : Bytes)
    → ((k : ℕ) → k < length s → find_special special (drop k s) ≡ none)
    → HasNone special s
HasNone-of special [] h = tt
HasNone-of special (c ∷ cs) h =
    (h 0 (omega arith), HasNone-of special cs λ k l. h (suc k) (omega arith))

find_special-some :
    (special : List Bytes) (s tok : Bytes)
    → find_special special s ≡ some tok
    → (has_prefix tok s ≡ true) × IsOneOf tok special
unfolding find_special
find_special-some [] s tok h = absurd (cc)
find_special-some (t ∷ ts) s tok h = elim (Bool-cases (has_prefix t s)) [
  | inl now ↦
      let e : some t ≡ some tok = rw now at h in (rw (← some_inj e) now, inl (sym (some_inj e)))
  | inr later ↦
      let e : find_special ts s ≡ some tok = rw later at h in
      let (fits, there) = find_special-some ts s tok e in (fits, inr there)
]
  where
    some_inj : {a b : Bytes} → some a ≡ some b → a ≡ b
    some_inj e = cc

-- Nothing that a longer text begins with is missing at the begin of the shorter one.
has_prefix-take : (p s : Bytes) (n : ℕ) → has_prefix p s ≡ false → has_prefix p (take n s) ≡ false
unfolding has_prefix
has_prefix-take [] s n h = absurd (cc)
has_prefix-take (x ∷ p) [] n h = rw (take_nil n) refl
has_prefix-take (x ∷ p) (c ∷ s) zero h = refl
has_prefix-take (x ∷ p) (c ∷ s) (suc n) h = elim (Bool-cases (c == x)) [
  | inl same ↦ rw same (has_prefix-take p s n (rw same at h))
  | inr other ↦ rw other refl
]

find_special-take :
    (special : List Bytes) (s : Bytes) (n : ℕ)
    → find_special special s ≡ none
    → find_special special (take n s) ≡ none
unfolding find_special
find_special-take [] s n h = refl
find_special-take (t ∷ ts) s n h = elim (Bool-cases (has_prefix t s)) [
  | inl now ↦ absurd (none_ne (rw now at h))
  | inr later ↦ rw (has_prefix-take t s n later) (find_special-take ts s n (rw later at h))
]
  where
    none_ne : {a : Bytes} → some a ≡ none → ⊥
    none_ne e = cc

index_from-lower :
    (i : ℕ) (s sub : Bytes) (k : ℕ)
    → k ≤ length s
    → has_prefix sub (drop k s) ≡ true
    → (j : ℕ) × (index_from i s sub ≡ some j) × (j ≤ i + k)
unfolding index_from
index_from-lower i [] sub zero h e = (i, rw e refl, omega arith)
index_from-lower i [] sub (suc k) h e = absurd (omega arith)
index_from-lower i (c ∷ cs) sub zero h e = (i, rw e refl, omega arith)
index_from-lower i (c ∷ cs) sub (suc k) h e = elim (Bool-cases (has_prefix sub (c ∷ cs))) [
  | inl now ↦ (i, rw now refl, omega arith)
  | inr later ↦
      let (j, found, low) = index_from-lower (suc i) cs sub k (omega arith) e in
      (j, rw later found, omega arith)
]

nearer-le : (o : Option ℕ) (next : ℕ) → nearer o next ≤ next
unfolding nearer
nearer-le none next = omega arith
nearer-le (some idx) next = ground arith

nearer-le_idx : (idx next : ℕ) → nearer (some idx) next ≤ idx
unfolding nearer
nearer-le_idx idx next = ground arith

next_special-le : (special : List Bytes) (s : Bytes) (next : ℕ) → next_special special s next ≤ next
unfolding next_special
next_special-le [] s next = omega arith
next_special-le (t ∷ ts) s next =
    omega (arith, next_special-le ts s (nearer (index_of s t) next), nearer-le (index_of s t) next)

-- No token begins before the position that the search gives.
next_special-lower :
    (special : List Bytes) (s : Bytes) (next k : ℕ)
    → k ≤ length s
    → k < next_special special s next
    → find_special special (drop k s) ≡ none
unfolding next_special find_special
next_special-lower [] s next k h l = refl
next_special-lower (t ∷ ts) s next k h l = elim (Bool-cases (has_prefix t (drop k s))) [
  | inl now ↦
      let (j, found, low) = index_from-lower 0 s t k h now in
      let found2 : index_of s t ≡ some j = unfold index_of in found in
      let bound : next_special ts s (nearer (some j) next) ≤ nearer (some j) next =
        next_special-le ts s (nearer (some j) next) in
      let l2 : k < next_special ts s (nearer (some j) next) = rw found2 at l in
      absurd (omega (arith, bound, l2, low, nearer-le_idx j next))
  | inr later ↦ rw later (next_special-lower ts s (nearer (index_of s t) next) k h l)
]

-- The segments that a text falls into.
abbrev pub IsSegment : List Bytes → TextSegment → Type 0
IsSegment special g =
    ((g.is_special ≡ true) × IsOneOf g.text special)
    ⊎ ((g.is_special ≡ false) × HasNone special g.text)

abbrev pub Split : List Bytes → Bytes → Option (List TextSegment) → Type 0
Split special s out =
    (segments : List TextSegment) × (out ≡ some segments)
    × (join (map (λ g. g.text) segments) ≡ s)
    × All (IsSegment special) segments

abbrev pub NonEmpty : Bytes → Type 0
NonEmpty t = 0 < length t

IsOneOf-NonEmpty :
    (special : List Bytes) (tok : Bytes) → All NonEmpty special → IsOneOf tok special → NonEmpty tok
IsOneOf-NonEmpty [] tok _ m = elim m [ ]
IsOneOf-NonEmpty (t ∷ ts) tok (h, hs) (inl e) = rw e h
IsOneOf-NonEmpty (t ∷ ts) tok (h, hs) (inr m) = IsOneOf-NonEmpty ts tok hs m

split_fuel-special :
    (fuel : ℕ) (special : List Bytes) (c : ℕ) (cs tok : Bytes) (more : List TextSegment)
    → find_special special (c ∷ cs) ≡ some tok
    → split_fuel fuel special (drop (length tok) (c ∷ cs)) ≡ some more
    → split_fuel (suc fuel) special (c ∷ cs) ≡ some (special_segment tok ∷ more)
split_fuel-special fuel special c cs tok more e m = unfold split_fuel in rw (e, m, split_fuel) refl

split_fuel-plain :
    (fuel : ℕ) (special : List Bytes) (c : ℕ) (cs : Bytes) (more : List TextSegment)
    → let n = next_special special (c ∷ cs) (length (c ∷ cs)) in
      find_special special (c ∷ cs) ≡ none
      → ltb 0 n ≡ true
      → split_fuel fuel special (drop n (c ∷ cs)) ≡ some more
      → split_fuel (suc fuel) special (c ∷ cs) ≡ some (plain_segment (take n (c ∷ cs)) ∷ more)
split_fuel-plain fuel special c cs more e p m = unfold split_fuel in rw (e, p, m, split_fuel) refl

HasNone-take :
    (special : List Bytes) (s : Bytes) (n : ℕ)
    → n ≤ length s
    → ((k : ℕ) → k < n → find_special special (drop k s) ≡ none)
    → HasNone special (take n s)
HasNone-take special s n h none_here = HasNone-of special (take n s) λ k l.
    let short : k < n = omega (arith, l, length-take n s) in
    rw (drop-take k n s) (find_special-take special (drop k s) (n - k) (none_here k short))
  where
    drop-take : (k n : ℕ) (s : Bytes) → drop k (take n s) ≡ take (n - k) (drop k s)
    drop-take zero n s = let e : n - 0 ≡ n = omega arith in rw e refl
    drop-take (suc k) zero s = let e : 0 - suc k ≡ 0 = omega arith in rw e refl
    drop-take (suc k) (suc n) [] =
        let e : suc n - suc k ≡ n - k = omega arith in rw e (sym (take_nil (n - k)))
    drop-take (suc k) (suc n) (c ∷ s) =
        let e : suc n - suc k ≡ n - k = omega arith in rw e (drop-take k n s)

index_from-le : (i : ℕ) (s sub : Bytes) (j : ℕ) → index_from i s sub ≡ some j → i ≤ j
unfolding index_from
index_from-le i [] sub j e = ground arith
index_from-le i (c ∷ cs) sub j e = elim (Bool-cases (has_prefix sub (c ∷ cs))) [
  | inl now ↦ le_of (rw now at e)
  | inr later ↦ omega (arith, index_from-le (suc i) cs sub j (rw later at e))
]
  where
    le_of : {i j : ℕ} → some i ≡ some j → i ≤ j
    le_of e = ground arith

nearer-pos :
    (o : Option ℕ) (next : ℕ) → ((j : ℕ) → o ≡ some j → 0 < j) → 0 < next → 0 < nearer o next
unfolding nearer
nearer-pos none next h p = p
nearer-pos (some j) next h p = ground (arith, h j refl)

index_of-pos :
    (c : ℕ) (cs sub : Bytes)
    → has_prefix sub (c ∷ cs) ≡ false
    → (j : ℕ) → index_of (c ∷ cs) sub ≡ some j
    → 0 < j
unfolding index_of index_from
index_of-pos c cs sub h j e = index_from-le 1 cs sub j (rw h at e)

find_special-pos :
    (special : List Bytes) (c : ℕ) (cs : Bytes) (next : ℕ)
    → find_special special (c ∷ cs) ≡ none
    → 0 < next
    → 0 < next_special special (c ∷ cs) next
unfolding find_special next_special
find_special-pos [] c cs next e p = p
find_special-pos (t ∷ ts) c cs next e p = elim (Bool-cases (has_prefix t (c ∷ cs))) [
  | inl now ↦ absurd (none_ne (rw now at e))
  | inr later ↦
      find_special-pos ts c cs (nearer (index_of (c ∷ cs) t) next) (rw later at e)
        (nearer-pos (index_of (c ∷ cs) t) next (index_of-pos c cs t later) p)
]
  where
    none_ne : {a : Bytes} → some a ≡ none → ⊥
    none_ne e = cc

split_fuel-Split :
    (fuel : ℕ) (special : List Bytes) (s : Bytes)
    → All NonEmpty special
    → length s < fuel
    → Split special s (split_fuel fuel special s)
split_fuel-Split zero special s ne h = absurd (omega arith)
split_fuel-Split (suc fuel) special [] ne h = ([], (unfold split_fuel in refl), refl, tt)
split_fuel-Split (suc fuel) special (c ∷ cs) ne h =
    elim (Option-cases (find_special special (c ∷ cs))) [
      | inl plain ↦
          let n = next_special special (c ∷ cs) (length (c ∷ cs)) in
          let p = find_special-pos special c cs (length (c ∷ cs)) plain (omega arith) in
          let (more, run, whole, fine) =
            split_fuel-Split fuel special (drop n (c ∷ cs)) ne
              (omega (arith, p, h, length-drop n (c ∷ cs))) in
          (
            plain_segment (take n (c ∷ cs)) ∷ more,
            split_fuel-plain fuel special c cs more plain (lt→ltb 0 n p) run,
            ap (λ t. take n (c ∷ cs) ++ t) whole ∙ take-append-drop n (c ∷ cs),
            (
              inr (
                refl,
                HasNone-take special (c ∷ cs) n (next_special-le special (c ∷ cs) (length (c ∷ cs)))
                    λ k l.
                      next_special-lower special (c ∷ cs) (length (c ∷ cs)) k
                        (omega (arith, l, next_special-le special (c ∷ cs) (length (c ∷ cs)))) l,
              ),
              fine,
            ),
          )
      | inr (tok, e) ↦
          let (fits, there) = find_special-some special (c ∷ cs) tok e in
          let p = IsOneOf-NonEmpty special tok ne there in
          let (more, run, whole, fine) =
            split_fuel-Split fuel special (drop (length tok) (c ∷ cs)) ne
              (omega (arith, p, h, length-drop (length tok) (c ∷ cs))) in
          (
            special_segment tok ∷ more,
            split_fuel-special fuel special c cs tok more e run,
            ap (λ t. tok ++ t) whole ∙ sym (has_prefix-append tok (c ∷ cs) fits),
            (inl (refl, there), fine),
          )
    ]

-- `splitBySpecial` ends on every text when no special token is empty. Its segments, one behind the
-- other, are the text; a special segment is one of the tokens, and in a plain one no token occurs.
pub split_by_special-Split :
    (special : List Bytes) (s : Bytes)
    → All NonEmpty special
    → Split special s (split_by_special s special)
split_by_special-Split [] s ne = (
  plain_segment s ∷ [],
  (unfold split_by_special in refl),
  append-nil s,
  (inr (refl, HasNone-of [] s λ k l. unfold find_special in refl), tt),
)
split_by_special-Split (t ∷ ts) s ne =
    let (out, run, whole, fine) = split_fuel-Split (suc (length s)) (t ∷ ts) s ne (omega arith) in
    (out, (unfold split_by_special in run), whole, fine)
