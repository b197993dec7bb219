-- ===== src/Dtype/Size.antt =====
-- `DataSize` against whole blocks.
use gogguf.Base.{
  ℕ, ◌-◌, ◌*◌, ◌/◌, ◌%◌, ◌^◌, ◌<◌, ◌≡◌, refl, ◌∙◌, ◌↔◌, inl, inr, true, false, none, some, List, [],
  ◌∷◌, ltb, if◌then◌else◌, arith, ◌==◌, Bool-cases,
}
use gogguf.Base.Int.{pos, negsuc, signed64}
use gogguf.Dtype.{BlockInfo, blocks, find, values_count, data_size_bits, data_size, names, u64_mod}

-- The number of elements, without the wrap-around of `uint64`.
abbrev pub product : List ℕ → ℕ
product [] = 1
product (d ∷ ds) = d * product ds

-- No product of a leading part of the dimensions overflows.
abbrev pub NoOverflow : ℕ → List ℕ → Type 0
NoOverflow acc [] = Unit
NoOverflow acc (d ∷ ds) = (acc * d < u64_mod) × NoOverflow (acc * d) ds

values_count-product :
    (acc : ℕ) (ds : List ℕ) → NoOverflow acc ds → values_count acc ds ≡ acc * product ds
unfolding values_count
values_count-product acc [] h = omega arith
values_count-product acc (d ∷ ds) h =
    let e : acc * d % u64_mod ≡ acc * d = omega arith in
    rw e (values_count-product (acc * d) ds h.1 ∙ omega arith)

abbrev IsPositive : List (ℕ × BlockInfo) → Type 0
IsPositive [] = Unit
IsPositive ((_, b) ∷ m) = (0 < b.values_in_block) × IsPositive m

find-IsPositive :
    (t : ℕ) (m : List (ℕ × BlockInfo)) {b : BlockInfo}
    → IsPositive m
    → find t m ≡ some b
    → 0 < b.values_in_block
unfolding find
find-IsPositive t [] h e = absurd (cc)
find-IsPositive t ((j, a) ∷ m) {b} h e = elim (Bool-cases (j == t)) [
  | inl here ↦ let same : some a ≡ some b = rw here at e in let q : a ≡ b = cc in rw (← q) h.0
  | inr later ↦ find-IsPositive t m h.1 (rw later at e)
]

blocks-IsPositive : IsPositive blocks
unfolding blocks
blocks-IsPositive = omega arith

data_size_bits-blocks :
    (t : ℕ) (dims : List ℕ) (m : ℕ) (b : BlockInfo)
    → find t blocks ≡ some b
    → NoOverflow 1 dims
    → product dims ≡ m * b.values_in_block
    → m * b.block_size < u64_mod
    → data_size_bits t dims ≡ some (m * b.block_size)
unfolding data_size_bits
data_size_bits-blocks t dims m b known no_wrap whole small =
    let v : values_count 1 dims ≡ m * b.values_in_block =
      values_count-product 1 dims no_wrap ∙ omega (arith, whole) in
    let positive = find-IsPositive t blocks blocks-IsPositive known in
    let d : m * b.values_in_block / b.values_in_block ≡ m = cancel m b.values_in_block positive in
    let w : m * b.block_size % u64_mod ≡ m * b.block_size = omega arith in
    rw (known, data_size_bits) (rw (v, d, w))
  where
    cancel : (m v : ℕ) → 0 < v → m * v / v ≡ m
    cancel m v h = grind arith

-- `DataSize` of a known type, for dimensions whose product makes m whole blocks, where neither a
-- product of the leading dimensions nor the size in bytes overflows `uint64`: it is m times the size of a
-- block if that is below 2 ^ 63, and otherwise the negative number 2 ^ 64 below it.
pub data_size-blocks :
    (t : ℕ) (dims : List ℕ) (m : ℕ) (b : BlockInfo)
    → find t blocks ≡ some b
    → NoOverflow 1 dims
    → product dims ≡ m * b.values_in_block
    → m * b.block_size < u64_mod
    → data_size t dims
      ≡ some (
          if ltb (m * b.block_size) (2 ^ 63)
          then pos (m * b.block_size)
          else negsuc (2 ^ 64 - m * b.block_size - 1))
data_size-blocks t dims m b known no_wrap whole small =
    let bits = data_size_bits-blocks t dims m b known no_wrap whole small in
    unfold data_size signed64 in rw (bits, data_size) refl

abbrev SameKeys {ℓ κ} : {V : Type ℓ} {W : Type κ} → List (ℕ × V) → List (ℕ × W) → Type 0
SameKeys [] [] = Unit
SameKeys ((i, _) ∷ m) ((j, _) ∷ m') = (i ≡ j) × SameKeys m m'
SameKeys _ _ = ⊥

find-SameKeys :
    {V W : Type 0} (t : ℕ) (m : List (ℕ × V)) (m' : List (ℕ × W))
    → SameKeys m m'
    → (find t m ≡ none) ↔ (find t m' ≡ none)
unfolding find
find-SameKeys t [] [] h = (λ _. refl, λ _. refl)
find-SameKeys t [] (e ∷ m') h = absurd h
find-SameKeys t (e ∷ m) [] h = absurd h
find-SameKeys t ((i, v) ∷ m) ((j, w) ∷ m') h =
    let (there, back) = find-SameKeys t m m' h.1 in
    elim (Bool-cases (i == t)) [
      | inl here ↦
          let here' : (j == t) ≡ true = rw (← h.0) here in
          (λ e. absurd (cc (rw here at e)), λ e. absurd (cc (rw here' at e)))
      | inr later ↦
          let later' : (j == t) ≡ false = rw (← h.0) later in rw (later, later') (there, back)
    ]

-- `String` has a name for exactly the types whose size `DataSize` knows.
pub names-blocks : (t : ℕ) → (find t names ≡ none) ↔ (find t blocks ≡ none)
unfolding names blocks
names-blocks t = find-SameKeys t names blocks (omega arith)
