-- ===== src/Dtype.antt =====
-- pkg/dtype/dtype.go: the element encodings of tensors, their block sizes and names, `DataSize` and
-- `String`. A `DType` is its number; every `uint32` can stand in a file.
pub mod Size
use gogguf.Base.{
  ℕ, zero, suc, ◌+◌, ◌-◌, ◌*◌, ◌/◌, ◌%◌, ◌^◌, ◌≤◌, ◌<◌, min, max, ◌≡◌, refl, sym, ap, ◌∙◌, ◌≢◌, ◌↔◌,
  ◌⊎◌, inl, inr, Bool, true, false, not, ◌&&◌, ◌||◌, Option, none, some, List, [], ◌∷◌, ◌++◌, map,
  append-nil, append_assoc, arith, ltb, leb, ◌==◌, if◌then◌else◌, ltb→lt, ltb→le, lt→ltb, le→ltb,
  leb→le, ==_iff, ==_self, Bool-cases, Option-cases, length, get_elem?, set, take, drop, replicate,
  length-append, length-replicate, length-take, length-drop, take-append-drop, take_of_length-le,
  drop_of_length-le, take-append, drop_nil, take_nil, drop-append, drop-length-append,
  take-length-append, take-append_exact, drop-append_exact, drop-drop, take-take, take-drop,
  take-add, length-set, get_elem?-set_self, get_elem?-set_ne, get_elem?-set_inv, length-map,
  get_elem?-map, get_elem?-map_inv, All, All-get_elem?, All-set,
}
use gogguf.Base.Bytes.{Bytes, codes}
use gogguf.Base.Int.{ℤ, signed64}

-- `blockInfo`.
pub record BlockInfo : Type 0 where
  pub block_size : ℕ
  pub values_in_block : ℕ

abbrev pub f32 : ℕ
f32 = 0

abbrev pub f16 : ℕ
f16 = 1

abbrev pub q4_0 : ℕ
q4_0 = 2

abbrev pub q8_0 : ℕ
q8_0 = 8

abbrev pub q6_k : ℕ
q6_k = 14

abbrev qk : ℕ
qk = 32

abbrev qk_k : ℕ
qk_k = 256

abbrev k_scale_size : ℕ
k_scale_size = 12

abbrev info : ℕ → ℕ → BlockInfo
info size values = record { block_size = size; values_in_block = values }

-- The table `blocks`.
unfoldable pub blocks : List (ℕ × BlockInfo)
blocks =
    (0, info 4 1)
    ∷ (1, info 2 1)
    ∷ (2, info (2 + qk / 2) qk)
    ∷ (3, info (4 + qk / 2) qk)
    ∷ (6, info (2 + 4 + qk / 2) qk)
    ∷ (7, info (4 + 4 + qk / 2) qk)
    ∷ (8, info (2 + qk) qk)
    ∷ (9, info (2 + 2 + qk) qk)
    ∷ (10, info (qk_k / 16 + qk_k / 4 + 2 + 2) qk_k)
    ∷ (11, info (qk_k / 8 + qk_k / 4 + 12 + 2) qk_k)
    ∷ (12, info (2 * 2 + k_scale_size + qk_k / 2) qk_k)
    ∷ (13, info (2 * 2 + k_scale_size + qk_k / 8 + qk_k / 2) qk_k)
    ∷ (14, info (qk_k / 2 + qk_k / 4 + qk_k / 16 + 2) qk_k)
    ∷ (15, info (4 + qk_k + 2 * qk_k / 16) qk_k)
    ∷ (16, info 1 1)
    ∷ (17, info 2 1)
    ∷ (18, info 4 1)
    ∷ []

-- The table `names`.
unfoldable pub names : List (ℕ × Bytes)
names =
    (0, codes "float32")
    ∷ (1, codes "float16")
    ∷ (2, codes "q4_0")
    ∷ (3, codes "q4_1")
    ∷ (6, codes "q5_0")
    ∷ (7, codes "q5_1")
    ∷ (8, codes "q8_0")
    ∷ (9, codes "q8_1")
    ∷ (10, codes "q2_k")
    ∷ (11, codes "q3_k")
    ∷ (12, codes "q4_k")
    ∷ (13, codes "q5_k")
    ∷ (14, codes "q6_k")
    ∷ (15, codes "q8_k")
    ∷ (16, codes "int8")
    ∷ (17, codes "int16")
    ∷ (18, codes "int32")
    ∷ []

-- A read of such a table.
unfoldable pub find {ℓ} : {V : Type ℓ} → ℕ → List (ℕ × V) → Option V
find k [] = none
find k ((j, v) ∷ m) = if j == k then some v else find k m

abbrev pub u64_mod : ℕ
u64_mod = 2 ^ 64

-- The loop of `DataSize` and of `ValuesCount`: a product of `uint64`.
unfoldable pub values_count : ℕ → List ℕ → ℕ
values_count acc [] = acc
values_count acc (d ∷ ds) = values_count (acc * d % u64_mod) ds

-- The size that `DataSize` computes in `uint64`; `none` is the panic on an unknown type.
unfoldable pub data_size_bits : ℕ → List ℕ → Option ℕ
data_size_bits t dims = elim (find t blocks) [
  | none ↦ none
  | some b ↦ some (values_count 1 dims / b.values_in_block * b.block_size % u64_mod)
]

-- `DataSize`, with the conversion of the size to `int64`.
unfoldable pub data_size : ℕ → List ℕ → Option ℤ
unfolding data_size_bits
data_size t dims = elim (data_size_bits t dims) [ none ↦ none | some n ↦ some (signed64 n) ]

-- The decimal digits of a number; a digit has one more fuel than it needs.
digits_fuel : ℕ → ℕ → Bytes
digits_fuel zero n = []
digits_fuel (suc fuel) n =
    let rest = digits_fuel fuel (n / 10) in (if ltb n 10 then [] else rest) ++ (48 + n % 10) ∷ []

-- `%d` of a `uint32`, which has at most ten digits.
unfoldable pub decimal : ℕ → Bytes
unfolding digits_fuel
decimal n = digits_fuel 10 n

-- `String`.
unfoldable pub string : ℕ → Bytes
unfolding decimal
string t = elim (find t names) [
  | none ↦ codes "unknown DType(" ++ (decimal t ++ codes ")")
  | some name ↦ name
]
