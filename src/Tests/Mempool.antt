-- ===== src/Tests/Mempool.antt =====
-- Concrete caches and slabs for the theorems about pkg/model/mempool and pkg/dtype.
use gogguf.Base.{
  ℕ, ◌+◌, ◌-◌, ◌*◌, ◌^◌, ◌<◌, ◌≡◌, refl, ◌↔◌, none, some, Option, [], ◌∷◌, arith, get_elem?, take,
  ltb, if◌then◌else◌, All-get_elem?,
}
use gogguf.Base.Int.{pos, negsuc}
use gogguf.Base.Result.{ok, err}
use gogguf.Dtype.{find, blocks, names, data_size, string}
use gogguf.Base.Bytes.{codes}
use gogguf.Dtype.Size.{data_size-blocks, names-blocks}
use gogguf.Mempool.Arena.{Arena, alloc}
use gogguf.Mempool.Arena.Disjoint.{Appends, alloc-Appends}
use gogguf.Mempool.Kv.{Layer, Kv, KvError, set_layer, append_n, ensure_room, drop_oldest, new_kv}
use gogguf.Mempool.Kv.Refine.{Fits, IsValid, Extends, append_n-Extends, append_n-eq-overflow}
use gogguf.Mempool.Kv.Room.{Loses, drop_oldest-Loses, MakesRoom, ensure_room-fits}
use gogguf.Mempool.Kv.New.{IsNew, IsSoundSlab, new_kv-IsValid}

-- Room for four tokens of two values each, three in use.
abbrev some_layer : Layer ℕ
some_layer = record {
  k = 1 ∷ 2 ∷ 3 ∷ 4 ∷ 5 ∷ 6 ∷ 0 ∷ 0 ∷ [];
  v = 11 ∷ 12 ∷ 13 ∷ 14 ∷ 15 ∷ 16 ∷ 0 ∷ 0 ∷ [];
  n = 3;
}

abbrev some_cache : Kv ℕ
some_cache = record { layers = some_layer ∷ []; kv_dim = 2; max_seq = 4; length = 3 }

some_cache-IsValid : IsValid some_cache
some_cache-IsValid = record {
  some_room = omega arith;
  fits = λ i l e.
      All-get_elem? (Fits 2 4) (some_layer ∷ []) i
        (record { k_whole = refl; v_whole = refl; within = omega arith }, tt) e;
}

append_n-Extends_example :
    (l' : Layer ℕ) × (append_n some_cache (pos 0) (7 ∷ 8 ∷ []) (17 ∷ 18 ∷ []) (pos 1)
      ≡ ok (set_layer some_cache 0 l'))
    × Extends 2 4 1 (take (1 * 2) (7 ∷ 8 ∷ [])) (take (1 * 2) (17 ∷ 18 ∷ [])) some_layer l'
    × IsValid (set_layer some_cache 0 l')
append_n-Extends_example =
    append_n-Extends some_cache 0 1 (7 ∷ 8 ∷ []) (17 ∷ 18 ∷ []) some_layer some_cache-IsValid refl
      (omega arith) (omega arith) (omega arith) (omega arith)

append_n-eq-overflow_example :
    (append_n some_cache (pos 0) (7 ∷ 8 ∷ 9 ∷ 9 ∷ []) (7 ∷ 8 ∷ 9 ∷ 9 ∷ []) (pos 2)
      ≡ err KvError.overflow)
    ↔ (4 < 3 + 2)
append_n-eq-overflow_example =
    append_n-eq-overflow some_cache 0 2 (7 ∷ 8 ∷ 9 ∷ 9 ∷ []) (7 ∷ 8 ∷ 9 ∷ 9 ∷ []) some_layer
      some_cache-IsValid refl (omega arith) (omega arith) (omega arith)

drop_oldest-Loses_example :
    (l' : Layer ℕ) × (get_elem? (drop_oldest some_cache (pos 2)).layers 0 ≡ some l')
    × Loses 2 4 2 some_layer l'
    × IsValid (drop_oldest some_cache (pos 2))
    × ((drop_oldest some_cache (pos 2)).length ≡ 3 - 2)
drop_oldest-Loses_example = drop_oldest-Loses some_cache 2 0 some_layer some_cache-IsValid refl

ensure_room-fits_example : MakesRoom some_cache 3 (ensure_room some_cache (pos 3))
ensure_room-fits_example = ensure_room-fits some_cache 3 some_cache-IsValid (omega arith)

abbrev some_slab : Arena ℕ
some_slab = record { buf = 1 ∷ 2 ∷ 3 ∷ 4 ∷ []; off = 2 }

new_kv-IsValid_example :
    (c : Kv ℕ) × (rest : Option (Arena ℕ)) × (new_kv 0 (pos 2) (pos 1) (pos 1) (some some_slab)
      ≡ ok (c, rest))
    × IsNew 0 (pos 2) (pos 1) (pos 1) c
    × IsSoundSlab 0 rest
new_kv-IsValid_example =
    new_kv-IsValid 0 (pos 2) (pos 1) (pos 1) (some some_slab) (omega arith) (omega arith)

alloc-Appends_example :
    Appends 3 some_slab (alloc 0 some_slab (pos 3)).0 (alloc 0 some_slab (pos 3)).1
alloc-Appends_example = alloc-Appends 0 some_slab 3 (omega arith) (omega arith)

-- Two blocks of 32 values, in an encoding with blocks of 34 bytes.
find_eight : find 8 blocks ≡ some (record { block_size = 34; values_in_block = 32 })
unfolding find blocks
find_eight = refl

data_size-blocks_example :
    data_size 8 (32 ∷ 2 ∷ [])
    ≡ some (if ltb (2 * 34) (2 ^ 63) then pos (2 * 34) else negsuc (2 ^ 64 - 2 * 34 - 1))
data_size-blocks_example =
    data_size-blocks 8 (32 ∷ 2 ∷ []) 2 (record { block_size = 34; values_in_block = 32 }) find_eight
      (omega arith) (omega arith) (omega arith)

-- A type with a name, and one without.
string_of_f16 : string 1 ≡ codes "float16"
unfolding string find names
string_of_f16 = refl

string_of_1205 : string 1205 ≡ codes "unknown DType(1205)"
unfolding string find names
string_of_1205 = refl

names-blocks_example : (find 4 names ≡ none) ↔ (find 4 blocks ≡ none)
names-blocks_example = names-blocks 4
