-- ===== src/Mempool/Kv.antt =====
-- pkg/model/mempool/kv.go: `KV`, the K and V buffers of every layer. A `float32` is any small type, since
-- the cache only moves such values; `[]float32` is a list whose capacity is its length. An argument
-- of type `int` that the code tests for being negative is an integer.
mod Copy
pub mod Refine
pub mod Room
pub mod New
use gogguf.Base.{
  ℕ, zero, suc, ◌+◌, ◌-◌, ◌*◌, ◌/◌, ◌%◌, ◌^◌, ◌≤◌, ◌<◌, min, max, ◌≡◌, refl, sym, ap, ◌∙◌, ◌≢◌, ◌↔◌,
  ◌⊎◌, inl, inr, Bool, true, false, not, ◌&&◌, ◌||◌, Option, none, some, List, [], ◌∷◌, ◌++◌, map,
  append-nil, append_assoc, arith, ltb, leb, ◌==◌, if◌then◌else◌, ltb→lt, ltb→le, lt→ltb, le→ltb,
  leb→le, ==_iff, ==_self, Bool-cases, Option-cases, length, get_elem?, set, take, drop, replicate,
  length-append, length-replicate, length-take, length-drop, take-append-drop, take_of_length-le,
  take-append, drop_nil, take_nil, drop-append, drop-length-append, take-length-append, drop-drop,
  take-take, take-drop, take-add, length-set, get_elem?-set_self, get_elem?-set_ne, All,
  All-get_elem?, All-set,
}
use gogguf.Base.Int.{ℤ, pos, negsuc, pos_part, signed64}
use gogguf.Base.Result.{Result, ok, err, ◌>>=◌}
use gogguf.Mempool.Arena.{Arena, alloc}

pub data KvError : Type 0 where
  invalid overflow panics : KvError

-- `kvLayer`.
pub record Layer (A : Type 0) : Type 0 where
  pub k : List A
  pub v : List A
  pub n : ℕ

-- `KV`.
pub record Kv (A : Type 0) : Type 0 where
  pub layers : List (Layer A)
  pub kv_dim : ℕ
  pub max_seq : ℕ
  pub length : ℕ

module _ {A : Type 0} where
  -- `xs[lo:hi]`, which panics out of range.
  unfoldable pub slice : List A → ℕ → ℕ → Result KvError (List A)
  slice xs lo hi =
      if leb lo hi && leb hi (length xs) then ok (take (hi - lo) (drop lo xs)) else err panics

  -- `copy(dst[off:off+dim], src)` for a source of `dim` elements.
  unfoldable pub copy_at : List A → ℕ → List A → List A
  copy_at dst off src = take off dst ++ (src ++ drop (off + length src) dst)

  -- `copy(dst[off:off+dim], src[from:from+dim])`.
  unfoldable pub copy_row : ℕ → List A → ℕ → List A → ℕ → Result KvError (List A)
  unfolding slice copy_at
  copy_row dim dst off src from = do
    _ ← slice dst off (off + dim)
    row ← slice src from (from + dim)
    ok (copy_at dst off row)

  -- The loop of `AppendN`: `todo` rounds are left, and the next one has number `i`.
  unfoldable pub append_rows : ℕ → ℕ → ℕ → List A → List A → Layer A → Result KvError (Layer A)
  append_rows dim zero i k v l = ok l
  append_rows dim (suc todo) i k v l = do
    k' ← copy_row dim l.k (l.n * dim) k (i * dim)
    v' ← copy_row dim l.v (l.n * dim) v (i * dim)
    append_rows dim todo (i + 1) k v (record { k = k'; v = v'; n = l.n + 1 })

  unfoldable pub set_layer : Kv A → ℕ → Layer A → Kv A
  set_layer c i l = record c { layers = set c.layers i l }

  unfoldable pub append_to : Kv A → ℕ → List A → List A → ℕ → Layer A → Result KvError (Kv A)
  unfolding append_rows set_layer
  append_to c i k v n l =
      if ltb c.max_seq (l.n + n)
      then err overflow
      else (do l' ← append_rows c.kv_dim n 0 k v l; ok (set_layer c i l'))

  unfoldable pub append_n : Kv A → ℤ → List A → List A → ℤ → Result KvError (Kv A)
  unfolding append_to
  append_n c (pos i) k v (pos n) =
      if ltb n 1
      then err invalid
      else elim (get_elem? c.layers i) [ none ↦ err invalid | some l ↦ append_to c i k v n l ]
  append_n c _ k v _ = err invalid

  unfoldable pub append : Kv A → ℤ → List A → List A → Result KvError (Kv A)
  unfolding append_n
  append c layer k v = append_n c layer k v (pos 1)

  unfoldable pub bump_to : Kv A → ℕ → ℕ → Layer A → Result KvError (Kv A)
  unfolding set_layer
  bump_to c i n l =
      if ltb c.max_seq (l.n + n)
      then err overflow
      else ok (set_layer c i (record l { n = l.n + n }))

  unfoldable pub bump : Kv A → ℤ → ℤ → Result KvError (Kv A)
  unfolding bump_to
  bump c (pos i) (pos n) =
      if ltb n 1
      then err invalid
      else elim (get_elem? c.layers i) [ none ↦ err invalid | some l ↦ bump_to c i n l ]
  bump c _ _ = err invalid

  unfoldable pub advance_n : Kv A → ℤ → Kv A
  advance_n c (pos n) = if ltb n 1 then c else record c { length = c.length + n }
  advance_n c (negsuc _) = c

  unfoldable pub advance : Kv A → Kv A
  unfolding advance_n
  advance c = advance_n c (pos 1)

  -- `KLayer` and `VLayer` of a layer.
  unfoldable pub k_rows : ℕ → Layer A → List A
  k_rows dim l = take (l.n * dim) l.k

  unfoldable pub v_rows : ℕ → Layer A → List A
  v_rows dim l = take (l.n * dim) l.v

  unfoldable pub k_layer : Kv A → ℕ → Result KvError (List A)
  unfolding k_rows
  k_layer c i = elim (get_elem? c.layers i) [ none ↦ err panics | some l ↦ ok (k_rows c.kv_dim l) ]

  unfoldable pub v_layer : Kv A → ℕ → Result KvError (List A)
  unfolding v_rows
  v_layer c i = elim (get_elem? c.layers i) [ none ↦ err panics | some l ↦ ok (v_rows c.kv_dim l) ]

  -- `copy(buf[:keep*dim], buf[drop*dim:n*dim])`; the ranges overlap, and `copy` allows it.
  unfoldable pub move_down : ℕ → ℕ → ℕ → List A → List A
  unfolding copy_at
  move_down dim dropped n buf =
      copy_at buf 0 (take ((n - dropped) * dim) (drop (dropped * dim) buf))

  unfoldable pub drop_oldest_rows : ℕ → ℕ → Layer A → Layer A
  unfolding move_down
  drop_oldest_rows dim n l =
      let dropped = min n l.n in
      let keep = l.n - dropped in
      if l.n == 0
      then l
      else if ltb 0 keep
      then record { k = move_down dim dropped l.n l.k; v = move_down dim dropped l.n l.v; n = keep }
      else record l { n = keep }

  unfoldable pub drop_oldest : Kv A → ℤ → Kv A
  unfolding drop_oldest_rows
  drop_oldest c (negsuc _) = c
  drop_oldest c (pos n) = if ltb n 1 then c else record c {
    layers = map (drop_oldest_rows c.kv_dim n) c.layers;
    length = if ltb n c.length then c.length - n else 0;
  }

  unfoldable pub drop_oldest_layer : Kv A → ℤ → ℤ → Kv A
  unfolding drop_oldest_rows set_layer
  drop_oldest_layer c (pos i) (pos n) = if ltb n 1 then c else elim (get_elem? c.layers i) [
    | none ↦ c
    | some l ↦ set_layer c i (drop_oldest_rows c.kv_dim n l)
  ]
  drop_oldest_layer c _ _ = c

  unfoldable pub layer_len : Kv A → ℤ → ℕ
  layer_len c (pos i) = elim (get_elem? c.layers i) [ none ↦ 0 | some l ↦ l.n ]
  layer_len c (negsuc _) = 0

  -- The loop of `TokensStored`.
  unfoldable pub most : ℕ → List (Layer A) → ℕ
  most best [] = best
  most best (l ∷ ls) = most (if ltb best l.n then l.n else best) ls

  unfoldable pub tokens_stored : Kv A → ℕ
  unfolding most
  tokens_stored c = most 0 c.layers

  unfoldable pub ensure_room : Kv A → ℤ → Kv A × ℕ
  unfolding tokens_stored drop_oldest
  ensure_room c (negsuc _) = (c, 0)
  ensure_room c (pos n) =
      let have = tokens_stored c in
      let excess = have + n - c.max_seq in
      if ltb n 1
      then (c, 0)
      else if leb (have + n) c.max_seq
      then (c, 0)
      else (drop_oldest c (pos excess), excess)

  abbrev pub clear : Layer A → Layer A
  clear l = record l { n = 0 }

  unfoldable pub reset : Kv A → Kv A
  reset c = record c { layers = map clear c.layers; length = 0 }

module _ {A : Type 0} (zero_value : A) where
  -- The loop of `NewKV`, with the slab if there is one. `make` panics on a negative length, and is
  -- taken to have the memory otherwise.
  unfoldable pub make_layers :
      ℕ → ℤ → Option (Arena A) → Result KvError (List (Layer A) × Option (Arena A))
  unfolding alloc
  make_layers zero size arena = ok ([], arena)
  make_layers (suc more) (negsuc m) none = err panics
  make_layers (suc more) (pos n) none = do
    (ls, arena) ← make_layers more (pos n) none
    ok (record { k = replicate n zero_value; v = replicate n zero_value; n = 0 } ∷ ls, arena)
  make_layers (suc more) size (some a) =
      let (b, ks) = alloc zero_value a size in
      let (c, vs) = alloc zero_value b size in
      do
        (ls, arena) ← make_layers more size (some c)
        ok (record { k = ks; v = vs; n = 0 } ∷ ls, arena)

  -- The size of a buffer is a product of `int`, which wraps around.
  unfoldable pub new_kv : ℤ → ℤ → ℤ → Option (Arena A) → Result KvError (Kv A × Option (Arena A))
  unfolding make_layers
  new_kv num_layers max_seq kv_dim arena =
      let rows = max 1 (pos_part max_seq) in
      let dim = pos_part kv_dim in
      do
        (ls, rest) ← make_layers (pos_part num_layers) (signed64 (rows * dim % 2 ^ 64)) arena
        ok (record { layers = ls; kv_dim = dim; max_seq = rows; length = 0 }, rest)
