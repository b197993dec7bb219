-- ===== src/Mempool/Kv/New.antt =====
-- pkg/model/mempool/kv.go: what `NewKV` gives.
use gogguf.Base.{
  ℕ, zero, suc, ◌*◌, ◌%◌, ◌^◌, ◌<◌, length, max, ◌≡◌, refl, ap, ◌∙◌, Option, none, some, List, [],
  ◌∷◌, arith, replicate, length-replicate, All, All-get_elem?,
}
use gogguf.Base.Int.{ℤ, pos, pos_part, signed64, signed64-pos}
use gogguf.Base.Result.{Result, ok}
use gogguf.Mempool.Arena.{Arena, alloc}
use gogguf.Mempool.Arena.Disjoint.{IsSound, length-alloc}
use gogguf.Mempool.Kv.{Layer, Kv, tokens_stored, make_layers, new_kv, KvError}
use gogguf.Mempool.Kv.Refine.{Fits, IsValid}
use gogguf.Mempool.Kv.Room.{most-le}

module _ {A : Type 0} (zero_value : A) where
  -- The slab, if there is one, is sound.
  abbrev pub IsSoundSlab : Option (Arena A) → Type 0
  IsSoundSlab none = Unit
  IsSoundSlab (some a) = IsSound a

  -- What the loop of `NewKV` gives for buffers of `rows` times `dim` elements.
  abbrev MakesLayers : ℕ → ℕ → ℕ → Result KvError (List (Layer A) × Option (Arena A)) → Type 0
  MakesLayers more dim rows r =
      (ls : List (Layer A)) × (rest : Option (Arena A)) × (r ≡ ok (ls, rest))
      × All (λ l. Fits dim rows l × (l.n ≡ 0)) ls
      × (length ls ≡ more)
      × IsSoundSlab rest

  -- A layer with a buffer of its own for the keys, one for the values, and nothing in them.
  abbrev new_layer : List A → List A → Layer A
  new_layer ks vs = record { k = ks; v = vs; n = 0 }

  make_layers_alone :
      (more n : ℕ) (ls : List (Layer A)) (rest : Option (Arena A))
      → make_layers zero_value more (pos n) none ≡ ok (ls, rest)
      → make_layers zero_value (suc more) (pos n) none
        ≡ ok (new_layer (replicate n zero_value) (replicate n zero_value) ∷ ls, rest)
  make_layers_alone more n ls rest run = unfold make_layers in rw (run, make_layers) refl

  make_layers_slab :
      (more n : ℕ) (a b c : Arena A) (ks vs : List A) (ls : List (Layer A))
      (rest : Option (Arena A))
      → alloc zero_value a (pos n) ≡ (b, ks)
      → alloc zero_value b (pos n) ≡ (c, vs)
      → make_layers zero_value more (pos n) (some c) ≡ ok (ls, rest)
      → make_layers zero_value (suc more) (pos n) (some a) ≡ ok (new_layer ks vs ∷ ls, rest)
  make_layers_slab more n a b c ks vs ls rest first second run =
      unfold make_layers in rw (first, second, run, make_layers) refl

  make_layers-MakesLayers :
      (more dim rows : ℕ) (arena : Option (Arena A))
      → IsSoundSlab arena
      → MakesLayers more dim rows (make_layers zero_value more (pos (rows * dim)) arena)
  make_layers-MakesLayers zero dim rows arena h =
      ([], arena, (unfold make_layers in refl), tt, refl, h)
  make_layers-MakesLayers (suc more) dim rows none h =
      let len = length-replicate (rows * dim) zero_value in
      let (ls, rest, run, fine, count, sound) = make_layers-MakesLayers more dim rows none tt in
      (
        new_layer (replicate (rows * dim) zero_value) (replicate (rows * dim) zero_value) ∷ ls,
        rest,
        make_layers_alone more (rows * dim) ls rest run,
        ((record { k_whole = len; v_whole = len; within = omega arith }, refl), fine),
        ap suc count,
        sound,
      )
  make_layers-MakesLayers (suc more) dim rows (some a) h =
      let first = length-alloc zero_value a (rows * dim) h in
      let b = (alloc zero_value a (pos (rows * dim))).0 in
      let second = length-alloc zero_value b (rows * dim) first.1 in
      let c = (alloc zero_value b (pos (rows * dim))).0 in
      let (ls, rest, run, fine, count, sound) =
        make_layers-MakesLayers more dim rows (some c) second.1 in
      (
        new_layer (alloc zero_value a (pos (rows * dim))).1
              (alloc zero_value b (pos (rows * dim))).1
            ∷ ls,
        rest,
        make_layers_slab more (rows * dim) a b c _ _ ls rest refl refl run,
        ((record { k_whole = first.0; v_whole = second.0; within = omega arith }, refl), fine),
        ap suc count,
        sound,
      )

  -- A new cache: negative arguments count as 0, and there is room for at least one token.
  pub record IsNew (num_layers max_seq kv_dim : ℤ) (c : Kv A) : Type 0 where
    pub valid : IsValid c
    pub nothing_stored : tokens_stored c ≡ 0
    pub layer_count : length c.layers ≡ pos_part num_layers
    pub rows : c.max_seq ≡ max 1 (pos_part max_seq)
    pub dim : c.kv_dim ≡ pos_part kv_dim
    pub len : c.length ≡ 0

  -- `NewKV`, negative arguments included, for buffers of fewer than 2 ^ 63 elements, as far as there is
  -- memory: it does not panic
  -- and gives a valid cache with as many layers as asked for, each with buffers for the asked
  -- number of tokens and nothing in it, whether the buffers come from a sound slab, which stays sound, or are
  -- allocated one by one.
  pub new_kv-IsValid :
      (num_layers max_seq kv_dim : ℤ) (arena : Option (Arena A))
      → IsSoundSlab arena
      → max 1 (pos_part max_seq) * pos_part kv_dim < 2 ^ 63
      → (c : Kv A) × (rest : Option (Arena A)) × (new_kv zero_value num_layers max_seq kv_dim arena
          ≡ ok (c, rest))
        × IsNew num_layers max_seq kv_dim c
        × IsSoundSlab rest
  unfolding new_kv tokens_stored
  new_kv-IsValid num_layers max_seq kv_dim arena h small =
      let rows = max 1 (pos_part max_seq) in
      let dim = pos_part kv_dim in
      let no_wrap : rows * dim % 2 ^ 64 ≡ rows * dim = omega arith in
      let size : signed64 (rows * dim % 2 ^ 64) ≡ pos (rows * dim) =
        ap signed64 no_wrap ∙ signed64-pos (rows * dim) small in
      let (ls, rest, run, fine, count, sound) =
        make_layers-MakesLayers (pos_part num_layers) dim rows arena h in
      let P : Layer A → Type 0 = λ l. Fits dim rows l × (l.n ≡ 0) in
      (
        record { layers = ls; kv_dim = dim; max_seq = rows; length = 0 },
        rest,
        rw (size, run) refl,
        record {
          valid = record {
            some_room = omega arith;
            fits = λ i l e. (All-get_elem? P ls i fine e).0;
          };
          nothing_stored = omega (
            arith,
            most-le {A = A} 0 ls 0 (omega arith)
                (λ i l e. omega (arith, (All-get_elem? P ls i fine e).1)),
          );
          layer_count = count;
          rows = refl;
          dim = refl;
          len = refl;
        },
        sound,
      )
