-- ===== src/Mempool/Kv/Refine.antt =====
-- The cache against its abstract view: for each layer, the list of the values written and kept.
use gogguf.Base.{
  ℕ, zero, suc, ◌+◌, ◌*◌, ◌≤◌, ◌<◌, ◌≡◌, refl, sym, ap, ◌∙◌, ◌↔◌, inl, inr, some, List, [], ◌++◌,
  append-nil, append_assoc, arith, ltb, ltb→lt, ltb→le, lt→ltb, le→ltb, Bool-cases, length,
  get_elem?, take, drop, drop-drop, take-add, get_elem?-set_inv,
}
use gogguf.Base.Int.{pos}
use gogguf.Base.Result.{ok, err}
use gogguf.Mempool.Kv.{
  overflow, Layer, Kv, copy_at, append_rows, set_layer, append_n, k_rows, v_rows,
}
use gogguf.Mempool.Kv.Copy.{length-copy_at, take-copy_at, copy_row-copy_at, length-row}

enough_rows : (i todo dim len : ℕ) → (i + suc todo) * dim ≤ len → i * dim + dim ≤ len
enough_rows i todo dim len h = grind arith

pub row_fits : (n rows dim : ℕ) → n < rows → n * dim + dim ≤ rows * dim
row_fits n rows dim h = grind arith

module _ {A : Type 0} where
  -- A layer with room for `rows` tokens of `dim` values, and no more in use.
  pub record Fits (dim rows : ℕ) (l : Layer A) : Type 0 where
    pub k_whole : length l.k ≡ rows * dim
    pub v_whole : length l.v ≡ rows * dim
    pub within : l.n ≤ rows

  pub record IsValid (c : Kv A) : Type 0 where
    pub some_room : 0 < c.max_seq
    pub fits : (i : ℕ) (l : Layer A) → get_elem? c.layers i ≡ some l → Fits c.kv_dim c.max_seq l

  -- What the loop of `AppendN` makes of a layer: `n` tokens more, the values behind the old ones.
  pub record Extends (dim rows n : ℕ) (ks vs : List A) (l l' : Layer A) : Type 0 where
    pub still_fits : Fits dim rows l'
    pub count : l'.n ≡ l.n + n
    pub k_view : k_rows dim l' ≡ k_rows dim l ++ ks
    pub v_view : v_rows dim l' ≡ v_rows dim l ++ vs

  append_row : ℕ → ℕ → List A → List A → Layer A → Layer A
  append_row dim i k v l = record {
    k = copy_at l.k (l.n * dim) (take dim (drop (i * dim) k));
    v = copy_at l.v (l.n * dim) (take dim (drop (i * dim) v));
    n = l.n + 1;
  }

  rows_after_one :
      (dim rows n : ℕ) (buf src : List A) (i : ℕ)
      → length buf ≡ rows * dim
      → n < rows
      → i * dim + dim ≤ length src
      → take ((n + 1) * dim) (copy_at buf (n * dim) (take dim (drop (i * dim) src)))
        ≡ take (n * dim) buf ++ take dim (drop (i * dim) src)
  rows_after_one dim rows n buf src i whole h k =
      let len = length-row dim src (i * dim) k in
      let e : (n + 1) * dim ≡ n * dim + length (take dim (drop (i * dim) src)) =
        omega (arith, len) in
      ap (λ t. take t (copy_at buf (n * dim) (take dim (drop (i * dim) src)))) e
      ∙ take-copy_at buf (n * dim) (take dim (drop (i * dim) src))
          (omega (arith, len, row_fits n rows dim h))

  append_rows_step :
      (dim todo i : ℕ) (k v : List A) (l : Layer A)
      → l.n * dim + dim ≤ length l.k
      → l.n * dim + dim ≤ length l.v
      → i * dim + dim ≤ length k
      → i * dim + dim ≤ length v
      → append_rows dim (suc todo) i k v l
        ≡ append_rows dim todo (i + 1) k v (append_row dim i k v l)
  unfolding append_rows append_row
  append_rows_step dim todo i k v l hk hv sk sv = rw (
    copy_row-copy_at dim l.k (l.n * dim) k (i * dim) hk sk,
    copy_row-copy_at dim l.v (l.n * dim) v (i * dim) hv sv,
  )

  append_row-Extends :
      (dim rows i : ℕ) (k v : List A) (l : Layer A)
      → Fits dim rows l
      → l.n < rows
      → i * dim + dim ≤ length k
      → i * dim + dim ≤ length v
      → Extends dim rows 1
          (take dim (drop (i * dim) k))
          (take dim (drop (i * dim) v))
          l
          (append_row dim i k v l)
  unfolding append_row k_rows v_rows
  append_row-Extends dim rows i k v l f h sk sv =
      let room = row_fits l.n rows dim h in
      let lk = length-row dim k (i * dim) sk in
      let lv = length-row dim v (i * dim) sv in
      record {
        still_fits = record {
          k_whole =
              length-copy_at l.k (l.n * dim) (take dim (drop (i * dim) k))
                (omega (arith, lk, f.k_whole))
              ∙ f.k_whole;
          v_whole =
              length-copy_at l.v (l.n * dim) (take dim (drop (i * dim) v))
                (omega (arith, lv, f.v_whole))
              ∙ f.v_whole;
          within = omega arith;
        };
        count = refl;
        k_view = rows_after_one dim rows l.n l.k k i f.k_whole h sk;
        v_view = rows_after_one dim rows l.n l.v v i f.v_whole h sv;
      }

  next_rows :
      (dim todo i : ℕ) (src : List A)
      → take dim (drop (i * dim) src) ++ take (todo * dim) (drop ((i + 1) * dim) src)
        ≡ take (suc todo * dim) (drop (i * dim) src)
  next_rows dim todo i src =
      let e : (i + 1) * dim ≡ i * dim + dim = omega arith in
      let f : suc todo * dim ≡ dim + todo * dim = omega arith in
      ap (λ t. take dim (drop (i * dim) src) ++ take (todo * dim) (drop t src)) e
      ∙ ap (λ t. take dim (drop (i * dim) src) ++ take (todo * dim) t)
          (sym (drop-drop dim (i * dim) src))
      ∙ sym (take-add dim (todo * dim) (drop (i * dim) src))
      ∙ sym (ap (λ t. take t (drop (i * dim) src)) f)

  Extends-trans :
      (dim rows m n : ℕ) (ks vs ks' vs' : List A) (l l' l'' : Layer A)
      → Extends dim rows m ks vs l l'
      → Extends dim rows n ks' vs' l' l''
      → Extends dim rows (m + n) (ks ++ ks') (vs ++ vs') l l''
  Extends-trans dim rows m n ks vs ks' vs' l l' l'' e f = record {
    still_fits = f.still_fits;
    count = omega (arith, e.count, f.count);
    k_view = f.k_view ∙ ap (λ t. t ++ ks') e.k_view ∙ append_assoc (k_rows dim l) ks ks';
    v_view = f.v_view ∙ ap (λ t. t ++ vs') e.v_view ∙ append_assoc (v_rows dim l) vs vs';
  }

  Extends-zero : (dim rows : ℕ) (l : Layer A) → Fits dim rows l → Extends dim rows 0 [] [] l l
  Extends-zero dim rows l f = record {
    still_fits = f;
    count = omega arith;
    k_view = sym (append-nil (k_rows dim l));
    v_view = sym (append-nil (v_rows dim l));
  }

  append_rows-Extends :
      (dim rows todo i : ℕ) (k v : List A) (l : Layer A)
      → Fits dim rows l
      → l.n + todo ≤ rows
      → (i + todo) * dim ≤ length k
      → (i + todo) * dim ≤ length v
      → (l' : Layer A) × (append_rows dim todo i k v l ≡ ok l')
        × Extends dim rows todo
            (take (todo * dim) (drop (i * dim) k))
            (take (todo * dim) (drop (i * dim) v))
            l
            l'
  append_rows-Extends dim rows zero i k v l f h sk sv =
      let e : 0 * dim ≡ 0 = omega arith in
      (l, (unfold append_rows in refl), rw e (Extends-zero dim rows l f))
  append_rows-Extends dim rows (suc todo) i k v l f h sk sv =
      let hk = enough_rows i todo dim (length k) sk in
      let hv = enough_rows i todo dim (length v) sv in
      let one = append_row-Extends dim rows i k v l f (omega arith) hk hv in
      let next : ℕ = i + 1 in
      let e : next + todo ≡ i + suc todo = omega arith in
      let (l', run, more) =
        append_rows-Extends dim rows todo next k v (append_row dim i k v l) one.still_fits
          (omega (arith, one.count)) (rw e sk) (rw e sv) in
      let room = row_fits l.n rows dim (omega arith) in
      let whole =
        Extends-trans dim rows 1 todo (take dim (drop (i * dim) k)) (take dim (drop (i * dim) v))
          (take (todo * dim) (drop ((i + 1) * dim) k)) (take (todo * dim) (drop ((i + 1) * dim) v))
          l (append_row dim i k v l) l' one more in
      (
        l',
        append_rows_step dim todo i k v l (omega (arith, f.k_whole)) (omega (arith, f.v_whole)) hk
              hv
            ∙ run,
        record {
          still_fits = whole.still_fits;
          count = omega (arith, whole.count);
          k_view = whole.k_view ∙ ap (λ t. k_rows dim l ++ t) (next_rows dim todo i k);
          v_view = whole.v_view ∙ ap (λ t. v_rows dim l ++ t) (next_rows dim todo i v);
        },
      )

  -- Writing back a layer that fits keeps the cache valid.
  pub set_layer-IsValid :
      (c : Kv A) (i : ℕ) (l : Layer A)
      → IsValid c
      → Fits c.kv_dim c.max_seq l
      → IsValid (set_layer c i l)
  unfolding set_layer
  set_layer-IsValid c i l h f = record {
    some_room = h.some_room;
    fits = λ j m e. elim (get_elem?-set_inv c.layers i j l e) [
      | inl new ↦ rw new f
      | inr old ↦ h.fits j m old
    ];
  }

  -- `AppendN` on a valid cache, for a layer that exists, at least one token that there is room for,
  -- and slices that hold n tokens: it succeeds, the layer's keys and values are the old ones followed
  -- by the first n tokens of the slices, no other part of the cache changes, and it stays valid.
  pub append_n-Extends :
      (c : Kv A) (i n : ℕ) (k v : List A) (l : Layer A)
      → IsValid c
      → get_elem? c.layers i ≡ some l
      → 0 < n
      → l.n + n ≤ c.max_seq
      → n * c.kv_dim ≤ length k
      → n * c.kv_dim ≤ length v
      → (l' : Layer A) × (append_n c (pos i) k v (pos n) ≡ ok (set_layer c i l'))
        × Extends c.kv_dim c.max_seq n (take (n * c.kv_dim) k) (take (n * c.kv_dim) v) l l'
        × IsValid (set_layer c i l')
  unfolding append_n
  append_n-Extends c i n k v l h at p room sk sv =
      let dim : ℕ = c.kv_dim in
      let e : 0 + n ≡ n = omega arith in
      let z : 0 * dim ≡ 0 = omega arith in
      let (l', run, x) =
        append_rows-Extends dim c.max_seq n 0 k v l (h.fits i l at) room (rw e sk) (rw e sv) in
      (
        l',
        rw (at, le→ltb n 1 p, le→ltb c.max_seq (l.n + n) room, run),
        rw z at x,
        set_layer-IsValid c i l' h x.still_fits,
      )

  -- `AppendN` of at least one token to an existing layer reports an overflow exactly when the tokens
  -- do not fit in what is left of the layer, on a valid cache and slices that hold n tokens.
  pub append_n-eq-overflow :
      (c : Kv A) (i n : ℕ) (k v : List A) (l : Layer A)
      → IsValid c
      → get_elem? c.layers i ≡ some l
      → 0 < n
      → n * c.kv_dim ≤ length k
      → n * c.kv_dim ≤ length v
      → (append_n c (pos i) k v (pos n) ≡ err overflow) ↔ (c.max_seq < l.n + n)
  append_n-eq-overflow c i n k v l h at p sk sv = (only, full)
    where
      full : c.max_seq < l.n + n → append_n c (pos i) k v (pos n) ≡ err overflow
      full q = unfold append_n in rw (at, le→ltb n 1 p, lt→ltb c.max_seq (l.n + n) q)

      only : append_n c (pos i) k v (pos n) ≡ err overflow → c.max_seq < l.n + n
      only q = elim (Bool-cases (ltb c.max_seq (l.n + n))) [
        | inl over ↦ ltb→lt _ _ over
        | inr fits ↦
            let (l', done, _, _) = append_n-Extends c i n k v l h at p (ltb→le _ _ fits) sk sv in
            absurd (cc)
      ]
