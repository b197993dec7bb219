-- ===== src/Mempool/Kv/Room.antt =====
-- What `DropOldest` and `EnsureRoom` free.
use gogguf.Base.{
  ℕ, zero, suc, ◌+◌, ◌-◌, ◌*◌, ◌≤◌, ◌<◌, min, ◌≡◌, refl, sym, ap, ◌∙◌, inl, inr, some, List, [],
  ◌∷◌, map, arith, ltb, leb, ◌==◌, if◌then◌else◌, ltb→lt, ltb→le, leb→le, ==_iff, Bool-cases,
  get_elem?, take, drop, length-take, drop_of_length-le, get_elem?-map, get_elem?-map_inv,
}
use gogguf.Base.Int.{pos}
use gogguf.Mempool.Kv.{
  Layer, Kv, k_rows, v_rows, drop_oldest_rows, drop_oldest, most, tokens_stored, ensure_room,
}
use gogguf.Mempool.Kv.Copy.{take-move_down, length-move_down}
use gogguf.Mempool.Kv.Refine.{Fits, IsValid}

pub scale_le : (m n dim : ℕ) → m ≤ n → m * dim ≤ n * dim
scale_le m n dim h = grind arith

module _ {A : Type 0} where
  -- A layer that lost its oldest tokens, at most `n` of them.
  pub record Loses (dim rows n : ℕ) (l l' : Layer A) : Type 0 where
    pub still_fits : Fits dim rows l'
    pub count : l'.n ≡ l.n - n
    pub k_view : k_rows dim l' ≡ drop (min n l.n * dim) (k_rows dim l)
    pub v_view : v_rows dim l' ≡ drop (min n l.n * dim) (v_rows dim l)

  nothing_left :
      (n d dim : ℕ) (buf : List A)
      → n ≤ d
      → take (0 * dim) buf ≡ drop (d * dim) (take (n * dim) buf)
  nothing_left n d dim buf h =
      let e : 0 * dim ≡ 0 = omega arith in
      rw e (
        sym (
          drop_of_length-le (d * dim) (take (n * dim) buf)
            (omega (arith, length-take (n * dim) buf, scale_le n d dim h))))

  drop_oldest_rows-Loses :
      (dim rows n : ℕ) (l : Layer A)
      → Fits dim rows l
      → Loses dim rows n l (drop_oldest_rows dim n l)
  unfolding drop_oldest_rows k_rows v_rows
  drop_oldest_rows-Loses dim rows n l f = elim (Bool-cases (l.n == 0)) [
    | inl none_there ↦
        let e : l.n ≡ 0 = (==_iff l.n 0).0 none_there in
        let d : min n l.n ≡ 0 = omega arith in
        let z : 0 * dim ≡ 0 = omega arith in
        rw none_there
          (record { still_fits = f; count = omega arith; k_view = rw (d, z); v_view = rw (d, z) })
    | inr some_there ↦ elim (Bool-cases (ltb 0 (l.n - min n l.n))) [
      | inl left ↦
          let cut : min n l.n ≤ l.n = omega arith in
          let held = scale_le l.n rows dim f.within in
          rw (some_there, left)
            (record {
              still_fits = record {
                k_whole =
                    length-move_down dim (min n l.n) l.n l.k (omega (arith, held, f.k_whole))
                    ∙ f.k_whole;
                v_whole =
                    length-move_down dim (min n l.n) l.n l.v (omega (arith, held, f.v_whole))
                    ∙ f.v_whole;
                within = omega arith;
              };
              count = omega arith;
              k_view = take-move_down dim (min n l.n) l.n l.k cut (omega (arith, held, f.k_whole));
              v_view = take-move_down dim (min n l.n) l.n l.v cut (omega (arith, held, f.v_whole));
            })
      | inr gone ↦
          let e : l.n - min n l.n ≡ 0 = omega (arith, ltb→le 0 (l.n - min n l.n) gone) in
          rw (some_there, gone)
            (record {
              still_fits = record {
                k_whole = f.k_whole;
                v_whole = f.v_whole;
                within = omega arith;
              };
              count = omega arith;
              k_view = rw e (nothing_left l.n (min n l.n) dim l.k (omega arith));
              v_view = rw e (nothing_left l.n (min n l.n) dim l.v (omega arith));
            })
    ]
  ]

  Loses-none : (dim rows n : ℕ) (l : Layer A) → Fits dim rows l → n ≡ 0 → Loses dim rows n l l
  Loses-none dim rows n l f e =
      let d : min n l.n ≡ 0 = omega arith in
      let z : 0 * dim ≡ 0 = omega arith in
      record { still_fits = f; count = omega arith; k_view = rw (d, z); v_view = rw (d, z) }

  drop_oldest-all :
      (c : Kv A) (n : ℕ)
      → IsValid c
      → ((i : ℕ) (l : Layer A)
          → get_elem? c.layers i ≡ some l
          → (l' : Layer A) × (get_elem? (drop_oldest c (pos n)).layers i ≡ some l')
            × Loses c.kv_dim c.max_seq n l l')
        × IsValid (drop_oldest c (pos n))
        × ((drop_oldest c (pos n)).length ≡ c.length - n)
  drop_oldest-all c n h = elim (Bool-cases (ltb n 1)) [
    | inl none_asked ↦
        unfold drop_oldest in
        rw none_asked (
          λ i l at. (
            l,
            at,
            Loses-none c.kv_dim c.max_seq n l (h.fits i l at)
                (omega (arith, ltb→lt n 1 none_asked)),
          ),
          h,
          omega (arith, ltb→lt n 1 none_asked),
        )
    | inr some_asked ↦
        unfold drop_oldest in
        rw some_asked (
          λ i l at. (
            drop_oldest_rows c.kv_dim n l,
            get_elem?-map (drop_oldest_rows c.kv_dim n) c.layers i at,
            drop_oldest_rows-Loses c.kv_dim c.max_seq n l (h.fits i l at),
          ),
          record {
            some_room = h.some_room;
            fits = λ i l' at.
                let (l, old, e) = get_elem?-map_inv (drop_oldest_rows c.kv_dim n) c.layers i at in
                rw e (drop_oldest_rows-Loses c.kv_dim c.max_seq n l (h.fits i l old)).still_fits;
          },
          ground arith,
        )
  ]

  -- `DropOldest(n)` on a valid cache: every layer loses its n oldest tokens, or all if it has fewer,
  -- and keeps the others in order; the cache stays valid, and `Len` falls by n, down to 0 at most.
  pub drop_oldest-Loses :
      (c : Kv A) (n i : ℕ) (l : Layer A)
      → IsValid c
      → get_elem? c.layers i ≡ some l
      → (l' : Layer A) × (get_elem? (drop_oldest c (pos n)).layers i ≡ some l')
        × Loses c.kv_dim c.max_seq n l l'
        × IsValid (drop_oldest c (pos n))
        × ((drop_oldest c (pos n)).length ≡ c.length - n)
  drop_oldest-Loses c n i l h at =
      let (each, valid, count) = drop_oldest-all c n h in
      let (l', there, loses) = each i l at in (l', there, loses, valid, count)

  le-most : (best : ℕ) (ls : List (Layer A)) → best ≤ most best ls
  unfolding most
  le-most best [] = omega arith
  le-most best (l ∷ ls) = ground (arith, le-most (if ltb best l.n then l.n else best) ls)

  n-le-most :
      (best : ℕ) (ls : List (Layer A)) (i : ℕ) (l : Layer A)
      → get_elem? ls i ≡ some l
      → l.n ≤ most best ls
  unfolding most
  n-le-most best [] i l e = absurd (cc)
  n-le-most best (m ∷ ls) zero l e =
      let same : m ≡ l = cc in
      rw (← same) (ground (arith, le-most (if ltb best m.n then m.n else best) ls))
  n-le-most best (m ∷ ls) (suc i) l e = n-le-most (if ltb best m.n then m.n else best) ls i l e

  pub most-le :
      (best : ℕ) (ls : List (Layer A)) (bound : ℕ)
      → best ≤ bound
      → ((i : ℕ) (l : Layer A) → get_elem? ls i ≡ some l → l.n ≤ bound)
      → most best ls ≤ bound
  unfolding most
  most-le best [] bound h all = h
  most-le best (l ∷ ls) bound h all =
      most-le (if ltb best l.n then l.n else best) ls bound (ground (arith, all 0 l refl))
        (λ i m e. all (suc i) m e)

  drop_oldest-inv :
      (c : Kv A) (n : ℕ) (i : ℕ) (l' : Layer A)
      → IsValid c
      → get_elem? (drop_oldest c (pos n)).layers i ≡ some l'
      → (l : Layer A) × (get_elem? c.layers i ≡ some l) × (l'.n ≡ l.n - n)
  unfolding drop_oldest
  drop_oldest-inv c n i l' h seen = elim (Bool-cases (ltb n 1)) [
    | inl none_asked ↦ (l', rw none_asked at seen, omega (arith, ltb→lt n 1 none_asked))
    | inr some_asked ↦
        let now : get_elem? (map (drop_oldest_rows c.kv_dim n) c.layers) i ≡ some l' =
          rw some_asked at seen in
        let (l, old, e) = get_elem?-map_inv (drop_oldest_rows c.kv_dim n) c.layers i now in
        (
          l,
          old,
          ap (λ t. t.n) e ∙ (drop_oldest_rows-Loses c.kv_dim c.max_seq n l (h.fits i l old)).count,
        )
  ]

  tokens_stored-drop_oldest-le :
      (c : Kv A) (n bound : ℕ)
      → IsValid c
      → tokens_stored c - n ≤ bound
      → tokens_stored (drop_oldest c (pos n)) ≤ bound
  unfolding tokens_stored
  tokens_stored-drop_oldest-le c n bound h room =
      most-le 0 (drop_oldest c (pos n)).layers bound (omega arith) (λ i l' seen.
        let (l, old, count) = drop_oldest-inv c n i l' h seen in
        omega (arith, count, n-le-most 0 c.layers i l old))

  tokens_stored-le : (c : Kv A) → IsValid c → tokens_stored c ≤ c.max_seq
  unfolding tokens_stored
  tokens_stored-le c h = most-le 0 c.layers c.max_seq (omega arith) (λ i l e. (h.fits i l e).within)

  tokens_stored-le-drop_oldest :
      (c : Kv A) (m : ℕ) → IsValid c → tokens_stored c ≤ tokens_stored (drop_oldest c (pos m)) + m
  unfolding tokens_stored
  tokens_stored-le-drop_oldest c m h =
      most-le 0 c.layers (most 0 (drop_oldest c (pos m)).layers + m) (omega arith) (λ i l seen.
        let (l', now, loses) = (drop_oldest-all c m h).0 i l seen in
        omega (arith, loses.count, n-le-most 0 (drop_oldest c (pos m)).layers i l' now))

  -- What `EnsureRoom(n)` gives: a cache with room for n more tokens, in which every layer has lost as many
  -- of its oldest tokens as the returned number says, and no smaller number would have done.
  pub record MakesRoom (c : Kv A) (n : ℕ) (r : Kv A × ℕ) : Type 0 where
    pub room : tokens_stored r.0 + n ≤ c.max_seq
    pub valid : IsValid r.0
    pub number : r.1 ≡ tokens_stored c + n - c.max_seq
    pub loses :
        (i : ℕ) (l : Layer A)
        → get_elem? c.layers i ≡ some l
        → (l' : Layer A) × (get_elem? r.0.layers i ≡ some l') × Loses c.kv_dim c.max_seq r.1 l l'
    pub len : r.0.length ≡ c.length - r.1
    pub least : (m : ℕ) → tokens_stored (drop_oldest c (pos m)) + n ≤ c.max_seq → r.1 ≤ m

  MakesRoom-none :
      (c : Kv A) (n : ℕ) → IsValid c → tokens_stored c + n ≤ c.max_seq → MakesRoom c n (c, 0)
  MakesRoom-none c n h room = record {
    room = room;
    valid = h;
    number = omega arith;
    loses = λ i l at. (l, at, Loses-none c.kv_dim c.max_seq 0 l (h.fits i l at) refl);
    len = omega arith;
    least = λ m _. omega arith;
  }

  MakesRoom-drop_oldest :
      (c : Kv A) (n : ℕ)
      → IsValid c
      → n ≤ c.max_seq
      → c.max_seq < tokens_stored c + n
      → MakesRoom c n
          (drop_oldest c (pos (tokens_stored c + n - c.max_seq)), tokens_stored c + n - c.max_seq)
  MakesRoom-drop_oldest c n h small over =
      let excess : ℕ = tokens_stored c + n - c.max_seq in
      let left : tokens_stored c - excess ≤ c.max_seq - n = omega (arith, tokens_stored-le c h) in
      let (each, valid, count) = drop_oldest-all c excess h in
      record {
        room = omega (arith, tokens_stored-drop_oldest-le c excess (c.max_seq - n) h left);
        valid = valid;
        number = refl;
        loses = each;
        len = count;
        least = λ m enough. omega (arith, enough, tokens_stored-le-drop_oldest c m h);
      }

  -- `EnsureRoom(n)` on a valid cache, for at most as many tokens as a layer holds: then every layer
  -- has room for n more and the cache is valid. Every layer has lost its oldest tokens, as many as the
  -- returned number, and kept the others; `Len` has fallen by it; and `DropOldest` of fewer tokens
  -- would not have made the room.
  pub ensure_room-fits :
      (c : Kv A) (n : ℕ) → IsValid c → n ≤ c.max_seq → MakesRoom c n (ensure_room c (pos n))
  unfolding ensure_room
  ensure_room-fits c n h small = elim (Bool-cases (ltb n 1)) [
    | inl none_asked ↦
        rw none_asked
          (MakesRoom-none c n h (omega (arith, ltb→lt n 1 none_asked, tokens_stored-le c h)))
    | inr some_asked ↦ elim (Bool-cases (leb (tokens_stored c + n) c.max_seq)) [
      | inl fits ↦ rw (some_asked, fits) (MakesRoom-none c n h (leb→le _ _ fits))
      | inr over ↦ rw (some_asked, over) (MakesRoom-drop_oldest c n h small (ground (arith, over)))
    ]
  ]
