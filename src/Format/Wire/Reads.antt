-- ===== src/Format/Wire/Reads.antt =====
-- A reader takes these bytes from the source, whatever follows them, and gives this value. The rules
-- for the steps of the monad.
use gogguf.Base.{
  map, refl, ℕ, suc, ◌+◌, ◌^◌, ◌<◌, ◌≡◌, sym, ap, ◌∙◌, false, List, [], ◌∷◌, ◌++◌, append_assoc,
  arith, leb, ==_self, length, take, drop, length-append, length-drop, drop-length-append,
  take-length-append, drop-drop, All,
}
use gogguf.Base.Bytes.{Bytes}
use gogguf.Base.Result.{ok}
use gogguf.Base.Space.{trim_space}
use gogguf.Format.Types.{Num, width}
use gogguf.Format.Source.{Source, read, read_full}
use gogguf.Format.Reader.Monad.{M, pure, ◌>>=◌, ByteOrder, uint, read_num, read_string, repeat}
use gogguf.Format.Wire.{put_num, put_string, put_all}
use gogguf.Format.Wire.Numbers.{length-put_num, uint-put_num}

-- What is left to read.
abbrev pub At : Source → Bytes → Type 0
At s bs = drop s.pos s.bytes ≡ bs

abbrev pub advance : Source → ℕ → Source
advance s n = record s { pos = s.pos + n }

pub record Reads {A : Type 0} (m : M A) (bs : Bytes) (v : A) : Type 0 where
  pub run : (s : Source) (rest : Bytes) → At s (bs ++ rest) → m s ≡ ok (v, advance s (length bs))

pub At-advance :
    (s : Source) (bs rest : Bytes) → At s (bs ++ rest) → At (advance s (length bs)) rest
At-advance s bs rest h =
    sym (drop-drop (length bs) s.pos s.bytes) ∙ ap (drop (length bs)) h ∙ drop-length-append bs rest

pub advance-zero : (s : Source) → advance s 0 ≡ s
advance-zero s = let e : s.pos + 0 ≡ s.pos = omega arith in ap (λ p. record s { pos = p }) e

pub advance-advance : (s : Source) (m n : ℕ) → advance (advance s m) n ≡ advance s (m + n)
advance-advance s m n =
    let e : s.pos + m + n ≡ s.pos + (m + n) = omega arith in ap (λ p. record s { pos = p }) e

pub Reads-pure : {A : Type 0} (v : A) → Reads (pure v) [] v
Reads-pure v = record { run = λ s rest h. ap (λ t. ok (v, t)) (sym (advance-zero s)) }

pub Reads-bind :
    {A B : Type 0} (m : M A) (f : A → M B) {bs cs : Bytes} {a : A} {b : B}
    → Reads m bs a
    → Reads (f a) cs b
    → Reads (m >>= f) (bs ++ cs) b
Reads-bind m f {bs = bs} {cs = cs} {a = a} {b = b} hm hf = record {
  run = λ s rest h.
      let h' : At s (bs ++ (cs ++ rest)) = h ∙ append_assoc bs cs rest in
      let first = hm.run s (cs ++ rest) h' in
      let second = hf.run (advance s (length bs)) rest (At-advance s bs (cs ++ rest) h') in
      let total : advance (advance s (length bs)) (length cs) ≡ advance s (length (bs ++ cs)) =
        advance-advance s (length bs) (length cs) ∙ ap (advance s) (sym (length-append bs cs)) in
      rw (first, ◌>>=◌) (second ∙ ap (λ t. ok (b, t)) total);
}

-- The last step gives its value and takes no bytes.
pub Reads-last :
    {A B : Type 0} (m : M A) (f : A → B) {bs : Bytes} {a : A}
    → Reads m bs a
    → Reads (m >>= λ x. pure (f x)) bs (f a)
Reads-last m f hm = record { run = λ s rest h. rw (hm.run s rest h, ◌>>=◌) }

nonempty-lt : (s : Source) (b : ℕ) (bs : Bytes) → At s (b ∷ bs) → s.pos < length s.bytes
nonempty-lt s b bs h = omega (arith, ap length h, length-drop s.pos s.bytes)

pub read-Reads : (b : ℕ) (bs : Bytes) → Reads (read (suc (length bs))) (b ∷ bs) (b ∷ bs)
unfolding read
read-Reads b bs = record {
  run = λ s rest h.
      let got : take (suc (length bs)) (drop s.pos s.bytes) ≡ b ∷ bs =
        ap (take (suc (length bs))) h ∙ take-length-append (b ∷ bs) rest in
      let more : leb (length s.bytes) s.pos ≡ false =
        not_at_end s (nonempty-lt s b (bs ++ rest) h) in
      rw (more, got);
}
  where
    not_at_end : (s : Source) → s.pos < length s.bytes → leb (length s.bytes) s.pos ≡ false
    not_at_end s h = ground arith

pub read_full-Reads : (bs : Bytes) → Reads (read_full (length bs)) bs bs
unfolding read_full
read_full-Reads [] = Reads-pure []
read_full-Reads (b ∷ bs) = record {
  run = λ s rest h. rw ((read-Reads b bs).run s rest h, ==_self (suc (length bs)));
}

pub read_num-Reads :
    (order : ByteOrder) (k : Num) (n : ℕ)
    → n < 256 ^ width k
    → Reads (read_num order k) (put_num order k n) n
unfolding read_num
read_num-Reads order k n h =
    let bytes = put_num order k n in
    let all : Reads (read_full (width k)) bytes bytes =
      rw (length-put_num order k n) at (read_full-Reads bytes) in
    rw (uint-put_num order k n h) at (Reads-last (read_full (width k)) (uint order) all)

-- A string is read back without the white space at its ends.
pub read_string-Reads :
    (order : ByteOrder) (s : Bytes)
    → length s < 2 ^ 64
    → Reads (read_string order) (put_string order s) (trim_space s)
unfolding read_string put_string width
read_string-Reads order s h =
    Reads-bind (read_num order Num.u64) _ (read_num-Reads order Num.u64 (length s) h)
      (Reads-last (read_full (length s)) trim_space (read_full-Reads s))

pub repeat-map-Reads :
    {A B : Type 0} (m : M B) (f : A → Bytes) (g : A → B) (xs : List A)
    → All (λ x. Reads m (f x) (g x)) xs
    → Reads (repeat (length xs) m) (put_all f xs) (map g xs)
unfolding repeat
repeat-map-Reads m f g [] h = Reads-pure []
repeat-map-Reads m f g (x ∷ xs) h =
    Reads-bind m _ h.0
      (Reads-last (repeat (length xs) m) (λ rest. g x ∷ rest) (repeat-map-Reads m f g xs h.1))

pub repeat-Reads :
    {A : Type 0} (m : M A) (f : A → Bytes) (xs : List A)
    → All (λ x. Reads m (f x) x) xs
    → Reads (repeat (length xs) m) (put_all f xs) xs
repeat-Reads m f xs h = rw (map_same xs) at (repeat-map-Reads m f (λ x. x) xs h)
  where
    map_same : {A : Type 0} (xs : List A) → map (λ x. x) xs ≡ xs
    map_same [] = refl
    map_same (x ∷ xs) = ap (λ rest. x ∷ rest) (map_same xs)

pub All-of {ℓ κ ι} :
    {A : Type ℓ} {P : A → Type κ} {Q : A → Type ι} (xs : List A)
    → ((x : A) → P x → Q x)
    → All P xs
    → All Q xs
All-of [] f h = tt
All-of (x ∷ xs) f h = (f x h.0, All-of xs f h.1)
