-- ===== src/Format/Wire/Values.antt =====
-- Metadata values and their entries are read back.
use gogguf.Base.{
  ℕ, ◌^◌, ◌<◌, ◌≡◌, refl, ap, Bool, true, false, List, [], ◌∷◌, ◌++◌, map, append-nil, arith, ◌==◌,
  length, length-map, All,
}
use gogguf.Base.Bytes.{Bytes}
use gogguf.Base.Space.{trim_space}
use gogguf.Format.Types.{
  Num, width, type_number, num_of, num_of-type_number, bool_type, string_type, array_type, Value,
  num, bool, str, filetype, nums, bools, strs,
}
use gogguf.Format.Reader.Monad.{pure, ◌>>=◌, ByteOrder, read_num, read_string, to_bool, repeat}
use gogguf.Format.Reader.Open.{read_scalar, to_bools, read_array, read_array_value, read_meta_value}
use gogguf.Format.Wire.{put_num, put_string, put_all, put_type, put_array, put_value, bit}
use gogguf.Format.Wire.Reads.{
  Reads, Reads-pure, Reads-bind, Reads-last, read_num-Reads, read_string-Reads, repeat-Reads,
  repeat-map-Reads, All-of,
}

-- A string that the format can hold.
abbrev pub IsText : Bytes → Type 0
IsText s = length s < 2 ^ 64

-- A value without the white space at the ends of its strings.
abbrev pub trimmed : Value → Value
trimmed (str s) = str (trim_space s)
trimmed (strs ss) = strs (map trim_space ss)
trimmed v = v

-- A value that the format can hold: numbers fit their width, and there is no stored file type, which
-- is a `uint32` in the file.
abbrev pub IsWritable : Value → Type 0
IsWritable (num k n) = n < 256 ^ width k
IsWritable (bool b) = Unit {0}
IsWritable (str s) = IsText s
IsWritable (filetype n) = ⊥
IsWritable (nums k ns) = (length ns < 2 ^ 64) × All (λ n. n < 256 ^ width k) ns
IsWritable (bools bs) = length bs < 2 ^ 64
IsWritable (strs ss) = (length ss < 2 ^ 64) × All IsText ss

type_number-ne-array : (k : Num) → (type_number k == array_type) ≡ false
unfolding type_number
type_number-ne-array Num.u8 = refl
type_number-ne-array _ = refl

type_number-lt : (k : Num) → type_number k < 256 ^ width Num.u32
unfolding type_number width
type_number-lt Num.u8 = omega arith
type_number-lt _ = omega arith

read_scalar-num :
    (order : ByteOrder) (k : Num)
    → read_scalar order (type_number k) ≡ (read_num order k >>= λ n. pure (num k n))
unfolding read_scalar
read_scalar-num order k = rw (num_of-type_number k, read_scalar)

to_bool-Reads : (b : Bool) → Reads (to_bool (bit b)) [] b
unfolding to_bool
to_bool-Reads true = Reads-pure true
to_bool-Reads false = Reads-pure false

bit-lt : (b : Bool) → bit b < 256 ^ width Num.u8
unfolding width
bit-lt true = omega arith
bit-lt false = omega arith

scalar-Reads :
    (order : ByteOrder) (t : ℕ) (v : Value) (bs : Bytes)
    → t < 256 ^ width Num.u32
    → (t == array_type) ≡ false
    → Reads (read_scalar order t) bs v
    → Reads (read_meta_value order) (put_type order t ++ bs) v
unfolding read_meta_value put_type
scalar-Reads order t v bs small scalar h =
    Reads-bind (read_num order Num.u32) _ (read_num-Reads order Num.u32 t small) (rw scalar h)

array-Reads :
    {A : Type 0} (order : ByteOrder) (t : ℕ) (v : Value) (f : A → Bytes) (xs : List A)
    → t < 256 ^ width Num.u32
    → length xs < 2 ^ 64
    → Reads (read_array order t (length xs)) (put_all f xs) v
    → Reads (read_meta_value order) (put_array order t f xs) v
unfolding read_meta_value read_array_value put_array put_type width
array-Reads order t v f xs small short h =
    Reads-bind (read_num order Num.u32) _ (read_num-Reads order Num.u32 array_type (omega arith)) (
      Reads-bind (read_num order Num.u32) _ (read_num-Reads order Num.u32 t small)
        (Reads-bind (read_num order Num.u64) _ (read_num-Reads order Num.u64 (length xs) short) h))

read_array-nums :
    (order : ByteOrder) (k : Num) (n : ℕ)
    → read_array order (type_number k) n ≡ (repeat n (read_num order k) >>= λ a. pure (nums k a))
unfolding read_array
read_array-nums order k n = rw (num_of-type_number k, read_array)

to_bools-bits : (bs : List Bool) → Reads (to_bools (map bit bs)) [] bs
unfolding to_bools
to_bools-bits [] = Reads-pure []
to_bools-bits (b ∷ bs) =
    Reads-bind (to_bool (bit b)) _ (to_bool-Reads b)
      (Reads-last (to_bools (map bit bs)) (λ rest. b ∷ rest) (to_bools-bits bs))

put_all-map :
    {A B : Type 0} (f : B → Bytes) (g : A → B) (xs : List A)
    → put_all f (map g xs) ≡ put_all (λ x. f (g x)) xs
put_all-map f g [] = refl
put_all-map f g (x ∷ xs) = ap (λ t. f (g x) ++ t) (put_all-map f g xs)

bits-Reads :
    (order : ByteOrder) (bs : List Bool)
    → Reads
        (repeat (length bs) (read_num order Num.u8))
        (put_all (λ b. put_num order Num.u8 (bit b)) bs)
        (map bit bs)
bits-Reads order bs =
    rw (length-map bit bs, put_all-map (put_num order Num.u8) bit bs) at
      (repeat-Reads (read_num order Num.u8) (put_num order Num.u8) (map bit bs) (each bs))
  where
    each :
        (bs : List Bool)
        → All (λ n. Reads (read_num order Num.u8) (put_num order Num.u8 n) n) (map bit bs)
    each [] = tt
    each (b ∷ bs) = (read_num-Reads order Num.u8 (bit b) (bit-lt b), each bs)

-- `readMetaValue` reads back every value that the format can hold, where numbers fit their widths and
-- strings and lists are shorter than 2 ^ 64, in both byte orders: but without the white space at the ends of
-- its strings, which the reader trims.
pub read_meta_value-Reads :
    (order : ByteOrder) (v : Value)
    → IsWritable v
    → Reads (read_meta_value order) (put_value order v) (trimmed v)
unfolding put_value
read_meta_value-Reads order (num k n) h =
    scalar-Reads order (type_number k) (num k n) _ (type_number-lt k) (type_number-ne-array k) (
      rw (read_scalar-num order k)
        (Reads-last (read_num order k) (num k) (read_num-Reads order k n h)))
read_meta_value-Reads order (bool b) h =
    scalar-Reads order bool_type (bool b) _ (unfold width in omega arith) refl (
      unfold read_scalar num_of in
      rw append-nil at (
        Reads-bind (read_num order Num.u8) (λ i. to_bool i >>= λ b'. pure (bool b'))
          (read_num-Reads order Num.u8 (bit b) (bit-lt b))
          (Reads-last (to_bool (bit b)) bool (to_bool-Reads b))))
read_meta_value-Reads order (str s) h =
    scalar-Reads order string_type (str (trim_space s)) _ (unfold width in omega arith) refl (
      unfold read_scalar num_of in Reads-last (read_string order) str (read_string-Reads order s h))
read_meta_value-Reads order (filetype n) h = absurd h
read_meta_value-Reads order (nums k ns) h =
    array-Reads order (type_number k) (nums k ns) (put_num order k) ns (type_number-lt k) h.0 (
      rw (read_array-nums order k (length ns)) (
        Reads-last (repeat (length ns) (read_num order k)) (nums k) (
          repeat-Reads (read_num order k) (put_num order k) ns
            (All-of {P = λ n. n < 256 ^ width k} ns (λ n. read_num-Reads order k n) h.1))))
read_meta_value-Reads order (bools bs) h =
    array-Reads order bool_type (bools bs) (λ b. put_num order Num.u8 (bit b)) bs
      (unfold width in omega arith) h
      (unfold read_array num_of in
        rw append-nil at (
          Reads-bind (repeat (length bs) (read_num order Num.u8))
            (λ a. to_bools a >>= λ b. pure (bools b)) (bits-Reads order bs)
            (Reads-last (to_bools (map bit bs)) bools (to_bools-bits bs))))
read_meta_value-Reads order (strs ss) h =
    array-Reads order string_type (strs (map trim_space ss)) (put_string order) ss
      (unfold width in omega arith) h.0
      (unfold read_array num_of in
        Reads-last (repeat (length ss) (read_string order)) strs (
          repeat-map-Reads (read_string order) (put_string order) trim_space ss
            (All-of {P = IsText} ss (λ s t. read_string-Reads order s t) h.1)))
