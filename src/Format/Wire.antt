-- ===== src/Format/Wire.antt =====
-- The layout of a GGUF file that docs/GGUF-FORMAT.md describes, written out: what `Open` reads back.
pub mod Numbers
pub mod Reads
pub mod Values
pub mod Files
use mathlib.Core.List.{reverse}
use gogguf.Base.{
  ℕ, zero, suc, ◌+◌, ◌-◌, ◌*◌, ◌/◌, ◌%◌, ◌^◌, ◌≤◌, ◌<◌, min, max, ◌≡◌, refl, sym, ap, ◌∙◌, ◌≢◌, ◌↔◌,
  ◌⊎◌, inl, inr, Bool, true, false, not, ◌&&◌, ◌||◌, Option, none, some, List, [], ◌∷◌, ◌++◌, map,
  append-nil, append_assoc, arith, ltb, leb, ◌==◌, if◌then◌else◌, ltb→lt, ltb→le, lt→ltb, le→ltb,
  leb→le, ==_iff, ==_self, Bool-cases, Option-cases, length, get_elem?, set, take, drop, replicate,
  length-append, length-replicate, length-take, length-drop, take-append-drop, take_of_length-le,
  drop_of_length-le, take-append, drop_nil, take_nil, drop-append, drop-length-append,
  take-length-append, take-append_exact, drop-append_exact, drop-drop, take-take, take-drop,
  take-add, length-set, get_elem?-set_self, get_elem?-set_ne, get_elem?-set_inv, length-map,
  get_elem?-map, get_elem?-map_inv, All, All-get_elem?, All-set,
}
use gogguf.Base.Bytes.{Bytes, codes}
use gogguf.Format.Types.{
  Num, width, type_number, bool_type, string_type, array_type, Value, num, bool, str, filetype,
  nums, bools, strs, Metadata,
}
use gogguf.Format.Reader.Monad.{ByteOrder}
use gogguf.Format.Reader.Open.{TensorInfo}

-- The w low bytes of a number, the lowest first.
unfoldable pub to_little : ℕ → ℕ → Bytes
to_little zero n = []
to_little (suc w) n = (n % 256) ∷ to_little w (n / 256)

unfoldable pub put_num : ByteOrder → Num → ℕ → Bytes
unfolding to_little
put_num ByteOrder.little k n = to_little (width k) n
put_num ByteOrder.big k n = reverse (to_little (width k) n)

unfoldable pub put_string : ByteOrder → Bytes → Bytes
unfolding put_num
put_string order s = put_num order Num.u64 (length s) ++ s

abbrev pub bit : Bool → ℕ
bit true = 1
bit false = 0

-- The elements of an array, one behind the other.
abbrev pub put_all : {A : Type 0} → (A → Bytes) → List A → Bytes
put_all f [] = []
put_all f (x ∷ xs) = f x ++ put_all f xs

unfoldable pub put_type : ByteOrder → ℕ → Bytes
unfolding put_num
put_type order t = put_num order Num.u32 t

unfoldable pub put_array : {A : Type 0} → ByteOrder → ℕ → (A → Bytes) → List A → Bytes
unfolding put_num put_type
put_array order t f xs =
    put_type order array_type
    ++ (put_type order t ++ (put_num order Num.u64 (length xs) ++ put_all f xs))

-- A metadata value behind its type.
unfoldable pub put_value : ByteOrder → Value → Bytes
unfolding put_num put_string put_type put_array
put_value order (num k n) = put_type order (type_number k) ++ put_num order k n
put_value order (bool b) = put_type order bool_type ++ put_num order Num.u8 (bit b)
put_value order (str s) = put_type order string_type ++ put_string order s
put_value order (filetype n) = []
put_value order (nums k ns) = put_array order (type_number k) (put_num order k) ns
put_value order (bools bs) = put_array order bool_type (λ b. put_num order Num.u8 (bit b)) bs
put_value order (strs ss) = put_array order string_type (put_string order) ss

unfoldable pub put_entry : ByteOrder → Bytes × Value → Bytes
unfolding put_string put_value
put_entry order (name, v) = put_string order name ++ put_value order v

unfoldable pub put_tensor : ByteOrder → TensorInfo → Bytes
unfolding put_string put_num
put_tensor order t =
    put_string order t.name
    ++ (put_num order Num.u32 (length t.dimensions)
        ++ (put_all (put_num order Num.u64) t.dimensions
            ++ (put_num order Num.u32 t.type ++ put_num order Num.u64 t.offset)))

-- What stands in a file in front of the tensor data.
pub record File : Type 0 where
  pub order : ByteOrder
  pub version : ℕ
  pub entries : List (Bytes × Value)
  pub tensors : List TensorInfo

unfoldable pub put_file : File → Bytes
unfolding put_num put_entry put_tensor
put_file f =
    codes "GGUF"
    ++ (put_num f.order Num.u32 f.version
        ++ (put_num f.order Num.u64 (length f.tensors)
            ++ (put_num f.order Num.u64 (length f.entries)
                ++ (put_all (put_entry f.order) f.entries
                    ++ put_all (put_tensor f.order) f.tensors))))
