-- ===== src/Format/Wire/Numbers.antt =====
-- Numbers as bytes, in both orders.
use native.Mathlib.Nat.{pow-suc}
use mathlib.Core.List.{reverse, reverse-reverse, reverse-append}
use gogguf.Base.{
  ℕ, zero, suc, ◌/◌, ◌^◌, ◌<◌, ◌≡◌, refl, ap, ◌∙◌, List, [], ◌∷◌, arith, length, length-append,
}
use gogguf.Format.Types.{Num, width}
use gogguf.Format.Reader.Monad.{ByteOrder, from_little, uint}
use gogguf.Format.Wire.{to_little, put_num}

length-to_little : (w n : ℕ) → length (to_little w n) ≡ w
unfolding to_little
length-to_little zero n = refl
length-to_little (suc w) n = ap suc (length-to_little w (n / 256))

length-reverse {ℓ} : {A : Type ℓ} (xs : List A) → length (reverse xs) ≡ length xs
length-reverse [] = refl
length-reverse (x ∷ xs) =
    ap length (reverse-append (x ∷ []) xs)
    ∙ omega (arith, length-append (reverse xs) (x ∷ []), length-reverse xs)

from_little-to_little : (w n : ℕ) → n < 256 ^ w → from_little (to_little w n) ≡ n
unfolding from_little to_little
from_little-to_little zero n h = let e : n < 1 = h in omega arith
from_little-to_little (suc w) n h =
    let p = pow-suc 256 w in
    let ih = from_little-to_little w (n / 256) (omega (arith, p)) in omega (arith, ih)

pub length-put_num : (order : ByteOrder) (k : Num) (n : ℕ) → length (put_num order k n) ≡ width k
unfolding put_num
length-put_num ByteOrder.little k n = length-to_little (width k) n
length-put_num ByteOrder.big k n =
    length-reverse (to_little (width k) n) ∙ length-to_little (width k) n

-- A number that fits its width is read back from its bytes, in both byte orders.
pub uint-put_num :
    (order : ByteOrder) (k : Num) (n : ℕ) → n < 256 ^ width k → uint order (put_num order k n) ≡ n
unfolding uint put_num
uint-put_num ByteOrder.little k n h = from_little-to_little (width k) n h
uint-put_num ByteOrder.big k n h =
    ap from_little (reverse-reverse (to_little (width k) n)) ∙ from_little-to_little (width k) n h
