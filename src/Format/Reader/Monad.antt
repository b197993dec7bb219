-- ===== src/Format/Reader/Monad.antt =====
-- Reading as a state monad over the source, and the scalars of read.go.
use mathlib.Core.List.{reverse}
use gogguf.Base.{
  ℕ, zero, suc, ◌+◌, ◌*◌, Bool, true, false, List, [], ◌∷◌, ◌==◌, if◌then◌else◌, length,
}
use gogguf.Base.Bytes.{Bytes}
use gogguf.Base.Space.{trim_space}
use gogguf.Base.Result.{Result, ok, err}
use gogguf.Format.Types.{FormatError, bad_bool, Num, width}
use gogguf.Format.Source.{Source, read_full}

abbrev pub M : Type 0 → Type 0
M A = Source → Result FormatError (A × Source)

abbrev pub pure : {A : Type 0} → A → M A
pure a s = ok (a, s)

abbrev pub fail : {A : Type 0} → FormatError → M A
fail e s = err e

infixl 5 ◌>>=◌
abbrev pub ◌>>=◌ : {A B : Type 0} → M A → (A → M B) → M B
◌>>=◌ m f s = elim (m s) [ ok (a, t) ↦ f a t | err e ↦ err e ]

-- `binary.ByteOrder`.
pub data ByteOrder : Type 0 where
  little big : ByteOrder

-- `binary.LittleEndian` and `binary.BigEndian` of the standard library.
unfoldable pub from_little : Bytes → ℕ
from_little [] = 0
from_little (b ∷ bs) = b + 256 * from_little bs

unfoldable pub uint : ByteOrder → Bytes → ℕ
unfolding from_little
uint ByteOrder.little bs = from_little bs
uint ByteOrder.big bs = from_little (reverse bs)

-- `read[T]`, the bit pattern of the value.
unfoldable pub read_num : ByteOrder → Num → M ℕ
unfolding uint
read_num order k = do bs ← read_full (width k); pure (uint order bs)

-- `readString`.
unfoldable pub read_string : ByteOrder → M Bytes
unfolding read_num
read_string order = do
  length ← read_num order Num.u64
  text ← read_full length
  pure (trim_space text)

-- A byte as a `bool`.
unfoldable pub to_bool : ℕ → M Bool
to_bool i = if i == 0 then pure false else if i == 1 then pure true else fail bad_bool

module _ {A : Type 0} where
  -- A loop that fills a slice of n elements.
  unfoldable pub repeat : ℕ → M A → M (List A)
  repeat zero m = pure []
  repeat (suc n) m = do a ← m; rest ← repeat n m; pure (a ∷ rest)
