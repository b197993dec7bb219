-- ===== src/Tokenizer/ByteLevel.antt =====
-- pkg/tokenizer/bytes.go: bytes as printable runes. The tables of `init` as functions.
pub mod RoundTrip
use gogguf.Base.{
  ℕ, zero, suc, ◌+◌, ◌-◌, ◌*◌, ◌/◌, ◌%◌, ◌^◌, ◌≤◌, ◌<◌, min, max, ◌≡◌, refl, sym, ap, ◌∙◌, ◌≢◌, ◌↔◌,
  ◌⊎◌, inl, inr, Bool, true, false, not, ◌&&◌, ◌||◌, Option, none, some, List, [], ◌∷◌, ◌++◌, map,
  append-nil, append_assoc, arith, ltb, leb, ◌==◌, if◌then◌else◌, ltb→lt, ltb→le, lt→ltb, le→ltb,
  leb→le, ==_iff, ==_self, Bool-cases, Option-cases, length, get_elem?, set, take, drop, replicate,
  length-append, length-replicate, length-take, length-drop, take-append-drop, take_of_length-le,
  drop_of_length-le, take-append, drop_nil, take_nil, drop-append, drop-length-append,
  take-length-append, take-append_exact, drop-append_exact, drop-drop, take-take, take-drop,
  take-add, length-set, get_elem?-set_self, get_elem?-set_ne, get_elem?-set_inv, length-map,
  get_elem?-map, get_elem?-map_inv, All, All-get_elem?, All-set,
}
use gogguf.Base.Bytes.{Bytes, equal, equal_iff, join}
use gogguf.Tokenizer.Utf8.{within, is_tail, rune_size}

-- The bytes that the first three loops of `init` add as themselves.
abbrev pub is_kept : ℕ → Bool
is_kept b = within 0x21 0x7E b || within 0xA1 0xAC b || within 0xAE 0xFF b

-- How many bytes below b the last loop adds.
unfoldable pub added_below : ℕ → ℕ
added_below zero = 0
added_below (suc b) = (if is_kept b then 0 else 1) + added_below b

-- The rune of a byte.
unfoldable pub byte_rune : ℕ → ℕ
unfolding added_below
byte_rune b = if is_kept b then b else 256 + added_below b

-- `string(rune)` for the runes of the table, all below 0x800.
unfoldable pub encode_rune : ℕ → Bytes
encode_rune r = if ltb r 0x80 then r ∷ [] else (0xC0 + r / 64) ∷ (0x80 + r % 64) ∷ []

-- `byteToUnicode`.
unfoldable pub byte_to_unicode : ℕ → Bytes
unfolding byte_rune encode_rune
byte_to_unicode b = encode_rune (byte_rune b)

-- `unicodeToByte`: the byte below n with this string.
unfoldable pub find_byte : ℕ → Bytes → Option ℕ
unfolding byte_to_unicode equal
find_byte zero s = none
find_byte (suc n) s =
    let below = find_byte n s in if equal (byte_to_unicode n) s then some n else below

unfoldable pub unicode_to_byte : Bytes → Option ℕ
unfolding find_byte
unicode_to_byte s = find_byte 256 s

-- `byteEncodeWord`.
unfoldable pub byte_encode_word : Bytes → Bytes
unfolding byte_to_unicode
byte_encode_word [] = []
byte_encode_word (b ∷ bs) = byte_to_unicode b ++ byte_encode_word bs

-- The loop of `byteDecodeToken`.
unfoldable pub decode_fuel : ℕ → Bytes → Option Bytes
unfolding unicode_to_byte rune_size
decode_fuel zero s = none
decode_fuel (suc fuel) [] = some []
decode_fuel (suc fuel) (c ∷ cs) =
    let n = rune_size (c ∷ cs) in
    elim (decode_fuel fuel (drop n (c ∷ cs))) [
      | none ↦ none
      | some more ↦
          some (elim (unicode_to_byte (take n (c ∷ cs))) [ none ↦ more | some b ↦ b ∷ more ])
    ]

unfoldable pub byte_decode_token : Bytes → Option Bytes
unfolding decode_fuel
byte_decode_token s = decode_fuel (suc (length s)) s
