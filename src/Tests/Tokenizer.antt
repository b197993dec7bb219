-- ===== src/Tests/Tokenizer.antt =====
-- Concrete texts for the theorems about pkg/tokenizer.
use gogguf.Base.{
  true, inl, inr, All, ℕ, ◌+◌, ◌≤◌, ◌≡◌, refl, ◌&&◌, ◌||◌, Option, none, some, List, [], ◌∷◌, map,
  arith, leb, ◌==◌, if◌then◌else◌, length, drop,
}
use gogguf.Base.Bytes.{Bytes, codes, equal, has_prefix, join}
use gogguf.Base.Int.{pos, negsuc}
use gogguf.Base.Result.{ok}
use gogguf.Tokenizer.Encode.{Tokenizer, build_special_tokens, special_of, encode}
use gogguf.Tokenizer.Encode.Total.{Ends, encode-Ends}
use gogguf.Tokenizer.Utf8.{rune_size, utf8_symbols, utf8_symbols-join}
use gogguf.Tokenizer.Special.{TextSegment, split_by_special}
use gogguf.Tokenizer.Special.Split.{NonEmpty, Split, split_by_special-Split}
use gogguf.Tokenizer.Bpe.{Merges, bpe, best_scan, max_int}
use gogguf.Tokenizer.Bpe.Encoded.{Encoded, AtLeast, first_rank, bpe-Encoded, best_scan-some}
use gogguf.Tokenizer.ByteLevel.{byte_encode_word, byte_decode_token}
use gogguf.Tokenizer.ByteLevel.RoundTrip.{byte_decode_token-byte_encode_word}
use gogguf.Tokenizer.Pretokenize.{CptFlags, pretokenize_qwen2}
use gogguf.Tokenizer.Pretokenize.Pieces.{
  Pieces, pretokenize_qwen2-Pieces, pretokenize_qwen2-string_of,
}
use gogguf.Tokenizer.Runes.{runes, string_of}

abbrev some_merges : Merges
some_merges a b =
    if equal a (codes "l") && equal b (codes "o")
    then some 1
    else if equal a (codes "h") && equal b (codes "e")
    then some 0
    else if equal a (codes "he") && equal b (codes "l")
    then some 2
    else none

bpe_hello : bpe some_merges (codes "hello") ≡ some (codes "hel" ∷ codes "lo" ∷ [])
unfolding bpe rune_size equal
bpe_hello = refl

bpe-Encoded_example : Encoded some_merges (codes "hello") (bpe some_merges (codes "hello"))
bpe-Encoded_example = bpe-Encoded some_merges (codes "hello")

abbrev two_symbols : List Bytes
two_symbols = codes "l" ∷ codes "o" ∷ []

two_symbols_scan : (best_scan some_merges 0 two_symbols (max_int, none)).1 ≡ some 0
unfolding best_scan equal
two_symbols_scan = refl

best_scan-some_example :
    (r : ℕ) × (first_rank some_merges (drop 0 two_symbols) ≡ some r)
    × AtLeast some_merges r two_symbols
best_scan-some_example = best_scan-some some_merges two_symbols 0 two_symbols_scan

abbrev chat_tokens : List Bytes
chat_tokens = codes "<|im_start|>" ∷ codes "<|im_end|>" ∷ []

abbrev segment_texts : Option (List TextSegment) → Option (List Bytes)
segment_texts none = none
segment_texts (some gs) = some (map (λ g. g.text) gs)

split_chat :
    segment_texts (split_by_special (codes "<|im_start|>hi<|im_end|>") chat_tokens)
    ≡ some (codes "<|im_start|>" ∷ codes "hi" ∷ codes "<|im_end|>" ∷ [])
unfolding split_by_special has_prefix
split_chat = refl

split_by_special-Split_example :
    Split chat_tokens
      (codes "<|im_start|>hi<|im_end|>")
      (split_by_special (codes "<|im_start|>hi<|im_end|>") chat_tokens)
split_by_special-Split_example =
    split_by_special-Split chat_tokens (codes "<|im_start|>hi<|im_end|>")
      (omega arith, (omega arith, tt))

-- The bytes of a word with a blank and a letter outside ASCII.
abbrev some_word : Bytes
some_word = 0x20 ∷ 0xC3 ∷ 0xA9 ∷ []

byte_decode_token-byte_encode_word_example :
    byte_decode_token (byte_encode_word some_word) ≡ some some_word
byte_decode_token-byte_encode_word_example =
    byte_decode_token-byte_encode_word some_word (omega arith, (omega arith, (omega arith, tt)))

utf8_symbols-join_example :
    (out : List Bytes) × (utf8_symbols some_word ≡ some out)
    × (join out ≡ some_word)
    × (length out ≤ length some_word)
utf8_symbols-join_example = utf8_symbols-join some_word

-- The tests of `unicode` on ASCII.
abbrev ascii_flags : ℕ → CptFlags
ascii_flags c = record {
  letter = leb b'a' c && leb c b'z' || leb b'A' c && leb c b'Z';
  number = leb b'0' c && leb c b'9';
  whitespace = c == b' ' || leb 9 c && leb c 13;
}

abbrev ascii_lower : ℕ → ℕ
ascii_lower c = if leb b'A' c && leb c b'Z' then c + 32 else c

pretokenize_sentence :
    pretokenize_qwen2 ascii_flags ascii_lower (codes "It's  12 ok!")
    ≡ some (
        codes "It"
        ∷ codes "'s"
        ∷ codes " "
        ∷ codes " "
        ∷ codes "1"
        ∷ codes "2"
        ∷ codes " ok"
        ∷ codes "!"
        ∷ [])
unfolding pretokenize_qwen2 runes string_of rune_size
pretokenize_sentence = refl

pretokenize_qwen2-Pieces_example :
    Pieces ascii_flags ascii_lower
      (string_of (runes (codes "It's  12 ok!")))
      (pretokenize_qwen2 ascii_flags ascii_lower (codes "It's  12 ok!"))
pretokenize_qwen2-Pieces_example =
    pretokenize_qwen2-Pieces ascii_flags ascii_lower (codes "It's  12 ok!")

-- `aé☃🙂`, a rune of every size.
abbrev some_runes : List ℕ
some_runes = 0x61 ∷ 0xE9 ∷ 0x2603 ∷ 0x1F642 ∷ []

pretokenize_qwen2-string_of_example :
    Pieces ascii_flags ascii_lower
      (string_of some_runes)
      (pretokenize_qwen2 ascii_flags ascii_lower (string_of some_runes))
pretokenize_qwen2-string_of_example =
    pretokenize_qwen2-string_of ascii_flags ascii_lower some_runes
      (inl (omega arith), (inl (omega arith), (inl (omega arith), (inr (omega arith), tt))))

-- A byte that begins no rune.
pretokenize_broken :
    pretokenize_qwen2 ascii_flags ascii_lower (b'a' ∷ 0xC3 ∷ b'b' ∷ [])
    ≡ some (codes "a" ∷ (0xEF ∷ 0xBF ∷ 0xBD ∷ b'b' ∷ []) ∷ [])
unfolding pretokenize_qwen2 runes string_of rune_size
pretokenize_broken = refl

-- A tokenizer with merges, no special token but one, and no split into pieces.
abbrev some_tokenizer : Tokenizer
some_tokenizer = record {
  tokens = codes "hel" ∷ codes "lo" ∷ codes "<s>" ∷ [];
  id = λ s.
      if equal s (codes "hel")
      then some 0
      else if equal s (codes "lo")
      then some 1
      else if equal s (codes "<s>")
      then some 2
      else none;
  merges = some_merges;
  merge_count = 3;
  bos_id = pos 2;
  eos_id = negsuc 0;
  byte_encode = true;
  pretokenize = λ s. s ∷ [];
  special = none;
}

encode_hello : (encode (λ toks. toks) some_tokenizer (codes "<s>hello")).1 ≡ ok (2 ∷ 0 ∷ 1 ∷ [])
unfolding encode rune_size equal has_prefix
encode_hello = refl

some_tokenizer_special :
    All NonEmpty (special_of (build_special_tokens (λ toks. toks) some_tokenizer))
unfolding build_special_tokens
some_tokenizer_special = (omega arith, tt)

encode-Ends_example : Ends (encode (λ toks. toks) some_tokenizer (codes "<s>hello")).1
encode-Ends_example =
    encode-Ends (λ toks. toks) some_tokenizer (codes "<s>hello") some_tokenizer_special
