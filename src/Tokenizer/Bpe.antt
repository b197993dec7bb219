-- ===== src/Tokenizer/Bpe.antt =====
-- pkg/tokenizer/tokenizer.go: byte pair encoding of one word, `bpe`.
pub mod Encoded
use gogguf.Base.{
  ℕ, zero, suc, ◌+◌, ◌-◌, ◌*◌, ◌/◌, ◌%◌, ◌^◌, ◌≤◌, ◌<◌, min, max, ◌≡◌, refl, sym, ap, ◌∙◌, ◌≢◌, ◌↔◌,
  ◌⊎◌, inl, inr, Bool, true, false, not, ◌&&◌, ◌||◌, Option, none, some, List, [], ◌∷◌, ◌++◌, map,
  append-nil, append_assoc, arith, ltb, leb, ◌==◌, if◌then◌else◌, ltb→lt, ltb→le, lt→ltb, le→ltb,
  leb→le, ==_iff, ==_self, Bool-cases, Option-cases, length, get_elem?, set, take, drop, replicate,
  length-append, length-replicate, length-take, length-drop, take-append-drop, take_of_length-le,
  drop_of_length-le, take-append, drop_nil, take_nil, drop-append, drop-length-append,
  take-length-append, take-append_exact, drop-append_exact, drop-drop, take-take, take-drop,
  take-add, length-set, get_elem?-set_self, get_elem?-set_ne, get_elem?-set_inv, length-map,
  get_elem?-map, get_elem?-map_inv, All, All-get_elem?, All-set,
}
use mathlib.Core.Path.{subst}
use gogguf.Base.Bytes.{Bytes, join, join-append}
use gogguf.Tokenizer.Utf8.{utf8_symbols, utf8_symbols-join}

-- The map from a pair of symbols to its rank.
abbrev pub Merges : Type 0
Merges = Bytes → Bytes → Option ℕ

-- `int(^uint(0) >> 1)` on a machine of 64 bits.
abbrev pub max_int : ℕ
max_int = 2 ^ 63 - 1

-- `ok && rank < bestRank`.
abbrev pub improves : Option ℕ → ℕ → Bool
improves none best = false
improves (some rank) best = ltb rank best

-- One round of the scan, from (bestRank, bestIdx) to the next ones.
unfoldable pub better : Option ℕ → ℕ → ℕ × Option ℕ → ℕ × Option ℕ
better none i best = best
better (some rank) i best = if ltb rank best.0 then (rank, some i) else best

-- The scan over the symbols from index i on.
unfoldable pub best_scan : Merges → ℕ → List Bytes → ℕ × Option ℕ → ℕ × Option ℕ
unfolding better
best_scan merges i [] best = best
best_scan merges i (a ∷ []) best = best
best_scan merges i (a ∷ b ∷ rest) best =
    best_scan merges (suc i) (b ∷ rest) (better (merges a b) i best)

-- The symbols with the first two made one: `none` is an index out of range.
unfoldable pub merge_first : List Bytes → Option (List Bytes)
merge_first (a ∷ b ∷ rest) = some ((a ++ b) ∷ rest)
merge_first _ = none

unfoldable pub merge_at : ℕ → List Bytes → Option (List Bytes)
unfolding merge_first
merge_at idx symbols = elim (merge_first (drop idx symbols)) [
  | none ↦ none
  | some rest ↦ some (take idx symbols ++ rest)
]

-- The loop of `bpe`: `none` is a panic or the end of the fuel.
unfoldable pub bpe_loop : ℕ → Merges → List Bytes → Option (List Bytes)
unfolding best_scan merge_at
bpe_loop zero merges symbols = none
bpe_loop (suc fuel) merges symbols = elim (best_scan merges 0 symbols (max_int, none)).1 [
  | none ↦ some symbols
  | some idx ↦ elim (merge_at idx symbols) [ none ↦ none | some next ↦ bpe_loop fuel merges next ]
]

abbrev pub is_single : List Bytes → Bool
is_single (s ∷ []) = true
is_single _ = false

-- `bpe`.
unfoldable pub bpe : Merges → Bytes → Option (List Bytes)
unfolding utf8_symbols bpe_loop
bpe merges [] = some []
bpe merges (c ∷ cs) = elim (utf8_symbols (c ∷ cs)) [
  | none ↦ none
  | some symbols ↦
      if is_single symbols then some symbols else bpe_loop (suc (length symbols)) merges symbols
]
