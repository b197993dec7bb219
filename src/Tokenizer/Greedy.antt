-- ===== src/Tokenizer/Greedy.antt =====
-- pkg/tokenizer/spm.go: `encodeGreedyVocab`, on what is left of the text.
use gogguf.Base.{
  ℕ, zero, suc, min, Bool, true, false, Option, none, some, List, [], ◌∷◌, ◌++◌, ◌==◌,
  if◌then◌else◌, length, get_elem?, take, drop,
}
use gogguf.Base.Bytes.{Bytes}
use gogguf.Base.Result.{Result, ok, err, ◌>>=◌}

-- `panics` and `out_of_fuel` stand for a run that gives neither tokens nor an error.
pub data TokenizerError : Type 0 where
  unknown_token panics out_of_fuel : TokenizerError

-- The map from a token to its number.
abbrev pub Vocabulary : Type 0
Vocabulary = Bytes → Option ℕ

-- The mark in front of a word, one rune in UTF-8.
abbrev pub word_mark : Bytes
word_mark = 0xE2 ∷ 0x96 ∷ 0x81 ∷ []

-- The byte at position l - 1 is a blank.
unfoldable pub ends_blank : ℕ → Bytes → Bool
ends_blank zero s = false
ends_blank (suc l) s = elim (get_elem? s l) [ none ↦ false | some c ↦ c == b' ' ]

-- The number of a candidate, with the mark where a word starts.
unfoldable pub candidate : Vocabulary → Bool → Bytes → Option ℕ
candidate id word_start cand = elim (id cand) [
  | some n ↦ some n
  | none ↦ if word_start then id (word_mark ++ cand) else none
]

-- The loop over the lengths from l down to 1: the number and the length of the first match.
unfoldable pub longest : Vocabulary → Bool → Bytes → ℕ → Option (ℕ × ℕ)
unfolding ends_blank candidate
longest id word_start s zero = none
longest id word_start s (suc l) =
    let shorter = longest id word_start s l in
    if ends_blank (suc l) s then shorter else elim (candidate id word_start (take (suc l) s)) [
      | some n ↦ some (n, suc l)
      | none ↦ shorter
    ]

-- The loop over the text.
unfoldable pub greedy_fuel : ℕ → Vocabulary → Bool → Bytes → Result TokenizerError (List ℕ)
unfolding longest
greedy_fuel zero id word_start s = err TokenizerError.out_of_fuel
greedy_fuel (suc fuel) id word_start [] = ok []
greedy_fuel (suc fuel) id word_start (c ∷ cs) = elim (c == b' ') [
  | true ↦ greedy_fuel fuel id true cs
  | false ↦ elim (longest id word_start (c ∷ cs) (min (length (c ∷ cs)) 48)) [
    | none ↦ err TokenizerError.unknown_token
    | some (n, l) ↦ do more ← greedy_fuel fuel id false (drop l (c ∷ cs)); ok (n ∷ more)
  ]
]

unfoldable pub encode_greedy_vocab : Vocabulary → Bytes → Result TokenizerError (List ℕ)
unfolding greedy_fuel
encode_greedy_vocab id s = greedy_fuel (suc (length s)) id true s
