-- ===== src/Tokenizer/Encode/Total.antt =====
-- pkg/tokenizer: `Encode` ends.
use gogguf.Base.{
  ℕ, zero, suc, ◌<◌, min, ◌≡◌, refl, inl, inr, Bool, true, false, not, ◌&&◌, Option, none, some,
  List, [], ◌∷◌, ◌++◌, arith, ◌==◌, if◌then◌else◌, Bool-cases, Option-cases, length, take, drop,
  length-drop, All,
}
use gogguf.Base.Bytes.{Bytes}
use gogguf.Base.Result.{Result, ok, err, ◌>>=◌}
use gogguf.Tokenizer.ByteLevel.{byte_encode_word}
use gogguf.Tokenizer.Special.{TextSegment}
use gogguf.Tokenizer.Special.Split.{NonEmpty, split_by_special-Split}
use gogguf.Tokenizer.Bpe.Encoded.{bpe-Encoded}
use gogguf.Tokenizer.Greedy.{
  TokenizerError, Vocabulary, longest, candidate, ends_blank, greedy_fuel, encode_greedy_vocab,
}
use gogguf.Tokenizer.Encode.{
  Tokenizer, symbol_ids, word_ids, piece_ids, encode_segment, segment_ids, id_or_zero,
  build_special_tokens, special_of, encode,
}

abbrev is_stuck : TokenizerError → Bool
is_stuck TokenizerError.unknown_token = false
is_stuck _ = true

-- A run that gives tokens or the error of the code.
abbrev pub Ends {ℓ} : {A : Type ℓ} → Result TokenizerError A → Type 0
Ends (ok a) = Unit
Ends (err e) = is_stuck e ≡ false

Ends-bind :
    {A B : Type 0} (m : Result TokenizerError A) (f : A → Result TokenizerError B)
    → Ends m
    → ((a : A) → Ends (f a))
    → Ends (m >>= f)
Ends-bind (ok a) f h k = k a
Ends-bind (err e) f h k = h

longest-pos :
    (id : Vocabulary) (w : Bool) (s : Bytes) (l n k : ℕ) → longest id w s l ≡ some (n, k) → 0 < k
unfolding longest
longest-pos id w s zero n k h = absurd (cc)
longest-pos id w s (suc l) n k h = elim (Bool-cases (ends_blank (suc l) s)) [
  | inl blank ↦ longest-pos id w s l n k (rw blank at h)
  | inr solid ↦ elim (Option-cases (candidate id w (take (suc l) s))) [
    | inl missing ↦ longest-pos id w s l n k (rw (solid, missing) at h)
    | inr (m, found) ↦
        let e : ◌≡◌ {A = Option (ℕ × ℕ)} (some (m, suc l)) (some (n, k)) = rw (solid, found) at h in
        size m n l k e
  ]
]
  where
    size : (m n l k : ℕ) → ◌≡◌ {A = Option (ℕ × ℕ)} (some (m, suc l)) (some (n, k)) → 0 < k
    size m n l k e = let f : suc l ≡ k = cc in omega (arith, f)

greedy_fuel-Ends :
    (fuel : ℕ) (id : Vocabulary) (w : Bool) (s : Bytes)
    → length s < fuel
    → Ends (greedy_fuel fuel id w s)
greedy_fuel-Ends zero id w s h = absurd (omega arith)
greedy_fuel-Ends (suc fuel) id w [] h = unfold greedy_fuel in tt
greedy_fuel-Ends (suc fuel) id w (c ∷ cs) h = elim (Bool-cases (c == b' ')) [
  | inl blank ↦ on_blank fuel c cs blank (greedy_fuel-Ends fuel id true cs (omega arith))
  | inr solid ↦ elim (Option-cases (longest id w (c ∷ cs) (min (length (c ∷ cs)) 48))) [
    | inl missing ↦ on_missing fuel c cs solid missing
    | inr ((n, k), found) ↦
        let p = longest-pos id w (c ∷ cs) (min (length (c ∷ cs)) 48) n k found in
        on_found fuel c cs n k solid found (
          greedy_fuel-Ends fuel id false (drop k (c ∷ cs))
            (omega (arith, p, h, length-drop k (c ∷ cs))))
  ]
]
  where
    on_blank :
        (fuel c : ℕ) (cs : Bytes)
        → (c == b' ') ≡ true
        → Ends (greedy_fuel fuel id true cs)
        → Ends (greedy_fuel (suc fuel) id w (c ∷ cs))
    on_blank fuel c cs e h = unfold greedy_fuel in rw (e, greedy_fuel) h

    on_missing :
        (fuel c : ℕ) (cs : Bytes)
        → (c == b' ') ≡ false
        → longest id w (c ∷ cs) (min (length (c ∷ cs)) 48) ≡ none
        → Ends (greedy_fuel (suc fuel) id w (c ∷ cs))
    on_missing fuel c cs e f = unfold greedy_fuel in rw (e, f, greedy_fuel) refl

    on_found :
        (fuel c : ℕ) (cs : Bytes) (n k : ℕ)
        → (c == b' ') ≡ false
        → longest id w (c ∷ cs) (min (length (c ∷ cs)) 48) ≡ some (n, k)
        → Ends (greedy_fuel fuel id false (drop k (c ∷ cs)))
        → Ends (greedy_fuel (suc fuel) id w (c ∷ cs))
    on_found fuel c cs n k e f h =
        let g : Ends (greedy_fuel fuel id false (drop k (c ∷ cs)) >>= λ more. ok (n ∷ more)) =
          Ends-bind (greedy_fuel fuel id false (drop k (c ∷ cs))) (λ more. ok (n ∷ more)) h
            (λ more. tt) in
        unfold greedy_fuel in rw (e, f, greedy_fuel) g

symbol_ids-Ends : (id : Vocabulary) (syms : List Bytes) → Ends (symbol_ids id syms)
unfolding symbol_ids
symbol_ids-Ends id [] = tt
symbol_ids-Ends id (s ∷ syms) = elim (Option-cases (id s)) [
  | inl missing ↦ rw (missing, symbol_ids) refl
  | inr (n, found) ↦
      rw (found, symbol_ids)
        (Ends-bind (symbol_ids id syms) (λ more. ok (n ∷ more)) (symbol_ids-Ends id syms)
          (λ more. tt))
]

word_ids-Ends : (t : Tokenizer) (piece : Bytes) → Ends (word_ids t piece)
word_ids-Ends t piece =
    let (syms, run, _, _) =
      bpe-Encoded t.merges (if t.byte_encode then byte_encode_word piece else piece) in
    unfold word_ids in rw (run, word_ids) (symbol_ids-Ends t.id syms)

piece_ids-Ends : (t : Tokenizer) (pieces : List Bytes) → Ends (piece_ids t pieces)
unfolding piece_ids
piece_ids-Ends t [] = tt
piece_ids-Ends t (p ∷ ps) =
    Ends-bind (word_ids t p) _ (word_ids-Ends t p)
      λ ids. Ends-bind (piece_ids t ps) (λ more. ok (ids ++ more)) (piece_ids-Ends t ps) λ more. tt

encode_segment-Ends : (t : Tokenizer) (s : Bytes) → Ends (encode_segment t s)
unfolding encode_segment
encode_segment-Ends t s = elim (Bool-cases ((t.merge_count == 0) && not t.byte_encode)) [
  | inl greedy ↦
      rw greedy
        (unfold encode_greedy_vocab in greedy_fuel-Ends (suc (length s)) t.id true s (omega arith))
  | inr merging ↦ rw merging (piece_ids-Ends t (t.pretokenize s))
]

segment_ids-Ends : (t : Tokenizer) (gs : List TextSegment) → Ends (segment_ids t gs)
unfolding segment_ids
segment_ids-Ends t [] = tt
segment_ids-Ends t (g ∷ gs) =
    Ends-bind (if g.is_special then ok (id_or_zero t g.text ∷ []) else encode_segment t g.text) _
      (first t g)
      λ ids.
        Ends-bind (segment_ids t gs) (λ more. ok (ids ++ more)) (segment_ids-Ends t gs) λ more. tt
  where
    first :
        (t : Tokenizer) (g : TextSegment)
        → Ends (if g.is_special then ok (id_or_zero t g.text ∷ []) else encode_segment t g.text)
    first t g = elim (Bool-cases g.is_special) [
      | inl special ↦ rw special tt
      | inr plain ↦ rw plain (encode_segment-Ends t g.text)
    ]

-- `Encode` ends on every text, with tokens or with the error for an unknown token, whatever the
-- vocabulary, the merges and the pretokenizer are, if no special token is empty.
pub encode-Ends :
    (sort : List Bytes → List Bytes) (t : Tokenizer) (s : Bytes)
    → All NonEmpty (special_of (build_special_tokens sort t))
    → Ends (encode sort t s).1
encode-Ends sort t [] h = unfold encode in tt
encode-Ends sort t (c ∷ cs) h =
    let u = build_special_tokens sort t in
    let (gs, run, _, _) = split_by_special-Split (special_of u) (c ∷ cs) h in
    unfold encode in rw (run, encode) (segment_ids-Ends u gs)
