-- ===== src/Tokenizer/Bpe/Encoded.antt =====
-- pkg/tokenizer/tokenizer.go: what the symbols of `bpe` are.
use gogguf.Base.{
  ℕ, zero, suc, ◌+◌, ◌≤◌, ◌<◌, ◌≡◌, refl, sym, ap, ◌∙◌, ◌⊎◌, inl, inr, true, false, Option, none,
  some, List, [], ◌∷◌, ◌++◌, append_assoc, arith, ltb, if◌then◌else◌, Bool-cases, Option-cases,
  length, take, drop, length-append, take-append-drop,
}
use mathlib.Core.Path.{subst}
use gogguf.Base.Bytes.{Bytes, join, join-append}
use gogguf.Tokenizer.Utf8.{utf8_symbols, utf8_symbols-join}
use gogguf.Tokenizer.Bpe.{
  Merges, max_int, improves, better, best_scan, merge_first, merge_at, bpe_loop, is_single, bpe,
}

-- No pair of neighbours has a rank below the bound.
abbrev pub AtLeast : Merges → ℕ → List Bytes → Type 0
AtLeast merges r [] = Unit
AtLeast merges r (a ∷ []) = Unit
AtLeast merges r (a ∷ b ∷ rest) = (improves (merges a b) r ≡ false) × AtLeast merges r (b ∷ rest)

abbrev pub first_rank : Merges → List Bytes → Option ℕ
first_rank merges (a ∷ b ∷ rest) = merges a b
first_rank merges _ = none

better-le : (o : Option ℕ) (i : ℕ) (best : ℕ × Option ℕ) → (better o i best).0 ≤ best.0
unfolding better
better-le none i best = omega arith
better-le (some rank) i best = ground arith

better-improves :
    (o : Option ℕ) (i r : ℕ) (best : ℕ × Option ℕ) → r ≤ (better o i best).0 → improves o r ≡ false
unfolding better
better-improves none i r best h = refl
better-improves (some rank) i r best h = ground arith

best_scan-AtLeast :
    (merges : Merges) (i : ℕ) (s : List Bytes) (best : ℕ × Option ℕ)
    → AtLeast merges (best_scan merges i s best).0 s × ((best_scan merges i s best).0 ≤ best.0)
unfolding best_scan
best_scan-AtLeast merges i [] best = (tt, omega arith)
best_scan-AtLeast merges i (a ∷ []) best = (tt, omega arith)
best_scan-AtLeast merges i (a ∷ b ∷ rest) best =
    let (later, low) = best_scan-AtLeast merges (suc i) (b ∷ rest) (better (merges a b) i best) in
    (
      (
        better-improves (merges a b) i
            (best_scan merges (suc i) (b ∷ rest) (better (merges a b) i best)).0 best low,
        later,
      ),
      omega (arith, low, better-le (merges a b) i best),
    )

-- What an index that the scan kept from before, or found, is.
abbrev Found : Merges → ℕ → List Bytes → ℕ × Option ℕ → ℕ × Option ℕ → Type 0
Found merges i s best out =
    (out ≡ best) ⊎ ((k : ℕ) × (out.1 ≡ some (i + k)) × (first_rank merges (drop k s) ≡ some out.0))

better-cases :
    (o : Option ℕ) (i : ℕ) (best : ℕ × Option ℕ)
    → (better o i best ≡ best) ⊎ ((rank : ℕ) × (o ≡ some rank) × (better o i best ≡ (rank, some i)))
unfolding better
better-cases none i best = inl refl
better-cases (some rank) i best = elim (Bool-cases (ltb rank best.0)) [
  | inl less ↦ inr (rank, refl, rw less refl)
  | inr more ↦ inl (rw more refl)
]

best_scan-Found :
    (merges : Merges) (i : ℕ) (s : List Bytes) (best : ℕ × Option ℕ)
    → Found merges i s best (best_scan merges i s best)
unfolding best_scan
best_scan-Found merges i [] best = inl refl
best_scan-Found merges i (a ∷ []) best = inl refl
best_scan-Found merges i (a ∷ b ∷ rest) best =
    elim (best_scan-Found merges (suc i) (b ∷ rest) (better (merges a b) i best)) [
      | inr (k, e, r) ↦ inr (suc k, e ∙ ap some (omega arith), r)
      | inl same ↦ elim (better-cases (merges a b) i best) [
        | inl kept ↦ inl (same ∙ kept)
        | inr (rank, has, new) ↦ inr (
          0,
          ap (λ p. p.1) (same ∙ new) ∙ ap some (omega arith),
          has ∙ sym (ap (λ p. some p.0) (same ∙ new)),
        )
      ]
    ]

first_rank-some :
    (merges : Merges) (s : List Bytes) (r : ℕ)
    → first_rank merges s ≡ some r
    → (a : Bytes) × (b : Bytes) × (rest : List Bytes) × (s ≡ a ∷ b ∷ rest)
first_rank-some merges (a ∷ b ∷ rest) r h = (a, b, rest, refl)
first_rank-some merges (a ∷ []) r h = absurd (cc)
first_rank-some merges [] r h = absurd (cc)

merge_at-eq :
    (idx : ℕ) (symbols : List Bytes) (a b : Bytes) (rest : List Bytes)
    → drop idx symbols ≡ a ∷ b ∷ rest
    → merge_at idx symbols ≡ some (take idx symbols ++ (a ++ b) ∷ rest)
merge_at-eq idx symbols a b rest e = unfold merge_at in rw (e, merge_at, merge_first) refl

merge_at-some :
    (idx : ℕ) (symbols : List Bytes) (merges : Merges) (r : ℕ)
    → first_rank merges (drop idx symbols) ≡ some r
    → (next : List Bytes) × (merge_at idx symbols ≡ some next)
      × (join next ≡ join symbols)
      × (suc (length next) ≡ length symbols)
merge_at-some idx symbols merges r h =
    let (a, b, rest, e) = first_rank-some merges (drop idx symbols) r h in
    let whole : symbols ≡ take idx symbols ++ a ∷ b ∷ rest =
      sym (take-append-drop idx symbols) ∙ ap (λ t. take idx symbols ++ t) e in
    (
      take idx symbols ++ (a ++ b) ∷ rest,
      merge_at-eq idx symbols a b rest e,
      join-append (take idx symbols) ((a ++ b) ∷ rest)
          ∙ ap (λ t. join (take idx symbols) ++ t) (append_assoc a b (join rest))
          ∙ sym (join-append (take idx symbols) (a ∷ b ∷ rest))
          ∙ sym (ap join whole),
      ap suc (length-append (take idx symbols) ((a ++ b) ∷ rest))
          ∙ omega (arith)
          ∙ sym (length-append (take idx symbols) (a ∷ b ∷ rest))
          ∙ sym (ap length whole),
    )

-- What the loop gives back, on every list of symbols that the fuel is enough for.
abbrev pub Encoded : Merges → Bytes → Option (List Bytes) → Type 0
Encoded merges s out =
    (symbols : List Bytes) × (out ≡ some symbols)
    × (join symbols ≡ s)
    × AtLeast merges max_int symbols

-- The pair that a round of the scan chooses is a pair of neighbours, and no pair of neighbours has
-- a lower rank.
pub best_scan-some :
    (merges : Merges) (symbols : List Bytes) (idx : ℕ)
    → (best_scan merges 0 symbols (max_int, none)).1 ≡ some idx
    → (r : ℕ) × (first_rank merges (drop idx symbols) ≡ some r) × AtLeast merges r symbols
best_scan-some merges symbols idx e =
    let (low, _) = best_scan-AtLeast merges 0 symbols (max_int, none) in
    elim (best_scan-Found merges 0 symbols (max_int, none)) [
      | inl same ↦ absurd (none_ne (sym (ap (λ p. p.1) same) ∙ e))
      | inr (k, at, has) ↦ (
        (best_scan merges 0 symbols (max_int, none)).0,
        rw (some_inj (sym e ∙ at) ∙ plus k) has,
        low,
      )
    ]
  where
    none_ne : {x : ℕ} → none ≡ some x → ⊥
    none_ne h = cc

    plus : (k : ℕ) → 0 + k ≡ k
    plus k = omega arith

    some_inj : {x y : ℕ} → some x ≡ some y → x ≡ y
    some_inj h = cc

best_scan-none :
    (merges : Merges) (symbols : List Bytes)
    → (best_scan merges 0 symbols (max_int, none)).1 ≡ none
    → AtLeast merges max_int symbols
best_scan-none merges symbols e =
    let (low, _) = best_scan-AtLeast merges 0 symbols (max_int, none) in
    elim (best_scan-Found merges 0 symbols (max_int, none)) [
      | inl same ↦ subst (λ r. AtLeast merges r symbols) (ap (λ p. p.0) same) low
      | inr (k, at, has) ↦ absurd (none_ne (sym e ∙ at))
    ]
  where
    none_ne : {x : ℕ} → none ≡ some x → ⊥
    none_ne h = cc

bpe_loop-stop :
    (fuel : ℕ) (merges : Merges) (symbols : List Bytes)
    → (best_scan merges 0 symbols (max_int, none)).1 ≡ none
    → bpe_loop (suc fuel) merges symbols ≡ some symbols
bpe_loop-stop fuel merges symbols e = unfold bpe_loop in rw (e, bpe_loop) refl

bpe_loop-go :
    (fuel : ℕ) (merges : Merges) (symbols next : List Bytes) (idx : ℕ)
    → (best_scan merges 0 symbols (max_int, none)).1 ≡ some idx
    → merge_at idx symbols ≡ some next
    → bpe_loop (suc fuel) merges symbols ≡ bpe_loop fuel merges next
bpe_loop-go fuel merges symbols next idx e m = unfold bpe_loop in rw (e, m, bpe_loop) refl

bpe_loop-Encoded :
    (fuel : ℕ) (merges : Merges) (symbols : List Bytes)
    → length symbols < fuel
    → Encoded merges (join symbols) (bpe_loop fuel merges symbols)
bpe_loop-Encoded zero merges symbols h = absurd (omega arith)
bpe_loop-Encoded (suc fuel) merges symbols h =
    elim (Option-cases (best_scan merges 0 symbols (max_int, none)).1) [
      | inl stop ↦ (
        symbols,
        bpe_loop-stop fuel merges symbols stop,
        refl,
        best_scan-none merges symbols stop,
      )
      | inr (idx, e) ↦
          let (r, has, _) = best_scan-some merges symbols idx e in
          let (next, m, whole, fewer) = merge_at-some idx symbols merges r has in
          let (out, run, same, done) = bpe_loop-Encoded fuel merges next (omega (arith, fewer)) in
          (out, bpe_loop-go fuel merges symbols next idx e m ∙ run, same ∙ whole, done)
    ]

is_single-AtLeast :
    (merges : Merges) (r : ℕ) (s : List Bytes) → is_single s ≡ true → AtLeast merges r s
is_single-AtLeast merges r [] h = tt
is_single-AtLeast merges r (a ∷ []) h = tt
is_single-AtLeast merges r (a ∷ b ∷ s) h = absurd (cc)

bpe-run :
    (merges : Merges) (c : ℕ) (cs : Bytes) (symbols : List Bytes)
    → utf8_symbols (c ∷ cs) ≡ some symbols
    → bpe merges (c ∷ cs)
      ≡ (if is_single symbols then some symbols else bpe_loop (suc (length symbols)) merges symbols)
bpe-run merges c cs symbols e = unfold bpe in rw (e, bpe) refl

-- `bpe` ends on every text without a panic. Its symbols, one behind the other, are the text, and no
-- two neighbours among them are a pair that could still be merged.
pub bpe-Encoded : (merges : Merges) (s : Bytes) → Encoded merges s (bpe merges s)
bpe-Encoded merges [] = ([], (unfold bpe in refl), refl, tt)
bpe-Encoded merges (c ∷ cs) =
    let (symbols, e, whole, _) = utf8_symbols-join (c ∷ cs) in
    elim (Bool-cases (is_single symbols)) [
      | inl one ↦ (
        symbols,
        bpe-run merges c cs symbols e
            ∙ ap (λ b. if b then some symbols else bpe_loop (suc (length symbols)) merges symbols)
                one,
        whole,
        is_single-AtLeast merges max_int symbols one,
      )
      | inr more ↦
          let (out, run, same, done) =
            bpe_loop-Encoded (suc (length symbols)) merges symbols (omega arith) in
          (
            out,
            bpe-run merges c cs symbols e
                ∙ ap
                    (λ b.
                      if b then some symbols else bpe_loop (suc (length symbols)) merges symbols)
                    more
                ∙ run,
            same ∙ whole,
            done,
          )
    ]
