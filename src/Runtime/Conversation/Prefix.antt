-- ===== src/Runtime/Conversation/Prefix.antt =====
-- pkg/runtime/conversation.go: a dialog that reuses cached tokens.
use gogguf.Base.{
  ℕ, zero, suc, ◌+◌, ◌≤◌, ◌<◌, ◌≡◌, refl, sym, ap, ◌∙◌, inl, inr, true, false, ◌&&◌, Option, none,
  some, List, [], ◌∷◌, ◌++◌, append-nil, arith, ltb, leb, ◌==◌, if◌then◌else◌, ltb→lt, lt→ltb,
  ==_iff, Bool-cases, length, take, drop, length-append, length-take, take-append-drop,
  take_of_length-le, take-append_exact,
}
use gogguf.Base.Result.{ok, err}
use gogguf.Runtime.Conversation.{
  Model, Conversation, RunError, append_tokens, tokens_prefix_equal, should_reset_conversation,
  tokens, reset, session_of, Outcome, store, prefill, start_generation,
}

-- Behind a run over some tokens, the model goes on as if it had run over all of them at once; and
-- every reset leaves the same empty cache.
pub record IsIncremental {C L : Type 0} (model : Model C L) (empty : C) : Type 0 where
  pub emptied : (c : C) → model.reset_cache c ≡ empty
  pub goes_on :
      (xs ys : List ℕ) (n : ℕ) (c d : C) (l : L)
      → model.forward xs n c ≡ (d, some l)
      → 0 < length ys
      → model.forward ys (n + length xs) d ≡ model.forward (xs ++ ys) n c

-- The cache and the logits of a dialog are those of its tokens.
pub record IsCached {C L : Type 0} (model : Model C L) (empty : C) (conv : Conversation C L)
    : Type 0 where
  pub within : conv.len ≤ length conv.backing
  pub at_start : (conv.len ≡ 0) → (conv.cache ≡ empty)
  pub behind :
      0 < conv.len
      → (l : L) × (conv.last_logits ≡ some l)
        × (model.forward (tokens conv) 0 empty ≡ (conv.cache, some l))

take-append_tokens :
    (backing : List ℕ) (len : ℕ) (new : List ℕ)
    → len ≤ length backing
    → take (len + length new) (append_tokens backing len new) ≡ take len backing ++ new
take-append_tokens backing len new h =
    let rest =
      if leb (len + length new) (length backing) then drop (len + length new) backing else [] in
    let e : len + length new ≡ length (take len backing ++ new) =
      omega (arith, h, length-append (take len backing) new, length-take len backing) in
    unfold append_tokens in take-append_exact (len + length new) (take len backing ++ new) rest e

tokens_prefix_equal-take :
    (a b : List ℕ) (n : ℕ)
    → tokens_prefix_equal a b n ≡ true
    → (take n a ≡ take n b) × (n ≤ length b)
unfolding tokens_prefix_equal
tokens_prefix_equal-take a b zero h = (refl, omega arith)
tokens_prefix_equal-take [] b (suc n) h = absurd (cc)
tokens_prefix_equal-take (x ∷ a) [] (suc n) h = absurd (cc)
tokens_prefix_equal-take (x ∷ a) (y ∷ b) (suc n) h = elim (Bool-cases (x == y)) [
  | inl same ↦
      let (e, f) = tokens_prefix_equal-take a b n (rw same at h) in
      (cons ((==_iff x y).0 same) e, omega (arith, f))
  | inr other ↦ absurd (bad (rw other at h))
]
  where
    bad : false ≡ true → ⊥
    bad e = cc

    cons : {x y : ℕ} {a b : List ℕ} → x ≡ y → a ≡ b → x ∷ a ≡ y ∷ b
    cons e f = cc

nil_of : (xs : List ℕ) → length xs ≡ 0 → xs ≡ []
nil_of [] h = refl
nil_of (x ∷ xs) h = absurd (omega arith)

module _ {C L : Type 0} (model : Model C L) (empty : C) where
  -- What a prefill from an empty cache gives, as the outcome of `startGeneration`.
  abbrev pub Fresh : List ℕ → C → L → Outcome {C = C} {L = L} model → Type 0
  Fresh prompt cache l out =
      (conv : Conversation C L) × (out ≡ ok (conv, ok (session_of model prompt l)))
      × (tokens conv ≡ prompt)
      × (conv.cache ≡ cache)

  prefill-new :
      (conv : Conversation C L) (prompt : List ℕ) (cache : C) (l : L)
      → conv.len ≤ length conv.backing
      → take conv.len conv.backing ++ drop conv.len prompt ≡ prompt
      → 0 < length (drop conv.len prompt)
      → model.forward (drop conv.len prompt) conv.len conv.cache ≡ (cache, some l)
      → Fresh prompt cache l (prefill model conv prompt)
  prefill-new conv prompt cache l h whole some_new run =
      let new = drop conv.len prompt in
      (
        record {
          backing = append_tokens conv.backing conv.len new;
          len = conv.len + length new;
          last_logits = some l;
          cache = cache;
        },
        unfold prefill in rw (lt→ltb 0 (length new) some_new, run) (unfold store in refl),
        take-append_tokens conv.backing conv.len new h ∙ whole,
        refl,
      )

  prefill-old :
      (conv : Conversation C L) (prompt : List ℕ) (l : L)
      → 0 < conv.len
      → length (drop conv.len prompt) ≡ 0
      → conv.last_logits ≡ some l
      → prefill model conv prompt ≡ ok (conv, ok (session_of model prompt l))
  prefill-old conv prompt l h nothing last =
      let no_new : ltb 0 (length (drop conv.len prompt)) ≡ false = ground (arith, nothing) in
      let cached : (conv.len == 0) ≡ false = ground arith in
      unfold prefill in rw (no_new, cached) (ap (answer conv prompt) last)
    where
      answer : Conversation C L → List ℕ → Option L → Outcome {C = C} {L = L} model
      answer conv prompt none = ok (conv, err RunError.no_cached_logits)
      answer conv prompt (some logits) = ok (conv, ok (session_of model prompt logits))

  module _ (incremental : IsIncremental model empty) where
    prefill-Fresh-empty :
        (conv : Conversation C L) (prompt : List ℕ) (cache : C) (l : L)
        → conv.len ≡ 0
        → conv.cache ≡ empty
        → 0 < length prompt
        → model.forward prompt 0 empty ≡ (cache, some l)
        → Fresh prompt cache l (prefill model conv prompt)
    prefill-Fresh-empty conv prompt cache l z e h run =
        prefill-new conv prompt cache l (omega (arith, z)) (rw z refl) (rw z h) (rw (z, e) run)

    prefill-Fresh-cached :
        (conv : Conversation C L) (prompt : List ℕ) (cache : C) (l : L)
        → IsCached model empty conv
        → 0 < conv.len
        → take conv.len conv.backing ≡ take conv.len prompt
        → model.forward prompt 0 empty ≡ (cache, some l)
        → Fresh prompt cache l (prefill model conv prompt)
    prefill-Fresh-cached conv prompt cache l h some_cached same run =
        let (last, e, ran) = h.behind some_cached in
        let whole : tokens conv ++ drop conv.len prompt ≡ prompt =
          ap (λ t. t ++ drop conv.len prompt) same ∙ take-append-drop conv.len prompt in
        elim (Bool-cases (ltb 0 (length (drop conv.len prompt)))) [
          | inl more ↦
              let p = ltb→lt 0 (length (drop conv.len prompt)) more in
              let len : 0 + length (tokens conv) ≡ conv.len =
                omega (arith, h.within, length-take conv.len conv.backing) in
              let next : model.forward (drop conv.len prompt) (0 + length (tokens conv)) conv.cache
                  ≡ model.forward (tokens conv ++ drop conv.len prompt) 0 empty =
                incremental.goes_on (tokens conv) (drop conv.len prompt) 0 empty conv.cache last ran
                  p in
              prefill-new conv prompt cache l h.within whole p (
                ap (λ n. model.forward (drop conv.len prompt) n conv.cache) (sym len)
                ∙ next
                ∙ ap (λ t. model.forward t 0 empty) whole
                ∙ run)
          | inr none_left ↦
              let nothing : length (drop conv.len prompt) ≡ 0 = ground (arith, none_left) in
              let all : tokens conv ≡ prompt =
                sym (append-nil (tokens conv))
                ∙ ap (λ t. tokens conv ++ t) (sym (nil_of (drop conv.len prompt) nothing))
                ∙ whole in
              let both : ◌≡◌ {A = C × Option L} (conv.cache, some last) (cache, some l) =
                sym ran ∙ ap (λ t. model.forward t 0 empty) all ∙ run in
              (
                conv,
                prefill-old conv prompt l some_cached nothing (e ∙ ap (λ q. q.1) both),
                all,
                ap (λ q. q.0) both,
              )
        ]

    -- `StartGeneration` on a dialog whose cache is that of its tokens, for a prompt within the context
    -- length on which the model would run from an empty cache, on a model that goes on behind cached
    -- tokens as if it had run over all of them at once: it succeeds, whether it keeps a prefix or
    -- resets, with the logits and the cache of that run, and the tokens of the dialog are the prompt.
    pub start_generation-Fresh :
        (context_length : ℕ) (conv : Conversation C L) (prompt : List ℕ) (cache : C) (l : L)
        → IsCached model empty conv
        → (ltb 0 context_length && ltb context_length (length prompt)) ≡ false
        → 0 < length prompt
        → model.forward prompt 0 empty ≡ (cache, some l)
        → Fresh prompt cache l (start_generation model context_length conv prompt)
    start_generation-Fresh context_length conv prompt cache l h short some_prompt run =
        elim (Bool-cases (ltb 0 conv.len)) [
          | inl used ↦ elim (Bool-cases (should_reset_conversation conv.len (tokens conv) prompt)) [
            | inl differs ↦
                unfold start_generation in
                rw (short, used, differs)
                  (prefill-Fresh-empty (reset model conv) prompt cache l (unfold reset in refl)
                    (unfold reset in incremental.emptied conv.cache) some_prompt run)
            | inr agrees ↦
                unfold start_generation in
                rw (short, used, agrees)
                  (prefill-Fresh-cached conv prompt cache l h (ltb→lt 0 conv.len used)
                    (shared agrees) run)
          ]
          | inr fresh ↦
              let z : conv.len ≡ 0 = ground (arith, fresh) in
              unfold start_generation in
              rw (short, fresh)
                (prefill-Fresh-empty conv prompt cache l z (h.at_start z) some_prompt run)
        ]
      where
        take-twice : (n : ℕ) (xs : List ℕ) → take n (take n xs) ≡ take n xs
        take-twice n xs = take_of_length-le n (take n xs) (omega (arith, length-take n xs))

        shared :
            should_reset_conversation conv.len (tokens conv) prompt ≡ false
            → take conv.len conv.backing ≡ take conv.len prompt
        shared e =
            let equal_prefix : tokens_prefix_equal (tokens conv) prompt conv.len ≡ true =
              unfold should_reset_conversation in ground (arith, e) in
            let (same, _) = tokens_prefix_equal-take (tokens conv) prompt conv.len equal_prefix in
            sym (take-twice conv.len conv.backing) ∙ same
