-- ===== src/Runtime/Session/Filled.antt =====
-- pkg/runtime/session.go: with a model that goes on from its cache, the decode loop keeps the cache and the
-- logits of the whole text.
use gogguf.Base.{
  ℕ, zero, suc, ◌+◌, ◌-◌, ◌≡◌, sym, ap, ◌∙◌, Bool, true, false, not, ◌&&◌, Option, none, some, [],
  ◌∷◌, ◌++◌, append_assoc, arith, ltb, leb, ◌==◌, if◌then◌else◌, length, length-append,
}
use gogguf.Base.Outcome.{if_holds}
use gogguf.Runtime.Conversation.Prefix.{IsIncremental}
use gogguf.Runtime.Session.{
  Engine, GenerateParams, StepError, StepResult, Session, hit_stop_sequence, is_eos, sampled, push,
  forward_step, decode_step, set_reason, notify, generate_loop, begin, generate_steps,
}

module _ {C L S K P : Type 0} (engine : Engine C L) (params : GenerateParams L S K P)
    (empty : C) where
  -- What stands in the cache, and the logits, are those of the prompt and the tokens from an empty cache.
  abbrev pub IsFilled : Session C L S K P → Type 0
  IsFilled s =
      engine.model.forward (s.prompt_tokens ++ s.generated) 0 empty ≡ (s.cache, some s.logits)

  abbrev pub StepIsFilled : Session C L S K P × StepResult → Type 0
  StepIsFilled r = elim r.1 [
    | StepResult.ended ↦ IsFilled r.0
    | StepResult.token id ↦ IsFilled r.0
    | StepResult.failed e ↦ Unit {0}
  ]

  forwarded-StepIsFilled :
      (next : ℕ) (s : Session C L S K P) (out : C × Option L)
      → engine.model.forward (s.prompt_tokens ++ s.generated) 0 empty ≡ out
      → StepIsFilled (elim out.1 [
        | none ↦ (record s { cache = out.0 }, StepResult.failed StepError.forward_failed)
        | some logits ↦ (record s { cache = out.0; logits = logits }, StepResult.token next)
      ])
  forwarded-StepIsFilled next s (cache, none) e = tt
  forwarded-StepIsFilled next s (cache, some logits) e = e

  module _ (incremental : IsIncremental engine.model empty) where
    pub forward_step-StepIsFilled :
        (next : ℕ) (s : Session C L S K P)
        → IsFilled s
        → StepIsFilled (forward_step engine params next (push engine params next s))
    unfolding forward_step push
    forward_step-StepIsFilled next s h =
        let before = s.prompt_tokens ++ s.generated in
        let pos = length s.prompt_tokens + length (s.generated ++ next ∷ []) - 1 in
        let same_pos : 0 + length before ≡ pos = omega (
          arith,
          length-append s.prompt_tokens s.generated,
          length-append s.generated (next ∷ []),
        ) in
        let ran : engine.model.forward (s.prompt_tokens ++ (s.generated ++ next ∷ [])) 0 empty
            ≡ engine.model.forward (next ∷ []) pos s.cache =
          ap (λ ts. engine.model.forward ts 0 empty)
            (sym (append_assoc s.prompt_tokens s.generated (next ∷ [])))
          ∙ sym (incremental.goes_on before (next ∷ []) 0 empty s.cache s.logits h (omega arith))
          ∙ ap (λ n. engine.model.forward (next ∷ []) n s.cache) same_pos in
        if_holds StepIsFilled (ltb 0 engine.context_length && leb engine.context_length pos) tt (
          forwarded-StepIsFilled next (push engine params next s)
            (engine.model.forward (next ∷ []) pos s.cache) ran)

    decode_step-StepIsFilled :
        (s : Session C L S K P) → IsFilled s → StepIsFilled (decode_step engine params s)
    unfolding decode_step
    decode_step-StepIsFilled s h =
        let asked : Session C L S K P = (sampled engine params s).0 in
        let kept : IsFilled asked = unfold sampled in h in
        elim (sampled engine params s).1
          as (λ o. StepIsFilled (elim o [
            | none ↦ (asked, StepResult.ended)
            | some next ↦
                if is_eos engine.eos next
                then (asked, StepResult.ended)
                else forward_step engine params next (push engine params next asked)
          ])) [
            | none ↦ kept
            | some next ↦
                if_holds StepIsFilled (is_eos engine.eos next) kept
                  (forward_step-StepIsFilled next asked kept)
          ]

    notify-IsFilled :
        (id : ℕ) (s : Session C L S K P) → IsFilled s → IsFilled (notify engine params id s).0
    unfolding notify
    notify-IsFilled id s h =
        elim params.on_token
          as (λ o.
            IsFilled
              (elim o as (λ _. Session C L S K P × Bool) [
                | none ↦ (s, true)
                | some f ↦ (
                  record s { callback_state = (f s.callback_state id).0 },
                  (f s.callback_state id).1,
                )
              ]).0) [ none ↦ h | some f ↦ h ]

    -- What holds where the loop ends without an error.
    abbrev EndsFilled : Session C L S K P × Option StepError → Type 0
    EndsFilled r = (r.1 ≡ none) → IsFilled r.0

    round-EndsFilled :
        (n : ℕ) (r : Session C L S K P × StepResult)
        → ((s : Session C L S K P) → IsFilled s → EndsFilled (generate_loop engine params n s))
        → StepIsFilled r
        → EndsFilled (elim r.1 [
          | StepResult.ended ↦ (r.0, none)
          | StepResult.failed e ↦ (r.0, some e)
          | StepResult.token id ↦
              let (s₂, goes_on) = notify engine params id r.0 in
              elim (goes_on
                && not (ltb 0 (length params.stop) && hit_stop_sequence s₂.stop_buf params.stop)) [
                  | false ↦ (s₂, none)
                  | true ↦ generate_loop engine params n s₂
                ]
        ])
    round-EndsFilled n (later, StepResult.ended) ih h = λ e. h
    round-EndsFilled n (later, StepResult.failed err) ih h = λ e. absurd (cc)
    round-EndsFilled n (later, StepResult.token id) ih h =
        let told = (notify engine params id later).0 in
        let kept : IsFilled told = notify-IsFilled id later h in
        elim ((notify engine params id later).1
            && not (ltb 0 (length params.stop) && hit_stop_sequence told.stop_buf params.stop))
          as (λ b.
            EndsFilled
              (elim b [ false ↦ (told, none) | true ↦ generate_loop engine params n told ])) [
                | false ↦ λ e. kept
                | true ↦ ih told kept
              ]

    generate_loop-EndsFilled :
        (n : ℕ) (s : Session C L S K P) → IsFilled s → EndsFilled (generate_loop engine params n s)
    unfolding generate_loop
    generate_loop-EndsFilled zero s h = unfold set_reason in λ e. h
    generate_loop-EndsFilled (suc n) s h =
        round-EndsFilled n (decode_step engine params s) (λ s h. generate_loop-EndsFilled n s h)
          (decode_step-StepIsFilled s h)

  -- With a model that goes on from its cache, generation that starts behind a prefill and ends without an
  -- error leaves the cache and the logits that one run over the prompt and all tokens gives from an
  -- empty cache.
  pub generate_steps-IsFilled :
      IsIncremental engine.model empty
      → (s : Session C L S K P) → IsFilled s
      → (generate_steps engine params s).1 ≡ none
      → IsFilled (generate_steps engine params s).0
  unfolding generate_steps begin
  generate_steps-IsFilled incremental s h =
      generate_loop-EndsFilled incremental
        (if params.max_tokens == 0 then 128 else params.max_tokens) (begin engine params s) h
