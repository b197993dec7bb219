-- ===== src/Runtime/Session/Answers.antt =====
-- pkg/runtime/session.go: the tokens that generation gives, described without a session: every one is picked
-- from the logits of a run over the whole text from an empty cache.
use gogguf.Base.{
  ℕ, zero, suc, ◌≡◌, refl, sym, ap, ◌∙◌, Bool, true, false, not, ◌&&◌, Option, none, some, List, [],
  ◌∷◌, ◌++◌, append-nil, append_assoc, ltb, leb, ◌==◌, if◌then◌else◌, length, ◌+◌, ◌-◌,
}
use mathlib.Core.Path.{subst}
use gogguf.Base.Bytes.{Bytes}
use gogguf.Base.Outcome.{if_holds}
use gogguf.Runtime.Conversation.Prefix.{IsIncremental}
use gogguf.Runtime.Session.{
  Engine, GenerateParams, StepError, StepResult, Session, hit_stop_sequence, prepare_logits, is_eos,
  sampled, push, forward_step, decode_step, set_reason, notify, generate_loop, begin,
  generate_steps,
}
use gogguf.Runtime.Session.Filled.{IsFilled, StepIsFilled, forward_step-StepIsFilled}
use gogguf.Runtime.Session.Steps.{rounds, text_of}

module _ {C L S K P : Type 0} (engine : Engine C L) (params : GenerateParams L S K P)
    (empty : C) where
  -- The sampler is asked for the token behind a text: on the logits of one run over all of it, with the
  -- penalties for it.
  pub record Asks (s : S) (before : List ℕ) (out : S × Option ℕ) : Type 0 where
    pub cache : C
    pub logits : L
    pub ran : engine.model.forward before 0 empty ≡ (cache, some logits)
    pub picked : params.sampler s (prepare_logits params.penalties logits before) ≡ out

  -- What the callback keeps and answers on a token.
  abbrev told : K → ℕ → K × Bool
  told k next = elim params.on_token [ none ↦ (k, true) | some f ↦ f k next ]

  -- Whether the callback and the stop sequences let generation go on behind a token.
  abbrev goes_on : K → ℕ → Bytes → Bool
  goes_on k next text =
      (told k next).1
      && not (
          ltb 0 (length params.stop)
          && hit_stop_sequence (text ++ text_of engine params next) params.stop)

  -- The tokens that are given in so many rounds, by the states of the sampler and of the callback, the
  -- tokens before, and the text in which stop sequences are looked for.
  pub data Answers : ℕ → S → K → List ℕ → Bytes → List ℕ → Type 0 where
    no_rounds : {s : S} {k : K} {before : List ℕ} {text : Bytes} → Answers zero s k before text []
    no_token :
        {n : ℕ} {s t : S} {k : K} {before : List ℕ} {text : Bytes}
        → Asks s before (t, none)
        → Answers (suc n) s k before text []
    at_eos :
        {n next : ℕ} {s t : S} {k : K} {before : List ℕ} {text : Bytes}
        → Asks s before (t, some next)
        → is_eos engine.eos next ≡ true
        → Answers (suc n) s k before text []
    last_token :
        {n next : ℕ} {s t : S} {k : K} {before : List ℕ} {text : Bytes}
        → Asks s before (t, some next)
        → is_eos engine.eos next ≡ false
        → goes_on k next text ≡ false
        → Answers (suc n) s k before text (next ∷ [])
    next_token :
        {n next : ℕ} {s t : S} {k : K} {before more : List ℕ} {text : Bytes}
        → Asks s before (t, some next)
        → is_eos engine.eos next ≡ false
        → goes_on k next text ≡ true
        → Answers n t
            (told k next).0
            (before ++ next ∷ [])
            (text ++ text_of engine params next)
            more
        → Answers (suc n) s k before text (next ∷ more)

  -- The tokens before the next one.
  abbrev before_of : Session C L S K P → List ℕ
  before_of s = s.prompt_tokens ++ s.generated

  -- The session behind a step that gives a token.
  abbrev after : Session C L S K P → S → ℕ → C → L → Session C L S K P
  after s t next cache logits = record (push engine params next (record s { sampler_state = t })) {
    cache = cache;
    logits = logits;
  }

  data StepAnswers (s : Session C L S K P) : Session C L S K P × StepResult → Type 0 where
    step_none :
        {t : S}
        → Asks s.sampler_state (before_of s) (t, none)
        → StepAnswers s (record s { sampler_state = t }, StepResult.ended)
    step_eos :
        {t : S} {next : ℕ}
        → Asks s.sampler_state (before_of s) (t, some next)
        → is_eos engine.eos next ≡ true
        → StepAnswers s (record s { sampler_state = t }, StepResult.ended)
    step_token :
        {t : S} {next : ℕ} {cache : C} {logits : L}
        → Asks s.sampler_state (before_of s) (t, some next)
        → is_eos engine.eos next ≡ false
        → IsFilled engine params empty (after s t next cache logits)
        → StepAnswers s (after s t next cache logits, StepResult.token next)
    step_failed :
        {later : Session C L S K P} {e : StepError} → StepAnswers s (later, StepResult.failed e)

  -- What a step gives behind the sampler, for a token that is not the end.
  data Forwarded (s : Session C L S K P) (t : S) (next : ℕ)
      : Session C L S K P × StepResult → Type 0 where
    forwarded :
        {cache : C} {logits : L}
        → Forwarded s t next (after s t next cache logits, StepResult.token next)
    not_forwarded :
        {later : Session C L S K P} {e : StepError}
        → Forwarded s t next (later, StepResult.failed e)

  forward_step-Forwarded :
      (s : Session C L S K P) (t : S) (next : ℕ)
      → Forwarded s t next (
          forward_step engine params next
            (push engine params next (record s { sampler_state = t })))
  unfolding forward_step
  forward_step-Forwarded s t next =
      let pushed = push engine params next (record s { sampler_state = t }) in
      let pos = length pushed.prompt_tokens + length pushed.generated - 1 in
      if_holds (Forwarded s t next) (ltb 0 engine.context_length && leb engine.context_length pos)
        not_forwarded (of_run (engine.model.forward (next ∷ []) pos pushed.cache))
    where
      of_run :
          (out : C × Option L)
          → Forwarded s t next (elim out.1 as (λ _. Session C L S K P × StepResult) [
            | none ↦ (
              record (push engine params next (record s { sampler_state = t })) { cache = out.0 },
              StepResult.failed StepError.forward_failed,
            )
            | some logits ↦ (after s t next out.0 logits, StepResult.token next)
          ])
      of_run (cache, none) = not_forwarded
      of_run (cache, some logits) = forwarded

  Forwarded-StepAnswers :
      {s : Session C L S K P} {t : S} {next : ℕ} {r : Session C L S K P × StepResult}
      → Forwarded s t next r
      → Asks s.sampler_state (before_of s) (t, some next)
      → is_eos engine.eos next ≡ false
      → StepIsFilled engine params empty r
      → StepAnswers s r
  Forwarded-StepAnswers forwarded asks no_eos filled = step_token asks no_eos filled
  Forwarded-StepAnswers not_forwarded asks no_eos filled = step_failed

  -- The loop of `GenerateSteps` gave an answer from here, if it ended without an error.
  abbrev EndsAnswered : ℕ → Session C L S K P → Session C L S K P × Option StepError → Type 0
  EndsAnswered n s r =
      (r.1 ≡ none)
      → (more : List ℕ) × (r.0.generated ≡ s.generated ++ more)
        × Answers n s.sampler_state s.callback_state (before_of s) s.stop_buf more

  -- What the callback leaves of a session behind a token.
  record Notified (s : Session C L S K P) (t : S) (next : ℕ) (r : Session C L S K P × Bool)
      : Type 0 where
    pub sampler : r.0.sampler_state ≡ t
    pub callback : r.0.callback_state ≡ (told s.callback_state next).0
    pub prompt : r.0.prompt_tokens ≡ s.prompt_tokens
    pub tokens : r.0.generated ≡ s.generated ++ next ∷ []
    pub text : r.0.stop_buf ≡ s.stop_buf ++ text_of engine params next
    pub answer : r.1 ≡ (told s.callback_state next).1
    pub filled : IsFilled engine params empty r.0

  notify-told :
      (next : ℕ) (s : Session C L S K P)
      → notify engine params next s ≡ (
        record s { callback_state = (told s.callback_state next).0 },
        (told s.callback_state next).1,
      )
  unfolding notify
  notify-told next s =
      elim params.on_token
        as (λ o.
          (elim o as (λ _. Session C L S K P × Bool) [
            | none ↦ (s, true)
            | some f ↦ (
              record s { callback_state = (f s.callback_state next).0 },
              (f s.callback_state next).1,
            )
          ])
          ≡ (
            record s {
              callback_state =
                  (elim o as (λ _. K × Bool) [
                    | none ↦ (s.callback_state, true)
                    | some f ↦ f s.callback_state next
                  ]).0;
            },
            (elim o as (λ _. K × Bool) [
              | none ↦ (s.callback_state, true)
              | some f ↦ f s.callback_state next
            ]).1,
          )) [ none ↦ refl | some f ↦ refl ]

  notify-Notified :
      (s : Session C L S K P) (t : S) (next : ℕ) (cache : C) (logits : L)
      → IsFilled engine params empty (after s t next cache logits)
      → Notified s t next (notify engine params next (after s t next cache logits))
  notify-Notified s t next cache logits h =
      let later = after s t next cache logits in
      let p : Notified s t next (
        record later { callback_state = (told later.callback_state next).0 },
        (told later.callback_state next).1,
      ) =
        unfold push in
        record {
          sampler = refl;
          callback = refl;
          prompt = refl;
          tokens = refl;
          text = refl;
          answer = refl;
          filled = h;
        } in
      subst (Notified s t next) (sym (notify-told next later)) p

  module _ (incremental : IsIncremental engine.model empty) where
    asked-StepAnswers :
        (s : Session C L S K P) (out : S × Option ℕ)
        → Asks s.sampler_state (before_of s) out
        → IsFilled engine params empty s
        → StepAnswers s (elim out.1 as (λ _. Session C L S K P × StepResult) [
          | none ↦ (record s { sampler_state = out.0 }, StepResult.ended)
          | some next ↦
              if is_eos engine.eos next
              then (record s { sampler_state = out.0 }, StepResult.ended)
              else forward_step engine params next
                  (push engine params next (record s { sampler_state = out.0 }))
        ])
    asked-StepAnswers s (t, none) asks h = step_none asks
    asked-StepAnswers s (t, some next) asks h = by_eos (is_eos engine.eos next) refl
      where
        by_eos :
            (b : Bool)
            → is_eos engine.eos next ≡ b
            → StepAnswers s (
                if b
                then (record s { sampler_state = t }, StepResult.ended)
                else forward_step engine params next
                    (push engine params next (record s { sampler_state = t })))
        by_eos true e = step_eos asks e
        by_eos false e = Forwarded-StepAnswers (forward_step-Forwarded s t next) asks e (
            forward_step-StepIsFilled engine params empty incremental next
              (record s { sampler_state = t }) h)

    decode_step-StepAnswers :
        (s : Session C L S K P)
        → IsFilled engine params empty s
        → StepAnswers s (decode_step engine params s)
    unfolding decode_step sampled
    decode_step-StepAnswers s h =
        asked-StepAnswers s
          (params.sampler s.sampler_state (prepare_logits params.penalties s.logits (before_of s)))
          (record { cache = s.cache; logits = s.logits; ran = h; picked = refl }) h

    -- The rest of a round behind the callback.
    told-EndsAnswered :
        (n : ℕ) (s : Session C L S K P) (t : S) (next : ℕ) (r : Session C L S K P × Bool) (b : Bool)
        → Asks s.sampler_state (before_of s) (t, some next)
        → is_eos engine.eos next ≡ false
        → Notified s t next r
        → (r.1 && not (ltb 0 (length params.stop) && hit_stop_sequence r.0.stop_buf params.stop))
          ≡ b
        → ((s : Session C L S K P)
            → IsFilled engine params empty s
            → EndsAnswered n s (generate_loop engine params n s))
        → EndsAnswered
            (suc n)
            s
            (elim b [ false ↦ (r.0, none) | true ↦ generate_loop engine params n r.0 ])
    told-EndsAnswered n s t next r false asks no_eos p e ih =
        λ _. (next ∷ [], p.tokens, last_token asks no_eos (rw (p.answer, p.text) at e))
    told-EndsAnswered n s t next r true asks no_eos p e ih = λ fine.
        let (more, tokens, answers) = ih r.0 p.filled fine in
        (
          next ∷ more,
          tokens ∙ ap (λ ts. ts ++ more) p.tokens ∙ append_assoc s.generated (next ∷ []) more,
          next_token asks no_eos (rw (p.answer, p.text) at e) (
              rw
                (
                  p.sampler,
                  p.callback,
                  p.prompt,
                  p.tokens,
                  p.text,
                  ← append_assoc s.prompt_tokens s.generated (next ∷ []),
                )
                at answers),
        )

    round-EndsAnswered :
        (n : ℕ) (s : Session C L S K P) (r : Session C L S K P × StepResult)
        → StepAnswers s r
        → ((s : Session C L S K P)
            → IsFilled engine params empty s
            → EndsAnswered n s (generate_loop engine params n s))
        → EndsAnswered (suc n) s (elim r.1 [
          | StepResult.ended ↦ (r.0, none)
          | StepResult.failed e ↦ (r.0, some e)
          | StepResult.token id ↦
              let (s₂, goes_on) = notify engine params id r.0 in
              elim (goes_on
                && not (ltb 0 (length params.stop) && hit_stop_sequence s₂.stop_buf params.stop)) [
                  | false ↦ (s₂, none)
                  | true ↦ generate_loop engine params n s₂
                ]
        ])
    round-EndsAnswered n s r (step_none asks) ih =
        λ _. ([], sym (append-nil s.generated), no_token asks)
    round-EndsAnswered n s r (step_eos asks e) ih =
        λ _. ([], sym (append-nil s.generated), at_eos asks e)
    round-EndsAnswered n s r (step_token {t} {next} {cache} {logits} asks e filled) ih =
        let told = notify engine params next (after s t next cache logits) in
        told-EndsAnswered n s t next told
          (told.1
            && not (ltb 0 (length params.stop) && hit_stop_sequence told.0.stop_buf params.stop))
          asks e (notify-Notified s t next cache logits filled) refl ih
    round-EndsAnswered n s r step_failed ih = λ e. absurd (cc)

    generate_loop-EndsAnswered :
        (n : ℕ) (s : Session C L S K P)
        → IsFilled engine params empty s
        → EndsAnswered n s (generate_loop engine params n s)
    unfolding generate_loop
    generate_loop-EndsAnswered zero s h =
        λ _. unfold set_reason in ([], sym (append-nil s.generated), no_rounds)
    generate_loop-EndsAnswered (suc n) s h =
        round-EndsAnswered n s (decode_step engine params s) (decode_step-StepAnswers s h)
          (λ s h. generate_loop-EndsAnswered n s h)

    -- Behind a prefill, the tokens of a generation without an error are an answer.
    pub generate_steps-Answers :
        (s : Session C L S K P)
        → IsFilled engine params empty s
        → (generate_steps engine params s).1 ≡ none
        → (more : List ℕ) × ((generate_steps engine params s).0.generated ≡ s.generated ++ more)
          × Answers (rounds engine params) s.sampler_state s.callback_state (before_of s) [] more
    unfolding generate_steps begin
    generate_steps-Answers s h fine =
        generate_loop-EndsAnswered (if params.max_tokens == 0 then 128 else params.max_tokens)
          (begin engine params s) h fine
