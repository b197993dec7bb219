-- ===== src/Runtime/Session/Steps.antt =====
-- pkg/runtime/session.go: what the decode loop leaves behind, for any model, sampler and callback.
use gogguf.Base.{
  ℕ, zero, suc, ◌+◌, ◌-◌, ◌≤◌, ◌<◌, ◌≡◌, refl, sym, ap, ◌∙◌, ◌≢◌, inl, inr, Bool, true, false, not,
  ◌&&◌, Option, none, some, List, [], ◌∷◌, ◌++◌, map, append-nil, append_assoc, arith, ltb, leb,
  ◌==◌, if◌then◌else◌, Bool-cases, length, All,
}
use mathlib.Core.Path.{subst}
use gogguf.Base.Bytes.{Bytes, join, join-append}
use gogguf.Runtime.Session.{
  Engine, GenerateParams, StopReason, StepError, StepResult, Session, hit_stop_sequence, is_eos,
  sampled, push, forward_step, decode_step, set_reason, notify, generate_loop, begin,
  generate_steps,
}

module _ {C L S K P : Type 0} (engine : Engine C L) (params : GenerateParams L S K P) where
  -- What a token adds to the text that the stop sequences are looked for in.
  abbrev pub text_of : ℕ → Bytes
  text_of id = if ltb 0 (length params.stop) then engine.decode (id ∷ []) else []

  abbrev IsNoEos : ℕ → Type 0
  IsNoEos id = is_eos engine.eos id ≡ false

  -- The prompt and the tokens are within the context, if it is bounded.
  abbrev pub Fits : Session C L S K P → Type 0
  Fits s =
      0 < engine.context_length
      → length s.prompt_tokens + length s.generated ≤ engine.context_length

  -- The tokens are behind the ones before, and nothing else that the loop looks at has changed.
  pub record IsRecorded (more : List ℕ) (s later : Session C L S K P) : Type 0 where
    pub tokens : later.generated ≡ s.generated ++ more
    pub prompt : later.prompt_tokens ≡ s.prompt_tokens
    pub text : later.stop_buf ≡ s.stop_buf ++ join (map text_of more)
    pub no_eos : All IsNoEos more

  IsRecorded-trans :
      {xs ys : List ℕ} {s mid later : Session C L S K P}
      → IsRecorded xs s mid
      → IsRecorded ys mid later
      → IsRecorded (xs ++ ys) s later
  IsRecorded-trans {xs} {ys} {s} {mid} {later} p q = record {
    tokens = q.tokens ∙ ap (λ ts. ts ++ ys) p.tokens ∙ append_assoc s.generated xs ys;
    prompt = q.prompt ∙ p.prompt;
    text =
        q.text
        ∙ ap (λ t. t ++ join (map text_of ys)) p.text
        ∙ append_assoc s.stop_buf (join (map text_of xs)) (join (map text_of ys))
        ∙ ap (λ t. s.stop_buf ++ t)
            (sym (join-append (map text_of xs) (map text_of ys)) ∙ ap join (maps xs));
    no_eos = both xs p.no_eos q.no_eos;
  }
    where
      maps : (xs : List ℕ) → map text_of xs ++ map text_of ys ≡ map text_of (xs ++ ys)
      maps [] = refl
      maps (x ∷ xs) = ap (λ ts. text_of x ∷ ts) (maps xs)

      both : (xs : List ℕ) → All IsNoEos xs → All IsNoEos ys → All IsNoEos (xs ++ ys)
      both [] h k = k
      both (x ∷ xs) (h, hs) k = (h, both xs hs k)

  IsRecorded-none :
      {s later : Session C L S K P}
      → later.generated ≡ s.generated
      → later.prompt_tokens ≡ s.prompt_tokens
      → later.stop_buf ≡ s.stop_buf
      → IsRecorded [] s later
  IsRecorded-none {s} {later} g p t = record {
    tokens = g ∙ sym (append-nil s.generated);
    prompt = p;
    text = t ∙ sym (append-nil s.stop_buf);
    no_eos = tt;
  }

  IsRecorded-one :
      (id : ℕ) {s later : Session C L S K P}
      → later.generated ≡ s.generated ++ id ∷ []
      → later.prompt_tokens ≡ s.prompt_tokens
      → later.stop_buf ≡ s.stop_buf ++ text_of id
      → IsNoEos id
      → IsRecorded (id ∷ []) s later
  IsRecorded-one id {s} {later} g p t e = record {
    tokens = g;
    prompt = p;
    text = t ∙ ap (λ u. s.stop_buf ++ u) (sym (append-nil (text_of id)));
    no_eos = (e, tt);
  }

  -- What a step does, by its result.
  abbrev StepIs : Session C L S K P → Session C L S K P × StepResult → Type 0
  StepIs s r = (r.0.reason ≡ s.reason) × (elim r.1 [
    | StepResult.ended ↦ IsRecorded [] s r.0
    | StepResult.token id ↦ IsRecorded (id ∷ []) s r.0 × Fits r.0
    | StepResult.failed e ↦ (id : ℕ) × IsRecorded (id ∷ []) s r.0
  ])

  forward_step-StepIs :
      (next : ℕ) (s : Session C L S K P)
      → IsNoEos next
      → StepIs s (forward_step engine params next (push engine params next s))
  unfolding forward_step push
  forward_step-StepIs next s e = elim (Bool-cases tested) [
    | inl refused ↦
        subst
          (λ b.
            StepIs s
              (if b then (pushed, StepResult.failed StepError.context_exceeded) else outcome ran))
          (sym refused) (refl, (next, recorded))
    | inr inside ↦
        subst
          (λ b.
            StepIs s
              (if b then (pushed, StepResult.failed StepError.context_exceeded) else outcome ran))
          (sym inside) (forwarded inside ran)
  ]
    where
      pushed : Session C L S K P
      pushed = push engine params next s

      start_pos : ℕ
      start_pos = length pushed.prompt_tokens + length pushed.generated - 1

      tested : Bool
      tested = ltb 0 engine.context_length && leb engine.context_length start_pos

      ran : C × Option L
      ran = engine.model.forward (next ∷ []) start_pos pushed.cache

      outcome : C × Option L → Session C L S K P × StepResult
      outcome out = elim out.1 [
        | none ↦ (
          record pushed { cache = out.0; logits = pushed.logits },
          StepResult.failed StepError.forward_failed,
        )
        | some logits ↦ (record pushed { cache = out.0; logits = logits }, StepResult.token next)
      ]

      recorded :
          {cache : C} {logits : L}
          → IsRecorded (next ∷ []) s (record pushed { cache = cache; logits = logits })
      recorded = IsRecorded-one next refl refl refl e

      fits :
          (cache : C) (logits : L)
          → tested ≡ false
          → Fits (record pushed { cache = cache; logits = logits })
      fits cache logits inside bounded = ground (arith, inside, bounded)

      forwarded : tested ≡ false → (out : C × Option L) → StepIs s (outcome out)
      forwarded inside (cache, none) = (refl, (next, recorded))
      forwarded inside (cache, some logits) = (refl, (recorded, fits cache logits inside))

  -- A step from a state that the loop cannot tell from the one before.
  StepIs-trans :
      (s mid : Session C L S K P) (r : Session C L S K P × StepResult)
      → IsRecorded [] s mid
      → mid.reason ≡ s.reason
      → StepIs mid r
      → StepIs s r
  StepIs-trans s mid (later, StepResult.ended) p same (e, q) = (e ∙ same, IsRecorded-trans p q)
  StepIs-trans s mid (later, StepResult.token id) p same (e, q) =
      (e ∙ same, (IsRecorded-trans p q.0, q.1))
  StepIs-trans s mid (later, StepResult.failed err) p same (e, q) =
      (e ∙ same, (q.0, IsRecorded-trans p q.1))

  decode_step-StepIs : (s : Session C L S K P) → StepIs s (decode_step engine params s)
  unfolding decode_step
  decode_step-StepIs s =
      elim (sampled engine params s).1
        as (λ o. StepIs s (elim o [
          | none ↦ ((sampled engine params s).0, StepResult.ended)
          | some next ↦
              if is_eos engine.eos next
              then ((sampled engine params s).0, StepResult.ended)
              else forward_step engine params next
                  (push engine params next (sampled engine params s).0)
        ])) [
          | none ↦ (unfold sampled in refl, kept)
          | some next ↦ elim (Bool-cases (is_eos engine.eos next)) [
            | inl last ↦
                subst (λ b. StepIs s (if b then (asked, StepResult.ended) else go_on next))
                  (sym last) (unfold sampled in refl, kept)
            | inr other ↦
                subst (λ b. StepIs s (if b then (asked, StepResult.ended) else go_on next))
                  (sym other)
                  (StepIs-trans s asked (go_on next) kept (unfold sampled in refl)
                    (forward_step-StepIs next asked other))
          ]
        ]
    where
      asked : Session C L S K P
      asked = (sampled engine params s).0

      go_on : ℕ → Session C L S K P × StepResult
      go_on next = forward_step engine params next (push engine params next asked)

      kept : IsRecorded [] s asked
      kept = unfold sampled in IsRecorded-none refl refl refl

  -- What is left behind by at most n rounds.
  pub record IsRun (n : ℕ) (s : Session C L S K P) (r : Session C L S K P × Option StepError)
      : Type 0 where
    pub more : List ℕ
    pub recorded : IsRecorded more s r.0
    pub bound : length more ≤ n
    pub full :
        s.reason ≢ some StopReason.length_reason
        → r.0.reason ≡ some StopReason.length_reason
        → (length more ≡ n) × (r.1 ≡ none)
    pub fits : r.1 ≡ none → 0 < length more → Fits r.0

  -- No round goes on.
  ended-IsRun :
      (n : ℕ) (s later : Session C L S K P)
      → IsRecorded [] s later
      → later.reason ≡ s.reason
      → IsRun n s (later, none)
  ended-IsRun n s later p same = record {
    more = [];
    recorded = p;
    bound = omega arith;
    full = λ old new. absurd (old (sym same ∙ new));
    fits = λ e more. absurd (omega (arith, more));
  }

  failed-IsRun :
      (n id : ℕ) (s later : Session C L S K P) (e : StepError)
      → IsRecorded (id ∷ []) s later
      → later.reason ≡ s.reason
      → IsRun (suc n) s (later, some e)
  failed-IsRun n id s later e p same = record {
    more = id ∷ [];
    recorded = p;
    bound = omega arith;
    full = λ old new. absurd (old (sym same ∙ new));
    fits = λ none_given more. absurd (cc);
  }

  last-IsRun :
      (n id : ℕ) (s later : Session C L S K P)
      → IsRecorded (id ∷ []) s later
      → later.reason ≡ s.reason
      → Fits later
      → IsRun (suc n) s (later, none)
  last-IsRun n id s later p same fits = record {
    more = id ∷ [];
    recorded = p;
    bound = omega arith;
    full = λ old new. absurd (old (sym same ∙ new));
    fits = λ e more. fits;
  }

  next-IsRun :
      (n id : ℕ) (s mid : Session C L S K P) (r : Session C L S K P × Option StepError)
      → IsRecorded (id ∷ []) s mid
      → mid.reason ≡ s.reason
      → Fits mid
      → IsRun n mid r
      → IsRun (suc n) s r
  next-IsRun n id s mid r p same fits run = record {
    more = id ∷ run.more;
    recorded = IsRecorded-trans p run.recorded;
    bound = omega (arith, run.bound);
    full = λ old new.
        let (all_rounds, no_error) = run.full (λ e. old (sym same ∙ e)) new in
        (ap suc all_rounds, no_error);
    fits = λ e positive. still run.more run.recorded run.fits e;
  }
    where
      still :
          (more : List ℕ)
          → IsRecorded more mid r.0
          → (r.1 ≡ none → 0 < length more → Fits r.0)
          → r.1 ≡ none
          → Fits r.0
      still [] q h e = λ bounded.
          let prompt : length r.0.prompt_tokens ≡ length mid.prompt_tokens = ap length q.prompt in
          let tokens : length r.0.generated ≡ length mid.generated =
            ap length q.tokens ∙ ap length (append-nil mid.generated) in
          omega (arith, prompt, tokens, fits bounded)
      still (x ∷ xs) q h e = h e (omega arith)

  abbrev NotifyIs : Session C L S K P → Session C L S K P × Bool → Type 0
  NotifyIs s r =
      (r.0.generated ≡ s.generated)
      × (r.0.prompt_tokens ≡ s.prompt_tokens)
      × (r.0.stop_buf ≡ s.stop_buf)
      × (r.0.reason ≡ s.reason)

  notify-NotifyIs : (id : ℕ) (s : Session C L S K P) → NotifyIs s (notify engine params id s)
  unfolding notify
  notify-NotifyIs id s =
      elim params.on_token
        as (λ o. NotifyIs s (elim o [
          | none ↦ (s, true)
          | some f ↦
              (record s { callback_state = (f s.callback_state id).0 }, (f s.callback_state id).1)
        ])) [ none ↦ (refl, refl, refl, refl) | some f ↦ (refl, refl, refl, refl) ]

  -- One round, given what is left behind by the others.
  round-IsRun :
      (n : ℕ) (s : Session C L S K P) (r : Session C L S K P × StepResult)
      → ((s : Session C L S K P) → IsRun n s (generate_loop engine params n s))
      → StepIs s r
      → IsRun (suc n) s (elim r.1 [
        | StepResult.ended ↦ (r.0, none)
        | StepResult.failed e ↦ (r.0, some e)
        | StepResult.token id ↦
            let (s₂, goes_on) = notify engine params id r.0 in
            elim (goes_on
              && not (ltb 0 (length params.stop) && hit_stop_sequence s₂.stop_buf params.stop)) [
                | false ↦ (s₂, none)
                | true ↦ generate_loop engine params n s₂
              ]
      ])
  round-IsRun n s (later, StepResult.ended) ih (same, p) = ended-IsRun (suc n) s later p same
  round-IsRun n s (later, StepResult.failed e) ih (same, p) = failed-IsRun n p.0 s later e p.1 same
  round-IsRun n s (later, StepResult.token id) ih (same, p) =
      let told = (notify engine params id later).0 in
      let (tokens, prompt, text, reason) = notify-NotifyIs id later in
      let q : IsRecorded (id ∷ []) s told =
        IsRecorded-trans p.0 (IsRecorded-none tokens prompt text) in
      let unchanged : told.reason ≡ s.reason = reason ∙ same in
      let fits : Fits told = λ bounded.
        let prompts : length told.prompt_tokens ≡ length later.prompt_tokens = ap length prompt in
        let lengths : length told.generated ≡ length later.generated = ap length tokens in
        omega (arith, prompts, lengths, p.1 bounded) in
      elim ((notify engine params id later).1
          && not (ltb 0 (length params.stop) && hit_stop_sequence told.stop_buf params.stop))
        as (λ b.
          IsRun (suc n) s
            (elim b [ false ↦ (told, none) | true ↦ generate_loop engine params n told ])) [
              | false ↦ last-IsRun n id s told q unchanged fits
              | true ↦
                  next-IsRun n id s told (generate_loop engine params n told) q unchanged fits
                    (ih told)
            ]

  generate_loop-IsRun :
      (n : ℕ) (s : Session C L S K P) → IsRun n s (generate_loop engine params n s)
  unfolding generate_loop
  generate_loop-IsRun zero s =
      unfold set_reason in
      record {
        more = [];
        recorded = IsRecorded-none refl refl refl;
        bound = omega arith;
        full = λ old new. (refl, refl);
        fits = λ e positive. absurd (omega (arith, positive));
      }
  generate_loop-IsRun (suc n) s =
      round-IsRun n s (decode_step engine params s) (λ s. generate_loop-IsRun n s)
        (decode_step-StepIs s)

  -- The rounds that are asked for, 128 where no number is given.
  abbrev pub rounds : ℕ
  rounds = if params.max_tokens == 0 then 128 else params.max_tokens

  -- What `GenerateSteps` leaves behind a session.
  pub record IsGenerated (s : Session C L S K P) (r : Session C L S K P × Option StepError)
      : Type 0 where
    pub more : List ℕ
    pub tokens : r.0.generated ≡ s.generated ++ more
    pub prompt : r.0.prompt_tokens ≡ s.prompt_tokens
    pub text : r.0.stop_buf ≡ join (map text_of more)
    pub no_eos : All IsNoEos more
    pub bound : length more ≤ rounds
    pub full : r.0.reason ≡ some StopReason.length_reason → (length more ≡ rounds) × (r.1 ≡ none)
    pub fits : r.1 ≡ none → 0 < length more → Fits r.0

  -- `GenerateSteps`, for any model, sampler and callback, keeps the prompt and puts at most `rounds` tokens
  -- behind the ones before, none of them the end of the text. The text for the stop sequences is theirs,
  -- and empty where no stop sequence is given. The reason is `length` only after all rounds and without
  -- an error. Without an error, and with a new token, the prompt and the tokens are within the context
  -- length, if there is one.
  pub generate_steps-IsGenerated :
      (s : Session C L S K P) → IsGenerated s (generate_steps engine params s)
  unfolding generate_steps
  generate_steps-IsGenerated s =
      let run = generate_loop-IsRun rounds (begin engine params s) in
      let fresh : some StopReason.stop_reason ≢ some StopReason.length_reason = λ e. absurd (cc) in
      unfold begin in
      record {
        more = run.more;
        tokens = run.recorded.tokens;
        prompt = run.recorded.prompt;
        text = run.recorded.text;
        no_eos = run.recorded.no_eos;
        bound = run.bound;
        full = run.full fresh;
        fits = run.fits;
      }
