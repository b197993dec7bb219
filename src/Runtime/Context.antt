-- ===== src/Runtime/Context.antt =====
-- pkg/runtime/context.go and the start of session.go: generation from a prompt. `Encode` of the tokenizer
-- and what the metadata say about the first token come with the context; a token below 0 is `none`. The cache
-- behind an error is not kept, since every start resets it.
use gogguf.Base.{
  ℕ, ◌≤◌, ◌≡◌, refl, sym, ap, ◌∙◌, Bool, false, not, ◌&&◌, ◌||◌, Option, none, some, List, [], ◌∷◌,
  ◌++◌, append-nil, arith, ltb, ◌==◌, if◌then◌else◌, length,
}
use gogguf.Base.Bytes.{Bytes, codes, equal}
use gogguf.Base.Result.{Result, ok, err, ◌>>=◌, >>=-eq-ok}
use gogguf.Base.Outcome.{Promises, gives, fails, Promises-ok, if_holds}
use gogguf.Runtime.Conversation.Prefix.{IsIncremental}
use gogguf.Runtime.Session.{Engine, GenerateParams, Session, StepError, generate_steps}
use gogguf.Runtime.Session.Filled.{IsFilled, generate_steps-IsFilled}
use gogguf.Runtime.Session.Answers.{Answers, generate_steps-Answers}
use gogguf.Runtime.Session.Steps.{rounds, generate_steps-IsGenerated}

-- `arch` is `general.architecture`, `meta_bos` the first token of the metadata, `tok_bos` that of the
-- tokenizer.
pub record Context (C L : Type 0) : Type 0 where
  pub engine : Engine C L
  pub encode : Bytes → Option (List ℕ)
  pub arch : Option Bytes
  pub meta_bos : Option ℕ
  pub tok_bos : Option ℕ

pub data GenerateError : Type 0 where
  encode_failed prompt_too_long prefill_failed : GenerateError
  step_failed : StepError → GenerateError

unfoldable pub starts_with : ℕ → List ℕ → Bool
starts_with bos [] = false
starts_with bos (id ∷ ids) = id == bos

module _ {C L : Type 0} (ctx : Context C L) where
  -- `needsBOSPrefix`.
  unfoldable pub needs_bos_prefix : List ℕ → Bool
  unfolding equal starts_with
  needs_bos_prefix ids = elim ctx.arch [
    | none ↦ false
    | some arch ↦
        (equal arch (codes "llama") || equal arch (codes "mistral"))
        && (elim ctx.meta_bos [ none ↦ false | some bos ↦ not (starts_with bos ids) ])
  ]

  -- `encodeForInference`.
  unfoldable pub encode_for_inference : Bytes → Option (List ℕ)
  unfolding needs_bos_prefix
  encode_for_inference text = elim (ctx.encode text) [
    | none ↦ none
    | some ids ↦
        if needs_bos_prefix ids
        then elim ctx.tok_bos [ none ↦ some ids | some bos ↦ some (bos ∷ ids) ]
        else some ids
  ]

  module _ {S K P : Type 0} where
    -- The session behind the prefill.
    abbrev pub session_of : S → K → List ℕ → C → L → Session C L S K P
    session_of s k ids cache logits = record {
      prompt_tokens = ids;
      generated = [];
      logits = logits;
      stop_buf = [];
      reason = none;
      logprob_list = [];
      cache = cache;
      sampler_state = s;
      callback_state = k;
    }

    -- The run of the model over the prompt.
    unfoldable pub prefill : S → K → List ℕ → C → Result GenerateError (Session C L S K P)
    prefill s k ids cache =
        let ran = ctx.engine.model.forward ids 0 (ctx.engine.model.reset_cache cache) in
        if ltb 0 ctx.engine.context_length && ltb ctx.engine.context_length (length ids)
        then err GenerateError.prompt_too_long
        else elim ran.1 [
          | none ↦ err GenerateError.prefill_failed
          | some logits ↦ ok (session_of s k ids ran.0 logits)
        ]

    -- `StartGeneration`.
    unfoldable pub start_session : S → K → C → Bytes → Result GenerateError (Session C L S K P)
    unfolding encode_for_inference prefill
    start_session s k cache prompt = elim (encode_for_inference prompt) [
      | none ↦ err GenerateError.encode_failed
      | some ids ↦ prefill s k ids cache
    ]

    -- `Generate`.
    unfoldable pub generate :
        GenerateParams L S K P → S → K → C → Bytes → Result GenerateError Bytes
    unfolding start_session generate_steps
    generate params s k cache prompt = do
      session ← start_session s k cache prompt
      let (later, error) = generate_steps ctx.engine params session
      elim error [
        | some e ↦ err (GenerateError.step_failed e)
        | none ↦ ok (ctx.engine.decode later.generated)
      ]

module _ {C L S K P : Type 0} (ctx : Context C L) (params : GenerateParams L S K P)
    (empty : C) where
  -- The text is that of the tokens that are picked behind the prompt, one by one, each from the logits of
  -- a run over all tokens before it, and the model runs on all of them.
  pub record IsAnswer (s : S) (k : K) (prompt text : Bytes) : Type 0 where
    pub ids : List ℕ
    pub encoded : encode_for_inference ctx prompt ≡ some ids
    pub more : List ℕ
    pub answers : Answers ctx.engine params empty (rounds ctx.engine params) s k ids [] more
    pub bound : length more ≤ rounds ctx.engine params
    pub decoded : text ≡ ctx.engine.decode more
    pub cache : C
    pub logits : L
    pub ran : ctx.engine.model.forward (ids ++ more) 0 empty ≡ (cache, some logits)

  module _ (incremental : IsIncremental ctx.engine.model empty) where
    -- A session whose cache is filled with the prompt.
    abbrev IsStarted : S → K → List ℕ → Session C L S K P → Type 0
    IsStarted s k ids session =
        IsFilled ctx.engine params empty session
        × (session.prompt_tokens ≡ ids)
        × (session.generated ≡ [])
        × (session.sampler_state ≡ s)
        × (session.callback_state ≡ k)

    abbrev Starts : S → K → List ℕ → Result GenerateError (Session C L S K P) → Type 0
    Starts s k ids r = Promises (IsStarted s k ids) (λ _. Unit {0}) r

    prefilled-Starts :
        (s : S) (k : K) (ids : List ℕ) (out : C × Option L)
        → ctx.engine.model.forward ids 0 empty ≡ out
        → Starts s k ids (elim out.1 [
          | none ↦ err GenerateError.prefill_failed
          | some logits ↦ ok (session_of ctx s k ids out.0 logits)
        ])
    prefilled-Starts s k ids (cache, none) e = fails tt
    prefilled-Starts s k ids (cache, some logits) e = gives (
      ap (λ ts. ctx.engine.model.forward ts 0 empty) (append-nil ids) ∙ e,
      refl,
      refl,
      refl,
      refl,
    )

    prefill-Starts :
        (s : S) (k : K) (ids : List ℕ) (cache : C) → Starts s k ids (prefill ctx s k ids cache)
    unfolding prefill
    prefill-Starts s k ids cache =
        let reset = ctx.engine.model.reset_cache cache in
        if_holds (Starts s k ids)
          (ltb 0 ctx.engine.context_length && ltb ctx.engine.context_length (length ids)) (fails tt)
          (prefilled-Starts s k ids (ctx.engine.model.forward ids 0 reset)
            (ap (λ c. ctx.engine.model.forward ids 0 c) (sym (incremental.emptied cache))))

    start_session-Starts :
        (s : S) (k : K) (cache : C) (prompt : Bytes) (session : Session C L S K P)
        → start_session ctx s k cache prompt ≡ ok session
        → (ids : List ℕ) × (encode_for_inference ctx prompt ≡ some ids) × IsStarted s k ids session
    unfolding start_session
    start_session-Starts s k cache prompt session started =
        encoded (encode_for_inference ctx prompt) refl started
      where
        encoded :
            (o : Option (List ℕ))
            → encode_for_inference ctx prompt ≡ o
            → (elim o as (λ _. Result GenerateError (Session C L S K P)) [
              | none ↦ err GenerateError.encode_failed
              | some ids ↦ prefill ctx s k ids cache
            ])
              ≡ ok session
            → (ids : List ℕ) × (encode_for_inference ctx prompt ≡ some ids)
              × IsStarted s k ids session
        encoded none e run = absurd (cc)
        encoded (some ids) e run = (ids, e, Promises-ok (prefill-Starts s k ids cache) run)

    answered :
        (r : Session C L S K P × Option StepError) (text : Bytes)
        → (elim r.1 as (λ _. Result GenerateError Bytes) [
          | some e ↦ err (GenerateError.step_failed e)
          | none ↦ ok (ctx.engine.decode r.0.generated)
        ])
          ≡ ok text
        → (r.1 ≡ none) × (text ≡ ctx.engine.decode r.0.generated)
    answered (later, none) text run = (refl, cc)
    answered (later, some e) text run = absurd (cc)

    -- With a model that goes on from its cache, a text that `Generate` returns is that of the tokens behind
    -- the prompt that the sampler picks, round by round: each one from the logits that one run over the
    -- prompt and all tokens before it gives from an empty cache, with the penalties for these. They end,
    -- after at most `rounds`, where there is no next token, at an EOS token, which is left out, or behind a
    -- token where the callback or a stop sequence ends them. The model runs on all of them as if at once.
    pub generate-IsAnswer :
        (s : S) (k : K) (cache : C) (prompt text : Bytes)
        → generate ctx params s k cache prompt ≡ ok text
        → IsAnswer s k prompt text
    unfolding generate
    generate-IsAnswer s k cache prompt text run =
        let (session, started, ended) = >>=-eq-ok (start_session ctx s k cache prompt) _ run in
        let (ids, encoded, begun) = start_session-Starts s k cache prompt session started in
        let (filled, prompts, fresh, sampler, callback) = begun in
        let later = (generate_steps ctx.engine params session).0 in
        let (no_error, decoded) = answered (generate_steps ctx.engine params session) text ended in
        let made = generate_steps-IsGenerated ctx.engine params session in
        let all_filled =
          generate_steps-IsFilled ctx.engine params empty incremental session filled no_error in
        let (more, tokens, answers) =
          generate_steps-Answers ctx.engine params empty incremental session filled no_error in
        let given : later.generated ≡ more = tokens ∙ ap (λ ts. ts ++ more) fresh in
        let counted : later.generated ≡ made.more =
          made.tokens ∙ ap (λ ts. ts ++ made.more) fresh in
        let same : later.prompt_tokens ≡ ids = made.prompt ∙ prompts in
        record {
          ids = ids;
          encoded = encoded;
          more = more;
          answers = rw (sampler, callback, prompts, fresh, append-nil ids) at answers;
          bound = omega (arith, ap length given, ap length counted, made.bound);
          decoded = decoded ∙ ap ctx.engine.decode given;
          cache = later.cache;
          logits = later.logits;
          ran =
              ap (λ ts. ctx.engine.model.forward (ts ++ more) 0 empty) (sym same)
              ∙ ap (λ ts. ctx.engine.model.forward (later.prompt_tokens ++ ts) 0 empty) (sym given)
              ∙ all_filled;
        }
