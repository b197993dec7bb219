-- ===== src/Runtime/Session.antt =====
-- pkg/runtime/session.go: the decode loop. The model, the tokenizer and the context length come with the
-- engine; the sampler and the callback keep a state of their own between their calls, and what the
-- package sampler does to logits is an interface. A token below 0 is `none`.
pub mod Steps
pub mod Filled
pub mod Answers
use gogguf.Base.{
  ℕ, zero, suc, ◌+◌, ◌-◌, ◌*◌, ◌/◌, ◌%◌, ◌^◌, ◌≤◌, ◌<◌, min, max, ◌≡◌, refl, sym, ap, ◌∙◌, ◌≢◌, ◌↔◌,
  ◌⊎◌, inl, inr, Bool, true, false, not, ◌&&◌, ◌||◌, Option, none, some, List, [], ◌∷◌, ◌++◌, map,
  append-nil, append_assoc, arith, ltb, leb, ◌==◌, if◌then◌else◌, ltb→lt, ltb→le, lt→ltb, le→ltb,
  leb→le, ==_iff, ==_self, Bool-cases, Option-cases, length, get_elem?, set, take, drop, replicate,
  length-append, length-replicate, length-take, length-drop, take-append-drop, take_of_length-le,
  drop_of_length-le, take-append, drop_nil, take_nil, drop-append, drop-length-append,
  take-length-append, take-append_exact, drop-append_exact, drop-drop, take-take, take-drop,
  take-add, length-set, get_elem?-set_self, get_elem?-set_ne, get_elem?-set_inv, length-map,
  get_elem?-map, get_elem?-map_inv, All, All-get_elem?, All-set,
}
use gogguf.Base.Bytes.{Bytes, equal}
use gogguf.Base.Space.{trim_space}
use gogguf.Runtime.Conversation.{Model}

pub record Engine (C L : Type 0) : Type 0 where
  pub model : Model C L
  pub eos : Option ℕ
  pub decode : List ℕ → Bytes
  pub context_length : ℕ

-- The penalties on logits, and which of them are asked for.
pub record Penalties (L : Type 0) : Type 0 where
  pub need_presence : Bool
  pub need_repeat : Bool
  pub need_bias : Bool
  pub apply_presence : L → List ℕ → L
  pub apply_repeat : L → List ℕ → L
  pub apply_bias : L → L

pub record GenerateParams (L S K P : Type 0) : Type 0 where
  pub max_tokens : ℕ
  pub stop : List Bytes
  pub sampler : S → L → S × Option ℕ
  pub on_token : Option (K → ℕ → K × Bool)
  pub logprobs : Bool
  pub logprob : L → ℕ → P
  pub penalties : Penalties L

pub data StopReason : Type 0 where
  stop_reason length_reason : StopReason

pub data StepError : Type 0 where
  context_exceeded forward_failed : StepError

-- What `DecodeStepWith` returns.
pub data StepResult : Type 0 where
  ended : StepResult
  token : ℕ → StepResult
  failed : StepError → StepResult

-- `GenerationSession`, with the cache of the model and what the sampler and the callback keep.
pub record Session (C L S K P : Type 0) : Type 0 where
  pub prompt_tokens : List ℕ
  pub generated : List ℕ
  pub logits : L
  pub stop_buf : Bytes
  pub reason : Option StopReason
  pub logprob_list : List P
  pub cache : C
  pub sampler_state : S
  pub callback_state : K

unfoldable pub has_suffix : Bytes → Bytes → Bool
unfolding equal
has_suffix text suffix =
    leb (length suffix) (length text) && equal (drop (length text - length suffix) text) suffix

-- `hitStopSequence`.
unfoldable pub hit_stop_sequence : Bytes → List Bytes → Bool
unfolding has_suffix trim_space
hit_stop_sequence text [] = false
hit_stop_sequence text (stop ∷ stops) =
    let trimmed = trim_space stop in
    (ltb 0 (length trimmed) && has_suffix text trimmed) || hit_stop_sequence text stops

-- `prepareLogits`, on the prompt and what was generated.
unfoldable pub prepare_logits : {L : Type 0} → Penalties L → L → List ℕ → L
prepare_logits p logits hist =
    let present = if p.need_presence then p.apply_presence logits hist else logits in
    let repeated = if p.need_repeat then p.apply_repeat present hist else present in
    if p.need_bias then p.apply_bias repeated else repeated

-- The end of a text is a token.
abbrev pub is_eos : Option ℕ → ℕ → Bool
is_eos eos next = elim eos [ none ↦ false | some e ↦ next == e ]

module _ {C L S K P : Type 0} (engine : Engine C L) (params : GenerateParams L S K P) where
  -- The sampler is asked.
  unfoldable pub sampled : Session C L S K P → Session C L S K P × Option ℕ
  unfolding prepare_logits
  sampled s =
      let asked =
        params.sampler s.sampler_state
          (prepare_logits params.penalties s.logits (s.prompt_tokens ++ s.generated)) in
      (record s { sampler_state = asked.0 }, asked.1)

  -- The token is recorded: its logprob, its place in the list, its text for the stop sequences.
  unfoldable pub push : ℕ → Session C L S K P → Session C L S K P
  unfolding prepare_logits
  push next s = record s {
    generated = s.generated ++ next ∷ [];
    stop_buf = s.stop_buf ++ (if ltb 0 (length params.stop) then engine.decode (next ∷ []) else []);
    logprob_list =
        s.logprob_list
        ++ (if params.logprobs
            then params.logprob
                (prepare_logits params.penalties s.logits (s.prompt_tokens ++ s.generated)) next
              ∷ []
            else []);
  }

  abbrev with_forward : C → L → Session C L S K P → Session C L S K P
  with_forward cache logits s = record s { logits = logits; cache = cache }

  -- The model is run on the recorded token, at the position of the last one.
  unfoldable pub forward_step : ℕ → Session C L S K P → Session C L S K P × StepResult
  forward_step next s =
      let start_pos = length s.prompt_tokens + length s.generated - 1 in
      let ran = engine.model.forward (next ∷ []) start_pos s.cache in
      if ltb 0 engine.context_length && leb engine.context_length start_pos
      then (s, StepResult.failed StepError.context_exceeded)
      else elim ran.1 [
        | none ↦ (with_forward ran.0 s.logits s, StepResult.failed StepError.forward_failed)
        | some logits ↦ (with_forward ran.0 logits s, StepResult.token next)
      ]

  -- `DecodeStepWith`.
  unfoldable pub decode_step : Session C L S K P → Session C L S K P × StepResult
  unfolding sampled push forward_step
  decode_step s = elim (sampled s).1 [
    | none ↦ ((sampled s).0, StepResult.ended)
    | some next ↦
        if is_eos engine.eos next
        then ((sampled s).0, StepResult.ended)
        else forward_step next (push next (sampled s).0)
  ]

  unfoldable pub set_reason : StopReason → Session C L S K P → Session C L S K P
  set_reason reason s = record s { reason = some reason }

  -- The callback, and whether it lets the loop go on.
  unfoldable pub notify : ℕ → Session C L S K P → Session C L S K P × Bool
  notify id s = elim params.on_token [
    | none ↦ (s, true)
    | some f ↦ (record s { callback_state = (f s.callback_state id).0 }, (f s.callback_state id).1)
  ]

  -- The loop of `GenerateSteps`, with the rounds that are left.
  unfoldable pub generate_loop : ℕ → Session C L S K P → Session C L S K P × Option StepError
  unfolding set_reason
  generate_loop zero s = (set_reason StopReason.length_reason s, none)
  generate_loop (suc n) s =
      let (s₁, result) = decode_step s in
      elim result [
        | StepResult.ended ↦ (s₁, none)
        | StepResult.failed e ↦ (s₁, some e)
        | StepResult.token id ↦
            let (s₂, goes_on) = notify id s₁ in
            elim (goes_on
              && not (ltb 0 (length params.stop) && hit_stop_sequence s₂.stop_buf params.stop)) [
                | false ↦ (s₂, none)
                | true ↦ generate_loop n s₂
              ]
      ]

  -- The fields that `GenerateSteps` resets; no logprobs are kept where they are asked for.
  unfoldable pub begin : Session C L S K P → Session C L S K P
  begin s = record s {
    stop_buf = [];
    reason = some StopReason.stop_reason;
    logprob_list = if params.logprobs then [] else s.logprob_list;
  }

  -- `GenerateSteps`; 128 rounds where no number is given.
  unfoldable pub generate_steps : Session C L S K P → Session C L S K P × Option StepError
  unfolding begin generate_loop
  generate_steps s =
      generate_loop (if params.max_tokens == 0 then 128 else params.max_tokens) (begin s)
