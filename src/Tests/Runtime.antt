-- ===== src/Tests/Runtime.antt =====
-- A concrete dialog and repository name for the theorems about pkg/runtime and pkg/hf.
use gogguf.Base.{
  ℕ, ◌+◌, ◌≡◌, refl, sym, ap, ◌∙◌, true, false, none, some, List, [], ◌∷◌, ◌++◌, append_assoc,
  arith, length,
}
use gogguf.Base.Bytes.{codes}
use gogguf.Base.Space.{trim_space}
use gogguf.Base.Result.{ok}
use gogguf.Runtime.Context.{Context, generate, IsAnswer, generate-IsAnswer}
use gogguf.Runtime.Session.{
  Engine, GenerateParams, Session, hit_stop_sequence, decode_step, notify, generate_steps,
}
use gogguf.Runtime.Session.Filled.{IsFilled, generate_steps-IsFilled}
use gogguf.Runtime.Session.Steps.{IsGenerated, generate_steps-IsGenerated}
use gogguf.Hf.Repo.{valid_repo_id, split_repo_tag, split_repo_tag-append}
use gogguf.Runtime.Conversation.{Model, Conversation, start_generation}
use gogguf.Runtime.Conversation.Prefix.{IsIncremental, IsCached, Fresh, start_generation-Fresh}

-- A model that keeps the tokens themselves, and gives their number.
abbrev counting_model : Model (List ℕ) ℕ
counting_model = record {
  reset_cache = λ c. [];
  forward = λ xs n c. (c ++ xs, some (length (c ++ xs)));
}

counting_model-IsIncremental : IsIncremental counting_model []
counting_model-IsIncremental = record {
  emptied = λ c. refl;
  goes_on = λ xs ys n c d l run some_more.
      let e : d ≡ c ++ xs = sym (ap (λ q. q.0) run) in
      let f : d ++ ys ≡ c ++ (xs ++ ys) = ap (λ t. t ++ ys) e ∙ append_assoc c xs ys in
      ap (λ t. (t, some (length t))) f;
}

abbrev some_dialog : Conversation (List ℕ) ℕ
some_dialog = record { backing = 1 ∷ 2 ∷ 9 ∷ []; len = 2; last_logits = some 2; cache = 1 ∷ 2 ∷ [] }

some_dialog-IsCached : IsCached counting_model [] some_dialog
some_dialog-IsCached = record {
  within = omega arith;
  at_start = λ e. absurd (omega (arith, e));
  behind = λ h. (2, refl, refl);
}

start_generation-Fresh_example :
    Fresh counting_model []
      (1 ∷ 2 ∷ 3 ∷ [])
      (1 ∷ 2 ∷ 3 ∷ [])
      3
      (start_generation counting_model 8 some_dialog (1 ∷ 2 ∷ 3 ∷ []))
start_generation-Fresh_example =
    start_generation-Fresh counting_model [] counting_model-IsIncremental 8 some_dialog
      (1 ∷ 2 ∷ 3 ∷ []) (1 ∷ 2 ∷ 3 ∷ []) 3 some_dialog-IsCached refl (omega arith) refl

repo_name_valid : valid_repo_id (codes "a/b") ≡ true
unfolding valid_repo_id
repo_name_valid = refl

repo_name_trimmed :
    trim_space (codes "a/b" ++ b':' ∷ codes "Q8_0") ≡ codes "a/b" ++ b':' ∷ codes "Q8_0"
unfolding trim_space
repo_name_trimmed = refl

split_repo_tag-append_example :
    split_repo_tag (codes "a/b" ++ b':' ∷ codes "Q8_0")
    ≡ ok (record { repo = codes "a/b"; tag = codes "Q8_0" })
split_repo_tag-append_example =
    split_repo_tag-append (codes "a/b") (codes "Q8_0") repo_name_valid
      (refl, (refl, (refl, (refl, tt)))) repo_name_trimmed

-- The sampler picks the number of tokens, the token 6 is the end.
abbrev some_engine : Engine (List ℕ) ℕ
some_engine = record {
  model = counting_model;
  eos = some 6;
  decode = λ ids. ids;
  context_length = 8;
}

abbrev some_params : GenerateParams ℕ ℕ ℕ ℕ
some_params = record {
  max_tokens = 10;
  stop = codes "ab" ∷ [];
  sampler = λ calls logits. (calls + 1, some logits);
  on_token = some (λ calls id. (calls + 1, true));
  logprobs = true;
  logprob = λ logits id. id;
  penalties = record {
    need_presence = false;
    need_repeat = true;
    need_bias = false;
    apply_presence = λ logits hist. logits;
    apply_repeat = λ logits hist. logits;
    apply_bias = λ logits. logits;
  };
}

abbrev some_session : Session (List ℕ) ℕ ℕ ℕ ℕ
some_session = record {
  prompt_tokens = 1 ∷ 2 ∷ [];
  generated = [];
  logits = 2;
  stop_buf = [];
  reason = none;
  logprob_list = [];
  cache = 1 ∷ 2 ∷ [];
  sampler_state = 0;
  callback_state = 0;
}

generate_steps-IsGenerated_example :
    IsGenerated some_engine some_params some_session
      (generate_steps some_engine some_params some_session)
generate_steps-IsGenerated_example = generate_steps-IsGenerated some_engine some_params some_session

-- The tokens 2, 3, 4 and 5, and then the end.
four_tokens : (generate_steps some_engine some_params some_session).0.generated ≡ 2 ∷ 3 ∷ 4 ∷ 5 ∷ []
unfolding generate_steps decode_step notify hit_stop_sequence
four_tokens = refl

some_run-succeeds : (generate_steps some_engine some_params some_session).1 ≡ none
unfolding generate_steps decode_step notify hit_stop_sequence
some_run-succeeds = refl

generate_steps-IsFilled_example :
    IsFilled some_engine some_params [] (generate_steps some_engine some_params some_session).0
generate_steps-IsFilled_example =
    generate_steps-IsFilled some_engine some_params [] counting_model-IsIncremental some_session
      refl some_run-succeeds

abbrev some_context : Context (List ℕ) ℕ
some_context = record {
  engine = some_engine;
  encode = λ text. some (2 ∷ []);
  arch = some (codes "llama");
  meta_bos = some 1;
  tok_bos = some 1;
}

some_context-answers :
    generate some_context some_params 0 0 (7 ∷ []) (codes "hi") ≡ ok (2 ∷ 3 ∷ 4 ∷ 5 ∷ [])
unfolding generate generate_steps decode_step notify hit_stop_sequence
some_context-answers = refl

generate-IsAnswer_example :
    IsAnswer some_context some_params [] 0 0 (codes "hi") (2 ∷ 3 ∷ 4 ∷ 5 ∷ [])
generate-IsAnswer_example =
    generate-IsAnswer some_context some_params [] counting_model-IsIncremental 0 0 (7 ∷ [])
      (codes "hi") (2 ∷ 3 ∷ 4 ∷ 5 ∷ []) some_context-answers
