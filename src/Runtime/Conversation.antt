-- ===== src/Runtime/Conversation.antt =====
-- pkg/runtime/conversation.go. The model with its cache is an interface: `ResetCache`, and
-- `Forward` at a position, which may fail and changes the cache also then. The tokens of a dialog are
-- a slice: its backing array up to the capacity, and its length, since `rollback` looks behind it.
pub mod Prefix
use gogguf.Base.{
  ℕ, zero, suc, ◌+◌, ◌-◌, ◌*◌, ◌/◌, ◌%◌, ◌^◌, ◌≤◌, ◌<◌, min, max, ◌≡◌, refl, sym, ap, ◌∙◌, ◌≢◌, ◌↔◌,
  ◌⊎◌, inl, inr, Bool, true, false, not, ◌&&◌, ◌||◌, Option, none, some, List, [], ◌∷◌, ◌++◌, map,
  append-nil, append_assoc, arith, ltb, leb, ◌==◌, if◌then◌else◌, ltb→lt, ltb→le, lt→ltb, le→ltb,
  leb→le, ==_iff, ==_self, Bool-cases, Option-cases, length, get_elem?, set, take, drop, replicate,
  length-append, length-replicate, length-take, length-drop, take-append-drop, take_of_length-le,
  drop_of_length-le, take-append, drop_nil, take_nil, drop-append, drop-length-append,
  take-length-append, take-append_exact, drop-append_exact, drop-drop, take-take, take-drop,
  take-add, length-set, get_elem?-set_self, get_elem?-set_ne, get_elem?-set_inv, length-map,
  get_elem?-map, get_elem?-map_inv, All, All-get_elem?, All-set,
}
use gogguf.Base.Result.{Result, ok, err, ◌>>=◌}

pub record Model (C L : Type 0) : Type 0 where
  pub reset_cache : C → C
  pub forward : List ℕ → ℕ → C → C × Option L

-- `last_logits` is nil as `none`; `Forward` gives logits of a length that is not 0.
pub record Conversation (C L : Type 0) : Type 0 where
  pub backing : List ℕ
  pub len : ℕ
  pub last_logits : Option L
  pub cache : C

pub record GenerationSession (L : Type 0) : Type 0 where
  pub prompt_tokens : List ℕ
  pub generated : List ℕ
  pub logits : L

pub data RunError : Type 0 where
  context_exceeded forward_failed empty_prompt no_cached_logits panics : RunError

-- `append`: in place where the capacity is enough, and to a new array otherwise.
unfoldable pub append_tokens : List ℕ → ℕ → List ℕ → List ℕ
append_tokens backing len new =
    take len backing
    ++ new
    ++ (if leb (len + length new) (length backing) then drop (len + length new) backing else [])

unfoldable pub tokens_prefix_equal : List ℕ → List ℕ → ℕ → Bool
tokens_prefix_equal a b zero = true
tokens_prefix_equal (x ∷ a) (y ∷ b) (suc n) = if x == y then tokens_prefix_equal a b n else false
tokens_prefix_equal _ _ (suc n) = false

unfoldable pub should_reset_conversation : ℕ → List ℕ → List ℕ → Bool
unfolding tokens_prefix_equal
should_reset_conversation cached conv_tokens prompt_tokens =
    ltb (length prompt_tokens) cached || not (tokens_prefix_equal conv_tokens prompt_tokens cached)

module _ {C L : Type 0} where
  -- `conv.tokens`.
  abbrev pub tokens : Conversation C L → List ℕ
  tokens conv = take conv.len conv.backing

  unfoldable pub new_conversation : C → Conversation C L
  new_conversation cache = record { backing = []; len = 0; last_logits = none; cache = cache }

  unfoldable pub token_count : Conversation C L → ℕ
  token_count conv = conv.len

module _ {C L : Type 0} (model : Model C L) where
  unfoldable pub reset : Conversation C L → Conversation C L
  reset conv = record {
    backing = conv.backing;
    len = 0;
    last_logits = none;
    cache = model.reset_cache conv.cache;
  }

  -- The state behind a `Forward` of saved tokens from an empty cache, in `LoadKVCache`.
  unfoldable pub load_kv_cache : Conversation C L → Conversation C L × Result RunError (Unit {0})
  load_kv_cache conv =
      let empty = model.reset_cache conv.cache in
      let cleared = record conv { last_logits = none; cache = empty } in
      if conv.len == 0
      then (cleared, ok tt)
      else let (cache, result) = model.forward (tokens conv) 0 empty in
        elim result [
          | none ↦ (record cleared { cache = cache }, err RunError.forward_failed)
          | some logits ↦ (record cleared { cache = cache; last_logits = some logits }, ok tt)
        ]

  unfoldable pub commit : Conversation C L → GenerationSession L → Conversation C L
  unfolding append_tokens
  commit conv sess = record conv {
    backing = append_tokens conv.backing conv.len sess.generated;
    len = conv.len + length sess.generated;
    last_logits = some sess.logits;
  }

  -- `rollback`: the slice up to `token_len` may reach behind the length, up to the capacity.
  unfoldable pub rollback : Conversation C L → ℕ → Result RunError (Conversation C L)
  unfolding reset
  rollback conv token_len =
      let saved = take token_len conv.backing in
      let empty = reset conv in
      if ltb (length conv.backing) token_len
      then err RunError.panics
      else if token_len == 0
      then ok empty
      else let (cache, result) = model.forward saved 0 empty.cache in
        elim result [
          | none ↦ ok (record empty { cache = cache })
          | some logits ↦ ok (record {
            backing = saved;
            len = token_len;
            last_logits = some logits;
            cache = cache;
          })
        ]

  abbrev pub session_of : List ℕ → L → GenerationSession L
  session_of prompt_tokens logits = record {
    prompt_tokens = prompt_tokens;
    generated = [];
    logits = logits;
  }

  abbrev pub Outcome : Type 0
  Outcome = Result RunError (Conversation C L × Result RunError (GenerationSession L))

  -- What `startGeneration` does with the outcome of `Forward` on the new tokens.
  unfoldable pub store : Conversation C L → List ℕ → List ℕ → C × Option L → Outcome
  unfolding append_tokens rollback
  store conv prompt_tokens new_tokens (cache, none) = do
    back ← rollback (record conv { cache = cache }) conv.len
    ok (back, err RunError.forward_failed)
  store conv prompt_tokens new_tokens (cache, some logits) = ok (
    record {
      backing = append_tokens conv.backing conv.len new_tokens;
      len = conv.len + length new_tokens;
      last_logits = some logits;
      cache = cache;
    },
    ok (session_of prompt_tokens logits),
  )

  -- `startGeneration` behind the decision about the cached tokens. The outer error is a panic.
  unfoldable pub prefill : Conversation C L → List ℕ → Outcome
  unfolding store
  prefill conv prompt_tokens =
      let new_tokens = drop conv.len prompt_tokens in
      if ltb 0 (length new_tokens)
      then store conv prompt_tokens new_tokens (model.forward new_tokens conv.len conv.cache)
      else if conv.len == 0
      then ok (conv, err RunError.empty_prompt)
      else elim conv.last_logits [
        | none ↦ ok (conv, err RunError.no_cached_logits)
        | some logits ↦ ok (conv, ok (session_of prompt_tokens logits))
      ]

  -- `startGeneration`, for the tokens of the prompt; a context length of 0 is no limit.
  unfoldable pub start_generation : ℕ → Conversation C L → List ℕ → Outcome
  unfolding should_reset_conversation prefill reset
  start_generation context_length conv prompt_tokens =
      if ltb 0 context_length && ltb context_length (length prompt_tokens)
      then ok (conv, err RunError.context_exceeded)
      else if ltb 0 conv.len && should_reset_conversation conv.len (tokens conv) prompt_tokens
      then prefill (reset conv) prompt_tokens
      else prefill conv prompt_tokens
