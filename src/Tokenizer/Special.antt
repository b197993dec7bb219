-- ===== src/Tokenizer/Special.antt =====
-- pkg/tokenizer/special.go: the text between the special tokens.
pub mod Split
use gogguf.Base.{
  ℕ, zero, suc, ◌+◌, ◌-◌, ◌*◌, ◌/◌, ◌%◌, ◌^◌, ◌≤◌, ◌<◌, min, max, ◌≡◌, refl, sym, ap, ◌∙◌, ◌≢◌, ◌↔◌,
  ◌⊎◌, inl, inr, Bool, true, false, not, ◌&&◌, ◌||◌, Option, none, some, List, [], ◌∷◌, ◌++◌, map,
  append-nil, append_assoc, arith, ltb, leb, ◌==◌, if◌then◌else◌, ltb→lt, ltb→le, lt→ltb, le→ltb,
  leb→le, ==_iff, ==_self, Bool-cases, Option-cases, length, get_elem?, set, take, drop, replicate,
  length-append, length-replicate, length-take, length-drop, take-append-drop, take_of_length-le,
  drop_of_length-le, take-append, drop_nil, take_nil, drop-append, drop-length-append,
  take-length-append, take-append_exact, drop-append_exact, drop-drop, take-take, take-drop,
  take-add, length-set, get_elem?-set_self, get_elem?-set_ne, get_elem?-set_inv, length-map,
  get_elem?-map, get_elem?-map_inv, All, All-get_elem?, All-set,
}
use gogguf.Base.Bytes.{Bytes, has_prefix, has_prefix-append, join}

-- `textSegment`.
pub record TextSegment : Type 0 where
  pub text : Bytes
  pub is_special : Bool

abbrev pub special_segment : Bytes → TextSegment
special_segment s = record { text = s; is_special = true }

abbrev pub plain_segment : Bytes → TextSegment
plain_segment s = record { text = s; is_special = false }

-- `indexOf`, from the position i on.
unfoldable pub index_from : ℕ → Bytes → Bytes → Option ℕ
index_from i [] sub = if has_prefix sub [] then some i else none
index_from i (c ∷ cs) sub =
    let later = index_from (suc i) cs sub in if has_prefix sub (c ∷ cs) then some i else later

unfoldable pub index_of : Bytes → Bytes → Option ℕ
unfolding index_from
index_of s sub = index_from 0 s sub

-- The first token that the text starts with.
unfoldable pub find_special : List Bytes → Bytes → Option Bytes
find_special [] s = none
find_special (tok ∷ toks) s = if has_prefix tok s then some tok else find_special toks s

-- `idx >= 0 && idx < next`.
unfoldable pub nearer : Option ℕ → ℕ → ℕ
nearer none next = next
nearer (some idx) next = if ltb idx next then idx else next

unfoldable pub next_special : List Bytes → Bytes → ℕ → ℕ
unfolding nearer index_of
next_special [] s next = next
next_special (tok ∷ toks) s next = next_special toks s (nearer (index_of s tok) next)

abbrev pub add_segment : TextSegment → Option (List TextSegment) → Option (List TextSegment)
add_segment g none = none
add_segment g (some more) = some (g ∷ more)

-- The loop of `splitBySpecial`.
unfoldable pub split_fuel : ℕ → List Bytes → Bytes → Option (List TextSegment)
unfolding find_special next_special
split_fuel zero special s = none
split_fuel (suc fuel) special [] = some []
split_fuel (suc fuel) special (c ∷ cs) = elim (find_special special (c ∷ cs)) [
  | some tok ↦
      add_segment (special_segment tok) (split_fuel fuel special (drop (length tok) (c ∷ cs)))
  | none ↦
      let next = next_special special (c ∷ cs) (length (c ∷ cs)) in
      elim (ltb 0 next) [
        | true ↦
            add_segment (plain_segment (take next (c ∷ cs)))
              (split_fuel fuel special (drop next (c ∷ cs)))
        | false ↦ some (plain_segment (c ∷ cs) ∷ [])
      ]
]

-- `splitBySpecial`.
unfoldable pub split_by_special : Bytes → List Bytes → Option (List TextSegment)
unfolding split_fuel
split_by_special s [] = some (plain_segment s ∷ [])
split_by_special s (tok ∷ toks) = split_fuel (suc (length s)) (tok ∷ toks) s
