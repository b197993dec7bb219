-- ===== src/Hf/Repo.antt =====
-- pkg/hf/repo.go: `ValidRepoID`, `SplitRepoTag` and `isHexString`. The loops over a string go by
-- runes; they refuse every rune outside ASCII, as the loops here refuse each of its bytes.
use gogguf.Base.{
  ℕ, suc, ◌≡◌, refl, Bool, true, false, not, ◌&&◌, ◌||◌, Option, none, some, [], ◌∷◌, ◌++◌, ltb,
  leb, ◌==◌, if◌then◌else◌, ==_self, length,
}
use gogguf.Base.Bytes.{Bytes}
use gogguf.Base.Result.{Result, ok, err}
use gogguf.Base.Space.{trim_space}

pub record RepoSpec : Type 0 where
  pub repo : Bytes
  pub tag : Bytes

pub data RepoError : Type 0 where
  empty_repo invalid_repo : RepoError

abbrev pub within : ℕ → ℕ → ℕ → Bool
within lo hi c = leb lo c && leb c hi

unfoldable pub is_alphanum : ℕ → Bool
is_alphanum c = within b'A' b'Z' c || within b'a' b'z' c || within b'0' b'9' c

-- The loop of `ValidRepoID`, with `slash` and `special`.
unfoldable pub valid_from : ℕ → Bool → Bytes → Bool
unfolding is_alphanum
valid_from slash special [] = not special && (slash == 1)
valid_from slash special (c ∷ cs) =
    let plain = valid_from slash false cs in
    let other = valid_from (if c == b'/' then suc slash else slash) true cs in
    if is_alphanum c || c == b'_'
    then plain
    else if c == b'/' || c == b'.' || c == b'-'
    then (if special then false else other)
    else false

unfoldable pub valid_repo_id : Bytes → Bool
unfolding valid_from
valid_repo_id [] = false
valid_repo_id (c ∷ cs) = if ltb 256 (length (c ∷ cs)) then false else valid_from 0 true (c ∷ cs)

-- `strings.LastIndex` of one byte, with what stands before and behind it.
unfoldable pub cut_last : ℕ → Bytes → Option (Bytes × Bytes)
cut_last sep [] = none
cut_last sep (c ∷ cs) = elim (cut_last sep cs) [
  | some (before, behind) ↦ some (c ∷ before, behind)
  | none ↦ if c == sep then some ([], cs) else none
]

-- What `SplitRepoTag` does behind the split.
unfoldable pub checked : Bytes → Bytes → Result RepoError RepoSpec
unfolding valid_repo_id
checked repo tag =
    if valid_repo_id repo
    then ok (record { repo = repo; tag = tag })
    else err RepoError.invalid_repo

unfoldable pub split_trimmed : Bytes → Result RepoError RepoSpec
unfolding cut_last checked
split_trimmed [] = err RepoError.empty_repo
split_trimmed (c ∷ cs) = elim (cut_last b':' (c ∷ cs)) [
  | none ↦ checked (c ∷ cs) []
  | some (before, behind) ↦ checked before behind
]

unfoldable pub split_repo_tag : Bytes → Result RepoError RepoSpec
unfolding split_trimmed trim_space
split_repo_tag s = split_trimmed (trim_space s)

abbrev pub is_hex : ℕ → Bool
is_hex c = within b'0' b'9' c || within b'a' b'f' c || within b'A' b'F' c

unfoldable pub all_hex : Bytes → Bool
all_hex [] = true
all_hex (c ∷ cs) = let more = all_hex cs in if is_hex c then more else false

unfoldable pub is_hex_string : Bytes → ℕ → Bool
unfolding all_hex
is_hex_string s n = if length s == n then all_hex s else false

-- The byte does not occur.
abbrev pub Lacks : ℕ → Bytes → Type 0
Lacks sep [] = Unit
Lacks sep (c ∷ cs) = ((c == sep) ≡ false) × Lacks sep cs

cut_last-Lacks : (sep : ℕ) (s : Bytes) → Lacks sep s → cut_last sep s ≡ none
unfolding cut_last
cut_last-Lacks sep [] h = refl
cut_last-Lacks sep (c ∷ cs) h = rw (cut_last-Lacks sep cs h.1, h.0) refl

cut_last-append : (sep : ℕ) (s t : Bytes) → Lacks sep t → cut_last sep (s ++ sep ∷ t) ≡ some (s, t)
unfolding cut_last
cut_last-append sep [] t h = rw (cut_last-Lacks sep t h, ==_self sep) refl
cut_last-append sep (c ∷ s) t h = rw (cut_last-append sep s t h) refl

-- A valid repository name, a colon and a tag without a colon, with no space around, are split into
-- this name and this tag.
pub split_repo_tag-append :
    (repo tag : Bytes)
    → valid_repo_id repo ≡ true
    → Lacks b':' tag
    → trim_space (repo ++ b':' ∷ tag) ≡ repo ++ b':' ∷ tag
    → split_repo_tag (repo ++ b':' ∷ tag) ≡ ok (record { repo = repo; tag = tag })
split_repo_tag-append [] tag v h t = absurd (unfold valid_repo_id in cc)
split_repo_tag-append (c ∷ cs) tag v h t =
    unfold split_repo_tag in
    rw t (
      unfold split_trimmed in
      rw (cut_last-append b':' (c ∷ cs) tag h, split_trimmed) (unfold checked in rw v refl))
