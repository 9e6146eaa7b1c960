-- ===== src/Sahara/Glob.antt =====
-- `pattern_match` and `sahara_debug64_filter`: names of memory regions against a list of globs.
-- A string is the list of its characters, without the terminator.
pub mod Laws
pub mod Filter
use qfenix.Common.{ℕ, zero, suc, Bool, true, false, Option, none, some, List, [], ◌∷◌, ◌++◌, ◌==◌}
use qfenix.Common.{◌&&◌, ◌||◌, not, if◌then◌else◌, length, ◌+◌}

abbrev pub star : ℕ
star = b'*'

abbrev pub question : ℕ
question = b'?'

abbrev pub comma : ℕ
comma = b','

unfoldable pub pattern_match : List ℕ → List ℕ → Bool
pattern_match [] [] = true
pattern_match [] (c ∷ s) = false
pattern_match (p ∷ ps) [] = (p == star) && pattern_match ps []
pattern_match (p ∷ ps) (c ∷ s) = elim (p == star) [
  | true ↦ elim (pattern_match ps (c ∷ s)) [ true ↦ true | false ↦ pattern_match (p ∷ ps) s ]
  | false ↦ elim (p == question || p == c) [ true ↦ pattern_match ps s | false ↦ false ]
]

-- The tokens of `strtok_r(filter, ",")`: the longest runs without a comma that are not empty.
unfoldable pub emit : List ℕ → List (List ℕ) → List (List ℕ)
emit [] rest = rest
emit (c ∷ word) rest = (c ∷ word) ∷ rest

unfoldable pub tokens_from : List ℕ → List ℕ → List (List ℕ)
tokens_from word [] = emit word []
tokens_from word (c ∷ s) = elim (c == comma) [
  | true ↦ emit word (tokens_from [] s)
  | false ↦ tokens_from (word ++ c ∷ []) s
]

unfoldable pub any_match : List (List ℕ) → List ℕ → Bool
any_match [] name = false
any_match (p ∷ ps) name = pattern_match p name || any_match ps name

-- Whether a region is skipped; no filter skips nothing.
unfoldable pub sahara_debug64_filter : List ℕ → Option (List ℕ) → Bool
sahara_debug64_filter filename none = false
sahara_debug64_filter filename (some filter) = not (any_match (tokens_from [] filter) filename)
