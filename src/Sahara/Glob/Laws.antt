-- ===== src/Sahara/Glob/Laws.antt =====
-- `pattern_match` decides the meaning of a glob.
use qfenix.Common.{ℕ, Bool, true, List, [], ◌∷◌, ◌==◌, ◌≡◌, ◌≢◌, ◌↔◌, ◌⊎◌}
use qfenix.Common.{◌&&◌, ◌||◌, arith, refl, sym, ◌∙◌, inl, inr}
use qfenix.Sahara.Glob.{star, question, pattern_match}

-- What a pattern stands for: `*` for any text, `?` for any one character, all else for itself.
pub data Matches : List ℕ → List ℕ → Type 0 where
  done : Matches [] []
  skip : {p : ℕ} {ps s : List ℕ} → p ≡ star → Matches ps s → Matches (p ∷ ps) s
  more :
      {p : ℕ} {ps : List ℕ} {c : ℕ} {s : List ℕ}
      → p ≡ star
      → Matches (p ∷ ps) s
      → Matches (p ∷ ps) (c ∷ s)
  any :
      {p : ℕ} {ps : List ℕ} {c : ℕ} {s : List ℕ}
      → p ≡ question
      → Matches ps s
      → Matches (p ∷ ps) (c ∷ s)
  same :
      {p : ℕ} {ps : List ℕ} {c : ℕ} {s : List ℕ}
      → p ≢ star
      → p ≡ c
      → Matches ps s
      → Matches (p ∷ ps) (c ∷ s)

-- One step of the recursion, on both texts at once.
module _ (p : ℕ) (ps : List ℕ) (c : ℕ) (s : List ℕ) where
  pattern_match-star :
      p ≡ star
      → pattern_match (p ∷ ps) (c ∷ s) ≡ (pattern_match ps (c ∷ s) || pattern_match (p ∷ ps) s)
  unfolding pattern_match
  pattern_match-star h = ground arith

  pattern_match_other :
      p ≢ star → pattern_match (p ∷ ps) (c ∷ s) ≡ ((p == question || p == c) && pattern_match ps s)
  unfolding pattern_match
  pattern_match_other h = ground arith

or-true_cases : (a b : Bool) → (a || b) ≡ true → (a ≡ true) ⊎ (b ≡ true)
or-true_cases a b h = ground arith

other_cases :
    (p c : ℕ) (b : Bool)
    → ((p == question || p == c) && b) ≡ true
    → (b ≡ true) × ((p ≡ question) ⊎ (p ≡ c))
other_cases p c b h = ground arith

star_cases : (p : ℕ) → (p ≡ star) ⊎ (p ≢ star)
star_cases p = ground arith

pattern_match→Matches : (p s : List ℕ) → pattern_match p s ≡ true → Matches p s
pattern_match→Matches [] [] h = done
pattern_match→Matches [] (c ∷ s) h = absurd (unfold pattern_match in ground arith)
pattern_match→Matches (p ∷ ps) [] h =
    skip {p = p} (unfold pattern_match in ground arith)
      (pattern_match→Matches ps [] (unfold pattern_match in ground arith))
pattern_match→Matches (p ∷ ps) (c ∷ s) h = elim (star_cases p) [
  | inl e ↦
      elim (or-true_cases (pattern_match ps (c ∷ s)) (pattern_match (p ∷ ps) s)
        (sym (pattern_match-star p ps c s e) ∙ h)) [
          | inl short ↦ skip e (pattern_match→Matches ps (c ∷ s) short)
          | inr long ↦ more e (pattern_match→Matches (p ∷ ps) s long)
        ]
  | inr ne ↦
      let (rest, head) =
        other_cases p c (pattern_match ps s) (sym (pattern_match_other p ps c s ne) ∙ h) in
      elim head [
        | inl q ↦ any q (pattern_match→Matches ps s rest)
        | inr e ↦ same ne e (pattern_match→Matches ps s rest)
      ]
]

pattern_match_skip :
    (p : ℕ) (ps s : List ℕ) → p ≡ star → pattern_match ps s ≡ true → pattern_match (p ∷ ps) s ≡ true
unfolding pattern_match
pattern_match_skip p ps [] e h = ground arith
pattern_match_skip p ps (c ∷ s) e h = ground arith

Matches→pattern_match : {p s : List ℕ} → Matches p s → pattern_match p s ≡ true
Matches→pattern_match done = unfold pattern_match in refl
Matches→pattern_match (skip {p = p} {ps = ps} {s = s} e m) =
    pattern_match_skip p ps s e (Matches→pattern_match m)
Matches→pattern_match (more {p = p} {ps = ps} {c = c} {s = s} e m) =
    ground (arith, pattern_match-star p ps c s e, Matches→pattern_match m)
Matches→pattern_match (any {p = p} {ps = ps} {c = c} {s = s} q m) =
    ground (arith, pattern_match_other p ps c s, Matches→pattern_match m)
Matches→pattern_match (same {p = p} {ps = ps} {c = c} {s = s} ne e m) =
    ground (arith, pattern_match_other p ps c s, Matches→pattern_match m)

-- `pattern_match` returns true exactly for the texts that the glob stands for.
pub pattern_match_iff :
    (pattern text : List ℕ) → (pattern_match pattern text ≡ true) ↔ Matches pattern text
pattern_match_iff pattern text = (pattern_match→Matches pattern text, Matches→pattern_match)
