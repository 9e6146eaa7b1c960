-- ===== src/Sahara/Glob/Filter.antt =====
-- `sahara_debug64_filter` on a list of globs with commas between them.
use mathlib.Core.List.{append-nil, append_assoc}
use qfenix.Common.{ℕ, Bool, true, false, none, some, List, [], ◌∷◌, ◌++◌, ◌≡◌, ◌≢◌, ◌↔◌, ◌⊎◌}
use qfenix.Common.{not, arith, refl, sym, ap, ◌∙◌, inl, inr, All, Bool-cases}
use qfenix.Sahara.Glob.{comma, pattern_match, emit, tokens_from, any_match, sahara_debug64_filter}
use qfenix.Sahara.Glob.Laws.{Matches, pattern_match_iff}

-- Some element of a list has the property.
abbrev pub Exists {ℓ} : {A : Type ℓ} → (A → Type 0) → List A → Type 0
Exists P [] = ⊥
Exists P (x ∷ xs) = P x ⊎ Exists P xs

-- A glob that can stand in a filter: not empty, and with no comma in it.
abbrev pub IsWord : List ℕ → Type 0
IsWord w = (w ≢ []) × All (λ c. c ≢ comma) w

-- The globs with a comma between any two.
abbrev pub join : List (List ℕ) → List ℕ
join [] = []
join (w ∷ []) = w
join (w ∷ v ∷ ws) = w ++ (comma ∷ join (v ∷ ws))

tokens_from-append :
    (word w rest : List ℕ)
    → All (λ c. c ≢ comma) w
    → tokens_from word (w ++ rest) ≡ tokens_from (word ++ w) rest
tokens_from-append word [] rest h = rw (append-nil word)
tokens_from-append word (c ∷ w) rest h =
    plain
    ∙ tokens_from-append (word ++ c ∷ []) w rest h.1
    ∙ ap (λ (t : List ℕ). tokens_from t rest) (append_assoc word (c ∷ []) w)
  where
    plain : tokens_from word (c ∷ (w ++ rest)) ≡ tokens_from (word ++ c ∷ []) (w ++ rest)
    plain = unfold tokens_from in ground (arith, h.0)

emit_word : (w : List ℕ) (rest : List (List ℕ)) → w ≢ [] → emit w rest ≡ w ∷ rest
unfolding emit
emit_word [] rest h = absurd (h refl)
emit_word (c ∷ w) rest h = refl

tokens_from_end : (w : List ℕ) → w ≢ [] → tokens_from w [] ≡ w ∷ []
unfolding tokens_from
tokens_from_end w h = emit_word w [] h

tokens_from-comma : (w s : List ℕ) → w ≢ [] → tokens_from w (comma ∷ s) ≡ w ∷ tokens_from [] s
unfolding tokens_from
tokens_from-comma w s h = emit_word w (tokens_from [] s) h

tokens_from-join : (ws : List (List ℕ)) → All IsWord ws → tokens_from [] (join ws) ≡ ws
tokens_from-join [] h = unfold tokens_from emit in refl
tokens_from-join (w ∷ []) h =
    ap (tokens_from []) (sym (append-nil w))
    ∙ tokens_from-append [] w [] h.0.1
    ∙ tokens_from_end w h.0.0
tokens_from-join (w ∷ v ∷ ws) h =
    tokens_from-append [] w (comma ∷ join (v ∷ ws)) h.0.1
    ∙ tokens_from-comma w (join (v ∷ ws)) h.0.0
    ∙ ap (λ (t : List (List ℕ)). w ∷ t) (tokens_from-join (v ∷ ws) h.1)

any_match→Exists :
    (ws : List (List ℕ)) (name : List ℕ)
    → any_match ws name ≡ true
    → Exists (λ w. Matches w name) ws
unfolding any_match
any_match→Exists [] name h = absurd (ground arith)
any_match→Exists (w ∷ ws) name h = elim (Bool-cases (pattern_match w name)) [
  | inl e ↦ inl ((pattern_match_iff w name).0 e)
  | inr e ↦ inr (any_match→Exists ws name (ground arith))
]

Exists→any_match :
    (ws : List (List ℕ)) (name : List ℕ)
    → Exists (λ w. Matches w name) ws
    → any_match ws name ≡ true
unfolding any_match
Exists→any_match (w ∷ ws) name (inl m) = ground (arith, (pattern_match_iff w name).1 m)
Exists→any_match (w ∷ ws) name (inr m) = ground (arith, Exists→any_match ws name m)
Exists→any_match [] name m = absurd m

not-eq-false : (b : Bool) → (not b ≡ false) ↔ (b ≡ true)
not-eq-false b = ground arith

-- A filter of globs with commas between them keeps exactly the regions that one of the globs
-- stands for, and no filter keeps every region.
pub sahara_debug64_filter_iff :
    (globs : List (List ℕ)) (filename : List ℕ)
    → All IsWord globs
    → ((sahara_debug64_filter filename (some (join globs)) ≡ false)
        ↔ Exists (λ g. Matches g filename) globs)
      × (sahara_debug64_filter filename none ≡ false)
unfolding sahara_debug64_filter
sahara_debug64_filter_iff globs filename h = (
  (
    λ e.
        any_match→Exists globs filename
          ((not-eq-false (any_match globs filename)).0 (rw (tokens_from-join globs h) at e)),
    λ m.
        rw (tokens_from-join globs h)
          ((not-eq-false (any_match globs filename)).1 (Exists→any_match globs filename m)),
  ),
  refl,
)
