-- ===== src/Firehose/Answer/Rounds.antt =====
-- firehose.c: the rounds of firehose_read over the fragments of one read.
use qfenix.Common.{
  ℕ, zero, suc, ◌≤◌, ◌<◌, ◌≡◌, ◌⊎◌, inl, inr, refl, ap, arith, Bool, Option, List, [], ◌∷◌, length,
  take, drop, length-drop, ◌==◌, Option-cases, Bool-cases,
}
use qfenix.Firehose.Answer.{
  Answer, RootNode, Seen, skip_to_xml, next_document, xml_length, parse_fragment, read_fragments,
}

length-skip_to_xml : (bytes : List ℕ) → length (skip_to_xml bytes) ≤ length bytes
unfolding skip_to_xml
length-skip_to_xml [] = omega arith
length-skip_to_xml (b ∷ rest) =
    let later = length-skip_to_xml rest in
    elim (Bool-cases (b == 0x3c)) [ inl e ↦ ground (arith, e) | inr e ↦ ground (arith, e, later) ]

-- Nothing, or a first byte and the rest.
List-cases : (xs : List ℕ) → (xs ≡ []) ⊎ ((b : ℕ) × ((rest : List ℕ) × (xs ≡ b ∷ rest)))
List-cases [] = inl refl
List-cases (b ∷ rest) = inr (b, (rest, refl))

module _ (read_memory : List ℕ → Option (List RootNode)) (parser : Answer → Option ℕ × Bool) where
  -- With more rounds than bytes, more of them change nothing.
  read_fragments_enough :
      (m n : ℕ) (bytes : List ℕ) (seen : Seen)
      → length bytes < m
      → length bytes < n
      → read_fragments read_memory parser m bytes seen
        ≡ read_fragments read_memory parser n bytes seen
  unfolding read_fragments
  read_fragments_enough zero n bytes seen f g = absurd (omega (arith, f))
  read_fragments_enough (suc m) zero bytes seen f g = absurd (omega (arith, g))
  read_fragments_enough (suc m) (suc n) bytes seen f g = elim (List-cases (skip_to_xml bytes)) [
    | inl e ↦ ground (arith, e)
    | inr (b, (rest, e)) ↦
        let shorter : length (b ∷ rest) ≤ length bytes =
          omega (arith, ap (λ (t : List ℕ). length t) e, length-skip_to_xml bytes) in
        elim (Option-cases (next_document rest)) [
          | inl e' ↦ ground (arith, e, e')
          | inr (k, e') ↦
              let later = λ (after : Seen).
                read_fragments_enough m n (drop k rest) after
                  (omega (arith, f, shorter, length-drop k rest))
                  (omega (arith, g, shorter, length-drop k rest)) in
              let fragment = take (suc k) (b ∷ rest) in
              let after =
                parse_fragment read_memory parser (take (xml_length fragment) fragment) seen in
              let same = later after in
              elim (Bool-cases after.rawmode) [
                | inl raw ↦ ground (arith, e, e', raw)
                | inr quiet ↦ ground (arith, e, e', quiet, same)
              ]
        ]
  ]
