-- ===== src/Firehose/Answer/Rawmode.antt =====
-- firehose.c: what firehose_read keeps of the data that follows an answer in the same read.
use qfenix.Common.{
  ℕ, zero, suc, ◌+◌, ◌-◌, ◌≤◌, ◌<◌, ◌≡◌, inl, inr, refl, sym, ap, ap₂, ◌∙◌, arith, Bool, true,
  false, Option, none, some, List, [], ◌∷◌, ◌++◌, length, take, drop, All, length-append,
  drop-append, ◌==◌, Option-cases,
}
use mathlib.Core.List.{append_assoc}
use qfenix.Link.{Link, ok}
use qfenix.Firehose.{fh_remainder_save, remainder_size, read_chunk}
use qfenix.Firehose.Chunk.{joined, results, take_all, read_chunk-joined}
use qfenix.Firehose.Answer.{
  firehose_response_parse, starts_with, find_in_mem, xml_start, data_end, Answer, RootNode, Seen,
  skip_to_xml, next_document, xml_length, keep_leftover, Reading, got, ReadEnd, response,
  parse_fragment, read_fragments, read_answers, firehose_read,
}
use qfenix.Firehose.Answer.Fragments.{
  starts_with-append, find_in_mem_behind, starts_with_absent, find_in_mem-append, tail_of, document,
}

-- A needle that neither begins in `s` nor has the byte behind it is behind both.
find_in_mem_after :
    (c n : ℕ) (needle s t : List ℕ)
    → All (λ n. (c == n) ≡ false) (n ∷ needle)
    → find_in_mem (n ∷ needle) s ≡ none
    → (k : ℕ) → find_in_mem (n ∷ needle) (s ++ c ∷ t) ≡ some k
    → length s < k
unfolding find_in_mem starts_with
find_in_mem_after c n needle [] t out absent k found =
    elim (Option-cases (find_in_mem (n ∷ needle) t)) [
      | inl e ↦ ground (arith, out.0, e, found)
      | inr (j, e) ↦ ground (arith, out.0, e, found)
    ]
find_in_mem_after c n needle (b ∷ s) t out absent k found =
    let e =
      starts_with-append c (n ∷ needle) (b ∷ s) t out
      ∙ starts_with_absent (n ∷ needle) b s absent in
    let behind = find_in_mem_behind (n ∷ needle) b s absent in
    elim (Option-cases (find_in_mem (n ∷ needle) (s ++ c ∷ t))) [
      | inl e' ↦ ground (arith, e, e', found)
      | inr (j, e') ↦
          let later = find_in_mem_after c n needle s t out behind j e' in
          ground (arith, e, e', found, later)
    ]

take_some : (n j : ℕ) (xs ys : List ℕ) → length xs + j ≡ n → take n (xs ++ ys) ≡ xs ++ take j ys
take_some n j [] ys e = let e' : n ≡ j = omega (arith, e) in ap (λ (m : ℕ). take m ys) e'
take_some zero j (x ∷ xs) ys e = absurd (omega (arith, e))
take_some (suc n) j (x ∷ xs) ys e = ap (◌∷◌ x) (take_some n j xs ys (omega (arith, e)))

-- The XML of a fragment ends with its first </data>.
xml_length_first :
    (core t : List ℕ)
    → find_in_mem data_end core ≡ none
    → xml_length (core ++ (data_end ++ t)) ≡ length core + 7
unfolding xml_length
xml_length_first core t absent =
    let e =
      find_in_mem-append 0x3c (drop 1 data_end) core t
        (refl, (refl, (refl, (refl, (refl, (refl, tt)))))) absent in
    ground (arith, e)

-- The answer, with nothing behind its </data>.
abbrev pub answer : List ℕ → List ℕ
answer inner = document inner ++ data_end

-- No second document starts in it, and </data> is only at its end.
abbrev pub IsAnswer : List ℕ → Type 0
IsAnswer inner =
    (find_in_mem xml_start (tail_of inner ++ take 6 data_end) ≡ none)
    × (find_in_mem data_end (document inner) ≡ none)

take-answer :
    (inner t : List ℕ)
    → take (length (document inner) + 7) (document inner ++ (data_end ++ t)) ≡ answer inner
take-answer inner t =
    take_some (length (document inner) + 7) 7 (document inner) (data_end ++ t) refl

drop-answer :
    (inner t : List ℕ) → drop (length (document inner) + 7) (document inner ++ (data_end ++ t)) ≡ t
drop-answer inner t =
    let e : length (document inner) + 7 ≡ length (answer inner) =
      omega (arith, length-append (document inner) data_end) in
    ap₂ (λ (n : ℕ) (xs : List ℕ). drop n xs) e (sym (append_assoc (document inner) data_end t))
    ∙ drop-append (answer inner) t

-- A next document starts behind the answer.
next_behind :
    (inner t : List ℕ)
    → IsAnswer inner
    → (k : ℕ) → next_document (tail_of inner ++ (data_end ++ t)) ≡ some k
    → length (tail_of inner) + 7 ≤ k
unfolding next_document
next_behind inner t whole k found =
    let s = tail_of inner ++ take 6 data_end in
    let place : find_in_mem xml_start (tail_of inner ++ (data_end ++ t)) ≡ some k =
      ground (arith, found) in
    let e = append_assoc (tail_of inner) (take 6 data_end) (0x3e ∷ t) in
    let after =
      find_in_mem_after 0x3e 0x3c (drop 1 xml_start) s t (refl, (refl, (refl, (refl, (refl, tt)))))
        whole.0 k (ap (λ (xs : List ℕ). find_in_mem xml_start xs) e ∙ place) in
    omega (arith, after, length-append (tail_of inner) (take 6 data_end))

cut_fragment :
    (inner t : List ℕ) (k : ℕ)
    → length (tail_of inner) + 7 ≤ k
    → take (suc k) (document inner ++ (data_end ++ t))
      ≡ document inner ++ (data_end ++ take (k - (length (tail_of inner) + 7)) t)
cut_fragment inner t k behind =
    let j = k - (length (tail_of inner) + 7) in
    take_some (suc k) (7 + j) (document inner) (data_end ++ t) (omega (arith, behind))
    ∙ ap (λ (xs : List ℕ). document inner ++ xs) (take_some (7 + j) j data_end t refl)

module _ (read_memory : List ℕ → Option (List RootNode)) (parser : Answer → Option ℕ × Bool) where
  read_fragments-answer :
      (fuel : ℕ) (inner payload : List ℕ) (seen : Seen)
      → IsAnswer inner
      → (parse_fragment read_memory parser (answer inner) seen).rawmode ≡ true
      → read_fragments read_memory parser (suc fuel) (document inner ++ (data_end ++ payload)) seen
        ≡ keep_leftover payload (parse_fragment read_memory parser (answer inner) seen)
  unfolding read_fragments skip_to_xml
  read_fragments-answer fuel inner payload seen whole raw =
      let behind = drop-answer inner payload in
      elim (Option-cases (next_document (tail_of inner ++ (data_end ++ payload)))) [
        | inl e ↦
            let len = xml_length_first (document inner) payload whole.1 in
            let front = take-answer inner payload in ground (arith, e, len, front, behind, raw)
        | inr (k, e) ↦
            let t = take (k - (length (tail_of inner) + 7)) payload in
            let cut = cut_fragment inner payload k (next_behind inner payload whole k e) in
            let len = xml_length_first (document inner) t whole.1 in
            let front = take-answer inner t in ground (arith, e, cut, len, front, behind, raw)
      ]

  -- When the device's answer starts the raw mode and at most 4096 bytes of data follow it in the
  -- same read, whatever they are, firehose_read returns the answer's result and reads nothing more;
  -- a chunk of the data, of which the device sends what is missing in pieces, is then read whole.
  pub firehose_read-rawmode :
      (inner : List ℕ) (b : ℕ) (payload : List ℕ) (rest : List Reading) (remainder : List ℕ)
      → (node : Answer) (ret : ℕ) (wanted : ℕ) (pieces : List (List ℕ))
      → (later : List (Option (List ℕ))) (l : Link) → IsAnswer inner
      → length payload < remainder_size
      → firehose_response_parse (read_memory (answer inner)) ≡ some node
      → parser node ≡ (some ret, true)
      → All (λ piece. 0 < length piece) pieces
      → length (b ∷ payload) + length (joined pieces) ≡ wanted
      → (let bytes = tail_of inner ++ (data_end ++ b ∷ payload) in
          let after = firehose_read read_memory parser (got 0x3c bytes ∷ rest) remainder in
          (after.0 ≡ response (some ret))
          × (after.2 ≡ rest)
          × (read_chunk wanted after.1 (record l { incoming = results pieces ++ later })
              ≡ (ok (true, (b ∷ payload) ++ joined pieces), record l { incoming = later })))
  unfolding firehose_read read_answers parse_fragment keep_leftover fh_remainder_save
  firehose_read-rawmode inner b payload rest remainder node ret wanted pieces later l whole fits
        parsed result full e =
      let bytes = tail_of inner ++ (data_end ++ b ∷ payload) in
      let seen : Seen = record { resp = none; rawmode = false; remainder = remainder } in
      let raw : (parse_fragment read_memory parser (answer inner) seen).rawmode ≡ true =
        ground (arith, parsed, result) in
      let kept = take_all remainder_size (b ∷ payload) (omega (arith, fits)) in
      let round = read_fragments-answer (suc (length bytes)) inner (b ∷ payload) seen whole raw in
      let after : firehose_read read_memory parser (got 0x3c bytes ∷ rest) remainder
          ≡ (response (some ret), b ∷ payload, rest) =
        ground (arith, round, parsed, result, kept) in
      let chunk = read_chunk-joined wanted (b ∷ payload) pieces later l full e in
      (
        ap (λ (t : ReadEnd × List ℕ × List Reading). t.0) after,
        ap (λ (t : ReadEnd × List ℕ × List Reading). t.2) after,
        ap
              (λ (t : ReadEnd × List ℕ × List Reading).
                read_chunk wanted t.1 (record l { incoming = results pieces ++ later }))
              after
            ∙ chunk,
      )
