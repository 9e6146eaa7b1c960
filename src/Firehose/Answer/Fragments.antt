-- ===== src/Firehose/Answer/Fragments.antt =====
-- firehose.c: what firehose_read makes of documents that come in one read.
use qfenix.Common.{
  ℕ, zero, suc, ◌≤◌, ◌<◌, ◌≡◌, inl, inr, refl, sym, ap, ◌∙◌, arith, Bool, true, false, Option, none,
  some, List, [], ◌∷◌, ◌++◌, map, length, take, drop, All, length-append, take-append, drop-append,
  ◌==◌, ltb, ◌&&◌, Option-cases, Bool-cases, ==_refl,
}
use mathlib.Core.List.{append-nil}
use qfenix.Firehose.Chunk.{joined}
use qfenix.Firehose.Answer.{
  firehose_response_parse, starts_with, find_in_mem, xml_start, Answer, RootNode, Seen, skip_to_xml,
  next_document, xml_length, Reading, got, parse_fragment, read_fragments, read_answers,
  firehose_read,
}

-- A byte that is not in a needle ends every match.
pub starts_with-append :
    (c : ℕ) (needle s t : List ℕ)
    → All (λ n. (c == n) ≡ false) needle
    → starts_with needle (s ++ c ∷ t) ≡ starts_with needle s
unfolding starts_with
starts_with-append c [] s t out = refl
starts_with-append c (n ∷ needle) [] t out = rw out.0 refl
starts_with-append c (n ∷ needle) (b ∷ s) t out =
    ap (λ (x : Bool). (b == n) && x) (starts_with-append c needle s t out.1)

-- In front of a needle whose first byte is not in it again.
starts_with-again :
    (c : ℕ) (needle s t : List ℕ) (b : ℕ)
    → All (λ n. (c == n) ≡ false) needle
    → starts_with (c ∷ needle) (b ∷ (s ++ c ∷ t)) ≡ starts_with (c ∷ needle) (b ∷ s)
unfolding starts_with
starts_with-again c needle s t b out =
    ap (λ (x : Bool). (b == c) && x) (starts_with-append c needle s t out)

starts_with_self : (needle t : List ℕ) → starts_with needle (needle ++ t) ≡ true
unfolding starts_with
starts_with_self [] t = refl
starts_with_self (n ∷ needle) t = ground (arith, ==_refl n, starts_with_self needle t)

-- The start of bytes without a needle has none, nor has what is behind the first byte.
pub starts_with_absent :
    (needle : List ℕ) (b : ℕ) (s : List ℕ)
    → find_in_mem needle (b ∷ s) ≡ none
    → starts_with needle (b ∷ s) ≡ false
unfolding find_in_mem
starts_with_absent needle b s absent = elim (Bool-cases (starts_with needle (b ∷ s))) [
  | inl at_start ↦ ground (arith, at_start, absent)
  | inr e ↦ e
]

pub find_in_mem_behind :
    (needle : List ℕ) (b : ℕ) (s : List ℕ)
    → find_in_mem needle (b ∷ s) ≡ none
    → find_in_mem needle s ≡ none
unfolding find_in_mem
find_in_mem_behind needle b s absent = ground (arith, starts_with_absent needle b s absent, absent)

-- The place of a needle behind bytes without it.
pub find_in_mem-append :
    (c : ℕ) (needle s t : List ℕ)
    → All (λ n. (c == n) ≡ false) needle
    → find_in_mem (c ∷ needle) s ≡ none
    → find_in_mem (c ∷ needle) (s ++ c ∷ (needle ++ t)) ≡ some (length s)
unfolding find_in_mem
find_in_mem-append c needle [] t out absent =
    let e : starts_with (c ∷ needle) (c ∷ (needle ++ t)) ≡ true = starts_with_self (c ∷ needle) t in
    rw (e, find_in_mem) refl
find_in_mem-append c needle (b ∷ s) t out absent =
    let later = find_in_mem-append c needle s t out (find_in_mem_behind (c ∷ needle) b s absent) in
    let e =
      starts_with-again c needle s (needle ++ t) b out
      ∙ starts_with_absent (c ∷ needle) b s absent in
    rw (e, later, find_in_mem) refl

-- A document: `<?xml` and what stands behind it.
abbrev pub tail_of : List ℕ → List ℕ
tail_of body = drop 1 xml_start ++ body

abbrev pub document : List ℕ → List ℕ
document body = 0x3c ∷ tail_of body

-- There is no second start of a document in it.
abbrev pub IsSingle : List ℕ → Type 0
IsSingle body = find_in_mem xml_start (tail_of body) ≡ none

next_document-more :
    (body body' t : List ℕ)
    → IsSingle body
    → next_document (tail_of body ++ (document body' ++ t)) ≡ some (length (tail_of body))
unfolding next_document
next_document-more body body' t single =
    let place =
      find_in_mem-append 0x3c (drop 1 xml_start) (tail_of body) (body' ++ t)
        (refl, (refl, (refl, (refl, tt)))) single in
    let long : 4 < length (tail_of body ++ (document body' ++ t)) =
      omega (arith, length-append body (document body' ++ t)) in
    let e : ltb 4 (length (tail_of body ++ (document body' ++ t))) ≡ true = ground (arith, long) in
    rw e place

next_document-last : (body : List ℕ) → IsSingle body → next_document (tail_of body) ≡ none
unfolding next_document
next_document-last body single = elim (Bool-cases (ltb 4 (length (tail_of body)))) [
  | inl e ↦ rw e single
  | inr e ↦ rw e refl
]

-- A read of documents in one go, and a read for each of them.
abbrev pub in_one_read : List ℕ → List (List ℕ) → Reading
in_one_read body bodies = got 0x3c (tail_of body ++ joined (map document bodies))

abbrev pub in_reads : List (List ℕ) → List Reading
in_reads = map (λ body. got 0x3c (tail_of body))

module _ (read_memory : List ℕ → Option (List RootNode)) (parser : Answer → Option ℕ × Bool) where
  -- What the answer in a document changes.
  seen_of : List ℕ → Seen → Seen
  unfolding parse_fragment
  seen_of body seen =
      parse_fragment read_memory parser (take (xml_length (document body)) (document body)) seen

  -- The answer in the document, if any, does not start the raw mode.
  unfoldable pub IsQuiet : List ℕ → Type 0
  IsQuiet body =
      (node : Answer)
      → firehose_response_parse (read_memory (take (xml_length (document body)) (document body)))
        ≡ some node
      → (parser node).1 ≡ false

  -- One round, for a document in front of another one.
  read_fragments-more :
      (fuel : ℕ) (body body' t : List ℕ) (seen : Seen)
      → IsSingle body
      → (seen_of body seen).rawmode ≡ false
      → read_fragments read_memory parser (suc fuel) (document body ++ (document body' ++ t)) seen
        ≡ read_fragments read_memory parser fuel (document body' ++ t) (seen_of body seen)
  unfolding read_fragments skip_to_xml seen_of
  read_fragments-more fuel body body' t seen single quiet =
      let next = next_document-more body body' t single in
      let front = take-append (tail_of body) (document body' ++ t) in
      let behind = drop-append (tail_of body) (document body' ++ t) in
      ground (arith, next, front, quiet, behind)

  read_fragments-last :
      (fuel : ℕ) (body : List ℕ) (seen : Seen)
      → IsSingle body
      → (seen_of body seen).rawmode ≡ false
      → read_fragments read_memory parser (suc fuel) (document body) seen ≡ seen_of body seen
  unfolding read_fragments skip_to_xml seen_of
  read_fragments-last fuel body seen single quiet =
      ground (arith, next_document-last body single, quiet)

  seen_of_quiet :
      (body : List ℕ) (seen : Seen)
      → IsQuiet body
      → seen.rawmode ≡ false
      → (seen_of body seen).rawmode ≡ false
  unfolding parse_fragment IsQuiet seen_of
  seen_of_quiet body seen quiet before =
      elim (Option-cases (
        firehose_response_parse
          (read_memory (take (xml_length (document body)) (document body))))) [
            | inl e ↦ ground (arith, e, before)
            | inr (node, e) ↦ ground (arith, e, before, quiet node e)
          ]

  -- The answers of some documents.
  abbrev seen_all : List (List ℕ) → Seen → Seen
  seen_all [] seen = seen
  seen_all (body ∷ bodies) seen = seen_all bodies (seen_of body seen)

  read_fragments-joined :
      (fuel : ℕ) (body : List ℕ) (bodies : List (List ℕ)) (seen : Seen)
      → length bodies < fuel
      → All IsSingle (body ∷ bodies)
      → All IsQuiet (body ∷ bodies)
      → seen.rawmode ≡ false
      → read_fragments read_memory parser fuel (document body ++ joined (map document bodies)) seen
        ≡ seen_all (body ∷ bodies) seen
  unfolding joined
  read_fragments-joined zero body bodies seen f single quiet before = absurd (omega (arith, f))
  read_fragments-joined (suc fuel) body [] seen f single quiet before =
      ap (λ (t : List ℕ). read_fragments read_memory parser (suc fuel) t seen)
        (append-nil (document body))
      ∙ read_fragments-last fuel body seen single.0 (seen_of_quiet body seen quiet.0 before)
  read_fragments-joined (suc fuel) body (body' ∷ bodies) seen f single quiet before =
      let after = seen_of_quiet body seen quiet.0 before in
      read_fragments-more fuel body body' (joined (map document bodies)) seen single.0 after
      ∙ read_fragments-joined fuel body' bodies (seen_of body seen) (omega (arith, f)) single.1
          quiet.1 after

  seen_all_quiet :
      (bodies : List (List ℕ)) (seen : Seen)
      → All IsQuiet bodies
      → seen.rawmode ≡ false
      → (seen_all bodies seen).rawmode ≡ false
  seen_all_quiet [] seen quiet before = before
  seen_all_quiet (body ∷ bodies) seen quiet before =
      seen_all_quiet bodies (seen_of body seen) quiet.1 (seen_of_quiet body seen quiet.0 before)

  read_answers-got :
      (b : ℕ) (bytes : List ℕ) (rest : List Reading) (seen after : Seen)
      → read_fragments read_memory parser (suc (suc (length bytes))) (b ∷ bytes) seen ≡ after
      → after.rawmode ≡ false
      → read_answers read_memory parser (got b bytes ∷ rest) seen
        ≡ read_answers read_memory parser rest after
  unfolding read_answers
  read_answers-got b bytes rest seen after e quiet = ground (arith, e, quiet)

  read_answers-in_reads :
      (bodies : List (List ℕ)) (rest : List Reading) (seen : Seen)
      → All IsSingle bodies
      → All IsQuiet bodies
      → seen.rawmode ≡ false
      → read_answers read_memory parser (in_reads bodies ++ rest) seen
        ≡ read_answers read_memory parser rest (seen_all bodies seen)
  read_answers-in_reads [] rest seen single quiet before = refl
  read_answers-in_reads (body ∷ bodies) rest seen single quiet before =
      let after = seen_of_quiet body seen quiet.0 before in
      read_answers-got 0x3c (tail_of body) (in_reads bodies ++ rest) seen (seen_of body seen)
        (read_fragments-last (suc (length (tail_of body))) body seen single.0 after) after
      ∙ read_answers-in_reads bodies rest (seen_of body seen) single.1 quiet.1 after

  documents-count : (bodies : List (List ℕ)) → length bodies ≤ length (joined (map document bodies))
  unfolding joined
  documents-count [] = omega arith
  documents-count (body ∷ bodies) =
      omega (
        arith,
        documents-count bodies,
        length-append (document body) (joined (map document bodies)),
      )

  -- When each document starts with <?xml, has no second start in it and brings no answer that starts
  -- the raw mode, documents that arrive in one read are taken like documents that arrive in a read
  -- each: the result, the remainder and what is still to be read are the same.
  pub firehose_read-in_reads :
      (body : List ℕ) (bodies : List (List ℕ)) (rest : List Reading) (remainder : List ℕ)
      → All IsSingle (body ∷ bodies)
      → All IsQuiet (body ∷ bodies)
      → firehose_read read_memory parser (in_one_read body bodies ∷ rest) remainder
        ≡ firehose_read read_memory parser (in_reads (body ∷ bodies) ++ rest) remainder
  unfolding firehose_read
  firehose_read-in_reads body bodies rest remainder single quiet =
      let seen : Seen = record { resp = none; rawmode = false; remainder = remainder } in
      let bytes = tail_of body ++ joined (map document bodies) in
      let f : length bodies < suc (suc (length bytes)) = omega (
        arith,
        documents-count bodies,
        length-append (tail_of body) (joined (map document bodies)),
      ) in
      let e =
        read_fragments-joined (suc (suc (length bytes))) body bodies seen f single quiet refl in
      read_answers-got 0x3c bytes rest seen (seen_all (body ∷ bodies) seen) e
        (seen_all_quiet (body ∷ bodies) seen quiet refl)
      ∙ sym (read_answers-in_reads (body ∷ bodies) rest seen single quiet refl)
