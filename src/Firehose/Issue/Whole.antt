-- ===== src/Firehose/Issue/Whole.antt =====
-- firehose.c: what a read to a buffer delivers.
use mathlib.Core.List.{append_assoc, append-nil}
use qfenix.Common.{
  ℕ, zero, suc, ◌+◌, ◌-◌, ◌*◌, ◌/◌, ◌≤◌, ◌<◌, ◌≡◌, inl, inr, refl, sym, ap, ◌∙◌, arith, min, true,
  false, Option, List, [], ◌∷◌, ◌++◌, length, take, drop, All, length-append, length-take, ◌==◌,
  Bool-cases, if◌then◌else◌,
}
use qfenix.Link.{Link, Exec, ok}
use qfenix.Firehose.{fh_remainder_drain}
use qfenix.Firehose.Chunk.{joined, results, read_chunk-joined}
use qfenix.Tasks.Queue.{minus_one}
use qfenix.Firehose.Write.Sent.{one_chunk}
use qfenix.Firehose.Issue.{to_buffer, buffer_size, store_chunk, issue_loop, firehose_issue_read}

-- The results of reads for some chunks, and the bytes in them.
abbrev pub all_results : List (List (List ℕ)) → List (Option (List ℕ)) → List (Option (List ℕ))
all_results [] later = later
all_results (pieces ∷ chunks) later = results pieces ++ all_results chunks later

abbrev pub all_joined : List (List (List ℕ)) → List ℕ
all_joined [] = []
all_joined (pieces ∷ chunks) = joined pieces ++ all_joined chunks

-- The device sends each chunk in pieces, as many bytes as are missing with `r` bytes there already.
abbrev pub Delivers : ℕ → ℕ → ℕ → ℕ → List (List (List ℕ)) → Type 0
Delivers size sector_size left r [] = (left ≡ 0) × (r ≡ 0)
Delivers size sector_size left r (pieces ∷ chunks) =
    (0 < left)
    × All (λ piece. 0 < length piece) pieces
    × (r + length (joined pieces) ≡ min (size / sector_size) left * sector_size)
    × Delivers size sector_size (left - min (size / sector_size) left) 0 chunks

drop_all : (n : ℕ) (xs : List ℕ) → length xs ≤ n → drop n xs ≡ []
drop_all zero [] h = refl
drop_all zero (x ∷ xs) h = absurd (omega (arith, h))
drop_all (suc n) [] h = refl
drop_all (suc n) (x ∷ xs) h = drop_all n xs (omega (arith, h))

length_zero : (xs : List ℕ) → length xs ≡ 0 → xs ≡ []
length_zero [] e = refl
length_zero (x ∷ xs) e = absurd (omega (arith, e))

take_none : (n : ℕ) → take {A = ℕ} n [] ≡ []
take_none zero = refl
take_none (suc n) = refl

take-append_split :
    (n : ℕ) (xs ys : List ℕ) → take n (xs ++ ys) ≡ take n xs ++ take (n - length xs) ys
take-append_split n [] ys =
    let e : n ≡ n - 0 = omega arith in
    ap (λ (t : ℕ). take t ys) e ∙ ap (λ (t : List ℕ). t ++ take (n - 0) ys) (sym (take_none n))
take-append_split zero (x ∷ xs) ys =
    let e : 0 ≡ 0 - length (x ∷ xs) = omega arith in ap (λ (t : ℕ). take t ys) e
take-append_split (suc n) (x ∷ xs) ys =
    let e : n - length xs ≡ suc n - length (x ∷ xs) = omega arith in
    ap (◌∷◌ x) (take-append_split n xs ys ∙ ap (λ (t : ℕ). take n xs ++ take t ys) e)

-- Two parts one after the other, as far as there is room.
room :
    (n : ℕ) (out xs ys : List ℕ)
    → (out ++ take (n - length out) xs) ++ take (n - length (out ++ take (n - length out) xs)) ys
      ≡ out ++ take (n - length out) (xs ++ ys)
room n out xs ys =
    let m = n - length out in
    let left : n - length (out ++ take m xs) ≡ m - length xs =
      omega (arith, length-append out (take m xs), length-take m xs) in
    append_assoc out (take m xs) (take (n - length (out ++ take m xs)) ys)
    ∙ ap (λ (t : ℕ). out ++ (take m xs ++ take t ys)) left
    ∙ ap (λ (t : List ℕ). out ++ t) (sym (take-append_split m xs ys))

module _ (write : List ℕ → Exec (Option ℕ)) where
  issue_loop-whole :
      (fuel out_len size sector_size left : ℕ) (remainder out : List ℕ)
      → (chunks : List (List (List ℕ))) (later : List (Option (List ℕ))) (l : Link) → left < fuel
      → 0 < sector_size
      → sector_size ≤ size
      → Delivers size sector_size left (length remainder) chunks
      → issue_loop write fuel
          (to_buffer out_len)
          size
          sector_size
          left
          remainder
          out
          (record l { incoming = all_results chunks later })
        ≡ (
          ok (true, out ++ take (out_len - length out) (remainder ++ all_joined chunks)),
          record l { incoming = later },
        )
  unfolding issue_loop store_chunk fh_remainder_drain
  issue_loop-whole zero out_len size sector_size left remainder out chunks later l f p q d =
      absurd (omega (arith, f))
  issue_loop-whole (suc fuel) out_len size sector_size left remainder out [] later l f p q d =
      let n = out_len - length out in
      let done : (left == 0) ≡ true = ground (arith, d.0) in
      let all : out ++ take n (remainder ++ []) ≡ out =
        ap (λ (t : List ℕ). out ++ take n (t ++ [])) (length_zero remainder d.1)
        ∙ ap (λ (t : List ℕ). out ++ t) (take_none n)
        ∙ append-nil out in
      ground (arith, done, all)
  issue_loop-whole (suc fuel) out_len size sector_size left remainder out (pieces ∷ chunks) later l
        f p q d =
      let k = min (size / sector_size) left in
      let more = one_chunk sector_size size left p q d.0 in
      let going : (left == 0) ≡ false = ground (arith, d.0) in
      let chunk =
        read_chunk-joined (k * sector_size) remainder pieces (all_results chunks later) l d.1 d.2 in
      let none_left : drop (k * sector_size) remainder ≡ [] =
        drop_all (k * sector_size) remainder (omega (arith, d.2)) in
      let got = remainder ++ joined pieces in
      let next =
        issue_loop-whole fuel out_len size sector_size (left - k) []
          (out ++ take (out_len - length out) got) chunks later l (omega (arith, f, more)) p q
          d.3 in
      let step : issue_loop write (suc fuel) (to_buffer out_len) size sector_size left remainder out
            (record l { incoming = results pieces ++ all_results chunks later })
          ≡ issue_loop write fuel (to_buffer out_len) size sector_size (left - k) []
              (out ++ take (out_len - length out) got)
              (record l { incoming = all_results chunks later }) =
        ground (arith, going, chunk, none_left) in
      let bytes =
        room out_len out got (all_joined chunks)
        ∙ ap (λ (t : List ℕ). out ++ take (out_len - length out) t)
            (append_assoc remainder (joined pieces) (all_joined chunks)) in
      step ∙ next ∙ ap (λ (t : List ℕ). (ok (true, t), record l { incoming = later })) bytes

  -- When the request is sent and acknowledged, a sector is not empty and fits into the buffer for a
  -- chunk, and the device sends each chunk in pieces, the first one behind the remainder: what is
  -- stored in a buffer is all that was sent, the remainder first, as far as it fits into `out_len`
  -- bytes; the result is 0 just if the last answer is ACK.
  pub firehose_issue_read-whole :
      (request : Exec ℕ) (firehose_read : Exec (ℕ × List ℕ)) (out_len payload sector_size : ℕ)
      → (num_sectors : ℕ) (remainder left_over : List ℕ) (last : ℕ)
      → (chunks : List (List (List ℕ))) (later : List (Option (List ℕ))) (l l' l'' after : Link)
      → request l ≡ (ok 0, l')
      → firehose_read l' ≡ (ok (0, remainder), record l'' { incoming = all_results chunks later })
      → firehose_read (record l'' { incoming = later }) ≡ (ok (last, left_over), after)
      → 0 < sector_size
      → sector_size ≤ buffer_size payload
      → Delivers (buffer_size payload) sector_size num_sectors (length remainder) chunks
      → firehose_issue_read write request firehose_read
          (to_buffer out_len)
          payload
          sector_size
          num_sectors
          l
        ≡ (
          ok (if last == 0 then 0 else minus_one, take out_len (remainder ++ all_joined chunks)),
          after,
        )
  unfolding firehose_issue_read
  firehose_issue_read-whole request firehose_read out_len payload sector_size num_sectors remainder
        left_over last chunks later l l' l'' after sent ack closing p q d =
      let loop =
        issue_loop-whole (suc num_sectors) out_len (buffer_size payload) sector_size num_sectors
          remainder [] chunks later l'' (omega arith) p q d in
      elim (Bool-cases (last == 0)) [
        | inl e ↦ ground (arith, sent, ack, loop, closing, e)
        | inr e ↦ ground (arith, sent, ack, loop, closing, e)
      ]
