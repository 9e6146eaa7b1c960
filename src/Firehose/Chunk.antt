-- ===== src/Firehose/Chunk.antt =====
-- firehose.c: a chunk that comes in pieces is put together, and a chunk is read in finite time.
use mathlib.Core.List.{append_assoc, append-nil}
use qfenix.Common.{
  ℕ, zero, suc, ◌+◌, ◌-◌, ◌<◌, ◌≤◌, ◌≡◌, refl, ap, ◌∙◌, arith, true, Option, some, List, [], ◌∷◌,
  ◌++◌, length, take, All, length-append,
}
use qfenix.Link.{Link, ok, qdl_read}
use qfenix.Firehose.{fh_remainder_drain, fill_chunk, read_chunk}

-- The results of reads that bring pieces, and the pieces put together.
unfoldable pub results : List (List ℕ) → List (Option (List ℕ))
results [] = []
results (piece ∷ rest) = some piece ∷ results rest

unfoldable pub joined : List (List ℕ) → List ℕ
joined [] = []
joined (piece ∷ rest) = piece ++ joined rest

length-results : (pieces : List (List ℕ)) → length (results pieces) ≡ length pieces
unfolding results
length-results [] = refl
length-results (piece ∷ rest) = ap suc (length-results rest)

pub take_all : (n : ℕ) (xs : List ℕ) → length xs ≤ n → take n xs ≡ xs
take_all zero [] h = refl
take_all zero (x ∷ xs) h = absurd (omega arith)
take_all (suc n) [] h = refl
take_all (suc n) (x ∷ xs) h = ap (λ (t : List ℕ). x ∷ t) (take_all n xs (omega arith))

fill_chunk-joined :
    (fuel wanted : ℕ) (pieces : List (List ℕ)) (got : List ℕ) (later : List (Option (List ℕ)))
    → (l : Link) → length pieces < fuel
    → All (λ piece. 0 < length piece) pieces
    → length got + length (joined pieces) ≡ wanted
    → fill_chunk fuel wanted got (record l { incoming = results pieces ++ later })
      ≡ (ok (true, got ++ joined pieces), record l { incoming = later })
unfolding fill_chunk qdl_read results joined
fill_chunk-joined zero wanted pieces got later l h full e = absurd (omega arith)
fill_chunk-joined (suc fuel) wanted [] got later l h full e = ground (arith, e, append-nil got)
fill_chunk-joined (suc fuel) wanted ([] ∷ rest) got later l h full e =
    absurd (omega (arith, full.0))
fill_chunk-joined (suc fuel) wanted ((b ∷ piece) ∷ rest) got later l h full e =
    let more =
      fill_chunk-joined fuel wanted rest (got ++ b ∷ piece) later l (omega arith) full.1
        (omega (arith, e, length-append got (b ∷ piece), length-append piece (joined rest))) in
    ground (
      arith,
      e,
      take_all (wanted - length got) (b ∷ piece)
          (omega (arith, e, length-append piece (joined rest))),
      more,
      append_assoc got (b ∷ piece) (joined rest),
    )

-- When the remainder and the pieces that the device sends make up the chunk just, the chunk is read
-- whole, the remainder first and then the pieces in their order, however the device cuts them.
pub read_chunk-joined :
    (wanted : ℕ) (remainder : List ℕ) (pieces : List (List ℕ))
    → (later : List (Option (List ℕ))) (l : Link) → All (λ piece. 0 < length piece) pieces
    → length remainder + length (joined pieces) ≡ wanted
    → read_chunk wanted remainder (record l { incoming = results pieces ++ later })
      ≡ (ok (true, remainder ++ joined pieces), record l { incoming = later })
unfolding read_chunk fh_remainder_drain
read_chunk-joined wanted remainder pieces later l full e =
    ap
      (λ (got : List ℕ).
        fill_chunk (suc (length (results pieces ++ later))) wanted got
          (record l { incoming = results pieces ++ later }))
      (take_all wanted remainder (omega (arith, e)))
    ∙ fill_chunk-joined (suc (length (results pieces ++ later))) wanted pieces remainder later l
        (omega (arith, length-results pieces, length-append (results pieces) later)) full e
