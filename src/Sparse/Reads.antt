-- ===== src/Sparse/Reads.antt =====
-- sparse.c: reading past the header of a chunk.
use mathlib.Core.List.{append_assoc}
use qfenix.Common.{
  ℕ, suc, zero, ◌+◌, ◌-◌, ◌*◌, ◌%◌, ◌^◌, ◌<◌, ◌≤◌, ◌≡◌, refl, sym, ap, ◌∙◌, arith, Option, none,
}
use qfenix.Common.{
  List, [], ◌∷◌, ◌++◌, length, take, drop, length-append, take-append, drop-append, not, ◌==◌, ltb,
  if◌then◌else◌,
}
use mathlib.Core.Path.{subst}
use native.Mathlib.Decide.{dec_lt}
use qfenix.Common.Words.{to_le, of_le, field_at}
use qfenix.Sparse.{File, skip, read_bytes, SparseHeader, Chunk, chunk_of, sparse_chunk_header_parse}

-- The bytes from the position on.
abbrev pub StandsAt : File → List ℕ → Type 0
StandsAt f rest = drop f.position f.content ≡ rest

drop-add : (n m : ℕ) (xs : List ℕ) → drop (n + m) xs ≡ drop m (drop n xs)
drop-add zero m xs = ap (λ (k : ℕ). drop k xs) (omega arith)
drop-add (suc n) m [] = refl_nil (suc n + m) ∙ sym (refl_nil m)
  where
    refl_nil : (k : ℕ) → drop {A = ℕ} k [] ≡ []
    refl_nil zero = refl
    refl_nil (suc k) = refl
drop-add (suc n) m (x ∷ xs) =
    let e : suc n + m ≡ suc (n + m) = omega arith in
    ap (λ (k : ℕ). drop k (x ∷ xs)) e ∙ drop-add n m xs

-- A read of what the file goes on with.
pub skip-StandsAt :
    (f : File) (a rest : List ℕ) → StandsAt f (a ++ rest) → StandsAt (skip (length a) f) rest
unfolding skip
skip-StandsAt f a rest h =
    drop-add f.position (length a) f.content
    ∙ ap (λ (t : List ℕ). drop (length a) t) h
    ∙ drop-append a rest

pub read_runs :
    (f : File) (a rest : List ℕ)
    → StandsAt f (a ++ rest)
    → read_bytes (length a) f ≡ (a, skip (length a) f)
unfolding read_bytes
read_runs f a rest h =
    let e = ap (λ (t : List ℕ). take (length a) t) h ∙ take-append a rest in
    λ i. (e i, skip (length (e i)) f)

skip-skip : (n m : ℕ) (f : File) → skip m (skip n f) ≡ skip (n + m) f
unfolding skip
skip-skip n m f =
    let e : f.position + n + m ≡ f.position + (n + m) = omega arith in
    λ i. record f { position = e i }

-- The twelve bytes of a chunk's header.
unfoldable pub chunk_header : ℕ → ℕ → ℕ → List ℕ
chunk_header type chunk_sz total_sz =
    to_le 2 type ++ to_le 2 0 ++ to_le 4 chunk_sz ++ to_le 4 total_sz

pub length-chunk_header : (t n total : ℕ) → length (chunk_header t n total) ≡ 12
unfolding chunk_header to_le
length-chunk_header t n total = refl

type_field : (t n total : ℕ) → t < 2 ^ 16 → field_at 2 (chunk_header t n total) 0 ≡ t
unfolding chunk_header field_at to_le of_le
type_field t n total h = omega (arith, h)

size_field : (t n total : ℕ) → n < 2 ^ 32 → field_at 4 (chunk_header t n total) 4 ≡ n
unfolding chunk_header field_at to_le of_le
size_field t n total h = omega (arith, h)

total_field : (t n total : ℕ) → total < 2 ^ 32 → field_at 4 (chunk_header t n total) 8 ≡ total
unfolding chunk_header field_at to_le of_le
total_field t n total h = omega (arith, h)

pub value_field : (v : ℕ) → v < 2 ^ 32 → field_at 4 (to_le 4 v) 0 ≡ v
unfolding field_at to_le of_le
value_field v h = omega (arith, h)

pub position-skip : (k : ℕ) (f : File) → (skip k f).position ≡ f.position + k
unfolding skip
position-skip k f = refl

past_padding :
    (size : ℕ) (f : File)
    → 12 ≤ size
    → (if ltb 12 size then skip (size - 12) (skip 12 f) else skip 12 f) ≡ skip size f
past_padding size f h = elim (dec_lt 12 size) [
  | yes more ↦
      ground (arith, more, skip-skip 12 (size - 12) f, ap (λ (k : ℕ). skip k f) (whole size h))
  | no same ↦ let e : 12 ≡ size = omega arith in ground (arith, same, ap (λ (k : ℕ). skip k f) e)
]
  where
    whole : (k : ℕ) → 12 ≤ k → 12 + (k - 12) ≡ k
    whole k h' = omega arith

read_header :
    (f : File) (t n total : ℕ) (rest : List ℕ)
    → StandsAt f (chunk_header t n total ++ rest)
    → read_bytes 12 f ≡ (chunk_header t n total, skip 12 f)
read_header f t n total rest at =
    subst (λ k. read_bytes k f ≡ (chunk_header t n total, skip k f)) (length-chunk_header t n total)
      (read_runs f (chunk_header t n total) rest at)

-- What is done with the twelve bytes.
after_header : SparseHeader → List ℕ × File → Option Chunk × File
after_header h got =
    if not (length got.0 == 12)
    then (none, got.1)
    else chunk_of h (field_at 2 got.0 0) (field_at 4 got.0 4 * h.blk_sz % 2 ^ 64)
        (field_at 4 got.0 8)
        (if ltb 12 h.chunk_hdr_sz then skip (h.chunk_hdr_sz - 12) got.1 else got.1)

after_header-eq :
    (h : SparseHeader) (f : File) (t n total : ℕ)
    → t < 2 ^ 16
    → n < 2 ^ 32
    → total < 2 ^ 32
    → 12 ≤ h.chunk_hdr_sz
    → after_header h (chunk_header t n total, skip 12 f)
      ≡ chunk_of h t (n * h.blk_sz % 2 ^ 64) total (skip h.chunk_hdr_sz f)
unfolding after_header
after_header-eq h f t n total ht hn htotal e =
    rw
      (
        length-chunk_header t n total,
        type_field t n total ht,
        size_field t n total hn,
        total_field t n total htotal,
      )
      (ap (λ (g : File). chunk_of h t (n * h.blk_sz % 2 ^ 64) total g)
        (past_padding h.chunk_hdr_sz f e))

-- The header of a chunk, with the padding behind it, is read past.
pub header_runs :
    (h : SparseHeader) (f : File) (t n total : ℕ) (pad rest : List ℕ)
    → t < 2 ^ 16
    → n < 2 ^ 32
    → total < 2 ^ 32
    → h.chunk_hdr_sz ≡ 12 + length pad
    → StandsAt f (chunk_header t n total ++ pad ++ rest)
    → (sparse_chunk_header_parse h f
        ≡ chunk_of h t (n * h.blk_sz % 2 ^ 64) total (skip h.chunk_hdr_sz f))
      × StandsAt (skip h.chunk_hdr_sz f) rest
unfolding sparse_chunk_header_parse after_header
header_runs h f t n total pad rest ht hn htotal e at =
    let head = chunk_header t n total in
    (
      ap (λ (got : List ℕ × File). after_header h got)
            (read_header f t n total (pad ++ rest) (at ∙ append_assoc head pad rest))
          ∙ after_header-eq h f t n total ht hn htotal (omega (arith, e)),
      subst (λ k. StandsAt (skip k f) rest)
          (length-append head pad
            ∙ ap (λ (k : ℕ). k + length pad) (length-chunk_header t n total)
            ∙ sym e)
          (skip-StandsAt f (head ++ pad) rest at),
    )
