-- ===== src/Tasks/Load/Chunks.antt =====
-- program.c: the chunks of a sparse image are laid out without a gap.
use mathlib.Core.List.{append_assoc, append-nil}
use qfenix.Common.{
  ℕ, zero, suc, ◌+◌, ◌/◌, ◌%◌, ◌^◌, ◌<◌, ◌≡◌, inl, inr, refl, sym, ap, ap₂, ◌∙◌, arith, false,
  Option, none, some, List, [], ◌∷◌, ◌++◌,
}
use native.Mathlib.Nat.{zero-div}
use qfenix.Common.{◌==◌, ◌||◌, if◌then◌else◌, Bool-cases, Option-cases}
use qfenix.Sparse.{
  File, SparseHeader, Chunk, sparse_chunk_header_parse, chunk_type_raw, chunk_type_fill,
}
use qfenix.Tasks.{Program, Tasks, add_program}
use qfenix.Tasks.Load.{
  SparseEnd, chunks_added, itself_added, chunk_refused, chunk_crashed, chunk_program, advanced,
  load_chunk, load_chunks,
}

-- The chunks that are read, in order, and where the file then stands; `none` where one is refused.
unfoldable pub read_chunks : ℕ → SparseHeader → File → Option (List Chunk)
read_chunks zero h f = some []
read_chunks (suc left) h f =
    let (chunk, f') = sparse_chunk_header_parse h f in
    elim chunk [
      | none ↦ none
      | some c ↦ elim (read_chunks left h f') [ none ↦ none | some rest ↦ some (c ∷ rest) ]
    ]

-- Where a program starts and ends, as numbers.
pub record Extent : Type 0 where
  pub first : ℕ
  pub sectors : ℕ

-- The sectors of a chunk that has data, where it is at a sector.
unfoldable pub chunk_extents : ℕ → ℕ → Chunk → List Extent
chunk_extents sector_size at c =
    if c.chunk_size == 0
    then []
    else if (c.type == chunk_type_raw) || (c.type == chunk_type_fill)
    then record { first = at; sectors = c.chunk_size / sector_size } ∷ []
    else []

unfoldable pub extents : ℕ → ℕ → List Chunk → List Extent
unfolding chunk_extents
extents sector_size at [] = []
extents sector_size at (c ∷ rest) =
    chunk_extents sector_size at c
    ++ extents sector_size ((at + c.chunk_size / sector_size) % 2 ^ 32) rest

unfoldable pub extent_of : (List ℕ → ℕ) → Program → Extent
extent_of strtoul p = record {
  first = (elim p.start_sector [ none ↦ 0 | some start ↦ strtoul start % 2 ^ 32 ]);
  sectors = p.num_sectors;
}

module _ (strtoul : List ℕ → ℕ) where
  unfoldable pub extents_of : List Program → List Extent
  unfolding extent_of
  extents_of [] = []
  extents_of (p ∷ rest) = extent_of strtoul p ∷ extents_of rest

  extents_of-append :
      (ps : List Program) (p : Program)
      → extents_of (ps ++ p ∷ []) ≡ extents_of ps ++ extent_of strtoul p ∷ []
  unfolding extents_of
  extents_of-append [] p = refl
  extents_of-append (q ∷ ps) p = ap (◌∷◌ (extent_of strtoul q)) (extents_of-append ps p)

module _ (strtoul : List ℕ → ℕ) (decimal : ℕ → List ℕ)
    (reads : (n : ℕ) → n < 2 ^ 32 → strtoul (decimal n) ≡ n) where
  advanced_first :
      (p : Program) (start : List ℕ) (c : Chunk)
      → (extent_of strtoul (advanced strtoul decimal p start c)).first
        ≡ (strtoul start % 2 ^ 32 + c.chunk_size / p.sector_size) % 2 ^ 32
  unfolding extent_of advanced
  advanced_first p start c =
      let n = (strtoul start % 2 ^ 32 + c.chunk_size / p.sector_size) % 2 ^ 32 in
      omega (arith, reads n (omega arith))

  -- What a chunk that is taken does.
  record Took (p p' : Program) (c : Chunk) (s s' : Tasks) : Type 0 where
    size : p'.sector_size ≡ p.sector_size
    first :
        (extent_of strtoul p').first
        ≡ ((extent_of strtoul p).first + c.chunk_size / p.sector_size) % 2 ^ 32
    added :
        extents_of strtoul s'.programs
        ≡ extents_of strtoul s.programs ++ chunk_extents p.sector_size (extent_of strtoul p).first c

  small_first : (p : Program) → (extent_of strtoul p).first < 2 ^ 32
  unfolding extent_of
  small_first p = ground arith

  empty_Took :
      (p p' : Program) (c : Chunk) (s s' : Tasks)
      → load_chunk strtoul decimal p c s ≡ (chunks_added, p', s')
      → c.chunk_size ≡ 0
      → Took p p' c s s'
  unfolding load_chunk chunk_extents
  empty_Took p p' c s s' e z =
      let same : p' ≡ p = ground (arith, e, z) in
      let kept : s' ≡ s = ground (arith, e, z) in
      let none_added : c.chunk_size / p.sector_size ≡ 0 =
        ap (λ (t : ℕ). t / p.sector_size) z ∙ zero-div p.sector_size in
      record {
        size = ap (λ (r : Program). r.sector_size) same;
        first =
            ap (λ (r : Program). (extent_of strtoul r).first) same
            ∙ omega (arith, small_first p, none_added);
        added =
            ap (λ (r : Tasks). extents_of strtoul r.programs) kept
            ∙ ground (arith, z, append-nil (extents_of strtoul s.programs));
      }

  start_first :
      (p : Program) (start : List ℕ)
      → p.start_sector ≡ some start
      → (extent_of strtoul p).first ≡ strtoul start % 2 ^ 32
  unfolding extent_of
  start_first p start has = ground (arith, has)

  chunk_program_extent :
      (p : Program) (start : List ℕ) (c : Chunk)
      → p.start_sector ≡ some start
      → extent_of strtoul (chunk_program p c)
        ≡ record { first = strtoul start % 2 ^ 32; sectors = c.chunk_size / p.sector_size }
  unfolding extent_of chunk_program
  chunk_program_extent p start c has = ground (arith, has)

  added_extents :
      (p p' : Program) (start : List ℕ) (c : Chunk) (s s' : Tasks)
      → load_chunk strtoul decimal p c s ≡ (chunks_added, p', s')
      → (c.chunk_size == 0) ≡ false
      → p.start_sector ≡ some start
      → extents_of strtoul s'.programs
        ≡ extents_of strtoul s.programs ++ chunk_extents p.sector_size (strtoul start % 2 ^ 32) c
  unfolding load_chunk chunk_extents add_program
  added_extents p p' start c s s' e full has =
      elim (Bool-cases ((c.type == chunk_type_raw) || (c.type == chunk_type_fill))) [
        | inl filled ↦
            let more : s'.programs ≡ s.programs ++ chunk_program p c ∷ [] =
              ground (arith, e, full, has, filled) in
            ap (extents_of strtoul) more
            ∙ extents_of-append strtoul s.programs (chunk_program p c)
            ∙ ground (arith, full, filled, chunk_program_extent p start c has)
        | inr bare ↦
            let kept : s'.programs ≡ s.programs = ground (arith, e, full, has, bare) in
            ap (extents_of strtoul) kept
            ∙ ground (arith, full, bare, append-nil (extents_of strtoul s.programs))
      ]

  full_Took :
      (p p' : Program) (start : List ℕ) (c : Chunk) (s s' : Tasks)
      → load_chunk strtoul decimal p c s ≡ (chunks_added, p', s')
      → (c.chunk_size == 0) ≡ false
      → p.start_sector ≡ some start
      → Took p p' c s s'
  unfolding load_chunk
  full_Took p p' start c s s' e full has =
      let next : p' ≡ advanced strtoul decimal p start c = ground (arith, e, full, has) in
      let at = start_first p start has in
      record {
        size = ground (arith, e);
        first =
            ap (λ (r : Program). (extent_of strtoul r).first) next
            ∙ advanced_first p start c
            ∙ ap (λ (t : ℕ). (t + c.chunk_size / p.sector_size) % 2 ^ 32) (sym at);
        added =
            added_extents p p' start c s s' e full has
            ∙ ap (λ (t : ℕ). extents_of strtoul s.programs ++ chunk_extents p.sector_size t c)
                (sym at);
      }

  load_chunk-Took :
      (p p' : Program) (c : Chunk) (s s' : Tasks)
      → load_chunk strtoul decimal p c s ≡ (chunks_added, p', s')
      → Took p p' c s s'
  unfolding load_chunk
  load_chunk-Took p p' c s s' e = elim (Bool-cases (c.chunk_size == 0)) [
    | inl z ↦ empty_Took p p' c s s' e (ground (arith, z))
    | inr full ↦ elim (Option-cases p.start_sector) [
      | inl no_start ↦ absurd (ground (arith, e, full, no_start))
      | inr (start, has) ↦ full_Took p p' start c s s' e full has
    ]
  ]

  round_added :
      (ret : SparseEnd) (q p' : Program) (t s' : Tasks) (next : SparseEnd × Program × Tasks)
      → ◌≡◌ {A = SparseEnd × Program × Tasks}
          (elim ret [
            | chunks_added ↦ next
            | itself_added ↦ (itself_added, q, t)
            | chunk_refused ↦ (chunk_refused, q, t)
            | chunk_crashed ↦ (chunk_crashed, q, t)
          ])
          (chunks_added, p', s')
      → (ret ≡ chunks_added) × (next ≡ (chunks_added, p', s'))
  round_added chunks_added q p' t s' next e = (refl, e)
  round_added itself_added q p' t s' next e = absurd (ground (arith, e))
  round_added chunk_refused q p' t s' next e = absurd (ground (arith, e))
  round_added chunk_crashed q p' t s' next e = absurd (ground (arith, e))

  joined_extents :
      (p q : Program) (c : Chunk) (s t s' : Tasks) (chunks : List Chunk)
      → Took p q c s t
      → extents_of strtoul s'.programs
        ≡ extents_of strtoul t.programs ++ extents q.sector_size (extent_of strtoul q).first chunks
      → extents_of strtoul s'.programs
        ≡ extents_of strtoul s.programs
          ++ extents p.sector_size (extent_of strtoul p).first (c ∷ chunks)
  unfolding extents
  joined_extents p q c s t s' chunks took more =
      let at = (extent_of strtoul p).first in
      more
      ∙ ap₂ (λ (l m : List Extent). l ++ m) took.added
          (ap₂ (λ (a b : ℕ). extents a b chunks) took.size took.first)
      ∙ append_assoc (extents_of strtoul s.programs) (chunk_extents p.sector_size at c)
          (extents p.sector_size ((at + c.chunk_size / p.sector_size) % 2 ^ 32) chunks)

  -- When the chunks of an image are added, all of them were read, and the programs that were added
  -- are, in their order, the raw and the fill chunks with data: each starts where the program that
  -- is split started, more by the sectors of all chunks before it, also of those without data.
  pub load_chunks-extents :
      (left : ℕ) (h : SparseHeader) (p p' : Program) (f : File) (s s' : Tasks)
      → load_chunks strtoul decimal left h p f s ≡ (chunks_added, p', s')
      → (chunks : List Chunk) × (read_chunks left h f ≡ some chunks)
        × (extents_of strtoul s'.programs
            ≡ extents_of strtoul s.programs
              ++ extents p.sector_size (extent_of strtoul p).first chunks)
  unfolding load_chunks read_chunks extents
  load_chunks-extents zero h p p' f s s' e =
      ([], refl, ground (arith, e, append-nil (extents_of strtoul s.programs)))
  load_chunks-extents (suc left) h p p' f s s' e =
      let (chunk, f') = sparse_chunk_header_parse h f in
      elim (Option-cases chunk) [
        | inl no_chunk ↦ absurd (ground (arith, e, no_chunk))
        | inr (c, got) ↦
            let q = load_chunk strtoul decimal p c s in
            let (added, rest) =
              round_added q.0 q.1 p' q.2 s' (load_chunks strtoul decimal left h q.1 f' q.2)
                (ground (arith, e, got)) in
            let took = load_chunk-Took p q.1 c s q.2 (ground (arith, added)) in
            let (chunks, all, more) = load_chunks-extents left h q.1 p' f' q.2 s' rest in
            (c ∷ chunks, ground (arith, got, all), joined_extents p q.1 c s q.2 s' chunks took more)
      ]
