-- ===== src/Firehose.antt =====
-- firehose.c: the bytes that came with the answer to a read command (fh_remainder_save,
-- fh_remainder_drain), how firehose_issue_read fills a chunk, and firehose_program (Write).
pub mod Chunk
pub mod Write
pub mod Answer
pub mod Issue
mod Tests
use qfenix.Common.{
  ℕ, zero, suc, ◌+◌, ◌-◌, Bool, true, false, Option, none, some, List, [], ◌∷◌, ◌++◌, length, take,
  drop, ltb,
}
use qfenix.Link.{Link, Outcome, Exec, ok, stuck, pure, fail, qdl_read, ◌>>=◌, continue}

-- The size of the array for the remainder.
abbrev pub remainder_size : ℕ
remainder_size = 4096

-- What the array holds after bytes were saved.
unfoldable pub fh_remainder_save : List ℕ → List ℕ
fh_remainder_save bytes = take remainder_size bytes

-- What is copied to the buffer, and what stays.
unfoldable pub fh_remainder_drain : ℕ → List ℕ → List ℕ × List ℕ
fh_remainder_drain max_bytes remainder = (take max_bytes remainder, drop max_bytes remainder)

-- The loop of reads for a chunk of `wanted` bytes: whether it is whole, and the bytes.
unfoldable pub fill_chunk : ℕ → ℕ → List ℕ → Exec (Bool × List ℕ)
fill_chunk zero wanted got = fail stuck
fill_chunk (suc fuel) wanted got = elim (ltb (length got) wanted) [
  | false ↦ pure (true, got)
  | true ↦ do
    n ← qdl_read (wanted - length got)
    elim n [
      | none ↦ pure (false, got)
      | some [] ↦ pure (false, got)
      | some (b ∷ rest) ↦ fill_chunk fuel wanted (got ++ b ∷ rest)
    ]
]

-- A chunk, the remainder first; a read that brings bytes uses up a result, so there are more rounds
-- than results.
unfoldable pub read_chunk : ℕ → List ℕ → Exec (Bool × List ℕ)
read_chunk wanted remainder l =
    fill_chunk (suc (length l.incoming)) wanted (fh_remainder_drain wanted remainder).0 l
