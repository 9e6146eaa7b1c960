-- ===== src/Firehose/Issue.antt =====
-- firehose.c: firehose_issue_read, from the request to the last answer; firehose_read_buf and
-- firehose_read_op are its calls with a buffer and with a file.
pub mod Whole
use qfenix.Common.{
  ℕ, zero, suc, ◌+◌, ◌-◌, ◌*◌, ◌/◌, min, max, Bool, true, false, Option, none, some, List, [], ◌∷◌,
  ◌++◌, length, take, drop, ◌==◌,
}
use qfenix.Link.{
  Link, Outcome, Exec, ok, exited, stuck, pure, fail, qdl_read, ◌>>=◌, ◌>>◌, continue,
}
use qfenix.Firehose.{fh_remainder_drain, read_chunk}
use qfenix.Tasks.Queue.{minus_one}

-- Where the data goes: into a buffer of a length, or to a file.
pub data Sink : Type 0 where
  to_buffer : ℕ → Sink
  to_file : Sink

-- The size of the buffer for a chunk.
unfoldable pub buffer_size : ℕ → ℕ
buffer_size payload = max payload (1024 * 1024)

-- Reads until one fails or is empty; there are no more rounds than results and one.
unfoldable pub discard : ℕ → ℕ → Exec (Unit {0})
discard zero size = fail stuck
discard (suc fuel) size = do
  n ← qdl_read size
  elim n [ none ↦ pure tt | some [] ↦ pure tt | some (b ∷ rest) ↦ discard fuel size ]

unfoldable pub resynchronise : ℕ → Exec (Unit {0})
unfolding discard
resynchronise size l = discard (suc (length l.incoming)) size l

-- `write` on the file.
module _ (write : List ℕ → Exec (Option ℕ)) where
  -- A chunk behind what there is already.
  unfoldable pub store_chunk : Sink → List ℕ → List ℕ → Exec (List ℕ)
  store_chunk (to_buffer out_len) out got = pure (out ++ take (out_len - length out) got)
  store_chunk to_file out got = do
    n ← write got
    elim n [
      | none ↦ fail exited
      | some k ↦ elim (k == length got) [ false ↦ fail exited | true ↦ pure (out ++ got) ]
    ]

  -- What came of a chunk that failed is written to a file, whatever `write` says.
  unfoldable pub store_part : Sink → List ℕ → Exec (Unit {0})
  store_part (to_buffer out_len) got = pure tt
  store_part to_file [] = pure tt
  store_part to_file (b ∷ rest) = do n ← write (b ∷ rest); pure tt

  -- The loop over the chunks: whether all were read, and what is stored.
  unfoldable pub issue_loop : ℕ → Sink → ℕ → ℕ → ℕ → List ℕ → List ℕ → Exec (Bool × List ℕ)
  unfolding store_chunk store_part read_chunk fh_remainder_drain
  issue_loop zero sink size sector_size left remainder out = fail stuck
  issue_loop (suc fuel) sink size sector_size left remainder out = elim (left == 0) [
    | true ↦ pure (true, out)
    | false ↦
        let chunk_size = min (size / sector_size) left in
        let wanted = chunk_size * sector_size in
        do
          (whole, got) ← read_chunk wanted remainder
          elim whole [
            | false ↦ do store_part sink got; pure (false, out)
            | true ↦ do
              out' ← store_chunk sink out got
              issue_loop fuel sink size sector_size (left - chunk_size)
                  (fh_remainder_drain wanted remainder).1 out'
          ]
  ]

  -- `request` is `firehose_write` of the command, 0 or a negative result, and `firehose_read` the
  -- one with the generic parser, 0 for ACK, with the remainder; the sector size is that of the
  -- operation or else of the device. The result, and what is stored of whole chunks.
  unfoldable pub firehose_issue_read :
      Exec ℕ → Exec (ℕ × List ℕ) → Sink → ℕ → ℕ → ℕ → Exec (ℕ × List ℕ)
  unfolding buffer_size issue_loop resynchronise
  firehose_issue_read request firehose_read sink payload sector_size num_sectors = do
    sent ← request
    elim (sent == 0) [
      | false ↦ pure (sent, [])
      | true ↦ do
        (answer, remainder) ← firehose_read
        elim (answer == 0) [
          | false ↦ pure (answer, [])
          | true ↦ do
            (whole, out) ←
                issue_loop (suc num_sectors) sink (buffer_size payload) sector_size num_sectors
                  remainder []
            elim whole [ true ↦ pure tt | false ↦ resynchronise (buffer_size payload) ]
            (last, left_over) ← firehose_read
            elim (last == 0) [
              | false ↦ pure (minus_one, out)
              | true ↦ elim whole [ true ↦ pure (0, out) | false ↦ pure (minus_one, out) ]
            ]
        ]
    ]
