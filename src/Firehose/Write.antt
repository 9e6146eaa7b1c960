-- ===== src/Firehose/Write.antt =====
-- firehose.c: firehose_program, from the size of the file to the last answer of the device.
pub mod Sent
pub mod Unread
use qfenix.Common.{
  ℕ, zero, suc, ◌+◌, ◌-◌, ◌*◌, ◌/◌, ◌%◌, ◌^◌, min, Bool, true, false, not, Option, none, some, List,
  [], ◌∷◌, ◌++◌, length, take, drop, ◌==◌, ltb, ◌&&◌, if◌then◌else◌,
}
use qfenix.Common.Words.{to_le}
use qfenix.Link.{Link, Outcome, Exec, ok, stuck, pure, fail, qdl_write, ◌>>=◌, ◌>>◌, continue}
use qfenix.Sparse.{chunk_type_raw, chunk_type_fill}
use qfenix.Tasks.{Program}
use qfenix.Tasks.Queue.{minus_one}

-- The bytes in front, with zeros behind them where there are less than `n`.
unfoldable pub padded : ℕ → List ℕ → List ℕ
padded zero bytes = []
padded (suc n) [] = 0 ∷ padded n []
padded (suc n) (b ∷ rest) = b ∷ padded n rest

-- The four bytes of a value, over and over, from byte `i` on.
unfoldable pub filled : ℕ → List ℕ → List ℕ → List ℕ
filled zero all rest = []
filled (suc n) all (b ∷ rest) = b ∷ filled n all rest
filled (suc n) [] [] = []
filled (suc n) (b ∷ all) [] = b ∷ filled n (b ∷ all) all

-- What a chunk is made of: an open file, whose `read` at a position delivers at most so many bytes,
-- or `none` for an error; or a value.
pub data Source : Type 0 where
  from_file : (ℕ → ℕ → Option (List ℕ)) → Source
  fill_with : ℕ → Source

-- The bytes of a chunk, and the position behind them.
unfoldable pub chunk_bytes : Source → ℕ → ℕ → Option (List ℕ × ℕ)
unfolding padded filled
chunk_bytes (fill_with v) pos size = some (filled size (to_le 4 v) [], pos)
chunk_bytes (from_file read) pos size = elim (read pos size) [
  | none ↦ none
  | some got ↦ some (padded size got, pos + length got)
]

-- The sectors that are written: of a file that is no sparse image its own, as far as the partition
-- has them.
unfoldable pub written_sectors : Program → ℕ → ℕ → ℕ
written_sectors p sector_size size =
    if p.sparse
    then p.num_sectors
    else let n = (size + sector_size - 1) / sector_size % 2 ^ 32 in
      if not (p.num_sectors == 0) && ltb p.num_sectors n then p.num_sectors else n

-- The program's sector size, where it has one.
unfoldable pub sector_size_of : Program → ℕ → ℕ
sector_size_of p device_sector_size =
    if p.sector_size == 0 then device_sector_size else p.sector_size

-- Where the data starts; `none` for a chunk of another type.
unfoldable pub source_of : Program → ℕ → (ℕ → ℕ → Option (List ℕ)) → Option (Source × ℕ)
source_of p sector_size read =
    if not p.sparse
    then some (from_file read, p.file_offset * sector_size)
    else if p.sparse_chunk_type == chunk_type_raw
    then some (from_file read, p.sparse_offset)
    else if p.sparse_chunk_type == chunk_type_fill
    then some (fill_with p.sparse_fill_value, 0)
    else none

-- `vip_transfer_handle_tables`, `vip_transfer_status_check_needed`, `vip_transfer_clear_status`,
-- and `firehose_read` with the generic parser, whose result is 0 for ACK.
module _ (handle_tables : Exec ℕ) (status_check_needed : Exec Bool) (clear_status : Exec (Unit {0}))
    (firehose_read : Exec ℕ) where
  -- The tables before a chunk; the result is `ret`, and one other than 0 is a failure.
  unfoldable pub vip_before_chunk : Exec ℕ
  vip_before_chunk = do
    ret ← handle_tables
    elim (ret == 0) [
      | false ↦ pure minus_one
      | true ↦ do
        needed ← status_check_needed
        elim needed [
          | false ↦ pure ret
          | true ↦ do
            answer ← firehose_read
            elim (answer == 0) [ false ↦ pure minus_one | true ↦ do clear_status; pure answer ]
        ]
    ]

  -- The loop, with the last answer behind it, from the value of `ret` on; the result is `ret` at
  -- `out:`. When the file cannot be read it is what the step before left there.
  unfoldable pub program_loop : ℕ → Source → ℕ → ℕ → ℕ → ℕ → ℕ → Exec ℕ
  unfolding chunk_bytes vip_before_chunk
  program_loop zero source sector_size payload left pos ret = fail stuck
  program_loop (suc fuel) source sector_size payload left pos ret = elim (left == 0) [
    | true ↦ firehose_read
    | false ↦ elim (chunk_bytes source pos (min (payload / sector_size) left * sector_size)) [
      | none ↦ pure ret
      | some (bytes, next) ↦ do
        ret' ← vip_before_chunk
        elim (ret' == 0) [
          | false ↦ pure minus_one
          | true ↦ do
            n ← qdl_write bytes
            elim n [
              | none ↦ firehose_read
              | some k ↦ elim (k == length bytes) [
                | false ↦ pure minus_one
                | true ↦
                    program_loop fuel source sector_size payload
                      (left - min (payload / sector_size) left) next ret'
              ]
            ]
        ]
    ]
  ]

  -- `size` is what `fstat` says; that it or `malloc` fails and ends the process is left out. `request`
  -- is `firehose_write` of the command, false for a negative result. There are at most as
  -- many rounds as sectors, where a sector fits into the payload.
  unfoldable pub firehose_program :
      (Program → ℕ → Exec Bool) → ℕ → ℕ → Program → ℕ → (ℕ → ℕ → Option (List ℕ)) → Exec ℕ
  unfolding sector_size_of written_sectors source_of program_loop
  firehose_program request device_sector_size payload p size read =
      let sector_size = sector_size_of p device_sector_size in
      let num_sectors = written_sectors p sector_size size in
      do
        sent ← request p num_sectors
        elim sent [
          | false ↦ pure minus_one
          | true ↦ do
            ret ← firehose_read
            elim (ret == 0) [
              | false ↦ pure minus_one
              | true ↦ elim (source_of p sector_size read) [
                | none ↦ pure (if ret == 0 then 0 else minus_one)
                | some (source, pos) ↦ do
                  ret' ←
                      program_loop (suc num_sectors) source sector_size payload num_sectors pos ret
                  pure (if ret' == 0 then 0 else minus_one)
              ]
            ]
        ]
