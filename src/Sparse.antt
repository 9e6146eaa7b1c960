-- ===== src/Sparse.antt =====
-- sparse.c: Android sparse images, their header and the headers of their chunks.
pub mod Reads
pub mod Chunks
pub mod Header
mod Tests
use qfenix.Common.{
  ℕ, ◌+◌, ◌-◌, ◌*◌, ◌%◌, ◌^◌, Bool, true, false, not, Option, none, some, List, length, take, drop,
}
use qfenix.Common.{◌==◌, ltb, if◌then◌else◌}
use qfenix.Common.Words.{field_at}

abbrev pub sparse_header_magic : ℕ
sparse_header_magic = 0xed26ff3a

abbrev pub sparse_header_major_ver : ℕ
sparse_header_major_ver = 1

abbrev pub sparse_header_minor_ver : ℕ
sparse_header_minor_ver = 0

abbrev pub chunk_type_raw : ℕ
chunk_type_raw = 0xCAC1

abbrev pub chunk_type_fill : ℕ
chunk_type_fill = 0xCAC2

abbrev pub chunk_type_dont_care : ℕ
chunk_type_dont_care = 0xCAC3

-- An open file: its bytes and its position, which may lie behind the end.
pub record File : Type 0 where
  pub content : List ℕ
  pub position : ℕ

-- `lseek` by an amount from the current position.
unfoldable pub skip : ℕ → File → File
skip n f = record f { position = f.position + n }

-- What `read` delivers, as much as the file has up to `n` bytes, and the file behind it.
unfoldable pub read_bytes : ℕ → File → List ℕ × File
unfolding skip
read_bytes n f = let got = take n (drop f.position f.content) in (got, skip (length got) f)

pub record SparseHeader : Type 0 where
  pub magic : ℕ
  pub major_version : ℕ
  pub minor_version : ℕ
  pub file_hdr_sz : ℕ
  pub chunk_hdr_sz : ℕ
  pub blk_sz : ℕ
  pub total_blks : ℕ
  pub total_chunks : ℕ
  pub image_checksum : ℕ

unfoldable pub header_of : List ℕ → SparseHeader
unfolding field_at
header_of b = record {
  magic = field_at 4 b 0;
  major_version = field_at 2 b 4;
  minor_version = field_at 2 b 6;
  file_hdr_sz = field_at 2 b 8;
  chunk_hdr_sz = field_at 2 b 10;
  blk_sz = field_at 4 b 12;
  total_blks = field_at 4 b 16;
  total_chunks = field_at 4 b 20;
  image_checksum = field_at 4 b 24;
}

-- The result is `none` for -EINVAL.
unfoldable pub check_header : SparseHeader → Option SparseHeader
check_header h =
    if not (h.magic == sparse_header_magic)
    then none
    else if not (h.major_version == sparse_header_major_ver)
    then none
    else if not (h.minor_version == sparse_header_minor_ver)
    then none
    else some h

unfoldable pub sparse_header_parse : File → Option SparseHeader × File
sparse_header_parse f =
    let got = read_bytes 28 (record f { position = 0 }) in
    if not (length got.0 == 28) then (none, got.1) else elim (check_header (header_of got.0)) [
      | none ↦ (none, got.1)
      | some h ↦ (some h, if ltb 28 h.file_hdr_sz then skip (h.file_hdr_sz - 28) got.1 else got.1)
    ]

-- The results of `sparse_chunk_header_parse`; `offset` is there for a raw chunk only.
pub record Chunk : Type 0 where
  pub type : ℕ
  pub chunk_size : ℕ
  pub value : ℕ
  pub offset : Option ℕ

-- The part after the type was read, for a chunk that is `size` bytes large in the output.
unfoldable pub chunk_of : SparseHeader → ℕ → ℕ → ℕ → File → Option Chunk × File
chunk_of h type size total_sz f = elim (type == chunk_type_raw) [
  | true ↦ if not (total_sz == (h.chunk_hdr_sz + size) % 2 ^ 64) then (none, f) else (
    some (record { type = type; chunk_size = size; value = 0; offset = some f.position }),
    skip size f,
  )
  | false ↦ elim (type == chunk_type_dont_care) [
    | true ↦
        if not (total_sz == h.chunk_hdr_sz)
        then (none, f)
        else (some (record { type = type; chunk_size = size; value = 0; offset = none }), f)
    | false ↦ elim (type == chunk_type_fill) [
      | true ↦
          if not (total_sz == h.chunk_hdr_sz + 4)
          then (none, f)
          else let got = read_bytes 4 f in
            if not (length got.0 == 4) then (none, got.1) else (
              some (record {
                type = type;
                chunk_size = size;
                value = field_at 4 got.0 0;
                offset = none;
              }),
              got.1,
            )
      | false ↦ (none, f)
    ]
  ]
]

unfoldable pub sparse_chunk_header_parse : SparseHeader → File → Option Chunk × File
sparse_chunk_header_parse h f =
    let got = read_bytes 12 f in
    if not (length got.0 == 12)
    then (none, got.1)
    else chunk_of h (field_at 2 got.0 0) (field_at 4 got.0 4 * h.blk_sz % 2 ^ 64)
        (field_at 4 got.0 8)
        (if ltb 12 h.chunk_hdr_sz then skip (h.chunk_hdr_sz - 12) got.1 else got.1)
