-- ===== src/Sparse/Tests.antt =====
-- Tests and instances for sparse.c, with blocks of four bytes.
use qfenix.Common.{ℕ, ◌≡◌, refl, some, List, [], ◌∷◌, ◌++◌}
use qfenix.Common.Words.{to_le, of_le, field_at}
use qfenix.Sparse.{
  File, SparseHeader, header_of, check_header, read_bytes, skip, sparse_header_parse,
  chunk_type_raw, chunk_type_fill,
}
use qfenix.Sparse.Reads.{chunk_header}
use qfenix.Sparse.Header.{Accepted, sparse_header_parse_sound}

abbrev header_bytes : List ℕ
header_bytes =
    0x3a ∷ 0xff ∷ 0x26 ∷ 0xed ∷ 1 ∷ 0 ∷ 0 ∷ 0 ∷ 28 ∷ 0 ∷ 12 ∷ 0 ∷ 4 ∷ 0 ∷ 0 ∷ 0 ∷ 1 ∷ 0 ∷ 0 ∷ 0 ∷ 1
    ∷ 0 ∷ 0 ∷ 0 ∷ 0 ∷ 0 ∷ 0 ∷ 0 ∷ []

abbrev image_header : SparseHeader
image_header = record {
  magic = 0xed26ff3a;
  major_version = 1;
  minor_version = 0;
  file_hdr_sz = 28;
  chunk_hdr_sz = 12;
  blk_sz = 4;
  total_blks = 1;
  total_chunks = 1;
  image_checksum = 0;
}

abbrev header_file : File
header_file = record { content = header_bytes; position = 5 }

header_parsed : (sparse_header_parse header_file).0 ≡ some image_header
unfolding sparse_header_parse check_header header_of read_bytes skip field_at of_le
header_parsed = refl

sparse_header_parse_sound_example :
    Accepted header_bytes (sparse_header_parse header_file).1.position image_header
sparse_header_parse_sound_example = sparse_header_parse_sound header_file image_header header_parsed

abbrev data_bytes : List ℕ
data_bytes = 1 ∷ 2 ∷ 3 ∷ 4 ∷ []

abbrev raw_file : File
raw_file = record {
  content = chunk_header chunk_type_raw 1 16 ++ [] ++ data_bytes ++ 9 ∷ [];
  position = 0;
}

abbrev fill_file : File
fill_file = record {
  content = chunk_header chunk_type_fill 1 16 ++ [] ++ to_le 4 7 ++ 9 ∷ [];
  position = 0;
}
