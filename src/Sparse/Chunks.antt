-- ===== src/Sparse/Chunks.antt =====
-- sparse.c: a chunk is read as it was laid out, and the file stands at the next one.
use mathlib.Core.List.{append_assoc}
use qfenix.Common.{ℕ, ◌+◌, ◌*◌, ◌%◌, ◌^◌, ◌<◌, ◌≡◌, refl, sym, ap, ◌∙◌, arith, none, some}
use qfenix.Common.{List, ◌++◌, length}
use mathlib.Core.Path.{subst}
use qfenix.Common.Words.{to_le, length-to_le, field_at}
use qfenix.Sparse.{File, skip, read_bytes, SparseHeader, chunk_of, sparse_chunk_header_parse}
use qfenix.Sparse.{chunk_type_raw, chunk_type_fill}
use qfenix.Sparse.Reads.{
  StandsAt, skip-StandsAt, read_runs, chunk_header, header_runs, value_field, position-skip,
}

raw_chunk :
    (h : SparseHeader) (size total : ℕ) (f : File)
    → total ≡ (h.chunk_hdr_sz + size) % 2 ^ 64
    → chunk_of h chunk_type_raw size total f ≡ (
      some (record {
        type = chunk_type_raw;
        chunk_size = size;
        value = 0;
        offset = some f.position;
      }),
      skip size f,
    )
unfolding chunk_of
raw_chunk h size total f e = ground (arith, e)

fill_chunk :
    (h : SparseHeader) (size total : ℕ) (f : File) (bytes rest : List ℕ)
    → total ≡ h.chunk_hdr_sz + 4
    → length bytes ≡ 4
    → StandsAt f (bytes ++ rest)
    → chunk_of h chunk_type_fill size total f ≡ (
      some (record {
        type = chunk_type_fill;
        chunk_size = size;
        value = field_at 4 bytes 0;
        offset = none;
      }),
      skip 4 f,
    )
unfolding chunk_of
fill_chunk h size total f bytes rest e four at =
    let got = subst (λ k. read_bytes k f ≡ (bytes, skip k f)) four (read_runs f bytes rest at) in
    ground (arith, e, got, four)

-- A raw chunk with all its data in the file: the size and the place of the data are found, and the
-- file stands behind the data.
pub sparse_chunk_header_parse_raw :
    (h : SparseHeader) (f : File) (n : ℕ) (pad body rest : List ℕ)
    → n < 2 ^ 32
    → length body ≡ n * h.blk_sz
    → h.chunk_hdr_sz ≡ 12 + length pad
    → h.chunk_hdr_sz + length body < 2 ^ 32
    → StandsAt f
        (chunk_header chunk_type_raw n (h.chunk_hdr_sz + length body) ++ pad ++ body ++ rest)
    → ((sparse_chunk_header_parse h f).0
        ≡ some (record {
          type = chunk_type_raw;
          chunk_size = length body;
          value = 0;
          offset = some (f.position + h.chunk_hdr_sz);
        }))
      × StandsAt (sparse_chunk_header_parse h f).1 rest
sparse_chunk_header_parse_raw h f n pad body rest hn size e room at =
    let total = h.chunk_hdr_sz + length body in
    let head = chunk_header chunk_type_raw n total in
    let r =
      header_runs h f chunk_type_raw n total pad (body ++ rest) (omega arith) hn room e
        (at ∙ append_assoc (head ++ pad) body rest) in
    let fits : n * h.blk_sz % 2 ^ 64 ≡ length body = omega (arith, size, room) in
    let all =
      r.0
      ∙ ap (λ (k : ℕ). chunk_of h chunk_type_raw k total (skip h.chunk_hdr_sz f)) fits
      ∙ raw_chunk h (length body) total (skip h.chunk_hdr_sz f) (omega (arith, room)) in
    (
      ap (λ t. t.0) all
          ∙ ap
              (λ (k : ℕ). some (record {
                type = chunk_type_raw;
                chunk_size = length body;
                value = 0;
                offset = some k;
              }))
              (position-skip h.chunk_hdr_sz f),
      subst (λ (g : File). StandsAt g rest) (sym (ap (λ t. t.1) all))
          (skip-StandsAt (skip h.chunk_hdr_sz f) body rest r.1),
    )

-- A fill chunk: its value is found, and the file stands behind it.
pub sparse_chunk_header_parse_fill :
    (h : SparseHeader) (f : File) (n v : ℕ) (pad rest : List ℕ)
    → n < 2 ^ 32
    → v < 2 ^ 32
    → h.chunk_hdr_sz ≡ 12 + length pad
    → h.chunk_hdr_sz + 4 < 2 ^ 32
    → StandsAt f (chunk_header chunk_type_fill n (h.chunk_hdr_sz + 4) ++ pad ++ to_le 4 v ++ rest)
    → ((sparse_chunk_header_parse h f).0
        ≡ some (record {
          type = chunk_type_fill;
          chunk_size = n * h.blk_sz % 2 ^ 64;
          value = v;
          offset = none;
        }))
      × StandsAt (sparse_chunk_header_parse h f).1 rest
unfolding to_le
sparse_chunk_header_parse_fill h f n v pad rest hn hv e room at =
    let total = h.chunk_hdr_sz + 4 in
    let head = chunk_header chunk_type_fill n total in
    let r =
      header_runs h f chunk_type_fill n total pad (to_le 4 v ++ rest) (omega arith) hn room e
        (at ∙ append_assoc (head ++ pad) (to_le 4 v) rest) in
    let all =
      r.0
      ∙ fill_chunk h (n * h.blk_sz % 2 ^ 64) total (skip h.chunk_hdr_sz f) (to_le 4 v) rest refl
          (length-to_le 4 v) r.1 in
    (
      ap (λ t. t.0) all
          ∙ ap
              (λ (k : ℕ). some (record {
                type = chunk_type_fill;
                chunk_size = n * h.blk_sz % 2 ^ 64;
                value = k;
                offset = none;
              }))
              (value_field v hv),
      subst (λ (g : File). StandsAt g rest) (sym (ap (λ t. t.1) all))
          (skip-StandsAt (skip h.chunk_hdr_sz f) (to_le 4 v) rest r.1),
    )
