-- ===== src/Sparse/Header.antt =====
-- sparse.c: which files sparse_header_parse accepts, and where it leaves them.
use qfenix.Common.{ℕ, ◌≤◌, ◌≡◌, ap, ◌∙◌, sym, arith, max, some, List, length, take, length-take}
use qfenix.Sparse.{
  File, skip, read_bytes, SparseHeader, header_of, check_header, sparse_header_parse,
}
use qfenix.Sparse.{sparse_header_magic, sparse_header_major_ver, sparse_header_minor_ver}

-- What is known of an accepted file.
pub record Accepted (content : List ℕ) (position : ℕ) (h : SparseHeader) : Type 0 where
  pub present : 28 ≤ length content
  pub header : h ≡ header_of (take 28 content)
  pub magic : h.magic ≡ sparse_header_magic
  pub major : h.major_version ≡ sparse_header_major_ver
  pub minor : h.minor_version ≡ sparse_header_minor_ver
  pub place : position ≡ max 28 h.file_hdr_sz

checked :
    (h h' : SparseHeader)
    → check_header h ≡ some h'
    → (h ≡ h')
      × (h.magic ≡ sparse_header_magic)
      × (h.major_version ≡ sparse_header_major_ver)
      × (h.minor_version ≡ sparse_header_minor_ver)
unfolding check_header
checked h h' e = (ground (arith, e), ground (arith, e), ground (arith, e), ground (arith, e))

went_well :
    (f : File) (h : SparseHeader)
    → (sparse_header_parse f).0 ≡ some h
    → (length (take 28 f.content) ≡ 28) × (check_header (header_of (take 28 f.content)) ≡ some h)
unfolding sparse_header_parse read_bytes skip
went_well f h e = (ground (arith, e), ground (arith, e))

placed :
    (f : File) (h : SparseHeader)
    → length (take 28 f.content) ≡ 28
    → check_header (header_of (take 28 f.content)) ≡ some h
    → (sparse_header_parse f).1.position ≡ max 28 h.file_hdr_sz
unfolding sparse_header_parse read_bytes skip
placed f h full e = ground (arith, full, e)

-- A file that is accepted has a whole header with the magic and with just the version 1.0, a higher
-- minor version being refused, and is left where its header ends, by the size in the header or
-- behind the 28 bytes.
pub sparse_header_parse_sound :
    (f : File) (h : SparseHeader)
    → (sparse_header_parse f).0 ≡ some h
    → Accepted f.content (sparse_header_parse f).1.position h
sparse_header_parse_sound f h e =
    let well = went_well f h e in
    let facts = checked (header_of (take 28 f.content)) h well.1 in
    record {
      present = omega (arith, well.0, length-take 28 f.content);
      header = sym facts.0;
      magic = ap (λ (x : SparseHeader). x.magic) (sym facts.0) ∙ facts.1;
      major = ap (λ (x : SparseHeader). x.major_version) (sym facts.0) ∙ facts.2;
      minor = ap (λ (x : SparseHeader). x.minor_version) (sym facts.0) ∙ facts.3;
      place = placed f h well.0 well.1;
    }
