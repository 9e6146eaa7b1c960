-- ===== src/Tasks/Load.antt =====
-- program.c, read.c and patch.c: what the tags of an XML file add.
pub mod Chunks
pub mod Twice
use qfenix.Common.{
  ℕ, zero, suc, ◌+◌, ◌-◌, ◌*◌, ◌/◌, ◌%◌, ◌^◌, Bool, true, false, not, Option, none, some, List, [],
  ◌∷◌, ◌++◌, length, take, ◌==◌, leb, ◌&&◌, ◌||◌, if◌then◌else◌,
}
use qfenix.Patch.{
  Attributes, XmlNode, attr_as_string, attr_as_unsigned, normalize_path, same_string,
  patch_load_tag,
}
use qfenix.Nodes.{list_add}
use qfenix.Sparse.{
  File, SparseHeader, Chunk, sparse_header_parse, sparse_chunk_header_parse, chunk_type_raw,
  chunk_type_fill,
}
use qfenix.Tasks.{
  Program, ReadOp, Tasks, empty_program, op_program, add_program, add_read, add_patch,
}

-- How a function may end: with 0, with a negative number, or with a NULL pointer or a zero divisor
-- used.
pub data LoadEnd : Type 0 where
  accepted refused crashed : LoadEnd

-- What `program_load_sparse` did: the chunks were added, or the program itself was.
pub data SparseEnd : Type 0 where
  chunks_added itself_added chunk_refused chunk_crashed : SparseEnd

pub record EraseTag : Type 0 where
  pub vendor : Option (List ℕ)
  pub sector_size_in_bytes : Option (List ℕ)
  pub num_partition_sectors : Option (List ℕ)
  pub physical_partition_number : Option (List ℕ)
  pub start_sector : Option (List ℕ)
  pub pages_per_block : Option (List ℕ)

pub record ProgramTag : Type 0 where
  pub sector_size_in_bytes : Option (List ℕ)
  pub filename : Option (List ℕ)
  pub num_partition_sectors : Option (List ℕ)
  pub physical_partition_number : Option (List ℕ)
  pub start_sector : Option (List ℕ)
  pub label : Option (List ℕ)
  pub sparse : Option (List ℕ)
  pub md5 : Option (List ℕ)
  pub pages_per_block : Option (List ℕ)
  pub last_sector : Option (List ℕ)
  pub file_sector_offset : Option (List ℕ)

pub record ReadTag : Type 0 where
  pub sector_size_in_bytes : Option (List ℕ)
  pub filename : Option (List ℕ)
  pub physical_partition_number : Option (List ℕ)
  pub num_partition_sectors : Option (List ℕ)
  pub start_sector : Option (List ℕ)
  pub pages_per_block : Option (List ℕ)

-- A child of the root, by its name.
pub data Node : Type 0 where
  no_element other_tag : Node
  erase_tag : EraseTag → Node
  program_tag : ProgramTag → Node
  read_tag : ReadTag → Node
  patch_tag : Attributes → Node

-- `"true"`.
abbrev pub true_text : List ℕ
true_text = 0x74 ∷ 0x72 ∷ 0x75 ∷ 0x65 ∷ []

unfoldable pub attr_as_bool : Option (List ℕ) → Bool
unfolding same_string
attr_as_bool none = false
attr_as_bool (some v) = same_string v true_text

-- `snprintf(tmp, PATH_MAX, "%s/%s", …)`.
unfoldable pub joined_path : List ℕ → List ℕ → List ℕ
joined_path dir name = take 4095 (dir ++ 0x2f ∷ name)

-- The name of the file of a read, in the directory if there is one; to print a NULL pointer
-- by `%s` is undefined.
unfoldable pub incdir_name : Option (List ℕ) → Option (List ℕ) → Option (Option (List ℕ))
unfolding joined_path
incdir_name none name = some name
incdir_name (some dir) none = none
incdir_name (some dir) (some name) = some (some (joined_path dir name))

-- The program for a raw chunk or a fill chunk.
unfoldable pub chunk_program : Program → Chunk → Program
chunk_program p c = record p {
  is_erase = false;
  md5 = none;
  gpt_partition = none;
  sparse_chunk_type = c.type;
  num_sectors = c.chunk_size / p.sector_size;
  sparse_offset = (elim c.offset [ none ↦ 0 | some offset ↦ offset ]);
  sparse_fill_value = (if c.type == chunk_type_raw then 0 else c.value);
}

-- What follows `program_load_sparse`: the filename is dropped and the program is added, which links
-- its node, the last one, a second time if it was added before.
unfoldable pub after_sparse : SparseEnd → Program → Tasks → LoadEnd × Tasks
unfolding add_program list_add
after_sparse chunks_added p s = (accepted, add_program (record p { filename = none }) s)
after_sparse itself_added p s = (
  accepted,
  record s {
    programs = take (length s.programs - 1) s.programs ++ record p { filename = none } ∷ [];
    links = list_add 0 (length s.programs) s.links;
    firehose_ops = s.firehose_ops ++ op_program (length s.programs - 1) ∷ [];
  },
)
after_sparse chunk_refused p s = (refused, s)
after_sparse chunk_crashed p s = (crashed, s)

-- `strtoul` with base 0.
module _ (strtoul : List ℕ → ℕ) where
  -- An attribute that is read only where it is there.
  unfoldable pub optional_unsigned : Option (List ℕ) → ℕ → ℕ × ℕ
  unfolding attr_as_unsigned
  optional_unsigned none errors = (0, errors)
  optional_unsigned (some v) errors = attr_as_unsigned strtoul (some v) errors

  -- The attributes of an erase tag; `none` for -EINVAL.
  unfoldable pub erase_of_tag : Bool → EraseTag → Option Program
  unfolding attr_as_unsigned attr_as_string
  erase_of_tag is_nand a =
      let (sector_size, e1) = attr_as_unsigned strtoul a.sector_size_in_bytes 0 in
      let (num_sectors, e2) = attr_as_unsigned strtoul a.num_partition_sectors e1 in
      let (partition, e3) = attr_as_unsigned strtoul a.physical_partition_number e2 in
      let (start_sector, e4) = attr_as_string a.start_sector e3 in
      let (pages_per_block, e5) =
        (if is_nand then attr_as_unsigned strtoul a.pages_per_block e4 else (0, e4)) in
      if not (e5 == 0)
      then none
      else some (record empty_program {
        sector_size = sector_size;
        num_sectors = num_sectors;
        partition = partition;
        start_sector = start_sector;
        pages_per_block = pages_per_block;
        is_nand = is_nand;
        is_erase = true;
      })

  -- A tag of a vendor is no erasure.
  unfoldable pub load_erase_tag : Bool → EraseTag → Tasks → LoadEnd × Tasks
  unfolding erase_of_tag add_program
  load_erase_tag is_nand a s = elim a.vendor [
    | some v ↦ (accepted, s)
    | none ↦ elim (erase_of_tag is_nand a) [
      | none ↦ (refused, s)
      | some p ↦ (accepted, add_program p s)
    ]
  ]

  -- The attributes of a program tag; `none` for -EINVAL.
  unfoldable pub program_of_tag : Bool → ProgramTag → Option Program
  unfolding attr_as_unsigned attr_as_string normalize_path attr_as_bool optional_unsigned
  program_of_tag is_nand a =
      let (sector_size, e1) = attr_as_unsigned strtoul a.sector_size_in_bytes 0 in
      let (filename, e2) = attr_as_string a.filename e1 in
      let (num_sectors, e3) = attr_as_unsigned strtoul a.num_partition_sectors e2 in
      let (partition, e4) = attr_as_unsigned strtoul a.physical_partition_number e3 in
      let (start_sector, e5) = attr_as_string a.start_sector e4 in
      let (pages_per_block, e6) =
        (if is_nand then attr_as_unsigned strtoul a.pages_per_block e5 else (0, e5)) in
      let (last_sector, e7) = (if is_nand then optional_unsigned a.last_sector e6 else (0, e6)) in
      let (file_offset, e8) =
        (if is_nand then (0, e7) else attr_as_unsigned strtoul a.file_sector_offset e7) in
      if not (e8 == 0)
      then none
      else some (record empty_program {
        is_nand = is_nand;
        sector_size = sector_size;
        filename = normalize_path filename;
        num_sectors = num_sectors;
        partition = partition;
        start_sector = start_sector;
        label = (elim a.label [
          | none ↦ normalize_path filename
          | some v ↦ (attr_as_string (some v) 0).0
        ]);
        sparse = attr_as_bool a.sparse;
        md5 = (elim a.md5 [ none ↦ none | some v ↦ (attr_as_string (some v) 0).0 ]);
        pages_per_block = pages_per_block;
        last_sector = last_sector;
        file_offset = file_offset;
      })

  unfoldable pub read_op_load_tag : Option (List ℕ) → ReadTag → Tasks → LoadEnd × Tasks
  unfolding attr_as_unsigned attr_as_string normalize_path incdir_name add_read optional_unsigned
  read_op_load_tag incdir a s =
      let (sector_size, e1) = attr_as_unsigned strtoul a.sector_size_in_bytes 0 in
      let (filename, e2) = attr_as_string a.filename e1 in
      let (partition, e3) = attr_as_unsigned strtoul a.physical_partition_number e2 in
      let (num_sectors, e4) = attr_as_unsigned strtoul a.num_partition_sectors e3 in
      let (start_sector, e5) = attr_as_string a.start_sector e4 in
      let (pages_per_block, e6) = optional_unsigned a.pages_per_block e5 in
      if not (e6 == 0) then (refused, s) else elim (incdir_name incdir (normalize_path filename)) [
        | none ↦ (crashed, s)
        | some name ↦ (
          accepted,
          add_read
              (record {
                sector_size = sector_size;
                pages_per_block = pages_per_block;
                filename = name;
                partition = partition;
                num_sectors = num_sectors;
                start_sector = start_sector;
                gpt_partition = none;
              })
              s,
        )
      ]

  -- The loop of `read_op_load`, which goes on behind a tag that is refused.
  unfoldable pub read_op_load_nodes : Option (List ℕ) → List Node → Tasks → LoadEnd × Tasks
  unfolding read_op_load_tag
  read_op_load_nodes incdir [] s = (accepted, s)
  read_op_load_nodes incdir (read_tag a ∷ rest) s =
      let (ret, s') = read_op_load_tag incdir a s in
      elim ret [
        | accepted ↦ read_op_load_nodes incdir rest s'
        | refused ↦ read_op_load_nodes incdir rest s'
        | crashed ↦ (crashed, s')
      ]
  read_op_load_nodes incdir (no_element ∷ rest) s = read_op_load_nodes incdir rest s
  read_op_load_nodes incdir (other_tag ∷ rest) s = read_op_load_nodes incdir rest s
  read_op_load_nodes incdir (erase_tag a ∷ rest) s = read_op_load_nodes incdir rest s
  read_op_load_nodes incdir (program_tag a ∷ rest) s = read_op_load_nodes incdir rest s
  read_op_load_nodes incdir (patch_tag a ∷ rest) s = read_op_load_nodes incdir rest s

  unfoldable pub read_op_load : Option (List ℕ) → Option (List Node) → Tasks → LoadEnd × Tasks
  unfolding read_op_load_nodes
  read_op_load incdir none s = (refused, s)
  read_op_load incdir (some nodes) s = read_op_load_nodes incdir nodes s

-- patch.c.
module _ (strtoul : List ℕ → ℕ) where
  -- The loop over the children of the root, which goes on behind a tag that is refused.
  unfoldable pub patch_load_nodes : List XmlNode → Tasks → Tasks
  unfolding patch_load_tag add_patch
  patch_load_nodes [] s = s
  patch_load_nodes (node ∷ rest) s = elim (node.is_element && node.is_patch) [
    | false ↦ patch_load_nodes rest s
    | true ↦ elim (patch_load_tag strtoul node.attributes) [
      | none ↦ patch_load_nodes rest s
      | some p ↦ patch_load_nodes rest (add_patch p s)
    ]
  ]

  -- A file that cannot be parsed is `none`.
  unfoldable pub patch_load : Option (List XmlNode) → Tasks → LoadEnd × Tasks
  unfolding patch_load_nodes
  patch_load none s = (refused, s)
  patch_load (some nodes) s =
      (accepted, record (patch_load_nodes nodes s) { patches_loaded = true })

-- `strtoul` and `%u` of `sprintf`.
module _ (strtoul : List ℕ → ℕ) (decimal : ℕ → List ℕ) where
  -- The next sector of the parent.
  unfoldable pub advanced : Program → List ℕ → Chunk → Program
  advanced p start c = record p {
    start_sector =
        some (decimal ((strtoul start % 2 ^ 32 + c.chunk_size / p.sector_size) % 2 ^ 32));
  }

  unfoldable pub load_chunk : Program → Chunk → Tasks → SparseEnd × Program × Tasks
  unfolding chunk_program advanced add_program
  load_chunk p c s =
      if c.chunk_size == 0
      then (chunks_added, p, s)
      else if p.sector_size == 0
      then (chunk_crashed, p, s)
      else if not (c.chunk_size % p.sector_size == 0)
      then (chunk_refused, p, s)
      else if leb (2 ^ 32 - 1) (c.chunk_size / p.sector_size)
      then (chunk_refused, p, s)
      else elim p.start_sector [
        | none ↦ (chunk_crashed, p, s)
        | some start ↦
            if (c.type == chunk_type_raw) || (c.type == chunk_type_fill)
            then elim p.label [
              | none ↦ (chunk_crashed, p, s)
              | some label ↦ (chunks_added, advanced p start c, add_program (chunk_program p c) s)
            ]
            else (chunks_added, advanced p start c, s)
      ]

  -- The loop, for the chunks that are left.
  unfoldable pub load_chunks :
      ℕ → SparseHeader → Program → File → Tasks → SparseEnd × Program × Tasks
  unfolding load_chunk
  load_chunks zero h p f s = (chunks_added, p, s)
  load_chunks (suc left) h p f s =
      let (chunk, f') = sparse_chunk_header_parse h f in
      elim chunk [
        | none ↦ (chunk_refused, p, s)
        | some c ↦
            let (ret, p', s') = load_chunk p c s in
            elim ret [
              | chunks_added ↦ load_chunks left h p' f' s'
              | itself_added ↦ (itself_added, p', s')
              | chunk_refused ↦ (chunk_refused, p', s')
              | chunk_crashed ↦ (chunk_crashed, p', s')
            ]
      ]

  -- A program whose size is the file's is added as it is.
  unfoldable pub program_load_sparse : Program → File → Tasks → SparseEnd × Program × Tasks
  unfolding load_chunks add_program
  program_load_sparse p f s =
      let (header, f') = sparse_header_parse f in
      elim header [
        | none ↦
            if p.sector_size * p.num_sectors == length f.content
            then (
              itself_added,
              record p { sparse = false },
              add_program (record p { sparse = false }) s,
            )
            else (chunk_refused, p, s)
        | some h ↦ load_chunks h.total_chunks h p f' s
      ]

-- `access`.
module _ (accessible : List ℕ → Bool) where
  -- The name in the directory of the include path, if there is such a file.
  unfoldable pub resolved_name : Option (List ℕ) → List ℕ → List ℕ
  unfolding joined_path
  resolved_name none name = name
  resolved_name (some dir) name =
      if accessible (joined_path dir name) then joined_path dir name else name

-- Those, and what a file has when it can be opened.
module _ (strtoul : List ℕ → ℕ) (decimal : ℕ → List ℕ) (accessible : List ℕ → Bool)
    (open_file : List ℕ → Option (List ℕ)) where
  unfoldable pub load_program_tag :
      Bool → Bool → Option (List ℕ) → ProgramTag → Tasks → LoadEnd × Tasks
  unfolding program_of_tag resolved_name after_sparse program_load_sparse
  load_program_tag is_nand allow_missing incdir a s = elim (program_of_tag strtoul is_nand a) [
    | none ↦ (refused, s)
    | some p ↦ elim p.filename [
      | none ↦ (accepted, add_program p s)
      | some name ↦ elim (open_file (resolved_name accessible incdir name)) [
        | none ↦
            if allow_missing
            then (accepted, add_program (record p { filename = none }) s)
            else (refused, s)
        | some content ↦
            let named = record p { filename = some (resolved_name accessible incdir name) } in
            if p.sparse
            then (let (ret, p', s') =
                  program_load_sparse strtoul decimal named
                    (record { content = content; position = 0 }) s in
                after_sparse ret p' s')
            else (accepted, add_program named s)
      ]
    ]
  ]

  unfoldable pub load_node : Bool → Bool → Option (List ℕ) → Node → Tasks → LoadEnd × Tasks
  unfolding load_erase_tag load_program_tag read_op_load_tag patch_load_tag add_patch
  load_node is_nand allow_missing incdir no_element s = (accepted, s)
  load_node is_nand allow_missing incdir other_tag s = (refused, s)
  load_node is_nand allow_missing incdir (erase_tag a) s = load_erase_tag strtoul is_nand a s
  load_node is_nand allow_missing incdir (program_tag a) s =
      load_program_tag is_nand allow_missing incdir a s
  load_node is_nand allow_missing incdir (read_tag a) s = read_op_load_tag strtoul incdir a s
  load_node is_nand allow_missing incdir (patch_tag a) s = elim (patch_load_tag strtoul a) [
    | none ↦ (refused, s)
    | some p ↦ (accepted, add_patch p s)
  ]

  -- The loop over the children of the root, up to the first one that is refused.
  unfoldable pub program_load_nodes :
      Bool → Bool → Option (List ℕ) → List Node → Tasks → LoadEnd × Tasks
  unfolding load_node
  program_load_nodes is_nand allow_missing incdir [] s = (accepted, s)
  program_load_nodes is_nand allow_missing incdir (node ∷ rest) s =
      let (ret, s') = load_node is_nand allow_missing incdir node s in
      elim ret [
        | accepted ↦ program_load_nodes is_nand allow_missing incdir rest s'
        | refused ↦ (refused, s')
        | crashed ↦ (crashed, s')
      ]

  -- A file that cannot be parsed is `none`.
  unfoldable pub program_load :
      Bool → Bool → Option (List ℕ) → Option (List Node) → Tasks → LoadEnd × Tasks
  unfolding program_load_nodes
  program_load is_nand allow_missing incdir none s = (refused, s)
  program_load is_nand allow_missing incdir (some nodes) s =
      program_load_nodes is_nand allow_missing incdir nodes s
