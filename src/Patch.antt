-- ===== src/Patch.antt =====
-- patch.c: the patches of the XML files, and their execution; with the readers of attributes and
-- normalize_path of util.c. The XML tree is libxml2's: a node is what the code asks of it.
pub mod Laws
mod Tests
use mathlib.Core.Option
use qfenix.Common.{
  ℕ, zero, suc, ◌+◌, ◌%◌, ◌^◌, Bool, true, false, not, Option, none, some, List, [], ◌∷◌, ◌++◌, map,
}
use qfenix.Common.{◌==◌, ◌&&◌, if◌then◌else◌}

-- What `xmlGetProp` returns for each attribute of a patch.
pub record Attributes : Type 0 where
  pub sector_size_in_bytes : Option (List ℕ)
  pub byte_offset : Option (List ℕ)
  pub filename : Option (List ℕ)
  pub physical_partition_number : Option (List ℕ)
  pub size_in_bytes : Option (List ℕ)
  pub start_sector : Option (List ℕ)
  pub value : Option (List ℕ)
  pub what : Option (List ℕ)

pub record XmlNode : Type 0 where
  pub is_element : Bool
  pub is_patch : Bool
  pub attributes : Attributes

pub record PatchEntry : Type 0 where
  pub sector_size : ℕ
  pub byte_offset : ℕ
  pub filename : Option (List ℕ)
  pub partition : ℕ
  pub size_in_bytes : ℕ
  pub start_sector : Option (List ℕ)
  pub value : Option (List ℕ)
  pub what : Option (List ℕ)

unfoldable pub normalize : List ℕ → List ℕ
normalize [] = []
normalize (c ∷ rest) = (if c == 0x5c then 0x2f else c) ∷ normalize rest

unfoldable pub normalize_path : Option (List ℕ) → Option (List ℕ)
normalize_path none = none
normalize_path (some path) = some (normalize path)

-- `"DISK"`.
abbrev pub disk : List ℕ
disk = 0x44 ∷ 0x49 ∷ 0x53 ∷ 0x4b ∷ []

-- `!strcmp`.
unfoldable pub same_string : List ℕ → List ℕ → Bool
same_string [] [] = true
same_string [] (d ∷ ys) = false
same_string (c ∷ xs) [] = false
same_string (c ∷ xs) (d ∷ ys) = c == d && same_string xs ys

unfoldable pub is_disk : PatchEntry → Bool
is_disk p = elim p.filename [ none ↦ false | some name ↦ same_string name disk ]

-- The value of an attribute, and the number of errors so far. An empty string is read as NULL.
unfoldable pub attr_as_string : Option (List ℕ) → ℕ → Option (List ℕ) × ℕ
attr_as_string none errors = (none, errors + 1)
attr_as_string (some []) errors = (none, errors)
attr_as_string (some (c ∷ rest)) errors = (some (c ∷ rest), errors)

-- `strtoul` with base 0 is the C library's.
module _ (strtoul : List ℕ → ℕ) where
  unfoldable pub attr_as_unsigned : Option (List ℕ) → ℕ → ℕ × ℕ
  attr_as_unsigned none errors = (0, errors + 1)
  attr_as_unsigned (some value) errors = (strtoul value % 2 ^ 32, errors)

  -- The result is `none` for -EINVAL.
  unfoldable pub patch_load_tag : Attributes → Option PatchEntry
  patch_load_tag a =
      let (sector_size, e1) = attr_as_unsigned a.sector_size_in_bytes 0 in
      let (byte_offset, e2) = attr_as_unsigned a.byte_offset e1 in
      let (filename, e3) = attr_as_string a.filename e2 in
      let (partition, e4) = attr_as_unsigned a.physical_partition_number e3 in
      let (size_in_bytes, e5) = attr_as_unsigned a.size_in_bytes e4 in
      let (start_sector, e6) = attr_as_string a.start_sector e5 in
      let (value, e7) = attr_as_string a.value e6 in
      let (what, e8) = attr_as_string a.what e7 in
      if not (e8 == 0)
      then none
      else some (record {
        sector_size = sector_size;
        byte_offset = byte_offset;
        filename = normalize_path filename;
        partition = partition;
        size_in_bytes = size_in_bytes;
        start_sector = start_sector;
        value = value;
        what = what;
      })

-- `apply` changes the surroundings; a result other than zero is a failure.
module _ {S : Type 0} (apply : PatchEntry → S → ℕ × S) where
  unfoldable pub execute_loop : List PatchEntry → S → ℕ × S
  execute_loop [] s = (0, s)
  execute_loop (p ∷ rest) s = elim (is_disk p) [
    | false ↦ execute_loop rest s
    | true ↦ elim ((apply p s).0 == 0) [
      | true ↦ execute_loop rest (apply p s).1
      | false ↦ apply p s
    ]
  ]

  unfoldable pub patch_execute : Bool → List PatchEntry → S → ℕ × S
  patch_execute patches_loaded patches s =
      if not patches_loaded then (0, s) else execute_loop patches s
