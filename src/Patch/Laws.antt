-- ===== src/Patch/Laws.antt =====
-- patch.c: which tags are refused, and what is applied.
use qfenix.Common.{
  ℕ, ◌+◌, ◌<◌, ◌≡◌, ◌↔◌, refl, arith, true, false, not, Option, none, some, List, [], ◌∷◌,
}
use qfenix.Common.{◌==◌, if◌then◌else◌}
use qfenix.Patch.{
  Attributes, PatchEntry, attr_as_string, attr_as_unsigned, patch_load_tag, is_disk, execute_loop,
  patch_execute,
}

missing : Option (List ℕ) → ℕ
missing none = 1
missing (some v) = 0

-- How many attributes a tag lacks.
pub lacking : Attributes → ℕ
lacking a =
    missing a.sector_size_in_bytes
    + missing a.byte_offset
    + missing a.filename
    + missing a.physical_partition_number
    + missing a.size_in_bytes
    + missing a.start_sector
    + missing a.value
    + missing a.what

errors-string : (o : Option (List ℕ)) (e : ℕ) → (attr_as_string o e).1 ≡ e + missing o
unfolding attr_as_string missing
errors-string none e = refl
errors-string (some []) e = omega arith
errors-string (some (c ∷ rest)) e = omega arith

module _ (strtoul : List ℕ → ℕ) where
  errors-unsigned : (o : Option (List ℕ)) (e : ℕ) → (attr_as_unsigned strtoul o e).1 ≡ e + missing o
  unfolding attr_as_unsigned missing
  errors-unsigned none e = refl
  errors-unsigned (some v) e = omega arith

  refused_count :
      (n : ℕ) (p : PatchEntry) {k : ℕ}
      → (if not (n == 0) then none else some p) ≡ none
      → n ≡ k
      → 0 < k
  refused_count n p h e = ground (arith, h, e)

  accepted_count :
      (n : ℕ) (p : PatchEntry) {k : ℕ}
      → 0 < k
      → n ≡ k
      → (if not (n == 0) then none else some p) ≡ none
  accepted_count n p h e = ground (arith, h, e)

  -- A tag is refused just when it lacks an attribute; an empty one does not count as missing.
  pub patch_load_tag-none : (a : Attributes) → patch_load_tag strtoul a ≡ none ↔ 0 < lacking a
  unfolding patch_load_tag lacking
  patch_load_tag-none a =
      let e1 = (attr_as_unsigned strtoul a.sector_size_in_bytes 0).1 in
      let e2 = (attr_as_unsigned strtoul a.byte_offset e1).1 in
      let e3 = (attr_as_string a.filename e2).1 in
      let e4 = (attr_as_unsigned strtoul a.physical_partition_number e3).1 in
      let e5 = (attr_as_unsigned strtoul a.size_in_bytes e4).1 in
      let e6 = (attr_as_string a.start_sector e5).1 in
      let e7 = (attr_as_string a.value e6).1 in
      let e8 = (attr_as_string a.what e7).1 in
      let counted : e8 ≡ lacking a = omega (
        arith,
        errors-unsigned a.sector_size_in_bytes 0,
        errors-unsigned a.byte_offset e1,
        errors-string a.filename e2,
        errors-unsigned a.physical_partition_number e3,
        errors-unsigned a.size_in_bytes e4,
        errors-string a.start_sector e5,
        errors-string a.value e6,
        errors-string a.what e7,
      ) in
      (λ h. refused_count e8 _ h counted, λ h. accepted_count e8 _ h counted)

-- The patches for the disk.
disk_patches : List PatchEntry → List PatchEntry
disk_patches [] = []
disk_patches (p ∷ rest) = if is_disk p then p ∷ disk_patches rest else disk_patches rest

module _ {S : Type 0} (apply : PatchEntry → S → ℕ × S) where
  -- One call after the other until one fails.
  until_failure : List PatchEntry → S → ℕ × S
  until_failure [] s = (0, s)
  until_failure (p ∷ rest) s =
      if not ((apply p s).0 == 0) then apply p s else until_failure rest (apply p s).1

  execute_loop-eq :
      (patches : List PatchEntry) (s : S)
      → execute_loop apply patches s ≡ until_failure (disk_patches patches) s
  unfolding execute_loop until_failure disk_patches
  execute_loop-eq [] s = refl
  execute_loop-eq (p ∷ rest) s =
      ground (arith, execute_loop-eq rest s, execute_loop-eq rest (apply p s).1)

  -- When patches were loaded, the ones for the disk are applied in their order up to the first that
  -- fails, whose result is returned; else nothing is applied.
  patch_execute_applies :
      (patches : List PatchEntry) (s : S)
      → (patch_execute apply true patches s ≡ until_failure (disk_patches patches) s)
        × (patch_execute apply false patches s ≡ (0, s))
  unfolding patch_execute
  patch_execute_applies patches s = (execute_loop-eq patches s, refl)
