-- ===== src/Patch/Tests.antt =====
-- Tests and instances for patch.c.
use qfenix.Common.{refl, ℕ, ◌+◌, ◌≡◌, true, none, some, [], ◌∷◌}
use qfenix.Patch.{execute_loop, is_disk, Attributes, XmlNode, PatchEntry, patch_execute, disk}

-- A tag without a value.
abbrev tag : Attributes
tag = record {
  sector_size_in_bytes = some (0x31 ∷ []);
  byte_offset = some (0x31 ∷ []);
  filename = some disk;
  physical_partition_number = some (0x31 ∷ []);
  size_in_bytes = some (0x31 ∷ []);
  start_sector = some (0x31 ∷ []);
  value = none;
  what = some [];
}

abbrev node : XmlNode
node = record {
  is_element = true;
  is_patch = true;
  attributes = record tag { value = some (0x30 ∷ []) };
}

abbrev entry : PatchEntry
entry = record {
  sector_size = 1;
  byte_offset = 2;
  filename = some disk;
  partition = 0;
  size_in_bytes = 4;
  start_sector = none;
  value = none;
  what = none;
}

-- Counts the calls and fails in the second one.
abbrev counting : PatchEntry → ℕ → ℕ × ℕ
counting p n = (n, n + 1)

-- The second of three patches fails, and the third is not applied.
failed_test : patch_execute counting true (entry ∷ entry ∷ entry ∷ []) 0 ≡ (1, 2)
unfolding patch_execute execute_loop is_disk qfenix.Patch.same_string
failed_test = refl
