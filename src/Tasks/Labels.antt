-- ===== src/Tasks/Labels.antt =====
-- program.c: programs by their labels, the partition to boot from, and the MD5 sums.
pub mod Bootable
use qfenix.Common.{
  ℕ, ◌+◌, ◌-◌, ◌^◌, Bool, true, false, not, Option, none, some, List, [], ◌∷◌, ◌==◌, ◌&&◌, ◌||◌,
  if◌then◌else◌,
}
use qfenix.Patch.{same_string}
use qfenix.Tasks.{Program, Tasks, endless}

-- The result of a walk over the programs; `never` where it does not end.
pub data Sought : Type 0 where
  sought : Program → Sought
  absent never : Sought

unfoldable pub has_label : List ℕ → Program → Bool
unfolding same_string
has_label name p = elim p.label [ none ↦ false | some label ↦ same_string label name ]

unfoldable pub find_label : List ℕ → Bool → List Program → Sought
unfolding has_label
find_label name unending [] = if unending then never else absent
find_label name unending (p ∷ rest) = elim (has_label name p) [
  | true ↦ sought p
  | false ↦ find_label name unending rest
]

unfoldable pub program_find_partition : List ℕ → Tasks → Sought
unfolding find_label endless
program_find_partition name s = find_label name (endless s) s.programs

-- `"xbl"`, `"xbl_a"`, `"sbl1"`, `"secdata"`, and -ENOENT.
abbrev pub xbl : List ℕ
xbl = 0x78 ∷ 0x62 ∷ 0x6c ∷ []

abbrev pub xbl_a : List ℕ
xbl_a = 0x78 ∷ 0x62 ∷ 0x6c ∷ 0x5f ∷ 0x61 ∷ []

abbrev pub sbl1 : List ℕ
sbl1 = 0x73 ∷ 0x62 ∷ 0x6c ∷ 0x31 ∷ []

abbrev pub secdata : List ℕ
secdata = 0x73 ∷ 0x65 ∷ 0x63 ∷ 0x64 ∷ 0x61 ∷ 0x74 ∷ 0x61 ∷ []

abbrev pub minus_enoent : ℕ
minus_enoent = 2 ^ 32 - 2

-- The partition so far and whether several were found, after the search for one more label;
-- `none` where the search does not end.
unfoldable pub with_label : Sought → ℕ × Bool → Option (ℕ × Bool)
with_label never (part, multiple) = none
with_label absent (part, multiple) = some (part, multiple)
with_label (sought p) (part, multiple) =
    if not (part == minus_enoent) then some (part, true) else some (p.partition, multiple)

unfoldable pub program_find_bootable_partition : Tasks → Option (ℕ × Bool)
unfolding with_label program_find_partition
program_find_bootable_partition s =
    elim (with_label (program_find_partition xbl s) (minus_enoent, false)) [
      | none ↦ none
      | some r ↦ elim (with_label (program_find_partition xbl_a s) r) [
        | none ↦ none
        | some r' ↦ with_label (program_find_partition sbl1 s) r'
      ]
    ]

unfoldable pub program_is_sec_partition_flashed : Tasks → Option Bool
unfolding program_find_partition
program_is_sec_partition_flashed s = elim (program_find_partition secdata s) [
  | never ↦ none
  | absent ↦ some false
  | sought p ↦ elim p.filename [ none ↦ some false | some name ↦ some true ]
]

-- `md5_file` of a name, and `md5_compare` with the text of a sum.
module _ (md5_file : List ℕ → Option (List ℕ)) (md5_matches : List ℕ → List ℕ → Bool) where
  -- The counts of verified and failed files after a program.
  unfoldable pub verify_one : Program → ℕ × ℕ → ℕ × ℕ
  verify_one p (verified, failed) = elim p.is_erase [
    | true ↦ (verified, failed)
    | false ↦ elim p.filename [
      | none ↦ (verified, failed)
      | some name ↦ elim p.md5 [
        | none ↦ (verified, failed)
        | some sum ↦ elim (md5_file name) [
          | none ↦ (verified, failed + 1)
          | some digest ↦ elim (md5_matches sum digest) [
            | true ↦ (verified + 1, failed)
            | false ↦ (verified, failed + 1)
          ]
        ]
      ]
    ]
  ]

  unfoldable pub verify_loop : List Program → ℕ × ℕ → ℕ × ℕ
  unfolding verify_one
  verify_loop [] counts = counts
  verify_loop (p ∷ rest) counts = verify_loop rest (verify_one p counts)

  -- True for 0; `none` where the loop does not end.
  unfoldable pub program_verify_md5 : Bool → Tasks → Option Bool
  unfolding verify_loop endless
  program_verify_md5 skip s =
      if skip
      then some true
      else if endless s
      then none
      else some ((verify_loop s.programs (0, 0)).1 == 0)
