-- ===== src/Gpt/Table.antt =====
-- gpt.c: the entries of the GPT of a physical partition, and of all of them.
pub mod Entries
use qfenix.Common.{
  ℕ, zero, suc, ◌+◌, ◌-◌, ◌*◌, ◌/◌, ◌%◌, ◌^◌, Bool, true, false, not, Option, none, some, List, [],
  ◌∷◌, ◌++◌, take, drop, replicate, ◌==◌, ltb, ◌&&◌, ◌||◌, if◌then◌else◌, bit_and,
}
use qfenix.Common.Words.{of_le, field_at}
use qfenix.Gpt.Utf16.{utf16le_to_utf8}

-- `gpt_partition`, without the link to the next one: the list is a List.
pub record GptPartition : Type 0 where
  pub name : List ℕ
  pub partition : ℕ
  pub start_sector : ℕ
  pub num_sectors : ℕ
  pub attrs : ℕ

-- What of `gpt_header` is looked at.
pub record GptHeader : Type 0 where
  pub signature : List ℕ
  pub part_entry_lba : ℕ
  pub num_part_entries : ℕ
  pub part_entry_size : ℕ

unfoldable pub gpt_header : List ℕ → GptHeader
unfolding field_at of_le
gpt_header bytes = record {
  signature = take 8 bytes;
  part_entry_lba = field_at 8 bytes 72;
  num_part_entries = field_at 4 bytes 80;
  part_entry_size = field_at 4 bytes 84;
}

-- `!memcmp` with "EFI PART".
abbrev pub efi_part : List ℕ
efi_part = 0x45 ∷ 0x46 ∷ 0x49 ∷ 0x20 ∷ 0x50 ∷ 0x41 ∷ 0x52 ∷ 0x54 ∷ []

unfoldable pub same_bytes : List ℕ → List ℕ → Bool
same_bytes [] [] = true
same_bytes [] (d ∷ ys) = false
same_bytes (c ∷ xs) [] = false
same_bytes (c ∷ xs) (d ∷ ys) = (c == d) && same_bytes xs ys

unfoldable pub utf16_units : ℕ → List ℕ → List ℕ
utf16_units zero bytes = []
utf16_units (suc n) [] = []
utf16_units (suc n) (a ∷ []) = []
utf16_units (suc n) (a ∷ b ∷ rest) = (a + 256 * b) ∷ utf16_units n rest

-- What is found at a place of the buffer of 4096 bytes; `outside` for an access beyond an array.
pub data Slot : Type 0 where
  unused outside : Slot
  used : GptPartition → Slot

unfoldable pub entry_partition : ℕ → List ℕ → Slot
unfolding field_at of_le utf16_units utf16le_to_utf8
entry_partition phys_partition entry = elim (utf16le_to_utf8 (utf16_units 36 (drop 56 entry)) 144) [
  | none ↦ outside
  | some name ↦ used (record {
    name = name;
    partition = phys_partition;
    start_sector = field_at 8 entry 32 % 2 ^ 32;
    num_sectors = (field_at 8 entry 40 + 2 ^ 64 - field_at 8 entry 32 + 1) % 2 ^ 32;
    attrs = field_at 8 entry 48;
  })
]

unfoldable pub read_slot : ℕ → ℕ → List ℕ → Slot
unfolding same_bytes entry_partition
read_slot phys_partition offset buf =
    if ltb 4096 (offset + 16)
    then outside
    else if same_bytes (take 16 (drop offset buf)) (replicate 16 0)
    then unused
    else if ltb 4096 (offset + 128)
    then outside
    else entry_partition phys_partition (drop offset buf)

-- How the loading of a table may end: with 0, with -1, with -1 and `*eof`, with an access outside
-- an array or a division by zero, or, for all tables, out of fuel.
pub data LoadStatus : Type 0 where
  loaded failed past_end undefined stuck : LoadStatus

-- What a read of one sector (of a physical partition and a number) delivers, `none` for a failure;
-- and the size of sectors of the device.
module _ (read_sector : ℕ → ℕ → Option (List ℕ)) (sector_size : ℕ) where
  -- `buf`, cleared before the read.
  unfoldable pub read_entries : ℕ → ℕ → Option (List ℕ)
  read_entries phys_partition lba = elim (read_sector phys_partition lba) [
    | none ↦ none
    | some bytes ↦ some (take 4096 (take sector_size bytes ++ replicate 4096 0))
  ]

  -- `buf` in round `i`.
  unfoldable pub round_buffer : ℕ → GptHeader → ℕ → List ℕ → Option (List ℕ)
  round_buffer phys_partition gpt i buf =
      if i * gpt.part_entry_size % 2 ^ 32 % sector_size == 0
      then read_entries phys_partition
          ((gpt.part_entry_lba + i * gpt.part_entry_size % 2 ^ 32 / sector_size) % 2 ^ 64)
      else some buf

  unfoldable pub load_entries :
      ℕ → GptHeader → ℕ → ℕ → List ℕ → List GptPartition → LoadStatus × List GptPartition
  unfolding read_slot
  load_entries phys_partition gpt zero i buf parts = (loaded, parts)
  load_entries phys_partition gpt (suc left) i buf parts =
      elim (round_buffer phys_partition gpt i buf) [
        | none ↦ (failed, parts)
        | some now ↦
            elim (read_slot phys_partition (i * gpt.part_entry_size % 2 ^ 32 % sector_size) now) [
              | outside ↦ (undefined, parts)
              | unused ↦ load_entries phys_partition gpt left (suc i) now parts
              | used p ↦ load_entries phys_partition gpt left (suc i) now (parts ++ p ∷ [])
            ]
      ]

  -- From the checks of the header on; the list is `gpt_partitions`, before and after.
  unfoldable pub load_from_header :
      ℕ → GptHeader → List GptPartition → LoadStatus × List GptPartition
  unfolding same_bytes load_entries
  load_from_header phys_partition gpt parts =
      if not (same_bytes gpt.signature efi_part)
      then (loaded, parts)
      else if ltb sector_size gpt.part_entry_size || ltb 1024 gpt.num_part_entries
      then (failed, parts)
      else if (sector_size == 0) && not (gpt.num_part_entries == 0)
      then (undefined, parts)
      else load_entries phys_partition gpt gpt.num_part_entries 0 (replicate 4096 0) parts

  unfoldable pub gpt_load_table_from_partition :
      ℕ → List GptPartition → LoadStatus × List GptPartition
  unfolding gpt_header load_from_header
  gpt_load_table_from_partition phys_partition parts = elim (read_sector phys_partition 1) [
    | none ↦ (past_end, parts)
    | some bytes ↦
        load_from_header phys_partition (gpt_header (take 512 (take sector_size bytes))) parts
  ]

  unfoldable pub load_partitions : ℕ → ℕ → List GptPartition → LoadStatus × List GptPartition
  load_partitions zero i parts = (stuck, parts)
  load_partitions (suc fuel) i parts =
      let (ret, more) = gpt_load_table_from_partition i parts in
      elim ret [
        | loaded ↦ load_partitions fuel (suc i) more
        | past_end ↦ (loaded, more)
        | failed ↦ (failed, more)
        | undefined ↦ (undefined, more)
        | stuck ↦ (stuck, more)
      ]

  -- Tables that are there are not loaded again.
  unfoldable pub gpt_load_tables : ℕ → List GptPartition → LoadStatus × List GptPartition
  gpt_load_tables fuel [] = load_partitions fuel 0 []
  gpt_load_tables fuel (p ∷ rest) = (loaded, p ∷ rest)
