-- ===== src/Gpt/Tests.antt =====
-- Runs of the code of gpt.c, and the properties at concrete inputs.
use qfenix.Common.{
  Bool, ℕ, ◌+◌, ◌<◌, ◌≡◌, ◌≢◌, refl, arith, false, Option, none, some, List, [], ◌∷◌, ◌++◌,
  replicate, length, ◌==◌, ◌&&◌, if◌then◌else◌,
}
use qfenix.Common.Words.{to_le, field_at, of_le}
use qfenix.Gpt.Utf16.{utf16le_to_utf8, is_high, put_codepoint, unit_codepoint, codepoint_bytes}
use qfenix.Gpt.Utf16.Laws.{
  utf16_text, utf8_text, utf8_of, utf16le_to_utf8-utf16_text, utf16le_to_utf8_bounds,
}
use qfenix.Gpt.Table.{
  GptPartition, loaded, stuck, efi_part, same_bytes, gpt_header, gpt_load_table_from_partition,
  gpt_load_tables, load_partitions, round_buffer, read_entries,
}
use qfenix.Gpt.Table.Entries.{
  entries_in_order, gpt_load_table_from_partition-entries_in_order, gpt_load_tables_ends,
}
use qfenix.Gpt.Find.{Place, result, gpt_find_by_name}
use qfenix.Gpt.Find.Laws.{Answers, gpt_find_by_name-Answers}

-- "aé€" and U+1F600.
abbrev some_text : List ℕ
some_text = 0x61 ∷ 0xe9 ∷ 0x20ac ∷ 0x1f600 ∷ []

utf16le_to_utf8-utf16_text_example :
    utf16le_to_utf8 (utf16_text some_text ++ 0 ∷ 7 ∷ []) 144 ≡ some (utf8_text some_text)
utf16le_to_utf8-utf16_text_example =
    unfold utf8_text utf8_of in
    utf16le_to_utf8-utf16_text some_text (7 ∷ []) 144 (omega arith) (omega arith)

utf16le_to_utf8_bounds_example :
    ((out : List ℕ) → utf16le_to_utf8 (0x61 ∷ 0x62 ∷ []) 2 ≡ some out → length out < 2)
    × ((init : List ℕ) (w : ℕ)
        → 0x61 ∷ 0x62 ∷ [] ≡ init ++ w ∷ []
        → is_high w ≡ false
        → (out : List ℕ) × (utf16le_to_utf8 (0x61 ∷ 0x62 ∷ []) 2 ≡ some out))
utf16le_to_utf8_bounds_example = utf16le_to_utf8_bounds (0x61 ∷ 0x62 ∷ []) 2 (omega arith)

-- A high surrogate in the last place makes the loop read on.
trailing_high : utf16le_to_utf8 (0x61 ∷ 0xd800 ∷ []) 144 ≡ none
unfolding utf16le_to_utf8 put_codepoint unit_codepoint codepoint_bytes
trailing_high = refl

-- A device with one physical partition, sectors of 256 bytes and three entries, the second unused.
abbrev some_entry : ℕ → ℕ → List ℕ
some_entry name lba =
    1 ∷ replicate 31 0 ++ to_le 8 lba ++ to_le 8 (lba + 9) ++ to_le 8 0 ++ name ∷ 0 ∷ replicate 70 0

abbrev some_header : List ℕ
some_header = efi_part ++ replicate 64 0 ++ to_le 8 2 ++ to_le 4 3 ++ to_le 4 128

abbrev some_device : ℕ → ℕ → Option (List ℕ)
some_device phys lba =
    if (phys == 0) && (lba == 1)
    then some some_header
    else if (phys == 0) && (lba == 2)
    then some (some_entry 0x61 40 ++ replicate 128 0)
    else if (phys == 0) && (lba == 3)
    then some (some_entry 0x62 50 ++ replicate 128 0)
    else none

abbrev part_a : GptPartition
part_a = record { name = 0x61 ∷ []; partition = 0; start_sector = 40; num_sectors = 10; attrs = 0 }

abbrev part_b : GptPartition
part_b = record { name = 0x62 ∷ []; partition = 0; start_sector = 50; num_sectors = 10; attrs = 0 }

gpt_load_table_from_partition-entries_in_order_example :
    gpt_load_table_from_partition some_device 256 0 []
    ≡ entries_in_order some_device 0 2 128 2 3 0 []
unfolding to_le gpt_header same_bytes field_at of_le
gpt_load_table_from_partition-entries_in_order_example =
    gpt_load_table_from_partition-entries_in_order some_device 0 2 128 some_header [] (omega arith)
      (omega arith) (omega arith) refl refl refl (omega arith)

tables_loaded : gpt_load_tables some_device 256 2 [] ≡ (loaded, part_a ∷ part_b ∷ [])
unfolding gpt_load_tables to_le load_partitions gpt_load_table_from_partition round_buffer
    read_entries put_codepoint unit_codepoint codepoint_bytes
tables_loaded = refl

gpt_load_tables_ends_example : (gpt_load_tables some_device 256 2 []).0 ≢ stuck
gpt_load_tables_ends_example = gpt_load_tables_ends some_device 256 1 2 [] refl (omega arith)

abbrev anywhere : Place
anywhere = record { phys_partition = none; start_sector = 0; num_sectors = 0 }

gpt_find_by_name-Answers_example :
    (found : Bool) × ((at : Place) × (Answers (0x62 ∷ []) anywhere (part_a ∷ part_b ∷ []) found at
        × (gpt_find_by_name some_device 256 false 2 (0x62 ∷ []) anywhere []
            ≡ (result found at, part_a ∷ part_b ∷ []))))
gpt_find_by_name-Answers_example =
    gpt_find_by_name-Answers some_device 256 2 (0x62 ∷ []) anywhere [] (part_a ∷ part_b ∷ [])
      tables_loaded
