-- ===== src/Gpt/Find.antt =====
-- gpt.c: gpt_find_by_name and gpt_get_active_slot.
pub mod Laws
use qfenix.Common.{
  ℕ, zero, suc, ◌*◌, ◌/◌, ◌%◌, ◌^◌, Bool, true, false, not, Option, none, some, List, [], ◌∷◌, ◌==◌,
  ◌&&◌, if◌then◌else◌, bit_and,
}
use qfenix.Gpt.Table.{
  GptPartition, LoadStatus, loaded, failed, past_end, undefined, stuck, same_bytes, gpt_load_tables,
}

-- The places that the caller passes; `*phys_partition` is `none` where it is negative.
pub record Place : Type 0 where
  pub phys_partition : Option ℕ
  pub start_sector : ℕ
  pub num_sectors : ℕ

unfoldable pub place_of : GptPartition → Place
place_of p = record {
  phys_partition = some p.partition;
  start_sector = p.start_sector;
  num_sectors = p.num_sectors;
}

-- Neither `continue` is taken.
unfoldable pub is_candidate : Option ℕ → List ℕ → GptPartition → Bool
unfolding same_bytes
is_candidate none name p = same_bytes p.name name
is_candidate (some phys) name p = (p.partition == phys) && same_bytes p.name name

-- The loop: whether it leaves no duplicate and finds one, and the places.
unfoldable pub find_loop : List GptPartition → List ℕ → Place → Bool → Bool × Place
unfolding is_candidate place_of
find_loop [] name place found = (found, place)
find_loop (p ∷ rest) name place found = elim (is_candidate place.phys_partition name p) [
  | false ↦ find_loop rest name place found
  | true ↦ elim found [ true ↦ (false, place) | false ↦ find_loop rest name (place_of p) true ]
]

-- What `gpt_find_by_name` returns (0 for true, -1 for false) and leaves behind.
pub data Search : Type 0 where
  result : Bool → Place → Search
  undefined_search stuck_search : Search

unfoldable pub has_attr_active : GptPartition → Bool
has_attr_active p = not (bit_and (p.attrs / 2 ^ (6 * 8) % 2 ^ 8) (2 ^ 2) == 0)

-- `"boot_a"`, `"boot_b"`.
abbrev pub boot_a : List ℕ
boot_a = 0x62 ∷ 0x6f ∷ 0x6f ∷ 0x74 ∷ 0x5f ∷ 0x61 ∷ []

abbrev pub boot_b : List ℕ
boot_b = 0x62 ∷ 0x6f ∷ 0x6f ∷ 0x74 ∷ 0x5f ∷ 0x62 ∷ []

-- A loop that looks for a partition of that name with the flag.
unfoldable pub has_active : List ℕ → List GptPartition → Bool
unfolding same_bytes has_attr_active
has_active name [] = false
has_active name (p ∷ rest) = elim (same_bytes p.name name && has_attr_active p) [
  | true ↦ true
  | false ↦ has_active name rest
]

-- The slots `'a'` and `'b'`; `no_slot` for -1.
pub data ActiveSlot : Type 0 where
  slot_a slot_b no_slot undefined_slot stuck_slot : ActiveSlot

unfoldable pub slot_of : List GptPartition → ActiveSlot
unfolding has_active
slot_of parts =
    if has_active boot_a parts then slot_a else if has_active boot_b parts then slot_b else no_slot

module _ (read_sector : ℕ → ℕ → Option (List ℕ)) (sector_size : ℕ) where
  unfoldable pub gpt_find_by_name :
      Bool → ℕ → List ℕ → Place → List GptPartition → Search × List GptPartition
  unfolding find_loop gpt_load_tables
  gpt_find_by_name is_sim fuel name place parts = elim is_sim [
    | true ↦ (result true place, parts)
    | false ↦
        let (ret, table) = gpt_load_tables read_sector sector_size fuel parts in
        elim ret [
          | loaded ↦
              let (found, out) = find_loop table name place false in (result found out, table)
          | failed ↦ (result false place, table)
          | past_end ↦ (result false place, table)
          | undefined ↦ (undefined_search, table)
          | stuck ↦ (stuck_search, table)
        ]
  ]

  unfoldable pub gpt_get_active_slot : ℕ → List GptPartition → ActiveSlot × List GptPartition
  unfolding slot_of gpt_load_tables
  gpt_get_active_slot fuel parts =
      let (ret, table) = gpt_load_tables read_sector sector_size fuel parts in
      elim ret [
        | loaded ↦ (slot_of table, table)
        | failed ↦ (no_slot, table)
        | past_end ↦ (no_slot, table)
        | undefined ↦ (undefined_slot, table)
        | stuck ↦ (stuck_slot, table)
      ]
