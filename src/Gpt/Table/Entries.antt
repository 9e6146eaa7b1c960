-- ===== src/Gpt/Table/Entries.antt =====
-- gpt.c: entry `i` is the `i`-th one in the sectors of the array, and the loads end.
use qfenix.Common.{
  ℕ, zero, suc, ◌+◌, ◌*◌, ◌/◌, ◌%◌, ◌^◌, ◌≤◌, ◌<◌, ◌≡◌, ◌≢◌, ◌⊎◌, inl, inr, refl, ap, ◌∙◌, arith,
  Bool, true, false, not, Option, none, some, List, [], ◌∷◌, ◌++◌,
}
use qfenix.Common.{take, replicate, ◌==◌, ltb, ◌||◌, ◌&&◌, if◌then◌else◌, Option-cases}
use native.Mathlib.Decide.{dec_lt}
use native.Mathlib.Nat.{
  mul-div-mul_right, div-add-mod', mod-lt, mod-eq_of_lt, add-mul-mod_self_right, div-eq_of_lt,
  add-mul-div_right, mul-lt-mul_of_pos_right, mul-le-mul_right,
}
use qfenix.Gpt.Table.{
  GptPartition, GptHeader, gpt_header, efi_part, same_bytes, Slot, unused, outside, used, read_slot,
  LoadStatus, loaded, failed, past_end, undefined, stuck, read_entries, round_buffer, load_entries,
  load_from_header, gpt_load_table_from_partition, load_partitions, gpt_load_tables,
}

-- Entry `i` lies in sector `i / m` at place `i % m`, where a sector has `m` entries.
place_mod : (i es m : ℕ) → 0 < es → 0 < m → i * es % (m * es) ≡ i % m * es
place_mod i es m h k =
    let r = i % m * es in
    let split : i * es ≡ r + i / m * (m * es) =
      omega (arith, ap (λ (t : ℕ). t * es) (div-add-mod' i m)) in
    let small : r < m * es = mul-lt-mul_of_pos_right (mod-lt i {m = m} k) h in
    ap (λ (t : ℕ). t % (m * es)) split
    ∙ add-mul-mod_self_right r (i / m) (m * es)
    ∙ mod-eq_of_lt small

-- The next entry is in the same sector, unless it is the first of its sector.
same_sector : (i m : ℕ) → 0 < m → (suc i % m ≡ 0) ⊎ (suc i / m ≡ i / m)
same_sector i m k = elim (dec_lt (suc (i % m)) m) [
  | yes p ↦
      let e : suc i ≡ suc (i % m) + i / m * m = omega (arith, div-add-mod' i m) in
      inr (
        ap (λ (t : ℕ). t / m) e
        ∙ add-mul-div_right (suc (i % m)) (i / m) k
        ∙ omega (arith, div-eq_of_lt p))
  | no p ↦
      let e : suc i ≡ 0 + suc (i / m) * m = omega (arith, div-add-mod' i m, mod-lt i {m = m} k) in
      inl (ap (λ (t : ℕ). t % m) e ∙ add-mul-mod_self_right 0 (suc (i / m)) m ∙ mod-eq_of_lt k)
]

first_or_held :
    (k es : ℕ) (e : Option (List ℕ)) (buf : List ℕ)
    → (k ≡ 0) ⊎ (e ≡ some buf)
    → (if k * es == 0 then e else some buf) ≡ e
first_or_held k es e buf (inl zeroth) =
    let none_before : k * es ≡ 0 = omega (arith, ap (λ (t : ℕ). t * es) zeroth) in
    ground (arith, none_before)
first_or_held k es e buf (inr held) = ground (arith, held)

-- Loads that go on in equal ways from a slot are equal.
slot_cong :
    (s : Slot) (bad : LoadStatus × List GptPartition)
    (f g : List GptPartition → LoadStatus × List GptPartition) (parts : List GptPartition)
    → ((more : List GptPartition) → f more ≡ g more)
    → elim s [ outside ↦ bad | unused ↦ f parts | used p ↦ f (parts ++ p ∷ []) ]
      ≡ elim s [ outside ↦ bad | unused ↦ g parts | used p ↦ g (parts ++ p ∷ []) ]
slot_cong unused bad f g parts h = h parts
slot_cong outside bad f g parts h = refl
slot_cong (used p) bad f g parts h = h (parts ++ p ∷ [])

module _ (read_sector : ℕ → ℕ → Option (List ℕ)) (phys m es lba : ℕ) where
  -- The entries one by one, each from a read of its own of the sector that it lies in.
  unfoldable pub entries_in_order : ℕ → ℕ → List GptPartition → LoadStatus × List GptPartition
  entries_in_order zero i parts = (loaded, parts)
  entries_in_order (suc left) i parts =
      elim (read_entries read_sector (m * es) phys ((lba + i / m) % 2 ^ 64)) [
        | none ↦ (failed, parts)
        | some sector ↦ elim (read_slot phys (i % m * es) sector) [
          | outside ↦ (undefined, parts)
          | unused ↦ entries_in_order left (suc i) parts
          | used p ↦ entries_in_order left (suc i) (parts ++ p ∷ [])
        ]
      ]

  -- In the middle of a sector, the buffer holds that sector.
  abbrev Holds : ℕ → List ℕ → Type 0
  Holds i buf =
      (i % m ≡ 0) ⊎ (read_entries read_sector (m * es) phys ((lba + i / m) % 2 ^ 64) ≡ some buf)

  next_sector :
      (i : ℕ) (sector : List ℕ)
      → 0 < m
      → read_entries read_sector (m * es) phys ((lba + i / m) % 2 ^ 64) ≡ some sector
      → Holds (suc i) sector
  next_sector i sector h e = elim (same_sector i m h) [
    | inl first ↦ inl first
    | inr same ↦ inr (rw same e)
  ]

  module _ (gpt : GptHeader) (size : gpt.part_entry_size ≡ es) (at : gpt.part_entry_lba ≡ lba)
      (pos : 0 < es) (some_entry : 0 < m) (bound : es ≤ 2 ^ 20) where
    offset_of : (i : ℕ) → i ≤ 1024 → i * gpt.part_entry_size % 2 ^ 32 ≡ i * es
    offset_of i h =
        ap (λ (t : ℕ). i * t % 2 ^ 32) size
        ∙ mod-eq_of_lt (omega (arith, mul-le-mul_right {m = i} {n = 1024} es h, bound))

    round_buffer-Holds :
        (i : ℕ) (buf : List ℕ)
        → i ≤ 1024
        → Holds i buf
        → round_buffer read_sector (m * es) phys gpt i buf
          ≡ read_entries read_sector (m * es) phys ((lba + i / m) % 2 ^ 64)
    unfolding round_buffer
    round_buffer-Holds i buf h held =
        rw (offset_of i h, at, place_mod i es m pos some_entry, mul-div-mul_right i m pos)
          (first_or_held (i % m) es _ buf held)

    load_entries-in_order :
        (left i : ℕ) (buf : List ℕ) (parts : List GptPartition)
        → left + i ≤ 1024
        → Holds i buf
        → load_entries read_sector (m * es) phys gpt left i buf parts
          ≡ entries_in_order left i parts
    unfolding load_entries entries_in_order
    load_entries-in_order zero i buf parts h held = refl
    load_entries-in_order (suc left) i buf parts h held =
        let e = round_buffer-Holds i buf (omega (arith, h)) held in
        let place =
          ap (λ (t : ℕ). t % (m * es)) (offset_of i (omega (arith, h)))
          ∙ place_mod i es m pos some_entry in
        elim (Option-cases (read_entries read_sector (m * es) phys ((lba + i / m) % 2 ^ 64))) [
          | inl bad ↦ ground (arith, e, bad)
          | inr (sector, good) ↦
              rw (e, good, place, load_entries, entries_in_order)
                (slot_cong (read_slot phys (i % m * es) sector) (undefined, parts)
                  (λ more. load_entries read_sector (m * es) phys gpt left (suc i) sector more)
                  (entries_in_order left (suc i)) parts
                  λ more.
                    load_entries-in_order left (suc i) sector more (omega (arith, h))
                      (next_sector i sector some_entry good))
        ]

load_from_header-in_order :
    (read_sector : ℕ → ℕ → Option (List ℕ)) (phys m es : ℕ) (gpt : GptHeader)
    (parts : List GptPartition)
    → 0 < m
    → 0 < es
    → m * es ≤ 2 ^ 20
    → same_bytes gpt.signature efi_part ≡ true
    → gpt.part_entry_size ≡ es
    → gpt.num_part_entries ≤ 1024
    → load_from_header read_sector (m * es) phys gpt parts
      ≡ entries_in_order read_sector phys m es gpt.part_entry_lba gpt.num_part_entries 0 parts
unfolding load_from_header
load_from_header-in_order read_sector phys m es gpt parts some_entry pos large good size count =
    let fits : es ≤ m * es = omega (arith, mul-le-mul_right {m = 1} {n = m} es some_entry) in
    ground (
      arith,
      good,
      size,
      count,
      fits,
      pos,
      load_entries-in_order read_sector phys m es gpt.part_entry_lba gpt size refl pos some_entry
          (omega (arith, fits, large)) gpt.num_part_entries 0 (replicate 4096 0) parts
          (omega (arith, count)) (inl (mod-eq_of_lt some_entry)),
    )

-- Where the header in sector 1 is right, has at most 1024 entries, and its entries fill each
-- sector of at most 2 ^ 20 bytes without a gap, the table is what reads of a sector for each entry
-- would give, entry `i` from the `i`-th place of the array, although each sector is read once.
pub gpt_load_table_from_partition-entries_in_order :
    (read_sector : ℕ → ℕ → Option (List ℕ)) (phys m es : ℕ) (bytes : List ℕ)
    (parts : List GptPartition)
    → 0 < m
    → 0 < es
    → m * es ≤ 2 ^ 20
    → read_sector phys 1 ≡ some bytes
    → same_bytes (gpt_header (take 512 (take (m * es) bytes))).signature efi_part ≡ true
    → (gpt_header (take 512 (take (m * es) bytes))).part_entry_size ≡ es
    → (gpt_header (take 512 (take (m * es) bytes))).num_part_entries ≤ 1024
    → gpt_load_table_from_partition read_sector (m * es) phys parts
      ≡ entries_in_order read_sector phys m es
          ((gpt_header (take 512 (take (m * es) bytes))).part_entry_lba)
          ((gpt_header (take 512 (take (m * es) bytes))).num_part_entries)
          0
          parts
unfolding gpt_load_table_from_partition
gpt_load_table_from_partition-entries_in_order read_sector phys m es bytes parts some_entry pos
      large read good size count =
    rw (read, gpt_load_table_from_partition)
      (load_from_header-in_order read_sector phys m es (gpt_header (take 512 (take (m * es) bytes)))
        parts some_entry pos large good size count)

-- The load of one table is not what runs out of fuel.
abbrev Ends : LoadStatus × List GptPartition → Type 0
Ends r = r.0 ≢ stuck

module _ (read_sector : ℕ → ℕ → Option (List ℕ)) (sector_size : ℕ) where
  slot_ne_stuck :
      (s : Slot) (parts : List GptPartition)
      (f : List GptPartition → LoadStatus × List GptPartition)
      → ((more : List GptPartition) → Ends (f more))
      → Ends (elim s [
        | outside ↦ (undefined, parts)
        | unused ↦ f parts
        | used p ↦ f (parts ++ p ∷ [])
      ])
  slot_ne_stuck unused parts f h = h parts
  slot_ne_stuck outside parts f h = λ e. ground (arith, e)
  slot_ne_stuck (used p) parts f h = h (parts ++ p ∷ [])

  buffer_ne_stuck :
      (o : Option (List ℕ)) (parts : List GptPartition)
      (f : List ℕ → LoadStatus × List GptPartition)
      → ((now : List ℕ) → Ends (f now))
      → Ends (elim o [ none ↦ (failed, parts) | some now ↦ f now ])
  buffer_ne_stuck none parts f h = λ e. ground (arith, e)
  buffer_ne_stuck (some now) parts f h = h now

  load_entries-ne-stuck :
      (phys : ℕ) (gpt : GptHeader) (left i : ℕ) (buf : List ℕ) (parts : List GptPartition)
      → Ends (load_entries read_sector sector_size phys gpt left i buf parts)
  unfolding load_entries
  load_entries-ne-stuck phys gpt zero i buf parts = λ e. ground (arith, e)
  load_entries-ne-stuck phys gpt (suc left) i buf parts =
      buffer_ne_stuck (round_buffer read_sector sector_size phys gpt i buf) parts _ λ now.
        slot_ne_stuck (read_slot phys (i * gpt.part_entry_size % 2 ^ 32 % sector_size) now) parts
          (λ more. load_entries read_sector sector_size phys gpt left (suc i) now more)
          λ more. load_entries-ne-stuck phys gpt left (suc i) now more

  if_ne_stuck :
      (b : Bool) (x y : LoadStatus × List GptPartition)
      → Ends x
      → Ends y
      → Ends (if b then x else y)
  if_ne_stuck true x y h k = h
  if_ne_stuck false x y h k = k

  header_ne_stuck :
      (phys : ℕ) (gpt : GptHeader) (parts : List GptPartition)
      → Ends (load_from_header read_sector sector_size phys gpt parts)
  unfolding load_from_header
  header_ne_stuck phys gpt parts =
      if_ne_stuck (not (same_bytes gpt.signature efi_part)) (loaded, parts) _
        (λ e. ground (arith, e))
        (if_ne_stuck (ltb sector_size gpt.part_entry_size || ltb 1024 gpt.num_part_entries)
          (failed, parts) _ (λ e. ground (arith, e))
          (if_ne_stuck ((sector_size == 0) && not (gpt.num_part_entries == 0)) (undefined, parts) _
            (λ e. ground (arith, e))
            (load_entries-ne-stuck phys gpt gpt.num_part_entries 0 (replicate 4096 0) parts)))

  table_ne_stuck :
      (phys : ℕ) (parts : List GptPartition)
      → Ends (gpt_load_table_from_partition read_sector sector_size phys parts)
  unfolding gpt_load_table_from_partition
  table_ne_stuck phys parts = elim (Option-cases (read_sector phys 1)) [
    | inl end ↦ λ e. ground (arith, e, end)
    | inr (bytes, got) ↦
        rw (got, gpt_load_table_from_partition)
          (header_ne_stuck phys (gpt_header (take 512 (take sector_size bytes))) parts)
  ]

  -- The round for a physical partition, from the result for its table.
  after_table :
      (ret : LoadStatus) (more : List GptPartition) (next : LoadStatus × List GptPartition)
      → ret ≢ stuck
      → Ends next
      → Ends (elim ret [
        | loaded ↦ next
        | past_end ↦ (loaded, more)
        | failed ↦ (failed, more)
        | undefined ↦ (undefined, more)
        | stuck ↦ (stuck, more)
      ])
  after_table loaded more next h k = k
  after_table failed more next h k = λ e. ground (arith, e)
  after_table past_end more next h k = λ e. ground (arith, e)
  after_table undefined more next h k = λ e. ground (arith, e)
  after_table stuck more next h k = absurd (h refl)

  at_end :
      (fuel i : ℕ) (parts : List GptPartition)
      → read_sector i 1 ≡ none
      → load_partitions read_sector sector_size (suc fuel) i parts ≡ (loaded, parts)
  unfolding load_partitions gpt_load_table_from_partition
  at_end fuel i parts end = ground (arith, end)

  partitions_end :
      (n fuel i : ℕ) (parts : List GptPartition)
      → read_sector (n + i) 1 ≡ none
      → n < fuel
      → Ends (load_partitions read_sector sector_size fuel i parts)
  unfolding load_partitions
  partitions_end n zero i parts end h = absurd (omega (arith, h))
  partitions_end zero (suc fuel) i parts end h =
      rw (at_end fuel i parts (ap (λ (t : ℕ). read_sector t 1) (omega arith) ∙ end))
        λ e. ground (arith, e)
  partitions_end (suc n) (suc fuel) i parts end h =
      let table = gpt_load_table_from_partition read_sector sector_size i parts in
      after_table table.0 table.1 _ (table_ne_stuck i parts) (
        partitions_end n fuel (suc i) table.1 (ap (λ (t : ℕ). read_sector t 1) (omega arith) ∙ end)
          (omega (arith, h)))

  -- Where the device refuses to read sector 1 of some physical partition, the load of the tables comes
  -- to an end in at most one round more than the number of that partition, with the tables, with a
  -- failure, or with an access outside the buffer or a division by zero.
  pub gpt_load_tables_ends :
      (n fuel : ℕ) (parts : List GptPartition)
      → read_sector n 1 ≡ none
      → n < fuel
      → (gpt_load_tables read_sector sector_size fuel parts).0 ≢ stuck
  unfolding gpt_load_tables
  gpt_load_tables_ends n fuel [] end h =
      partitions_end n fuel 0 [] (ap (λ (t : ℕ). read_sector t 1) (omega arith) ∙ end) h
  gpt_load_tables_ends n fuel (p ∷ rest) end h = λ e. ground (arith, e)
