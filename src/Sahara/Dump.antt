-- ===== src/Sahara/Dump.antt =====
-- The memory dump of sahara.c: `sahara_debug64` asks for a table of regions, and
-- `sahara_debug64_one` copies a region to a file, block by block.
pub mod Ends
pub mod Store
use qfenix.Common.{
  ℕ, zero, suc, ◌+◌, ◌-◌, ◌*◌, ◌/◌, ◌%◌, ◌^◌, Bool, true, false, Option, none, some, List, [], ◌∷◌,
  ◌++◌,
}
use qfenix.Common.{◌==◌, ltb, leb, ◌||◌, not, if◌then◌else◌, length, take, drop}
use qfenix.Common.Words.{to_le, field_at}
use qfenix.Link.{Link, Outcome, Exec, ok, fault, stuck, pure, fail, assert, acquire}
use qfenix.Link.{qdl_read, qdl_write, ◌>>=◌, ◌>>◌, continue}
use qfenix.Sahara.Image.{length_of, sahara_send_reset}
use qfenix.Sahara.Glob.{sahara_debug64_filter}

abbrev pub debug_block_size : ℕ
debug_block_size = 512 * 1024

abbrev pub path_max : ℕ
path_max = 4096

-- The two names are their twenty bytes.
pub record DebugRegion64 : Type 0 where
  pub type : ℕ
  pub addr : ℕ
  pub len : ℕ
  pub region : List ℕ
  pub filename : List ℕ

abbrev pub region_size : ℕ
region_size = 64

unfoldable pub region_at : List ℕ → ℕ → DebugRegion64
unfolding field_at
region_at table i =
    let entry = drop (i * region_size) table in
    record {
      type = field_at 8 entry 0;
      addr = field_at 8 entry 8;
      len = field_at 8 entry 16;
      region = take 20 (drop 24 entry);
      filename = take 20 (drop 44 entry);
    }

-- The text before the first NUL; `none` when there is none, and a reader runs past the array.
unfoldable pub c_string : List ℕ → Option (List ℕ)
c_string [] = none
c_string (c ∷ rest) = elim (c == 0) [
  | true ↦ some []
  | false ↦ elim (c_string rest) [ none ↦ none | some s ↦ some (c ∷ s) ]
]

unfoldable pub mem_read64 : ℕ → ℕ → List ℕ
unfolding to_le
mem_read64 addr len = to_le 4 0xa ++ to_le 4 0x18 ++ to_le 8 addr ++ to_le 8 len

-- Where the loop over `write` ends: with the value of `buf_offset` (`none` where it gives up),
-- the outcomes that are left, and what the file got.
pub record Stored : Type 0 where
  pub buf_offset : Option ℕ
  pub left : List (Option ℕ)
  pub files : List (List ℕ × List ℕ)

-- `written` is a `size_t`, so a negative result is 2 ^ 64 - 1 there.
unfoldable pub written_of : Option ℕ → ℕ
written_of none = 2 ^ 64 - 1
written_of (some k) = k

unfoldable pub stored_bytes : Option ℕ → ℕ → List ℕ → List ℕ
stored_bytes none buf_offset buf = []
stored_bytes (some k) buf_offset buf = take k (drop buf_offset buf)

unfoldable pub store_loop : List (Option ℕ) → List ℕ → List ℕ → ℕ → List (List ℕ × List ℕ) → Stored
store_loop [] path buf buf_offset files =
    if ltb buf_offset (length buf)
    then record {
      buf_offset = some (length buf);
      left = [];
      files = files ++ (path, drop buf_offset buf) ∷ [];
    }
    else record { buf_offset = some buf_offset; left = []; files = files }
store_loop (r ∷ left) path buf buf_offset files = elim (ltb buf_offset (length buf)) [
  | true ↦ elim (written_of r == 0) [
    | true ↦ record { buf_offset = none; left = left; files = files }
    | false ↦
        store_loop left path buf ((buf_offset + written_of r) % 2 ^ 64)
          (files ++ (path, stored_bytes r buf_offset buf) ∷ [])
  ]
  | false ↦ record { buf_offset = some buf_offset; left = r ∷ left; files = files }
]

unfoldable pub store_all : List ℕ → List ℕ → Exec (Option ℕ)
store_all path buf l =
    let s = store_loop l.stored path buf 0 l.files in
    (ok s.buf_offset, record l { stored = s.left; files = s.files })

-- The loop that reads `remain` bytes of a block, from `offset` on. The result is false after
-- `goto out`.
unfoldable pub fill_loop : ℕ → List ℕ → ℕ → ℕ → Exec Bool
fill_loop zero path remain offset = fail stuck
fill_loop (suc fuel) path remain offset = elim (ltb offset remain) [
  | true ↦ do
    got ← qdl_read debug_block_size
    elim got [
      | none ↦ pure false
      | some buf ↦ do
        stored ← store_all path buf
        elim stored [
          | none ↦ pure false
          | some buf_offset ↦ fill_loop fuel path remain ((offset + buf_offset) % 2 ^ 64)
        ]
    ]
  | false ↦ pure true
]

-- Each round of the loops makes a read, and when all results are used up a read fails: one round
-- more than there are results is enough fuel.
unfoldable pub fill_block : List ℕ → ℕ → Exec Bool
fill_block path remain l = fill_loop (suc (length l.incoming)) path remain 0 l

unfoldable pub block_at : DebugRegion64 → ℕ → ℕ
block_at region chunk =
    if ltb (region.len - chunk) debug_block_size then region.len - chunk else debug_block_size

unfoldable pub dump_loop : ℕ → List ℕ → DebugRegion64 → ℕ → Exec (Unit {0})
dump_loop zero path region chunk = fail stuck
dump_loop (suc fuel) path region chunk = elim (ltb chunk region.len) [
  | true ↦ do
    n ← qdl_write (mem_read64 ((region.addr + chunk) % 2 ^ 64) (block_at region chunk))
    elim n [
      | none ↦ pure tt
      | some _ ↦ do
        filled ← fill_block path (block_at region chunk)
        elim filled [
          | false ↦ pure tt
          | true ↦ do
            qdl_read debug_block_size
            dump_loop fuel path region ((chunk + debug_block_size) % 2 ^ 64)
        ]
    ]
  | false ↦ pure tt
]

unfoldable pub dump_region : List ℕ → DebugRegion64 → Exec (Unit {0})
dump_region path region l = dump_loop (suc (length l.incoming)) path region 0 l

-- What `snprintf` makes of the directory and the name, cut to the size of `path`; `none` where
-- there is no directory, or the name has no end.
unfoldable pub dump_path : Option (List ℕ) → Option (List ℕ) → Option (List ℕ)
dump_path none name = none
dump_path (some directory) none = none
dump_path (some directory) (some name) = some (take (path_max - 1) (directory ++ b'/' ∷ name))

-- The result is false for -1.
unfoldable pub sahara_debug64_one : DebugRegion64 → Option (List ℕ) → Exec Bool
sahara_debug64_one region ramdump_path = do
  buf ← acquire
  if not buf then pure false else elim (dump_path ramdump_path (c_string region.filename)) [
    | none ↦ fail fault
    | some path ↦ do
      fd ← acquire
      if not fd then pure false else do dump_region path region; pure true
  ]

-- Whether the region is skipped; the name is looked at only if there is a filter.
unfoldable pub skip_region : DebugRegion64 → Option (List ℕ) → Exec Bool
skip_region region none = pure false
skip_region region (some filter) = elim (c_string region.filename) [
  | none ↦ fail fault
  | some name ↦ pure (sahara_debug64_filter name (some filter))
]

-- The loop over the table from region `i` on, as far as `n` bytes go. The result of
-- `sahara_debug64_one` is stored in `n` itself, so a region that was dumped leaves 0 there.
unfoldable pub region_loop :
    ℕ → ℕ → ℕ → List ℕ → Option (List ℕ) → Option (List ℕ) → Exec (Unit {0})
region_loop zero n i table ramdump_path filter = fail stuck
region_loop (suc fuel) n i table ramdump_path filter = elim (ltb i (n / region_size)) [
  | false ↦ pure tt
  | true ↦ do
    skipped ← skip_region (region_at table i) filter
    elim skipped [
      | true ↦ region_loop fuel n (i + 1) table ramdump_path filter
      | false ↦ do
        dumped ← sahara_debug64_one (region_at table i) ramdump_path
        elim dumped [
          | true ↦ region_loop fuel 0 (i + 1) table ramdump_path filter
          | false ↦ pure tt
        ]
    ]
]

abbrev pub table_max : ℕ
table_max = 16 * 1024 * 1024

-- A table that was read is worked through, and then the device is reset; there is at most one round
-- for each region and one more.
unfoldable pub dump_table : List ℕ → Option (List ℕ) → Option (List ℕ) → Exec (Unit {0})
dump_table table ramdump_path filter = if ltb (length table) region_size then pure tt else do
  region_loop (suc (length table / region_size)) (length table) 0 table ramdump_path filter
  sahara_send_reset

unfoldable pub sahara_debug64 : List ℕ → Option (List ℕ) → Option (List ℕ) → Exec (Unit {0})
sahara_debug64 pkt ramdump_path filter = do
  assert (length_of pkt == 0x18)
  n ← qdl_write (mem_read64 (field_at 8 pkt 8) (field_at 8 pkt 16))
  elim n [
    | none ↦ pure tt
    | some _ ↦ if field_at 8 pkt 16 == 0 || ltb table_max (field_at 8 pkt 16) then pure tt else do
      table ← acquire
      if not table then pure tt else do
        got ← qdl_read (field_at 8 pkt 16)
        elim got [ none ↦ pure tt | some bytes ↦ dump_table bytes ramdump_path filter ]
  ]
