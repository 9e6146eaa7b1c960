-- ===== src/Tasks/Address.antt =====
-- util.c: parse_storage_address; program.c and read.c: the operations of the command line, and the
-- partitions that are looked up by name when the device is there.
pub mod Numbers
pub mod Trip
use qfenix.Common.{
  ℕ, zero, suc, ◌+◌, ◌-◌, ◌*◌, ◌%◌, ◌^◌, Bool, true, false, not, Option, none, some, List, [], ◌∷◌,
  ◌++◌, ◌==◌, ltb, leb, ◌&&◌, ◌||◌, if◌then◌else◌,
}
use qfenix.Gpt.Table.{GptPartition}
use qfenix.Gpt.Find.{Place, Search, result, undefined_search, stuck_search, gpt_find_by_name}
use qfenix.Tasks.{Program, ReadOp, Tasks, empty_program, add_program, add_read}

-- `isspace` and `isdigit`.
unfoldable pub is_space : ℕ → Bool
is_space c = (c == 0x20) || (leb 9 c && leb c 13)

unfoldable pub is_digit : ℕ → Bool
is_digit c = leb 0x30 c && leb c 0x39

unfoldable pub skip_spaces : List ℕ → List ℕ
unfolding is_space
skip_spaces [] = []
skip_spaces (c ∷ rest) = elim (is_space c) [ true ↦ skip_spaces rest | false ↦ c ∷ rest ]

-- The value of the digits in front, behind those that have the value `acc`, and what follows them.
unfoldable pub scan_digits : ℕ → List ℕ → ℕ × List ℕ
unfolding is_digit
scan_digits acc [] = (acc, [])
scan_digits acc (c ∷ rest) = elim (is_digit c) [
  | true ↦ scan_digits (acc * 10 + (c - 0x30)) rest
  | false ↦ (acc, c ∷ rest)
]

unfoldable pub starts_with_digit : List ℕ → Bool
unfolding is_digit
starts_with_digit [] = false
starts_with_digit (c ∷ rest) = is_digit c

unfoldable pub scan_unsigned : Bool → List ℕ → Option (Bool × ℕ × List ℕ)
unfolding scan_digits starts_with_digit
scan_unsigned minus text =
    if starts_with_digit text
    then (let (v, rest) = scan_digits 0 text in some (minus, v, rest))
    else none

unfoldable pub scan_signed : List ℕ → Option (Bool × ℕ × List ℕ)
unfolding scan_unsigned
scan_signed [] = none
scan_signed (c ∷ rest) =
    if c == 0x2d
    then scan_unsigned true rest
    else if c == 0x2b
    then scan_unsigned false rest
    else scan_unsigned false (c ∷ rest)

-- What `strtol` and `strtoul` with base 10 read: whether there was a minus sign, the value without
-- it, and `end`; `none` where `end` stays at the start.
unfoldable pub scan_number : List ℕ → Option (Bool × ℕ × List ℕ)
unfolding skip_spaces scan_signed
scan_number text = scan_signed (skip_spaces text)

-- The value of `strtoul`; `none` for ERANGE.
unfoldable pub unsigned_long : Bool → ℕ → Option ℕ
unsigned_long minus v =
    if leb (2 ^ 64) v then none else some (if minus then (2 ^ 64 - v) % 2 ^ 64 else v)

-- The results of `parse_storage_address`, as 32-bit integers; -1 is 2 ^ 32 - 1.
pub record Address : Type 0 where
  pub physical_partition : ℕ
  pub start_sector : ℕ
  pub num_sectors : ℕ
  pub gpt_partition : Option (List ℕ)

-- `done:`.
unfoldable pub address_of : ℕ → ℕ → ℕ → Option (List ℕ) → Option Address
address_of partition sector length gpt = some (record {
  physical_partition = partition % 2 ^ 32;
  start_sector = sector % 2 ^ 32;
  num_sectors = length % 2 ^ 32;
  gpt_partition = gpt;
})

-- From the length on.
unfoldable pub parse_length : ℕ → ℕ → List ℕ → Option Address
unfolding scan_number unsigned_long address_of
parse_length partition sector text = elim (scan_number text) [
  | none ↦ none
  | some (minus, v, rest) ↦ elim (unsigned_long minus v) [
    | none ↦ none
    | some length ↦
        if length == 0
        then none
        else elim rest [ [] ↦ address_of partition sector length none | c ∷ more ↦ none ]
  ]
]

-- From the sector, or the name, on.
unfoldable pub parse_sector : ℕ → List ℕ → Option Address
unfolding scan_number unsigned_long address_of parse_length
parse_sector partition text = elim (scan_number text) [
  | none ↦ address_of partition 0 0 (some text)
  | some (minus, v, rest) ↦ elim (unsigned_long minus v) [
    | none ↦ none
    | some sector ↦ elim rest [
      | [] ↦ address_of partition sector 0 none
      | c ∷ more ↦ if c == 0x2b then parse_length partition sector more else none
    ]
  ]
]

-- `none` for -1.
unfoldable pub parse_storage_address : List ℕ → Option Address
unfolding scan_number address_of parse_sector
parse_storage_address address = elim (scan_number address) [
  | none ↦ address_of (2 ^ 32 - 1) 0 0 (some address)
  | some (minus, v, rest) ↦ if leb (2 ^ 63) v || (minus && not (v == 0)) then none else elim rest [
    | [] ↦ address_of v 0 0 none
    | c ∷ more ↦ if c == 0x2f then parse_sector v more else none
  ]
]

-- `%u` of `sprintf`.
module _ (decimal : ℕ → List ℕ) where
  unfoldable pub commanded_program : Option (List ℕ) → Address → Program
  commanded_program filename a = record empty_program {
    filename = filename;
    label = filename;
    num_sectors = a.num_sectors;
    partition = a.physical_partition;
    start_sector = some (decimal a.start_sector);
    gpt_partition = a.gpt_partition;
  }

  -- The result is false for a negative number.
  unfoldable pub program_cmd_add : List ℕ → Option (List ℕ) → Tasks → Bool × Tasks
  unfolding parse_storage_address add_program commanded_program
  program_cmd_add address filename s = elim (parse_storage_address address) [
    | none ↦ (false, s)
    | some a ↦ (true, add_program (commanded_program filename a) s)
  ]

  unfoldable pub read_cmd_add : List ℕ → List ℕ → Tasks → Bool × Tasks
  unfolding parse_storage_address add_read
  read_cmd_add address filename s = elim (parse_storage_address address) [
    | none ↦ (false, s)
    | some a ↦
        if (a.num_sectors == 0) && (elim a.gpt_partition [ none ↦ true | some name ↦ false ])
        then (false, s)
        else (
          true,
          add_read
              (record {
                sector_size = 0;
                pages_per_block = 0;
                filename = some filename;
                partition = a.physical_partition;
                num_sectors = a.num_sectors;
                start_sector = some (decimal a.start_sector);
                gpt_partition = a.gpt_partition;
              })
              s,
        )
  ]

-- How a look-up may end: with 0, with -1, or without a defined result (Gpt.Table).
pub data Resolved : Type 0 where
  resolved not_resolved undefined_resolve stuck_resolve : Resolved

-- The int that is passed as `phys_partition`.
unfoldable pub phys_of : ℕ → Option ℕ
phys_of v = if ltb v (2 ^ 31) then some v else none

-- The look-up of a partition is a function of its name and the places, with the table that it may
-- load as a state; `junk` is what `start_sector` is before the call.
module _ {T : Type 0} (decimal : ℕ → List ℕ) (find : List ℕ → Place → T → Search × T)
    (junk : ℕ) where
  -- What a program or a read has after the look-up, where it is for a name.
  unfoldable pub resolve_place : List ℕ → ℕ → ℕ → T → Resolved × Place × T
  unfolding phys_of
  resolve_place name partition num_sectors t =
      let place : Place = record {
        phys_partition = phys_of partition;
        start_sector = junk;
        num_sectors = num_sectors;
      } in
      let (found, t') = find name place t in
      elim found [
        | result ok out ↦ (if ok then resolved else not_resolved, out, t')
        | undefined_search ↦ (undefined_resolve, place, t')
        | stuck_search ↦ (stuck_resolve, place, t')
      ]

  -- The value of an int that was left or set.
  unfoldable pub partition_after : ℕ → Place → ℕ
  partition_after old place = elim place.phys_partition [ none ↦ old | some k ↦ k ]

  unfoldable pub resolve_program : Program → T → Resolved × Program × T
  unfolding resolve_place partition_after
  resolve_program p t = elim p.gpt_partition [
    | none ↦ (resolved, p, t)
    | some name ↦
        let (ret, out, t') = resolve_place name p.partition p.num_sectors t in
        let looked_up = record p {
          partition = partition_after p.partition out;
          num_sectors = out.num_sectors;
        } in
        elim ret [
          | resolved ↦
              (resolved, record looked_up { start_sector = some (decimal out.start_sector) }, t')
          | not_resolved ↦ (not_resolved, looked_up, t')
          | undefined_resolve ↦ (undefined_resolve, looked_up, t')
          | stuck_resolve ↦ (stuck_resolve, looked_up, t')
        ]
  ]

  unfoldable pub program_resolve_gpt_deferrals : List Program → T → Resolved × List Program × T
  unfolding resolve_program
  program_resolve_gpt_deferrals [] t = (resolved, [], t)
  program_resolve_gpt_deferrals (p ∷ rest) t =
      let (ret, p', t') = resolve_program p t in
      let (ret', rest', t'') = program_resolve_gpt_deferrals rest t' in
      elim ret [
        | resolved ↦ (ret', p' ∷ rest', t'')
        | not_resolved ↦ (not_resolved, p' ∷ rest, t')
        | undefined_resolve ↦ (undefined_resolve, p' ∷ rest, t')
        | stuck_resolve ↦ (stuck_resolve, p' ∷ rest, t')
      ]

  unfoldable pub resolve_read : ReadOp → T → Resolved × ReadOp × T
  unfolding resolve_place partition_after
  resolve_read r t = elim r.gpt_partition [
    | none ↦ (resolved, r, t)
    | some name ↦
        let (ret, out, t') = resolve_place name r.partition r.num_sectors t in
        let looked_up = record r {
          partition = partition_after r.partition out;
          num_sectors = out.num_sectors;
        } in
        elim ret [
          | resolved ↦
              (resolved, record looked_up { start_sector = some (decimal out.start_sector) }, t')
          | not_resolved ↦ (not_resolved, looked_up, t')
          | undefined_resolve ↦ (undefined_resolve, looked_up, t')
          | stuck_resolve ↦ (stuck_resolve, looked_up, t')
        ]
  ]

  unfoldable pub read_resolve_gpt_deferrals : List ReadOp → T → Resolved × List ReadOp × T
  unfolding resolve_read
  read_resolve_gpt_deferrals [] t = (resolved, [], t)
  read_resolve_gpt_deferrals (r ∷ rest) t =
      let (ret, r', t') = resolve_read r t in
      let (ret', rest', t'') = read_resolve_gpt_deferrals rest t' in
      elim ret [
        | resolved ↦ (ret', r' ∷ rest', t'')
        | not_resolved ↦ (not_resolved, r' ∷ rest, t')
        | undefined_resolve ↦ (undefined_resolve, r' ∷ rest, t')
        | stuck_resolve ↦ (stuck_resolve, r' ∷ rest, t')
      ]
