-- ===== src/Tasks/Tests.antt =====
-- Runs of the code of program.c, read.c and firehose_op.c, and the properties at concrete inputs.
use qfenix.Common.{
  ℕ, ◌+◌, ◌%◌, ◌^◌, ◌<◌, ◌≡◌, refl, ap, arith, Bool, true, false, Option, none, some, List, [], ◌∷◌,
  ◌++◌,
}
use qfenix.Common.Words.{to_le, field_at}
use qfenix.Gpt.Find.{Place, Search, result}
use qfenix.Sparse.{
  File, SparseHeader, Chunk, chunk_type_raw, chunk_type_fill, chunk_type_dont_care,
  sparse_chunk_header_parse, sparse_header_parse, chunk_of, read_bytes,
}
use qfenix.Patch.{normalize}
use qfenix.Nodes.{list_add, list_walk}
use qfenix.Tasks.{no_tasks, Program, ReadOp, Tasks, empty_program, op_read, op_program, op_erase}
use qfenix.Tasks.Load.{
  SparseEnd, chunks_added, accepted, load_chunks, ProgramTag, program_of_tag, load_program_tag,
}
use qfenix.Tasks.Load.Chunks.{read_chunks, extents, extent_of, extents_of, load_chunks-extents}
use qfenix.Tasks.Load.Twice.{load_program_tag-twice}
use qfenix.Tasks.Address.{scan_number, parse_storage_address}
use qfenix.Tasks.Address.Numbers.{print_decimal}
use qfenix.Tasks.Address.Trip.{print_address, whole_number, parse_storage_address-print_address}
use qfenix.Tasks.Labels.{program_find_bootable_partition}
use qfenix.Tasks.Queue.{
  Appliers, and_then, execute_ops, firehose_op_execute_phased, read_op_execute,
}
use qfenix.Tasks.Queue.Phases.{
  only_reads, only_programs, only_patches, firehose_op_execute_phased-execute_ops,
  read_op_execute-unopened,
}
use qfenix.Tasks.Queue.Referents.{HasReferents}
use qfenix.Tasks.Queue.Reached.{
  at_start, by_program_command, by_program_names, Reached-HasReferents,
}
use qfenix.Tasks.Address.{program_cmd_add, program_resolve_gpt_deferrals}

-- The number in front of a text.
unfoldable number_of : List ℕ → ℕ
unfolding scan_number
number_of text = elim (scan_number text) [ none ↦ 0 | some (minus, v, rest) ↦ v ]

number_of-print_decimal : (n : ℕ) → n < 2 ^ 32 → number_of (print_decimal n) ≡ n
unfolding number_of
number_of-print_decimal n h =
    ap
      (λ (o : Option (Bool × ℕ × List ℕ)). elim o as (λ x. ℕ) [
        | none ↦ 0
        | some (minus, v, rest) ↦ v
      ])
      (whole_number n)

-- An image of two blocks of data, one without data and one that is filled.
abbrev image_header : SparseHeader
image_header = record {
  magic = 0xed26ff3a;
  major_version = 1;
  minor_version = 0;
  file_hdr_sz = 28;
  chunk_hdr_sz = 12;
  blk_sz = 4;
  total_blks = 4;
  total_chunks = 3;
  image_checksum = 0;
}

abbrev image : File
image = record {
  content =
      to_le 2 chunk_type_raw
      ++ to_le 2 0
      ++ to_le 4 2
      ++ to_le 4 20
      ++ (1 ∷ 2 ∷ 3 ∷ 4 ∷ 5 ∷ 6 ∷ 7 ∷ 8 ∷ [])
      ++ to_le 2 chunk_type_dont_care
      ++ to_le 2 0
      ++ to_le 4 1
      ++ to_le 4 12
      ++ to_le 2 chunk_type_fill
      ++ to_le 2 0
      ++ to_le 4 1
      ++ to_le 4 16
      ++ to_le 4 9;
  position = 0;
}

-- At sector 10.
abbrev split_program : Program
split_program = record empty_program {
  sector_size = 4;
  label = some (0x78 ∷ []);
  start_sector = some (0x31 ∷ 0x30 ∷ []);
}

abbrev split : SparseEnd × Program × Tasks
split = load_chunks number_of print_decimal 3 image_header split_program image no_tasks

split_added :
    load_chunks number_of print_decimal 3 image_header split_program image no_tasks
    ≡ (chunks_added, split.1, split.2)
unfolding to_le load_chunks sparse_chunk_header_parse chunk_of read_bytes field_at
split_added = refl

load_chunks-extents_example :
    (chunks : List Chunk) × (read_chunks 3 image_header image ≡ some chunks)
    × (extents_of number_of split.2.programs
        ≡ extents_of number_of [] ++ extents 4 (extent_of number_of split_program).first chunks)
load_chunks-extents_example =
    load_chunks-extents number_of print_decimal number_of-print_decimal 3 image_header split_program
      split.1 image no_tasks split.2 split_added

-- A tag with sparse="true" for a file of four bytes.
abbrev plain_tag : ProgramTag
plain_tag = record {
  sector_size_in_bytes = some (0x34 ∷ []);
  filename = some (0x66 ∷ []);
  num_partition_sectors = some (0x31 ∷ []);
  physical_partition_number = some (0x30 ∷ []);
  start_sector = some (0x30 ∷ []);
  label = none;
  sparse = some (0x74 ∷ 0x72 ∷ 0x75 ∷ 0x65 ∷ []);
  md5 = none;
  pages_per_block = none;
  last_sector = none;
  file_sector_offset = some (0x30 ∷ []);
}

abbrev plain_program : Program
plain_program = record empty_program {
  sector_size = 4;
  filename = some (0x66 ∷ []);
  label = some (0x66 ∷ []);
  num_sectors = 1;
  start_sector = some (0x30 ∷ []);
  sparse = true;
}

abbrev one_file : List ℕ → Option (List ℕ)
one_file name = some (1 ∷ 2 ∷ 3 ∷ 4 ∷ [])

plain_read : program_of_tag number_of false plain_tag ≡ some plain_program
unfolding program_of_tag number_of normalize
plain_read = refl

no_header : (sparse_header_parse (record { content = 1 ∷ 2 ∷ 3 ∷ 4 ∷ []; position = 0 })).0 ≡ none
unfolding sparse_header_parse read_bytes
no_header = refl

load_program_tag-twice_example :
    ((load_program_tag number_of print_decimal
        (λ name. false)
        one_file
        false
        false
        none
        plain_tag
        no_tasks).0
      ≡ accepted)
    × (list_walk 9
          (load_program_tag number_of print_decimal
            (λ name. false)
            one_file
            false
            false
            none
            plain_tag
            no_tasks).1.links
          0
          0
        ≡ none)
    × ((load_program_tag number_of print_decimal
          (λ name. false)
          one_file
          false
          false
          none
          plain_tag
          no_tasks).1.programs
        ≡ [] ++ record plain_program { filename = none; sparse = false } ∷ [])
load_program_tag-twice_example =
    load_program_tag-twice number_of print_decimal (λ name. false) one_file false false none
      plain_tag plain_program (0x66 ∷ []) (1 ∷ 2 ∷ 3 ∷ 4 ∷ []) no_tasks 9 (((refl, refl)), tt, tt)
      plain_read refl refl refl no_header refl

parse_storage_address-print_address_example :
    parse_storage_address (print_address 1 20 (2 ^ 32 + 3))
    ≡ some (record {
      physical_partition = 1 % 2 ^ 32;
      start_sector = 20 % 2 ^ 32;
      num_sectors = (2 ^ 32 + 3) % 2 ^ 32;
      gpt_partition = none;
    })
parse_storage_address-print_address_example =
    parse_storage_address-print_address 1 20 (2 ^ 32 + 3) (omega arith) (omega arith) (omega arith)
      (omega arith)

-- 1/20+3.
address_test :
    parse_storage_address (0x31 ∷ 0x2f ∷ 0x32 ∷ 0x30 ∷ 0x2b ∷ 0x33 ∷ [])
    ≡ some (record {
      physical_partition = 1;
      start_sector = 20;
      num_sectors = 3;
      gpt_partition = none;
    })
unfolding parse_storage_address
address_test = refl

-- What was done is a log.
abbrev logged : Appliers (List ℕ)
logged = record {
  apply_erase = λ p log. (0, 1 ∷ log);
  apply_program = λ p log. (0, 2 ∷ log);
  apply_read = λ r log. (0, 3 ∷ log);
  apply_patch = λ q log. (0, 4 ∷ log);
  open_input = λ name log. (true, log);
  open_output = λ name log. (true, log);
}

abbrev some_read : ReadOp
some_read = record {
  sector_size = 4;
  pages_per_block = 0;
  filename = some (0x72 ∷ []);
  partition = 0;
  num_sectors = 1;
  start_sector = some (0x30 ∷ []);
  gpt_partition = none;
}

abbrev some_tasks : Tasks
some_tasks = record {
  programs =
      record plain_program { is_erase = true }
      ∷ record plain_program { label = some (0x78 ∷ 0x62 ∷ 0x6c ∷ []); partition = 4 }
      ∷ [];
  links = list_add 0 2 (list_add 0 1 no_tasks.links);
  read_ops = some_read ∷ [];
  patches = [];
  patches_loaded = false;
  firehose_ops = op_erase 0 ∷ op_program 1 ∷ op_read 0 ∷ [];
}

firehose_op_execute_phased-execute_ops_example :
    firehose_op_execute_phased logged (λ log. (0, 9 ∷ log)) some_tasks
    ≡ and_then (execute_ops logged some_tasks (only_reads some_tasks.firehose_ops)) (
        and_then
          (λ log. (0, 9 ∷ log))
          (and_then
            (execute_ops logged some_tasks (only_programs some_tasks.firehose_ops))
            (execute_ops logged some_tasks (only_patches some_tasks.firehose_ops))))
firehose_op_execute_phased-execute_ops_example =
    firehose_op_execute_phased-execute_ops logged some_tasks λ log. (0, 9 ∷ log)

phased_test :
    firehose_op_execute_phased logged (λ log. (0, 9 ∷ log)) some_tasks [] ≡ (0, 2 ∷ 9 ∷ 3 ∷ [])
unfolding firehose_op_execute_phased
phased_test = refl

-- Only the first file can be opened.
abbrev once : Appliers (List ℕ)
once = record logged { open_output = λ name log. (elim log [ [] ↦ true | x ∷ rest ↦ false ], log) }

one_read : read_op_execute once (some_read ∷ []) 77 [] ≡ (0, 3 ∷ [])
unfolding read_op_execute
one_read = refl

read_op_execute-unopened_example :
    (read_op_execute once (some_read ∷ [] ++ some_read ∷ []) 77 []).0 ≡ 0
read_op_execute-unopened_example =
    read_op_execute-unopened once some_read [] [] some_read 77 [] (3 ∷ []) one_read refl

-- A command for the partition `b`, whose name is then looked up.
abbrev by_name : Tasks
by_name = (program_cmd_add print_decimal (0x62 ∷ []) none no_tasks).1

abbrev found_b : List ℕ → Place → ℕ → Search × ℕ
found_b name place t =
    (result true (record { phys_partition = some 2; start_sector = 5; num_sectors = 6 }), t + 1)

abbrev looked_up : Tasks
looked_up = record by_name {
  programs = (program_resolve_gpt_deferrals print_decimal found_b 0 by_name.programs 0).1;
}

Reached-HasReferents_example : HasReferents looked_up
Reached-HasReferents_example =
    Reached-HasReferents number_of print_decimal (λ name. false) one_file found_b 0 looked_up
      (by_program_names 0 (by_program_command (0x62 ∷ []) none at_start))

bootable_test : program_find_bootable_partition some_tasks ≡ some (4, false)
unfolding program_find_bootable_partition list_add
bootable_test = refl
