-- ===== src/Tasks.antt =====
-- program.c, read.c and firehose_op.c: the lists of what is to be programmed, read and patched, and
-- the queue of operations that refers to them.
pub mod Load
pub mod Queue
pub mod Address
pub mod Labels
mod Tests
use qfenix.Common.{
  ℕ, suc, ◌+◌, ◌-◌, Bool, true, false, Option, none, some, List, [], ◌∷◌, ◌++◌, length, take,
}
use qfenix.Nodes.{Heap, list_add, list_walk}
use qfenix.Patch.{PatchEntry}

-- Integers are the values of their 32 bits; a partition of 2 ^ 31 or more is a negative number.
pub record Program : Type 0 where
  pub sector_size : ℕ
  pub file_offset : ℕ
  pub pages_per_block : ℕ
  pub filename : Option (List ℕ)
  pub label : Option (List ℕ)
  pub md5 : Option (List ℕ)
  pub num_sectors : ℕ
  pub partition : ℕ
  pub sparse : Bool
  pub start_sector : Option (List ℕ)
  pub last_sector : ℕ
  pub is_nand : Bool
  pub is_erase : Bool
  pub sparse_chunk_type : ℕ
  pub sparse_fill_value : ℕ
  pub sparse_offset : ℕ
  pub gpt_partition : Option (List ℕ)

pub record ReadOp : Type 0 where
  pub sector_size : ℕ
  pub pages_per_block : ℕ
  pub filename : Option (List ℕ)
  pub partition : ℕ
  pub num_sectors : ℕ
  pub start_sector : Option (List ℕ)
  pub gpt_partition : Option (List ℕ)

-- `calloc`.
abbrev pub empty_program : Program
empty_program = record {
  sector_size = 0;
  file_offset = 0;
  pages_per_block = 0;
  filename = none;
  label = none;
  md5 = none;
  num_sectors = 0;
  partition = 0;
  sparse = false;
  start_sector = none;
  last_sector = 0;
  is_nand = false;
  is_erase = false;
  sparse_chunk_type = 0;
  sparse_fill_value = 0;
  sparse_offset = 0;
  gpt_partition = none;
}

-- The pointer of an operation is the place of what it points to in its list, where the other
-- users of the list can change it.
pub data FirehoseOp : Type 0 where
  op_erase op_program op_read op_patch : ℕ → FirehoseOp

pub record Tasks : Type 0 where
  pub programs : List Program
  -- The pointers of `programs`: the head is at address 0, and the entry at place `i` at `i + 1`.
  pub links : Heap
  pub read_ops : List ReadOp
  pub patches : List PatchEntry
  pub patches_loaded : Bool
  pub firehose_ops : List FirehoseOp

-- `LIST_INIT` of the three lists and of the queue, before anything is loaded.
abbrev pub no_tasks : Tasks
no_tasks = record {
  programs = [];
  links = record { next = λ x. 0; prev = λ x. 0 };
  read_ops = [];
  patches = [];
  patches_loaded = false;
  firehose_ops = [];
}

-- Whether a walk over `programs` visits more nodes than there are entries, and so does not end.
unfoldable pub endless : Tasks → Bool
unfolding list_walk
endless s = elim (list_walk (suc (length s.programs)) s.links 0 0) [
  | none ↦ true
  | some visited ↦ false
]

unfoldable pub op_for : Bool → ℕ → FirehoseOp
op_for true i = op_erase i
op_for false i = op_program i

-- `list_add(&programs, …)` and `firehose_op_add_program`.
unfoldable pub add_program : Program → Tasks → Tasks
unfolding op_for list_add
add_program p s = record s {
  programs = s.programs ++ p ∷ [];
  links = list_add 0 (suc (length s.programs)) s.links;
  firehose_ops = s.firehose_ops ++ op_for p.is_erase (length s.programs) ∷ [];
}

unfoldable pub add_read : ReadOp → Tasks → Tasks
add_read r s = record s {
  read_ops = s.read_ops ++ r ∷ [];
  firehose_ops = s.firehose_ops ++ op_read (length s.read_ops) ∷ [];
}

unfoldable pub add_patch : PatchEntry → Tasks → Tasks
add_patch p s = record s {
  patches = s.patches ++ p ∷ [];
  firehose_ops = s.firehose_ops ++ op_patch (length s.patches) ∷ [];
}
