-- ===== src/Tasks/Queue.antt =====
-- firehose_op.c: the operations in the order of the files, and in phases; with the older loops over
-- one list (program_execute, erase_execute, read_op_execute).
pub mod Phases
pub mod Referents
pub mod Reached
use qfenix.Common.{
  ℕ, zero, suc, ◌-◌, ◌^◌, Bool, true, false, not, Option, none, some, List, [], ◌∷◌, get_elem?,
  ◌==◌, ◌||◌,
}
use qfenix.Patch.{PatchEntry, is_disk}
use qfenix.Tasks.{Program, ReadOp, FirehoseOp, op_erase, op_program, op_read, op_patch, Tasks}

-- -1.
abbrev pub minus_one : ℕ
minus_one = 2 ^ 32 - 1

-- One thing after another, up to the first result other than zero.
unfoldable pub and_then : {S : Type 0} → (S → ℕ × S) → (S → ℕ × S) → S → ℕ × S
and_then first next s =
    let (ret, s') = first s in elim (ret == 0) [ true ↦ next s' | false ↦ (ret, s') ]

unfoldable pub nothing : {S : Type 0} → S → ℕ × S
nothing s = (0, s)

-- The surroundings are a state; `open` for reading, and `mkpath` and `open` for writing, tell
-- whether they succeed.
pub record Appliers (S : Type 0) : Type 0 where
  pub apply_erase : Program → S → ℕ × S
  pub apply_program : Program → S → ℕ × S
  pub apply_read : ReadOp → S → ℕ × S
  pub apply_patch : PatchEntry → S → ℕ × S
  pub open_input : List ℕ → S → Bool × S
  pub open_output : Option (List ℕ) → S → Bool × S

module _ {S : Type 0} (act : Appliers S) where
  -- The cases of the `switch`.
  unfoldable pub do_program : Program → S → ℕ × S
  unfolding nothing
  do_program p s = elim p.filename [
    | none ↦ (0, s)
    | some name ↦
        let (opened, s') = act.open_input name s in
        elim opened [ true ↦ act.apply_program p s' | false ↦ (minus_one, s') ]
  ]

  unfoldable pub do_read : ReadOp → S → ℕ × S
  do_read r s =
      let (opened, s') = act.open_output r.filename s in
      elim opened [ true ↦ act.apply_read r s' | false ↦ (minus_one, s') ]

  unfoldable pub do_patch : PatchEntry → S → ℕ × S
  unfolding is_disk nothing
  do_patch p s = elim (is_disk p) [ true ↦ act.apply_patch p s | false ↦ (0, s) ]

  -- What an operation points to; no operation points behind its list (Referents).
  unfoldable pub pointed : {A : Type 0} → (A → S → ℕ × S) → Option A → S → ℕ × S
  unfolding nothing
  pointed f none = nothing
  pointed f (some a) = f a

  unfoldable pub do_op : Tasks → FirehoseOp → S → ℕ × S
  unfolding pointed do_program do_read do_patch
  do_op t (op_erase i) = pointed act.apply_erase (get_elem? t.programs i)
  do_op t (op_program i) = pointed do_program (get_elem? t.programs i)
  do_op t (op_read i) = pointed do_read (get_elem? t.read_ops i)
  do_op t (op_patch i) = pointed do_patch (get_elem? t.patches i)

  unfoldable pub execute_ops : Tasks → List FirehoseOp → S → ℕ × S
  unfolding do_op and_then nothing
  execute_ops t [] = nothing
  execute_ops t (op ∷ rest) = and_then (do_op t op) (execute_ops t rest)

  unfoldable pub firehose_op_execute : Tasks → S → ℕ × S
  unfolding execute_ops
  firehose_op_execute t = execute_ops t t.firehose_ops

  -- The loops of the phases.
  unfoldable pub phase_reads : Tasks → List FirehoseOp → S → ℕ × S
  unfolding pointed do_read and_then nothing
  phase_reads t [] = nothing
  phase_reads t (op_read i ∷ rest) =
      and_then (pointed do_read (get_elem? t.read_ops i)) (phase_reads t rest)
  phase_reads t (op_erase i ∷ rest) = phase_reads t rest
  phase_reads t (op_program i ∷ rest) = phase_reads t rest
  phase_reads t (op_patch i ∷ rest) = phase_reads t rest

  unfoldable pub phase_programs : Tasks → List FirehoseOp → S → ℕ × S
  unfolding pointed do_program and_then nothing
  phase_programs t [] = nothing
  phase_programs t (op_program i ∷ rest) =
      and_then (pointed do_program (get_elem? t.programs i)) (phase_programs t rest)
  phase_programs t (op_erase i ∷ rest) = phase_programs t rest
  phase_programs t (op_read i ∷ rest) = phase_programs t rest
  phase_programs t (op_patch i ∷ rest) = phase_programs t rest

  unfoldable pub phase_patches : Tasks → List FirehoseOp → S → ℕ × S
  unfolding pointed do_patch and_then nothing
  phase_patches t [] = nothing
  phase_patches t (op_patch i ∷ rest) =
      and_then (pointed do_patch (get_elem? t.patches i)) (phase_patches t rest)
  phase_patches t (op_erase i ∷ rest) = phase_patches t rest
  phase_patches t (op_program i ∷ rest) = phase_patches t rest
  phase_patches t (op_read i ∷ rest) = phase_patches t rest

  unfoldable pub firehose_op_execute_phased : (S → ℕ × S) → Tasks → S → ℕ × S
  unfolding phase_reads phase_programs phase_patches and_then
  firehose_op_execute_phased erase_all t = and_then (phase_reads t t.firehose_ops) (
      and_then erase_all
        (and_then (phase_programs t t.firehose_ops) (phase_patches t t.firehose_ops)))

  unfoldable pub program_execute : List Program → S → ℕ × S
  unfolding do_program and_then nothing
  program_execute [] = nothing
  program_execute (p ∷ rest) =
      and_then (elim p.is_erase [ true ↦ nothing | false ↦ do_program p ]) (program_execute rest)

  unfoldable pub erase_execute : List Program → S → ℕ × S
  unfolding and_then nothing
  erase_execute [] = nothing
  erase_execute (p ∷ rest) =
      and_then (elim p.is_erase [ true ↦ act.apply_erase p | false ↦ nothing ]) (erase_execute rest)

  -- `ret` before the loop is what the stack holds; a file that cannot be opened returns it.
  unfoldable pub read_op_execute : List ReadOp → ℕ → S → ℕ × S
  read_op_execute [] ret s = (0, s)
  read_op_execute (r ∷ rest) ret s =
      let (opened, s') = act.open_output r.filename s in
      elim opened [
        | false ↦ (ret, s')
        | true ↦
            let (result, s'') = act.apply_read r s' in
            elim (result == 0) [ true ↦ read_op_execute rest result s'' | false ↦ (result, s'') ]
      ]
