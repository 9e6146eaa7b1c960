-- ===== src/Tasks/Queue/Phases.antt =====
-- firehose_op.c: the phases are runs of parts of the queue, and what a failed `open` returns.
use qfenix.Common.{ℕ, ◌≡◌, refl, ap, ap₂, arith, false, List, [], ◌∷◌, ◌++◌}
use qfenix.Tasks.{ReadOp, FirehoseOp, op_erase, op_program, op_read, op_patch, Tasks}
use qfenix.Tasks.Queue.{
  Appliers, and_then, do_op, execute_ops, phase_reads, phase_programs, phase_patches,
  firehose_op_execute_phased, read_op_execute,
}

-- The operations of a kind, in the order of the queue.
unfoldable pub only_reads : List FirehoseOp → List FirehoseOp
only_reads [] = []
only_reads (op_read i ∷ rest) = op_read i ∷ only_reads rest
only_reads (op_erase i ∷ rest) = only_reads rest
only_reads (op_program i ∷ rest) = only_reads rest
only_reads (op_patch i ∷ rest) = only_reads rest

unfoldable pub only_programs : List FirehoseOp → List FirehoseOp
only_programs [] = []
only_programs (op_program i ∷ rest) = op_program i ∷ only_programs rest
only_programs (op_erase i ∷ rest) = only_programs rest
only_programs (op_read i ∷ rest) = only_programs rest
only_programs (op_patch i ∷ rest) = only_programs rest

unfoldable pub only_patches : List FirehoseOp → List FirehoseOp
only_patches [] = []
only_patches (op_patch i ∷ rest) = op_patch i ∷ only_patches rest
only_patches (op_erase i ∷ rest) = only_patches rest
only_patches (op_program i ∷ rest) = only_patches rest
only_patches (op_read i ∷ rest) = only_patches rest

module _ {S : Type 0} (act : Appliers S) (t : Tasks) where
  phase_reads-only :
      (ops : List FirehoseOp) → phase_reads act t ops ≡ execute_ops act t (only_reads ops)
  unfolding phase_reads execute_ops do_op only_reads
  phase_reads-only [] = refl
  phase_reads-only (op_erase i ∷ rest) = phase_reads-only rest
  phase_reads-only (op_program i ∷ rest) = phase_reads-only rest
  phase_reads-only (op_patch i ∷ rest) = phase_reads-only rest
  phase_reads-only (op_read i ∷ rest) =
      ap (and_then (do_op act t (op_read i))) (phase_reads-only rest)

  phase_programs-only :
      (ops : List FirehoseOp) → phase_programs act t ops ≡ execute_ops act t (only_programs ops)
  unfolding phase_programs execute_ops do_op only_programs
  phase_programs-only [] = refl
  phase_programs-only (op_erase i ∷ rest) = phase_programs-only rest
  phase_programs-only (op_read i ∷ rest) = phase_programs-only rest
  phase_programs-only (op_patch i ∷ rest) = phase_programs-only rest
  phase_programs-only (op_program i ∷ rest) =
      ap (and_then (do_op act t (op_program i))) (phase_programs-only rest)

  phase_patches-only :
      (ops : List FirehoseOp) → phase_patches act t ops ≡ execute_ops act t (only_patches ops)
  unfolding phase_patches execute_ops do_op only_patches
  phase_patches-only [] = refl
  phase_patches-only (op_erase i ∷ rest) = phase_patches-only rest
  phase_patches-only (op_program i ∷ rest) = phase_patches-only rest
  phase_patches-only (op_read i ∷ rest) = phase_patches-only rest
  phase_patches-only (op_patch i ∷ rest) =
      ap (and_then (do_op act t (op_patch i))) (phase_patches-only rest)

  -- The run in phases is the run of the queue's reads in their order, then of `erase_all`, then of
  -- its programs, then of its patches, up to the first that fails; the queue's erasures are not run.
  pub firehose_op_execute_phased-execute_ops :
      (erase_all : S → ℕ × S)
      → firehose_op_execute_phased act erase_all t
        ≡ and_then (execute_ops act t (only_reads t.firehose_ops)) (
            and_then erase_all (
              and_then
                (execute_ops act t (only_programs t.firehose_ops))
                (execute_ops act t (only_patches t.firehose_ops))))
  unfolding firehose_op_execute_phased
  firehose_op_execute_phased-execute_ops erase_all =
      let ops = t.firehose_ops in
      ap₂ (λ (f g : S → ℕ × S). and_then f (and_then erase_all g)) (phase_reads-only ops)
        (ap₂ (λ (f g : S → ℕ × S). and_then f g) (phase_programs-only ops) (phase_patches-only ops))

module _ {S : Type 0} (act : Appliers S) where
  after_reads :
      (before rest : List ReadOp) (x : ReadOp) (s s' : S)
      → read_op_execute act before 0 s ≡ (0, s')
      → (act.open_output x.filename s').0 ≡ false
      → (read_op_execute act (before ++ x ∷ rest) 0 s).0 ≡ 0
  unfolding read_op_execute
  after_reads [] rest x s s' e h = ground (arith, e, h)
  after_reads (r ∷ before) rest x s s' e h = ground (
    arith,
    e,
    after_reads before rest x (act.apply_read r (act.open_output r.filename s).1).1 s',
    h,
  )

  -- When at least one read came before and all went well, a file that cannot be opened makes
  -- `read_op_execute` return 0.
  pub read_op_execute-unopened :
      (first : ReadOp) (before rest : List ReadOp) (x : ReadOp) (ret : ℕ) (s s' : S)
      → read_op_execute act (first ∷ before) ret s ≡ (0, s')
      → (act.open_output x.filename s').0 ≡ false
      → (read_op_execute act (first ∷ before ++ x ∷ rest) ret s).0 ≡ 0
  unfolding read_op_execute
  read_op_execute-unopened first before rest x ret s s' e h = ground (
    arith,
    e,
    after_reads before rest x (act.apply_read first (act.open_output first.filename s).1).1 s',
    h,
  )
