-- ===== src/Tasks/Queue/Reached.antt =====
-- program.c and read.c: the lists and the queue as they can become, from the start of the program on.
use qfenix.Common.{
  ℕ, suc, ◌≡◌, inl, inr, refl, sym, ap, Bool, true, false, Option, none, some, List, [], ◌∷◌,
  length, ◌==◌, ◌&&◌, Option-cases, Bool-cases,
}
use mathlib.Core.Path.{subst}
use qfenix.Gpt.Find.{Place, Search}
use qfenix.Patch.{XmlNode}
use qfenix.Tasks.{Program, ReadOp, Tasks, no_tasks}
use qfenix.Tasks.Load.{Node, program_load, read_op_load, patch_load}
use qfenix.Tasks.Address.{
  Resolved, resolved, not_resolved, undefined_resolve, stuck_resolve, parse_storage_address,
  commanded_program, program_cmd_add, read_cmd_add, resolve_program, resolve_read,
  program_resolve_gpt_deferrals, read_resolve_gpt_deferrals,
}
use qfenix.Tasks.Queue.Referents.{
  HasReferents, add_program-HasReferents, add_read-HasReferents, program_load-HasReferents,
  read_op_load-HasReferents, patch_load-HasReferents, InOrder, no_operation,
}

-- A list that was looked up has the entries that it had.
program_count :
    {A T : Type 0} (ret : Resolved) (p : A) (rest rest' : List A) (more : Resolved) (t t' : T)
    → length rest' ≡ length rest
    → length
        (elim ret as (λ x. Resolved × List A × T) [
          | resolved ↦ (more, p ∷ rest', t)
          | not_resolved ↦ (not_resolved, p ∷ rest, t')
          | undefined_resolve ↦ (undefined_resolve, p ∷ rest, t')
          | stuck_resolve ↦ (stuck_resolve, p ∷ rest, t')
        ]).1
      ≡ suc (length rest)
program_count resolved p rest rest' more t t' e = ap suc e
program_count not_resolved p rest rest' more t t' e = refl
program_count undefined_resolve p rest rest' more t t' e = refl
program_count stuck_resolve p rest rest' more t t' e = refl

module _ {T : Type 0} (strtoul : List ℕ → ℕ) (decimal : ℕ → List ℕ) (accessible : List ℕ → Bool)
    (open_file : List ℕ → Option (List ℕ)) (find : List ℕ → Place → T → Search × T) (junk : ℕ) where
  -- The lists can become `s`: by files and commands, in any order and whatever their results, and by
  -- the look-ups of names.
  pub data Reached : Tasks → Type 0 where
    at_start : Reached no_tasks
    by_program_file :
        {s : Tasks} (is_nand allow_missing : Bool) (incdir : Option (List ℕ))
        (file : Option (List Node))
        → Reached s
        → Reached
            (program_load strtoul decimal accessible open_file is_nand allow_missing incdir file
              s).1
    by_read_file :
        {s : Tasks} (incdir : Option (List ℕ)) (file : Option (List Node))
        → Reached s
        → Reached (read_op_load strtoul incdir file s).1
    by_patch_file :
        {s : Tasks} (file : Option (List XmlNode))
        → Reached s
        → Reached (patch_load strtoul file s).1
    by_program_command :
        {s : Tasks} (address : List ℕ) (filename : Option (List ℕ))
        → Reached s
        → Reached (program_cmd_add decimal address filename s).1
    by_read_command :
        {s : Tasks} (address filename : List ℕ)
        → Reached s
        → Reached (read_cmd_add decimal address filename s).1
    by_program_names :
        {s : Tasks} (t : T)
        → Reached s
        → Reached (record s {
          programs = (program_resolve_gpt_deferrals decimal find junk s.programs t).1;
        })
    by_read_names :
        {s : Tasks} (t : T)
        → Reached s
        → Reached
            (record s { read_ops = (read_resolve_gpt_deferrals decimal find junk s.read_ops t).1 })

  command_kept :
      (address : List ℕ) (filename : Option (List ℕ)) (s : Tasks)
      → HasReferents s
      → HasReferents (program_cmd_add decimal address filename s).1
  unfolding program_cmd_add
  command_kept address filename s h = elim (Option-cases (parse_storage_address address)) [
    | inl bad ↦ rw (bad, program_cmd_add) h
    | inr (a, good) ↦
        rw (good, program_cmd_add)
          (add_program-HasReferents (commanded_program decimal filename a) s h)
  ]

  programs_counted :
      (ps : List Program) (t : T)
      → length (program_resolve_gpt_deferrals decimal find junk ps t).1 ≡ length ps
  unfolding program_resolve_gpt_deferrals
  programs_counted [] t = refl
  programs_counted (p ∷ rest) t =
      let r = resolve_program decimal find junk p t in
      let later = program_resolve_gpt_deferrals decimal find junk rest r.2 in
      program_count r.0 r.1 rest later.1 later.0 later.2 r.2 (programs_counted rest r.2)

  reads_counted :
      (rs : List ReadOp) (t : T)
      → length (read_resolve_gpt_deferrals decimal find junk rs t).1 ≡ length rs
  unfolding read_resolve_gpt_deferrals
  reads_counted [] t = refl
  reads_counted (r ∷ rest) t =
      let x = resolve_read decimal find junk r t in
      let later = read_resolve_gpt_deferrals decimal find junk rest x.2 in
      program_count x.0 x.1 rest later.1 later.0 later.2 x.2 (reads_counted rest x.2)

  read_command_kept :
      (address filename : List ℕ) (s : Tasks)
      → HasReferents s
      → HasReferents (read_cmd_add decimal address filename s).1
  unfolding read_cmd_add
  read_command_kept address filename s h = elim (Option-cases (parse_storage_address address)) [
    | inl bad ↦ rw (bad, read_cmd_add) h
    | inr (a, good) ↦
        elim (Bool-cases
          ((a.num_sectors == 0) && (elim a.gpt_partition [ none ↦ true | some name ↦ false ]))) [
            | inl nothing_to_read ↦ rw (good, read_cmd_add, nothing_to_read) h
            | inr some_sectors ↦ rw (good, read_cmd_add, some_sectors) (add_read-HasReferents _ s h)
          ]
  ]

  -- Whatever files of programs, reads and patches are loaded, commands are given and names are looked
  -- up, in any order and with any result: the operations in the queue that point to programs, to reads
  -- or to patches go through the entries of that list from the first to the last and leave none out,
  -- and each entry has one, but for programs, which may have more that were added while the program
  -- was the last one.
  pub Reached-HasReferents : (s : Tasks) → Reached s → HasReferents s
  Reached-HasReferents _ at_start = no_operation
  Reached-HasReferents _ (by_program_file {s} is_nand allow_missing incdir file r) =
      program_load-HasReferents strtoul decimal accessible open_file is_nand allow_missing incdir
        file s (Reached-HasReferents s r)
  Reached-HasReferents _ (by_read_file {s} incdir file r) =
      read_op_load-HasReferents strtoul incdir file s (Reached-HasReferents s r)
  Reached-HasReferents _ (by_patch_file {s} file r) =
      patch_load-HasReferents strtoul file s (Reached-HasReferents s r)
  Reached-HasReferents _ (by_program_command {s} address filename r) =
      command_kept address filename s (Reached-HasReferents s r)
  Reached-HasReferents _ (by_read_command {s} address filename r) =
      read_command_kept address filename s (Reached-HasReferents s r)
  Reached-HasReferents _ (by_program_names {s} t r) =
      subst (λ (n : ℕ). InOrder s.firehose_ops n (length s.read_ops) (length s.patches))
        (sym (programs_counted s.programs t)) (Reached-HasReferents s r)
  Reached-HasReferents _ (by_read_names {s} t r) =
      subst (λ (n : ℕ). InOrder s.firehose_ops (length s.programs) n (length s.patches))
        (sym (reads_counted s.read_ops t)) (Reached-HasReferents s r)
