-- ===== src/Tasks/Queue/Referents.antt =====
-- program.c, read.c and firehose_op.c: the operations of the queue stand for the entries of
-- the lists in their order, whatever is loaded, added or looked up.
use qfenix.Common.{
  ◌≡◌, ◌&&◌, ℕ, zero, suc, ◌-◌, arith, Bool, true, false, Option, none, some, List, [], ◌∷◌, ◌++◌,
  length, take, length-append, length-take, if◌then◌else◌, ◌==◌, ◌||◌, ◌*◌,
}
use mathlib.Core.Path.{subst, subst₂}
use qfenix.Patch.{XmlNode, PatchEntry, patch_load_tag}
use qfenix.Tasks.{
  Program, ReadOp, FirehoseOp, op_erase, op_program, op_read, op_patch, Tasks, op_for, add_program,
  add_read, add_patch,
}
use qfenix.Sparse.{
  File, SparseHeader, Chunk, sparse_header_parse, sparse_chunk_header_parse, chunk_type_raw,
  chunk_type_fill,
}
use qfenix.Tasks.Load.{
  LoadEnd, accepted, refused, crashed, SparseEnd, chunks_added, itself_added, chunk_refused,
  chunk_crashed, EraseTag, ProgramTag, ReadTag, Node, no_element, other_tag, erase_tag, program_tag,
  read_tag, patch_tag, erase_of_tag, load_erase_tag, chunk_program, advanced, load_chunk,
  load_chunks, program_load_sparse, after_sparse, load_program_tag, read_op_load_tag, load_node,
  program_load_nodes, program_load, patch_load_nodes, patch_load, read_op_load_nodes, read_op_load,
  incdir_name, program_of_tag, resolved_name,
}

-- The operations stand in the order of the entries that they point to, and each entry has one; a
-- program may have more, which were added while it was the last one.
pub data InOrder : List FirehoseOp → ℕ → ℕ → ℕ → Type 0 where
  no_operation : InOrder [] 0 0 0
  erase_next :
      {ops : List FirehoseOp} {a b c : ℕ}
      → InOrder ops a b c
      → InOrder (ops ++ op_erase a ∷ []) (suc a) b c
  program_next :
      {ops : List FirehoseOp} {a b c : ℕ}
      → InOrder ops a b c
      → InOrder (ops ++ op_program a ∷ []) (suc a) b c
  program_again :
      {ops : List FirehoseOp} {a b c : ℕ}
      → InOrder ops (suc a) b c
      → InOrder (ops ++ op_program a ∷ []) (suc a) b c
  read_next :
      {ops : List FirehoseOp} {a b c : ℕ}
      → InOrder ops a b c
      → InOrder (ops ++ op_read b ∷ []) a (suc b) c
  patch_next :
      {ops : List FirehoseOp} {a b c : ℕ}
      → InOrder ops a b c
      → InOrder (ops ++ op_patch c ∷ []) a b (suc c)

abbrev pub HasReferents : Tasks → Type 0
HasReferents s = InOrder s.firehose_ops (length s.programs) (length s.read_ops) (length s.patches)

length-snoc : {A : Type 0} (xs : List A) (x : A) → suc (length xs) ≡ length (xs ++ x ∷ [])
length-snoc xs x = omega (arith, length-append xs (x ∷ []))

program_next_for :
    (e : Bool) (ops : List FirehoseOp) (a b c : ℕ)
    → InOrder ops a b c
    → InOrder (ops ++ op_for e a ∷ []) (suc a) b c
unfolding op_for
program_next_for true ops a b c h = erase_next h
program_next_for false ops a b c h = program_next h

pub add_program-HasReferents :
    (p : Program) (s : Tasks) → HasReferents s → HasReferents (add_program p s)
unfolding add_program
add_program-HasReferents p s h =
    subst
      (λ (n : ℕ).
        InOrder (s.firehose_ops ++ op_for p.is_erase (length s.programs) ∷ []) n (length s.read_ops)
          (length s.patches))
      (length-snoc s.programs p) (program_next_for p.is_erase _ _ _ _ h)

pub add_read-HasReferents : (r : ReadOp) (s : Tasks) → HasReferents s → HasReferents (add_read r s)
unfolding add_read
add_read-HasReferents r s h =
    subst
      (λ (n : ℕ).
        InOrder (s.firehose_ops ++ op_read (length s.read_ops) ∷ []) (length s.programs) n
          (length s.patches))
      (length-snoc s.read_ops r) (read_next h)

pub add_patch-HasReferents :
    (q : PatchEntry) (s : Tasks) → HasReferents s → HasReferents (add_patch q s)
unfolding add_patch
add_patch-HasReferents q s h =
    subst
      (λ (n : ℕ).
        InOrder (s.firehose_ops ++ op_patch (length s.patches) ∷ []) (length s.programs)
          (length s.read_ops) n)
      (length-snoc s.patches q) (patch_next h)

-- A property of results, by the cases that made them.
module _ {R : Type 0} (K : R → Type 0) where
  if_keeps : (b : Bool) (x y : R) → K x → K y → K (if b then x else y)
  if_keeps true x y h k = h
  if_keeps false x y h k = k

  option_keeps :
      {A : Type 0} (o : Option A) (x : R) (f : A → R)
      → K x
      → ((a : A) → K (f a))
      → K (elim o [ none ↦ x | some a ↦ f a ])
  option_keeps none x f h k = h
  option_keeps (some a) x f h k = k a

  end_keeps :
      (ret : LoadEnd) (x y z : R)
      → K x
      → K y
      → K z
      → K (elim ret [ accepted ↦ x | refused ↦ y | crashed ↦ z ])
  end_keeps accepted x y z h k l = h
  end_keeps refused x y z h k l = k
  end_keeps crashed x y z h k l = l

  sparse_keeps :
      (ret : SparseEnd) (w x y z : R)
      → K w
      → K x
      → K y
      → K z
      → K (elim ret [ chunks_added ↦ w | itself_added ↦ x | chunk_refused ↦ y | chunk_crashed ↦ z ])
  sparse_keeps chunks_added w x y z a b c d = a
  sparse_keeps itself_added w x y z a b c d = b
  sparse_keeps chunk_refused w x y z a b c d = c
  sparse_keeps chunk_crashed w x y z a b c d = d

-- The results of loads.
record Kept (r : LoadEnd × Tasks) : Type 0 where
  kept : HasReferents r.1

record SparseKept (r : SparseEnd × Program × Tasks) : Type 0 where
  kept : HasReferents r.2

keep : {e : LoadEnd} {s : Tasks} → HasReferents s → Kept (e, s)
keep h = record { kept = h }

keep_sparse : {e : SparseEnd} {p : Program} {s : Tasks} → HasReferents s → SparseKept (e, p, s)
keep_sparse h = record { kept = h }

module _ (strtoul : List ℕ → ℕ) where
  load_erase_tag-Kept :
      (is_nand : Bool) (a : EraseTag) (s : Tasks)
      → HasReferents s
      → Kept (load_erase_tag strtoul is_nand a s)
  unfolding load_erase_tag
  load_erase_tag-Kept is_nand a s h =
      option_keeps Kept a.vendor
        (elim (erase_of_tag strtoul is_nand a) [
          | none ↦ (refused, s)
          | some p ↦ (accepted, add_program p s)
        ])
        (λ v. (accepted, s))
        (option_keeps Kept (erase_of_tag strtoul is_nand a) (refused, s) _ (keep h)
          λ p. keep (add_program-HasReferents p s h))
        λ v. keep h

  read_op_load_tag-Kept :
      (incdir : Option (List ℕ)) (a : ReadTag) (s : Tasks)
      → HasReferents s
      → Kept (read_op_load_tag strtoul incdir a s)
  unfolding read_op_load_tag
  read_op_load_tag-Kept incdir a s h =
      if_keeps Kept _ (refused, s) _ (keep h)
        (option_keeps Kept (incdir_name incdir _) (crashed, s) _ (keep h)
          λ name. keep (add_read-HasReferents _ s h))

  read_op_load_nodes-Kept :
      (incdir : Option (List ℕ)) (nodes : List Node) (s : Tasks)
      → HasReferents s
      → Kept (read_op_load_nodes strtoul incdir nodes s)
  unfolding read_op_load_nodes
  read_op_load_nodes-Kept incdir [] s h = keep h
  read_op_load_nodes-Kept incdir (no_element ∷ rest) s h = read_op_load_nodes-Kept incdir rest s h
  read_op_load_nodes-Kept incdir (other_tag ∷ rest) s h = read_op_load_nodes-Kept incdir rest s h
  read_op_load_nodes-Kept incdir (erase_tag a ∷ rest) s h = read_op_load_nodes-Kept incdir rest s h
  read_op_load_nodes-Kept incdir (program_tag a ∷ rest) s h =
      read_op_load_nodes-Kept incdir rest s h
  read_op_load_nodes-Kept incdir (patch_tag a ∷ rest) s h = read_op_load_nodes-Kept incdir rest s h
  read_op_load_nodes-Kept incdir (read_tag a ∷ rest) s h =
      let r = read_op_load_tag strtoul incdir a s in
      let k = read_op_load_tag-Kept incdir a s h in
      end_keeps Kept r.0 _ _ _ (read_op_load_nodes-Kept incdir rest r.1 k.kept)
        (read_op_load_nodes-Kept incdir rest r.1 k.kept) (keep k.kept)

  pub read_op_load-HasReferents :
      (incdir : Option (List ℕ)) (file : Option (List Node)) (s : Tasks)
      → HasReferents s
      → HasReferents (read_op_load strtoul incdir file s).1
  unfolding read_op_load
  read_op_load-HasReferents incdir none s h = h
  read_op_load-HasReferents incdir (some nodes) s h =
      (read_op_load_nodes-Kept incdir nodes s h).kept

module _ (strtoul : List ℕ → ℕ) (decimal : ℕ → List ℕ) where
  load_chunk-SparseKept :
      (p : Program) (c : Chunk) (s : Tasks)
      → HasReferents s
      → SparseKept (load_chunk strtoul decimal p c s)
  unfolding load_chunk
  load_chunk-SparseKept p c s h =
      if_keeps SparseKept _ (chunks_added, p, s) _ (keep_sparse h)
        (if_keeps SparseKept _ (chunk_crashed, p, s) _ (keep_sparse h)
          (if_keeps SparseKept _ (chunk_refused, p, s) _ (keep_sparse h)
            (if_keeps SparseKept _ (chunk_refused, p, s) _ (keep_sparse h)
              (option_keeps SparseKept p.start_sector (chunk_crashed, p, s) _ (keep_sparse h)
                λ start.
                  if_keeps SparseKept ((c.type == chunk_type_raw) || (c.type == chunk_type_fill))
                    (elim p.label [
                      | none ↦ (chunk_crashed, p, s)
                      | some label ↦ (
                        chunks_added,
                        advanced strtoul decimal p start c,
                        add_program (chunk_program p c) s,
                      )
                    ])
                    (chunks_added, advanced strtoul decimal p start c, s)
                    (option_keeps SparseKept p.label (chunk_crashed, p, s) _ (keep_sparse h)
                      λ label. keep_sparse (add_program-HasReferents (chunk_program p c) s h))
                    (keep_sparse h)))))

  load_chunks-SparseKept :
      (left : ℕ) (head : SparseHeader) (p : Program) (f : File) (s : Tasks)
      → HasReferents s
      → SparseKept (load_chunks strtoul decimal left head p f s)
  unfolding load_chunks
  load_chunks-SparseKept zero head p f s h = keep_sparse h
  load_chunks-SparseKept (suc left) head p f s h =
      option_keeps SparseKept (sparse_chunk_header_parse head f).0 (chunk_refused, p, s) _
        (keep_sparse h)
        λ c.
          let r = load_chunk strtoul decimal p c s in
          let k = load_chunk-SparseKept p c s h in
          sparse_keeps SparseKept r.0 _ _ _ _
            (load_chunks-SparseKept left head r.1 (sparse_chunk_header_parse head f).1 r.2 k.kept)
            (keep_sparse k.kept) (keep_sparse k.kept) (keep_sparse k.kept)

  program_load_sparse-SparseKept :
      (p : Program) (f : File) (s : Tasks)
      → HasReferents s
      → SparseKept (program_load_sparse strtoul decimal p f s)
  unfolding program_load_sparse
  program_load_sparse-SparseKept p f s h =
      option_keeps SparseKept (sparse_header_parse f).0 _
        (λ head. load_chunks strtoul decimal head.total_chunks head p (sparse_header_parse f).1 s)
        (if_keeps SparseKept (p.sector_size * p.num_sectors == length f.content)
          (itself_added, record p { sparse = false }, add_program (record p { sparse = false }) s)
          (chunk_refused, p, s)
          (keep_sparse (add_program-HasReferents (record p { sparse = false }) s h))
          (keep_sparse h))
        λ head. load_chunks-SparseKept head.total_chunks head p (sparse_header_parse f).1 s h

after_sparse-Kept :
    (ret : SparseEnd) (p : Program) (s : Tasks) → HasReferents s → Kept (after_sparse ret p s)
unfolding after_sparse
after_sparse-Kept chunks_added p s h = keep (add_program-HasReferents _ s h)
after_sparse-Kept chunk_refused p s h = keep h
after_sparse-Kept chunk_crashed p s h = keep h
after_sparse-Kept itself_added p s h = keep (again_at s.programs h)
  where
    again_at :
        (ps : List Program)
        → InOrder s.firehose_ops (length ps) (length s.read_ops) (length s.patches)
        → InOrder
            (s.firehose_ops ++ op_program (length ps - 1) ∷ [])
            (length (take (length ps - 1) ps ++ record p { filename = none } ∷ []))
            (length s.read_ops)
            (length s.patches)
    again_at [] k = program_next k
    again_at (q ∷ ps) k =
        let m = length (q ∷ ps) - 1 in
        subst₂
          (λ (i n : ℕ).
            InOrder (s.firehose_ops ++ op_program i ∷ []) n (length s.read_ops) (length s.patches))
          (omega arith)
          (omega (
            arith,
            length-append (take m (q ∷ ps)) (record p { filename = none } ∷ []),
            length-take m (q ∷ ps),
          ))
          (program_again {a = length ps} k)

module _ (strtoul : List ℕ → ℕ) (decimal : ℕ → List ℕ) (accessible : List ℕ → Bool)
    (open_file : List ℕ → Option (List ℕ)) (is_nand allow_missing : Bool)
    (incdir : Option (List ℕ)) where
  load_program_tag-Kept :
      (a : ProgramTag) (s : Tasks)
      → HasReferents s
      → Kept
          (load_program_tag strtoul decimal accessible open_file is_nand allow_missing incdir a s)
  unfolding load_program_tag
  load_program_tag-Kept a s h =
      option_keeps Kept (program_of_tag strtoul is_nand a) (refused, s) _ (keep h)
        λ p.
          option_keeps Kept p.filename (accepted, add_program p s) _
            (keep (add_program-HasReferents p s h))
            λ name.
              option_keeps Kept (open_file (resolved_name accessible incdir name))
                (if allow_missing
                  then (accepted, add_program (record p { filename = none }) s)
                  else (refused, s))
                _
                (if_keeps Kept allow_missing
                  (accepted, add_program (record p { filename = none }) s) (refused, s)
                  (keep (add_program-HasReferents (record p { filename = none }) s h)) (keep h))
                λ content.
                  let named = record p { filename = some (resolved_name accessible incdir name) } in
                  let f : File = record { content = content; position = 0 } in
                  let r = program_load_sparse strtoul decimal named f s in
                  if_keeps Kept p.sparse (after_sparse r.0 r.1 r.2) (accepted, add_program named s)
                    (after_sparse-Kept r.0 r.1 r.2
                      (program_load_sparse-SparseKept strtoul decimal named f s h).kept)
                    (keep (add_program-HasReferents named s h))

  load_node-Kept :
      (node : Node) (s : Tasks)
      → HasReferents s
      → Kept (load_node strtoul decimal accessible open_file is_nand allow_missing incdir node s)
  unfolding load_node
  load_node-Kept no_element s h = keep h
  load_node-Kept other_tag s h = keep h
  load_node-Kept (erase_tag a) s h = load_erase_tag-Kept strtoul is_nand a s h
  load_node-Kept (program_tag a) s h = load_program_tag-Kept a s h
  load_node-Kept (read_tag a) s h = read_op_load_tag-Kept strtoul incdir a s h
  load_node-Kept (patch_tag a) s h =
      option_keeps Kept (patch_load_tag strtoul a) (refused, s) _ (keep h)
        λ q. keep (add_patch-HasReferents q s h)

  load_nodes-Kept :
      (nodes : List Node) (s : Tasks)
      → HasReferents s
      → Kept (
          program_load_nodes strtoul decimal accessible open_file is_nand allow_missing incdir nodes
            s)
  unfolding program_load_nodes
  load_nodes-Kept [] s h = keep h
  load_nodes-Kept (node ∷ rest) s h =
      let r = load_node strtoul decimal accessible open_file is_nand allow_missing incdir node s in
      let k = load_node-Kept node s h in
      end_keeps Kept r.0 _ _ _ (load_nodes-Kept rest r.1 k.kept) (keep k.kept) (keep k.kept)

  pub program_load-HasReferents :
      (file : Option (List Node)) (s : Tasks)
      → HasReferents s
      → HasReferents
          (program_load strtoul decimal accessible open_file is_nand allow_missing incdir file s).1
  unfolding program_load
  program_load-HasReferents none s h = h
  program_load-HasReferents (some nodes) s h = (load_nodes-Kept nodes s h).kept

module _ (strtoul : List ℕ → ℕ) where
  patch_load_nodes-HasReferents :
      (nodes : List XmlNode) (s : Tasks)
      → HasReferents s
      → HasReferents (patch_load_nodes strtoul nodes s)
  unfolding patch_load_nodes
  patch_load_nodes-HasReferents [] s h = h
  patch_load_nodes-HasReferents (node ∷ rest) s h =
      let later = patch_load_nodes-HasReferents rest s h in
      elim (node.is_element && node.is_patch)
        as (λ (b : Bool). HasReferents (elim b as (λ x. Tasks) [
          | false ↦ patch_load_nodes strtoul rest s
          | true ↦ elim (patch_load_tag strtoul node.attributes) [
            | none ↦ patch_load_nodes strtoul rest s
            | some p ↦ patch_load_nodes strtoul rest (add_patch p s)
          ]
        ])) [
          | false ↦ later
          | true ↦
              option_keeps HasReferents (patch_load_tag strtoul node.attributes) _ _ later λ p.
                patch_load_nodes-HasReferents rest (add_patch p s) (add_patch-HasReferents p s h)
        ]

  pub patch_load-HasReferents :
      (file : Option (List XmlNode)) (s : Tasks)
      → HasReferents s
      → HasReferents (patch_load strtoul file s).1
  unfolding patch_load
  patch_load-HasReferents none s h = h
  patch_load-HasReferents (some nodes) s h = patch_load_nodes-HasReferents nodes s h
