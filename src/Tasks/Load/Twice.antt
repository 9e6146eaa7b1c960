-- ===== src/Tasks/Load/Twice.antt =====
-- program.c: a file that is no sparse image although its tag says so.
use qfenix.Common.{
  ℕ, zero, suc, ◌<◌, ◌≢◌, All-append, ◌-◌, ◌*◌, ◌≡◌, refl, sym, ap, ◌∙◌, arith, Bool, true, false,
  Option, none, some, List, [], ◌∷◌, ◌++◌, length, take, length-append, take-append,
}
use mathlib.Core.Path.{subst}
use qfenix.Sparse.{File, sparse_header_parse}
use qfenix.Nodes.{list_add, list_walk}
use qfenix.Nodes.Chains.{Represents, IsNotIn, list_add-Represents, list_add_again}
use qfenix.Tasks.{Program, Tasks, add_program}
use qfenix.Tasks.Load.{
  LoadEnd, SparseEnd, accepted, itself_added, ProgramTag, program_of_tag, resolved_name,
  after_sparse, program_load_sparse, load_program_tag,
}

-- All of a list but what was put behind it.
take_front :
    {A : Type 0} (xs : List A) (x : A) → take (length (xs ++ x ∷ []) - 1) (xs ++ x ∷ []) ≡ xs
take_front xs x =
    let n : length (xs ++ x ∷ []) - 1 ≡ length xs = omega (arith, length-append xs (x ∷ [])) in
    ap (λ (k : ℕ). take k (xs ++ x ∷ [])) n ∙ take-append xs (x ∷ [])

-- The nodes of that many programs.
abbrev pub addresses : ℕ → List ℕ
addresses zero = []
addresses (suc n) = addresses n ++ suc n ∷ []

-- A later address is new.
addresses-IsNotIn : (n m : ℕ) → m < n → IsNotIn n (addresses m)
addresses-IsNotIn n zero h = tt
addresses-IsNotIn n (suc m) h =
    All-append (λ (y : ℕ). y ≢ n) (addresses m) (suc m ∷ [])
      (addresses-IsNotIn n m (omega (arith, h))) ((λ e. omega (arith, e, h)), tt)

-- The last node of a list is added again.
after_itself :
    (p : Program) (s : Tasks) (fuel : ℕ)
    → Represents s.links 0 (addresses (length s.programs))
    → ((after_sparse itself_added p (add_program p s)).0 ≡ accepted)
      × (list_walk fuel (after_sparse itself_added p (add_program p s)).1.links 0 0 ≡ none)
      × ((after_sparse itself_added p (add_program p s)).1.programs
          ≡ s.programs ++ record p { filename = none } ∷ [])
unfolding after_sparse add_program
after_itself p s fuel represented =
    let n = length s.programs in
    let same : length (s.programs ++ p ∷ []) ≡ suc n =
      omega (arith, length-append s.programs (p ∷ [])) in
    let first =
      list_add-Represents s.links 0 (suc n) (addresses n) represented (λ e. omega (arith, e))
        (addresses-IsNotIn (suc n) n (omega arith)) in
    (
      refl,
      ap (λ (k : ℕ). list_walk fuel (list_add 0 k (list_add 0 (suc n) s.links)) 0 0) same
          ∙ list_add_again (list_add 0 (suc n) s.links) 0 (suc n) fuel (addresses n) first,
      ap (λ (ps : List Program). ps ++ record p { filename = none } ∷ []) (take_front s.programs p),
    )

itself :
    (strtoul : List ℕ → ℕ) (decimal : ℕ → List ℕ) (p : Program) (f : File) (s : Tasks)
    → (sparse_header_parse f).0 ≡ none
    → p.sector_size * p.num_sectors ≡ length f.content
    → program_load_sparse strtoul decimal p f s
      ≡ (itself_added, record p { sparse = false }, add_program (record p { sparse = false }) s)
unfolding program_load_sparse
itself strtoul decimal p f s no_header size = ground (arith, no_header, size)

module _ (strtoul : List ℕ → ℕ) (decimal : ℕ → List ℕ) (accessible : List ℕ → Bool)
    (open_file : List ℕ → Option (List ℕ)) where
  by_chunks :
      (is_nand allow_missing : Bool) (incdir : Option (List ℕ)) (a : ProgramTag) (p : Program)
      (name content : List ℕ) (s : Tasks)
      → program_of_tag strtoul is_nand a ≡ some p
      → p.filename ≡ some name
      → p.sparse ≡ true
      → open_file (resolved_name accessible incdir name) ≡ some content
      → load_program_tag strtoul decimal accessible open_file is_nand allow_missing incdir a s ≡ (
          let r =
            program_load_sparse strtoul decimal
              (record p { filename = some (resolved_name accessible incdir name) })
              (record { content = content; position = 0 })
              s in
          after_sparse r.0 r.1 r.2)
  unfolding load_program_tag
  by_chunks is_nand allow_missing incdir a p name content s tag named flagged opened =
      ground (arith, tag, named, flagged, opened)

  -- When a tag with sparse="true" names a file that has no sparse header and just the size of the
  -- partition, and each program before it is in the list once, the tag is taken, but its program keeps
  -- no file name, so that nothing is written, and by the pointers of the list no walk over it ends.
  pub load_program_tag-twice :
      (is_nand allow_missing : Bool) (incdir : Option (List ℕ)) (a : ProgramTag) (p : Program)
      (name content : List ℕ) (s : Tasks) (fuel : ℕ)
      → Represents s.links 0 (addresses (length s.programs))
      → program_of_tag strtoul is_nand a ≡ some p
      → p.filename ≡ some name
      → p.sparse ≡ true
      → open_file (resolved_name accessible incdir name) ≡ some content
      → (sparse_header_parse (record { content = content; position = 0 })).0 ≡ none
      → p.sector_size * p.num_sectors ≡ length content
      → ((load_program_tag strtoul decimal accessible open_file is_nand allow_missing incdir a s).0
          ≡ accepted)
        × (list_walk fuel
              (load_program_tag strtoul decimal accessible open_file is_nand allow_missing incdir a
                s).1.links
              0
              0
            ≡ none)
        × ((load_program_tag strtoul decimal accessible open_file is_nand allow_missing incdir a
              s).1.programs
            ≡ s.programs ++ record p { filename = none; sparse = false } ∷ [])
  load_program_tag-twice is_nand allow_missing incdir a p name content s fuel represented tag named
        flagged opened no_header size =
      let q = record p { filename = some (resolved_name accessible incdir name) } in
      let f : File = record { content = content; position = 0 } in
      let e =
        by_chunks is_nand allow_missing incdir a p name content s tag named flagged opened
        ∙ ap (λ (r : SparseEnd × Program × Tasks). after_sparse r.0 r.1 r.2)
            (itself strtoul decimal q f s no_header size) in
      subst
        (λ (r : LoadEnd × Tasks).
          (r.0 ≡ accepted)
          × (list_walk fuel r.1.links 0 0 ≡ none)
          × (r.1.programs ≡ s.programs ++ record p { filename = none; sparse = false } ∷ []))
        (sym e) (after_itself (record q { sparse = false }) s fuel represented)
