-- ===== src/Tasks/Labels/Bootable.antt =====
-- program.c: which partition is booted from, and when the search for it ends.
use qfenix.Common.{ℕ, ◌≡◌, ◌≢◌, Bool, true, false, Option, some, List, [], ◌∷◌, ◌++◌, All}
use qfenix.Tasks.{Program, Tasks}
use qfenix.Tasks.Labels.{Sought, sought, absent, never, xbl, xbl_a, sbl1, minus_enoent}

-- The partitions of the programs that were found, in the order of the search.
abbrev pub found_partition : Sought → List ℕ
found_partition (sought p) = p.partition ∷ []
found_partition absent = []
found_partition never = []

-- The first of them, or -ENOENT, and whether there are several.
pub choice : List ℕ → ℕ × Bool
choice [] = (minus_enoent, false)
choice (k ∷ []) = (k, false)
choice (k ∷ l ∷ rest) = (k, true)

-- What stands for the first program with that label: its partition, or nothing when there is none.
pub data FirstLabelled (name : List ℕ) (ps : List Program) : List ℕ → Type 0 where
  not_labelled : All (λ p. p.label ≢ some name) ps → FirstLabelled name ps []
  labelled :
      (before : List Program) (p : Program) (after : List Program)
      → ps ≡ before ++ p ∷ after
      → All (λ q. q.label ≢ some name) before
      → p.label ≡ some name
      → FirstLabelled name ps (p.partition ∷ [])

-- The partitions of the first programs with the three labels.
pub record Candidates (s : Tasks) (result : Option (ℕ × Bool)) : Type 0 where
  pub with_xbl : List ℕ
  pub with_xbl_a : List ℕ
  pub with_sbl1 : List ℕ
  pub first_xbl : FirstLabelled xbl s.programs with_xbl
  pub first_xbl_a : FirstLabelled xbl_a s.programs with_xbl_a
  pub first_sbl1 : FirstLabelled sbl1 s.programs with_sbl1
  pub chooses : result ≡ some (choice (with_xbl ++ (with_xbl_a ++ with_sbl1)))
