-- ===== src/Ufs/Laws.antt =====
-- ufs.c: what is accepted.
use qfenix.Common.{ℕ, ◌≡◌, ◌≢◌, Bool, false, none, some, List, [], ◌∷◌}
use qfenix.Ufs.{UfsCommon, UfsEpilogue, UfsNode, Ufs}
use qfenix.Ufs.Parts.{FilePart, commons_of, bodies_of, epilogues_of, Describes}

-- What there is when a file was loaded.
record IsComplete (finalize : Bool) (s : Ufs) : Type 0 where
  parameters : UfsCommon
  has_parameters : s.common ≡ some parameters
  has_bodies : s.bodies ≢ []
  last : UfsEpilogue
  has_last : s.epilogue ≡ some last
  lock : parameters.config_descr_lock ≡ finalize

-- Before a file was loaded.
abbrev pub no_ufs : Ufs
no_ufs = record { common = none; bodies = []; epilogue = none; freed = false }

-- What a file says, and what is kept of it.
pub record IsProvisioning (strtoul : List ℕ → ℕ) (finalize : Bool) (nodes : List UfsNode) (s : Ufs)
    : Type 0 where
  pub parts : List FilePart
  pub parameters : UfsCommon
  pub last : UfsEpilogue
  pub describes : Describes strtoul nodes parts
  pub one_common : commons_of parts ≡ parameters ∷ []
  pub some_body : bodies_of parts ≢ []
  pub one_epilogue : epilogues_of parts ≡ last ∷ []
  pub has_common : s.common ≡ some parameters
  pub has_bodies : s.bodies ≡ bodies_of parts
  pub has_epilogue : s.epilogue ≡ some last
  pub lock : parameters.config_descr_lock ≡ finalize
