-- ===== src/Ufs/Rounds.antt =====
-- ufs.c: the messages of the provisioning, one after the other.
use mathlib.Core.Path.{fun_ext}
use qfenix.Common.{
  ℕ, zero, suc, ◌≡◌, ◌⊎◌, inl, inr, refl, ap, ap₂, ◌∙◌, arith, Bool, true, false, List, [], ◌∷◌,
  ◌++◌, map, ◌==◌, Bool-cases,
}
use qfenix.Tasks.Queue.{and_then, nothing}
use qfenix.Ufs.{UfsCommon, UfsBody, UfsEpilogue, apply_bodies, ufs_provisioning_execute}

ℕ-cases : (n : ℕ) → (n ≡ 0) ⊎ ((m : ℕ) × (n ≡ suc m))
ℕ-cases zero = inl refl
ℕ-cases (suc m) = inr (m, refl)

-- What follows what follows.
and_then_assoc :
    {S : Type 0} (f g h : S → ℕ × S) (s : S)
    → and_then f (and_then g h) s ≡ and_then (and_then f g) h s
unfolding and_then
and_then_assoc f g h s = elim (Bool-cases ((f s).0 == 0)) [
  | inl good ↦ ground (arith, good)
  | inr bad ↦ ground (arith, bad)
]

-- A message to the device; the last one says whether to commit.
pub data Part : Type 0 where
  common_part : UfsCommon → Part
  body_part : UfsBody → Part
  last_part : UfsEpilogue → Bool → Part

-- All parts, once.
abbrev pub round : UfsCommon → List UfsBody → UfsEpilogue → Bool → List Part
round c bodies e commit = common_part c ∷ (map body_part bodies ++ last_part e commit ∷ [])

module _ {S : Type 0} (apply_ufs_common : UfsCommon → S → ℕ × S)
    (apply_ufs_body : UfsBody → S → ℕ × S)
    (apply_ufs_epilogue : UfsEpilogue → Bool → S → ℕ × S) where
  abbrev send : Part → S → ℕ × S
  send (common_part c) = apply_ufs_common c
  send (body_part b) = apply_ufs_body b
  send (last_part e commit) = apply_ufs_epilogue e commit

  -- The messages are sent in their order, up to the first that is refused, whose result is returned.
  abbrev pub until_refused : List Part → S → ℕ × S
  until_refused [] s = (0, s)
  until_refused (p ∷ rest) s = elim ((send p s).0) [
    | zero ↦ until_refused rest (send p s).1
    | suc n ↦ (suc n, (send p s).1)
  ]

  until_refused-cons :
      (p : Part) (rest : List Part) (s : S)
      → and_then (send p) (until_refused rest) s ≡ until_refused (p ∷ rest) s
  unfolding and_then
  until_refused-cons p rest s = elim (ℕ-cases (send p s).0) [
    | inl taken ↦ ground (arith, taken)
    | inr (n, refused) ↦ ground (arith, refused)
  ]

  single : (p : Part) (s : S) → send p s ≡ until_refused (p ∷ []) s
  single p s = elim (ℕ-cases (send p s).0) [
    | inl taken ↦ ground (arith, taken)
    | inr (n, refused) ↦ ground (arith, refused)
  ]

  until_refused-append :
      (xs ys : List Part) (s : S)
      → and_then (until_refused xs) (until_refused ys) s ≡ until_refused (xs ++ ys) s
  unfolding and_then
  until_refused-append [] ys s = refl
  until_refused-append (p ∷ xs) ys s = elim (ℕ-cases (send p s).0) [
    | inl taken ↦ ground (arith, taken, until_refused-append xs ys (send p s).1)
    | inr (n, refused) ↦ ground (arith, refused)
  ]

  apply_bodies-eq :
      (bodies : List UfsBody)
      → apply_bodies apply_ufs_common apply_ufs_body apply_ufs_epilogue bodies
        ≡ until_refused (map body_part bodies)
  unfolding apply_bodies nothing
  apply_bodies-eq [] = refl
  apply_bodies-eq (b ∷ rest) =
      ap (λ (k : S → ℕ × S). and_then (apply_ufs_body b) k) (apply_bodies-eq rest)
      ∙ fun_ext (until_refused-cons (body_part b) (map body_part rest))

  module _ (c : UfsCommon) (bodies : List UfsBody) (e : UfsEpilogue) where
    round_eq :
        (commit : Bool)
        → and_then (apply_ufs_common c) (
            and_then
              (apply_bodies apply_ufs_common apply_ufs_body apply_ufs_epilogue bodies)
              (apply_ufs_epilogue e commit))
          ≡ until_refused (round c bodies e commit)
    round_eq commit =
        ap (λ (k : S → ℕ × S). and_then (apply_ufs_common c) k)
          (ap₂ (λ (k k' : S → ℕ × S). and_then k k') (apply_bodies-eq bodies) (last_eq commit)
            ∙ fun_ext (until_refused-append (map body_part bodies) (last_part e commit ∷ [])))
        ∙ fun_ext
            (until_refused-cons (common_part c) (map body_part bodies ++ last_part e commit ∷ []))
      where
        last_eq : (b : Bool) → apply_ufs_epilogue e b ≡ until_refused (last_part e b ∷ [])
        last_eq b = fun_ext (single (last_part e b))

    -- The device gets the common parameters, each LUN and the closing tag without a commit, and then
    -- the same again with the commit, each part only if it took all before it; the first result
    -- other than 0 is returned.
    pub ufs_provisioning_execute-until_refused :
        (s : S)
        → ufs_provisioning_execute apply_ufs_common apply_ufs_body apply_ufs_epilogue c bodies e s
          ≡ until_refused (round c bodies e false ++ round c bodies e true) s
    unfolding ufs_provisioning_execute
    ufs_provisioning_execute-until_refused s =
        let d = apply_ufs_common c in
        let l = apply_bodies apply_ufs_common apply_ufs_body apply_ufs_epilogue bodies in
        let f = apply_ufs_epilogue e false in
        let t = and_then d (and_then l (apply_ufs_epilogue e true)) in
        ap (λ (k : S → ℕ × S). and_then d k s) (fun_ext λ x. and_then_assoc l f t x)
        ∙ and_then_assoc d (and_then l f) t s
        ∙ ap₂ (λ (k k' : S → ℕ × S). and_then k k' s) (round_eq false) (round_eq true)
        ∙ until_refused-append (round c bodies e false) (round c bodies e true) s
