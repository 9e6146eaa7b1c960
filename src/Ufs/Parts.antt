-- ===== src/Ufs/Parts.antt =====
-- ufs.c: what the tags of a file stand for, and what they add.
use qfenix.Common.{
  ℕ, ◌≡◌, ◌≢◌, ◌⊎◌, inl, inr, refl, sym, ap, ◌∙◌, arith, Bool, true, false, Option, none, some,
  ◌++◌, List, [], ◌∷◌, Option-cases, Bool-cases,
}
use mathlib.Core.List.{append_assoc, append-nil}
use qfenix.Ufs.{
  UfsAttribute, b_number_lu, lu_num, commit, no_element, other_tag, ufs_tag, is_there, load_ufs_tag,
  ufs_parse_common_params, ufs_parse_body, ufs_parse_epilogue, UfsCommon, UfsBody, UfsEpilogue,
  UfsNode, Ufs, load_ufs_nodes,
}

-- A part of the provisioning.
pub data FilePart : Type 0 where
  for_all : UfsCommon → FilePart
  for_lun : UfsBody → FilePart
  at_end : UfsEpilogue → FilePart

abbrev pub commons_of : List FilePart → List UfsCommon
commons_of [] = []
commons_of (for_all c ∷ rest) = c ∷ commons_of rest
commons_of (for_lun b ∷ rest) = commons_of rest
commons_of (at_end e ∷ rest) = commons_of rest

abbrev pub bodies_of : List FilePart → List UfsBody
bodies_of [] = []
bodies_of (for_all c ∷ rest) = bodies_of rest
bodies_of (for_lun b ∷ rest) = b ∷ bodies_of rest
bodies_of (at_end e ∷ rest) = bodies_of rest

abbrev pub epilogues_of : List FilePart → List UfsEpilogue
epilogues_of [] = []
epilogues_of (for_all c ∷ rest) = epilogues_of rest
epilogues_of (for_lun b ∷ rest) = epilogues_of rest
epilogues_of (at_end e ∷ rest) = e ∷ epilogues_of rest

abbrev pub option_list : {A : Type 0} → Option A → List A
option_list none = []
option_list (some a) = a ∷ []

module _ (strtoul : List ℕ → ℕ) where
  -- What a tag stands for, with all its attributes.
  abbrev pub IsPart : (UfsAttribute → Option (List ℕ)) → FilePart → Type 0
  IsPart a (for_all c) = (a b_number_lu ≢ none) × (ufs_parse_common_params strtoul a ≡ some c)
  IsPart a (for_lun b) =
      (a b_number_lu ≡ none) × (a lu_num ≢ none) × (ufs_parse_body strtoul a ≡ some b)
  IsPart a (at_end e) =
      (a b_number_lu ≡ none)
      × (a lu_num ≡ none)
      × (a commit ≢ none)
      × (ufs_parse_epilogue strtoul a ≡ some e)

  -- Each tag `ufs` stands for a part, in this order; other nodes do not count.
  abbrev pub Describes : List UfsNode → List FilePart → Type 0
  Describes [] parts = parts ≡ []
  Describes (no_element ∷ rest) parts = Describes rest parts
  Describes (other_tag ∷ rest) parts = Describes rest parts
  Describes (ufs_tag a ∷ rest) [] = true ≡ false
  Describes (ufs_tag a ∷ rest) (p ∷ parts) = IsPart a p × Describes rest parts

-- What parts add.
pub record Adds (parts : List FilePart) (s s' : Ufs) : Type 0 where
  pub commons : option_list s'.common ≡ option_list s.common ++ commons_of parts
  pub bodies : s'.bodies ≡ s.bodies ++ bodies_of parts
  pub epilogues : option_list s'.epilogue ≡ option_list s.epilogue ++ epilogues_of parts

record TagAdds (strtoul : List ℕ → ℕ) (a : UfsAttribute → Option (List ℕ)) (s s' : Ufs)
    : Type 0 where
  part : FilePart
  is : IsPart strtoul a part
  adds : Adds (part ∷ []) s s'

pub record NodesAdd (strtoul : List ℕ → ℕ) (nodes : List UfsNode) (s s' : Ufs) : Type 0 where
  pub parts : List FilePart
  pub describes : Describes strtoul nodes parts
  pub adds : Adds parts s s'

there_or_none : {A : Type 0} (o : Option A) → (o ≡ none) ⊎ (o ≢ none)
there_or_none none = inl refl
there_or_none (some a) = inr λ e. ground (arith, e)

module _ (strtoul : List ℕ → ℕ) (a : UfsAttribute → Option (List ℕ)) (s s' : Ufs)
    (e : load_ufs_tag strtoul a s ≡ (true, s')) where
  common-TagAdds : a b_number_lu ≢ none → TagAdds strtoul a s s'
  unfolding load_ufs_tag is_there
  common-TagAdds there = elim (Option-cases (a b_number_lu)) [
    | inl gone ↦ absurd (there gone)
    | inr (v, is) ↦ elim (Option-cases s.common) [
      | inr (c, second) ↦ absurd (ground (arith, e, is, second))
      | inl first ↦ elim (Option-cases (ufs_parse_common_params strtoul a)) [
        | inl bad ↦ absurd (ground (arith, e, is, first, bad))
        | inr (c, good) ↦
            let same : record s { common = some c } ≡ s' = ground (arith, e, is, first, good) in
            record {
              part = for_all c;
              is = (there, good);
              adds = record {
                commons =
                    ap (λ (r : Ufs). option_list r.common) (sym same)
                    ∙ ap (λ (o : Option UfsCommon). option_list o ++ c ∷ []) (sym first);
                bodies = ap (λ (r : Ufs). r.bodies) (sym same) ∙ sym (append-nil s.bodies);
                epilogues =
                    ap (λ (r : Ufs). option_list r.epilogue) (sym same)
                    ∙ sym (append-nil (option_list s.epilogue));
              };
            }
      ]
    ]
  ]

  body-TagAdds : a b_number_lu ≡ none → a lu_num ≢ none → TagAdds strtoul a s s'
  unfolding load_ufs_tag is_there
  body-TagAdds other there = elim (Option-cases (a lu_num)) [
    | inl gone ↦ absurd (there gone)
    | inr (v, is) ↦ elim (Option-cases (ufs_parse_body strtoul a)) [
      | inl bad ↦ absurd (ground (arith, e, other, is, bad))
      | inr (b, good) ↦
          let same : record s { bodies = s.bodies ++ b ∷ [] } ≡ s' =
            ground (arith, e, other, is, good) in
          record {
            part = for_lun b;
            is = (other, there, good);
            adds = record {
              commons =
                  ap (λ (r : Ufs). option_list r.common) (sym same)
                  ∙ sym (append-nil (option_list s.common));
              bodies = ap (λ (r : Ufs). r.bodies) (sym same);
              epilogues =
                  ap (λ (r : Ufs). option_list r.epilogue) (sym same)
                  ∙ sym (append-nil (option_list s.epilogue));
            };
          }
    ]
  ]

  last-TagAdds : a b_number_lu ≡ none → a lu_num ≡ none → TagAdds strtoul a s s'
  unfolding load_ufs_tag is_there
  last-TagAdds other other' = elim (Option-cases (a commit)) [
    | inl gone ↦ absurd (ground (arith, e, other, other', gone))
    | inr (v, is) ↦ elim (Option-cases s.epilogue) [
      | inr (l, second) ↦ absurd (ground (arith, e, other, other', is, second))
      | inl first ↦ elim (Option-cases (ufs_parse_epilogue strtoul a)) [
        | inl bad ↦ absurd (ground (arith, e, other, other', is, first, bad))
        | inr (l, good) ↦
            let same : record s { epilogue = some l } ≡ s' =
              ground (arith, e, other, other', is, first, good) in
            record {
              part = at_end l;
              is = (other, other', (λ g. absurd (ground (arith, sym is ∙ g))), good);
              adds = record {
                commons =
                    ap (λ (r : Ufs). option_list r.common) (sym same)
                    ∙ sym (append-nil (option_list s.common));
                bodies = ap (λ (r : Ufs). r.bodies) (sym same) ∙ sym (append-nil s.bodies);
                epilogues =
                    ap (λ (r : Ufs). option_list r.epilogue) (sym same)
                    ∙ ap (λ (o : Option UfsEpilogue). option_list o ++ l ∷ []) (sym first);
              };
            }
      ]
    ]
  ]

  load_ufs_tag-TagAdds : TagAdds strtoul a s s'
  load_ufs_tag-TagAdds = elim (there_or_none (a b_number_lu)) [
    | inr there ↦ common-TagAdds there
    | inl other ↦ elim (there_or_none (a lu_num)) [
      | inr there ↦ body-TagAdds other there
      | inl other' ↦ last-TagAdds other other'
    ]
  ]

commons_of-cons :
    (p : FilePart) (ps : List FilePart) → commons_of (p ∷ []) ++ commons_of ps ≡ commons_of (p ∷ ps)
commons_of-cons (for_all c) ps = refl
commons_of-cons (for_lun b) ps = refl
commons_of-cons (at_end e) ps = refl

bodies_of-cons :
    (p : FilePart) (ps : List FilePart) → bodies_of (p ∷ []) ++ bodies_of ps ≡ bodies_of (p ∷ ps)
bodies_of-cons (for_all c) ps = refl
bodies_of-cons (for_lun b) ps = refl
bodies_of-cons (at_end e) ps = refl

epilogues_of-cons :
    (p : FilePart) (ps : List FilePart)
    → epilogues_of (p ∷ []) ++ epilogues_of ps ≡ epilogues_of (p ∷ ps)
epilogues_of-cons (for_all c) ps = refl
epilogues_of-cons (for_lun b) ps = refl
epilogues_of-cons (at_end e) ps = refl

-- What is added in two steps.
two_steps :
    {A : Type 0} (before middle after here there both : List A)
    → middle ≡ before ++ here
    → after ≡ middle ++ there
    → here ++ there ≡ both
    → after ≡ before ++ both
two_steps {A = A} before middle after here there both first second joined =
    second
    ∙ ap (λ (xs : List A). xs ++ there) first
    ∙ append_assoc before here there
    ∙ ap (λ (xs : List A). before ++ xs) joined

Adds-cons :
    (p : FilePart) (ps : List FilePart) (s t u : Ufs)
    → Adds (p ∷ []) s t
    → Adds ps t u
    → Adds (p ∷ ps) s u
Adds-cons p ps s t u first rest = record {
  commons = two_steps _ _ _ _ _ _ first.commons rest.commons (commons_of-cons p ps);
  bodies = two_steps _ _ _ _ _ _ first.bodies rest.bodies (bodies_of-cons p ps);
  epilogues = two_steps _ _ _ _ _ _ first.epilogues rest.epilogues (epilogues_of-cons p ps);
}

pub load_ufs_nodes_add :
    (strtoul : List ℕ → ℕ) (nodes : List UfsNode) (s s' : Ufs)
    → load_ufs_nodes strtoul nodes s ≡ (true, s')
    → NodesAdd strtoul nodes s s'
unfolding load_ufs_nodes
load_ufs_nodes_add strtoul [] s s' e =
    let same : s ≡ s' = ground (arith, e) in
    record {
      parts = [];
      describes = refl;
      adds = record {
        commons =
            ap (λ (r : Ufs). option_list r.common) (sym same)
            ∙ sym (append-nil (option_list s.common));
        bodies = ap (λ (r : Ufs). r.bodies) (sym same) ∙ sym (append-nil s.bodies);
        epilogues =
            ap (λ (r : Ufs). option_list r.epilogue) (sym same)
            ∙ sym (append-nil (option_list s.epilogue));
      };
    }
load_ufs_nodes_add strtoul (no_element ∷ rest) s s' e =
    let more = load_ufs_nodes_add strtoul rest s s' e in
    record { parts = more.parts; describes = more.describes; adds = more.adds }
load_ufs_nodes_add strtoul (other_tag ∷ rest) s s' e =
    let more = load_ufs_nodes_add strtoul rest s s' e in
    record { parts = more.parts; describes = more.describes; adds = more.adds }
load_ufs_nodes_add strtoul (ufs_tag a ∷ rest) s s' e =
    elim (Bool-cases (load_ufs_tag strtoul a s).0) [
      | inr bad ↦ absurd (ground (arith, e, bad))
      | inl good ↦
          let t = (load_ufs_tag strtoul a s).1 in
          let here : load_ufs_tag strtoul a s ≡ (true, t) = ap (λ (b : Bool). (b, t)) good in
          let tag = load_ufs_tag-TagAdds strtoul a s t here in
          let more = load_ufs_nodes_add strtoul rest t s' (ground (arith, e, good)) in
          record {
            parts = tag.part ∷ more.parts;
            describes = (tag.is, more.describes);
            adds = Adds-cons tag.part more.parts s t s' tag.adds more.adds;
          }
    ]
