-- ===== src/Gpt/Find/Laws.antt =====
-- gpt.c: which partition is found.
use qfenix.Common.{
  ℕ, ◌≡◌, ◌⊎◌, inl, inr, refl, sym, ap, ap₂, ◌∙◌, arith, Bool, true, false, Option, none, some,
  List, [], ◌∷◌, ◌++◌, All, Bool-cases, ==_refl, ◌==◌,
}
use qfenix.Gpt.Table.{GptPartition, same_bytes, loaded, gpt_load_tables}
use qfenix.Gpt.Find.{Place, place_of, is_candidate, find_loop, result, gpt_find_by_name}

-- A partition of that name, on the physical partition that is asked for, if one is.
abbrev pub IsWanted : Option ℕ → List ℕ → GptPartition → Type 0
IsWanted phys name p = (p.name ≡ name) × ((phys ≡ none) ⊎ (phys ≡ some p.partition))

-- What is answered for a table, and where: nothing; the first partition that is wanted, without
-- another one of the name behind it on the same physical partition; or a failure for the other one,
-- with the places of the first.
pub data Answers (name : List ℕ) (place : Place) (table : List GptPartition)
    : Bool → Place → Type 0 where
  missing :
      All (λ p. ¬ (IsWanted place.phys_partition name p)) table
      → Answers name place table false place
  single :
      (before : List GptPartition) (p : GptPartition) (after : List GptPartition)
      → table ≡ before ++ p ∷ after
      → All (λ q. ¬ (IsWanted place.phys_partition name q)) before
      → IsWanted place.phys_partition name p
      → All (λ q. ¬ ((q.name ≡ name) × (q.partition ≡ p.partition))) after
      → Answers name place table true (record {
        phys_partition = some p.partition;
        start_sector = p.start_sector;
        num_sectors = p.num_sectors;
      })
  doubled :
      (before : List GptPartition) (p : GptPartition) (between : List GptPartition)
      → (q : GptPartition) (after : List GptPartition)
      → table ≡ before ++ p ∷ (between ++ q ∷ after)
      → All (λ r. ¬ (IsWanted place.phys_partition name r)) before
      → IsWanted place.phys_partition name p
      → q.name ≡ name
      → q.partition ≡ p.partition
      → Answers name place table false (record {
        phys_partition = some p.partition;
        start_sector = p.start_sector;
        num_sectors = p.num_sectors;
      })

same_bytes-eq : (xs ys : List ℕ) → same_bytes xs ys ≡ true → xs ≡ ys
unfolding same_bytes
same_bytes-eq [] [] e = refl
same_bytes-eq [] (d ∷ ys) e = absurd (ground (arith, e))
same_bytes-eq (c ∷ xs) [] e = absurd (ground (arith, e))
same_bytes-eq (c ∷ xs) (d ∷ ys) e =
    let heads : c ≡ d = ground (arith, e) in
    let tails : same_bytes xs ys ≡ true = ground (arith, e) in
    ap₂ (λ (x : ℕ) (xs' : List ℕ). x ∷ xs') heads (same_bytes-eq xs ys tails)

same_bytes_self : (xs : List ℕ) → same_bytes xs xs ≡ true
unfolding same_bytes
same_bytes_self [] = refl
same_bytes_self (c ∷ xs) = ground (arith, ==_refl c, same_bytes_self xs)

is_candidate-true :
    (phys : Option ℕ) (name : List ℕ) (p : GptPartition)
    → is_candidate phys name p ≡ true
    → IsWanted phys name p
unfolding is_candidate
is_candidate-true none name p e = (same_bytes-eq p.name name e, inl refl)
is_candidate-true (some k) name p e =
    let there : p.partition ≡ k = ground (arith, e) in
    let named : same_bytes p.name name ≡ true = ground (arith, e) in
    (same_bytes-eq p.name name named, inr (ap some (sym there)))

is_candidate-false :
    (phys : Option ℕ) (name : List ℕ) (p : GptPartition)
    → is_candidate phys name p ≡ false
    → ¬ (IsWanted phys name p)
unfolding is_candidate
is_candidate-false none name p e (named, where_it_is) =
    let self : same_bytes p.name name ≡ true =
      ap (λ (xs : List ℕ). same_bytes xs name) named ∙ same_bytes_self name in
    ground (arith, e, self)
is_candidate-false (some k) name p e (named, inl nowhere) = ground (arith, nowhere)
is_candidate-false (some k) name p e (named, inr there) =
    let self : same_bytes p.name name ≡ true =
      ap (λ (xs : List ℕ). same_bytes xs name) named ∙ same_bytes_self name in
    let here : k ≡ p.partition = ground (arith, there) in
    let same : (p.partition == k) ≡ true = ground (arith, here) in ground (arith, e, self, same)

-- What the loop makes of the partitions behind a match.
data Rest (name : List ℕ) (k : ℕ) (rest : List GptPartition) : Bool → Type 0 where
  no_other : All (λ q. ¬ ((q.name ≡ name) × (q.partition ≡ k))) rest → Rest name k rest true
  another :
      (between : List GptPartition) (q : GptPartition) (after : List GptPartition)
      → rest ≡ between ++ q ∷ after
      → q.name ≡ name
      → q.partition ≡ k
      → Rest name k rest false

record Found (name : List ℕ) (k : ℕ) (rest : List GptPartition) (place : Place) (r : Bool × Place)
    : Type 0 where
  unique : Bool
  verdict : Rest name k rest unique
  same : r ≡ (unique, place)

Found-behind :
    (name : List ℕ) (p : GptPartition) (rest : List GptPartition) (place : Place) (k : ℕ)
    → ¬ ((p.name ≡ name) × (p.partition ≡ k))
    → (r r' : Bool × Place) → r' ≡ r
    → Found name k rest place r
    → Found name k (p ∷ rest) place r'
Found-behind name p rest place k other r r' e f = record {
  unique = f.unique;
  verdict = behind f.unique f.verdict;
  same = e ∙ f.same;
}
  where
    behind : (b : Bool) → Rest name k rest b → Rest name k (p ∷ rest) b
    behind _ (no_other none_there) = no_other (other, none_there)
    behind _ (another between q after split named there) =
        another (p ∷ between) q after (ap (◌∷◌ p) split) named there

find_loop-Found :
    (rest : List GptPartition) (name : List ℕ) (place : Place) (k : ℕ)
    → place.phys_partition ≡ some k
    → Found name k rest place (find_loop rest name place true)
unfolding find_loop
find_loop-Found [] name place k e = record { unique = true; verdict = no_other tt; same = refl }
find_loop-Found (p ∷ rest) name place k e = elim (Bool-cases (is_candidate (some k) name p)) [
  | inl is ↦
      let wanted = is_candidate-true (some k) name p is in
      let there : p.partition ≡ k = elim wanted.1 [
        | inl nowhere ↦ absurd (ground (arith, nowhere))
        | inr here ↦ ground (arith, here)
      ] in
      record {
        unique = false;
        verdict = another [] p rest refl wanted.0 there;
        same = ground (arith, e, is);
      }
  | inr isnt ↦
      let other = is_candidate-false (some k) name p isnt in
      Found-behind name p rest place k (λ h. other (h.0, inr (ap some (sym h.1))))
        (find_loop rest name place true) _ (ground (arith, e, isnt))
        (find_loop-Found rest name place k e)
]

-- The answer of the code.
pub record IsAnswered (name : List ℕ) (place : Place) (table : List GptPartition) (r : Bool × Place)
    : Type 0 where
  pub found : Bool
  pub at : Place
  pub answers : Answers name place table found at
  pub same : r ≡ (found, at)

IsAnswered-first :
    (name : List ℕ) (place : Place) (p : GptPartition) (rest : List GptPartition)
    (r r' : Bool × Place)
    → IsWanted place.phys_partition name p
    → r' ≡ r
    → Found name p.partition rest (place_of p) r
    → IsAnswered name place (p ∷ rest) r'
unfolding place_of
IsAnswered-first name place p rest r r' wanted e f = record {
  found = f.unique;
  at = place_of p;
  answers = verdict f.unique f.verdict;
  same = e ∙ f.same;
}
  where
    verdict :
        (b : Bool) → Rest name p.partition rest b → Answers name place (p ∷ rest) b (place_of p)
    verdict _ (no_other none_there) = single [] p rest refl tt wanted none_there
    verdict _ (another between q after split named there) =
        doubled [] p between q after (ap (◌∷◌ p) split) tt wanted named there

IsAnswered-behind :
    (name : List ℕ) (place : Place) (p : GptPartition) (rest : List GptPartition)
    (r r' : Bool × Place)
    → ¬ (IsWanted place.phys_partition name p)
    → r' ≡ r
    → IsAnswered name place rest r
    → IsAnswered name place (p ∷ rest) r'
IsAnswered-behind name place p rest r r' other e a = record {
  found = a.found;
  at = a.at;
  answers = behind a.found a.at a.answers;
  same = e ∙ a.same;
}
  where
    behind :
        (b : Bool) (at : Place) → Answers name place rest b at → Answers name place (p ∷ rest) b at
    behind _ _ (missing none_there) = missing (other, none_there)
    behind _ _ (single before q after split others wanted alone) =
        single (p ∷ before) q after (ap (◌∷◌ p) split) (other, others) wanted alone
    behind _ _ (doubled before q between x after split others wanted named there) =
        doubled (p ∷ before) q between x after (ap (◌∷◌ p) split) (other, others) wanted named there

find_loop-IsAnswered :
    (table : List GptPartition) (name : List ℕ) (place : Place)
    → IsAnswered name place table (find_loop table name place false)
unfolding find_loop place_of
find_loop-IsAnswered [] name place = record {
  found = false;
  at = place;
  answers = missing tt;
  same = refl;
}
find_loop-IsAnswered (p ∷ rest) name place =
    elim (Bool-cases (is_candidate place.phys_partition name p)) [
      | inl is ↦
          IsAnswered-first name place p rest (find_loop rest name (place_of p) true) _
            (is_candidate-true place.phys_partition name p is) (ground (arith, is))
            (find_loop-Found rest name (place_of p) p.partition refl)
      | inr isnt ↦
          IsAnswered-behind name place p rest (find_loop rest name place false) _
            (is_candidate-false place.phys_partition name p isnt) (ground (arith, isnt))
            (find_loop-IsAnswered rest name place)
    ]

-- With the tables loaded, the first partition of that name is found, on the physical partition that
-- is asked for if one is, and the places are that partition's; the result is a failure when there is
-- none, with the places unchanged, and when another one follows on the same physical partition.
-- Partitions of that name that follow on other physical partitions do not matter.
pub gpt_find_by_name-Answers :
    (read_sector : ℕ → ℕ → Option (List ℕ)) (sector_size fuel : ℕ) (name : List ℕ) (place : Place)
    (parts table : List GptPartition)
    → gpt_load_tables read_sector sector_size fuel parts ≡ (loaded, table)
    → (found : Bool) × ((at : Place) × (Answers name place table found at
          × (gpt_find_by_name read_sector sector_size false fuel name place parts
              ≡ (result found at, table))))
unfolding gpt_find_by_name
gpt_find_by_name-Answers read_sector sector_size fuel name place parts table e =
    let a = find_loop-IsAnswered table name place in
    let same = a.same in (a.found, (a.at, (a.answers, ground (arith, e, same))))
