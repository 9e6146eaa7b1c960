-- ===== src/Link.antt =====
-- What the programs do to their surroundings (io.c and the system's calls): messages to and from
-- the device, memory that is asked for, files that are opened and written. Their outcomes are
-- scripts that are consumed in order.
pub mod Ends
pub mod Post
use qfenix.Common.{
  ℕ, zero, suc, ◌+◌, Bool, true, false, Option, none, some, List, [], ◌∷◌, ◌++◌, length, take,
}

pub record Link : Type 0 where
  -- Results of later calls of `qdl_read`; when they are used up, a read times out.
  pub incoming : List (Option (List ℕ))
  -- Results of later calls of `qdl_write`; when they are used up, all is written.
  pub accepted : List (Option ℕ)
  -- Whether later calls of `malloc` and `open` succeed; when used up, they do.
  pub granted : List Bool
  -- Results of later calls of `write` on a file; when they are used up, all is written.
  pub stored : List (Option ℕ)
  -- What was sent to the device, and what was handed to `write`, oldest first.
  pub sent : List (List ℕ)
  pub files : List (List ℕ × List ℕ)

-- How a call may end: with a value, by a failed `assert`, by `err(1, …)`, by an access outside
-- an object, or, in the model, by a loop that is out of fuel.
pub data Outcome (A : Type 0) : Type 0 where
  ok : A → Outcome A
  aborted exited fault stuck : Outcome A

abbrev pub Exec : Type 0 → Type 0
Exec A = Link → Outcome A × Link

abbrev pub continue : {A B : Type 0} → Outcome A → (A → Exec B) → Exec B
continue (ok a) f l = f a l
continue aborted f l = (aborted, l)
continue exited f l = (exited, l)
continue fault f l = (fault, l)
continue stuck f l = (stuck, l)

infixl 5 ◌>>=◌ ◌>>◌
abbrev pub ◌>>=◌ : {A B : Type 0} → Exec A → (A → Exec B) → Exec B
◌>>=◌ m f l = let (r, l') = m l in continue r f l'

abbrev pub ◌>>◌ : {A B : Type 0} → Exec A → Exec B → Exec B
m >> n = m >>= λ _. n

abbrev pub pure : {A : Type 0} → A → Exec A
pure a l = (ok a, l)

abbrev pub fail : {A : Type 0} → Outcome A → Exec A
fail o l = (o, l)

unfoldable pub assert : Bool → Exec (Unit {0})
assert true = pure tt
assert false = fail aborted

-- A read delivers at most `len` bytes; `none` is a negative result.
unfoldable pub qdl_read : ℕ → Exec (Option (List ℕ))
qdl_read len l = elim l.incoming [
  | [] ↦ (ok none, l)
  | none ∷ rest ↦ (ok none, record l { incoming = rest })
  | some bytes ∷ rest ↦ (ok (some (take len bytes)), record l { incoming = rest })
]

unfoldable pub qdl_write : List ℕ → Exec (Option ℕ)
qdl_write bytes l = elim l.accepted [
  | [] ↦ (ok (some (length bytes)), record l { sent = l.sent ++ bytes ∷ [] })
  | n ∷ rest ↦ (ok n, record l { accepted = rest; sent = l.sent ++ bytes ∷ [] })
]

-- `malloc` or `open`.
unfoldable pub acquire : Exec Bool
acquire l = elim l.granted [ [] ↦ (ok true, l) | b ∷ rest ↦ (ok b, record l { granted = rest }) ]

-- All bytes that the reads can still bring.
unfoldable pub bytes_left : List (Option (List ℕ)) → ℕ
bytes_left [] = 0
bytes_left (none ∷ rest) = bytes_left rest
bytes_left (some bytes ∷ rest) = length bytes + bytes_left rest
