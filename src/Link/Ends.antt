-- ===== src/Link/Ends.antt =====
-- Steps that end, and what they use up of the results of reads.
use qfenix.Common.{
  ℕ, ◌-◌, ◌≤◌, ◌<◌, ◌≡◌, ◌≢◌, refl, arith, Bool, true, false, Option, none, some, List,
}
use qfenix.Common.{length, if◌then◌else◌}
use qfenix.Link.{
  Link, Outcome, Exec, ok, aborted, exited, fault, stuck, pure, fail, assert, acquire,
}
use qfenix.Link.{qdl_read, qdl_write, ◌>>=◌, continue, bytes_left}

-- A step that ends within its fuel, and uses up results of reads only.
pub record Ends {A : Type 0} (m : Exec A) (l : Link) : Type 0 where
  pub ends : (m l).0 ≢ stuck
  pub uses : length (m l).1.incoming ≤ length l.incoming
  pub bytes : bytes_left (m l).1.incoming ≤ bytes_left l.incoming

pub Ends-pure : {A : Type 0} (a : A) (l : Link) → Ends (pure a) l
Ends-pure a l = record { ends = λ e. ground arith; uses = omega arith; bytes = omega arith }

pub Ends-fault : {A : Type 0} (l : Link) → Ends {A = A} (fail fault) l
Ends-fault l = record { ends = λ e. ground arith; uses = omega arith; bytes = omega arith }

Ends-continue :
    {A B : Type 0} (r : Outcome A) (f : A → Exec B) (l l' : Link)
    → r ≢ stuck
    → length l'.incoming ≤ length l.incoming
    → bytes_left l'.incoming ≤ bytes_left l.incoming
    → ((a : A) → r ≡ ok a → Ends (f a) l')
    → ((continue r f l').0 ≢ stuck)
      × (length (continue r f l').1.incoming ≤ length l.incoming)
      × (bytes_left (continue r f l').1.incoming ≤ bytes_left l.incoming)
Ends-continue (ok a) f l l' h k b next =
    let n = next a refl in (n.ends, omega (arith, n.uses), omega (arith, n.bytes))
Ends-continue aborted f l l' h k b next = (λ e. ground arith, k, b)
Ends-continue exited f l l' h k b next = (λ e. ground arith, k, b)
Ends-continue fault f l l' h k b next = (λ e. ground arith, k, b)
Ends-continue stuck f l l' h k b next = absurd (h refl)

pub Ends-bind :
    {A B : Type 0} (m : Exec A) (f : A → Exec B) (l : Link)
    → Ends m l
    → ((a : A) → (m l).0 ≡ ok a → Ends (f a) (m l).1)
    → Ends (m >>= f) l
Ends-bind m f l h next =
    let both = Ends-continue (m l).0 f l (m l).1 h.ends h.uses h.bytes next in
    record { ends = both.0; uses = both.1; bytes = both.2 }

pub Ends-qdl_write : (bytes : List ℕ) (l : Link) → Ends (qdl_write bytes) l
unfolding qdl_write
Ends-qdl_write bytes l = record {
  ends = λ e. ground arith;
  uses = ground arith;
  bytes = ground arith;
}

pub Ends-qdl_read : (n : ℕ) (l : Link) → Ends (qdl_read n) l
unfolding qdl_read bytes_left
Ends-qdl_read n l = record { ends = λ e. ground arith; uses = ground arith; bytes = ground arith }

-- A read that brings bytes uses up a result.
pub read_uses :
    (n : ℕ) (l : Link) (bytes : List ℕ)
    → (qdl_read n l).0 ≡ ok (some bytes)
    → length (qdl_read n l).1.incoming < length l.incoming
unfolding qdl_read
read_uses n l bytes h = ground arith

pub Ends-acquire : (l : Link) → Ends acquire l
unfolding acquire
Ends-acquire l = record { ends = λ e. ground arith; uses = ground arith; bytes = ground arith }

pub Ends-assert : (b : Bool) (l : Link) → Ends (assert b) l
unfolding assert
Ends-assert true l = Ends-pure tt l
Ends-assert false l = record { ends = λ e. ground arith; uses = omega arith; bytes = omega arith }

-- A choice ends if both of its branches do.
pub Ends-choice :
    {A : Type 0} (b : Bool) (m n : Exec A) (l : Link)
    → (b ≡ true → Ends m l)
    → (b ≡ false → Ends n l)
    → Ends (elim b [ true ↦ m | false ↦ n ]) l
Ends-choice true m n l h k = h refl
Ends-choice false m n l h k = k refl

pub Ends-if :
    {A : Type 0} (b : Bool) (m n : Exec A) (l : Link)
    → Ends m l
    → Ends n l
    → Ends (if b then m else n) l
Ends-if true m n l h k = h
Ends-if false m n l h k = k

pub Ends-option :
    {X A : Type 0} (o : Option X) (n : Exec A) (f : X → Exec A) (l : Link)
    → Ends n l
    → ((x : X) → o ≡ some x → Ends (f x) l)
    → Ends (elim o [ none ↦ n | some x ↦ f x ]) l
Ends-option none n f l h k = h
Ends-option (some x) n f l h k = k x refl

-- Any read uses up a result, if there is one.
pub read_drops : (n : ℕ) (l : Link) → length (qdl_read n l).1.incoming ≤ length l.incoming - 1
unfolding qdl_read
read_drops n l = ground arith
