-- ===== src/Link/Post.antt =====
-- Postconditions of steps, one rule for each way to build a step.
use qfenix.Common.{◌≡◌, refl, arith, Bool, true, false, Option, none, some}
use qfenix.Link.{Link, Outcome, Exec, ok, aborted, exited, fault, stuck, pure, ◌>>=◌, continue}

-- If the step returns, then `Q` holds of its result and of what it leaves.
pub record Post {A : Type 0} (m : Exec A) (l : Link) (Q : A → Link → Type 0) : Type 0 where
  pub holds : (a : A) → (m l).0 ≡ ok a → Q a (m l).1

module _ {A : Type 0} (Q : A → Link → Type 0) where
  pub Post-pure : (a : A) (l : Link) → Q a l → Post (pure a) l Q
  Post-pure a l h = record { holds = λ b e. rw (← ok_injective a b e) h }
    where
      ok_injective : (x y : A) → ok x ≡ ok y → x ≡ y
      ok_injective x y e = cc

  pub Post-bind :
      {B : Type 0} (m : Exec B) (f : B → Exec A) (l : Link)
      → ((b : B) → (m l).0 ≡ ok b → Post (f b) (m l).1 Q)
      → Post (m >>= f) l Q
  Post-bind {B} m f l next = record { holds = go (m l).0 (m l).1 next }
    where
      go :
          (r : Outcome B) (l' : Link)
          → ((b : B) → r ≡ ok b → Post (f b) l' Q)
          → (a : A) → (continue r f l').0 ≡ ok a
          → Q a (continue r f l').1
      go (ok b) l' k a e = (k b refl).holds a e
      go aborted l' k a e = absurd (ground arith)
      go exited l' k a e = absurd (ground arith)
      go fault l' k a e = absurd (ground arith)
      go stuck l' k a e = absurd (ground arith)

  pub Post-choice :
      (b : Bool) (m n : Exec A) (l : Link)
      → (b ≡ true → Post m l Q)
      → (b ≡ false → Post n l Q)
      → Post (elim b [ true ↦ m | false ↦ n ]) l Q
  Post-choice true m n l h k = h refl
  Post-choice false m n l h k = k refl

  pub Post-option :
      {X : Type 0} (o : Option X) (n : Exec A) (f : X → Exec A) (l : Link)
      → Post n l Q
      → ((x : X) → o ≡ some x → Post (f x) l Q)
      → Post (elim o [ none ↦ n | some x ↦ f x ]) l Q
  Post-option none n f l h k = h
  Post-option (some x) n f l h k = k x refl
