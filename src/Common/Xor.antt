-- ===== src/Common/Xor.antt =====
-- Laws of exclusive or, by the digits.
use mathlib.Core.Path.{◌≡◌, ◌∙◌, sym, ap, ap₂}
use mathlib.Core.Logic.{◌⊎◌}
use Prim.Native.Nat.{ℕ, zero, suc, ◌+◌, ◌*◌, ◌/◌, ◌%◌, ◌≤◌, ◌<◌, bit_xor, differ, bit_xor-bitwise}
use native.Mathlib.Omega.{arith}
use qfenix.Common.Bits.{xor-IsDigitwise}

lowest : (a b : ℕ) → bit_xor a b ≡ bit_xor (a / 2) (b / 2) * 2 + differ (a % 2) (b % 2)
lowest = xor-IsDigitwise.lowest

digit-lt : (a b : ℕ) → differ (a % 2) (b % 2) < 2
digit-lt a b = xor-IsDigitwise.digit (a % 2) (b % 2) (omega arith) (omega arith)

pub digit_cases : (a : ℕ) → (a % 2 ≡ 0) ⊎ (a % 2 ≡ 1)
digit_cases a = omega arith

differ_comm : (a b : ℕ) → differ (a % 2) (b % 2) ≡ differ (b % 2) (a % 2)
differ_comm a b = ground (arith, digit_cases a, digit_cases b)

differ_self : (a : ℕ) → differ (a % 2) (a % 2) ≡ 0
differ_self a = ground (arith, digit_cases a)

differ_assoc :
    (a b c : ℕ) → differ (differ (a % 2) (b % 2)) (c % 2) ≡ differ (a % 2) (differ (b % 2) (c % 2))
differ_assoc a b c = ground (arith, digit_cases a, digit_cases b, digit_cases c)

pub div-xor : (a b : ℕ) → bit_xor a b / 2 ≡ bit_xor (a / 2) (b / 2)
div-xor a b = omega (arith, lowest a b, digit-lt a b)

pub mod-xor : (a b : ℕ) → bit_xor a b % 2 ≡ differ (a % 2) (b % 2)
mod-xor a b = omega (arith, lowest a b, digit-lt a b)

comm_upto : (n a b : ℕ) → a ≤ n → b ≤ n → bit_xor a b ≡ bit_xor b a
comm_upto zero a b h k = let e : a ≡ b = omega arith in rw e
comm_upto (suc n) a b h k = ground (
  arith,
  lowest a b,
  lowest b a,
  differ_comm a b,
  comm_upto n (a / 2) (b / 2) (omega arith) (omega arith),
)

pub xor_comm : (a b : ℕ) → bit_xor a b ≡ bit_xor b a
xor_comm a b = comm_upto (a + b) a b (omega arith) (omega arith)

self_upto : (n a : ℕ) → a ≤ n → bit_xor a a ≡ 0
self_upto zero a h = let e : a ≡ 0 = omega arith in rw e
self_upto (suc n) a h = ground (arith, lowest a a, differ_self a, self_upto n (a / 2) (omega arith))

pub xor_self : (a : ℕ) → bit_xor a a ≡ 0
xor_self a = self_upto a a (omega arith)

assoc_of_halves :
    (a b c : ℕ)
    → bit_xor (bit_xor (a / 2) (b / 2)) (c / 2) ≡ bit_xor (a / 2) (bit_xor (b / 2) (c / 2))
    → bit_xor (bit_xor a b) c ≡ bit_xor a (bit_xor b c)
assoc_of_halves a b c higher =
    lowest (bit_xor a b) c
    ∙ ap₂ (λ (x y : ℕ). x * 2 + y) (rw (div-xor a b, div-xor b c) higher)
        (rw (mod-xor a b, mod-xor b c) (differ_assoc a b c))
    ∙ sym (lowest a (bit_xor b c))

assoc_upto :
    (n a b c : ℕ) → a ≤ n → b ≤ n → c ≤ n → bit_xor (bit_xor a b) c ≡ bit_xor a (bit_xor b c)
assoc_upto zero a b c h k l =
    let ea : a ≡ 0 = omega arith in
    let eb : b ≡ 0 = omega arith in let ec : c ≡ 0 = omega arith in rw (ea, eb, ec)
assoc_upto (suc n) a b c h k l =
    assoc_of_halves a b c
      (assoc_upto n (a / 2) (b / 2) (c / 2) (omega arith) (omega arith) (omega arith))

pub xor_assoc : (a b c : ℕ) → bit_xor (bit_xor a b) c ≡ bit_xor a (bit_xor b c)
xor_assoc a b c = assoc_upto (a + b + c) a b c (omega arith) (omega arith) (omega arith)

pub zero-xor : (a : ℕ) → bit_xor 0 a ≡ a
zero-xor a = bit_xor-bitwise 0 a

pub xor-zero : (a : ℕ) → bit_xor a 0 ≡ a
xor-zero a = xor_comm a 0 ∙ zero-xor a

-- Exclusive or by the same number twice changes nothing.
pub xor_twice : (a b : ℕ) → bit_xor a (bit_xor a b) ≡ b
xor_twice a b = sym (xor_assoc a a b) ∙ ap (λ (t : ℕ). bit_xor t b) (xor_self a) ∙ zero-xor b

pub xor_cancel : (a b c : ℕ) → bit_xor a b ≡ bit_xor a c → b ≡ c
xor_cancel a b c e = sym (xor_twice a b) ∙ ap (bit_xor a) e ∙ xor_twice a c

-- The middle two of four change places.
pub xor_interchange :
    (a b c d : ℕ) → bit_xor (bit_xor a b) (bit_xor c d) ≡ bit_xor (bit_xor a c) (bit_xor b d)
xor_interchange a b c d =
    xor_assoc a b (bit_xor c d)
    ∙ ap (bit_xor a)
        (sym (xor_assoc b c d) ∙ ap (λ (t : ℕ). bit_xor t d) (xor_comm b c) ∙ xor_assoc c b d)
    ∙ sym (xor_assoc a c (bit_xor b d))

pub xor_undo : (a b : ℕ) → bit_xor (bit_xor a b) b ≡ a
xor_undo a b = xor_assoc a b b ∙ ap (bit_xor a) (xor_self b) ∙ xor-zero a
