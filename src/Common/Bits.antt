-- ===== src/Common/Bits.antt =====
-- Bit operations of C as arithmetic: the law of the lowest digit, and what follows by fields.
use Prim.Native.Nat.{ℕ, zero, suc, ◌+◌, ◌-◌, ◌*◌, ◌/◌, ◌%◌, ◌^◌, ◌≤◌, ◌<◌, min, max}
use Prim.Native.Nat.{bit_and, bit_or, bit_xor, digits, bitwise, differ}
use Prim.Native.Nat.{bit_and-bitwise, bit_or-bitwise, bit_xor-bitwise}
use mathlib.Core.Path.{◌≡◌, refl, ap, ◌∙◌}
use mathlib.Core.Logic.{◌⊎◌}
use mathlib.Core.Bool.{Bool, true, ◌&&◌}
use qfenix.Common.Tests.{◌==◌}
use native.Mathlib.Nat.{pow-suc, div-add-mod', mod-lt, add-mul-mod_self_right, mod-eq_of_lt}
use native.Mathlib.Omega.{arith}

-- Two digits' worth of fuel or more give the same result.
module _ (z : ℕ → ℕ) (f : ℕ → ℕ → ℕ) where
  digits_enough : (n m a b : ℕ) → a ≤ n → a ≤ m → digits z f n a b ≡ digits z f m a b
  digits_enough zero zero a b p q = refl
  digits_enough zero (suc m) zero b p q = refl
  digits_enough zero (suc m) (suc a) b p q = absurd (omega arith)
  digits_enough (suc n) zero zero b p q = refl
  digits_enough (suc n) zero (suc a) b p q = absurd (omega arith)
  digits_enough (suc n) (suc m) zero b p q = refl
  digits_enough (suc n) (suc m) (suc a) b p q =
      rw (digits_enough n m (suc a / 2) (b / 2) (omega arith) (omega arith))

  bitwise_lowest :
      (a b : ℕ)
      → bitwise z f (suc a) b ≡ bitwise z f (suc a / 2) (b / 2) * 2 + f (suc a % 2) (b % 2)
  bitwise_lowest a b =
      omega (arith, digits_enough a (suc a / 2) (suc a / 2) (b / 2) (omega arith) (omega arith))

-- What the lemmas on fields need of an operation: how it treats the lowest digit.
pub record IsDigitwise (op f : ℕ → ℕ → ℕ) : Type 0 where
  pub lowest : (a b : ℕ) → op a b ≡ op (a / 2) (b / 2) * 2 + f (a % 2) (b % 2)
  pub digit : (a b : ℕ) → a < 2 → b < 2 → f a b < 2
  pub zeros : op 0 0 ≡ 0

or_lowest : (a b : ℕ) → bit_or a b ≡ bit_or (a / 2) (b / 2) * 2 + max (a % 2) (b % 2)
or_lowest zero b = simp bit_or-bitwise (omega arith)
or_lowest (suc a) b = simp bit_or-bitwise (bitwise_lowest (λ y. y) max a b)

and_lowest : (a b : ℕ) → bit_and a b ≡ bit_and (a / 2) (b / 2) * 2 + min (a % 2) (b % 2)
and_lowest zero b = simp bit_and-bitwise (omega arith)
and_lowest (suc a) b = simp bit_and-bitwise (bitwise_lowest (λ y. 0) min a b)

xor_lowest : (a b : ℕ) → bit_xor a b ≡ bit_xor (a / 2) (b / 2) * 2 + differ (a % 2) (b % 2)
xor_lowest zero b = simp bit_xor-bitwise (omega arith)
xor_lowest (suc a) b = simp bit_xor-bitwise (bitwise_lowest (λ y. y) differ a b)

digit_cases : (a : ℕ) → a < 2 → (a ≡ 0) ⊎ (a ≡ 1)
digit_cases a h = omega arith

differ-lt : (a b : ℕ) → a < 2 → b < 2 → differ a b < 2
differ-lt zero b h k = k
differ-lt (suc zero) zero h k = omega arith
differ-lt (suc zero) (suc b) h k = omega arith
differ-lt (suc (suc a)) b h k = absurd (omega arith)

pub or-IsDigitwise : IsDigitwise bit_or max
or-IsDigitwise = record { lowest = or_lowest; digit = λ a b h k. omega arith; zeros = refl }

pub and-IsDigitwise : IsDigitwise bit_and min
and-IsDigitwise = record { lowest = and_lowest; digit = λ a b h k. omega arith; zeros = refl }

pub xor-IsDigitwise : IsDigitwise bit_xor differ
xor-IsDigitwise = record { lowest = xor_lowest; digit = differ-lt; zeros = refl }

pub twice_pow : (q k : ℕ) → q * 2 ^ suc k ≡ q * 2 ^ k * 2
twice_pow q k = omega (arith, ap (λ (t : ℕ). q * t) (pow-suc 2 k))

-- Numbers of `k` digits give a number of `k` digits, and the digits above go by themselves.
module _ (op f : ℕ → ℕ → ℕ) (d : IsDigitwise op f) where
  none_left : (a b : ℕ) → a ≡ 0 → b ≡ 0 → op a b < 1
  none_left a b h g = rw (h, g, d.zeros) (omega arith)

  pub op-lt : (k a b : ℕ) → a < 2 ^ k → b < 2 ^ k → op a b < 2 ^ k
  op-lt zero a b h g = none_left a b (omega arith) (omega arith)
  op-lt (suc k) a b h g = omega (
    arith,
    d.lowest a b,
    d.digit (a % 2) (b % 2) (omega arith) (omega arith),
    pow-suc 2 k,
    op-lt k (a / 2) (b / 2) (omega (arith, pow-suc 2 k)) (omega (arith, pow-suc 2 k)),
  )

  pub op_fields :
      (k q r p s : ℕ)
      → r < 2 ^ k
      → s < 2 ^ k
      → op (q * 2 ^ k + r) (p * 2 ^ k + s) ≡ op q p * 2 ^ k + op r s
  op_fields zero q r p s h g =
      let er : r ≡ 0 = omega arith in let es : s ≡ 0 = omega arith in ground (arith, d.zeros)
  op_fields (suc k) q r p s h g = ground (
    arith,
    d.lowest (q * 2 ^ suc k + r) (p * 2 ^ suc k + s),
    d.lowest r s,
    twice_pow q k,
    twice_pow p k,
    twice_pow (op q p) k,
    pow-suc 2 k,
    op_fields k q (r / 2) p (s / 2),
  )

pub xor-lt : (k a b : ℕ) → a < 2 ^ k → b < 2 ^ k → bit_xor a b < 2 ^ k
xor-lt = op-lt bit_xor differ xor-IsDigitwise

pub or-lt : (k a b : ℕ) → a < 2 ^ k → b < 2 ^ k → bit_or a b < 2 ^ k
or-lt = op-lt bit_or max or-IsDigitwise

pub xor_fields :
    (k q r p s : ℕ)
    → r < 2 ^ k
    → s < 2 ^ k
    → bit_xor (q * 2 ^ k + r) (p * 2 ^ k + s) ≡ bit_xor q p * 2 ^ k + bit_xor r s
xor_fields = op_fields bit_xor differ xor-IsDigitwise

zero-or : (a : ℕ) → bit_or 0 a ≡ a
zero-or a = bit_or-bitwise 0 a

zero-and : (a : ℕ) → bit_and 0 a ≡ 0
zero-and a = bit_and-bitwise 0 a

or-zero_upto : (n a : ℕ) → a ≤ n → bit_or a 0 ≡ a
or-zero_upto n zero h = zero-or 0
or-zero_upto zero (suc a) h = absurd (omega arith)
or-zero_upto (suc n) (suc a) h =
    omega (arith, or_lowest (suc a) 0, or-zero_upto n (suc a / 2) (omega arith))

pub or-zero : (a : ℕ) → bit_or a 0 ≡ a
or-zero a = or-zero_upto a a (omega arith)

differ-zero : (a : ℕ) → differ a 0 ≡ a
differ-zero zero = refl
differ-zero (suc a) = refl

xor-zero_upto : (n a : ℕ) → a ≤ n → bit_xor a 0 ≡ a
xor-zero_upto n zero h = bit_xor-bitwise 0 0
xor-zero_upto zero (suc a) h = absurd (omega arith)
xor-zero_upto (suc n) (suc a) h = ground (
  arith,
  xor_lowest (suc a) 0,
  xor-zero_upto n (suc a / 2) (omega arith),
  differ-zero (suc a % 2),
)

and-zero_upto : (n a : ℕ) → a ≤ n → bit_and a 0 ≡ 0
and-zero_upto n zero h = zero-and 0
and-zero_upto zero (suc a) h = absurd (omega arith)
and-zero_upto (suc n) (suc a) h =
    omega (arith, and_lowest (suc a) 0, and-zero_upto n (suc a / 2) (omega arith))

pub and-zero : (a : ℕ) → bit_and a 0 ≡ 0
and-zero a = and-zero_upto a a (omega arith)

pow_pos : (k : ℕ) → 0 < 2 ^ k
pow_pos zero = omega arith
pow_pos (suc k) = omega (arith, pow-suc 2 k, pow_pos k)

mod_twice : (k a : ℕ) → a % 2 ^ suc k ≡ a / 2 % 2 ^ k * 2 + a % 2
mod_twice k a =
    let q = a / 2 / 2 ^ k in
    let low = a / 2 % 2 ^ k * 2 + a % 2 in
    let split : a ≡ low + q * 2 ^ suc k =
      omega (arith, div-add-mod' (a / 2) (2 ^ k), twice_pow q k) in
    let fits : low < 2 ^ suc k =
      omega (arith, mod-lt (a / 2) {m = 2 ^ k} (pow_pos k), pow-suc 2 k) in
    ap (λ (t : ℕ). t % 2 ^ suc k) split
    ∙ add-mul-mod_self_right low q (2 ^ suc k)
    ∙ mod-eq_of_lt fits

-- A mask of `k` ones keeps the `k` low digits.
pub and_ones : (k a : ℕ) → bit_and a (2 ^ k - 1) ≡ a % 2 ^ k
and_ones zero a = omega (arith, and-zero a)
and_ones (suc k) a =
    ground (
      arith,
      and_lowest a (2 ^ suc k - 1),
      pow-suc 2 k,
      pow_pos k,
      and_ones k (a / 2),
      mod_twice k a,
    )

and_comm_upto : (n a b : ℕ) → a ≤ n → b ≤ n → bit_and a b ≡ bit_and b a
and_comm_upto zero a b h k = let e : a ≡ b = omega arith in rw e
and_comm_upto (suc n) a b h k = omega (
  arith,
  and_lowest a b,
  and_lowest b a,
  and_comm_upto n (a / 2) (b / 2) (omega arith) (omega arith),
)

pub and_comm : (a b : ℕ) → bit_and a b ≡ bit_and b a
and_comm a b = and_comm_upto (a + b) a b (omega arith) (omega arith)

-- `(q << k) | r` is a sum where `r` has `k` digits.
pub or_shifted : (k q r : ℕ) → r < 2 ^ k → bit_or (q * 2 ^ k) r ≡ q * 2 ^ k + r
or_shifted k q r h =
    ground
      (arith, op_fields bit_or max or-IsDigitwise k q 0 0 r (pow_pos k) h, or-zero q, zero-or r)

pub or_low : (k q r : ℕ) → r < 2 ^ k → bit_or r (q * 2 ^ k) ≡ q * 2 ^ k + r
or_low k q r h =
    ground
      (arith, op_fields bit_or max or-IsDigitwise k 0 r q 0 h (pow_pos k), zero-or q, or-zero r)

pub xor_shifted : (k q r : ℕ) → r < 2 ^ k → bit_xor (q * 2 ^ k) r ≡ q * 2 ^ k + r
xor_shifted k q r h =
    ground (arith, xor_fields k q 0 0 r (pow_pos k) h, xor-zero_upto q q, bit_xor-bitwise 0 r)

-- A byte changes only the low byte of a word.
pub xor_byte :
    (c b : ℕ)
    → b < 2 ^ 8
    → (bit_xor c b / 2 ^ 8 ≡ c / 2 ^ 8) × (bit_xor c b % 2 ^ 8 ≡ bit_xor (c % 2 ^ 8) b)
xor_byte c b h = ground (
  arith,
  xor_fields 8 (c / 2 ^ 8) (c % 2 ^ 8) 0 b,
  xor-lt 8 (c % 2 ^ 8) b,
  xor-zero_upto (c / 2 ^ 8) (c / 2 ^ 8),
)

-- Over a small range, an equation is checked at every value.
module _ (f g : ℕ → ℕ) where
  unfoldable pub agree_upto : ℕ → Bool
  agree_upto zero = true
  agree_upto (suc n) = f n == g n && agree_upto n

  pub agree_upto_sound : (n x : ℕ) → agree_upto n ≡ true → x < n → f x ≡ g x
  unfolding agree_upto
  agree_upto_sound zero x h lt = absurd (omega arith)
  agree_upto_sound (suc n) x h lt = ground (arith, agree_upto_sound n x)

-- Flipping all bits of a byte and comparing with the byte differs everywhere.
flipped_table : agree_upto (λ x. bit_xor x (bit_xor x 255)) (λ x. 255) 256 ≡ true
unfolding agree_upto
flipped_table = refl
