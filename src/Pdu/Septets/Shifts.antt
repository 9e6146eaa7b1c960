-- ===== src/Pdu/Septets/Shifts.antt =====
-- pdu.c: what the shifts of pdu_encode_7bit and pdu_decode_7bit keep of a character.
use qfenix.Common.{ℕ, zero, suc, ◌+◌, ◌-◌, ◌*◌, ◌/◌, ◌%◌, ◌^◌, ◌<◌, ◌≡◌, ap, ◌∙◌, arith}
use qfenix.Common.{bit_and, bit_or}
use qfenix.Common.Bits.{and_ones, or_low, or_shifted, and_comm}
use qfenix.Pdu.Septets.{octet, septet}

-- A statement about each place that the carry can take.
module _ (P : ℕ → Type 0) where
  each_carry : P 1 → P 2 → P 3 → P 4 → P 5 → P 6 → P 7 → (k : ℕ) → 0 < k → k < 8 → P k
  each_carry p1 p2 p3 p4 p5 p6 p7 zero h g = absurd (omega arith)
  each_carry p1 p2 p3 p4 p5 p6 p7 (suc zero) h g = p1
  each_carry p1 p2 p3 p4 p5 p6 p7 (suc (suc zero)) h g = p2
  each_carry p1 p2 p3 p4 p5 p6 p7 (suc (suc (suc zero))) h g = p3
  each_carry p1 p2 p3 p4 p5 p6 p7 (suc (suc (suc (suc zero)))) h g = p4
  each_carry p1 p2 p3 p4 p5 p6 p7 (suc (suc (suc (suc (suc zero))))) h g = p5
  each_carry p1 p2 p3 p4 p5 p6 p7 (suc (suc (suc (suc (suc (suc zero)))))) h g = p6
  each_carry p1 p2 p3 p4 p5 p6 p7 (suc (suc (suc (suc (suc (suc (suc zero))))))) h g = p7
  each_carry p1 p2 p3 p4 p5 p6 p7 (suc (suc (suc (suc (suc (suc (suc (suc k)))))))) h g =
      absurd (omega arith)

pub low_bits : (c : ℕ) → c < 128 → bit_and c 0x7f ≡ c
low_bits c h = omega (arith, and_ones 7 c)

pub septet_bits : (x : ℕ) → bit_and 0x7f x ≡ x % 128
septet_bits x = omega (arith, and_comm 0x7f x, and_ones 7 x)

fits : (k : ℕ) → 0 < k → k < 8 → (c : ℕ) → c < 128 → c / 2 ^ (k - 1) < 2 ^ (8 - k)
fits =
    each_carry (λ k. (c : ℕ) → c < 128 → c / 2 ^ (k - 1) < 2 ^ (8 - k)) (λ c h. omega arith)
      (λ c h. omega arith) (λ c h. omega arith) (λ c h. omega arith) (λ c h. omega arith)
      (λ c h. omega arith) (λ c h. omega arith)

pub octet-eq :
    (k c d : ℕ)
    → 0 < k
    → k < 8
    → c < 128
    → d < 128
    → octet k c d ≡ (d * 2 ^ (8 - k) + c / 2 ^ (k - 1)) % 256
unfolding octet
octet-eq k c d pos le h g =
    rw (low_bits c h, low_bits d g)
      (ap (λ (t : ℕ). t % 256) (or_low (8 - k) d (c / 2 ^ (k - 1)) (fits k pos le c h)))

-- The high bits of an octet are the low ones of the next character.
pub high_bits :
    (k : ℕ)
    → 0 < k
    → k < 8
    → (c d : ℕ) → c < 128
    → d < 128
    → (d * 2 ^ (8 - k) + c / 2 ^ (k - 1)) % 256 / 2 ^ (8 - k) ≡ d % 2 ^ k
high_bits =
    each_carry
      (λ k.
        (c d : ℕ)
        → c < 128
        → d < 128
        → (d * 2 ^ (8 - k) + c / 2 ^ (k - 1)) % 256 / 2 ^ (8 - k) ≡ d % 2 ^ k)
      (λ c d h g. omega arith) (λ c d h g. omega arith) (λ c d h g. omega arith)
      (λ c d h g. omega arith) (λ c d h g. omega arith) (λ c d h g. omega arith)
      (λ c d h g. omega arith)

-- The low bits of an octet, and the last octet, are the high bits of the character before.
pub low_part :
    (k : ℕ)
    → 0 < k
    → k < 8
    → (c d : ℕ) → c < 128
    → d < 128
    → (d * 2 ^ (8 - (k + 1)) + c / 2 ^ (k + 1 - 1)) % 256 % 2 ^ (7 - k) ≡ c / 2 ^ k
low_part =
    each_carry
      (λ k.
        (c d : ℕ)
        → c < 128
        → d < 128
        → (d * 2 ^ (8 - (k + 1)) + c / 2 ^ (k + 1 - 1)) % 256 % 2 ^ (7 - k) ≡ c / 2 ^ k)
      (λ c d h g. omega arith) (λ c d h g. omega arith) (λ c d h g. omega arith)
      (λ c d h g. omega arith) (λ c d h g. omega arith) (λ c d h g. omega arith)
      (λ c d h g. omega arith)

pub last_part :
    (k : ℕ) → 0 < k → k < 8 → (c : ℕ) → c < 128 → c / 2 ^ (k + 1 - 1) % 2 ^ (7 - k) ≡ c / 2 ^ k
last_part =
    each_carry (λ k. (c : ℕ) → c < 128 → c / 2 ^ (k + 1 - 1) % 2 ^ (7 - k) ≡ c / 2 ^ k)
      (λ c h. omega arith) (λ c h. omega arith) (λ c h. omega arith) (λ c h. omega arith)
      (λ c h. omega arith) (λ c h. omega arith) (λ c h. omega arith)

above : (k : ℕ) → 0 < k → k < 8 → (b : ℕ) → b < 256 → b / 2 ^ (8 - k) < 2 ^ k
above =
    each_carry (λ k. (b : ℕ) → b < 256 → b / 2 ^ (8 - k) < 2 ^ k) (λ b h. omega arith)
      (λ b h. omega arith) (λ b h. omega arith) (λ b h. omega arith) (λ b h. omega arith)
      (λ b h. omega arith) (λ b h. omega arith)

-- Two parts of a character.
put_together :
    (k : ℕ)
    → 0 < k
    → k < 8
    → (b u : ℕ) → u < 128
    → b % 2 ^ (7 - k) ≡ u / 2 ^ k
    → (b * 2 ^ k + u % 2 ^ k) % 128 ≡ u
put_together =
    each_carry
      (λ k. (b u : ℕ) → u < 128 → b % 2 ^ (7 - k) ≡ u / 2 ^ k → (b * 2 ^ k + u % 2 ^ k) % 128 ≡ u)
      (λ b u h e. omega (arith, e)) (λ b u h e. omega (arith, e)) (λ b u h e. omega (arith, e))
      (λ b u h e. omega (arith, e)) (λ b u h e. omega (arith, e)) (λ b u h e. omega (arith, e))
      (λ b u h e. omega (arith, e))

pub septet-eq :
    (k b before u : ℕ)
    → 0 < k
    → k < 8
    → before < 256
    → u < 128
    → before / 2 ^ (8 - k) ≡ u % 2 ^ k
    → b % 2 ^ (7 - k) ≡ u / 2 ^ k
    → septet k b before ≡ u
unfolding septet
septet-eq k b before u pos le small h high low =
    septet_bits (bit_or (b * 2 ^ k) (before / 2 ^ (8 - k)))
    ∙ ap (λ (t : ℕ). t % 128) (or_shifted k b (before / 2 ^ (8 - k)) (above k pos le before small))
    ∙ ap (λ (t : ℕ). (b * 2 ^ k + t) % 128) high
    ∙ put_together k pos le b u h low
