-- ===== src/Hdlc/Crc.antt =====
-- The table of `hdlc_crc16` against the polynomial that it is made from.
use qfenix.Common.{ℕ, zero, suc, ◌*◌, ◌/◌, ◌%◌, ◌^◌, ◌<◌, bit_xor, ◌≡◌, refl, arith, ◌==◌}
use qfenix.Common.{if◌then◌else◌, List, [], ◌∷◌, get_or, true, ap, ap₂, sym, ◌∙◌, IsBytes, bit_and}
use qfenix.Common.Bits.{
  agree_upto, agree_upto_sound, xor-lt, xor_byte, and_ones, xor_shifted, twice_pow,
}
use qfenix.Hdlc.{crc16_table, crc16_step, hdlc_crc16}
use qfenix.Common.Xor.{xor_comm, xor-zero, mod-xor, div-xor, digit_cases, xor_interchange}

-- One bit of the reflected CRC-16 with polynomial 0x8408.
pub crc_bit : ℕ → ℕ
crc_bit c = if c % 2 == 1 then bit_xor (c / 2) 0x8408 else c / 2

pub crc_bits : ℕ → ℕ → ℕ
crc_bits zero c = c
crc_bits (suc n) c = crc_bits n (crc_bit c)

table_made : agree_upto (λ i. get_or crc16_table i 0) (λ i. crc_bits 8 i) 256 ≡ true
unfolding agree_upto crc_bits crc_bit crc16_table
table_made = refl

table-eq-bits : (i : ℕ) → i < 256 → get_or crc16_table i 0 ≡ crc_bits 8 i
table-eq-bits i h =
    agree_upto_sound (λ i. get_or crc16_table i 0) (λ i. crc_bits 8 i) 256 i table_made h

-- What the lowest digit feeds back.
feedback : ℕ → ℕ
feedback c = if c % 2 == 1 then 0x8408 else 0

crc_bit-eq-xor : (c : ℕ) → crc_bit c ≡ bit_xor (c / 2) (feedback c)
unfolding crc_bit feedback
crc_bit-eq-xor c = ground (arith, xor-zero (c / 2))

feedback-xor : (a b : ℕ) → feedback (bit_xor a b) ≡ bit_xor (feedback a) (feedback b)
unfolding feedback
feedback-xor a b = ground (arith, mod-xor a b, digit_cases a, digit_cases b)

-- The register is linear, digit by digit.
crc_bit-xor : (a b : ℕ) → crc_bit (bit_xor a b) ≡ bit_xor (crc_bit a) (crc_bit b)
crc_bit-xor a b =
    rw
      (
        crc_bit-eq-xor (bit_xor a b),
        crc_bit-eq-xor a,
        crc_bit-eq-xor b,
        div-xor a b,
        feedback-xor a b,
      )
      (xor_interchange (a / 2) (b / 2) (feedback a) (feedback b))

crc_bits-xor : (n a b : ℕ) → crc_bits n (bit_xor a b) ≡ bit_xor (crc_bits n a) (crc_bits n b)
unfolding crc_bits
crc_bits-xor zero a b = refl
crc_bits-xor (suc n) a b =
    ap (crc_bits n) (crc_bit-xor a b) ∙ crc_bits-xor n (crc_bit a) (crc_bit b)

crc_bit_even : (c : ℕ) → crc_bit (c * 2) ≡ c
unfolding crc_bit
crc_bit_even c = ground arith

crc_bits_shift : (n q : ℕ) → crc_bits n (q * 2 ^ n) ≡ q
unfolding crc_bits
crc_bits_shift zero q = omega arith
crc_bits_shift (suc n) q = rw (twice_pow q n, crc_bit_even (q * 2 ^ n)) (crc_bits_shift n q)

-- Eight rounds on a word: the high byte moves down, and the low byte is replaced by its image.
crc_bits_word : (x : ℕ) → crc_bits 8 x ≡ bit_xor (x / 2 ^ 8) (crc_bits 8 (x % 2 ^ 8))
crc_bits_word x =
    let hi = x / 2 ^ 8 in
    let lo = x % 2 ^ 8 in
    let joined : x ≡ bit_xor (hi * 2 ^ 8) lo = omega (arith, xor_shifted 8 hi lo (omega arith)) in
    ap (crc_bits 8) joined
    ∙ crc_bits-xor 8 (hi * 2 ^ 8) lo
    ∙ ap (λ (t : ℕ). bit_xor t (crc_bits 8 lo)) (crc_bits_shift 8 hi)

-- The table entry that a round reads, as a number.
pub crc16_step_lem :
    (crc byte : ℕ)
    → byte < 2 ^ 8
    → crc16_step crc byte
      ≡ bit_xor (get_or crc16_table (bit_xor (crc % 2 ^ 8) byte) 0) (crc / 2 ^ 8)
unfolding crc16_step
crc16_step_lem crc byte h = ap (λ (t : ℕ). bit_xor (get_or crc16_table t 0) (crc / 2 ^ 8)) index
  where
    index : bit_and (bit_xor crc byte) 0xff ≡ bit_xor (crc % 2 ^ 8) byte
    index = and_ones 8 (bit_xor crc byte) ∙ (xor_byte crc byte h).1

-- One round of the table is eight rounds of the register.
pub crc16_step-eq-bits :
    (crc byte : ℕ) → byte < 2 ^ 8 → crc16_step crc byte ≡ crc_bits 8 (bit_xor crc byte)
crc16_step-eq-bits crc byte h =
    crc16_step_lem crc byte h
    ∙ ap (λ (t : ℕ). bit_xor t (crc / 2 ^ 8))
        (table-eq-bits low (xor-lt 8 (crc % 2 ^ 8) byte (omega arith) h))
    ∙ xor_comm (crc_bits 8 low) (crc / 2 ^ 8)
    ∙ ap₂ (λ (q r : ℕ). bit_xor q (crc_bits 8 r)) (sym parts.0) (sym parts.1)
    ∙ sym (crc_bits_word (bit_xor crc byte))
  where
    low : ℕ
    low = bit_xor (crc % 2 ^ 8) byte

    parts : (bit_xor crc byte / 2 ^ 8 ≡ crc / 2 ^ 8) × (bit_xor crc byte % 2 ^ 8 ≡ low)
    parts = xor_byte crc byte h

-- The reference: the register takes in each byte, lowest digit first.
pub crc16_reference : ℕ → List ℕ → ℕ
crc16_reference crc [] = crc
crc16_reference crc (byte ∷ rest) = crc16_reference (crc_bits 8 (bit_xor crc byte)) rest

-- The table-driven CRC of any bytes, from any start value, is that of the bitwise register of the
-- reflected polynomial 0x8408.
pub hdlc_crc16-eq-reference :
    (crc : ℕ) (bytes : List ℕ) → IsBytes bytes → hdlc_crc16 crc bytes ≡ crc16_reference crc bytes
unfolding hdlc_crc16 crc16_reference
hdlc_crc16-eq-reference crc [] h = refl
hdlc_crc16-eq-reference crc (byte ∷ rest) h =
    rw (crc16_step-eq-bits crc byte h.0)
      (hdlc_crc16-eq-reference (crc_bits 8 (bit_xor crc byte)) rest h.1)
