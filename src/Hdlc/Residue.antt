-- ===== src/Hdlc/Residue.antt =====
-- The register of `hdlc_crc16` loses nothing, and what follows for the two bytes of the CRC.
use qfenix.Common.{ℕ, zero, suc, ◌+◌, ◌*◌, ◌/◌, ◌%◌, ◌^◌, ◌<◌, bit_xor, ◌≡◌, refl, arith}
use qfenix.Common.{List, [], ◌∷◌, get_or, true, ap, ap₂, sym, ◌∙◌, IsBytes, ◌==◌, if◌then◌else◌}
use qfenix.Common.Bits.{agree_upto, agree_upto_sound, xor_byte, xor-lt, xor_fields}
use qfenix.Common.Xor.{xor_twice, xor_cancel, xor_assoc, xor_comm}
use qfenix.Hdlc.{crc16_table, crc16_step, hdlc_crc16}
use qfenix.Hdlc.Crc.{crc16_step_lem}

abbrev entry : ℕ → ℕ
entry i = get_or crc16_table i 0

entries_fit : agree_upto (λ i. entry i / 2 ^ 16) (λ i. 0) 256 ≡ true
unfolding agree_upto crc16_table
entries_fit = refl

entry-lt : (i : ℕ) → i < 2 ^ 8 → entry i < 2 ^ 16
entry-lt i h = omega (arith, agree_upto_sound (λ i. entry i / 2 ^ 16) (λ i. 0) 256 i entries_fit h)

-- The position of the entry with a given high byte.
seek : ℕ → ℕ → ℕ
seek zero high = 0
seek (suc n) high = let rest = seek n high in if entry n / 2 ^ 8 == high then n else rest

seek_finds : agree_upto (λ i. seek 256 (entry i / 2 ^ 8)) (λ i. i) 256 ≡ true
unfolding agree_upto crc16_table seek
seek_finds = refl

-- No two entries have the same high byte.
entry_distinct : (i j : ℕ) → i < 2 ^ 8 → j < 2 ^ 8 → entry i / 2 ^ 8 ≡ entry j / 2 ^ 8 → i ≡ j
entry_distinct i j h k e = sym (found i h) ∙ ap (seek 256) e ∙ found j k
  where
    found : (n : ℕ) → n < 2 ^ 8 → seek 256 (entry n / 2 ^ 8) ≡ n
    found n l = agree_upto_sound (λ i. seek 256 (entry i / 2 ^ 8)) (λ i. i) 256 n seek_finds l

-- What a round leaves in the high byte is that of the entry.
step_high :
    (crc byte : ℕ)
    → crc < 2 ^ 16
    → byte < 2 ^ 8
    → crc16_step crc byte / 2 ^ 8 ≡ entry (bit_xor (crc % 2 ^ 8) byte) / 2 ^ 8
step_high crc byte h k =
    ap (λ (t : ℕ). t / 2 ^ 8) (crc16_step_lem crc byte k)
    ∙ (xor_byte (entry (bit_xor (crc % 2 ^ 8) byte)) (crc / 2 ^ 8) (omega arith)).0

pub crc16_step-lt : (crc byte : ℕ) → crc < 2 ^ 16 → byte < 2 ^ 8 → crc16_step crc byte < 2 ^ 16
crc16_step-lt crc byte h k = rw (crc16_step_lem crc byte k) (
    xor-lt 16 (entry index) (crc / 2 ^ 8)
      (entry-lt index (xor-lt 8 (crc % 2 ^ 8) byte (omega arith) k)) (omega arith))
  where
    index : ℕ
    index = bit_xor (crc % 2 ^ 8) byte

pub hdlc_crc16-lt :
    (crc : ℕ) (bytes : List ℕ) → crc < 2 ^ 16 → IsBytes bytes → hdlc_crc16 crc bytes < 2 ^ 16
unfolding hdlc_crc16
hdlc_crc16-lt crc [] h k = h
hdlc_crc16-lt crc (byte ∷ rest) h k =
    hdlc_crc16-lt (crc16_step crc byte) rest (crc16_step-lt crc byte h k.0) k.1

-- Rounds that end alike in the high byte have read the same entry.
same_index :
    (c d a b : ℕ)
    → c < 2 ^ 16
    → d < 2 ^ 16
    → a < 2 ^ 8
    → b < 2 ^ 8
    → crc16_step c a / 2 ^ 8 ≡ crc16_step d b / 2 ^ 8
    → bit_xor (c % 2 ^ 8) a ≡ bit_xor (d % 2 ^ 8) b
same_index c d a b hc hd ha hb e =
    entry_distinct (bit_xor (c % 2 ^ 8) a) (bit_xor (d % 2 ^ 8) b)
      (xor-lt 8 (c % 2 ^ 8) a (omega arith) ha) (xor-lt 8 (d % 2 ^ 8) b (omega arith) hb)
      (sym (step_high c a hc ha) ∙ e ∙ step_high d b hd hb)

-- Rounds that end alike began with the same high byte.
same_high :
    (c d a b : ℕ)
    → c < 2 ^ 16
    → d < 2 ^ 16
    → a < 2 ^ 8
    → b < 2 ^ 8
    → crc16_step c a ≡ crc16_step d b
    → c / 2 ^ 8 ≡ d / 2 ^ 8
same_high c d a b hc hd ha hb e =
    xor_cancel (entry (bit_xor (d % 2 ^ 8) b)) (c / 2 ^ 8) (d / 2 ^ 8) (
      ap (λ (t : ℕ). bit_xor (entry t) (c / 2 ^ 8))
        (sym (same_index c d a b hc hd ha hb (ap (λ (t : ℕ). t / 2 ^ 8) e)))
      ∙ lined)
  where
    lined :
        bit_xor (entry (bit_xor (c % 2 ^ 8) a)) (c / 2 ^ 8)
        ≡ bit_xor (entry (bit_xor (d % 2 ^ 8) b)) (d / 2 ^ 8)
    lined = sym (crc16_step_lem c a ha) ∙ e ∙ crc16_step_lem d b hb

-- The same byte from different states leads to different states.
pub crc16_step_injective :
    (c d a : ℕ) → c < 2 ^ 16 → d < 2 ^ 16 → a < 2 ^ 8 → crc16_step c a ≡ crc16_step d a → c ≡ d
crc16_step_injective c d a hc hd ha e = omega (arith, same_high c d a a hc hd ha ha e, low)
  where
    low : c % 2 ^ 8 ≡ d % 2 ^ 8
    low = xor_cancel a (c % 2 ^ 8) (d % 2 ^ 8) (
        xor_comm a (c % 2 ^ 8)
        ∙ same_index c d a a hc hd ha ha (ap (λ (t : ℕ). t / 2 ^ 8) e)
        ∙ xor_comm (d % 2 ^ 8) a)

pub hdlc_crc16_injective :
    (c d : ℕ) (bytes : List ℕ)
    → c < 2 ^ 16
    → d < 2 ^ 16
    → IsBytes bytes
    → hdlc_crc16 c bytes ≡ hdlc_crc16 d bytes
    → c ≡ d
unfolding hdlc_crc16
hdlc_crc16_injective c d [] hc hd h e = e
hdlc_crc16_injective c d (byte ∷ rest) hc hd h e = crc16_step_injective c d byte hc hd h.0 (
    hdlc_crc16_injective (crc16_step c byte) (crc16_step d byte) rest (crc16_step-lt c byte hc h.0)
      (crc16_step-lt d byte hd h.0) h.1 e)

-- Two bytes can be told from the state that they lead to.
pub two_bytes_injective :
    (c a b x y : ℕ)
    → c < 2 ^ 16
    → a < 2 ^ 8
    → b < 2 ^ 8
    → x < 2 ^ 8
    → y < 2 ^ 8
    → crc16_step (crc16_step c a) b ≡ crc16_step (crc16_step c x) y
    → (a ≡ x) × (b ≡ y)
two_bytes_injective c a b x y hc ha hb hx hy e = (first, second)
  where
    left : crc16_step c a < 2 ^ 16
    left = crc16_step-lt c a hc ha

    right : crc16_step c x < 2 ^ 16
    right = crc16_step-lt c x hc hx

    first : a ≡ x
    first = xor_cancel (c % 2 ^ 8) a x (
        same_index c c a x hc hc ha hx
          (same_high (crc16_step c a) (crc16_step c x) b y left right hb hy e))

    second : b ≡ y
    second = xor_cancel (crc16_step c x % 2 ^ 8) b y (
        ap (λ (t : ℕ). bit_xor (crc16_step c t % 2 ^ 8) b) (sym first)
        ∙ same_index (crc16_step c a) (crc16_step c x) b y left right hb hy
            (ap (λ (t : ℕ). t / 2 ^ 8) e))

-- The bytes of the complement lead every state to the same residue.
pub complement_low :
    (c : ℕ)
    → c < 2 ^ 16
    → bit_xor c 0xffff ≡ bit_xor (c / 2 ^ 8) 0xff * 2 ^ 8 + bit_xor (c % 2 ^ 8) 0xff
complement_low c h =
    ground (arith, xor_fields 8 (c / 2 ^ 8) (c % 2 ^ 8) 0xff 0xff (omega arith) (omega arith))

pub first_residue :
    (c : ℕ) → c < 2 ^ 16 → crc16_step c (bit_xor (c % 2 ^ 8) 0xff) ≡ bit_xor 0x0f78 (c / 2 ^ 8)
unfolding crc16_table
first_residue c h =
    crc16_step_lem c (bit_xor (c % 2 ^ 8) 0xff)
      (xor-lt 8 (c % 2 ^ 8) 0xff (omega arith) (omega arith))
    ∙ ap (λ (t : ℕ). bit_xor (entry t) (c / 2 ^ 8)) (xor_twice (c % 2 ^ 8) 0xff)

pub second_residue : (h : ℕ) → h < 2 ^ 8 → crc16_step (bit_xor 0x0f78 h) (bit_xor h 0xff) ≡ 0xf0b8
unfolding crc16_table
second_residue h lt =
    crc16_step_lem (bit_xor 0x0f78 h) (bit_xor h 0xff) (xor-lt 8 h 0xff lt (omega arith))
    ∙ ap₂ (λ (i q : ℕ). bit_xor (entry i) q) index (xor_byte 0x0f78 h lt).0
  where
    index : bit_xor (bit_xor 0x0f78 h % 2 ^ 8) (bit_xor h 0xff) ≡ 0x87
    index =
        ap (λ (t : ℕ). bit_xor t (bit_xor h 0xff)) (xor_byte 0x0f78 h lt).1
        ∙ xor_assoc 0x78 h (bit_xor h 0xff)
        ∙ ap (bit_xor 0x78) (xor_twice h 0xff)
