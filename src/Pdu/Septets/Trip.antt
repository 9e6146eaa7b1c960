-- ===== src/Pdu/Septets/Trip.antt =====
-- pdu.c: unpacking what was packed.
use qfenix.Common.{
  ℕ, suc, ◌+◌, ◌-◌, ◌*◌, ◌/◌, ◌%◌, ◌^◌, ◌≤◌, ◌<◌, ◌≡◌, ◌≢◌, refl, ap, ◌∙◌, sym, arith, true, false,
}
use qfenix.Common.{some, List, [], ◌∷◌, ◌==◌, bit_and, length, All}
use mathlib.Core.Path.{subst}
use native.Mathlib.Decide.{dec_lt}
use qfenix.Pdu.Septets.{
  octet, pack_from, pdu_encode_7bit, septet, unpack_from, pdu_decode_7bit, bitmask_7bits,
}
use qfenix.Common.Bits.{and_ones, and_comm}
use qfenix.Pdu.Septets.Shifts.{
  low_bits, octet-eq, high_bits, low_part, last_part, septet-eq, septet_bits,
}

abbrev pub IsSeptets : List ℕ → Type 0
IsSeptets text = All (λ c. c < 128) text

-- The octets after one that holds the beginning of `u`.
stream : ℕ → ℕ → ℕ → List ℕ → List ℕ
stream after k u rest = elim (k + 1 == 8) [
  | true ↦ pack_from after 1 rest
  | false ↦ pack_from after (k + 1) (u ∷ rest)
]

-- What `before` holds of `u`.
record Begins (k before u : ℕ) : Type 0 where
  pub pos : 0 < k
  pub below : k < 8
  pub byte : before < 256
  pub bits : before / 2 ^ (8 - k) ≡ u % 2 ^ k

Begins-octet : (k c d : ℕ) → 0 < k → k < 8 → c < 128 → d < 128 → Begins k (octet k c d) d
Begins-octet k c d pos below h g = record {
  pos = pos;
  below = below;
  byte = omega (arith, octet-eq k c d pos below h g);
  bits =
      ap (λ (t : ℕ). t / 2 ^ (8 - k)) (octet-eq k c d pos below h g)
      ∙ high_bits k pos below c d h g;
}

septet_last :
    (k before u : ℕ)
    → Begins k before u
    → u < 128
    → septet k (bit_and u bitmask_7bits / 2 ^ (k + 1 - 1)) before ≡ u
septet_last k before u b h =
    septet-eq k (bit_and u bitmask_7bits / 2 ^ (k + 1 - 1)) before u b.pos b.below b.byte h b.bits
      (rw (low_bits u h) (last_part k b.pos b.below u h))

septet_next :
    (k before u v : ℕ)
    → Begins k before u
    → k < 7
    → u < 128
    → v < 128
    → septet k (octet (k + 1) u v) before ≡ u
septet_next k before u v b lt h g =
    septet-eq k (octet (k + 1) u v) before u b.pos b.below b.byte h b.bits (
      ap (λ (t : ℕ). t % 2 ^ (7 - k)) (octet-eq (k + 1) u v (omega arith) (omega arith) h g)
      ∙ low_part k b.pos b.below u v h g)

septet_seven : (before u x : ℕ) → Begins 7 before u → u < 128 → septet 7 x before ≡ u
septet_seven before u x b h = septet-eq 7 x before u b.pos b.below b.byte h b.bits (omega arith)

-- One more octet where the carry stays below eight.
stream_next :
    (after k before u v : ℕ) (rest : List ℕ)
    → Begins k before u
    → k < 7
    → u < 128
    → v < 128
    → unpack_from (suc (length rest)) (k + 1) (octet (k + 1) u v) (stream after (k + 1) v rest)
      ≡ v ∷ rest
    → unpack_from (suc (suc (length rest))) k before (stream after k u (v ∷ rest)) ≡ u ∷ v ∷ rest
unfolding unpack_from pack_from stream
stream_next after k before u v rest b lt h g more =
    ground (arith, septet_next k before u v b lt h g, more)

stream_end :
    (after k before u : ℕ)
    → Begins k before u
    → k < 7
    → u < 128
    → unpack_from 1 k before (stream after k u []) ≡ u ∷ []
unfolding unpack_from pack_from stream
stream_end after k before u b lt h = ground (arith, septet_last k before u b h)

seven_end :
    (after before u : ℕ)
    → Begins 7 before u
    → u < 128
    → unpack_from 1 7 before (stream after 7 u []) ≡ u ∷ []
unfolding unpack_from pack_from stream
seven_end after before u b h =
    ground (arith, septet_seven before u (bit_and after bitmask_7bits / 1) b h)

seven_one :
    (after before u v : ℕ)
    → Begins 7 before u
    → u < 128
    → v < 128
    → unpack_from 2 7 before (stream after 7 u (v ∷ [])) ≡ u ∷ v ∷ []
unfolding unpack_from pack_from stream
seven_one after before u v b h g =
    let low : bit_and v bitmask_7bits / 1 ≡ v = omega (arith, low_bits v g) in
    ground (
      arith,
      septet_seven before u (bit_and v bitmask_7bits / 1) b h,
      ap (λ (t : ℕ). bit_and t bitmask_7bits) low ∙ low_bits v g,
    )

first_low : (v w : ℕ) → v < 128 → w < 128 → bit_and (octet 1 v w) bitmask_7bits ≡ v
first_low v w h g =
    omega (arith, and_ones 7 (octet 1 v w), octet-eq 1 v w (omega arith) (omega arith) h g)

seven_next :
    (after before u v w : ℕ) (rest : List ℕ)
    → Begins 7 before u
    → u < 128
    → v < 128
    → w < 128
    → unpack_from (suc (length rest)) 1 (octet 1 v w) (stream after 1 w rest) ≡ w ∷ rest
    → unpack_from (suc (suc (suc (length rest)))) 7 before (stream after 7 u (v ∷ w ∷ rest))
      ≡ u ∷ v ∷ w ∷ rest
unfolding unpack_from pack_from stream
seven_next after before u v w rest b h g f more =
    ground (arith, septet_seven before u (octet 1 v w) b h, first_low v w g f, more)

module _ (after : ℕ) where
  -- The last carry before it starts again.
  at_seven :
      (k before u : ℕ) (rest : List ℕ)
      → Begins k before u
      → ¬ k < 7
      → (Begins 7 before u
          → unpack_from (suc (length rest)) 7 before (stream after 7 u rest) ≡ u ∷ rest)
      → unpack_from (suc (length rest)) k before (stream after k u rest) ≡ u ∷ rest
  at_seven k before u rest b ge seven =
      let e : k ≡ 7 = omega (arith, b.below, ge) in
      subst (λ j. unpack_from (suc (length rest)) j before (stream after j u rest) ≡ u ∷ rest)
        (sym e) (seven (subst (λ j. Begins j before u) e b))

-- The trip, for what is left of a text from a character on whose beginning has been read.
unpack_from-stream :
    (after k before u : ℕ) (rest : List ℕ)
    → Begins k before u
    → u < 128
    → IsSeptets rest
    → unpack_from (suc (length rest)) k before (stream after k u rest) ≡ u ∷ rest
unpack_from-stream after k before u [] b h hs = elim (dec_lt k 7) [
  | yes lt ↦ stream_end after k before u b lt h
  | no ge ↦ at_seven after k before u [] b ge (λ b'. seven_end after before u b' h)
]
unpack_from-stream after k before u (v ∷ []) b h hs = elim (dec_lt k 7) [
  | yes lt ↦ stream_next after k before u v [] b lt h hs.0 (
      unpack_from-stream after (k + 1) (octet (k + 1) u v) v []
        (Begins-octet (k + 1) u v (omega arith) (omega arith) h hs.0) hs.0 tt)
  | no ge ↦ at_seven after k before u (v ∷ []) b ge (λ b'. seven_one after before u v b' h hs.0)
]
unpack_from-stream after k before u (v ∷ w ∷ rest) b h hs = elim (dec_lt k 7) [
  | yes lt ↦ stream_next after k before u v (w ∷ rest) b lt h hs.0 (
      unpack_from-stream after (k + 1) (octet (k + 1) u v) v (w ∷ rest)
        (Begins-octet (k + 1) u v (omega arith) (omega arith) h hs.0) hs.0 hs.1)
  | no ge ↦ at_seven after k before u (v ∷ w ∷ rest) b ge (λ b'.
      seven_next after before u v w rest b' h hs.0 hs.1.0 (
        unpack_from-stream after 1 (octet 1 v w) w rest
          (Begins-octet 1 v w (omega arith) (omega arith) hs.0 hs.1.0) hs.1.0 hs.1.1))
]

-- The whole text.
unpacked :
    (text : List ℕ) (after : ℕ)
    → IsSeptets text
    → 0 < length text
    → pdu_decode_7bit (pack_from after 1 text) (length text) ≡ some text
unfolding pdu_decode_7bit pack_from stream
unpacked [] after h pos = absurd (omega arith)
unpacked (c ∷ []) after h pos =
    let low : bit_and c bitmask_7bits / 1 ≡ c = omega (arith, low_bits c h.0) in
    ground (arith, low, ap (λ (t : ℕ). bit_and bitmask_7bits t) low, septet_bits c)
unpacked (c ∷ d ∷ rest) after h pos = ground (
  arith,
  and_comm bitmask_7bits (octet 1 c d),
  first_low c d h.0 h.1.0,
  unpack_from-stream after 1 (octet 1 c d) d rest
      (Begins-octet 1 c d (omega arith) (omega arith) h.0 h.1.0) h.1.0 h.1.1,
)

packed :
    (text : List ℕ) (after out_size : ℕ) (out : List ℕ)
    → pdu_encode_7bit text after out_size ≡ some out
    → pack_from after 1 text ≡ out
unfolding pdu_encode_7bit
packed text after out_size out e = ground arith

-- A text of septets that was packed is unpacked to itself when its length is asked for, whatever
-- stands behind it in the array and however large the buffer is.
pub pdu_decode_7bit-encode :
    (text : List ℕ) (after out_size : ℕ) (out : List ℕ)
    → IsSeptets text
    → 0 < length text
    → pdu_encode_7bit text after out_size ≡ some out
    → pdu_decode_7bit out (length text) ≡ some text
pdu_decode_7bit-encode text after out_size out h pos e =
    ap (λ (bytes : List ℕ). pdu_decode_7bit bytes (length text))
      (sym (packed text after out_size out e))
    ∙ unpacked text after h pos

length-pack_from :
    (after k : ℕ) (text : List ℕ)
    → 0 < k
    → k < 8
    → (length text ≡ 0 → k ≡ 1)
    → length (pack_from after k text) ≡ (length text * 7 - (k - 1)) / 8 + 1
unfolding pack_from
length-pack_from after k [] pos le one = omega (arith, one refl)
length-pack_from after k (c ∷ []) pos le one = omega arith
length-pack_from after k (c ∷ d ∷ rest) pos le one =
    ground (arith, length-pack_from after 1 rest, length-pack_from after (k + 1) (d ∷ rest))

-- The octets of a text of n characters are n * 7 / 8 + 1 in number, so where n is a multiple of 8,
-- a buffer of n * 7 / 8 octets passes the test of its size and one octet is stored behind it.
pub pdu_encode_7bit-overflow :
    (text : List ℕ) (after : ℕ)
    → length text % 8 ≡ 0
    → (pdu_encode_7bit text after (length text * 7 / 8) ≡ some (pack_from after 1 text))
      × (length (pack_from after 1 text) ≡ length text * 7 / 8 + 1)
unfolding pdu_encode_7bit
pdu_encode_7bit-overflow text after h = (
  ground arith,
  omega (arith, length-pack_from after 1 text (omega arith) (omega arith) (λ _. refl)),
)

-- In any other case what is stored fits into a buffer whose size passes the test.
pub pdu_encode_7bit_fits :
    (text : List ℕ) (after out_size : ℕ) (out : List ℕ)
    → length text % 8 ≢ 0
    → pdu_encode_7bit text after out_size ≡ some out
    → length out ≤ out_size
unfolding pdu_encode_7bit
pdu_encode_7bit_fits text after out_size out h e = ground (
  arith,
  packed text after out_size out e,
  length-pack_from after 1 text (omega arith) (omega arith) (λ _. refl),
)
