-- ===== src/Hdlc/Stuffing.antt =====
-- Byte stuffing: what the loops of `hdlc_encode` and `hdlc_decode` write.
use qfenix.Common.{ℕ, ◌+◌, ◌≤◌, bit_xor, ◌≡◌, ◌≢◌, refl, arith, false, ltb, leb}
use qfenix.Common.{
  none, some, List, [], ◌∷◌, ◌++◌, length, All, if◌then◌else◌, Bool-cases, inl, inr, ◌⊎◌,
}
use mathlib.Core.Option
use qfenix.Common.Xor.{xor_undo}
use qfenix.Hdlc.{flag, escape, xor_mask, is_special, escape_from, unescape_from}

-- The stuffed form of some bytes, without the flag.
unfoldable pub stuffed : List ℕ → List ℕ
stuffed [] = []
stuffed (byte ∷ rest) =
    if is_special byte then escape ∷ bit_xor byte xor_mask ∷ stuffed rest else byte ∷ stuffed rest

pub escape_from-eq-stuffed :
    (size j : ℕ) (bytes : List ℕ)
    → escape_from size j bytes ≡ (
        if ltb size (j + length (stuffed bytes) + 1)
        then none
        else some (stuffed bytes ++ flag ∷ []))
unfolding escape_from stuffed
escape_from-eq-stuffed size j [] = ground arith
escape_from-eq-stuffed size j (byte ∷ rest) =
    ground
      (arith, escape_from-eq-stuffed size (j + 2) rest, escape_from-eq-stuffed size (j + 1) rest)

-- A byte that is neither flag nor escape is copied.
pub unescape_plain :
    (size j byte : ℕ) (tail : List ℕ)
    → is_special byte ≡ false
    → unescape_from size j (byte ∷ tail)
      ≡ (if leb size j then none else Option.map (λ t. byte ∷ t) (unescape_from size (j + 1) tail))
unfolding unescape_from
unescape_plain size j byte [] h = ground arith
unescape_plain size j byte (next ∷ rest) h = ground arith

pub unescape_flag :
    (size j : ℕ) (tail : List ℕ) → unescape_from size j (flag ∷ tail) ≡ unescape_from size j tail
unfolding unescape_from
unescape_flag size j [] = refl
unescape_flag size j (next ∷ rest) = refl

pub special_cases : (byte : ℕ) → (byte ≡ flag) ⊎ ((byte ≡ escape) ⊎ (is_special byte ≡ false))
special_cases byte = ground arith

pub unescape_escaped :
    (size j next : ℕ) (tail : List ℕ)
    → unescape_from size j (escape ∷ next ∷ tail) ≡ (
        if leb size j
        then none
        else Option.map (λ t. bit_xor next xor_mask ∷ t) (unescape_from size (j + 1) tail))
unfolding unescape_from
unescape_escaped size j next tail = refl

pub unescape_from-stuffed :
    (size j : ℕ) (bytes : List ℕ)
    → j ≤ size
    → unescape_from size j (stuffed bytes ++ flag ∷ [])
      ≡ (if leb (j + length bytes) size then some bytes else none)
unfolding stuffed
unescape_from-stuffed size j [] h = unfold unescape_from in ground arith
unescape_from-stuffed size j (byte ∷ rest) h = elim (Bool-cases (is_special byte)) [
  | inl special ↦
      rw
        (
          special,
          unescape_escaped size j (bit_xor byte xor_mask) (stuffed rest ++ flag ∷ []),
          xor_undo byte xor_mask,
        )
        (ground (arith, unescape_from-stuffed size (j + 1) rest))
  | inr plain ↦
      rw (plain, unescape_plain size j byte (stuffed rest ++ flag ∷ []) plain)
        (ground (arith, unescape_from-stuffed size (j + 1) rest))
]

-- No byte of a stuffed text is the flag.
pub stuffed-ne-flag : (bytes : List ℕ) → All (λ b. b ≢ flag) (stuffed bytes)
unfolding stuffed
stuffed-ne-flag [] = tt
stuffed-ne-flag (byte ∷ rest) = ground (arith, stuffed-ne-flag rest)
