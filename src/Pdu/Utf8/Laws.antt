-- ===== src/Pdu/Utf8/Laws.antt =====
-- ucs2_utf8.c: the bytes stand for the code point, and which code points are refused.
use qfenix.Common.{
  ℕ, ◌+◌, ◌*◌, ◌/◌, ◌%◌, ◌^◌, ◌<◌, ◌≤◌, ◌≡◌, ◌↔◌, ◌⊎◌, refl, ap, ◌∙◌, arith, Bool, true, false,
  Option, none, some,
}
use qfenix.Common.{List, [], ◌∷◌, ◌==◌, ltb, leb, ◌&&◌, if◌then◌else◌, bit_and, bit_or}
use mathlib.Core.Path.{subst}
use qfenix.Common.Bits.{and_ones, or_low, or_shifted}
use qfenix.Pdu.Utf8.{Utf8Result, bytes, surrogate_pair, bad_input, ucs2_to_utf8}

-- The value of a sequence of UTF-8 bytes, by its length; `none` if its bytes are not of that form.
pub code_point : List ℕ → Option ℕ
code_point (b ∷ []) = if ltb b 0x80 then some b else none
code_point (b ∷ c ∷ []) =
    if (b / 32 == 6) && (c / 64 == 2) then some (b % 32 * 64 + c % 64) else none
code_point (b ∷ c ∷ d ∷ []) =
    if (b / 16 == 14) && (c / 64 == 2) && (d / 64 == 2)
    then some (b % 16 * 4096 + c % 64 * 64 + d % 64)
    else none
code_point (b ∷ c ∷ d ∷ e ∷ []) =
    if (b / 8 == 30) && (c / 64 == 2) && (d / 64 == 2) && (e / 64 == 2)
    then some (b % 8 * 262144 + c % 64 * 4096 + d % 64 * 64 + e % 64)
    else none
code_point _ = none

continuation : (x : ℕ) → bit_or (bit_and x 0x3F) 0x80 ≡ 0x80 + x % 64
continuation x =
    ap (λ (t : ℕ). bit_or t 0x80) (and_ones 6 x)
    ∙ omega (arith, or_low 7 1 (x % 2 ^ 6) (omega arith))

continuation_after : (x : ℕ) → bit_or 0x80 (bit_and x 0x3F) ≡ 0x80 + x % 64
continuation_after x =
    ap (λ (t : ℕ). bit_or 0x80 t) (and_ones 6 x)
    ∙ omega (arith, or_shifted 7 1 (x % 2 ^ 6) (omega arith))

-- The readings, from the values of the bytes.
read_two :
    (c x y : ℕ)
    → c < 0x800
    → x ≡ 0xC0 + c / 64
    → y ≡ 0x80 + c % 64
    → code_point (x ∷ y ∷ []) ≡ some c
unfolding code_point
read_two c x y h ex ey = ground (arith, h, ex, ey)

read_three :
    (c x y z : ℕ)
    → c < 0x10000
    → x ≡ 0xE0 + c / 4096
    → y ≡ 0x80 + c / 64 % 64
    → z ≡ 0x80 + c % 64
    → code_point (x ∷ y ∷ z ∷ []) ≡ some c
unfolding code_point
read_three c x y z h ex ey ez = ground (arith, h, ex, ey, ez)

read_four :
    (c x y z w : ℕ)
    → c < 0x200000
    → x ≡ 0xF0 + c / 262144
    → y ≡ 0x80 + c / 4096 % 64
    → z ≡ 0x80 + c / 64 % 64
    → w ≡ 0x80 + c % 64
    → code_point (x ∷ y ∷ z ∷ w ∷ []) ≡ some c
unfolding code_point
read_four c x y z w h ex ey ez ew = ground (arith, h, ex, ey, ez, ew)

read_one : (c : ℕ) → c < 0x80 → code_point (c ∷ []) ≡ some c
unfolding code_point
read_one c h = ground (arith, h)

first_of_two : (c : ℕ) → c < 0x800 → bit_or (c / 2 ^ 6) 0xC0 ≡ 0xC0 + c / 64
first_of_two c h = omega (arith, or_low 6 3 (c / 2 ^ 6) (omega arith))

first_of_three : (c : ℕ) → c < 0x10000 → bit_or (c / 2 ^ 12) 0xE0 ≡ 0xE0 + c / 4096
first_of_three c h = omega (arith, or_low 5 7 (c / 2 ^ 12) (omega arith))

first_of_four : (c : ℕ) → c < 0x200000 → bit_or 0xF0 (c / 2 ^ 18) ≡ 0xF0 + c / 262144
first_of_four c h = omega (arith, or_shifted 4 15 (c / 2 ^ 18) (omega arith))

-- Whether bytes that are returned stand for the code point.
abbrev StandsFor : ℕ → Utf8Result → Type 0
StandsFor c (bytes out) = code_point out ≡ some c
StandsFor c surrogate_pair = Unit
StandsFor c bad_input = Unit

StandsFor-if :
    (c : ℕ) (b : Bool) (r s : Utf8Result)
    → (b ≡ true → StandsFor c r)
    → (b ≡ false → StandsFor c s)
    → StandsFor c (if b then r else s)
StandsFor-if c true r s h k = h refl
StandsFor-if c false r s h k = k refl

ucs2_to_utf8-StandsFor : (c : ℕ) → StandsFor c (ucs2_to_utf8 c)
unfolding ucs2_to_utf8
ucs2_to_utf8-StandsFor c =
    StandsFor-if c (ltb c 0x80) _ _ (λ h. read_one c (ground (arith, h)))
      λ _.
        StandsFor-if c (leb 0x80 c && ltb c 0x800) _ _
          (λ h.
            let below : c < 0x800 = ground (arith, h) in
            read_two c _ _ below (first_of_two c below) (continuation c))
          λ _.
            StandsFor-if c (leb 0x800 c && ltb c 0xFFFF) _ _
              (λ h.
                StandsFor-if c (leb 0xD800 c && leb c 0xDFFF) _ _ (λ _. tt)
                  λ _.
                    let below : c < 0x10000 = ground (arith, h) in
                    read_three c _ _ _ below (first_of_three c below) (continuation (c / 2 ^ 6))
                      (continuation c))
              λ _.
                StandsFor-if c (leb 0x10000 c && ltb c 0x10FFFF) _ _
                  (λ h.
                    let below : c < 0x200000 = ground (arith, h) in
                    read_four c _ _ _ _ below (first_of_four c below)
                      (continuation_after (c / 2 ^ 12)) (continuation_after (c / 2 ^ 6))
                      (continuation_after c))
                  λ _. tt

-- What the function returns for a code point from 0 on, in full: bytes that stand for it, or
-- a surrogate for just the surrogates, or a refusal for just U+FFFF and what is U+10FFFF or more.
pub ucs2_to_utf8_cases :
    (c : ℕ)
    → ((out : List ℕ) → ucs2_to_utf8 c ≡ bytes out → code_point out ≡ some c)
      × (ucs2_to_utf8 c ≡ surrogate_pair ↔ (0xD800 ≤ c) × (c ≤ 0xDFFF))
      × (ucs2_to_utf8 c ≡ bad_input ↔ (c ≡ 0xFFFF) ⊎ (0x10FFFF ≤ c))
unfolding ucs2_to_utf8
ucs2_to_utf8_cases c = (
  λ out e. subst (λ r. StandsFor c r) e (ucs2_to_utf8-StandsFor c),
  (λ e. ground (arith, e), λ h. ground (arith, h)),
  (λ e. ground (arith, e), λ h. ground (arith, h)),
)
