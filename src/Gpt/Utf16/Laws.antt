-- ===== src/Gpt/Utf16/Laws.antt =====
-- gpt.c: what `utf16le_to_utf8` writes fits, and is the text of the units.
use qfenix.Common.{
  ℕ, ◌+◌, ◌-◌, ◌/◌, ◌%◌, ◌^◌, ◌≤◌, ◌<◌, ◌≡◌, ◌⊎◌, inl, inr, refl, sym, ap, ◌∙◌, arith, Bool, true,
  false, Option, none, some, List, [], ◌∷◌, ◌++◌,
}
use qfenix.Common.{ltb, if◌then◌else◌, bit_and, bit_or, length, length-append, All, Bool-cases}
use mathlib.Core.List.{append_assoc, append-nil}
use native.Mathlib.Decide.{dec_lt}
use mathlib.Core.Path.{subst}
use qfenix.Common.Bits.{and_ones, or_shifted}
use qfenix.Gpt.Utf16.{
  is_high, is_low, pair_codepoint, unit_codepoint, codepoint_bytes, put_codepoint, utf16_loop,
  utf16le_to_utf8,
}

-- Code points that UTF-16 can carry in a text that ends with a NUL.
abbrev pub IsScalar : ℕ → Type 0
IsScalar c = (0 < c) × (c ≤ 0x10ffff) × ((c < 0xd800) ⊎ (0xdfff < c))

-- The UTF-16 and the UTF-8 of a code point, by arithmetic.
unfoldable pub utf16_of : ℕ → List ℕ
utf16_of c =
    if ltb c 0x10000
    then c ∷ []
    else (0xd800 + (c - 0x10000) / 0x400) ∷ (0xdc00 + (c - 0x10000) % 0x400) ∷ []

unfoldable pub utf8_of : ℕ → List ℕ
utf8_of c =
    if ltb c 0x80
    then c ∷ []
    else if ltb c 0x800
    then (0xc0 + c / 0x40) ∷ (0x80 + c % 0x40) ∷ []
    else if ltb c 0x10000
    then (0xe0 + c / 0x1000) ∷ (0x80 + c / 0x40 % 0x40) ∷ (0x80 + c % 0x40) ∷ []
    else (0xf0 + c / 0x40000)
      ∷ (0x80 + c / 0x1000 % 0x40)
      ∷ (0x80 + c / 0x40 % 0x40)
      ∷ (0x80 + c % 0x40)
      ∷ []

unfoldable pub utf16_text : List ℕ → List ℕ
unfolding utf16_of
utf16_text [] = []
utf16_text (c ∷ rest) = utf16_of c ++ utf16_text rest

unfoldable pub utf8_text : List ℕ → List ℕ
unfolding utf8_of
utf8_text [] = []
utf8_text (c ∷ rest) = utf8_of c ++ utf8_text rest

low_field : (x : ℕ) → bit_or 0x80 (bit_and x 0x3f) ≡ 0x80 + x % 0x40
low_field x =
    ap (λ (t : ℕ). bit_or 0x80 t) (and_ones 6 x)
    ∙ omega (arith, or_shifted 7 1 (x % 2 ^ 6) (omega arith))

lead_two : (x : ℕ) → x < 0x20 → bit_or 0xc0 (bit_and x 0x1f) ≡ 0xc0 + x
lead_two x h =
    ap (λ (t : ℕ). bit_or 0xc0 t) (and_ones 5 x)
    ∙ omega (arith, or_shifted 6 3 (x % 2 ^ 5) (omega arith))

lead_three : (x : ℕ) → x < 0x10 → bit_or 0xe0 (bit_and x 0x0f) ≡ 0xe0 + x
lead_three x h =
    ap (λ (t : ℕ). bit_or 0xe0 t) (and_ones 4 x)
    ∙ omega (arith, or_shifted 5 7 (x % 2 ^ 4) (omega arith))

lead_four : (x : ℕ) → x < 8 → bit_or 0xf0 (bit_and x 0x07) ≡ 0xf0 + x
lead_four x h =
    ap (λ (t : ℕ). bit_or 0xf0 t) (and_ones 3 x)
    ∙ omega (arith, or_shifted 4 15 (x % 2 ^ 3) (omega arith))

codepoint_bytes-utf8_of : (c : ℕ) → c ≤ 0x10ffff → codepoint_bytes c ≡ utf8_of c
unfolding codepoint_bytes utf8_of
codepoint_bytes-utf8_of c h = ground (
  arith,
  low_field c,
  low_field (c / 2 ^ 6),
  low_field (c / 2 ^ 12),
  lead_two (c / 2 ^ 6),
  lead_three (c / 2 ^ 12),
  lead_four (c / 2 ^ 18),
)

put_codepoint-some :
    (n c : ℕ) (out : List ℕ)
    → 0 < c
    → c ≤ 0x10ffff
    → length out + length (utf8_of c) < n
    → put_codepoint n c out ≡ some (out ++ utf8_of c)
unfolding put_codepoint
put_codepoint-some n c out pos top fits = ground (
  arith,
  codepoint_bytes-utf8_of c top,
  ap length (codepoint_bytes-utf8_of c top),
  pos,
  top,
  fits,
)

-- A unit, or a pair of units, is one round.
unit_round :
    (n w : ℕ) (tail out more : List ℕ)
    → is_high w ≡ false
    → put_codepoint n (unit_codepoint w) out ≡ some more
    → utf16_loop n (w ∷ tail) out ≡ utf16_loop n tail more
unfolding utf16_loop
unit_round n w [] out more h e = ground (arith, h, e)
unit_round n w (v ∷ tail) out more h e = ground (arith, h, e)

pair_round :
    (n w v : ℕ) (tail out more : List ℕ)
    → is_high w ≡ true
    → put_codepoint n (pair_codepoint w v) out ≡ some more
    → utf16_loop n (w ∷ v ∷ tail) out ≡ utf16_loop n tail more
unfolding utf16_loop
pair_round n w v tail out more h e = ground (arith, h, e)

pair_codepoint-back :
    (c : ℕ)
    → 0xffff < c
    → c ≤ 0x10ffff
    → pair_codepoint (0xd800 + (c - 0x10000) / 0x400) (0xdc00 + (c - 0x10000) % 0x400) ≡ c
unfolding pair_codepoint is_low
pair_codepoint-back c lo hi =
    ground
      (arith, or_shifted 10 ((c - 0x10000) / 0x400) ((c - 0x10000) % 0x400) (omega arith), lo, hi)

scalar_round :
    (n c : ℕ) (tail out : List ℕ)
    → IsScalar c
    → length out + length (utf8_of c) < n
    → utf16_loop n (utf16_of c ++ tail) out ≡ utf16_loop n tail (out ++ utf8_of c)
unfolding utf16_of
scalar_round n c tail out (pos, top, gap) fits = elim (Bool-cases (ltb c 0x10000)) [
  | inl small ↦
      let single : unit_codepoint c ≡ c = unfold unit_codepoint is_low in ground (arith, gap) in
      let high : is_high c ≡ false = unfold is_high in ground (arith, gap, small) in
      rw small (
        unit_round n c tail out (out ++ utf8_of c) high
          (ap (λ (t : ℕ). put_codepoint n t out) single ∙ put_codepoint-some n c out pos top fits))
  | inr large ↦
      let above : 0xffff < c = ground (arith, large) in
      let w : ℕ = 0xd800 + (c - 0x10000) / 0x400 in
      let high : is_high w ≡ true = unfold is_high in ground (arith, above, top) in
      rw large (
        pair_round n w (0xdc00 + (c - 0x10000) % 0x400) tail out (out ++ utf8_of c) high (
          ap (λ (t : ℕ). put_codepoint n t out) (pair_codepoint-back c above top)
          ∙ put_codepoint-some n c out pos top fits))
]

-- The NUL ends the loop, whatever follows.
at_nul : (n : ℕ) (pad out : List ℕ) → utf16_loop n (0 ∷ pad) out ≡ some out
unfolding utf16_loop put_codepoint unit_codepoint is_high is_low
at_nul n [] out = refl
at_nul n (v ∷ pad) out = refl

text_rounds :
    (n : ℕ) (text : List ℕ) (pad out : List ℕ)
    → All IsScalar text
    → length out + length (utf8_text text) < n
    → utf16_loop n (utf16_text text ++ 0 ∷ pad) out ≡ some (out ++ utf8_text text)
unfolding utf16_text utf8_text
text_rounds n [] pad out _ fits = at_nul n pad out ∙ simp append-nil refl
text_rounds n (c ∷ text) pad out (s, all) fits =
    let total = length-append (utf8_of c) (utf8_text text) in
    simp append_assoc (
      scalar_round n c (utf16_text text ++ 0 ∷ pad) out s (omega (arith, fits, total))
      ∙ text_rounds n text pad (out ++ utf8_of c) all
          (omega (arith, fits, total, length-append out (utf8_of c)))
      ∙ simp append_assoc refl)

-- A name of Unicode characters (none of them NUL or a surrogate), written as UTF-16 and ended by a
-- NUL unit, is converted to its UTF-8, whatever units follow the NUL, where that fits into
-- `out_len` bytes with the NUL.
pub utf16le_to_utf8-utf16_text :
    (text pad : List ℕ) (out_len : ℕ)
    → All IsScalar text
    → length (utf8_text text) < out_len
    → utf16le_to_utf8 (utf16_text text ++ 0 ∷ pad) out_len ≡ some (utf8_text text)
unfolding utf16le_to_utf8
utf16le_to_utf8-utf16_text text pad out_len all fits =
    text_rounds out_len text pad [] all (omega (arith, fits))

nothing_above : (c : ℕ) → 0x10ffff < c → codepoint_bytes c ≡ []
unfolding codepoint_bytes
nothing_above c h = ground (arith, h)

-- Every round that is carried out leaves room for the NUL.
put_codepoint-fits :
    (n c : ℕ) (out more : List ℕ)
    → length out < n
    → put_codepoint n c out ≡ some more
    → length more < n
unfolding put_codepoint
put_codepoint-fits n c out more h e = elim (dec_lt 0x10ffff c) [
  | yes above ↦ ground (arith, e, h, ap length (append-nil out), nothing_above c above)
  | no small ↦ ground (arith, e, h, small, length-append out (codepoint_bytes c))
]

abbrev Fits : ℕ → Option (List ℕ) → Type 0
Fits n none = Unit
Fits n (some out) = length out < n

Fits-round :
    (n : ℕ) (out : List ℕ) (o : Option (List ℕ)) (next : List ℕ → Option (List ℕ))
    → length out < n
    → ((more : List ℕ) → o ≡ some more → Fits n (next more))
    → Fits n (elim o [ none ↦ some out | some more ↦ next more ])
Fits-round n out none next h k = h
Fits-round n out (some more) next h k = k more refl

Fits-split :
    (n : ℕ) (b : Bool) (x y : Option (List ℕ))
    → Fits n x
    → Fits n y
    → Fits n (elim b [ true ↦ x | false ↦ y ])
Fits-split n true x y h k = h
Fits-split n false x y h k = k

utf16_loop-Fits : (n : ℕ) (units out : List ℕ) → length out < n → Fits n (utf16_loop n units out)
unfolding utf16_loop
utf16_loop-Fits n [] out h = h
utf16_loop-Fits n (w ∷ []) out h = Fits-split n (is_high w) _ _ tt (
    Fits-round n out (put_codepoint n (unit_codepoint w) out) (λ m. some m) h
      λ m e. put_codepoint-fits n (unit_codepoint w) out m h e)
utf16_loop-Fits n (w ∷ v ∷ rest) out h =
    Fits-split n (is_high w) _ _
      (Fits-round n out (put_codepoint n (pair_codepoint w v) out) (λ m. utf16_loop n rest m) h
        λ m e. utf16_loop-Fits n rest m (put_codepoint-fits n (pair_codepoint w v) out m h e))
      (Fits-round n out (put_codepoint n (unit_codepoint w) out) (λ m. utf16_loop n (v ∷ rest) m) h
        λ m e. utf16_loop-Fits n (v ∷ rest) m (put_codepoint-fits n (unit_codepoint w) out m h e))

-- Whether a value is returned.
abbrev Returned : Option (List ℕ) → Type 0
Returned o = (out : List ℕ) × (o ≡ some out)

Returned-round :
    (out : List ℕ) (o : Option (List ℕ)) (next : List ℕ → Option (List ℕ))
    → ((more : List ℕ) → Returned (next more))
    → Returned (elim o [ none ↦ some out | some more ↦ next more ])
Returned-round out none next k = (out, refl)
Returned-round out (some more) next k = k more

Returned-split :
    (b : Bool) (x y : Option (List ℕ))
    → (b ≡ true → Returned x)
    → Returned y
    → Returned (elim b [ true ↦ x | false ↦ y ])
Returned-split true x y h k = h refl
Returned-split false x y h k = k

utf16_loop-inside :
    (n : ℕ) (init : List ℕ) (w : ℕ) (out : List ℕ)
    → is_high w ≡ false
    → Returned (utf16_loop n (init ++ w ∷ []) out)
unfolding utf16_loop
utf16_loop-inside n [] w out lo =
    Returned-split (is_high w) _ _ (λ h. absurd (ground (arith, h, lo)))
      (Returned-round out (put_codepoint n (unit_codepoint w) out) (λ m. some m) λ m. (m, refl))
utf16_loop-inside n (u ∷ []) w out lo =
    Returned-split (is_high u) _ _
      (λ _.
        Returned-round out (put_codepoint n (pair_codepoint u w) out) (λ m. utf16_loop n [] m)
          λ m. (m, refl))
      (Returned-round out (put_codepoint n (unit_codepoint u) out) (λ m. utf16_loop n (w ∷ []) m)
        λ m. utf16_loop-inside n [] w m lo)
utf16_loop-inside n (u ∷ v ∷ init) w out lo =
    Returned-split (is_high u) _ _
      (λ _.
        Returned-round out (put_codepoint n (pair_codepoint u v) out)
          (λ m. utf16_loop n (init ++ w ∷ []) m) λ m. utf16_loop-inside n init w m lo)
      (Returned-round out (put_codepoint n (unit_codepoint u) out)
        (λ m. utf16_loop n (v ∷ init ++ w ∷ []) m) λ m. utf16_loop-inside n (v ∷ init) w m lo)

-- Whatever the units are, the bytes that are written fit into `out_len` bytes with their NUL, and
-- where the last unit is no high surrogate, no unit after the last one is read.
pub utf16le_to_utf8_bounds :
    (units : List ℕ) (out_len : ℕ)
    → 0 < out_len
    → ((out : List ℕ) → utf16le_to_utf8 units out_len ≡ some out → length out < out_len)
      × ((init : List ℕ) (w : ℕ)
          → units ≡ init ++ w ∷ []
          → is_high w ≡ false
          → (out : List ℕ) × (utf16le_to_utf8 units out_len ≡ some out))
unfolding utf16le_to_utf8
utf16le_to_utf8_bounds units out_len h = (
  λ out e. subst (λ r. Fits out_len r) e (utf16_loop-Fits out_len units [] h),
  λ init w eu lo.
      subst (λ u. (out : List ℕ) × (utf16_loop out_len u [] ≡ some out)) (sym eu)
        (utf16_loop-inside out_len init w [] lo),
)
