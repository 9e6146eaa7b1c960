-- ===== src/Gpt/Utf16.antt =====
-- gpt.c: names of partitions, from UTF-16 to UTF-8.
pub mod Laws
use qfenix.Common.{
  ℕ, ◌+◌, ◌-◌, ◌*◌, ◌/◌, ◌^◌, Bool, true, false, Option, none, some, List, [], ◌∷◌, ◌++◌, length,
  ◌==◌, ltb, leb, ◌&&◌, if◌then◌else◌, bit_and, bit_or,
}

unfoldable pub is_high : ℕ → Bool
is_high w = leb 0xd800 w && leb w 0xdbff

unfoldable pub is_low : ℕ → Bool
is_low w = leb 0xdc00 w && leb w 0xdfff

-- The code point of a high surrogate and the unit after it.
unfoldable pub pair_codepoint : ℕ → ℕ → ℕ
unfolding is_low
pair_codepoint w v =
    if is_low v then bit_or ((w - 0xd800) * 2 ^ 10) (v - 0xdc00) + 0x10000 else 0xfffd

-- The code point of a unit that is no high surrogate.
unfoldable pub unit_codepoint : ℕ → ℕ
unfolding is_low
unit_codepoint w = if is_low w then 0xfffd else w

-- The bytes of a code point.
unfoldable pub codepoint_bytes : ℕ → List ℕ
codepoint_bytes c =
    if leb c 0x7f
    then c ∷ []
    else if leb c 0x7ff
    then bit_or 0xc0 (bit_and (c / 2 ^ 6) 0x1f) ∷ bit_or 0x80 (bit_and c 0x3f) ∷ []
    else if leb c 0xffff
    then bit_or 0xe0 (bit_and (c / 2 ^ 12) 0x0f)
      ∷ bit_or 0x80 (bit_and (c / 2 ^ 6) 0x3f)
      ∷ bit_or 0x80 (bit_and c 0x3f)
      ∷ []
    else if leb c 0x10ffff
    then bit_or 0xf0 (bit_and (c / 2 ^ 18) 0x07)
      ∷ bit_or 0x80 (bit_and (c / 2 ^ 12) 0x3f)
      ∷ bit_or 0x80 (bit_and (c / 2 ^ 6) 0x3f)
      ∷ bit_or 0x80 (bit_and c 0x3f)
      ∷ []
    else []

-- One round's output, where `out` holds the `j` bytes so far; `none` for `break`.
unfoldable pub put_codepoint : ℕ → ℕ → List ℕ → Option (List ℕ)
put_codepoint out_len c out =
    if c == 0
    then none
    else if leb c 0x10ffff && leb out_len (length out + length (codepoint_bytes c))
    then none
    else some (out ++ codepoint_bytes c)

-- The loop; `none` for a read of the unit after the last one.
unfoldable pub utf16_loop : ℕ → List ℕ → List ℕ → Option (List ℕ)
unfolding is_high
utf16_loop out_len [] out = some out
utf16_loop out_len (w ∷ []) out = elim (is_high w) [
  | true ↦ none
  | false ↦ elim (put_codepoint out_len (unit_codepoint w) out) [
    | none ↦ some out
    | some more ↦ some more
  ]
]
utf16_loop out_len (w ∷ v ∷ rest) out = elim (is_high w) [
  | true ↦ elim (put_codepoint out_len (pair_codepoint w v) out) [
    | none ↦ some out
    | some more ↦ utf16_loop out_len rest more
  ]
  | false ↦ elim (put_codepoint out_len (unit_codepoint w) out) [
    | none ↦ some out
    | some more ↦ utf16_loop out_len (v ∷ rest) more
  ]
]

-- The bytes before the NUL.
unfoldable pub utf16le_to_utf8 : List ℕ → ℕ → Option (List ℕ)
unfolding utf16_loop
utf16le_to_utf8 units out_len = utf16_loop out_len units []
