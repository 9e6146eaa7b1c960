-- ===== src/Pdu/Utf8.antt =====
-- ucs2_utf8.c: a code point to UTF-8.
pub mod Laws
use qfenix.Common.{
  ℕ, ◌*◌, ◌/◌, ◌^◌, Bool, List, [], ◌∷◌, ltb, leb, ◌&&◌, if◌then◌else◌, bit_and, bit_or,
}

-- The bytes before the NUL, whose number is returned, UNICODE_SURROGATE_PAIR, or UNICODE_BAD_INPUT.
pub data Utf8Result : Type 0 where
  bytes : List ℕ → Utf8Result
  surrogate_pair bad_input : Utf8Result

unfoldable pub ucs2_to_utf8 : ℕ → Utf8Result
ucs2_to_utf8 ucs2 =
    if ltb ucs2 0x80
    then bytes (ucs2 ∷ [])
    else if leb 0x80 ucs2 && ltb ucs2 0x800
    then bytes (bit_or (ucs2 / 2 ^ 6) 0xC0 ∷ bit_or (bit_and ucs2 0x3F) 0x80 ∷ [])
    else if leb 0x800 ucs2 && ltb ucs2 0xFFFF
    then if leb 0xD800 ucs2 && leb ucs2 0xDFFF
      then surrogate_pair
      else bytes (
          bit_or (ucs2 / 2 ^ 12) 0xE0
          ∷ bit_or (bit_and (ucs2 / 2 ^ 6) 0x3F) 0x80
          ∷ bit_or (bit_and ucs2 0x3F) 0x80
          ∷ [])
    else if leb 0x10000 ucs2 && ltb ucs2 0x10FFFF
    then bytes (
        bit_or 0xF0 (ucs2 / 2 ^ 18)
        ∷ bit_or 0x80 (bit_and (ucs2 / 2 ^ 12) 0x3F)
        ∷ bit_or 0x80 (bit_and (ucs2 / 2 ^ 6) 0x3F)
        ∷ bit_or 0x80 (bit_and ucs2 0x3F)
        ∷ [])
    else bad_input
