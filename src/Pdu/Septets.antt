-- ===== src/Pdu/Septets.antt =====
-- pdu.c: septets packed into octets (pdu_encode_7bit, pdu_decode_7bit).
pub mod Shifts
pub mod Trip
use qfenix.Common.{
  ℕ, zero, suc, ◌+◌, ◌-◌, ◌*◌, ◌/◌, ◌%◌, ◌^◌, ◌≤◌, ◌<◌, ◌≡◌, refl, arith, Bool, true, false,
}
use qfenix.Common.{
  Option, none, some, List, [], ◌∷◌, ◌==◌, ltb, if◌then◌else◌, bit_and, bit_or, length,
}

abbrev pub bitmask_7bits : ℕ
bitmask_7bits = 0x7f

-- What the loop stores for a character and the next one.
unfoldable pub octet : ℕ → ℕ → ℕ → ℕ
octet carry c d =
    bit_or (bit_and c bitmask_7bits / 2 ^ (carry - 1)) (bit_and d bitmask_7bits * 2 ^ (8 - carry))
    % 256

-- The loop and the last octet, from the first of the characters that are left; `after` is what
-- the array holds behind the last character.
unfoldable pub pack_from : ℕ → ℕ → List ℕ → List ℕ
pack_from after carry [] = bit_and after bitmask_7bits / 2 ^ (carry - 1) ∷ []
pack_from after carry (c ∷ []) = bit_and c bitmask_7bits / 2 ^ (carry - 1) ∷ []
pack_from after carry (c ∷ d ∷ rest) = octet carry c d ∷ elim (carry + 1 == 8) [
  | true ↦ pack_from after 1 rest
  | false ↦ pack_from after (carry + 1) (d ∷ rest)
]

-- The result is `none` for -1.
unfoldable pub pdu_encode_7bit : List ℕ → ℕ → ℕ → Option (List ℕ)
pdu_encode_7bit text after out_size =
    if ltb out_size ((length text * 7 + 7) / 8) then none else some (pack_from after 1 text)

unfoldable pub septet : ℕ → ℕ → ℕ → ℕ
septet carry byte before =
    bit_and bitmask_7bits (bit_or (byte * 2 ^ carry) (before / 2 ^ (8 - carry)))

-- The loop and what follows it, with room for `room` characters; `before` is the octet before those
-- that are left.
unfoldable pub unpack_from : ℕ → ℕ → ℕ → List ℕ → List ℕ
unpack_from room carry before [] = if room == 0 then [] else before / 2 ^ (8 - carry) ∷ []
unpack_from room carry before (byte ∷ rest) = septet carry byte before ∷ elim (room == 1) [
  | true ↦ []
  | false ↦ elim (carry + 1 == 8) [
    | true ↦
        bit_and byte bitmask_7bits
        ∷ elim (room == 2) [ true ↦ [] | false ↦ unpack_from (room - 2) 1 byte rest ]
    | false ↦ unpack_from (room - 1) (carry + 1) byte rest
  ]
]

-- The result is `none` where an empty buffer is read.
unfoldable pub pdu_decode_7bit : List ℕ → ℕ → Option (List ℕ)
pdu_decode_7bit [] out_len = if ltb 1 out_len then none else some []
pdu_decode_7bit (byte ∷ rest) out_len = some (
    bit_and bitmask_7bits byte
    ∷ (if ltb 1 out_len then unpack_from (out_len - 1) 1 byte rest else []))
