-- ===== src/Pdu/Phone.antt =====
-- pdu.c: phone numbers in swapped nibbles (encode_phone, decode_phone).
pub mod Trip
use mathlib.Core.Option
use qfenix.Common.{
  ℕ, zero, suc, ◌+◌, ◌-◌, ◌*◌, ◌/◌, ◌%◌, ◌^◌, ◌<◌, ◌≤◌, ◌≡◌, ◌≢◌, refl, sym, ap, ap₂, ◌∙◌, arith,
  Bool, true, false, ◌&&◌,
}
use qfenix.Common.{
  Option, none, some, List, [], ◌∷◌, ltb, leb, if◌then◌else◌, bit_and, bit_or, length, All,
}
use qfenix.Common.Bits.{and_ones, or_low, or_shifted, and_comm, agree_upto, agree_upto_sound}

abbrev pub bitmask_high_4bits : ℕ
bitmask_high_4bits = 0xf0

abbrev pub bitmask_low_4bits : ℕ
bitmask_low_4bits = 0x0f

-- `phone[i] - '0'`, cut to a byte.
unfoldable pub digit_of : ℕ → ℕ
digit_of c = (c + (256 - 0x30)) % 256

-- The test of a character.
unfoldable pub is_refused : ℕ → Bool
is_refused c = ltb c 0x30 && ltb 0x39 c

unfoldable pub first_digit : ℕ → ℕ
unfolding digit_of
first_digit c = bit_or bitmask_high_4bits (digit_of c)

unfoldable pub second_digit : ℕ → ℕ → ℕ
unfolding digit_of
second_digit byte c = bit_or (bit_and byte bitmask_low_4bits) (digit_of c * 2 ^ 4 % 256)

unfoldable pub phone_from : List ℕ → Option (List ℕ)
unfolding is_refused first_digit second_digit
phone_from [] = some []
phone_from (c ∷ []) = if is_refused c then none else some (first_digit c ∷ [])
phone_from (c ∷ d ∷ rest) =
    if is_refused c
    then none
    else if is_refused d
    then none
    else Option.map (λ tail. second_digit (first_digit c) d ∷ tail) (phone_from rest)

-- The result is `none` for -1.
unfoldable pub encode_phone : List ℕ → ℕ → Option (List ℕ)
unfolding phone_from
encode_phone phone out_size =
    if ltb out_size ((length phone + 1) / 2) then none else phone_from phone

-- The number without the trailing NUL; the result is `none` for a read outside the buffer.
unfoldable pub decode_phone : List ℕ → ℕ → Option (List ℕ)
decode_phone buf zero = some []
decode_phone [] (suc phone_len) = none
decode_phone (byte ∷ rest) (suc zero) = some ((bit_and byte bitmask_low_4bits + 0x30) ∷ [])
decode_phone (byte ∷ rest) (suc (suc phone_len)) =
    Option.map
      (λ tail.
        (bit_and byte bitmask_low_4bits + 0x30)
        ∷ (bit_and byte bitmask_high_4bits / 2 ^ 4 + 0x30)
        ∷ tail)
      (decode_phone rest phone_len)
