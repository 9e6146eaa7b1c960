-- ===== src/Pdu/Phone/Trip.antt =====
-- pdu.c: what encode_phone accepts, and that decode_phone gets it back.
use mathlib.Core.Option
use qfenix.Common.{
  ℕ, ◌+◌, ◌-◌, ◌*◌, ◌/◌, ◌%◌, ◌^◌, ◌<◌, ◌≤◌, ◌≡◌, ◌≢◌, refl, sym, ap, ap₂, ◌∙◌, arith, true, false,
}
use qfenix.Common.{Option, none, some, List, [], ◌∷◌, bit_and, length, All}
use qfenix.Common.Bits.{agree_upto, agree_upto_sound}
use qfenix.Pdu.Phone.{
  bitmask_high_4bits, bitmask_low_4bits, digit_of, is_refused, first_digit, second_digit,
  phone_from, encode_phone, decode_phone,
}

abbrev pub IsDigit : ℕ → Type 0
IsDigit c = (0x30 ≤ c) × (c < 0x3a)

abbrev pub IsNumber : List ℕ → Type 0
IsNumber phone = All IsDigit phone

-- No character is refused.
none_refused : (c : ℕ) → is_refused c ≡ false
unfolding is_refused
none_refused c = ground arith

some_after : (b : ℕ) (o : Option (List ℕ)) → o ≢ none → Option.map (λ tail. b ∷ tail) o ≢ none
some_after b none k e = k refl
some_after b (some tail) k e = ground (arith, e)

phone_from-ne-none : (phone : List ℕ) → phone_from phone ≢ none
unfolding phone_from
phone_from-ne-none [] e = ground (arith, e)
phone_from-ne-none (c ∷ []) e = ground (arith, none_refused c, e)
phone_from-ne-none (c ∷ d ∷ rest) e =
    some_after (second_digit (first_digit c) d) (phone_from rest) (phone_from-ne-none rest)
      (ground (arith, none_refused c, none_refused d, e))

-- With room for the nibbles no number is refused, whatever its characters are.
pub encode_phone-ne-none :
    (phone : List ℕ) (out_size : ℕ)
    → (length phone + 1) / 2 ≤ out_size
    → encode_phone phone out_size ≢ none
unfolding encode_phone
encode_phone-ne-none phone out_size h e = phone_from-ne-none phone (ground (arith, h, e))

low_table :
    agree_upto
      (λ n.
        bit_and (second_digit (first_digit (n / 10 + 0x30)) (n % 10 + 0x30)) bitmask_low_4bits
        + 0x30)
      (λ n. n / 10 + 0x30)
      100
    ≡ true
unfolding agree_upto first_digit second_digit digit_of
low_table = refl

high_table :
    agree_upto
      (λ n.
        bit_and (second_digit (first_digit (n / 10 + 0x30)) (n % 10 + 0x30)) bitmask_high_4bits
          / 2 ^ 4
        + 0x30)
      (λ n. n % 10 + 0x30)
      100
    ≡ true
unfolding agree_upto first_digit second_digit digit_of
high_table = refl

last_table :
    agree_upto (λ n. bit_and (first_digit (n + 0x30)) bitmask_low_4bits + 0x30) (λ n. n + 0x30) 10
    ≡ true
unfolding agree_upto first_digit digit_of
last_table = refl

two_digits :
    (c d : ℕ)
    → IsDigit c
    → IsDigit d
    → (bit_and (second_digit (first_digit c) d) bitmask_low_4bits + 0x30 ≡ c)
      × (bit_and (second_digit (first_digit c) d) bitmask_high_4bits / 2 ^ 4 + 0x30 ≡ d)
two_digits c d hc hd =
    let n = (c - 0x30) * 10 + (d - 0x30) in
    let small : n < 100 = omega (arith, hc.0, hc.1, hd.0, hd.1) in
    let ec : n / 10 + 0x30 ≡ c = omega (arith, hc.0, hc.1, hd.0, hd.1) in
    let ed : n % 10 + 0x30 ≡ d = omega (arith, hc.0, hc.1, hd.0, hd.1) in
    (
      ap₂ (λ (x y : ℕ). bit_and (second_digit (first_digit x) y) bitmask_low_4bits + 0x30) (sym ec)
            (sym ed)
          ∙ agree_upto_sound
              (λ k.
                bit_and (second_digit (first_digit (k / 10 + 0x30)) (k % 10 + 0x30))
                  bitmask_low_4bits
                + 0x30)
              (λ k. k / 10 + 0x30) 100 n low_table small
          ∙ ec,
      ap₂ (λ (x y : ℕ). bit_and (second_digit (first_digit x) y) bitmask_high_4bits / 2 ^ 4 + 0x30)
            (sym ec) (sym ed)
          ∙ agree_upto_sound
              (λ k.
                bit_and (second_digit (first_digit (k / 10 + 0x30)) (k % 10 + 0x30))
                    bitmask_high_4bits
                  / 2 ^ 4
                + 0x30)
              (λ k. k % 10 + 0x30) 100 n high_table small
          ∙ ed,
    )

last_digit : (c : ℕ) → IsDigit c → bit_and (first_digit c) bitmask_low_4bits + 0x30 ≡ c
last_digit c h =
    let e : c - 0x30 + 0x30 ≡ c = omega (arith, h.0) in
    ap (λ (x : ℕ). bit_and (first_digit x) bitmask_low_4bits + 0x30) (sym e)
    ∙ agree_upto_sound (λ k. bit_and (first_digit (k + 0x30)) bitmask_low_4bits + 0x30)
        (λ k. k + 0x30) 10 (c - 0x30) last_table (omega (arith, h.0, h.1))
    ∙ e

-- The octets of a number.
pub nibbles : List ℕ → List ℕ
nibbles [] = []
nibbles (c ∷ []) = first_digit c ∷ []
nibbles (c ∷ d ∷ rest) = second_digit (first_digit c) d ∷ nibbles rest

phone_from-eq : (phone : List ℕ) → phone_from phone ≡ some (nibbles phone)
unfolding phone_from nibbles
phone_from-eq [] = refl
phone_from-eq (c ∷ []) = ground (arith, none_refused c)
phone_from-eq (c ∷ d ∷ rest) = ground (arith, none_refused c, none_refused d, phone_from-eq rest)

trip : (phone : List ℕ) → IsNumber phone → decode_phone (nibbles phone) (length phone) ≡ some phone
unfolding nibbles decode_phone
trip [] h = refl
trip (c ∷ []) h = ap (λ (x : ℕ). some (x ∷ [])) (last_digit c h.0)
trip (c ∷ d ∷ rest) h =
    let both = two_digits c d h.0 h.1.0 in
    ap (λ (o : Option (List ℕ)). Option.map (λ tail. low c d ∷ high c d ∷ tail) o) (trip rest h.1.1)
    ∙ ap₂ (λ (x y : ℕ). some (x ∷ y ∷ rest)) both.0 both.1
  where
    low : ℕ → ℕ → ℕ
    low x y = bit_and (second_digit (first_digit x) y) bitmask_low_4bits + 0x30

    high : ℕ → ℕ → ℕ
    high x y = bit_and (second_digit (first_digit x) y) bitmask_high_4bits / 2 ^ 4 + 0x30

pub length-nibbles : (phone : List ℕ) → length (nibbles phone) ≡ (length phone + 1) / 2
unfolding nibbles
length-nibbles [] = refl
length-nibbles (c ∷ []) = refl
length-nibbles (c ∷ d ∷ rest) = omega (arith, length-nibbles rest)

pub encode_phone-eq :
    (phone : List ℕ) (out_size : ℕ)
    → (length phone + 1) / 2 ≤ out_size
    → encode_phone phone out_size ≡ some (nibbles phone)
unfolding encode_phone
encode_phone-eq phone out_size h = ground (arith, h, phone_from-eq phone)

-- A number of decimal digits that was encoded is decoded to itself at its length, whether that is
-- even or odd.
pub decode_phone-encode_phone :
    (phone : List ℕ) (out_size : ℕ) (out : List ℕ)
    → IsNumber phone
    → encode_phone phone out_size ≡ some out
    → decode_phone out (length phone) ≡ some phone
unfolding encode_phone
decode_phone-encode_phone phone out_size out h e =
    ap (λ (bytes : List ℕ). decode_phone bytes (length phone))
      (sym (ground (arith, phone_from-eq phone, e)))
    ∙ trip phone h
