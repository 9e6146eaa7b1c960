-- ===== src/Pdu/Tests.antt =====
-- Tests and instances for pdu.c and ucs2_utf8.c.
use qfenix.Common.{ℕ, ◌≤◌, ◌≡◌, ◌↔◌, ◌⊎◌, refl, ap, arith, none, some, List, [], ◌∷◌, length}
use qfenix.Pdu.Alphabet.{ascii_to_gsm7, latin1_to_gsm7, gsm7_from, codes_of, left_out, skipped}
use qfenix.Pdu.Alphabet.Trip.{IsCoded}
use qfenix.Pdu.Septets.{pdu_encode_7bit, pdu_decode_7bit, pack_from, octet}
use qfenix.Pdu.Septets.Trip.{IsSeptets, pdu_decode_7bit-encode}
use qfenix.Pdu.Phone.{encode_phone, phone_from, first_digit, second_digit, digit_of, is_refused}
use qfenix.Pdu.Phone.Trip.{IsNumber}
use qfenix.Pdu.Submit.{pdu_encode}
use qfenix.Pdu.Submit.Layout.{Carries, pdu_encode-Carries}
use qfenix.Pdu.Deliver.{pdu_decode, outside}
use qfenix.Pdu.Deliver.Reads.{pdu_decode_truncated}
use qfenix.Pdu.Utf8.{ucs2_to_utf8, bytes, surrogate_pair, bad_input}
use qfenix.Pdu.Utf8.Laws.{code_point, ucs2_to_utf8_cases}

-- "hello" and its octets.
abbrev hello : List ℕ
hello = 0x68 ∷ 0x65 ∷ 0x6c ∷ 0x6c ∷ 0x6f ∷ []

abbrev hello_octets : List ℕ
hello_octets = 0xe8 ∷ 0x32 ∷ 0x9b ∷ 0xfd ∷ 0x06 ∷ []

hello_packed : pdu_encode_7bit hello 0 5 ≡ some hello_octets
unfolding pdu_encode_7bit pack_from octet
hello_packed = refl

hello-IsSeptets : IsSeptets hello
hello-IsSeptets = (omega arith, (omega arith, (omega arith, (omega arith, (omega arith, tt)))))

pdu_decode_7bit-encode_example : pdu_decode_7bit hello_octets (length hello) ≡ some hello
pdu_decode_7bit-encode_example =
    pdu_decode_7bit-encode hello 0 5 hello_octets hello-IsSeptets (omega arith) hello_packed

-- Eight characters.
abbrev eight : List ℕ
eight = 0x61 ∷ 0x61 ∷ 0x61 ∷ 0x61 ∷ 0x61 ∷ 0x61 ∷ 0x61 ∷ 0x61 ∷ []

-- "a{", where the brace takes an escape.
abbrev brace : List ℕ
brace = 0x61 ∷ 0x7b ∷ []

brace-IsCoded : IsCoded brace
unfolding latin1_to_gsm7
brace-IsCoded = ((omega arith, refl), ((omega arith, refl), tt))

brace_codes : ascii_to_gsm7 brace ≡ 0x61 ∷ 0x1b ∷ 0x28 ∷ []
unfolding ascii_to_gsm7 gsm7_from codes_of left_out skipped latin1_to_gsm7
brace_codes = refl

abbrev number : List ℕ
number = 0x31 ∷ 0x32 ∷ 0x33 ∷ []

number-IsNumber : IsNumber number
number-IsNumber =
    ((omega arith, omega arith), ((omega arith, omega arith), ((omega arith, omega arith), tt)))

number_octets : encode_phone number 2 ≡ some (0x21 ∷ 0xf3 ∷ [])
unfolding encode_phone phone_from is_refused first_digit second_digit digit_of
number_octets = refl

pdu_encode-Carries_example : Carries (pdu_encode none number brace 0 256) number brace
pdu_encode-Carries_example =
    pdu_encode-Carries number brace 0 256 number-IsNumber brace-IsCoded
      (omega (arith, brace_length)) (omega arith) (omega (arith, brace_length))
      (omega (arith, brace_length))
  where
    brace_length : length (ascii_to_gsm7 brace) ≡ 3
    brace_length = ap length brace_codes

-- The euro sign.
abbrev euro : ℕ
euro = 0x20ac

ucs2_to_utf8_cases_example :
    ((out : List ℕ) → ucs2_to_utf8 euro ≡ bytes out → code_point out ≡ some euro)
    × (ucs2_to_utf8 euro ≡ surrogate_pair ↔ (0xD800 ≤ euro) × (euro ≤ 0xDFFF))
    × (ucs2_to_utf8 euro ≡ bad_input ↔ (euro ≡ 0xFFFF) ⊎ (0x10FFFF ≤ euro))
ucs2_to_utf8_cases_example = ucs2_to_utf8_cases euro

-- A message of two octets, and one whose sender has no name.
pdu_decode_truncated_example : pdu_decode (0 ∷ 4 ∷ []) 32 160 ≡ outside
pdu_decode_truncated_example = pdu_decode_truncated (0 ∷ 4 ∷ []) 32 160 refl
