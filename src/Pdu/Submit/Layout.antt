-- ===== src/Pdu/Submit/Layout.antt =====
-- pdu.c: what pdu_encode makes of a number and a text that fit.
use qfenix.Common.{
  ℕ, ◌+◌, ◌-◌, ◌/◌, ◌<◌, ◌≤◌, ◌≡◌, ap, ◌∙◌, arith, none, some, List, [], ◌∷◌, ◌++◌, ltb,
  if◌then◌else◌, length,
}
use mathlib.Core.List.{append_assoc}
use qfenix.Common.{length-append}
use qfenix.Pdu.Alphabet.{ascii_to_gsm7, gsm7_to_ascii}
use qfenix.Pdu.Alphabet.Trip.{IsCoded, ascii_to_gsm7-IsSeptets, gsm7_to_ascii-ascii_to_gsm7}
use qfenix.Pdu.Septets.{pdu_encode_7bit, pdu_decode_7bit, pack_from}
use qfenix.Pdu.Septets.Trip.{pdu_decode_7bit-encode}
use qfenix.Pdu.Phone.{decode_phone}
use qfenix.Pdu.Phone.Trip.{
  IsNumber, nibbles, length-nibbles, encode_phone-eq, decode_phone-encode_phone,
}
use qfenix.Pdu.Submit.{Encoded, sent, phone_part, append_text, append_rest, pdu_encode, smsc_part}

-- A message without a service centre that has a number and a text in it.
pub record Carries (message : Encoded) (phone text : List ℕ) : Type 0 where
  pub number : List ℕ
  pub toa : ℕ
  pub body : List ℕ
  pub layout :
      message
      ≡ sent (
          0x00
          ∷ 0x11
          ∷ 0x00
          ∷ length phone
          ∷ toa
          ∷ (number ++ 0x00 ∷ 0x00 ∷ 0xB0 ∷ length (ascii_to_gsm7 text) ∷ body))
  pub phone_back : decode_phone number (length phone) ≡ some phone
  pub codes_back : pdu_decode_7bit body (length (ascii_to_gsm7 text)) ≡ some (ascii_to_gsm7 text)
  pub text_back : gsm7_to_ascii (ascii_to_gsm7 text) ≡ some text

phone_part_fits :
    (phone : List ℕ) (room : ℕ)
    → length phone < 256
    → (length phone + 1) / 2 + 2 ≤ room
    → phone_part phone room
      ≡ length phone ∷ (if ltb (length phone) 6 then 0x81 else 0x91) ∷ nibbles phone
unfolding phone_part
phone_part_fits phone room h fits =
    ground (arith, h, encode_phone-eq phone (room - 2) (omega (arith, fits)))

append_text_fits :
    (text : List ℕ) (stale out_size : ℕ) (out : List ℕ)
    → length (ascii_to_gsm7 text) ≤ 160
    → length out + length (ascii_to_gsm7 text) + 1 ≤ out_size
    → append_text text stale out_size out
      ≡ sent (out ++ length (ascii_to_gsm7 text) ∷ pack_from stale 1 (ascii_to_gsm7 text))
unfolding append_text pdu_encode_7bit
append_text_fits text stale out_size out short fits = ground (arith, short, fits)

-- Everything of a message that fits.
whole : List ℕ → List ℕ → ℕ → List ℕ
whole phone text stale =
    0x00
    ∷ 0x11
    ∷ 0x00
    ∷ length phone
    ∷ (if ltb (length phone) 6 then 0x81 else 0x91)
    ∷ (nibbles phone
        ++ 0x00
          ∷ 0x00
          ∷ 0xB0
          ∷ length (ascii_to_gsm7 text)
          ∷ pack_from stale 1 (ascii_to_gsm7 text))

rest_runs :
    (phone text : List ℕ) (stale out_size : ℕ) (part : List ℕ) (r : Encoded)
    → phone_part phone (out_size - 3) ≡ part
    → length part + 7 ≤ out_size
    → append_text text stale out_size (0x00 ∷ 0x11 ∷ 0x00 ∷ (part ++ 0x00 ∷ 0x00 ∷ 0xB0 ∷ [])) ≡ r
    → append_rest phone text stale out_size (0x00 ∷ 0x11 ∷ 0x00 ∷ []) ≡ r
unfolding append_rest
rest_runs phone text stale out_size part r e fits more = rw e (ground (arith, fits, more))

append_rest_fits :
    (phone text : List ℕ) (stale out_size : ℕ)
    → length phone < 256
    → length (ascii_to_gsm7 text) ≤ 160
    → (length phone + 1) / 2 + length (ascii_to_gsm7 text) + 9 ≤ out_size
    → append_rest phone text stale out_size (0x00 ∷ 0x11 ∷ 0x00 ∷ [])
      ≡ sent (whole phone text stale)
unfolding whole
append_rest_fits phone text stale out_size small short fits =
    let part = length phone ∷ (if ltb (length phone) 6 then 0x81 else 0x91) ∷ nibbles phone in
    let before = 0x00 ∷ 0x11 ∷ 0x00 ∷ (part ++ 0x00 ∷ 0x00 ∷ 0xB0 ∷ []) in
    rest_runs phone text stale out_size part (sent (whole phone text stale))
      (phone_part_fits phone (out_size - 3) small (omega (arith, fits)))
      (omega (arith, fits, length-nibbles phone))
      (append_text_fits text stale out_size before short (
          omega (
            arith,
            fits,
            length-nibbles phone,
            length-append (nibbles phone) (0x00 ∷ 0x00 ∷ 0xB0 ∷ []),
          ))
        ∙ ap
            (λ (t : List ℕ). sent (
              0x00
              ∷ 0x11
              ∷ 0x00
              ∷ length phone
              ∷ (if ltb (length phone) 6 then 0x81 else 0x91)
              ∷ t))
            (append_assoc (nibbles phone) (0x00 ∷ 0x00 ∷ 0xB0 ∷ [])
              (length (ascii_to_gsm7 text) ∷ pack_from stale 1 (ascii_to_gsm7 text))))

-- A decimal number and a text in the alphabet of at most 160 codes, with room in the buffer, give a
-- message from which the receiver's routines get back the number, the codes and the text.
pub pdu_encode-Carries :
    (phone text : List ℕ) (stale out_size : ℕ)
    → IsNumber phone
    → IsCoded text
    → 0 < length (ascii_to_gsm7 text)
    → length phone < 256
    → length (ascii_to_gsm7 text) ≤ 160
    → (length phone + 1) / 2 + length (ascii_to_gsm7 text) + 9 ≤ out_size
    → Carries (pdu_encode none phone text stale out_size) phone text
unfolding pdu_encode smsc_part whole pdu_encode_7bit
pdu_encode-Carries phone text stale out_size digits coded some_text small short fits =
    let codes = ascii_to_gsm7 text in
    record {
      number = nibbles phone;
      toa = if ltb (length phone) 6 then 0x81 else 0x91;
      body = pack_from stale 1 codes;
      layout = ground (arith, fits, append_rest_fits phone text stale out_size small short fits);
      phone_back =
          decode_phone-encode_phone phone out_size (nibbles phone) digits
            (encode_phone-eq phone out_size (omega (arith, fits)));
      codes_back =
          pdu_decode_7bit-encode codes stale (length codes) (pack_from stale 1 codes)
            (ascii_to_gsm7-IsSeptets text coded) some_text (packs codes stale);
      text_back = gsm7_to_ascii-ascii_to_gsm7 text coded;
    }
  where
    packs :
        (codes : List ℕ) (after : ℕ)
        → pdu_encode_7bit codes after (length codes) ≡ some (pack_from after 1 codes)
    packs codes after = ground arith
