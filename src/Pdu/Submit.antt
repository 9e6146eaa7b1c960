-- ===== src/Pdu/Submit.antt =====
-- pdu.c: a message to be sent (pdu_encode).
pub mod Layout
use qfenix.Common.{
  ℕ, ◌+◌, ◌-◌, ◌*◌, ◌%◌, Option, none, some, List, [], ◌∷◌, ◌++◌, ltb, if◌then◌else◌, length,
}
use qfenix.Pdu.Alphabet.{ascii_to_gsm7}
use qfenix.Pdu.Septets.{pdu_encode_7bit}
use qfenix.Pdu.Phone.{encode_phone}

abbrev pub sms_max_7bit_text_len : ℕ
sms_max_7bit_text_len = 160

-- The octets of the message, -1, or a write outside the local array for the codes.
pub data Encoded : Type 0 where
  sent : List ℕ → Encoded
  refused overrun : Encoded

-- Strings are without their NUL. A number that does not fit counts as none.
unfoldable pub smsc_part : Option (List ℕ) → ℕ → List ℕ
smsc_part none out_size = 0 ∷ []
smsc_part (some []) out_size = 0 ∷ []
smsc_part (some (c ∷ rest)) out_size = elim (encode_phone (c ∷ rest) (out_size - 2)) [
  | none ↦ 0 ∷ []
  | some bytes ↦ (length bytes + 1) % 256 ∷ 0x91 ∷ bytes
]

-- From the length of the number on. If it does not fit, what follows is written over its type.
unfoldable pub phone_part : List ℕ → ℕ → List ℕ
phone_part phone room = elim (encode_phone phone (room - 2)) [
  | none ↦ length phone % 256 ∷ []
  | some bytes ↦ length phone % 256 ∷ (if ltb (length phone) 6 then 0x81 else 0x91) ∷ bytes
]

-- The text, behind what `out` holds so far; `stale` is the byte of the array behind the codes.
unfoldable pub append_text : List ℕ → ℕ → ℕ → List ℕ → Encoded
append_text text stale out_size out =
    let codes = ascii_to_gsm7 text in
    if ltb (2 * sms_max_7bit_text_len) (length codes)
    then overrun
    else if ltb sms_max_7bit_text_len (length codes)
    then refused
    else elim (pdu_encode_7bit codes stale (out_size - length out - 1)) [
      | none ↦ refused
      | some body ↦ sent (out ++ length codes ∷ body)
    ]

unfoldable pub append_rest : List ℕ → List ℕ → ℕ → ℕ → List ℕ → Encoded
append_rest phone text stale out_size out =
    let out' = out ++ phone_part phone (out_size - length out) in
    if ltb out_size (length out' + 4)
    then refused
    else append_text text stale out_size (out' ++ 0x00 ∷ 0x00 ∷ 0xB0 ∷ [])

unfoldable pub pdu_encode : Option (List ℕ) → List ℕ → List ℕ → ℕ → ℕ → Encoded
pdu_encode smsc phone text stale out_size =
    if ltb out_size 2
    then refused
    else if ltb out_size (length (smsc_part smsc out_size) + 4)
    then refused
    else append_rest phone text stale out_size (smsc_part smsc out_size ++ 0x11 ∷ 0x00 ∷ [])
