-- ===== src/Pdu/Deliver.antt =====
-- pdu.c: a message that was received (pdu_decode).
pub mod Reads
use mathlib.Core.Option
use qfenix.Common.{
  ℕ, ◌+◌, ◌-◌, ◌*◌, ◌/◌, ◌%◌, ◌^◌, Bool, true, false, Option, none, some, List, [], ◌∷◌, ◌++◌,
}
use qfenix.Common.{◌==◌, ltb, leb, if◌then◌else◌, bit_and, length, take, drop, get_or}
use qfenix.Pdu.Alphabet.{gsm7_to_ascii}
use qfenix.Pdu.Septets.{pdu_decode_7bit}
use qfenix.Pdu.Phone.{decode_phone}

-- A value, a negative result, or an access outside an array.
pub data Parse (A : Type 0) : Type 0 where
  parsed : A → Parse A
  refused : ℕ → Parse A
  outside : Parse A

infixl 5 ◌>>=◌
abbrev pub ◌>>=◌ : {A B : Type 0} → Parse A → (A → Parse B) → Parse B
parsed a >>= f = f a
refused code >>= f = refused code
outside >>= f = outside

abbrev pub or_outside : {A : Type 0} → Option A → Parse A
or_outside none = outside
or_outside (some a) = parsed a

unfoldable pub byte_at : List ℕ → ℕ → Parse ℕ
byte_at buf i = if ltb i (length buf) then parsed (get_or buf i 0) else outside

-- `n` bytes from a position on.
unfoldable pub slice : List ℕ → ℕ → ℕ → Parse (List ℕ)
slice buf i n = if leb (i + n) (length buf) then parsed (take n (drop i buf)) else outside

-- The outputs. `tm` has the swapped bytes of the date, from the year to the second, as they are
-- read; `text` is empty where the buffer for the text is left as it was.
pub record Message : Type 0 where
  pub phone : List ℕ
  pub tm : List ℕ
  pub tp_dcs : ℕ
  pub ref_number : ℕ
  pub total_parts : ℕ
  pub part_number : ℕ
  pub skip_bytes : ℕ
  pub text : Option (List ℕ)
  pub text_len : ℕ

unfoldable pub swap_decimal_nibble : ℕ → ℕ
swap_decimal_nibble x = x / 16 + x % 16 * 10

-- `gsm7_to_ascii(phone, len1 - 1)`; without a character the NUL is stored before the array.
unfoldable pub name_of : List ℕ → Parse (List ℕ)
name_of septets =
    if length septets == 0
    then outside
    else or_outside (gsm7_to_ascii (take (length septets - 1) septets))

unfoldable pub sender : List ℕ → ℕ → ℕ → ℕ → Parse (List ℕ)
sender buf start sender_len sender_toa = elim (sender_toa == 0xD0) [
  | true ↦ do
    packed ← slice buf start ((sender_len + 1) / 2)
    septets ← or_outside (pdu_decode_7bit packed sender_len)
    name_of septets
  | false ↦ do
    digits ← slice buf start ((sender_len + 1) / 2)
    or_outside (decode_phone digits sender_len)
]

unfoldable pub timestamp : List ℕ → ℕ → Parse (List ℕ)
timestamp buf at_time = do
  year ← byte_at buf at_time
  month ← byte_at buf (at_time + 1)
  day ← byte_at buf (at_time + 2)
  hour ← byte_at buf (at_time + 3)
  minute ← byte_at buf (at_time + 4)
  second ← byte_at buf (at_time + 5)
  parsed (
      swap_decimal_nibble year
      ∷ swap_decimal_nibble month
      ∷ swap_decimal_nibble day
      ∷ swap_decimal_nibble hour
      ∷ swap_decimal_nibble minute
      ∷ swap_decimal_nibble second
      ∷ [])

-- Where a part stands in its message: the bytes to skip, the reference, the count, the number.
pub record Parts : Type 0 where
  pub skip : ℕ
  pub reference : ℕ
  pub total : ℕ
  pub number : ℕ

unfoldable pub parts_of : List ℕ → ℕ → ℕ → Parse Parts
parts_of buf sms_start udh_len = elim (bit_and udh_len 0x04 == 0x04) [
  | true ↦ do
    header ← byte_at buf (sms_start + 1)
    reference ← byte_at buf (sms_start + (header + 1) - 2)
    total ← byte_at buf (sms_start + (header + 1) - 1)
    number ← byte_at buf (sms_start + (header + 1))
    parsed (record { skip = header + 1; reference = reference; total = total; number = number })
  | false ↦ parsed (record { skip = 0; reference = 0; total = 0; number = 0 })
]

-- The NUL behind the text, or in place of its last character.
unfoldable pub closed : ℕ → List ℕ → List ℕ
closed text_size text =
    if ltb (length text) text_size then text else take (text_size - 1) text ++ 0 ∷ []

-- The text before its end is marked, and the length that is returned.
unfoldable pub body_of : List ℕ → ℕ → ℕ → ℕ → Parse (Option (List ℕ) × ℕ)
body_of buf sms_start tp_dcs text_len = elim (tp_dcs / 4 % 4 == 0) [
  | true ↦ do
    septets ← or_outside (pdu_decode_7bit (drop (sms_start + 1) buf) text_len)
    elim (length septets == text_len) [
      | false ↦ refused 1
      | true ↦ do text ← or_outside (gsm7_to_ascii septets); parsed (some text, length text)
    ]
  | false ↦ elim (tp_dcs / 4 % 4 == 2) [
    | true ↦ do text ← slice buf (sms_start + 1) text_len; parsed (some text, text_len)
    | false ↦ parsed (none, text_len)
  ]
]

-- From the date on.
unfoldable pub message_of : List ℕ → ℕ → ℕ → ℕ → List ℕ → Parse Message
message_of buf text_size udh_len sms_pid_start phone = do
  tm ← timestamp buf (sms_pid_start + 2)
  elim (ltb (length buf) (sms_pid_start + 9 + 1)) [
    | true ↦ refused 1
    | false ↦ do
      parts ← parts_of buf (sms_pid_start + 9) udh_len
      text_len ← byte_at buf (sms_pid_start + 9)
      elim (ltb text_size text_len) [
        | true ↦ refused 1
        | false ↦ do
          tp_dcs ← byte_at buf (sms_pid_start + 1)
          body ← body_of buf (sms_pid_start + 9) tp_dcs text_len
          parsed (record {
            phone = phone;
            tm = tm;
            tp_dcs = tp_dcs;
            ref_number = parts.reference;
            total_parts = parts.total;
            part_number = parts.number;
            skip_bytes = parts.skip;
            text = Option.map (closed text_size) body.0;
            text_len = body.1;
          })
      ]
  ]

-- The buffer is the list, and `buf_len` its length.
unfoldable pub pdu_decode : List ℕ → ℕ → ℕ → Parse Message
pdu_decode buf phone_size text_size = elim (length buf == 0) [
  | true ↦ refused 1
  | false ↦ do
    smsc_len ← byte_at buf 0
    elim (ltb (length buf) (1 + smsc_len + 1)) [
      | true ↦ refused 2
      | false ↦ do
        first ← byte_at buf (1 + smsc_len)
        sender_len ← byte_at buf (1 + smsc_len + 1)
        elim (ltb phone_size (sender_len + 1)) [
          | true ↦ refused 3
          | false ↦ do
            sender_toa ← byte_at buf (1 + smsc_len + 2)
            phone ← sender buf (1 + smsc_len + 3) sender_len sender_toa
            message_of buf text_size (first / 2 ^ 4) (1 + smsc_len + 3 + (sender_len + 1) / 2) phone
        ]
    ]
]
