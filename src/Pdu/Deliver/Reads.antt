-- ===== src/Pdu/Deliver/Reads.antt =====
-- pdu.c: messages that make pdu_decode leave its arrays.
use qfenix.Common.{ℕ, ◌+◌, ◌<◌, ◌≤◌, ◌≡◌, arith, List, length, get_or}
use qfenix.Pdu.Deliver.{parsed, outside, byte_at, slice, pdu_decode, name_of, sender}
use qfenix.Pdu.Septets.{pdu_decode_7bit}

byte_outside : (buf : List ℕ) (i : ℕ) → length buf ≤ i → byte_at buf i ≡ outside
unfolding byte_at
byte_outside buf i h = ground (arith, h)

byte_inside : (buf : List ℕ) (i : ℕ) → i < length buf → byte_at buf i ≡ parsed (get_or buf i 0)
unfolding byte_at
byte_inside buf i h = ground (arith, h)

-- A message that ends with the first octet after the service centre passes the test of its length,
-- and the octet behind it is read.
pub pdu_decode_truncated :
    (buf : List ℕ) (phone_size text_size : ℕ)
    → length buf ≡ get_or buf 0 0 + 2
    → pdu_decode buf phone_size text_size ≡ outside
unfolding pdu_decode
pdu_decode_truncated buf phone_size text_size h = ground (
  arith,
  h,
  byte_inside buf 0 (omega (arith, h)),
  byte_inside buf (1 + get_or buf 0 0) (omega (arith, h)),
  byte_outside buf (1 + get_or buf 0 0 + 1) (omega (arith, h)),
)

nameless : (buf : List ℕ) (start : ℕ) → sender buf start 0 0xD0 ≡ outside
unfolding sender slice name_of pdu_decode_7bit
nameless buf start = ground arith

-- A message whose sender is a name of no characters makes it store the NUL before the array for the
-- name, wherever the message ends behind the type of the address.
pub pdu_decode_nameless :
    (buf : List ℕ) (phone_size text_size : ℕ)
    → 0 < phone_size
    → get_or buf 0 0 + 3 < length buf
    → get_or buf (1 + get_or buf 0 0 + 1) 0 ≡ 0
    → get_or buf (1 + get_or buf 0 0 + 2) 0 ≡ 0xD0
    → pdu_decode buf phone_size text_size ≡ outside
unfolding pdu_decode
pdu_decode_nameless buf phone_size text_size pos room none_there name = ground (
  arith,
  room,
  pos,
  byte_inside buf 0 (omega (arith, room)),
  byte_inside buf (1 + get_or buf 0 0) (omega (arith, room)),
  byte_inside buf (1 + get_or buf 0 0 + 1) (omega (arith, room)),
  byte_inside buf (1 + get_or buf 0 0 + 2) (omega (arith, room)),
  none_there,
  name,
  nameless buf (1 + get_or buf 0 0 + 3),
)
