-- ===== src/Hdlc/Check.antt =====
-- The two bytes that `hdlc_encode` appends, and the test that `hdlc_decode` makes of them.
use qfenix.Common.{ℕ, ◌+◌, ◌/◌, ◌%◌, ◌^◌, ◌<◌, bit_xor, ◌≡◌, refl, arith}
use qfenix.Common.{some, List, [], ◌∷◌, ◌++◌, ap, ap₂, sym, ◌∙◌, IsBytes, length, take, drop}
use qfenix.Common.{length-append, length-drop, All-take, All-drop, take-append-drop}
use qfenix.Common.Bits.{xor-lt, and_ones}
use qfenix.Hdlc.{crc16_step, hdlc_crc16, crc_bytes, check_crc, Decoded}
use qfenix.Hdlc.Residue.{
  complement_low, first_residue, second_residue, two_bytes_injective, hdlc_crc16-lt,
}

pub hdlc_crc16-append :
    (c : ℕ) (xs ys : List ℕ) → hdlc_crc16 c (xs ++ ys) ≡ hdlc_crc16 (hdlc_crc16 c xs) ys
unfolding hdlc_crc16
hdlc_crc16-append c [] ys = refl
hdlc_crc16-append c (x ∷ xs) ys = hdlc_crc16-append (crc16_step c x) xs ys

pub hdlc_crc16_two :
    (c a b : ℕ) (rest : List ℕ)
    → hdlc_crc16 (crc16_step (crc16_step c a) b) rest ≡ hdlc_crc16 c (a ∷ b ∷ rest)
unfolding hdlc_crc16
hdlc_crc16_two c a b rest = refl

abbrev register : List ℕ → ℕ
register = hdlc_crc16 0xffff

pub register-lt : (cmd : List ℕ) → IsBytes cmd → register cmd < 2 ^ 16
register-lt cmd h = hdlc_crc16-lt 0xffff cmd (omega arith) h

crc_bytes_lem :
    (cmd : List ℕ)
    → IsBytes cmd
    → crc_bytes cmd ≡ bit_xor (register cmd % 2 ^ 8) 0xff ∷ bit_xor (register cmd / 2 ^ 8) 0xff ∷ []
unfolding crc_bytes
crc_bytes_lem cmd h =
    ap₂ (λ (x y : ℕ). x ∷ y ∷ []) (and_ones 8 v ∙ low) (and_ones 8 (v / 2 ^ 8) ∙ high)
  where
    c : ℕ
    c = register cmd

    v : ℕ
    v = bit_xor c 0xffff

    small : bit_xor (c % 2 ^ 8) 0xff < 2 ^ 8
    small = xor-lt 8 (c % 2 ^ 8) 0xff (omega arith) (omega arith)

    large : bit_xor (c / 2 ^ 8) 0xff < 2 ^ 8
    large = xor-lt 8 (c / 2 ^ 8) 0xff (omega (arith, register-lt cmd h)) (omega arith)

    low : v % 2 ^ 8 ≡ bit_xor (c % 2 ^ 8) 0xff
    low = omega (arith, complement_low c (register-lt cmd h), small)

    high : v / 2 ^ 8 % 2 ^ 8 ≡ bit_xor (c / 2 ^ 8) 0xff
    high = omega (arith, complement_low c (register-lt cmd h), small, large)

pub crc_bytes-IsBytes : (cmd : List ℕ) → IsBytes cmd → IsBytes (crc_bytes cmd)
crc_bytes-IsBytes cmd h = rw (crc_bytes_lem cmd h) (
  xor-lt 8 (register cmd % 2 ^ 8) 0xff (omega arith) (omega arith),
  (xor-lt 8 (register cmd / 2 ^ 8) 0xff (omega (arith, register-lt cmd h)) (omega arith), tt),
)

pub length-crc_bytes : (cmd : List ℕ) → length (crc_bytes cmd) ≡ 2
unfolding crc_bytes
length-crc_bytes cmd = refl

-- The CRC over any payload and its CRC bytes is the constant that `hdlc_decode` expects.
pub residue : (cmd : List ℕ) → IsBytes cmd → register (cmd ++ crc_bytes cmd) ≡ 0xf0b8
residue cmd h =
    hdlc_crc16-append 0xffff cmd (crc_bytes cmd)
    ∙ ap (hdlc_crc16 (register cmd)) (crc_bytes_lem cmd h)
    ∙ two_rounds
    ∙ ap (λ (t : ℕ). crc16_step t (bit_xor (register cmd / 2 ^ 8) 0xff))
        (first_residue (register cmd) (register-lt cmd h))
    ∙ second_residue (register cmd / 2 ^ 8) (omega (arith, register-lt cmd h))
  where
    two_rounds :
        hdlc_crc16
          (register cmd)
          (bit_xor (register cmd % 2 ^ 8) 0xff ∷ bit_xor (register cmd / 2 ^ 8) 0xff ∷ [])
        ≡ crc16_step
            (crc16_step (register cmd) (bit_xor (register cmd % 2 ^ 8) 0xff))
            (bit_xor (register cmd / 2 ^ 8) 0xff)
    two_rounds = unfold hdlc_crc16 in refl

-- A payload with its CRC bytes passes the test.
pub check_crc-accepts :
    (cmd : List ℕ)
    → IsBytes cmd
    → check_crc (cmd ++ crc_bytes cmd)
      ≡ some (record { out = cmd ++ crc_bytes cmd; len = length cmd })
unfolding check_crc
check_crc-accepts cmd h =
    ground (arith, residue cmd h, length-append cmd (crc_bytes cmd), length-crc_bytes cmd)

-- Two bytes after a payload that give the constant are its CRC bytes.
two_bytes_are_crc :
    (p : List ℕ) (x y : ℕ)
    → IsBytes p
    → x < 2 ^ 8
    → y < 2 ^ 8
    → register (p ++ x ∷ y ∷ []) ≡ 0xf0b8
    → x ∷ y ∷ [] ≡ crc_bytes p
two_bytes_are_crc p x y h hx hy e =
    ap₂ (λ (s t : ℕ). s ∷ t ∷ []) same.0 same.1 ∙ sym (crc_bytes_lem p h)
  where
    c : ℕ
    c = register p

    bound : c < 2 ^ 16
    bound = register-lt p h

    lo : ℕ
    lo = bit_xor (c % 2 ^ 8) 0xff

    hi : ℕ
    hi = bit_xor (c / 2 ^ 8) 0xff

    ends : crc16_step (crc16_step c x) y ≡ crc16_step (crc16_step c lo) hi
    ends =
        unfold hdlc_crc16 in
        sym (hdlc_crc16-append 0xffff p (x ∷ y ∷ []))
        ∙ e
        ∙ sym (residue p h)
        ∙ hdlc_crc16-append 0xffff p (crc_bytes p)
        ∙ ap (hdlc_crc16 c) (crc_bytes_lem p h)

    same : (x ≡ lo) × (y ≡ hi)
    same =
        two_bytes_injective c x y lo hi bound hx hy
          (xor-lt 8 (c % 2 ^ 8) 0xff (omega arith) (omega arith))
          (xor-lt 8 (c / 2 ^ 8) 0xff (omega (arith, bound)) (omega arith)) ends

-- What ends in two bytes, taken apart.
last_two : (xs : List ℕ) → length xs ≡ 2 → (x : ℕ) × (y : ℕ) × (xs ≡ x ∷ y ∷ [])
last_two [] h = absurd (omega arith)
last_two (x ∷ []) h = absurd (omega arith)
last_two (x ∷ y ∷ []) h = (x, y, refl)
last_two (x ∷ y ∷ z ∷ rest) h = absurd (omega arith)

crc_at_end :
    (p q : List ℕ)
    → IsBytes p
    → IsBytes q
    → length q ≡ 2
    → register (p ++ q) ≡ 0xf0b8
    → q ≡ crc_bytes p
crc_at_end p q h k l e =
    let (x, y, shape) = last_two q l in
    let bytes : IsBytes (x ∷ y ∷ []) = rw shape at k in
    let ends : register (p ++ x ∷ y ∷ []) ≡ 0xf0b8 = rw shape at e in
    shape ∙ two_bytes_are_crc p x y h bytes.0 bytes.1.0 ends

pub check_crc-reads :
    (out : List ℕ) (d : Decoded)
    → check_crc out ≡ some d
    → (d.out ≡ out) × (length out ≡ d.len + 2) × (register out ≡ 0xf0b8)
unfolding check_crc
check_crc-reads out d h = ground arith

-- What passes the test is a payload with its CRC bytes.
pub check_crc_sound :
    (out : List ℕ) (d : Decoded)
    → IsBytes out
    → check_crc out ≡ some d
    → (d.out ≡ out)
      × (length out ≡ d.len + 2)
      × (out ≡ take d.len out ++ crc_bytes (take d.len out))
check_crc_sound out d h e =
    let (same, size, ends) = check_crc-reads out d e in
    let split = take-append-drop d.len out in
    let short : length (drop d.len out) ≡ 2 = omega (arith, length-drop d.len out) in
    let crc =
      crc_at_end (take d.len out) (drop d.len out) (All-take (λ b. b < 2 ^ 8) d.len out h)
        (All-drop (λ b. b < 2 ^ 8) d.len out h) short (ap register split ∙ ends) in
    (same, size, sym split ∙ ap (λ (t : List ℕ). take d.len out ++ t) crc)
