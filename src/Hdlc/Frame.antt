-- ===== src/Hdlc/Frame.antt =====
-- `hdlc_encode` and `hdlc_decode` as a whole.
use qfenix.Common.{ℕ, ◌+◌, ◌≤◌, ◌<◌, ◌^◌, bit_xor, ◌≡◌, ◌≢◌, arith, leb}
use qfenix.Common.{
  Option, none, some, List, [], ◌∷◌, ◌++◌, length, All, IsBytes, if◌then◌else◌, inl, inr, take,
  Option-cases, ◌-◌, ◌&&◌,
}
use qfenix.Common.{length-append, sym, ap, ◌∙◌}
use qfenix.Common.Bits.{xor-lt}
use mathlib.Core.Option
use qfenix.Hdlc.{flag, xor_mask, unescape_from, hdlc_crc16, crc16_step, crc_bytes, data_size}
use qfenix.Hdlc.{Decoded, check_crc, hdlc_encode, hdlc_decode}
use qfenix.Hdlc.Residue.{crc16_step-lt, two_bytes_injective, hdlc_crc16-lt, hdlc_crc16_injective}
use qfenix.Hdlc.Check.{
  hdlc_crc16_two, check_crc-reads, check_crc_sound, check_crc-accepts, hdlc_crc16-append,
  length-crc_bytes,
}
use qfenix.Hdlc.Stuffing.{
  stuffed-ne-flag, special_cases, unescape_flag, unescape_escaped, unescape_plain, stuffed,
  escape_from-eq-stuffed, unescape_from-stuffed,
}

-- The frame of a command, with no bound on the buffer.
pub frame_of : List ℕ → List ℕ
frame_of cmd = stuffed (cmd ++ crc_bytes cmd) ++ flag ∷ []

-- `hdlc_encode` fails exactly when the command or its frame is too long, and otherwise writes the
-- frame: the tests on the way find no more and no less than the one test at the end.
pub hdlc_encode_exact :
    (cmd : List ℕ) (out_size : ℕ)
    → hdlc_encode cmd out_size ≡ (
        if leb (length cmd + 2) data_size && leb (length (frame_of cmd)) out_size
        then some (frame_of cmd)
        else none)
unfolding hdlc_encode frame_of
hdlc_encode_exact cmd out_size = ground (
  arith,
  escape_from-eq-stuffed out_size 0 (cmd ++ crc_bytes cmd),
  length-append (stuffed (cmd ++ crc_bytes cmd)) (flag ∷ []),
)

decode-frame :
    (bytes : List ℕ) (out_size : ℕ)
    → length bytes ≤ out_size
    → hdlc_decode (stuffed bytes ++ flag ∷ []) out_size ≡ check_crc bytes
unfolding hdlc_decode
decode-frame bytes out_size h = ground (arith, unescape_from-stuffed out_size 0 bytes (omega arith))

-- Decoding what `hdlc_encode` wrote, into any buffer with room for the command and its CRC, gives
-- the command back with its length.
pub hdlc_decode-encode :
    (cmd frame : List ℕ) (out_size room : ℕ)
    → IsBytes cmd
    → hdlc_encode cmd out_size ≡ some frame
    → length cmd + 2 ≤ room
    → hdlc_decode frame room ≡ some (record { out = cmd ++ crc_bytes cmd; len = length cmd })
hdlc_decode-encode cmd frame out_size room h e fits =
    ap (λ (t : List ℕ). hdlc_decode t room) (shape)
    ∙ decode-frame (cmd ++ crc_bytes cmd) room
        (omega (arith, length-append cmd (crc_bytes cmd), length-crc_bytes cmd))
    ∙ check_crc-accepts cmd h
  where
    shape : frame ≡ stuffed (cmd ++ crc_bytes cmd) ++ flag ∷ []
    shape = unfold frame_of in ground (arith, hdlc_encode_exact cmd out_size)

-- What a run of the loop from position `j` may leave.
abbrev Within : ℕ → ℕ → Option (List ℕ) → Type 0
Within size j none = Unit
Within size j (some out) = IsBytes out × (length out ≤ size - j)

Within-write :
    (size j byte : ℕ) (o : Option (List ℕ))
    → byte < 2 ^ 8
    → Within size (j + 1) o
    → Within size j (if leb size j then none else Option.map (λ t. byte ∷ t) o)
Within-write size j byte none h w = ground arith
Within-write size j byte (some out) h w = ground arith

unescape_from-Within :
    (size j : ℕ) (bytes : List ℕ) → IsBytes bytes → Within size j (unescape_from size j bytes)
unescape_from-Within size j [] k = unfold unescape_from in (tt, omega arith)
unescape_from-Within size j (byte ∷ []) k = unfold unescape_from in ground arith
unescape_from-Within size j (byte ∷ next ∷ rest) k = elim (special_cases byte) [
  | inl e ↦
      rw (e, unescape_flag size j (next ∷ rest)) (unescape_from-Within size j (next ∷ rest) k.1)
  | inr (inl e) ↦
      rw (e, unescape_escaped size j next rest)
        (Within-write size j (bit_xor next xor_mask) (unescape_from size (j + 1) rest)
          (xor-lt 8 next xor_mask k.1.0 (omega arith))
          (unescape_from-Within size (j + 1) rest k.1.1))
  | inr (inr e) ↦ rw (unescape_plain size j byte (next ∷ rest) e) (
      Within-write size j byte (unescape_from size (j + 1) (next ∷ rest)) k.0
        (unescape_from-Within size (j + 1) (next ∷ rest) k.1))
]

decode-reads :
    (frame : List ℕ) (out_size : ℕ) (d : Decoded)
    → hdlc_decode frame out_size ≡ some d
    → (out : List ℕ) × (unescape_from out_size 0 frame ≡ some out) × (check_crc out ≡ some d)
unfolding hdlc_decode
decode-reads frame out_size d e = elim (Option-cases (unescape_from out_size 0 frame)) [
  | inl lost ↦ absurd (ground arith)
  | inr (out, found) ↦ (out, found, ground arith)
]

-- Whatever bytes arrive: what `hdlc_decode` accepts is a payload followed by the CRC bytes of that
-- payload, its returned length is that of the payload, and nothing is written past the buffer.
pub hdlc_decode_sound :
    (frame : List ℕ) (out_size : ℕ) (d : Decoded)
    → IsBytes frame
    → hdlc_decode frame out_size ≡ some d
    → (d.out ≡ take d.len d.out ++ crc_bytes (take d.len d.out))
      × (length d.out ≡ d.len + 2)
      × (length d.out ≤ out_size)
hdlc_decode_sound frame out_size d h e =
    let (out, found, passed) = decode-reads frame out_size d e in
    let within : IsBytes out × (length out ≤ out_size - 0) =
      rw found at (unescape_from-Within out_size 0 frame h) in
    let (same, size, shape) = check_crc_sound out d within.0 passed in
    rw same (shape, size, omega arith)

frame_residue :
    (bytes : List ℕ) (out_size : ℕ) (d : Decoded)
    → hdlc_decode (stuffed bytes ++ flag ∷ []) out_size ≡ some d
    → hdlc_crc16 0xffff bytes ≡ 0xf0b8
frame_residue bytes out_size d e =
    let (out, found, passed) = decode-reads (stuffed bytes ++ flag ∷ []) out_size d e in
    let same : out ≡ bytes = ground (arith, unescape_from-stuffed out_size 0 bytes (omega arith)) in
    ap (hdlc_crc16 0xffff) (sym same) ∙ (check_crc-reads out d passed).2

-- Equal registers after a common end, two bytes and a common start mean the same two bytes.
same_two_bytes :
    (before after : List ℕ) (a b x y : ℕ)
    → IsBytes before
    → IsBytes after
    → a < 2 ^ 8
    → b < 2 ^ 8
    → x < 2 ^ 8
    → y < 2 ^ 8
    → hdlc_crc16 0xffff (before ++ a ∷ b ∷ after) ≡ hdlc_crc16 0xffff (before ++ x ∷ y ∷ after)
    → (a ≡ x) × (b ≡ y)
same_two_bytes before after a b x y hp hs ha hb hx hy e =
    two_bytes_injective c a b x y bound ha hb hx hy (
      hdlc_crc16_injective (crc16_step (crc16_step c a) b) (crc16_step (crc16_step c x) y) after
        (crc16_step-lt (crc16_step c a) b (crc16_step-lt c a bound ha) hb)
        (crc16_step-lt (crc16_step c x) y (crc16_step-lt c x bound hx) hy) hs
        (hdlc_crc16_two c a b after
          ∙ sym (hdlc_crc16-append 0xffff before (a ∷ b ∷ after))
          ∙ e
          ∙ hdlc_crc16-append 0xffff before (x ∷ y ∷ after)
          ∙ sym (hdlc_crc16_two c x y after)))
  where
    c : ℕ
    c = hdlc_crc16 0xffff before

    bound : c < 2 ^ 16
    bound = hdlc_crc16-lt 0xffff before (omega arith) hp

-- When the bytes of a frame pass the CRC, and two adjacent ones among the payload and its CRC are
-- replaced by two others before the bytes are stuffed, the frame is refused, whatever stands before
-- and after them. Nothing is said of changes to the stuffed bytes, which may make or remove a flag.
pub hdlc_decode-burst :
    (before after : List ℕ) (a b x y out_size : ℕ) (d : Decoded)
    → IsBytes before
    → IsBytes after
    → a < 2 ^ 8
    → b < 2 ^ 8
    → x < 2 ^ 8
    → y < 2 ^ 8
    → ¬ ((a ≡ x) × (b ≡ y))
    → hdlc_decode (stuffed (before ++ a ∷ b ∷ after) ++ flag ∷ []) out_size ≡ some d
    → hdlc_decode (stuffed (before ++ x ∷ y ∷ after) ++ flag ∷ []) out_size ≡ none
hdlc_decode-burst before after a b x y out_size d hp hs ha hb hx hy ne e =
    elim (Option-cases (hdlc_decode (stuffed (before ++ x ∷ y ∷ after) ++ flag ∷ []) out_size)) [
      | inl lost ↦ lost
      | inr (d', e') ↦ absurd (
          ne (
            same_two_bytes before after a b x y hp hs ha hb hx hy (
              frame_residue (before ++ a ∷ b ∷ after) out_size d e
              ∙ sym (frame_residue (before ++ x ∷ y ∷ after) out_size d' e'))))
    ]

-- A frame that `hdlc_encode` wrote ends in the flag and has no flag before it.
pub hdlc_encode-flag :
    (cmd frame : List ℕ) (out_size : ℕ)
    → hdlc_encode cmd out_size ≡ some frame
    → (body : List ℕ) × (frame ≡ body ++ flag ∷ []) × All (λ b. b ≢ flag) body
unfolding frame_of
hdlc_encode-flag cmd frame out_size e = (
  stuffed (cmd ++ crc_bytes cmd),
  ground (arith, hdlc_encode_exact cmd out_size),
  stuffed-ne-flag (cmd ++ crc_bytes cmd),
)
