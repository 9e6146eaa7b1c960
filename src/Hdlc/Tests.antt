-- ===== src/Hdlc/Tests.antt =====
-- Tests and instances for hdlc.c, at a short command that needs stuffing.
use qfenix.Common.{
  ℕ, ◌+◌, ◌≤◌, ◌≡◌, ◌≢◌, refl, arith, some, none, List, [], ◌∷◌, ◌++◌, All, IsBytes, take, length,
}
use qfenix.Common.{if◌then◌else◌, leb, ◌&&◌}
use qfenix.Hdlc.{
  data_size, flag, crc16_table, crc16_step, hdlc_crc16, crc_bytes, Decoded, check_crc, hdlc_encode,
  hdlc_decode,
}
use qfenix.Hdlc.{escape_from, unescape_from}
use qfenix.Hdlc.Crc.{crc16_reference, hdlc_crc16-eq-reference}
use qfenix.Hdlc.Stuffing.{stuffed}
use qfenix.Hdlc.Frame.{
  hdlc_encode_exact, hdlc_decode-encode, hdlc_decode_sound, hdlc_decode-burst, hdlc_encode-flag,
  frame_of,
}

abbrev command : List ℕ
command = 0x7e ∷ 0x01 ∷ 0x7d ∷ []

abbrev command_frame : List ℕ
command_frame = 0x7d ∷ 0x5e ∷ 0x01 ∷ 0x7d ∷ 0x5d ∷ 0xb5 ∷ 0xe7 ∷ 0x7e ∷ []

command-IsBytes : IsBytes command
command-IsBytes = omega arith

encodes : hdlc_encode command 8 ≡ some command_frame
unfolding hdlc_encode escape_from crc_bytes hdlc_crc16 crc16_step crc16_table
encodes = refl

too_small : hdlc_encode command 7 ≡ none
unfolding hdlc_encode escape_from crc_bytes hdlc_crc16 crc16_step crc16_table
too_small = refl

decodes :
    hdlc_decode command_frame 5
    ≡ some (record { out = 0x7e ∷ 0x01 ∷ 0x7d ∷ 0xb5 ∷ 0xe7 ∷ []; len = 3 })
unfolding hdlc_decode unescape_from check_crc hdlc_crc16 crc16_step crc16_table
decodes = refl

abbrev decoded : Decoded
decoded = record { out = 0x7e ∷ 0x01 ∷ 0x7d ∷ 0xb5 ∷ 0xe7 ∷ []; len = 3 }

hdlc_crc16-eq-reference_example : hdlc_crc16 0xffff command ≡ crc16_reference 0xffff command
hdlc_crc16-eq-reference_example = hdlc_crc16-eq-reference 0xffff command command-IsBytes

hdlc_encode_exact_example : hdlc_encode command 8 ≡ (
    if leb (length command + 2) data_size && leb (length (frame_of command)) 8
    then some (frame_of command)
    else none)
hdlc_encode_exact_example = hdlc_encode_exact command 8

hdlc_decode-encode_example :
    hdlc_decode command_frame 5 ≡ some (record { out = command ++ crc_bytes command; len = 3 })
hdlc_decode-encode_example =
    hdlc_decode-encode command command_frame 8 5 command-IsBytes encodes (omega arith)

hdlc_encode-flag_example :
    (body : List ℕ) × (command_frame ≡ body ++ flag ∷ []) × All (λ b. b ≢ flag) body
hdlc_encode-flag_example = hdlc_encode-flag command command_frame 8 encodes

hdlc_decode_sound_example :
    (decoded.out ≡ take 3 decoded.out ++ crc_bytes (take 3 decoded.out))
    × (length decoded.out ≡ 3 + 2)
    × (length decoded.out ≤ 5)
hdlc_decode_sound_example = hdlc_decode_sound command_frame 5 decoded (omega arith) decodes

stuffed_decodes :
    hdlc_decode (stuffed (0x7e ∷ 0x01 ∷ 0x7d ∷ 0xb5 ∷ 0xe7 ∷ []) ++ flag ∷ []) 5 ≡ some decoded
unfolding stuffed hdlc_decode unescape_from check_crc hdlc_crc16 crc16_step crc16_table
stuffed_decodes = refl

hdlc_decode-burst_example :
    hdlc_decode (stuffed ((0x7e ∷ []) ++ 0x02 ∷ 0x7d ∷ 0xb5 ∷ 0xe7 ∷ []) ++ flag ∷ []) 5 ≡ none
hdlc_decode-burst_example =
    hdlc_decode-burst (0x7e ∷ []) (0xb5 ∷ 0xe7 ∷ []) 0x01 0x7d 0x02 0x7d 5 decoded (omega arith)
      (omega arith) (omega arith) (omega arith) (omega arith) (omega arith)
      (λ e. absurd (omega (arith, e.0))) stuffed_decodes
