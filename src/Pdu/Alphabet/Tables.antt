-- ===== src/Pdu/Alphabet/Tables.antt =====
-- pdu.c: the tables between the GSM alphabet and Latin-1.
use qfenix.Common.{ℕ, List, [], ◌∷◌}

abbrev pub npc : ℕ
npc = 0x3f

unfoldable pub gsm7_to_latin1 : List ℕ
gsm7_to_latin1 =
    0x40 ∷ 0xa3 ∷ 0x24 ∷ 0xa5 ∷ 0xe8 ∷ 0xe9 ∷ 0xf9 ∷ 0xec ∷ 0xf2 ∷ 0xc7 ∷ 0xa ∷ 0xd8 ∷ 0xf8 ∷ 0xd
    ∷ 0xc5 ∷ 0xe5 ∷ 0x0 ∷ 0x5f ∷ 0x0 ∷ 0x0 ∷ 0x0 ∷ 0x0 ∷ 0x0 ∷ 0x0 ∷ 0x0 ∷ 0x0 ∷ 0x0 ∷ 0x0 ∷ 0xc6
    ∷ 0xe6 ∷ 0xdf ∷ 0xc9 ∷ 0x20 ∷ 0x21 ∷ 0x22 ∷ 0x23 ∷ 0xa4 ∷ 0x25 ∷ 0x26 ∷ 0x27 ∷ 0x28 ∷ 0x29
    ∷ 0x2a ∷ 0x2b ∷ 0x2c ∷ 0x2d ∷ 0x2e ∷ 0x2f ∷ 0x30 ∷ 0x31 ∷ 0x32 ∷ 0x33 ∷ 0x34 ∷ 0x35 ∷ 0x36
    ∷ 0x37 ∷ 0x38 ∷ 0x39 ∷ 0x3a ∷ 0x3b ∷ 0x3c ∷ 0x3d ∷ 0x3e ∷ 0x3f ∷ 0xa1 ∷ 0x41 ∷ 0x42 ∷ 0x43
    ∷ 0x44 ∷ 0x45 ∷ 0x46 ∷ 0x47 ∷ 0x48 ∷ 0x49 ∷ 0x4a ∷ 0x4b ∷ 0x4c ∷ 0x4d ∷ 0x4e ∷ 0x4f ∷ 0x50
    ∷ 0x51 ∷ 0x52 ∷ 0x53 ∷ 0x54 ∷ 0x55 ∷ 0x56 ∷ 0x57 ∷ 0x58 ∷ 0x59 ∷ 0x5a ∷ 0xc4 ∷ 0xd6 ∷ 0xd1
    ∷ 0xdc ∷ 0xa7 ∷ 0xbf ∷ 0x61 ∷ 0x62 ∷ 0x63 ∷ 0x64 ∷ 0x65 ∷ 0x66 ∷ 0x67 ∷ 0x68 ∷ 0x69 ∷ 0x6a
    ∷ 0x6b ∷ 0x6c ∷ 0x6d ∷ 0x6e ∷ 0x6f ∷ 0x70 ∷ 0x71 ∷ 0x72 ∷ 0x73 ∷ 0x74 ∷ 0x75 ∷ 0x76 ∷ 0x77
    ∷ 0x78 ∷ 0x79 ∷ 0x7a ∷ 0xe4 ∷ 0xf6 ∷ 0xf1 ∷ 0xfc ∷ 0xe0 ∷ []

-- After the escape.
unfoldable pub gsm7_ext_to_latin1 : List ℕ
gsm7_ext_to_latin1 =
    0x0 ∷ 0x0 ∷ 0x0 ∷ 0x0 ∷ 0x0 ∷ 0x0 ∷ 0x0 ∷ 0x0 ∷ 0x0 ∷ 0x0 ∷ 0xc ∷ 0x0 ∷ 0x0 ∷ 0x0 ∷ 0x0 ∷ 0x0
    ∷ 0x0 ∷ 0x0 ∷ 0x0 ∷ 0x0 ∷ 0x5e ∷ 0x0 ∷ 0x0 ∷ 0x0 ∷ 0x0 ∷ 0x0 ∷ 0x0 ∷ 0x0 ∷ 0x0 ∷ 0x0 ∷ 0x0 ∷ 0x0
    ∷ 0x0 ∷ 0x0 ∷ 0x0 ∷ 0x0 ∷ 0x0 ∷ 0x0 ∷ 0x0 ∷ 0x0 ∷ 0x7b ∷ 0x7d ∷ 0x0 ∷ 0x0 ∷ 0x0 ∷ 0x0 ∷ 0x0
    ∷ 0x5c ∷ 0x0 ∷ 0x0 ∷ 0x0 ∷ 0x0 ∷ 0x0 ∷ 0x0 ∷ 0x0 ∷ 0x0 ∷ 0x0 ∷ 0x0 ∷ 0x0 ∷ 0x0 ∷ 0x5b ∷ 0x7e
    ∷ 0x5d ∷ 0x0 ∷ 0x7c ∷ 0x0 ∷ 0x0 ∷ 0x0 ∷ 0x0 ∷ 0x0 ∷ 0x0 ∷ 0x0 ∷ 0x0 ∷ 0x0 ∷ 0x0 ∷ 0x0 ∷ 0x0
    ∷ 0x0 ∷ 0x0 ∷ 0x0 ∷ 0x0 ∷ 0x0 ∷ 0x0 ∷ 0x0 ∷ 0x0 ∷ 0x0 ∷ 0x0 ∷ 0x0 ∷ 0x0 ∷ 0x0 ∷ 0x0 ∷ 0x0 ∷ 0x0
    ∷ 0x0 ∷ 0x0 ∷ 0x0 ∷ 0x0 ∷ 0x0 ∷ 0x0 ∷ 0x0 ∷ 0x0 ∷ 0x0 ∷ 0x0 ∷ 0x0 ∷ 0x0 ∷ 0x0 ∷ 0x0 ∷ 0x0 ∷ 0x0
    ∷ 0x0 ∷ 0x0 ∷ 0x0 ∷ 0x0 ∷ 0x0 ∷ 0x0 ∷ 0x0 ∷ 0x0 ∷ 0x0 ∷ 0x0 ∷ 0x0 ∷ 0x0 ∷ 0x0 ∷ 0x0 ∷ 0x0 ∷ 0x0
    ∷ 0x0 ∷ 0x0 ∷ 0x0 ∷ []

-- An entry of the table: a code, or, for a negative entry, the code that follows an escape.
pub data Code : Type 0 where
  plain escaped : ℕ → Code

abbrev pub unknown : Code
unknown = plain npc

unfoldable pub latin1_to_gsm7 : List Code
latin1_to_gsm7 =
    unknown
    ∷ unknown
    ∷ unknown
    ∷ unknown
    ∷ unknown
    ∷ unknown
    ∷ unknown
    ∷ unknown
    ∷ unknown
    ∷ unknown
    ∷ plain 0xa
    ∷ unknown
    ∷ escaped 0xa
    ∷ plain 0xd
    ∷ unknown
    ∷ unknown
    ∷ unknown
    ∷ unknown
    ∷ unknown
    ∷ unknown
    ∷ unknown
    ∷ unknown
    ∷ unknown
    ∷ unknown
    ∷ unknown
    ∷ unknown
    ∷ unknown
    ∷ unknown
    ∷ unknown
    ∷ unknown
    ∷ unknown
    ∷ unknown
    ∷ plain 0x20
    ∷ plain 0x21
    ∷ plain 0x22
    ∷ plain 0x23
    ∷ plain 0x2
    ∷ plain 0x25
    ∷ plain 0x26
    ∷ plain 0x27
    ∷ plain 0x28
    ∷ plain 0x29
    ∷ plain 0x2a
    ∷ plain 0x2b
    ∷ plain 0x2c
    ∷ plain 0x2d
    ∷ plain 0x2e
    ∷ plain 0x2f
    ∷ plain 0x30
    ∷ plain 0x31
    ∷ plain 0x32
    ∷ plain 0x33
    ∷ plain 0x34
    ∷ plain 0x35
    ∷ plain 0x36
    ∷ plain 0x37
    ∷ plain 0x38
    ∷ plain 0x39
    ∷ plain 0x3a
    ∷ plain 0x3b
    ∷ plain 0x3c
    ∷ plain 0x3d
    ∷ plain 0x3e
    ∷ plain 0x3f
    ∷ plain 0x0
    ∷ plain 0x41
    ∷ plain 0x42
    ∷ plain 0x43
    ∷ plain 0x44
    ∷ plain 0x45
    ∷ plain 0x46
    ∷ plain 0x47
    ∷ plain 0x48
    ∷ plain 0x49
    ∷ plain 0x4a
    ∷ plain 0x4b
    ∷ plain 0x4c
    ∷ plain 0x4d
    ∷ plain 0x4e
    ∷ plain 0x4f
    ∷ plain 0x50
    ∷ plain 0x51
    ∷ plain 0x52
    ∷ plain 0x53
    ∷ plain 0x54
    ∷ plain 0x55
    ∷ plain 0x56
    ∷ plain 0x57
    ∷ plain 0x58
    ∷ plain 0x59
    ∷ plain 0x5a
    ∷ escaped 0x3c
    ∷ escaped 0x2f
    ∷ escaped 0x3e
    ∷ escaped 0x14
    ∷ plain 0x11
    ∷ unknown
    ∷ plain 0x61
    ∷ plain 0x62
    ∷ plain 0x63
    ∷ plain 0x64
    ∷ plain 0x65
    ∷ plain 0x66
    ∷ plain 0x67
    ∷ plain 0x68
    ∷ plain 0x69
    ∷ plain 0x6a
    ∷ plain 0x6b
    ∷ plain 0x6c
    ∷ plain 0x6d
    ∷ plain 0x6e
    ∷ plain 0x6f
    ∷ plain 0x70
    ∷ plain 0x71
    ∷ plain 0x72
    ∷ plain 0x73
    ∷ plain 0x74
    ∷ plain 0x75
    ∷ plain 0x76
    ∷ plain 0x77
    ∷ plain 0x78
    ∷ plain 0x79
    ∷ plain 0x7a
    ∷ escaped 0x28
    ∷ escaped 0x40
    ∷ escaped 0x29
    ∷ escaped 0x3d
    ∷ unknown
    ∷ unknown
    ∷ unknown
    ∷ unknown
    ∷ unknown
    ∷ unknown
    ∷ unknown
    ∷ unknown
    ∷ unknown
    ∷ unknown
    ∷ unknown
    ∷ unknown
    ∷ unknown
    ∷ unknown
    ∷ unknown
    ∷ unknown
    ∷ unknown
    ∷ unknown
    ∷ unknown
    ∷ unknown
    ∷ unknown
    ∷ unknown
    ∷ unknown
    ∷ unknown
    ∷ unknown
    ∷ unknown
    ∷ unknown
    ∷ unknown
    ∷ unknown
    ∷ unknown
    ∷ unknown
    ∷ unknown
    ∷ unknown
    ∷ unknown
    ∷ plain 0x40
    ∷ unknown
    ∷ plain 0x1
    ∷ plain 0x24
    ∷ plain 0x3
    ∷ unknown
    ∷ plain 0x5f
    ∷ unknown
    ∷ unknown
    ∷ unknown
    ∷ unknown
    ∷ unknown
    ∷ unknown
    ∷ unknown
    ∷ unknown
    ∷ unknown
    ∷ unknown
    ∷ unknown
    ∷ unknown
    ∷ unknown
    ∷ unknown
    ∷ unknown
    ∷ unknown
    ∷ unknown
    ∷ unknown
    ∷ unknown
    ∷ unknown
    ∷ unknown
    ∷ unknown
    ∷ unknown
    ∷ plain 0x60
    ∷ unknown
    ∷ unknown
    ∷ unknown
    ∷ unknown
    ∷ plain 0x5b
    ∷ plain 0xe
    ∷ plain 0x1c
    ∷ plain 0x9
    ∷ unknown
    ∷ plain 0x1f
    ∷ unknown
    ∷ unknown
    ∷ unknown
    ∷ unknown
    ∷ unknown
    ∷ unknown
    ∷ unknown
    ∷ plain 0x5d
    ∷ unknown
    ∷ unknown
    ∷ unknown
    ∷ unknown
    ∷ plain 0x5c
    ∷ unknown
    ∷ plain 0xb
    ∷ unknown
    ∷ unknown
    ∷ unknown
    ∷ plain 0x5e
    ∷ unknown
    ∷ unknown
    ∷ plain 0x1e
    ∷ plain 0x7f
    ∷ unknown
    ∷ unknown
    ∷ unknown
    ∷ plain 0x7b
    ∷ plain 0xf
    ∷ plain 0x1d
    ∷ unknown
    ∷ plain 0x4
    ∷ plain 0x5
    ∷ unknown
    ∷ unknown
    ∷ plain 0x7
    ∷ unknown
    ∷ unknown
    ∷ unknown
    ∷ unknown
    ∷ plain 0x7d
    ∷ plain 0x8
    ∷ unknown
    ∷ unknown
    ∷ unknown
    ∷ plain 0x7c
    ∷ unknown
    ∷ plain 0xc
    ∷ plain 0x6
    ∷ unknown
    ∷ unknown
    ∷ plain 0x7e
    ∷ unknown
    ∷ unknown
    ∷ unknown
    ∷ []
