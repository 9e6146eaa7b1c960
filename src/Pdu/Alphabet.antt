-- ===== src/Pdu/Alphabet.antt =====
-- pdu.c: the GSM alphabet, from and to Latin-1.
mod Tables
pub mod Trip
unfoldable pub use Tables.*
use mathlib.Core.Option
use qfenix.Common.{
  ℕ, zero, suc, ◌+◌, ◌≡◌, refl, Bool, true, false, Option, none, some, List, [], ◌∷◌, ◌++◌,
}
use qfenix.Common.{◌==◌, ltb, ◌&&◌, if◌then◌else◌, bit_and, get_or, drop, length}

abbrev pub gsm_7bits_escape : ℕ
gsm_7bits_escape = 0x1b

-- The result is `none` where a code after an escape lies outside the table. An escape at the end is
-- dropped: the byte behind it is read, but the result ends before it.
unfoldable pub gsm7_to_ascii : List ℕ → Option (List ℕ)
gsm7_to_ascii [] = some []
gsm7_to_ascii (c ∷ []) =
    if c == gsm_7bits_escape
    then some []
    else if ltb c 128
    then some (get_or gsm7_to_latin1 c 0 ∷ [])
    else some (c ∷ [])
gsm7_to_ascii (c ∷ next ∷ rest) = elim (c == gsm_7bits_escape) [
  | true ↦
      if ltb next 128
      then Option.map (λ tail. get_or gsm7_ext_to_latin1 next 0 ∷ tail) (gsm7_to_ascii rest)
      else none
  | false ↦
      if ltb c 128
      then Option.map (λ tail. get_or gsm7_to_latin1 c 0 ∷ tail) (gsm7_to_ascii (next ∷ rest))
      else Option.map (λ tail. c ∷ tail) (gsm7_to_ascii (next ∷ rest))
]

-- How many bytes after a byte that starts a UTF-8 character are left out.
unfoldable pub skipped : ℕ → ℕ
skipped byte = if bit_and byte 0xe0 == 0xc0 then 1 else if bit_and byte 0xf0 == 0xe0 then 2 else 0

unfoldable pub codes_of : ℕ → List ℕ
unfolding skipped
codes_of byte = elim (get_or latin1_to_gsm7 byte unknown) [
  | escaped val ↦ gsm_7bits_escape ∷ val ∷ []
  | plain val ↦ if skipped byte == 0 then val ∷ [] else npc ∷ []
]

unfoldable pub left_out : ℕ → ℕ
unfolding skipped
left_out byte = elim (get_or latin1_to_gsm7 byte unknown) [ escaped _ ↦ 0 | plain _ ↦ skipped byte ]

-- The first argument counts the bytes that are still to be left out.
unfoldable pub gsm7_from : ℕ → List ℕ → List ℕ
unfolding codes_of left_out
gsm7_from left [] = []
gsm7_from (suc left) (byte ∷ rest) = gsm7_from left rest
gsm7_from zero (byte ∷ rest) = codes_of byte ++ gsm7_from (left_out byte) rest

unfoldable pub ascii_to_gsm7 : List ℕ → List ℕ
unfolding gsm7_from
ascii_to_gsm7 text = gsm7_from 0 text
