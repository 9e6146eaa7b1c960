-- ===== src/Pdu/Alphabet/Trip.antt =====
-- pdu.c: a text that the GSM alphabet has comes back from it.
use mathlib.Core.Option
use qfenix.Common.{ℕ, ◌<◌, ◌≡◌, refl, ap, ◌∙◌, arith, Bool, true, false, not, ◌&&◌, ◌||◌}
use qfenix.Common.{Option, some, List, [], ◌∷◌, ◌==◌, ltb, if◌then◌else◌, get_or, All}
use qfenix.Common.Bits.{agree_upto, agree_upto_sound}
use qfenix.Pdu.Septets.Trip.{IsSeptets}
use qfenix.Pdu.Alphabet.{
  Code, plain, escaped, unknown, npc, latin1_to_gsm7, gsm7_to_latin1, gsm7_ext_to_latin1,
}
use qfenix.Pdu.Alphabet.{
  skipped, codes_of, left_out, gsm7_from, ascii_to_gsm7, gsm7_to_ascii, gsm_7bits_escape,
}

-- The code of a character, if it is an ASCII character that the alphabet has.
abbrev pub has_code : ℕ → Bool
has_code c =
    c == npc
    || elim (get_or latin1_to_gsm7 c unknown) [ escaped _ ↦ true | plain v ↦ not (v == npc) ]

-- What makes a code come back to its character.
unfoldable inverts : ℕ → Code → Bool
inverts c (plain v) =
    skipped c == 0 && not (v == gsm_7bits_escape) && ltb v 128 && get_or gsm7_to_latin1 v 0 == c
inverts c (escaped v) = ltb v 128 && get_or gsm7_ext_to_latin1 v 0 == c

to_ℕ : Bool → ℕ
to_ℕ b = if b then 1 else 0

inverts_table :
    agree_upto
      (λ c. to_ℕ (not (has_code c) || inverts c (get_or latin1_to_gsm7 c unknown)))
      (λ _. 1)
      128
    ≡ true
unfolding agree_upto inverts skipped to_ℕ latin1_to_gsm7 gsm7_to_latin1 gsm7_ext_to_latin1
inverts_table = refl

implied : (a b : Bool) → to_ℕ (not a || b) ≡ 1 → a ≡ true → b ≡ true
unfolding to_ℕ
implied a b h k = ground arith

inverts_code :
    (c : ℕ) → c < 128 → has_code c ≡ true → inverts c (get_or latin1_to_gsm7 c unknown) ≡ true
inverts_code c h = implied (has_code c) (inverts c (get_or latin1_to_gsm7 c unknown)) (
    agree_upto_sound (λ x. to_ℕ (not (has_code x) || inverts x (get_or latin1_to_gsm7 x unknown)))
      (λ _. 1) 128 c inverts_table h)

plain_step :
    (v : ℕ) (tail : List ℕ)
    → (v == gsm_7bits_escape) ≡ false
    → v < 128
    → gsm7_to_ascii (v ∷ tail)
      ≡ Option.map (λ t. get_or gsm7_to_latin1 v 0 ∷ t) (gsm7_to_ascii tail)
unfolding gsm7_to_ascii
plain_step v [] e h = ground (arith, e, h)
plain_step v (x ∷ tail) e h = ground (arith, e, h)

escaped_step :
    (v : ℕ) (tail : List ℕ)
    → v < 128
    → gsm7_to_ascii (gsm_7bits_escape ∷ v ∷ tail)
      ≡ Option.map (λ t. get_or gsm7_ext_to_latin1 v 0 ∷ t) (gsm7_to_ascii tail)
unfolding gsm7_to_ascii
escaped_step v tail h = ground (arith, h)

coded_plain :
    (c v : ℕ) (rest : List ℕ)
    → get_or latin1_to_gsm7 c unknown ≡ plain v
    → skipped c ≡ 0
    → gsm7_from 0 (c ∷ rest) ≡ v ∷ gsm7_from 0 rest
unfolding gsm7_from codes_of left_out
coded_plain c v rest e none_skipped = ground (arith, e, none_skipped)

coded_escaped :
    (c v : ℕ) (rest : List ℕ)
    → get_or latin1_to_gsm7 c unknown ≡ escaped v
    → gsm7_from 0 (c ∷ rest) ≡ gsm_7bits_escape ∷ v ∷ gsm7_from 0 rest
unfolding gsm7_from codes_of left_out
coded_escaped c v rest e = ground (arith, e)

plain_facts :
    (c v : ℕ)
    → inverts c (plain v) ≡ true
    → (skipped c ≡ 0)
      × ((v == gsm_7bits_escape) ≡ false)
      × (v < 128)
      × (get_or gsm7_to_latin1 v 0 ≡ c)
unfolding inverts
plain_facts c v h = (ground (arith, h), ground (arith, h), ground (arith, h), ground (arith, h))

escaped_facts :
    (c v : ℕ) → inverts c (escaped v) ≡ true → (v < 128) × (get_or gsm7_ext_to_latin1 v 0 ≡ c)
unfolding inverts
escaped_facts c v h = (ground (arith, h), ground (arith, h))

-- One character.
char_step :
    (c : ℕ) (code : Code) (rest text : List ℕ)
    → get_or latin1_to_gsm7 c unknown ≡ code
    → inverts c code ≡ true
    → gsm7_to_ascii (gsm7_from 0 rest) ≡ some text
    → gsm7_to_ascii (gsm7_from 0 (c ∷ rest)) ≡ some (c ∷ text)
char_step c (plain v) rest text e h more =
    let f = plain_facts c v h in
    ap gsm7_to_ascii (coded_plain c v rest e f.0)
    ∙ plain_step v (gsm7_from 0 rest) f.1 f.2
    ∙ ap (λ (o : Option (List ℕ)). Option.map (λ t. get_or gsm7_to_latin1 v 0 ∷ t) o) more
    ∙ ap (λ (x : ℕ). some (x ∷ text)) f.3
char_step c (escaped v) rest text e h more =
    let f = escaped_facts c v h in
    ap gsm7_to_ascii (coded_escaped c v rest e)
    ∙ escaped_step v (gsm7_from 0 rest) f.0
    ∙ ap (λ (o : Option (List ℕ)). Option.map (λ t. get_or gsm7_ext_to_latin1 v 0 ∷ t) o) more
    ∙ ap (λ (x : ℕ). some (x ∷ text)) f.1

char-IsSeptets :
    (c : ℕ) (code : Code) (rest : List ℕ)
    → get_or latin1_to_gsm7 c unknown ≡ code
    → inverts c code ≡ true
    → IsSeptets (gsm7_from 0 rest)
    → IsSeptets (gsm7_from 0 (c ∷ rest))
char-IsSeptets c (plain v) rest e h more =
    let f = plain_facts c v h in rw (coded_plain c v rest e f.0) (f.2, more)
char-IsSeptets c (escaped v) rest e h more =
    rw (coded_escaped c v rest e) (omega arith, ((escaped_facts c v h).0, more))

abbrev pub IsCoded : List ℕ → Type 0
IsCoded text = All (λ c. (c < 128) × (has_code c ≡ true)) text

trip : (text : List ℕ) → IsCoded text → gsm7_to_ascii (gsm7_from 0 text) ≡ some text
unfolding gsm7_to_ascii gsm7_from
trip [] h = refl
trip (c ∷ text) h =
    char_step c (get_or latin1_to_gsm7 c unknown) text text refl (inverts_code c h.0.0 h.0.1)
      (trip text h.1)

-- A text of ASCII characters that the alphabet has, the ones after an escape included, comes back
-- from its codes.
pub gsm7_to_ascii-ascii_to_gsm7 :
    (text : List ℕ) → IsCoded text → gsm7_to_ascii (ascii_to_gsm7 text) ≡ some text
unfolding ascii_to_gsm7
gsm7_to_ascii-ascii_to_gsm7 text h = trip text h

septets : (text : List ℕ) → IsCoded text → IsSeptets (gsm7_from 0 text)
unfolding gsm7_from
septets [] h = tt
septets (c ∷ text) h =
    char-IsSeptets c (get_or latin1_to_gsm7 c unknown) text refl (inverts_code c h.0.0 h.0.1)
      (septets text h.1)

pub ascii_to_gsm7-IsSeptets : (text : List ℕ) → IsCoded text → IsSeptets (ascii_to_gsm7 text)
unfolding ascii_to_gsm7
ascii_to_gsm7-IsSeptets text h = septets text h
