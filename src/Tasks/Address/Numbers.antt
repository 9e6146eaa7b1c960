-- ===== src/Tasks/Address/Numbers.antt =====
-- util.c: a number that is printed in decimal is read again, up to what follows it.
use mathlib.Core.List.{append_assoc}
use qfenix.Common.{
  ℕ, zero, suc, ◌+◌, ◌-◌, ◌*◌, ◌/◌, ◌%◌, ◌≤◌, ◌<◌, ◌≡◌, inl, inr, refl, sym, ap, ◌∙◌, arith, true,
  false, some, List, [], ◌∷◌, ◌++◌,
}
use qfenix.Common.{◌==◌, ltb, if◌then◌else◌, Bool-cases}
use qfenix.Tasks.Address.{
  is_space, is_digit, skip_spaces, scan_digits, starts_with_digit, scan_unsigned, scan_signed,
  scan_number,
}

-- The digits of a number, `%u`; the number has fewer digits than the fuel.
unfoldable pub digits_of : ℕ → ℕ → List ℕ
digits_of zero n = []
digits_of (suc fuel) n =
    let front = digits_of fuel (n / 10) in
    if ltb n 10 then (0x30 + n) ∷ [] else front ++ (0x30 + n % 10) ∷ []

unfoldable pub print_decimal : ℕ → List ℕ
unfolding digits_of
print_decimal n = digits_of (suc n) n

-- What is not a digit ends a number.
abbrev pub IsEnd : List ℕ → Type 0
IsEnd rest = starts_with_digit rest ≡ false

one_digit :
    (acc d : ℕ) (rest : List ℕ)
    → d < 10
    → scan_digits acc ((0x30 + d) ∷ rest) ≡ scan_digits (acc * 10 + d) rest
unfolding scan_digits is_digit
one_digit acc d rest h =
    let value : 0x30 + d - 0x30 ≡ d = omega arith in
    let digit : is_digit (0x30 + d) ≡ true = ground (arith, h) in ground (arith, digit, value)

scan_digits_of :
    (fuel n : ℕ) (rest : List ℕ)
    → n < fuel
    → scan_digits 0 (digits_of fuel n ++ rest) ≡ scan_digits n rest
unfolding digits_of
scan_digits_of zero n rest h = absurd (omega (arith, h))
scan_digits_of (suc fuel) n rest h = elim (Bool-cases (ltb n 10)) [
  | inl small ↦ rw small (
      one_digit 0 n rest (ground (arith, small)) ∙ ap (λ (t : ℕ). scan_digits t rest) (omega arith))
  | inr large ↦ rw large (
      ap (scan_digits 0) (append_assoc (digits_of fuel (n / 10)) ((0x30 + n % 10) ∷ []) rest)
      ∙ scan_digits_of fuel (n / 10) ((0x30 + n % 10) ∷ rest) (ground (arith, h, large))
      ∙ one_digit (n / 10) (n % 10) rest (omega arith)
      ∙ ap (λ (t : ℕ). scan_digits t rest) (omega arith))
]

scan_end : (n : ℕ) (rest : List ℕ) → IsEnd rest → scan_digits n rest ≡ (n, rest)
unfolding scan_digits starts_with_digit
scan_end n [] h = refl
scan_end n (c ∷ rest) h = ground (arith, h)

-- The first digit.
record Digit (text : List ℕ) : Type 0 where
  digit : ℕ
  more : List ℕ
  whole : text ≡ digit ∷ more
  low : 0x30 ≤ digit
  high : digit ≤ 0x39

digits_of-Digit : (fuel n : ℕ) → n < fuel → Digit (digits_of fuel n)
unfolding digits_of
digits_of-Digit zero n h = absurd (omega (arith, h))
digits_of-Digit (suc fuel) n h = elim (Bool-cases (ltb n 10)) [
  | inl small ↦ record {
    digit = 0x30 + n;
    more = [];
    whole = ground (arith, small);
    low = omega arith;
    high = ground (arith, small);
  }
  | inr large ↦
      let front = digits_of-Digit fuel (n / 10) (ground (arith, h, large)) in
      record {
        digit = front.digit;
        more = front.more ++ (0x30 + n % 10) ∷ [];
        whole = ground (arith, large, front.whole);
        low = front.low;
        high = front.high;
      }
]

head_number :
    (d : ℕ) (more : List ℕ)
    → 0x30 ≤ d
    → d ≤ 0x39
    → scan_number (d ∷ more) ≡ (let r = scan_digits 0 (d ∷ more) in some (false, r.0, r.1))
unfolding scan_number skip_spaces scan_signed scan_unsigned starts_with_digit
head_number d more lo hi =
    let space : is_space d ≡ false = unfold is_space in ground (arith, lo, hi) in
    let digit : is_digit d ≡ true = unfold is_digit in ground (arith, lo, hi) in
    let minus : (d == 0x2d) ≡ false = ground (arith, lo) in
    let plus : (d == 0x2b) ≡ false = ground (arith, lo) in ground (arith, space, digit, minus, plus)

pub scan_number-print_decimal :
    (n : ℕ) (rest : List ℕ)
    → IsEnd rest
    → scan_number (print_decimal n ++ rest) ≡ some (false, n, rest)
unfolding print_decimal
scan_number-print_decimal n rest h =
    let first = digits_of-Digit (suc n) n (omega arith) in
    let text = ap (λ (t : List ℕ). t ++ rest) first.whole in
    ap scan_number text
    ∙ head_number first.digit (first.more ++ rest) first.low first.high
    ∙ ap (λ (t : List ℕ). some (false, (scan_digits 0 t).0, (scan_digits 0 t).1)) (sym text)
    ∙ ap (λ (r : ℕ × List ℕ). some (false, r.0, r.1))
        (scan_digits_of (suc n) n rest (omega arith) ∙ scan_end n rest h)
