-- ===== src/Tasks/Address/Trip.antt =====
-- util.c: an address is read as it is printed.
use mathlib.Core.List.{append-nil}
use qfenix.Common.{
  ℕ, ◌%◌, ◌^◌, ◌<◌, ◌≡◌, refl, sym, ap, ◌∙◌, arith, false, none, some, List, [], ◌∷◌, ◌++◌,
}
use qfenix.Tasks.Address.{
  is_digit, starts_with_digit, scan_number, unsigned_long, address_of, parse_length, parse_sector,
  parse_storage_address,
}
use qfenix.Tasks.Address.Numbers.{print_decimal, scan_number-print_decimal}

-- N/S+L.
unfoldable pub print_address : ℕ → ℕ → ℕ → List ℕ
unfolding print_decimal
print_address partition sector length =
    print_decimal partition ++ (0x2f ∷ (print_decimal sector ++ (0x2b ∷ print_decimal length)))

pub whole_number : (n : ℕ) → scan_number (print_decimal n) ≡ some (false, n, [])
whole_number n =
    ap scan_number (sym (append-nil (print_decimal n)))
    ∙ scan_number-print_decimal n [] (unfold starts_with_digit in refl)

before_sign :
    (n c : ℕ) (rest : List ℕ)
    → is_digit c ≡ false
    → scan_number (print_decimal n ++ c ∷ rest) ≡ some (false, n, c ∷ rest)
before_sign n c rest h = scan_number-print_decimal n (c ∷ rest) (unfold starts_with_digit in h)

length_part :
    (partition sector l : ℕ)
    → 0 < l
    → l < 2 ^ 64
    → parse_length partition sector (print_decimal l) ≡ address_of partition sector l none
unfolding parse_length unsigned_long
length_part partition sector l pos h = ground (arith, whole_number l, pos, h)

sector_part :
    (partition sector l : ℕ)
    → sector < 2 ^ 64
    → 0 < l
    → l < 2 ^ 64
    → parse_sector partition (print_decimal sector ++ 0x2b ∷ print_decimal l)
      ≡ address_of partition sector l none
unfolding parse_sector unsigned_long
sector_part partition sector l hs pos h = ground (
  arith,
  before_sign sector 0x2b (print_decimal l) (unfold is_digit in refl),
  length_part partition sector l pos h,
  hs,
)

-- A partition, a sector and a length that fit into 63, 64 and 64 bits, the length not zero, are read
-- from N/S+L as they were printed, but each without the bits above the lowest 32: so a length that
-- is a multiple of 2 ^ 32 becomes zero sectors.
pub parse_storage_address-print_address :
    (partition sector l : ℕ)
    → partition < 2 ^ 63
    → sector < 2 ^ 64
    → 0 < l
    → l < 2 ^ 64
    → parse_storage_address (print_address partition sector l)
      ≡ some (record {
        physical_partition = partition % 2 ^ 32;
        start_sector = sector % 2 ^ 32;
        num_sectors = l % 2 ^ 32;
        gpt_partition = none;
      })
unfolding parse_storage_address print_address address_of
parse_storage_address-print_address partition sector l hp hs pos h = ground (
  arith,
  before_sign partition 0x2f (print_decimal sector ++ 0x2b ∷ print_decimal l)
      (unfold is_digit in refl),
  sector_part partition sector l hs pos h,
  hp,
)
