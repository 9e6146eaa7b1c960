-- ===== src/Common/Words.antt =====
-- Little-endian integers in byte buffers.
use Prim.Native.Nat.{ℕ, zero, suc, ◌+◌, ◌*◌, ◌/◌, ◌%◌, ◌^◌, ◌<◌}
use mathlib.Core.Path.{◌≡◌, refl, ap}
use mathlib.Core.List.{List, [], ◌∷◌}
use native.Mathlib.Nat.{pow-suc}
use native.Mathlib.Omega.{arith}
use qfenix.Common.Lists.{length, IsBytes, take, drop, All-drop}

-- The `n` bytes of a number, lowest first.
unfoldable pub to_le : ℕ → ℕ → List ℕ
to_le zero v = []
to_le (suc n) v = v % 256 ∷ to_le n (v / 256)

unfoldable pub of_le : List ℕ → ℕ
of_le [] = 0
of_le (b ∷ rest) = b + 256 * of_le rest

pub length-to_le : (n v : ℕ) → length (to_le n v) ≡ n
unfolding to_le
length-to_le zero v = refl
length-to_le (suc n) v = ap suc (length-to_le n (v / 256))

pub to_le-IsBytes : (n v : ℕ) → IsBytes (to_le n v)
unfolding to_le
to_le-IsBytes zero v = tt
to_le-IsBytes (suc n) v = (omega arith, to_le-IsBytes n (v / 256))

pub of_le-to_le : (n v : ℕ) → v < 256 ^ n → of_le (to_le n v) ≡ v
unfolding to_le of_le
of_le-to_le zero v h = omega arith
of_le-to_le (suc n) v h = omega (arith, of_le-to_le n (v / 256) (omega (arith, pow-suc 256 n)))

-- The `n`-byte field at an offset.
unfoldable pub field_at : ℕ → List ℕ → ℕ → ℕ
unfolding of_le
field_at n buf offset = of_le (take n (drop offset buf))

of_le-take-lt : (n : ℕ) (bytes : List ℕ) → IsBytes bytes → of_le (take n bytes) < 256 ^ n
unfolding of_le
of_le-take-lt zero bytes h = omega arith
of_le-take-lt (suc n) [] h = omega (arith, of_le-take-lt n [] tt, pow-suc 256 n)
of_le-take-lt (suc n) (b ∷ rest) h = omega (arith, of_le-take-lt n rest h.1, pow-suc 256 n)

pub field_at-lt :
    (n : ℕ) (buf : List ℕ) (offset : ℕ) → IsBytes buf → field_at n buf offset < 256 ^ n
unfolding field_at
field_at-lt n buf offset h =
    of_le-take-lt n (drop offset buf) (All-drop (λ b. b < 2 ^ 8) offset buf h)
