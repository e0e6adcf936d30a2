-- ===== src/Prelude/Decimal.antt =====
-- Decimal digits, as strconv writes and reads them.
use Prim.Native.Nat.{ℕ, zero, suc, ◌+◌, ◌-◌, ◌*◌, ◌/◌, ◌%◌}
use mathlib.Core.Bool.{Bool, true, false, ◌&&◌}
use mathlib.Core.List.{[], ◌∷◌}
use herdr_pal.Prelude.Tests.{leb, ltb}
use herdr_pal.Prelude.Text.{Text}

unfoldable pub is_digit : ℕ → Bool
is_digit c = leb b'0' c && leb c b'9'

-- The number that digits write after a number.
unfoldable pub digits_value : ℕ → Text → ℕ
digits_value n [] = n
digits_value n (c ∷ s) = digits_value (n * 10 + (c - b'0')) s

-- `strconv.FormatUint(n, 10)`: 20 digits hold every 64-bit number.
unfoldable pub digits : ℕ → ℕ → Text → Text
digits zero n done = done
digits (suc fuel) n done = elim (ltb n 10) [
  | true ↦ (b'0' + n) ∷ done
  | false ↦ digits fuel (n / 10) ((b'0' + n % 10) ∷ done)
]

unfoldable pub format_uint : ℕ → Text
unfolding digits
format_uint n = digits 20 n []
