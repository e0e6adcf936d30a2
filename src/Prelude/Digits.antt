-- ===== src/Prelude/Digits.antt =====
-- The digits of a number, and how many they are.
use Prim.Native.Nat.{ℕ, zero, suc, ◌+◌, ◌/◌, ◌%◌, ◌≤◌, ◌<◌}
use mathlib.Core.Bool.{true}
use mathlib.Core.Path.{◌≡◌, refl}
use mathlib.Core.Logic.{inl, inr}
use mathlib.Core.List.{[], ◌∷◌, ◌++◌}
use native.Mathlib.Omega.{arith}
use herdr_pal.Prelude.Tests.{ltb, Bool-cases}
use herdr_pal.Prelude.Lists.{all, length}
use herdr_pal.Prelude.Decimal.{is_digit, digits, format_uint}
use herdr_pal.Prelude.Text.{Text, rune_len, byte_len}

pub digits-all :
    (fuel n : ℕ) (done : Text) → all is_digit done ≡ true → all is_digit (digits fuel n done) ≡ true
unfolding digits is_digit
digits-all zero n done h = h
digits-all (suc fuel) n done h = elim (Bool-cases (ltb n 10)) [
  | inl y ↦ rw (y, digits) (ground (arith, y, h))
  | inr y ↦ rw (y, digits) (digits-all fuel (n / 10) ((b'0' + n % 10) ∷ done) (ground (arith, h)))
]

digits_longer : (fuel n : ℕ) (done : Text) → length done ≤ length (digits fuel n done)
unfolding digits
digits_longer zero n done = omega arith
digits_longer (suc fuel) n done = elim (Bool-cases (ltb n 10)) [
  | inl y ↦ rw (y, digits) (omega arith)
  | inr y ↦ rw (y, digits) (omega (arith, digits_longer fuel (n / 10) ((b'0' + n % 10) ∷ done)))
]

pub format_uint-all : (n : ℕ) → all is_digit (format_uint n) ≡ true
unfolding format_uint
format_uint-all n = digits-all 20 n [] refl

pub format_uint_some : (n : ℕ) → 0 < length (format_uint n)
unfolding format_uint digits
format_uint_some n = elim (Bool-cases (ltb n 10)) [
  | inl y ↦ rw (y, digits) (omega arith)
  | inr y ↦ rw (y, digits) (omega (arith, digits_longer 19 (n / 10) ((b'0' + n % 10) ∷ [])))
]

-- A smaller number has no more digits.
digits_le :
    (fuel m n : ℕ) (a b : Text)
    → m ≤ n
    → length a ≤ length b
    → length (digits fuel m a) ≤ length (digits fuel n b)
unfolding digits
digits_le zero m n a b l k = k
digits_le (suc fuel) m n a b l k = elim (Bool-cases (ltb n 10)) [
  | inl y ↦
      let small : ltb m 10 ≡ true = ground (arith, y, l) in rw (y, small, digits) (omega (arith, k))
  | inr y ↦ elim (Bool-cases (ltb m 10)) [
    | inl z ↦
        rw (y, z, digits) (omega (arith, k, digits_longer fuel (n / 10) ((b'0' + n % 10) ∷ b)))
    | inr z ↦
        rw (y, z, digits)
          (digits_le fuel (m / 10) (n / 10) ((b'0' + m % 10) ∷ a) ((b'0' + n % 10) ∷ b)
            (omega (arith, l)) (omega (arith, k)))
  ]
]

pub format_uint_le : (m n : ℕ) → m ≤ n → length (format_uint m) ≤ length (format_uint n)
unfolding format_uint
format_uint_le m n l = digits_le 20 m n [] [] l (omega arith)

-- A digit is one byte.
byte_len-all : (s : Text) → all is_digit s ≡ true → byte_len s ≡ length s
unfolding byte_len is_digit rune_len
byte_len-all [] h = refl
byte_len-all (c ∷ s) h = ground (arith, h, byte_len-all s)

pub byte_len-format_uint : (n : ℕ) → byte_len (format_uint n) ≡ length (format_uint n)
byte_len-format_uint n = byte_len-all (format_uint n) (format_uint-all n)

pub byte_len-append : (x y : Text) → byte_len (x ++ y) ≡ byte_len x + byte_len y
unfolding byte_len
byte_len-append [] y = ground arith
byte_len-append (c ∷ x) y = ground (arith, byte_len-append x y)
