-- ===== src/Credential/Roundtrip.antt =====
-- internal/credential/key.go: the text of a key is read back.
use herdr_pal.Prelude.{
  ℕ, zero, suc, ◌+◌, ◌*◌, ◌/◌, ◌%◌, ◌≡◌, ◌≢◌, ◌≤◌, ◌<◌, refl, [], ◌∷◌, ◌++◌, true, some, nat_eq,
  ltb, all, arith, Bool-cases, inl, inr, ap, ◌∙◌,
}
use herdr_pal.Prelude.Decimal.{digits, format_uint, is_digit, digits_value}
use herdr_pal.Prelude.Digits.{format_uint_some, digits-all, format_uint-all}
use herdr_pal.Prelude.Strings.{cut_prefix}
use herdr_pal.Prelude.Text.{Text, text_eq, codes}
use herdr_pal.Credential.{Primitives, max_uint64}
use herdr_pal.Credential.Token.{parse_uint, cut, token_text, parse_parts, parse_token}

-- `10 ^ n`
abbrev ten_to : ℕ → ℕ
ten_to zero = 1
ten_to (suc n) = 10 * ten_to n

digits_value-digits :
    (fuel n : ℕ) (done : Text)
    → n < ten_to fuel
    → digits_value 0 (digits fuel n done) ≡ digits_value n done
unfolding digits digits_value
digits_value-digits zero n done lt = ap (λ k. digits_value k done) (omega (arith, lt))
digits_value-digits (suc fuel) n done lt = elim (Bool-cases (ltb n 10)) [
  | inl y ↦ rw (y, digits) (ap (λ k. digits_value k done) (omega arith))
  | inr y ↦
      rw (y, digits)
        (digits_value-digits fuel (n / 10) ((b'0' + n % 10) ∷ done) (omega (arith, lt))
          ∙ ap (λ k. digits_value k done) (omega arith))
]

parse_uint-format_uint : (n : ℕ) → n ≤ max_uint64 → parse_uint (format_uint n) ≡ some n
unfolding parse_uint format_uint
parse_uint-format_uint n le =
    let value = digits_value-digits 20 n [] (omega (arith, le)) in
    let ds = digits-all 20 n [] refl in ground (arith, value, ds, format_uint_some n, le)

cut_prefix-append : (p s : Text) → cut_prefix p (p ++ s) ≡ some s
unfolding cut_prefix
cut_prefix-append [] s = refl
cut_prefix-append (c ∷ p) s = ground (arith, cut_prefix-append p s)

-- Digits hold no `_`.
cut-append : (ds s : Text) → all is_digit ds ≡ true → cut b'_' (ds ++ (b'_' ∷ s)) ≡ some (ds, s)
unfolding cut is_digit
cut-append [] s h = ground arith
cut-append (d ∷ ds) s h = ground (arith, h, cut-append ds s)

parse_parts-format_uint :
    (p : Primitives) (credential_id : ℕ) (secret : Text)
    → credential_id ≢ 0
    → credential_id ≤ max_uint64
    → p.is_secret secret ≡ true
    → secret ≢ []
    → parse_parts p (format_uint credential_id) secret ≡ some (credential_id, secret)
unfolding parse_parts
parse_parts-format_uint p id secret n le h k =
    ground (arith, format_uint_some id, parse_uint-format_uint id le, n, h, k)

pub parse_token-token_text :
    (p : Primitives) (credential_id : ℕ) (secret : Text)
    → credential_id ≢ 0
    → credential_id ≤ max_uint64
    → p.is_secret secret ≡ true
    → secret ≢ []
    → parse_token p (token_text credential_id secret) ≡ some (credential_id, secret)
unfolding parse_token token_text
parse_token-token_text p id secret n le h k =
    let after : cut_prefix (codes "hpk_") (token_text id secret)
        ≡ some (format_uint id ++ (b'_' ∷ secret)) =
      cut_prefix-append (codes "hpk_") (format_uint id ++ (b'_' ∷ secret)) in
    let split = cut-append (format_uint id) secret (format_uint-all id) in
    let parts = parse_parts-format_uint p id secret n le h k in ground (arith, after, split, parts)
