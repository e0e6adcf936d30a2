-- ===== src/Credential/Token.antt =====
-- internal/credential/key.go: the text of a key, `hpk_`, the credential's number, `_` and the secret.
-- `strconv.FormatUint` and `strconv.ParseUint` in base 10 with 64 bits, `strings.Cut`,
-- `strings.HasPrefix` and `strings.TrimPrefix` are written out.
use herdr_pal.Prelude.{
  ℕ, [], ◌∷◌, ◌++◌, ◌||◌, not, Option, none, some, ◌==◌, nat_eq, leb, if◌then◌else◌, all,
}
use herdr_pal.Prelude.Decimal.{is_digit, digits_value, format_uint}
use herdr_pal.Prelude.Strings.{cut_prefix}
use herdr_pal.Prelude.Text.{Text, text_eq, codes}
use herdr_pal.Credential.{Primitives, max_uint64}

-- `strconv.ParseUint(s, 10, 64)`
unfoldable pub parse_uint : Text → Option ℕ
unfolding is_digit digits_value
parse_uint s =
    if s == [] || not (all is_digit s)
    then none
    else if leb (digits_value 0 s) max_uint64
    then some (digits_value 0 s)
    else none

abbrev cons_first : ℕ → Option (Text × Text) → Option (Text × Text)
cons_first c none = none
cons_first c (some (before, after)) = some (c ∷ before, after)

-- `strings.Cut` at a character.
unfoldable pub cut : ℕ → Text → Option (Text × Text)
cut at [] = none
cut at (c ∷ s) = let rest = cut at s in if c == at then some ([], s) else cons_first c rest

-- The text that `Issue` returns.
unfoldable pub token_text : ℕ → Text → Text
token_text credential_id secret =
    codes "hpk_" ++ (format_uint credential_id ++ (codes "_" ++ secret))

-- The end of `parseToken`, on the two parts.
unfoldable pub parse_parts : Primitives → Text → Text → Option (ℕ × Text)
parse_parts p number secret =
    if number == [] || secret == [] then none else elim (parse_uint number) [
      | none ↦ none
      | some n ↦
          if n == 0 || not (format_uint n == number) || not (p.is_secret secret)
          then none
          else some (n, secret)
    ]

-- `parseToken`
unfoldable pub parse_token : Primitives → Text → Option (ℕ × Text)
parse_token p token = elim (cut_prefix (codes "hpk_") token) [
  | none ↦ none
  | some rest ↦ elim (cut b'_' rest) [
    | none ↦ none
    | some (number, secret) ↦ parse_parts p number secret
  ]
]
