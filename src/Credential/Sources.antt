-- ===== src/Credential/Sources.antt =====
-- internal/credential/source.go and key.go: lists of source rules.
use herdr_pal.Prelude.{
  ℕ, List, [], ◌∷◌, ◌++◌, Bool, true, false, ◌&&◌, not, none, some, ◌==◌, nat_eq, ltb,
  if◌then◌else◌, any, Result, ok, err,
}
use herdr_pal.Prelude.Sort.{sort}
use herdr_pal.Prelude.Text.{Text, text_eq, trim_space, text_lt}
use herdr_pal.Credential.{Error, source_required, source_invalid, Primitives}

abbrev is_empty : List Text → Bool
is_empty [] = true
is_empty (x ∷ xs) = false

-- `classifySourceRule`
unfoldable pub classify_source_rule : Text → ℕ
classify_source_rule rule =
    if any (λ c. c == b'-') rule then 2 else if any (λ c. c == b'/') rule then 1 else 0

-- The order of the sort in `NormalizeSourceRules`.
unfoldable pub rule_less : Text → Text → Bool
unfolding classify_source_rule
rule_less left right =
    let a = classify_source_rule left in
    let b = classify_source_rule right in if a == b then text_lt left right else ltb a b

-- One round of the loop of `NormalizeSourceRules`, with the rules so far.
unfoldable pub add_rule : Primitives → List Text → Text → Result Error (List Text)
add_rule p rules value = if trim_space value == [] then ok rules else elim (p.parse_rule value) [
  | none ↦ err source_invalid
  | some rule ↦ if any (λ r. r == rule) rules then ok rules else ok (rules ++ rule ∷ [])
]

unfoldable pub collect_rules : Primitives → List Text → List Text → Result Error (List Text)
unfolding add_rule
collect_rules p rules [] = ok rules
collect_rules p rules (value ∷ rest) = elim (add_rule p rules value) [
  | err e ↦ err e
  | ok more ↦ collect_rules p more rest
]

-- `NormalizeSourceRules`
unfoldable pub normalize_source_rules : Primitives → List Text → Result Error (List Text)
unfolding collect_rules rule_less
normalize_source_rules p values = elim (collect_rules p [] values) [
  | err e ↦ err e
  | ok rules ↦ if is_empty rules then err source_required else ok (sort rule_less rules)
]

-- The loop of `validateSourceRules`, with the rules seen.
unfoldable pub validate_rules_from : Primitives → List Text → List Text → Bool
validate_rules_from p seen [] = true
validate_rules_from p seen (rule ∷ rest) = elim (p.parse_rule rule) [
  | none ↦ false
  | some normalized ↦
      normalized == rule
      && not (any (λ r. r == rule) seen)
      && validate_rules_from p (rule ∷ seen) rest
]

-- `validateSourceRules`, without the two errors that its callers do not tell apart.
unfoldable pub validate_source_rules : Primitives → List Text → Bool
unfolding validate_rules_from
validate_source_rules p rules = not (is_empty rules) && validate_rules_from p [] rules
