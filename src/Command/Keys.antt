-- ===== src/Command/Keys.antt =====
-- internal/command/parser.go: the keys of `/key` are read back as they were written.
use herdr_pal.Prelude.{
  ℕ, ◌≡◌, ◌≢◌, ◌<◌, ◌≤◌, refl, ap, ◌∙◌, List, [], ◌∷◌, ◌++◌, map, Bool, true, false, not, nat_eq,
  all, any, length, All, ok, arith, ℕ_discrete,
}
use mathlib.Core.List.{append-nil}
use herdr_pal.Prelude.Text.{Text, text_eq}
use herdr_pal.Command.{
  parse_keys, check_keys, split_parts, fields_func, part, key_separator, normalize_key,
  is_allowed_key, is_enter, key_action, max_key_sequence,
}

-- A key as it is typed: not empty, without separators.
abbrev pub IsWord : Text → Type 0
IsWord k = (k ≢ []) × (all (λ c. not (key_separator c)) k ≡ true)

-- The keys with commas between them.
abbrev pub with_commas : List Text → Text
with_commas [] = []
with_commas (k ∷ []) = k
with_commas (k ∷ ks) = k ++ b',' ∷ with_commas ks

split_parts-word :
    (p : ℕ → Bool) (k s : Text)
    → all (λ c. not (p c)) k ≡ true
    → split_parts p (k ++ s) ≡ (k ++ (split_parts p s).0, (split_parts p s).1)
unfolding split_parts
split_parts-word p [] s h = refl
split_parts-word p (c ∷ k) s h = ground (arith, h, split_parts-word p k s)

split_parts-last :
    (p : ℕ → Bool) (k : Text) → all (λ c. not (p c)) k ≡ true → split_parts p k ≡ (k, [])
unfolding split_parts
split_parts-last p [] h = refl
split_parts-last p (c ∷ k) h = ground (arith, h, split_parts-last p k)

part-word : (k : Text) (rest : List Text) → k ≢ [] → part (k, rest) ≡ k ∷ rest
part-word [] rest n = absurd (n refl)
part-word (c ∷ k) rest n = refl

-- A key, a comma and what follows.
fields_func-comma :
    (k s : Text)
    → IsWord k
    → fields_func key_separator (k ++ b',' ∷ s) ≡ k ∷ fields_func key_separator s
unfolding fields_func split_parts ℕ_discrete
fields_func-comma k s w =
    ap part (split_parts-word key_separator k (b',' ∷ s) w.1)
    ∙ ap (λ t. part (t, fields_func key_separator s)) (append-nil k)
    ∙ part-word k (fields_func key_separator s) w.0

fields_func-with_commas :
    (ks : List Text) → All IsWord ks → fields_func key_separator (with_commas ks) ≡ ks
unfolding fields_func split_parts
fields_func-with_commas [] a = refl
fields_func-with_commas (k ∷ []) a =
    ap part (split_parts-last key_separator k a.0.1) ∙ part-word k [] a.0.0
fields_func-with_commas (k ∷ j ∷ ks) a =
    fields_func-comma k (with_commas (j ∷ ks)) a.0
    ∙ ap (◌∷◌ k) (fields_func-with_commas (j ∷ ks) a.1)

length-normalized : (ks : List Text) → length (map normalize_key ks) ≡ length ks
length-normalized [] = refl
length-normalized (k ∷ ks) = omega (arith, length-normalized ks)

checked_keys :
    (ks : List Text)
    → 0 < length ks
    → length ks ≤ max_key_sequence
    → all is_allowed_key (map normalize_key ks) ≡ true
    → (1 < length ks → any is_enter (map normalize_key ks) ≡ false)
    → check_keys ks ≡ ok (key_action (map normalize_key ks))
unfolding check_keys
checked_keys ks pos le good alone = ground (arith, pos, le, good, alone, length-normalized ks)

-- From 1 to 32 keys, written with commas between them, are read back in their order, with `dn` and
-- `sp` spelt out, if each is allowed then and enter is not among several.
pub parse_keys-with_commas :
    (ks : List Text)
    → All IsWord ks
    → 0 < length ks
    → length ks ≤ max_key_sequence
    → all is_allowed_key (map normalize_key ks) ≡ true
    → (1 < length ks → any is_enter (map normalize_key ks) ≡ false)
    → parse_keys (with_commas ks) ≡ ok (key_action (map normalize_key ks))
unfolding parse_keys
parse_keys-with_commas ks words pos le good alone =
    ap check_keys (fields_func-with_commas ks words) ∙ checked_keys ks pos le good alone
