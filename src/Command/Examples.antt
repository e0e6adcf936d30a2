-- ===== src/Command/Examples.antt =====
-- Tests of the parser, and its theorems on concrete texts.
use herdr_pal.Prelude.{
  ◌≡◌, refl, [], ◌∷◌, map, true, false, all, any, ok, ==_apart, arith, ℕ_discrete,
}
use herdr_pal.Prelude.Text.{
  Text, text_eq, Text-discrete, codes, trim_space, trim_left, is_space, byte_len, rune_len,
}
use herdr_pal.Command.{
  key_action, prompt_action, parse, parse_command, parse_keys, parse_slash, parse_select_index,
  check_keys, normalize_key, is_allowed_key, fields_func, split_parts, is_ascii_unsigned_integer,
  select, is_enter,
}
use herdr_pal.Command.Keys.{IsWord, with_commas, parse_keys-with_commas}
use herdr_pal.Command.Parsed.{IsSafe, parse-IsSafe}

abbrev typed : Text
typed = codes " /key up, dn"

two_keys : parse typed ≡ ok (key_action (codes "up" ∷ codes "down" ∷ []))
unfolding parse parse_command parse_keys check_keys normalize_key is_allowed_key fields_func
    split_parts is_ascii_unsigned_integer trim_space trim_left byte_len rune_len Text-discrete
    ℕ_discrete
two_keys = refl

third : parse (codes "/3") ≡ ok (record { kind = select; index = 3; keys = []; text = [] })
unfolding parse parse_select_index fields_func split_parts is_ascii_unsigned_integer trim_space
    trim_left Text-discrete ℕ_discrete
third = refl

sent_as_typed : parse (codes "/slash  compact ") ≡ ok (prompt_action (codes "/compact"))
unfolding parse parse_command parse_slash fields_func split_parts is_ascii_unsigned_integer
    trim_space trim_left Text-discrete ℕ_discrete
sent_as_typed = refl

parse-IsSafe_example : IsSafe (key_action (codes "up" ∷ codes "down" ∷ []))
parse-IsSafe_example = parse-IsSafe typed (key_action (codes "up" ∷ codes "down" ∷ [])) two_keys

up-IsWord : IsWord (codes "up")
unfolding is_space ℕ_discrete Text-discrete
up-IsWord = (==_apart (codes "up") [] refl, refl)

dn-IsWord : IsWord (codes "dn")
unfolding is_space ℕ_discrete Text-discrete
dn-IsWord = (==_apart (codes "dn") [] refl, refl)

both_allowed : all is_allowed_key (map normalize_key (codes "up" ∷ codes "dn" ∷ [])) ≡ true
unfolding normalize_key is_allowed_key byte_len rune_len Text-discrete ℕ_discrete
both_allowed = refl

no_enter : any is_enter (map normalize_key (codes "up" ∷ codes "dn" ∷ [])) ≡ false
unfolding normalize_key Text-discrete ℕ_discrete
no_enter = refl

parse_keys-with_commas_example :
    parse_keys (with_commas (codes "up" ∷ codes "dn" ∷ []))
    ≡ ok (key_action (map normalize_key (codes "up" ∷ codes "dn" ∷ [])))
parse_keys-with_commas_example =
    parse_keys-with_commas (codes "up" ∷ codes "dn" ∷ []) ((up-IsWord, (dn-IsWord, tt)))
      (omega arith) (omega arith) both_allowed (λ _. no_enter)
