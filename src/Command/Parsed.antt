-- ===== src/Command/Parsed.antt =====
-- internal/command/parser.go: what holds of every action that is parsed.
use herdr_pal.Prelude.{
  ℕ, ◌≡◌, ◌≢◌, ◌<◌, ◌≤◌, refl, List, [], ◌∷◌, map, Bool, true, false, ◌&&◌, ◌||◌, not, none, ◌==◌,
  nat_eq, ltb, if◌then◌else◌, all, any, length, All, Result, ok, err, ℕ_discrete, arith, Bool-cases,
  inl, inr, subst,
}
use herdr_pal.Prelude.Text.{Text, text_eq, Text-discrete, codes, trim_space, nonblank, is_space}
use herdr_pal.Guard
use herdr_pal.Command.{
  Action, Kind, Error, key, select, prompt, list, content, page_up, page_down, help, parse,
  parse_command, parse_alias, parse_keys, parse_slash, parse_select_index, check_keys,
  normalize_key, is_allowed_key, is_enter, bare, key_action, prompt_action, max_key_sequence,
  max_int, fields_func, decimal, key_separator, trim_prefix, first_field, after_slash,
  starts_with_slash, is_ascii_unsigned_integer,
}

-- The two whitelists of keys agree.
pub is_allowed_key-eq-allowed_key : (k : Text) → is_allowed_key k ≡ Guard.allowed_key k
unfolding is_allowed_key Guard.allowed_key Guard.key_char
is_allowed_key-eq-allowed_key k = ground arith

-- What the rest of the program relies on: keys that the guard lets through, at most 32 and enter
-- alone, an index that fits an int, a text that is not empty.
pub record IsSafe (a : Action) : Type 0 where
  pub allowed : All (λ k. Guard.validate_key k ≡ none) a.keys
  pub bounded : length a.keys ≤ max_key_sequence
  pub alone : 1 < length a.keys → any is_enter a.keys ≡ false
  pub some_key : a.kind ≡ key → 0 < length a.keys
  pub numbered : a.kind ≡ select → (0 < a.index) × (a.index ≤ max_int)
  pub prompted : a.kind ≡ prompt → a.text ≢ []

record AreSafe (r : Result Error Action) : Type 0 where
  pub safe : (a : Action) → r ≡ ok a → IsSafe a

AreSafe-err : (e : Error) → AreSafe (err e)
AreSafe-err e = record { safe = λ a p. absurd (cc) }

AreSafe-ok : (a : Action) → IsSafe a → AreSafe (ok a)
AreSafe-ok a h = record { safe = λ b p. subst IsSafe (cc) h }

if-AreSafe :
    (b : Bool) (x y : Result Error Action)
    → (b ≡ true → AreSafe x)
    → (b ≡ false → AreSafe y)
    → AreSafe (if b then x else y)
if-AreSafe true x y p q = p refl
if-AreSafe false x y p q = q refl

bare-IsSafe : (k : Kind) → k ≢ key → k ≢ select → k ≢ prompt → IsSafe (bare k)
bare-IsSafe k n m o = record {
  allowed = tt;
  bounded = omega arith;
  alone = λ e. absurd (omega (arith, e));
  some_key = λ e. absurd (n e);
  numbered = λ e. absurd (m e);
  prompted = λ e. absurd (o e);
}

prompt_action-IsSafe : (t : Text) → t ≢ [] → IsSafe (prompt_action t)
prompt_action-IsSafe t n = record {
  allowed = tt;
  bounded = omega arith;
  alone = λ e. absurd (omega (arith, e));
  some_key = λ e. absurd (cc);
  numbered = λ e. absurd (cc);
  prompted = λ e. n;
}

key_action-IsSafe :
    (ks : List Text)
    → All (λ k. Guard.validate_key k ≡ none) ks
    → 0 < length ks
    → length ks ≤ max_key_sequence
    → (1 < length ks → any is_enter ks ≡ false)
    → IsSafe (key_action ks)
key_action-IsSafe ks a pos le alone = record {
  allowed = a;
  bounded = le;
  alone = alone;
  some_key = λ e. pos;
  numbered = λ e. absurd (cc);
  prompted = λ e. absurd (cc);
}

allowed_keys :
    (ks : List Text) → all is_allowed_key ks ≡ true → All (λ k. Guard.validate_key k ≡ none) ks
unfolding Guard.validate_key
allowed_keys [] e = tt
allowed_keys (k ∷ ks) e =
    (ground (arith, e, is_allowed_key-eq-allowed_key k), allowed_keys ks (ground (arith, e)))

length-normalized : (ks : List Text) → length (map normalize_key ks) ≡ length ks
length-normalized [] = refl
length-normalized (k ∷ ks) = omega (arith, length-normalized ks)

check_keys-AreSafe : (values : List Text) → AreSafe (check_keys values)
unfolding check_keys
check_keys-AreSafe values =
    let keys = map normalize_key values in
    if-AreSafe (length values == 0 || ltb max_key_sequence (length values)) _ _ (λ e. AreSafe-err _)
      λ few.
        if-AreSafe (not (all is_allowed_key keys)) _ _ (λ e. AreSafe-err _)
          λ whitelisted.
            if-AreSafe (ltb 1 (length keys) && any is_enter keys) _ _ (λ e. AreSafe-err _)
              λ single. AreSafe-ok _ (
                key_action-IsSafe keys (allowed_keys keys (ground (arith, whitelisted)))
                  (ground (arith, few, length-normalized values))
                  (ground (arith, few, length-normalized values))
                  (λ many. ground (arith, single, many)))

select-IsSafe :
    (i : ℕ)
    → 0 < i
    → i ≤ max_int
    → IsSafe (record { kind = select; index = i; keys = []; text = [] })
select-IsSafe i pos le = record {
  allowed = tt;
  bounded = omega arith;
  alone = λ e. absurd (omega (arith, e));
  some_key = λ e. absurd (cc);
  numbered = λ e. (pos, le);
  prompted = λ e. absurd (cc);
}

parse_select_index-AreSafe : (value usage : Text) → AreSafe (parse_select_index value usage)
unfolding parse_select_index
parse_select_index-AreSafe value usage = elim (Bool-cases (ltb max_int (decimal 0 value))) [
  | inl big ↦ rw (big, parse_select_index) (AreSafe-err _)
  | inr fits ↦ elim (Bool-cases (decimal 0 value == 0)) [
    | inl none_chosen ↦ rw (fits, none_chosen, parse_select_index) (AreSafe-err _)
    | inr some_chosen ↦
        rw (fits, some_chosen, parse_select_index)
          (AreSafe-ok _
            (select-IsSafe (decimal 0 value) (ground (arith, some_chosen)) (ground (arith, fits))))
  ]
]

slash_text : {t : Text} → ◌≢◌ {A = Text} (b'/' ∷ t) []
slash_text p = cc

parse_slash-AreSafe : (trimmed : Text) → AreSafe (parse_slash trimmed)
unfolding parse_slash
parse_slash-AreSafe trimmed =
    let payload = trim_space (trim_prefix (codes "/slash") trimmed) in
    if-AreSafe (payload == []) _ _ (λ e. AreSafe-err _)
      λ e. AreSafe-ok _ (prompt_action-IsSafe (b'/' ∷ payload) slash_text)

parse_alias-AreSafe :
    (fields : List Text) (command : Text) (a : Action)
    → IsSafe a
    → AreSafe (parse_alias fields command a)
unfolding parse_alias
parse_alias-AreSafe fields command a h =
    if-AreSafe (length fields == 1) _ _ (λ e. AreSafe-ok a h) (λ e. AreSafe-err _)

enter_allowed : Guard.validate_key (codes "enter") ≡ none
unfolding Guard.validate_key Guard.allowed_key Text-discrete ℕ_discrete
enter_allowed = refl

enter-IsSafe : IsSafe (key_action (codes "enter" ∷ []))
enter-IsSafe =
    key_action-IsSafe (codes "enter" ∷ []) (enter_allowed, tt) (omega arith) (omega arith)
      λ e. absurd (omega (arith, e))

parse_keys-AreSafe : (raw : Text) → AreSafe (parse_keys raw)
unfolding parse_keys
parse_keys-AreSafe raw = check_keys-AreSafe (fields_func key_separator raw)

module _ (trimmed : Text) (fields : List Text) (command : Text) where
  alias :
      (k : Kind) → k ≢ key → k ≢ select → k ≢ prompt → AreSafe (parse_alias fields command (bare k))
  alias k n m o = parse_alias-AreSafe fields command (bare k) (bare-IsSafe k n m o)

  parse_command-AreSafe : AreSafe (parse_command trimmed fields command)
  unfolding parse_command
  parse_command-AreSafe =
      if-AreSafe (command == codes "/ls") _ _ (λ e. alias list (λ p. cc) (λ p. cc) (λ p. cc))
        λ _.
          if-AreSafe (command == codes "/con") _ _
            (λ e. alias content (λ p. cc) (λ p. cc) (λ p. cc))
            λ _.
              if-AreSafe (command == codes "/pageup") _ _
                (λ e. alias page_up (λ p. cc) (λ p. cc) (λ p. cc))
                λ _.
                  if-AreSafe (command == codes "/pagedn") _ _
                    (λ e. alias page_down (λ p. cc) (λ p. cc) (λ p. cc))
                    λ _.
                      if-AreSafe (command == codes "/help") _ _
                        (λ e. alias help (λ p. cc) (λ p. cc) (λ p. cc))
                        λ _.
                          if-AreSafe (command == codes "/enter") _ _
                            (λ e. parse_alias-AreSafe fields command _ enter-IsSafe)
                            λ _.
                              if-AreSafe (command == codes "/key") _ _ (λ e. parse_keys-AreSafe _)
                                λ _.
                                  if-AreSafe (command == codes "/slash") _ _
                                    (λ e. parse_slash-AreSafe trimmed) λ _. AreSafe-err _

-- An action that is parsed sends keys that the guard lets through, at most 32 of them and enter
-- only alone, selects a positive number that an int can hold, or sends a text that is not empty.
pub parse-IsSafe : (input : Text) (a : Action) → parse input ≡ ok a → IsSafe a
unfolding parse
parse-IsSafe input = safe
  where
    result : AreSafe (parse input)
    result =
        let fields = fields_func is_space (trim_space input) in
        let command = first_field fields in
        if-AreSafe (trim_space input == []) _ _ (λ e. AreSafe-err _)
          λ filled.
            if-AreSafe (not (starts_with_slash (trim_space input))) _ _
              (λ e. AreSafe-ok _ (prompt_action-IsSafe input (nonblank input filled)))
              λ _.
                if-AreSafe (length fields == 1 && is_ascii_unsigned_integer (after_slash command)) _
                  _ (λ e. parse_select_index-AreSafe (after_slash command) (codes "/N 用法: /N"))
                  λ _. parse_command-AreSafe (trim_space input) fields command

    safe : (a : Action) → parse input ≡ ok a → IsSafe a
    safe = result.safe
