-- ===== src/Command.antt =====
-- internal/command/parser.go: chat texts read as actions.
pub mod Parsed
pub mod Keys
mod Examples
use herdr_pal.Prelude.{
  ℕ, ◌+◌, ◌-◌, ◌*◌, List, [], ◌∷◌, ◌++◌, map, Bool, true, false, ◌&&◌, ◌||◌, not, Option, none,
  some, ◌==◌, nat_eq, leb, ltb, if◌then◌else◌, all, any, length, Result, ok, err,
}
use herdr_pal.Prelude.Text.{Text, text_eq, codes, trim_space, is_space, byte_len}

-- `Kind`
pub data Kind : Type 0 where
  list select content page_up page_down key help prompt : Kind

-- `Action`
pub record Action : Type 0 where
  pub kind : Kind
  pub index : ℕ
  pub keys : List Text
  pub text : Text

-- `ErrInvalidCommand` with the message that is joined to it.
pub data Error : Type 0 where
  invalid_command : Text → Error

abbrev general_usage : Text
general_usage = codes "用法: 可用命令见 /help"

abbrev key_usage : Text
key_usage = codes "/key 用法: /key KEYS"

abbrev pub max_key_sequence : ℕ
max_key_sequence = 32

-- The largest `int` on a 64-bit machine.
abbrev pub max_int : ℕ
max_int = 9223372036854775807

abbrev pub bare : Kind → Action
bare kind = record { kind = kind; index = 0; keys = []; text = [] }

abbrev pub key_action : List Text → Action
key_action keys = record { kind = key; index = 0; keys = keys; text = [] }

abbrev pub prompt_action : Text → Action
prompt_action t = record { kind = prompt; index = 0; keys = []; text = t }

-- `strings.FieldsFunc`: the parts between separators that are not empty.
abbrev pub part : Text × List Text → List Text
part ([], rest) = rest
part (c ∷ word, rest) = (c ∷ word) ∷ rest

unfoldable pub split_parts : (ℕ → Bool) → Text → Text × List Text
split_parts p [] = ([], [])
split_parts p (c ∷ s) =
    let later = split_parts p s in if p c then ([], part later) else (c ∷ later.0, later.1)

unfoldable pub fields_func : (ℕ → Bool) → Text → List Text
unfolding split_parts
fields_func p s = part (split_parts p s)

-- `strings.HasPrefix` and `strings.TrimPrefix`
abbrev pub strip : Text → Text → Option Text
strip [] s = some s
strip (c ∷ prefix) [] = none
strip (c ∷ prefix) (d ∷ s) = if c == d then strip prefix s else none

abbrev pub or_same : Text → Option Text → Text
or_same s none = s
or_same s (some rest) = rest

abbrev pub trim_prefix : Text → Text → Text
trim_prefix prefix s = or_same s (strip prefix s)

abbrev pub is_digit : ℕ → Bool
is_digit c = leb b'0' c && leb c b'9'

-- `isASCIIUnsignedInteger`
unfoldable pub is_ascii_unsigned_integer : Text → Bool
is_ascii_unsigned_integer [] = false
is_ascii_unsigned_integer (c ∷ s) = all is_digit (c ∷ s)

-- `strconv.Atoi` on digits.
abbrev pub decimal : ℕ → Text → ℕ
decimal n [] = n
decimal n (c ∷ s) = decimal (10 * n + (c - b'0')) s

abbrev pub atoi : Text → Option ℕ
atoi s = if ltb max_int (decimal 0 s) then none else some (decimal 0 s)

abbrev with_index : Text → Option ℕ → Result Error Action
with_index usage none = err (invalid_command usage)
with_index usage (some i) =
    if i == 0
    then err (invalid_command usage)
    else ok (record { kind = select; index = i; keys = []; text = [] })

-- `parseSelectIndex`
unfoldable pub parse_select_index : Text → Text → Result Error Action
parse_select_index value usage = with_index usage (atoi value)

-- `parseAlias`
unfoldable pub parse_alias : List Text → Text → Action → Result Error Action
parse_alias fields command action =
    if length fields == 1
    then ok action
    else err (invalid_command (command ++ codes " 用法: " ++ command))

-- `normalizeKey`
unfoldable pub normalize_key : Text → Text
normalize_key k =
    if k == codes "dn" then codes "down" else if k == codes "sp" then codes "space" else k

abbrev pub key_char : ℕ → Bool
key_char c = (leb b'A' c && leb c b'Z') || (leb b'a' c && leb c b'z') || (leb b'0' c && leb c b'9')

abbrev pub one_char : Text → Bool
one_char (c ∷ []) = key_char c
one_char _ = false

-- `isAllowedKey`
unfoldable pub is_allowed_key : Text → Bool
is_allowed_key k =
    k == codes "up"
    || k == codes "down"
    || k == codes "enter"
    || k == codes "esc"
    || k == codes "space"
    || (byte_len k == 1 && one_char k)

abbrev pub is_enter : Text → Bool
is_enter k = k == codes "enter"

abbrev pub key_separator : ℕ → Bool
key_separator c = c == b',' || is_space c

-- The end of `parseKeys`: the values are normalized and tested.
unfoldable pub check_keys : List Text → Result Error Action
unfolding is_allowed_key normalize_key
check_keys values =
    let keys = map normalize_key values in
    if length values == 0 || ltb max_key_sequence (length values)
    then err (invalid_command key_usage)
    else if not (all is_allowed_key keys)
    then err (invalid_command key_usage)
    else if ltb 1 (length keys) && any is_enter keys
    then err (invalid_command key_usage)
    else ok (key_action keys)

-- `parseKeys`
unfoldable pub parse_keys : Text → Result Error Action
unfolding check_keys
parse_keys raw = check_keys (fields_func key_separator raw)

-- `parseSlash`
unfoldable pub parse_slash : Text → Result Error Action
parse_slash trimmed =
    let payload = trim_space (trim_prefix (codes "/slash") trimmed) in
    if payload == []
    then err (invalid_command (codes "/slash 用法: /slash TEXT"))
    else ok (prompt_action (b'/' ∷ payload))

-- The switch of `Parse` on the first field.
unfoldable pub parse_command : Text → List Text → Text → Result Error Action
unfolding parse_alias parse_keys parse_slash
parse_command trimmed fields command =
    if command == codes "/ls"
    then parse_alias fields command (bare list)
    else if command == codes "/con"
    then parse_alias fields command (bare content)
    else if command == codes "/pageup"
    then parse_alias fields command (bare page_up)
    else if command == codes "/pagedn"
    then parse_alias fields command (bare page_down)
    else if command == codes "/help"
    then parse_alias fields command (bare help)
    else if command == codes "/enter"
    then parse_alias fields command (key_action (codes "enter" ∷ []))
    else if command == codes "/key"
    then parse_keys (trim_space (trim_prefix (codes "/key") trimmed))
    else if command == codes "/slash"
    then parse_slash trimmed
    else err (invalid_command general_usage)

abbrev pub first_field : List Text → Text
first_field [] = []
first_field (f ∷ fields) = f

abbrev pub after_slash : Text → Text
after_slash [] = []
after_slash (c ∷ s) = s

abbrev pub starts_with_slash : Text → Bool
starts_with_slash [] = false
starts_with_slash (c ∷ s) = c == b'/'

-- `Parse`
unfoldable pub parse : Text → Result Error Action
unfolding parse_command parse_select_index is_ascii_unsigned_integer
parse input =
    let trimmed = trim_space input in
    let fields = fields_func is_space trimmed in
    let command = first_field fields in
    if trimmed == []
    then err (invalid_command general_usage)
    else if not (starts_with_slash trimmed)
    then ok (prompt_action input)
    else if length fields == 1 && is_ascii_unsigned_integer (after_slash command)
    then parse_select_index (after_slash command) (codes "/N 用法: /N")
    else parse_command trimmed fields command
