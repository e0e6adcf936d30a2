-- ===== src/Terminal/Lines.antt =====
-- internal/panel/normalize.go: the lines of a snapshot.
use herdr_pal.Prelude.{
  ℕ, zero, suc, ◌+◌, List, [], ◌∷◌, ◌++◌, map, Bool, true, false, ◌&&◌, not, Option, none, some,
  ◌==◌, nat_eq, leb, if◌then◌else◌, length,
}
use herdr_pal.Prelude.Text.{Text, text_eq, codes, is_space}
use herdr_pal.Panel.Buffer.{Line}
use herdr_pal.Split.Labels.{join_lines}
use herdr_pal.Terminal.Sequences.{escape, line_feed, carriage_return, sanitize_ansi, sgr_sequence}

-- What the loops over a line meet: a sequence that sets a style, or a character.
pub data Token : Type 0 where
  style : Text → Token
  visible : ℕ → Token

-- The loops' reading of a text. Every round takes a character at least.
unfoldable pub tokens_from : ℕ → Text → List Token
unfolding sgr_sequence
tokens_from zero s = []
tokens_from (suc fuel) [] = []
tokens_from (suc fuel) (c ∷ s) = elim (sgr_sequence (c ∷ s)) [
  | none ↦ visible c ∷ tokens_from fuel s
  | some (raw, rest) ↦ style raw ∷ tokens_from fuel rest
]

unfoldable pub tokens : Text → List Token
unfolding tokens_from
tokens s = tokens_from (length s) s

abbrev pub raw_text : Token → Text
raw_text (style raw) = raw
raw_text (visible c) = c ∷ []

abbrev pub shows : Token → Bool
shows (style raw) = false
shows (visible c) = not (is_space c)

abbrev pub is_blank : Token → Bool
is_blank (style raw) = false
is_blank (visible c) = is_space c

unfoldable pub shows_any : List Token → Bool
unfolding is_space
shows_any [] = false
shows_any (t ∷ ts) = if shows t then true else shows_any ts

-- The tokens without the blanks after the last that shows.
unfoldable pub trim_tokens : List Token → Text
unfolding shows_any
trim_tokens [] = []
trim_tokens (t ∷ ts) =
    let later = trim_tokens ts in
    if is_blank t && not (shows_any ts) then later else raw_text t ++ later

-- `trimANSIRightWhitespace`
unfoldable pub trim_ansi_right_whitespace : Text → Text
unfolding tokens trim_tokens shows_any
trim_ansi_right_whitespace s =
    let found = tokens s in if shows_any found then trim_tokens found else []

-- The loop of `collapseANSIHorizontalRules`, after so many rules in a row.
unfoldable pub collapse_tokens : ℕ → List Token → Text
collapse_tokens run [] = []
collapse_tokens run (style raw ∷ ts) = raw ++ collapse_tokens run ts
collapse_tokens run (visible c ∷ ts) =
    let more = collapse_tokens (run + 1) ts in
    let other = collapse_tokens 0 ts in
    if c == 0x2500 then if leb (run + 1) 6 then c ∷ more else more else c ∷ other

-- `collapseANSIHorizontalRules`
unfoldable pub collapse_ansi_horizontal_rules : Text → Text
unfolding tokens collapse_tokens
collapse_ansi_horizontal_rules s = collapse_tokens 0 (tokens s)

unfoldable pub visible_text : List Token → Text
visible_text [] = []
visible_text (style raw ∷ ts) = visible_text ts
visible_text (visible c ∷ ts) = c ∷ visible_text ts

-- `stripANSI`
unfoldable pub strip_ansi : Text → Text
unfolding sanitize_ansi tokens visible_text
strip_ansi s = visible_text (tokens (sanitize_ansi s))

-- `strings.ReplaceAll(s, "\r\n", "\n")`
unfoldable pub join_breaks : Text → Text
join_breaks [] = []
join_breaks (c ∷ []) = c ∷ []
join_breaks (c ∷ d ∷ s) =
    let later = join_breaks (d ∷ s) in
    let after = join_breaks s in
    if c == carriage_return && d == line_feed then d ∷ after else c ∷ later

abbrev pub add_to_first : ℕ → List Text → List Text
add_to_first c [] = (c ∷ []) ∷ []
add_to_first c (line ∷ lines) = (c ∷ line) ∷ lines

-- `strings.Split(s, "\n")`
unfoldable pub split_lines : Text → List Text
split_lines [] = [] ∷ []
split_lines (c ∷ s) =
    let lines = split_lines s in if c == line_feed then [] ∷ lines else add_to_first c lines

-- The text after the last carriage return.
unfoldable pub after_return : Text → Option Text
after_return [] = none
after_return (c ∷ s) = elim (after_return s) [
  | some rest ↦ some rest
  | none ↦ if c == carriage_return then some s else none
]

-- The last drawing of a line.
unfoldable pub last_drawing : Text → Text
unfolding after_return
last_drawing s = elim (after_return s) [ none ↦ s | some rest ↦ (escape ∷ codes "[0m") ++ rest ]

-- A line whose end is trimmed, as text and with its styles.
unfoldable pub line_of : Text → Line
unfolding trim_ansi_right_whitespace strip_ansi collapse_ansi_horizontal_rules
line_of s =
    let ansi = trim_ansi_right_whitespace s in
    record { text = strip_ansi (collapse_ansi_horizontal_rules ansi); ansi = ansi }

-- A line before lines that do not end with an empty one.
abbrev pub keep_line : Line → List Line → List Line
keep_line line [] = if line.text == [] then [] else line ∷ []
keep_line line (next ∷ lines) = line ∷ next ∷ lines

-- The lines without those at the end that have no text.
unfoldable pub drop_last_empty : List Line → List Line
drop_last_empty [] = []
drop_last_empty (line ∷ lines) = keep_line line (drop_last_empty lines)

-- `NormalizeANSI`
unfoldable pub normalize_ansi : Text → List Line
unfolding sanitize_ansi join_breaks split_lines last_drawing line_of drop_last_empty
normalize_ansi s =
    drop_last_empty
      (map (λ line. line_of (last_drawing line)) (split_lines (join_breaks (sanitize_ansi s))))

-- `Normalize`
unfoldable pub normalize : Text → List Text
unfolding normalize_ansi
normalize s = map (λ line. line.text) (normalize_ansi s)

-- `JoinText`
unfoldable pub join_text : List Line → Text
unfolding join_lines
join_text lines = join_lines (map (λ line. line.text) lines)

-- `JoinANSI`
unfoldable pub join_ansi : List Line → Text
unfolding join_lines
join_ansi lines = join_lines (map (λ line. line.ansi) lines)
