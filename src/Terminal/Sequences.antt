-- ===== src/Terminal/Sequences.antt =====
-- internal/panel/normalize.go: control sequences, and the loop that removes them. A function gives
-- the text that is left where the code gives its index.
use herdr_pal.Prelude.{
  ℕ, zero, suc, [], ◌∷◌, ◌++◌, Bool, true, false, ◌&&◌, ◌||◌, not, Option, none, some, ◌==◌, nat_eq,
  leb, if◌then◌else◌, length,
}
use herdr_pal.Prelude.Text.{Text}

abbrev pub escape : ℕ
escape = 0x1b

abbrev pub line_feed : ℕ
line_feed = 0x0a

abbrev pub carriage_return : ℕ
carriage_return = 0x0d

-- `safeTerminalRune`
unfoldable pub safe_terminal_rune : ℕ → Bool
safe_terminal_rune c =
    c == line_feed
    || (c == carriage_return || (c == 0x09 || (leb 0x20 c && not (leb 0x7f c && leb c 0x9f))))

abbrev pub ends_sequence : ℕ → Bool
ends_sequence c = leb 0x40 c && leb c 0x7e

abbrev pub breaks_sequence : ℕ → Bool
breaks_sequence c = c == line_feed || c == carriage_return

-- A sequence after `ESC [`: its characters, what follows, and whether it ends with `m`.
pub record Sequence : Type 0 where
  pub raw : Text
  pub rest : Text
  pub styles : Bool

abbrev pub prepend : ℕ → Sequence → Sequence
prepend c q = record { raw = c ∷ q.raw; rest = q.rest; styles = q.styles }

unfoldable pub read_sequence : Text → Sequence
read_sequence [] = record { raw = []; rest = []; styles = false }
read_sequence (c ∷ s) =
    let later = read_sequence s in
    if breaks_sequence c
    then record { raw = []; rest = c ∷ s; styles = false }
    else if ends_sequence c
    then record { raw = c ∷ []; rest = s; styles = c == b'm' }
    else prepend c later

-- The text after the end of a control string.
unfoldable pub after_control : Bool → Text → Option Text
after_control bell [] = none
after_control bell (c ∷ []) = if (bell && c == 0x07) || c == 0x9c then some [] else none
after_control bell (c ∷ d ∷ s) =
    let later = after_control bell (d ∷ s) in
    if bell && c == 0x07
    then some (d ∷ s)
    else if c == escape && d == b'\\'
    then some s
    else if c == 0x9c
    then some (d ∷ s)
    else later

unfoldable pub from_line_feed : Text → Text
from_line_feed [] = []
from_line_feed (c ∷ s) = let later = from_line_feed s in if c == line_feed then c ∷ s else later

-- `skipControlString`
unfoldable pub skip_control_string : Bool → Text → Text
unfolding after_control from_line_feed
skip_control_string bell s = elim (after_control bell s) [
  | none ↦ from_line_feed s
  | some rest ↦ rest
]

-- The end of `skipEscapeSequence`.
unfoldable pub skip_final : Text → Text
skip_final [] = []
skip_final (c ∷ s) = if not (breaks_sequence c) && (leb 0x30 c && leb c 0x7e) then s else c ∷ s

-- `skipEscapeSequence`
unfoldable pub skip_escape_sequence : Text → Text
unfolding skip_final
skip_escape_sequence [] = []
skip_escape_sequence (c ∷ s) =
    let later = skip_escape_sequence s in
    if leb 0x20 c && leb c 0x2f then later else skip_final (c ∷ s)

abbrev pub style_or_nothing : Sequence → Text × Text
style_or_nothing q = (if q.styles then escape ∷ b'[' ∷ q.raw else [], q.rest)

-- What a sequence writes, from the text after the escape, and what is left.
unfoldable pub sanitize_escape : Text → Text × Text
unfolding read_sequence skip_control_string skip_escape_sequence
sanitize_escape [] = ([], [])
sanitize_escape (c ∷ s) =
    if c == b'['
    then style_or_nothing (read_sequence s)
    else if c == b']'
    then ([], skip_control_string true s)
    else if c == b'P' || c == b'_' || c == b'^' || c == b'X'
    then ([], skip_control_string false s)
    else ([], skip_escape_sequence (c ∷ s))

-- One round of the loop of `sanitizeANSI`.
unfoldable pub sanitize_step : Text → Text × Text
unfolding safe_terminal_rune sanitize_escape
sanitize_step [] = ([], [])
sanitize_step (c ∷ s) =
    if c == escape then sanitize_escape s else (if safe_terminal_rune c then c ∷ [] else [], s)

-- The loop, whose every round takes a character at least.
unfoldable pub sanitize_from : ℕ → Text → Text
unfolding sanitize_step
sanitize_from zero s = []
sanitize_from (suc fuel) s = (sanitize_step s).0 ++ sanitize_from fuel (sanitize_step s).1

-- `sanitizeANSI`
unfoldable pub sanitize_ansi : Text → Text
unfolding sanitize_from
sanitize_ansi s = sanitize_from (length s) s

-- `sgrSequenceEnd`, after `ESC [`.
unfoldable pub style_end : Text → Option (Text × Text)
style_end [] = none
style_end (c ∷ s) =
    let later = style_end s in
    if not (ends_sequence c)
    then if breaks_sequence c
      then none
      else elim later [ none ↦ none | some (raw, rest) ↦ some (c ∷ raw, rest) ]
    else if c == b'm'
    then some (c ∷ [], s)
    else none

-- `sgrSequenceEnd`: the sequence and what follows.
unfoldable pub sgr_sequence : Text → Option (Text × Text)
unfolding style_end
sgr_sequence [] = none
sgr_sequence (c ∷ []) = none
sgr_sequence (c ∷ d ∷ s) =
    if not (c == escape && d == b'[')
    then none
    else elim (style_end s) [ none ↦ none | some (raw, rest) ↦ some (c ∷ d ∷ raw, rest) ]
