-- ===== src/Terminal/Width.antt =====
-- internal/panel/normalize.go: lines as long as the terminal is wide. The width of a character comes
-- from go-runewidth and is an argument, 0 where that is negative.
use herdr_pal.Prelude.{
  ℕ, ◌+◌, ◌-◌, ◌%◌, List, [], ◌∷◌, ◌++◌, map, Bool, true, false, ◌&&◌, ◌||◌, not, ◌==◌, nat_eq, ltb,
  leb, if◌then◌else◌,
}
use herdr_pal.Prelude.Text.{Text, text_eq}
use herdr_pal.Panel.Buffer.{Line}
use herdr_pal.Terminal.Lines.{
  Token, style, visible, tokens, line_of, drop_last_empty, normalize_ansi,
}

module _ (rune_width : ℕ → ℕ) (columns : ℕ) where
  -- The width of a character at a column.
  abbrev pub width_at : ℕ → ℕ → ℕ
  width_at column c = if c == 0x09 then 8 - column % 8 else rune_width c

  -- Whether a character of a width starts a new segment.
  abbrev pub flushes : Bool → ℕ → ℕ → Bool
  flushes pending column width =
      ltb 0 width && (pending || (ltb 0 column && ltb columns (column + width)))

  -- The loop of `splitANSIWidth`: whether no segment was written, the segment and its column.
  unfoldable pub segments_from : Bool → Text → ℕ → Bool → List Token → List Text
  segments_from first current column pending [] =
      if not (current == []) || first then current ∷ [] else []
  segments_from first current column pending (style raw ∷ ts) =
      segments_from first (current ++ raw) column pending ts
  segments_from first current column pending (visible c ∷ ts) =
      let width = width_at column c in
      let flush = flushes pending column width in
      let start = if flush then 0 else column in
      let rest =
        segments_from (if flush then false else first) ((if flush then [] else current) ++ (c ∷ []))
          (start + width) (leb columns (start + width)) ts in
      if flush then current ∷ rest else rest

  -- `splitANSIWidth`
  unfoldable pub split_ansi_width : Text → List Text
  unfolding tokens segments_from
  split_ansi_width s =
      if columns == 0 || s == [] then s ∷ [] else segments_from true [] 0 false (tokens s)

  -- The segments of the lines, each trimmed.
  unfoldable pub wrapped_lines : List Line → List Line
  unfolding split_ansi_width line_of
  wrapped_lines [] = []
  wrapped_lines (line ∷ lines) = map line_of (split_ansi_width line.ansi) ++ wrapped_lines lines

  -- `NormalizeANSIWidth`
  unfoldable pub normalize_ansi_width : Text → List Line
  unfolding normalize_ansi wrapped_lines drop_last_empty
  normalize_ansi_width s =
      if columns == 0 then normalize_ansi s else drop_last_empty (wrapped_lines (normalize_ansi s))
