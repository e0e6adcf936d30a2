-- ===== src/Terminal/Normalized.antt =====
-- internal/panel/normalize.go: the lines that Normalize gives.
use herdr_pal.Prelude.{
  ℕ, List, [], ◌∷◌, map, Bool, true, ◌&&◌, ◌||◌, not, none, some, ◌≡◌, subst, ap, ◌∙◌, inl, inr,
  arith, ◌==◌, nat_eq, leb, All, All-append, Bool-cases, Option-cases, ◌≢◌, ==_cases,
}
use herdr_pal.Prelude.Text.{Text, text_eq, codes}
use herdr_pal.Panel.Buffer.{Line}
use herdr_pal.Terminal.Sequences.{
  escape, line_feed, carriage_return, sanitize_ansi, safe_terminal_rune,
}
use herdr_pal.Terminal.Lines.{
  join_breaks, split_lines, add_to_first, after_return, last_drawing, line_of, keep_line,
  drop_last_empty, normalize_ansi, normalize, trim_ansi_right_whitespace,
  collapse_ansi_horizontal_rules,
}
use herdr_pal.Terminal.Kept.{
  All-trim_ansi_right_whitespace, All-collapse_ansi_horizontal_rules, All-strip_ansi,
}
use herdr_pal.Terminal.Printable.{IsSafe, strip_ansi-All}

-- A tab, or a character that is no control.
unfoldable pub prints : ℕ → Bool
prints c = c == 0x09 || (leb 0x20 c && not (leb 0x7f c && leb c 0x9f))

abbrev pub Prints : Text → Type 0
Prints s = All (λ c. prints c ≡ true) s

abbrev Lacks : ℕ → Text → Type 0
Lacks x s = All (λ c. c ≢ x) s

All-add_to_first :
    (x c : ℕ) (lines : List Text)
    → c ≢ x
    → All (Lacks x) lines
    → All (Lacks x) (add_to_first c lines)
All-add_to_first x c [] n a = ((n, tt), tt)
All-add_to_first x c (line ∷ lines) n a = ((n, a.0), a.1)

split_lines-All : (s : Text) → All (Lacks line_feed) (split_lines s)
unfolding split_lines
split_lines-All [] = (tt, tt)
split_lines-All (c ∷ s) =
    let later = split_lines-All s in
    elim (==_cases c line_feed) [
      | inl (q, b) ↦ rw b (tt, later)
      | inr (q, b) ↦ rw b (All-add_to_first line_feed c (split_lines s) q later)
    ]

after_return-none : (s : Text) → after_return s ≡ none → Lacks carriage_return s
unfolding after_return
after_return-none [] n = tt
after_return-none (c ∷ s) n = elim (Option-cases (after_return s)) [
  | inl m ↦ (λ e. ground (arith, m, n, e), after_return-none s m)
  | inr (rest, m) ↦ absurd (ground (arith, m, n))
]

after_return-some :
    (x : ℕ) (s rest : Text)
    → after_return s ≡ some rest
    → Lacks carriage_return rest × (Lacks x s → Lacks x rest)
unfolding after_return
after_return-some x [] rest n = absurd (ground (arith, n))
after_return-some x (c ∷ s) rest n = elim (Option-cases (after_return s)) [
  | inl m ↦
      let same : s ≡ rest = ground (arith, m, n) in
      subst (λ r. Lacks carriage_return r × (Lacks x (c ∷ s) → Lacks x r)) same
        (after_return-none s m, λ a. a.1)
  | inr (r, m) ↦
      let same : r ≡ rest = ground (arith, m, n) in
      let found = after_return-some x s rest (m ∙ ap (λ t. some t) same) in
      (found.0, λ a. found.1 a.1)
]

start-Lacks : Lacks carriage_return (escape ∷ codes "[0m") × Lacks line_feed (escape ∷ codes "[0m")
start-Lacks = ground arith

last_drawing-Lacks :
    (s : Text)
    → Lacks line_feed s
    → Lacks line_feed (last_drawing s) × Lacks carriage_return (last_drawing s)
unfolding last_drawing
last_drawing-Lacks s a = elim (Option-cases (after_return s)) [
  | inl n ↦ rw (n, last_drawing) (a, after_return-none s n)
  | inr (rest, n) ↦
      let found = after_return-some line_feed s rest n in
      rw (n, last_drawing)
        (
          All-append (λ c. c ≢ line_feed) (escape ∷ codes "[0m") rest start-Lacks.1 (found.1 a),
          All-append (λ c. c ≢ carriage_return) (escape ∷ codes "[0m") rest start-Lacks.0 found.0,
        )
]

All-Prints : (s : Text) → All IsSafe s → Lacks line_feed s → Lacks carriage_return s → Prints s
unfolding safe_terminal_rune prints
All-Prints [] a b c = tt
All-Prints (x ∷ s) a b c = (ground (arith, a.0, b.0, c.0), All-Prints s a.1 b.1 c.1)

line_text-Lacks : (x : ℕ) (s : Text) → escape ≢ x → b'[' ≢ x → Lacks x s → Lacks x (line_of s).text
unfolding line_of
line_text-Lacks x s e b a =
    let P : ℕ → Type 0 = λ c. c ≢ x in
    let ansi = trim_ansi_right_whitespace s in
    All-strip_ansi P e b (collapse_ansi_horizontal_rules ansi)
      (All-collapse_ansi_horizontal_rules P e b ansi (All-trim_ansi_right_whitespace P e b s a))

line_text-IsSafe : (s : Text) → All IsSafe (line_of s).text
unfolding line_of
line_text-IsSafe s = strip_ansi-All (collapse_ansi_horizontal_rules (trim_ansi_right_whitespace s))

line_of-Prints : (s : Text) → Lacks line_feed s → Prints (line_of (last_drawing s)).text
line_of-Prints s a =
    let drawn = last_drawing-Lacks s a in
    let last = last_drawing s in
    All-Prints (line_of last).text (line_text-IsSafe last)
      (line_text-Lacks line_feed last (ground arith) (ground arith) drawn.0)
      (line_text-Lacks carriage_return last (ground arith) (ground arith) drawn.1)

lines-Prints :
    (lines : List Text)
    → All (Lacks line_feed) lines
    → All (λ line. Prints line.text) (map (λ line. line_of (last_drawing line)) lines)
lines-Prints [] a = tt
lines-Prints (line ∷ lines) a = (line_of-Prints line a.0, lines-Prints lines a.1)

keep_line-All :
    (P : Line → Type 0) (line : Line) (lines : List Line)
    → P line
    → All P lines
    → All P (keep_line line lines)
keep_line-All P line [] p a = elim (Bool-cases (line.text == [])) [
  | inl t ↦ rw t tt
  | inr t ↦ rw t (p, tt)
]
keep_line-All P line (next ∷ lines) p a = (p, a)

drop_last_empty-All :
    (P : Line → Type 0) (lines : List Line) → All P lines → All P (drop_last_empty lines)
unfolding drop_last_empty
drop_last_empty-All P [] a = tt
drop_last_empty-All P (line ∷ lines) a =
    keep_line-All P line (drop_last_empty lines) a.0 (drop_last_empty-All P lines a.1)

texts-Prints :
    (lines : List Line)
    → All (λ line. Prints line.text) lines
    → All Prints (map (λ line. line.text) lines)
texts-Prints [] a = tt
texts-Prints (line ∷ lines) a = (a.0, texts-Prints lines a.1)

-- Whatever the snapshot, each line that `Normalize` gives has only tabs and characters that are no
-- controls: no escape, no line feed and no carriage return.
pub normalize-Prints : (s : Text) → All Prints (normalize s)
unfolding normalize normalize_ansi
normalize-Prints s =
    let physical = split_lines (join_breaks (sanitize_ansi s)) in
    let lines = map (λ line. line_of (last_drawing line)) physical in
    texts-Prints (drop_last_empty lines) (
      drop_last_empty-All (λ line. Prints line.text) lines
        (lines-Prints physical (split_lines-All (join_breaks (sanitize_ansi s)))))
