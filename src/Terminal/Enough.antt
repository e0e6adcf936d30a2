-- ===== src/Terminal/Enough.antt =====
-- internal/panel/normalize.go: the loops read the whole text.
use herdr_pal.Prelude.{
  ℕ, zero, suc, ◌+◌, ◌≤◌, List, [], ◌∷◌, ◌++◌, Bool, true, false, ◌||◌, some, ◌≡◌, refl, sym, ap,
  ◌∙◌, inl, inr, arith, ◌==◌, nat_eq, leb, length, length-append, ==_cases, Bool-cases,
  Option-cases,
}
use herdr_pal.Prelude.Text.{Text, text_eq}
use herdr_pal.Terminal.Sequences.{
  read_sequence, after_control, from_line_feed, skip_control_string, skip_final,
  skip_escape_sequence, sanitize_escape, sanitize_step, sanitize_from, style_end, sgr_sequence,
}
use herdr_pal.Terminal.Lines.{Token, style, visible, tokens_from, tokens, raw_text}
use herdr_pal.Terminal.Width.{segments_from, split_ansi_width, width_at, flushes}

style_end-append : (s raw rest : Text) → style_end s ≡ some (raw, rest) → s ≡ raw ++ rest
unfolding style_end
style_end-append [] raw rest e = ground (arith, e)
style_end-append (c ∷ s) raw rest e = elim (Option-cases (style_end s)) [
  | inl n ↦ ground (arith, n, e)
  | inr ((r, t), n) ↦ ground (arith, n, e, style_end-append s r t n)
]

sgr_sequence-append :
    (s raw rest : Text) → sgr_sequence s ≡ some (raw, rest) → (s ≡ raw ++ rest) × (2 ≤ length raw)
unfolding sgr_sequence
sgr_sequence-append [] raw rest e = absurd (ground (arith, e))
sgr_sequence-append (c ∷ []) raw rest e = absurd (ground (arith, e))
sgr_sequence-append (c ∷ d ∷ s) raw rest e = elim (Option-cases (style_end s)) [
  | inl n ↦ absurd (ground (arith, n, e))
  | inr ((r, t), n) ↦ ground (arith, n, e, style_end-append s r t n)
]

unfoldable raw_texts : List Token → Text
raw_texts [] = []
raw_texts (t ∷ ts) = raw_text t ++ raw_texts ts

raw_texts-tokens_from : (fuel : ℕ) (s : Text) → length s ≤ fuel → raw_texts (tokens_from fuel s) ≡ s
unfolding tokens_from raw_texts
raw_texts-tokens_from zero [] l = refl
raw_texts-tokens_from zero (c ∷ s) l = absurd (omega arith)
raw_texts-tokens_from (suc fuel) [] l = refl
raw_texts-tokens_from (suc fuel) (c ∷ s) l = elim (Option-cases (sgr_sequence (c ∷ s))) [
  | inl n ↦ rw (n, tokens_from) (ap (λ t. c ∷ t) (raw_texts-tokens_from fuel s (omega arith)))
  | inr ((raw, rest), n) ↦
      let (q, two) = sgr_sequence-append (c ∷ s) raw rest n in
      let size : length (c ∷ s) ≡ length raw + length rest = ap length q ∙ length-append raw rest in
      rw (n, tokens_from)
        (ap (λ t. raw ++ t) (raw_texts-tokens_from fuel rest (omega (arith, size, two, l))) ∙ sym q)
]

-- The text of the segments.
unfoldable pub joined_segments : List Text → Text
joined_segments [] = []
joined_segments (s ∷ rest) = s ++ joined_segments rest

append_assoc : (x y z : Text) → x ++ (y ++ z) ≡ (x ++ y) ++ z
append_assoc [] y z = refl
append_assoc (c ∷ x) y z = ap (λ s. c ∷ s) (append_assoc x y z)

append_nil : (x : Text) → x ++ [] ≡ x
append_nil [] = refl
append_nil (c ∷ x) = ap (λ s. c ∷ s) (append_nil x)

module _ (rune_width : ℕ → ℕ) (columns : ℕ) where
  joined-segments_from :
      (first : Bool) (current : Text) (column : ℕ) (pending : Bool) (ts : List Token)
      → joined_segments (segments_from rune_width columns first current column pending ts)
        ≡ current ++ raw_texts ts
  unfolding segments_from joined_segments raw_texts
  joined-segments_from first current column pending [] = elim (==_cases current []) [
    | inl (q, b) ↦ elim (Bool-cases first) [
      | inl f ↦ rw (b, f) refl
      | inr f ↦ rw (b, f) (sym (ap (λ t. t ++ []) q))
    ]
    | inr (q, b) ↦ rw b refl
  ]
  joined-segments_from first current column pending (style raw ∷ ts) =
      joined-segments_from first (current ++ raw) column pending ts
      ∙ sym (append_assoc current raw (raw_texts ts))
  joined-segments_from first current column pending (visible c ∷ ts) =
      let width = width_at rune_width columns column c in
      elim (Bool-cases (flushes rune_width columns pending column width)) [
        | inl f ↦ rw f (
            ap (λ t. current ++ t)
              (joined-segments_from false (c ∷ []) (0 + width) (leb columns (0 + width)) ts))
        | inr f ↦ rw f (
            joined-segments_from first (current ++ (c ∷ [])) (column + width)
              (leb columns (column + width)) ts
            ∙ sym (append_assoc current (c ∷ []) (raw_texts ts)))
      ]

  -- The segments that a line is split into join to the line, whatever the columns and the widths of
  -- characters.
  pub joined-split_ansi_width :
      (s : Text) → joined_segments (split_ansi_width rune_width columns s) ≡ s
  unfolding split_ansi_width joined_segments tokens
  joined-split_ansi_width s = elim (Bool-cases (columns == 0 || s == [])) [
    | inl b ↦ rw b (append_nil s)
    | inr b ↦ rw b (
        joined-segments_from true [] 0 false (tokens s)
        ∙ raw_texts-tokens_from (length s) s (omega arith))
  ]

skip_final-le : (s : Text) → length (skip_final s) ≤ length s
unfolding skip_final
skip_final-le [] = omega arith
skip_final-le (c ∷ s) = ground arith

skip_escape_sequence-le : (s : Text) → length (skip_escape_sequence s) ≤ length s
unfolding skip_escape_sequence
skip_escape_sequence-le [] = omega arith
skip_escape_sequence-le (c ∷ s) = ground (arith, skip_escape_sequence-le s, skip_final-le (c ∷ s))

from_line_feed-le : (s : Text) → length (from_line_feed s) ≤ length s
unfolding from_line_feed
from_line_feed-le [] = omega arith
from_line_feed-le (c ∷ s) = ground (arith, from_line_feed-le s)

after_control-le :
    (bell : Bool) (s rest : Text) → after_control bell s ≡ some rest → length rest ≤ length s
unfolding after_control
after_control-le bell [] rest e = ground (arith, e)
after_control-le bell (c ∷ []) rest e = ground (arith, e)
after_control-le bell (c ∷ d ∷ s) rest e = ground (arith, e, after_control-le bell (d ∷ s) rest)

skip_control_string-le : (bell : Bool) (s : Text) → length (skip_control_string bell s) ≤ length s
unfolding skip_control_string
skip_control_string-le bell s = elim (Option-cases (after_control bell s)) [
  | inl n ↦ rw (n, skip_control_string) (from_line_feed-le s)
  | inr (rest, n) ↦ rw (n, skip_control_string) (after_control-le bell s rest n)
]

read_sequence-le : (s : Text) → length (read_sequence s).rest ≤ length s
unfolding read_sequence
read_sequence-le [] = omega arith
read_sequence-le (c ∷ s) = ground (arith, read_sequence-le s)

sanitize_escape-le : (s : Text) → length (sanitize_escape s).1 ≤ length s
unfolding sanitize_escape
sanitize_escape-le [] = omega arith
sanitize_escape-le (c ∷ s) = ground (
  arith,
  read_sequence-le s,
  skip_control_string-le true s,
  skip_control_string-le false s,
  skip_escape_sequence-le (c ∷ s),
)

sanitize_step-le : (c : ℕ) (s : Text) → length (sanitize_step (c ∷ s)).1 ≤ length s
unfolding sanitize_step
sanitize_step-le c s = ground (arith, sanitize_escape-le s)

-- More rounds than characters change nothing.
sanitize_from-enough :
    (fuel : ℕ) (s : Text) → length s ≤ fuel → sanitize_from (suc fuel) s ≡ sanitize_from fuel s
unfolding sanitize_from sanitize_step
sanitize_from-enough zero [] l = refl
sanitize_from-enough zero (c ∷ s) l = absurd (omega arith)
sanitize_from-enough (suc fuel) [] l = sanitize_from-enough fuel [] (omega arith)
sanitize_from-enough (suc fuel) (c ∷ s) l =
    ap (λ t. (sanitize_step (c ∷ s)).0 ++ t)
      (sanitize_from-enough fuel (sanitize_step (c ∷ s)).1 (omega (arith, l, sanitize_step-le c s)))
