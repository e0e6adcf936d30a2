-- ===== src/Terminal/Kept.antt =====
-- internal/panel/normalize.go: the characters of what is written are characters of what was read.
use herdr_pal.Prelude.{
  ℕ, zero, suc, ◌+◌, List, [], ◌∷◌, ◌++◌, Bool, true, false, ◌&&◌, ◌||◌, not, Option, none, some,
  subst, inl, inr, arith, ◌==◌, nat_eq, leb, if◌then◌else◌, length, All, All-append, Bool-cases,
  Option-cases,
}
use herdr_pal.Prelude.Text.{Text}
use herdr_pal.Terminal.Sequences.{
  escape, line_feed, breaks_sequence, ends_sequence, read_sequence, after_control, from_line_feed,
  skip_control_string, skip_final, skip_escape_sequence, sanitize_escape, sanitize_step,
  sanitize_from, sanitize_ansi, style_end, sgr_sequence, safe_terminal_rune,
}
use herdr_pal.Terminal.Lines.{
  Token, style, visible, tokens_from, tokens, raw_text, is_blank, shows_any, trim_tokens,
  trim_ansi_right_whitespace, collapse_tokens, collapse_ansi_horizontal_rules, visible_text,
  strip_ansi,
}

module _ (P : ℕ → Type 0) where
  All-if : (b : Bool) (x y : Text) → All P x → All P y → All P (if b then x else y)
  All-if true x y a c = a
  All-if false x y a c = c

  All-read_sequence :
      (s : Text) → All P s → All P (read_sequence s).raw × All P (read_sequence s).rest
  unfolding read_sequence
  All-read_sequence [] a = (tt, tt)
  All-read_sequence (c ∷ s) a =
      let later = All-read_sequence s a.1 in
      elim (Bool-cases (breaks_sequence c)) [
        | inl b ↦ rw b (tt, a)
        | inr b ↦ elim (Bool-cases (ends_sequence c)) [
          | inl e ↦ rw (b, e) ((a.0, tt), a.1)
          | inr e ↦ rw (b, e) ((a.0, later.0), later.1)
        ]
      ]

  All-from_line_feed : (s : Text) → All P s → All P (from_line_feed s)
  unfolding from_line_feed
  All-from_line_feed [] a = tt
  All-from_line_feed (c ∷ s) a =
      All-if (c == line_feed) (c ∷ s) (from_line_feed s) a (All-from_line_feed s a.1)

  All-skip_final : (s : Text) → All P s → All P (skip_final s)
  unfolding skip_final
  All-skip_final [] a = tt
  All-skip_final (c ∷ s) a =
      All-if (not (breaks_sequence c) && (leb 0x30 c && leb c 0x7e)) s (c ∷ s) a.1 a

  All-skip_escape_sequence : (s : Text) → All P s → All P (skip_escape_sequence s)
  unfolding skip_escape_sequence
  All-skip_escape_sequence [] a = tt
  All-skip_escape_sequence (c ∷ s) a =
      All-if (leb 0x20 c && leb c 0x2f) (skip_escape_sequence s) (skip_final (c ∷ s))
        (All-skip_escape_sequence s a.1) (All-skip_final (c ∷ s) a)

  abbrev AllOf : Option Text → Type 0
  AllOf none = Unit
  AllOf (some s) = All P s

  AllOf-if : (b : Bool) (x y : Option Text) → AllOf x → AllOf y → AllOf (if b then x else y)
  AllOf-if true x y a c = a
  AllOf-if false x y a c = c

  All-after_control : (bell : Bool) (s : Text) → All P s → AllOf (after_control bell s)
  unfolding after_control
  All-after_control bell [] a = tt
  All-after_control bell (c ∷ []) a =
      AllOf-if ((bell && c == 0x07) || c == 0x9c) (some []) none tt tt
  All-after_control bell (c ∷ d ∷ s) a =
      AllOf-if (bell && c == 0x07) (some (d ∷ s))
        (if c == escape && d == b'\\'
          then some s
          else if c == 0x9c
          then some (d ∷ s)
          else after_control bell (d ∷ s))
        a.1
        (AllOf-if (c == escape && d == b'\\') (some s)
          (if c == 0x9c then some (d ∷ s) else after_control bell (d ∷ s)) a.1.1
          (AllOf-if (c == 0x9c) (some (d ∷ s)) (after_control bell (d ∷ s)) a.1
            (All-after_control bell (d ∷ s) a.1)))

  All-skip_control_string : (bell : Bool) (s : Text) → All P s → All P (skip_control_string bell s)
  unfolding skip_control_string
  All-skip_control_string bell s a = elim (Option-cases (after_control bell s)) [
    | inl n ↦ rw (n, skip_control_string) (All-from_line_feed s a)
    | inr (rest, n) ↦ rw (n, skip_control_string) (subst AllOf n (All-after_control bell s a))
  ]

  abbrev Both : Text × Text → Type 0
  Both p = All P p.0 × All P p.1

  Both-if : (b : Bool) (x y : Text × Text) → Both x → Both y → Both (if b then x else y)
  Both-if true x y a c = a
  Both-if false x y a c = c

  module _ (pe : P escape) (pb : P b'[') where
    All-sanitize_escape : (s : Text) → All P s → Both (sanitize_escape s)
    unfolding sanitize_escape
    All-sanitize_escape [] a = (tt, tt)
    All-sanitize_escape (c ∷ s) a =
        let q = All-read_sequence s a.1 in
        ground (
          arith,
          All-if (read_sequence s).styles (escape ∷ b'[' ∷ (read_sequence s).raw) [] (pe, (pb, q.0))
              tt,
          q,
          All-skip_control_string true s a.1,
          All-skip_control_string false s a.1,
          All-skip_escape_sequence (c ∷ s) a,
        )

    All-sanitize_step : (s : Text) → All P s → Both (sanitize_step s)
    unfolding sanitize_step
    All-sanitize_step [] a = (tt, tt)
    All-sanitize_step (c ∷ s) a =
        Both-if (c == escape) (sanitize_escape s) (if safe_terminal_rune c then c ∷ [] else [], s)
          (All-sanitize_escape s a.1) (All-if (safe_terminal_rune c) (c ∷ []) [] (a.0, tt) tt, a.1)

    All-sanitize_from : (fuel : ℕ) (s : Text) → All P s → All P (sanitize_from fuel s)
    unfolding sanitize_from
    All-sanitize_from zero s a = tt
    All-sanitize_from (suc fuel) s a =
        let step = All-sanitize_step s a in
        All-append P (sanitize_step s).0 (sanitize_from fuel (sanitize_step s).1) step.0
          (All-sanitize_from fuel (sanitize_step s).1 step.1)

  abbrev AllPair : Option (Text × Text) → Type 0
  AllPair none = Unit
  AllPair (some p) = Both p

  AllPair-if :
      (b : Bool) (x y : Option (Text × Text)) → AllPair x → AllPair y → AllPair (if b then x else y)
  AllPair-if true x y a c = a
  AllPair-if false x y a c = c

  abbrev with_first : ℕ → Option (Text × Text) → Option (Text × Text)
  with_first c none = none
  with_first c (some (raw, rest)) = some (c ∷ raw, rest)

  AllPair-with_first :
      (c : ℕ) (x : Option (Text × Text)) → P c → AllPair x → AllPair (with_first c x)
  AllPair-with_first c none p a = tt
  AllPair-with_first c (some (raw, rest)) p a = ((p, a.0), a.1)

  All-style_end : (s : Text) → All P s → AllPair (style_end s)
  unfolding style_end
  All-style_end [] a = tt
  All-style_end (c ∷ s) a =
      ground (arith, AllPair-with_first c (style_end s) a.0 (All-style_end s a.1), a)

  All-sgr_sequence : (s : Text) → All P s → AllPair (sgr_sequence s)
  unfolding sgr_sequence
  All-sgr_sequence [] a = tt
  All-sgr_sequence (c ∷ []) a = tt
  All-sgr_sequence (c ∷ d ∷ s) a = elim (Option-cases (style_end s)) [
    | inl n ↦ rw n (AllPair-if (not (c == escape && d == b'[')) none none tt tt)
    | inr ((raw, rest), n) ↦
        let found : Both (raw, rest) = subst AllPair n (All-style_end s a.1.1) in
        rw n (
          AllPair-if (not (c == escape && d == b'[')) none (some (c ∷ d ∷ raw, rest)) tt
            ((a.0, (a.1.0, found.0)), found.1))
  ]

  All-tokens_from :
      (fuel : ℕ) (s : Text) → All P s → All (λ t. All P (raw_text t)) (tokens_from fuel s)
  unfolding tokens_from
  All-tokens_from zero s a = tt
  All-tokens_from (suc fuel) [] a = tt
  All-tokens_from (suc fuel) (c ∷ s) a = elim (Option-cases (sgr_sequence (c ∷ s))) [
    | inl n ↦ rw (n, tokens_from) ((a.0, tt), All-tokens_from fuel s a.1)
    | inr ((raw, rest), n) ↦
        let found : Both (raw, rest) = subst AllPair n (All-sgr_sequence (c ∷ s) a) in
        rw (n, tokens_from) (found.0, All-tokens_from fuel rest found.1)
  ]

  All-trim_tokens : (ts : List Token) → All (λ t. All P (raw_text t)) ts → All P (trim_tokens ts)
  unfolding trim_tokens
  All-trim_tokens [] a = tt
  All-trim_tokens (t ∷ ts) a =
      let later = All-trim_tokens ts a.1 in
      All-if (is_blank t && not (shows_any ts)) (trim_tokens ts) (raw_text t ++ trim_tokens ts)
        later (All-append P (raw_text t) (trim_tokens ts) a.0 later)

  All-collapse_tokens :
      (run : ℕ) (ts : List Token)
      → All (λ t. All P (raw_text t)) ts
      → All P (collapse_tokens run ts)
  unfolding collapse_tokens
  All-collapse_tokens run [] a = tt
  All-collapse_tokens run (style raw ∷ ts) a =
      All-append P raw (collapse_tokens run ts) a.0 (All-collapse_tokens run ts a.1)
  All-collapse_tokens run (visible c ∷ ts) a =
      ground (arith, a.0.0, All-collapse_tokens (run + 1) ts a.1, All-collapse_tokens 0 ts a.1)

  All-visible_text : (ts : List Token) → All (λ t. All P (raw_text t)) ts → All P (visible_text ts)
  unfolding visible_text
  All-visible_text [] a = tt
  All-visible_text (style raw ∷ ts) a = All-visible_text ts a.1
  All-visible_text (visible c ∷ ts) a = (a.0.0, All-visible_text ts a.1)

  module _ (pe : P escape) (pb : P b'[') where
    pub All-trim_ansi_right_whitespace : (s : Text) → All P s → All P (trim_ansi_right_whitespace s)
    unfolding trim_ansi_right_whitespace tokens
    All-trim_ansi_right_whitespace s a =
        All-if (shows_any (tokens s)) (trim_tokens (tokens s)) []
          (All-trim_tokens (tokens s) (All-tokens_from (length s) s a)) tt

    pub All-collapse_ansi_horizontal_rules :
        (s : Text) → All P s → All P (collapse_ansi_horizontal_rules s)
    unfolding collapse_ansi_horizontal_rules tokens
    All-collapse_ansi_horizontal_rules s a =
        All-collapse_tokens 0 (tokens s) (All-tokens_from (length s) s a)

    pub All-strip_ansi : (s : Text) → All P s → All P (strip_ansi s)
    unfolding strip_ansi tokens sanitize_ansi
    All-strip_ansi s a =
        let clean = sanitize_ansi s in
        All-visible_text (tokens clean)
          (All-tokens_from (length clean) clean (All-sanitize_from pe pb (length s) s a))
