-- ===== src/Terminal/Printable.antt =====
-- internal/panel/normalize.go: the text of a line prints.
use herdr_pal.Prelude.{
  ℕ, zero, suc, [], ◌∷◌, ◌++◌, true, ◌||◌, none, some, ◌≡◌, refl, sym, subst, inl, inr, arith, ◌==◌,
  nat_eq, length, All, Bool-cases, ◌≢◌, ==_cases,
}
use herdr_pal.Prelude.Text.{Text}
use herdr_pal.Terminal.Sequences.{
  escape, style_or_nothing, read_sequence, sanitize_escape, sanitize_step, sanitize_from,
  sanitize_ansi, style_end, sgr_sequence, safe_terminal_rune,
}
use herdr_pal.Terminal.Lines.{tokens_from, tokens, visible_text, strip_ansi}

abbrev pub IsSafe : ℕ → Type 0
IsSafe c = safe_terminal_rune c ≡ true

-- A sequence that sets a style is read back whatever follows it.
style_end-read_sequence :
    (s rest : Text)
    → (read_sequence s).styles ≡ true
    → style_end ((read_sequence s).raw ++ rest) ≡ some ((read_sequence s).raw, rest)
unfolding read_sequence style_end
style_end-read_sequence [] rest h = ground (arith, h)
style_end-read_sequence (c ∷ s) rest h = ground (arith, h, style_end-read_sequence s rest)

-- What a round writes: nothing, a safe character, or a sequence that sets a style.
data Written : Text → Type 0 where
  nothing : Written []
  character : (c : ℕ) → c ≢ escape → IsSafe c → Written (c ∷ [])
  sequence :
      (raw : Text)
      → ((rest : Text) → style_end (raw ++ rest) ≡ some (raw, rest))
      → Written (escape ∷ b'[' ∷ raw)

styles-Written : (s : Text) → Written (style_or_nothing (read_sequence s)).0
styles-Written s = elim (Bool-cases (read_sequence s).styles) [
  | inl t ↦ rw t (sequence (read_sequence s).raw (λ rest. style_end-read_sequence s rest t))
  | inr t ↦ rw t nothing
]

sanitize_escape-Written : (s : Text) → Written (sanitize_escape s).0
unfolding sanitize_escape
sanitize_escape-Written [] = nothing
sanitize_escape-Written (c ∷ s) = elim (Bool-cases (c == b'[')) [
  | inl t ↦ rw t (styles-Written s)
  | inr t ↦ elim (Bool-cases (c == b']')) [
    | inl u ↦ rw (t, u) nothing
    | inr u ↦ elim (Bool-cases (c == b'P' || c == b'_' || c == b'^' || c == b'X')) [
      | inl v ↦ rw (t, u, v) nothing
      | inr v ↦ rw (t, u, v) nothing
    ]
  ]
]

sanitize_step-Written : (s : Text) → Written (sanitize_step s).0
unfolding sanitize_step
sanitize_step-Written [] = nothing
sanitize_step-Written (c ∷ s) = elim (==_cases c escape) [
  | inl (q, b) ↦ rw b (sanitize_escape-Written s)
  | inr (q, b) ↦ elim (Bool-cases (safe_terminal_rune c)) [
    | inl h ↦ rw (b, h) (character c q h)
    | inr h ↦ rw (b, h) nothing
  ]
]

sgr_sequence-none : (c : ℕ) (s : Text) → c ≢ escape → sgr_sequence (c ∷ s) ≡ none
unfolding sgr_sequence
sgr_sequence-none c [] n = refl
sgr_sequence-none c (d ∷ s) n = ground (arith, n)

sgr_sequence-some :
    (s raw rest : Text)
    → style_end s ≡ some (raw, rest)
    → sgr_sequence (escape ∷ b'[' ∷ s) ≡ some (escape ∷ b'[' ∷ raw, rest)
unfolding sgr_sequence
sgr_sequence-some s raw rest e = ground (arith, e)

tokens-visible :
    (fuel c : ℕ) (s : Text)
    → sgr_sequence (c ∷ s) ≡ none
    → visible_text (tokens_from (suc fuel) (c ∷ s)) ≡ c ∷ visible_text (tokens_from fuel s)
unfolding tokens_from visible_text
tokens-visible fuel c s n = rw (n, tokens_from) refl

tokens-style :
    (fuel c : ℕ) (s raw rest : Text)
    → sgr_sequence (c ∷ s) ≡ some (raw, rest)
    → visible_text (tokens_from (suc fuel) (c ∷ s)) ≡ visible_text (tokens_from fuel rest)
unfolding tokens_from visible_text
tokens-style fuel c s raw rest n = rw (n, tokens_from) refl

visible-Written :
    (fuel : ℕ) (out rest : Text)
    → Written out
    → ((k : ℕ) → All IsSafe (visible_text (tokens_from k rest)))
    → All IsSafe (visible_text (tokens_from fuel (out ++ rest)))
unfolding tokens_from visible_text sgr_sequence
visible-Written fuel out rest nothing h = h fuel
visible-Written zero out rest (character c n s) h = tt
visible-Written (suc fuel) out rest (character c n s) h =
    subst (All IsSafe) (sym (tokens-visible fuel c rest (sgr_sequence-none c rest n))) (s, h fuel)
visible-Written zero out rest (sequence raw e) h = tt
visible-Written (suc fuel) out rest (sequence raw e) h =
    subst (All IsSafe)
      (sym (
        tokens-style fuel escape (b'[' ∷ (raw ++ rest)) (escape ∷ b'[' ∷ raw) rest
          (sgr_sequence-some (raw ++ rest) raw rest (e rest))))
      (h fuel)

visible-sanitize_from :
    (fuel k : ℕ) (s : Text) → All IsSafe (visible_text (tokens_from k (sanitize_from fuel s)))
unfolding sanitize_from tokens_from visible_text
visible-sanitize_from zero zero s = tt
visible-sanitize_from zero (suc k) s = tt
visible-sanitize_from (suc fuel) k s =
    visible-Written k (sanitize_step s).0 (sanitize_from fuel (sanitize_step s).1)
      (sanitize_step-Written s) (λ j. visible-sanitize_from fuel j (sanitize_step s).1)

pub strip_ansi-All : (s : Text) → All IsSafe (strip_ansi s)
unfolding strip_ansi tokens sanitize_ansi
strip_ansi-All s = visible-sanitize_from (length s) (length (sanitize_ansi s)) s
