-- ===== src/Terminal/Examples.antt =====
-- internal/panel/normalize.go at concrete inputs.
use herdr_pal.Prelude.{[], ◌∷◌, ◌++◌, ◌≡◌, refl, ℕ_discrete, All}
use herdr_pal.Prelude.Text.{Text, Text-discrete, codes}
use herdr_pal.Terminal.Sequences.{escape, line_feed, carriage_return, sanitize_ansi}
use herdr_pal.Terminal.Lines.{normalize}
use herdr_pal.Terminal.Normalized.{Prints, normalize-Prints}
use herdr_pal.Terminal.Width.{split_ansi_width}
use herdr_pal.Terminal.Enough.{joined_segments, joined-split_ansi_width}

abbrev style_red : Text
style_red = escape ∷ codes "[31m"

-- A title, a drawing that is drawn again, a style and an empty line.
abbrev snapshot : Text
snapshot =
    (escape ∷ codes "]0;t")
    ++ ((0x07 ∷ codes "ab")
        ++ ((carriage_return ∷ style_red)
            ++ (codes "cd  " ++ (line_feed ∷ codes "  " ++ (line_feed ∷ [])))))

snapshot_lines : normalize snapshot ≡ codes "cd" ∷ []
unfolding normalize ℕ_discrete Text-discrete
snapshot_lines = refl

-- A control inside a sequence that sets a style stays.
kept_controls :
    sanitize_ansi (escape ∷ b'[' ∷ escape ∷ codes "7m") ≡ escape ∷ b'[' ∷ escape ∷ codes "7m"
unfolding sanitize_ansi ℕ_discrete
kept_controls = refl

normalize-Prints_example : All Prints (normalize snapshot)
normalize-Prints_example = normalize-Prints snapshot

split_sample :
    split_ansi_width (λ c. 1) 2 (style_red ++ codes "abc")
    ≡ (style_red ++ codes "ab") ∷ codes "c" ∷ []
unfolding split_ansi_width ℕ_discrete Text-discrete
split_sample = refl

joined-split_ansi_width_example :
    joined_segments (split_ansi_width (λ c. 1) 2 (style_red ++ codes "abc"))
    ≡ style_red ++ codes "abc"
joined-split_ansi_width_example = joined-split_ansi_width (λ c. 1) 2 (style_red ++ codes "abc")
