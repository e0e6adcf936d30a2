-- ===== src/Split/Examples.antt =====
-- internal/panel/split.go at concrete inputs.
use herdr_pal.Prelude.{List, [], ◌∷◌, ◌++◌, some, ◌≡◌, refl, ◌≢◌, arith, ℕ_discrete, All}
use herdr_pal.Prelude.Decimal.{format_uint}
use herdr_pal.Prelude.Text.{Text, Text-discrete, codes, byte_len}
use herdr_pal.Split.Labels.{newline, neutralize_fence, safe_label}
use herdr_pal.Split.Page.{
  render_page_parts, rendered_page_parts, terminal_footer_prefix, decorate_rendered_page,
}
use herdr_pal.Split.Rendered.{rendered_page_parts-render_page_parts}
use herdr_pal.Split.Plain.{split_plain}
use herdr_pal.Split.Whole.{joined, IsSplit, split_plain-IsSplit}
use herdr_pal.Split.Markdown.{
  split_rendered_page, pages_from, payload_limit, split_markdown, wrap_rendered_parts,
}
use herdr_pal.Split.Limits.{Fits, split_markdown-Fits}
use herdr_pal.Split.Total.{room, split_markdown_total}

abbrev footer : Text
footer = codes "[终端输出#3] [m/1] w"

abbrev body : Text
body = codes "ab" ++ (newline ∷ codes "cde")

-- Five backticks leave a fence in the middle of the line.
five_backticks : neutralize_fence (codes "`````") ≡ codes "``" ++ (0x200b ∷ codes "```")
unfolding neutralize_fence ℕ_discrete
five_backticks = refl

neutralize_sample : neutralize_fence (codes "```") ≡ codes "``" ++ (0x200b ∷ codes "`")
unfolding neutralize_fence ℕ_discrete
neutralize_sample = refl

label_sample : safe_label (codes "a" ++ (newline ∷ codes "b")) ≡ codes "a b"
unfolding safe_label ℕ_discrete
label_sample = refl

decorate_sample :
    decorate_rendered_page (render_page_parts body (codes "[终端输出] w")) (codes "m") 1 3
    ≡ render_page_parts body footer
unfolding decorate_rendered_page ℕ_discrete Text-discrete
decorate_sample = refl

split_sample : split_plain body 4 ≡ some ((codes "ab" ++ (newline ∷ [])) ∷ codes "cde" ∷ [])
unfolding split_plain ℕ_discrete Text-discrete
split_sample = refl

rendered_page_parts-render_page_parts_example :
    rendered_page_parts (render_page_parts body footer) ≡ some (footer, body)
unfolding terminal_footer_prefix ℕ_discrete Text-discrete
rendered_page_parts-render_page_parts_example =
    rendered_page_parts-render_page_parts body footer (codes "[终端输出#3] ") (ground arith) refl

split_plain-IsSplit_example :
    (joined ((codes "ab" ++ (newline ∷ [])) ∷ codes "cde" ∷ []) ≡ body)
    × IsSplit 4 ((codes "ab" ++ (newline ∷ [])) ∷ codes "cde" ∷ [])
split_plain-IsSplit_example =
    split_plain-IsSplit body 4 ((codes "ab" ++ (newline ∷ [])) ∷ codes "cde" ∷ []) split_sample

abbrev plain_footer : Text
plain_footer = codes "[终端输出] w"

abbrev three_lines : Text
three_lines = codes "aaaaaaaa" ++ (newline ∷ (codes "bbbbbbbb" ++ (newline ∷ codes "cccccccc")))

abbrev three_parts : List Text
three_parts =
    (codes "aaaaaaaa" ++ (newline ∷ []))
    ∷ (codes "bbbbbbbb" ++ (newline ∷ []))
    ∷ codes "cccccccc"
    ∷ []

-- A page of 51 bytes goes out in three parts of 50 at most.
pages_sample :
    split_markdown (render_page_parts three_lines plain_footer) 50
    ≡ some (wrap_rendered_parts plain_footer three_parts)
unfolding split_markdown ℕ_discrete Text-discrete render_page_parts rendered_page_parts
    split_rendered_page byte_len pages_from format_uint split_plain payload_limit
pages_sample = refl

split_markdown-Fits_example : All (Fits 50) (wrap_rendered_parts plain_footer three_parts)
split_markdown-Fits_example =
    split_markdown-Fits (render_page_parts three_lines plain_footer) 50
      (wrap_rendered_parts plain_footer three_parts) pages_sample

room_sample : room (render_page_parts three_lines plain_footer) 50 ≡ 8
unfolding room ℕ_discrete Text-discrete rendered_page_parts render_page_parts payload_limit
    format_uint
room_sample = refl

page_some : render_page_parts three_lines plain_footer ≢ []
unfolding render_page_parts
page_some q = ground (arith, q)

split_markdown_total_example :
    (pages : List Text) × (split_markdown (render_page_parts three_lines plain_footer) 50
      ≡ some pages)
split_markdown_total_example =
    split_markdown_total (render_page_parts three_lines plain_footer) 50 page_some
      (omega (arith, room_sample))
