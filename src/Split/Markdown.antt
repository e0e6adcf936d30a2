-- ===== src/Split/Markdown.antt =====
-- internal/panel/split.go: messages cut to a limit, pages with their marks around every part.
use herdr_pal.Prelude.{
  ℕ, zero, suc, ◌+◌, ◌-◌, max, List, [], ◌∷◌, ◌++◌, ◌||◌, Option, none, some, ◌==◌, nat_eq, leb,
  ltb, if◌then◌else◌, length,
}
use herdr_pal.Prelude.Decimal.{format_uint}
use herdr_pal.Prelude.Text.{Text, text_eq, codes, byte_len}
use herdr_pal.Split.Labels.{newline}
use herdr_pal.Split.Page.{
  code_fence_open, code_fence_close, rendered_page_header, render_page_parts, rendered_page_parts,
}
use herdr_pal.Split.Plain.{split_plain}

-- `WeComContentLimit`
abbrev pub we_com_content_limit : ℕ
we_com_content_limit = 20000

-- `strings.Repeat("9", digits)`
unfoldable pub nines : ℕ → Text
nines zero = []
nines (suc n) = b'9' ∷ nines n

-- "\n[分段] [i/n]", for the texts of two numbers.
abbrev pub marker : Text → Text → Text
marker number count = (newline ∷ codes "[分段] [") ++ (number ++ (codes "/" ++ (count ++ codes "]")))

-- The header with its newline, or nothing.
unfoldable pub header_line : Text → Text
unfolding rendered_page_header
header_line footer =
    let header = rendered_page_header footer in
    if header == [] then [] else header ++ (newline ∷ [])

-- One part of `wrapRenderedParts`.
unfoldable pub wrapped : Text → ℕ → ℕ → Text → Text
unfolding format_uint header_line
wrapped footer number count part =
    header_line footer
    ++ (code_fence_open
        ++ (part
            ++ (code_fence_close
                ++ (marker (format_uint number) (format_uint count) ++ (newline ∷ footer)))))

-- The loop of `wrapRenderedParts`, from the number of the first part.
unfoldable pub wrap_from : Text → ℕ → ℕ → List Text → List Text
unfolding wrapped
wrap_from footer number count [] = []
wrap_from footer number count (part ∷ parts) =
    wrapped footer number count part ∷ wrap_from footer (number + 1) count parts

-- `wrapRenderedParts`
unfoldable pub wrap_rendered_parts : Text → List Text → List Text
unfolding wrap_from
wrap_rendered_parts footer parts = wrap_from footer 1 (length parts) parts

-- The bytes that are left for the body in a part whose numbers have so many digits; 0 where Go's
-- number is negative.
unfoldable pub payload_limit : Text → ℕ → ℕ → ℕ
unfolding byte_len header_line nines
payload_limit footer limit digits =
    limit
    - byte_len (header_line footer)
    - byte_len code_fence_open
    - byte_len code_fence_close
    - byte_len (marker (nines digits) (nines digits))
    - 1
    - byte_len footer

-- The loop of `splitRenderedPage` over the digits of the numbers, which grow in every round: the
-- rounds are at most the largest number of digits.
unfoldable pub pages_from : ℕ → ℕ → Text → Text → ℕ → Option (List Text)
pages_from zero digits footer body limit = none
pages_from (suc fuel) digits footer body limit =
    elim (split_plain body (payload_limit footer limit digits)) [
      | none ↦ none
      | some parts ↦
          let required = length (format_uint (length parts)) in
          let retry = pages_from fuel required footer body limit in
          if ltb (length (format_uint (max 1 (byte_len body)))) digits
          then none
          else if ltb digits required
          then retry
          else some (wrap_rendered_parts footer parts)
    ]

-- `splitRenderedPage`
unfoldable pub split_rendered_page : Text → Text → ℕ → Option (List Text)
split_rendered_page footer body limit =
    let complete = render_page_parts body footer in
    if leb (byte_len complete) limit
    then some (complete ∷ [])
    else if body == []
    then none
    else pages_from (length (format_uint (max 1 (byte_len body)))) 1 footer body limit

-- `SplitMarkdown`
unfoldable pub split_markdown : Text → ℕ → Option (List Text)
split_markdown content limit =
    if content == [] || limit == 0 then none else elim (rendered_page_parts content) [
      | some (footer, body) ↦ split_rendered_page footer body limit
      | none ↦ split_plain content limit
    ]
