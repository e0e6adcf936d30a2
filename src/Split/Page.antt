-- ===== src/Split/Page.antt =====
-- internal/panel/split.go: a rendered page and its parts.
use herdr_pal.Prelude.{
  ℕ, ◌+◌, ◌-◌, List, [], ◌∷◌, ◌++◌, map, Bool, true, false, ◌&&◌, ◌||◌, not, Option, none, some,
  ◌==◌, nat_eq, ltb, if◌then◌else◌, all, take, drop,
}
use herdr_pal.Prelude.Decimal.{is_digit, digits_value, format_uint}
use herdr_pal.Prelude.Strings.{cut_prefix, drop_prefix, has_prefix, index_of, last_index_of}
use herdr_pal.Prelude.Text.{Text, text_eq, codes, trim_space}
use herdr_pal.Registry.{Target}
use herdr_pal.Split.Labels.{newline, neutralize_fence, safe_label, workspace_label, join_lines}

-- "```\n"
abbrev pub code_fence_open : Text
code_fence_open = codes "```" ++ (newline ∷ [])

-- "\n```"
abbrev pub code_fence_close : Text
code_fence_close = newline ∷ codes "```"

abbrev pub footer_prefix : Text
footer_prefix = codes "[终端输出] "

abbrev pub numbered_start : Text
numbered_start = codes "[终端输出#"

-- The largest Go `int`.
abbrev max_int : ℕ
max_int = 9223372036854775807

-- `strconv.Atoi` of a text without a sign.
unfoldable pub atoi_unsigned : Text → Option ℕ
unfolding is_digit digits_value
atoi_unsigned s =
    if s == [] || not (all is_digit s) || ltb max_int (digits_value 0 s)
    then none
    else some (digits_value 0 s)

-- Whether `strconv.Atoi` reads a number from 1 on: a `-` before the digits gives none.
unfoldable pub is_index : Text → Bool
unfolding atoi_unsigned drop_prefix
is_index s = elim (atoi_unsigned (drop_prefix (codes "+") s)) [
  | none ↦ false
  | some n ↦ not (n == 0)
]

-- `strings.TrimSuffix(s, " ")`
unfoldable pub trim_last_space : Text → Text
trim_last_space [] = []
trim_last_space (c ∷ []) = if c == b' ' then [] else c ∷ []
trim_last_space (c ∷ d ∷ s) = c ∷ trim_last_space (d ∷ s)

-- The prefix of a footer with a number, from what follows `numberedStart`.
unfoldable pub numbered_prefix : Text → Option Text
unfolding is_index index_of
numbered_prefix rest = elim (index_of (codes "] ") rest) [
  | none ↦ none
  | some i ↦
      if i == 0 || not (is_index (take i rest))
      then none
      else some (numbered_start ++ take (i + 2) rest)
]

-- `terminalFooterPrefix`
unfoldable pub terminal_footer_prefix : Text → Option Text
unfolding numbered_prefix has_prefix cut_prefix
terminal_footer_prefix footer =
    if has_prefix footer_prefix footer
    then some footer_prefix
    else elim (cut_prefix numbered_start footer) [ none ↦ none | some rest ↦ numbered_prefix rest ]

-- `renderedPageHeader`: the prefix without the space at its end, for a page with a number.
unfoldable pub rendered_page_header : Text → Text
unfolding terminal_footer_prefix trim_last_space
rendered_page_header footer = elim (terminal_footer_prefix footer) [
  | none ↦ []
  | some prefix ↦ if prefix == footer_prefix then [] else trim_last_space prefix
]

-- `renderPageParts`
unfoldable pub render_page_parts : Text → Text → Text
unfolding rendered_page_header
render_page_parts body footer =
    let content = code_fence_open ++ (body ++ (code_fence_close ++ (newline ∷ footer))) in
    let header = rendered_page_header footer in
    if header == [] then content else header ++ (newline ∷ content)

-- The end of `renderedPageParts`: the body and the footer of a page after its first line.
unfoldable pub page_parts : Text → Text → Option (Text × Text)
unfolding has_prefix last_index_of terminal_footer_prefix rendered_page_header
page_parts declared_header page =
    if not (has_prefix code_fence_open page)
    then none
    else elim (last_index_of (newline ∷ codes "[终端输出") page) [
      | none ↦ none
      | some footer_start ↦ elim (last_index_of code_fence_close (take footer_start page)) [
        | none ↦ none
        | some body_end ↦
            let footer = drop (footer_start + 1) page in
            if ltb body_end 4 then none else elim (terminal_footer_prefix footer) [
              | none ↦ none
              | some prefix ↦
                  if declared_header == rendered_page_header footer
                  then some (footer, take (body_end - 4) (drop 4 page))
                  else none
            ]
      ]
    ]

-- `renderedPageParts`: the footer and the body.
unfoldable pub rendered_page_parts : Text → Option (Text × Text)
unfolding page_parts has_prefix index_of
rendered_page_parts content =
    if has_prefix numbered_start content
    then elim (index_of (newline ∷ []) content) [
      | none ↦ none
      | some i ↦ page_parts (take i content) (drop (i + 1) content)
    ]
    else page_parts [] content

-- `IsRenderedPage`
unfoldable pub is_rendered_page : Text → Bool
unfolding rendered_page_parts
is_rendered_page content = elim (rendered_page_parts content) [ none ↦ false | some parts ↦ true ]

-- The footer that `RenderPageWithTotal` writes, with the page and the pages clamped.
unfoldable pub page_footer : Target → ℕ → ℕ → Text
unfolding format_uint workspace_label safe_label
page_footer target current total =
    let agent =
      if not (target.agent == [])
      then target.agent
      else if not (target.display_agent == [])
      then target.display_agent
      else target.pane_id in
    footer_prefix
    ++ (safe_label (workspace_label target.workspace target.tab)
        ++ (codes "-"
            ++ (safe_label agent
                ++ (codes "("
                    ++ (safe_label target.pane_id
                        ++ (codes "), 页码:["
                            ++ (format_uint current
                                ++ (codes "/" ++ (format_uint total ++ codes "]")))))))))

-- `RenderPageWithTotal`
unfoldable pub render_page_with_total : Target → ℕ → ℕ → List Text → Text
unfolding page_footer neutralize_fence join_lines render_page_parts
render_page_with_total target current total lines =
    let page = if ltb current 1 then 1 else current in
    let pages = if ltb total page then page else total in
    render_page_parts (join_lines (map neutralize_fence lines)) (page_footer target page pages)

-- `RenderPage`, for a page from 0 on.
unfoldable pub render_page : Target → ℕ → List Text → Text
unfolding render_page_with_total
render_page target page lines = render_page_with_total target (page + 1) (page + 1) lines

-- `stripDecoratedSource`. Where two code points before the index are three bytes or more, no `/`
-- stands after the first character, so the footer stays either way.
unfoldable pub strip_decorated_source : Text → Text
unfolding has_prefix index_of last_index_of is_index
strip_decorated_source footer =
    if not (has_prefix (codes "[") footer) then footer else elim (index_of (codes "] ") footer) [
      | none ↦ footer
      | some close ↦
          let source = take (close - 1) (drop 1 footer) in
          if ltb close 3 then footer else elim (last_index_of (codes "/") source) [
            | none ↦ footer
            | some slash ↦
                if ltb slash 1 || not (is_index (drop (slash + 1) source))
                then footer
                else drop (close + 2) footer
          ]
    ]

-- `DecorateRenderedPage`
unfoldable pub decorate_rendered_page : Text → Text → ℕ → ℕ → Text
unfolding rendered_page_parts terminal_footer_prefix format_uint safe_label strip_decorated_source
    render_page_parts has_prefix drop_prefix
decorate_rendered_page content machine_id local_index list_index =
    elim (rendered_page_parts content) [
      | none ↦ content
      | some (footer, body) ↦
          if machine_id == [] || ltb local_index 1 || ltb list_index 1
          then content
          else elim (terminal_footer_prefix footer) [
            | none ↦ content
            | some prefix ↦
                let source =
                  codes "["
                  ++ (safe_label machine_id
                      ++ (codes "/" ++ (format_uint local_index ++ codes "] "))) in
                let numbered = numbered_start ++ (format_uint list_index ++ codes "] ") in
                let rest = drop_prefix prefix footer in
                if prefix == numbered && has_prefix source rest
                then content
                else render_page_parts body (
                    numbered
                    ++ (source
                        ++ (if prefix == footer_prefix then rest else strip_decorated_source rest)))
          ]
    ]

-- `AppendRenderedPageNote`
unfoldable pub append_rendered_page_note : Text → Text → Text
unfolding rendered_page_parts trim_space safe_label
append_rendered_page_note content note = elim (rendered_page_parts content) [
  | none ↦ content
  | some parts ↦ if trim_space note == [] then content else content ++ (newline ∷ safe_label note)
]
