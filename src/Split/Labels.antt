-- ===== src/Split/Labels.antt =====
-- internal/panel/split.go: the names and the lines that a page shows, made safe for Markdown.
use herdr_pal.Prelude.{ℕ, [], ◌∷◌, ◌++◌, ◌≢◌, All, ◌&&◌, not, ◌==◌, nat_eq, if◌then◌else◌, List}
use herdr_pal.Prelude.Text.{Text, text_eq, codes, trim_space}

abbrev pub newline : ℕ
newline = 0x0a

-- A text of one line.
abbrev pub IsLine : Text → Type 0
IsLine s = All (λ c. c ≢ newline) s

abbrev pub backtick : ℕ
backtick = b'`'

-- What three backticks become: a space of no width stands before the third.
abbrev broken_fence : Text → Text
broken_fence rest = backtick ∷ backtick ∷ 0x200b ∷ backtick ∷ rest

-- `neutralizeFence`
unfoldable pub neutralize_fence : Text → Text
neutralize_fence [] = []
neutralize_fence (c ∷ []) = c ∷ []
neutralize_fence (c ∷ d ∷ []) = c ∷ d ∷ []
neutralize_fence (c ∷ d ∷ e ∷ s) =
    let after = neutralize_fence s in
    let later = neutralize_fence (d ∷ e ∷ s) in
    if c == backtick && d == backtick && e == backtick then broken_fence after else c ∷ later

-- The replacer of `safeLabel` on one character that starts no fence.
abbrev safe_character : ℕ → Text → Text
safe_character c rest =
    if c == 0x0d
    then b' ' ∷ rest
    else if c == newline
    then b' ' ∷ rest
    else if c == 0
    then rest
    else c ∷ rest

-- `safeLabel`
unfoldable pub safe_label : Text → Text
safe_label [] = []
safe_label (c ∷ []) = safe_character c []
safe_label (c ∷ d ∷ []) = safe_character c (safe_character d [])
safe_label (c ∷ d ∷ e ∷ s) =
    let after = safe_label s in
    let later = safe_label (d ∷ e ∷ s) in
    if c == backtick && d == backtick && e == backtick
    then broken_fence after
    else safe_character c later

-- `WorkspaceLabel`
unfoldable pub workspace_label : Text → Text → Text
unfolding trim_space
workspace_label workspace_name tab_name =
    let workspace = trim_space workspace_name in
    let tab = trim_space tab_name in
    if not (workspace == []) && not (tab == [])
    then workspace ++ (codes "/" ++ tab)
    else if not (workspace == [])
    then workspace
    else if not (tab == [])
    then tab
    else codes "未知工作区"

-- `strings.Join(lines, "\n")`
unfoldable pub join_lines : List Text → Text
join_lines [] = []
join_lines (line ∷ []) = line
join_lines (line ∷ next ∷ lines) = line ++ (newline ∷ join_lines (next ∷ lines))
