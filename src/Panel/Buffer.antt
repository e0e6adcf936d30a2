-- ===== src/Panel/Buffer.antt =====
-- internal/panel/buffer.go: `Buffer` and its methods. No count is negative: where Go subtracts, the
-- test that follows treats a negative result as 0.
use herdr_pal.Prelude.{
  ℕ, zero, suc, ◌+◌, ◌-◌, ◌*◌, ◌/◌, min, max, List, [], ◌∷◌, ◌++◌, Bool, true, false, ◌&&◌, ◌||◌,
  not, Option, none, some, ◌==◌, nat_eq, leb, ltb, if◌then◌else◌, length, take, drop, Result, ok,
  err, map,
}
use herdr_pal.Prelude.Text.{Text, text_eq}

abbrev pub page_size : ℕ
page_size = 100

abbrev pub max_lines : ℕ
max_lines = 1000

pub data Error : Type 0 where
  panel_changed newest_page oldest_page : Error

pub record Line : Type 0 where
  pub text : Text
  pub ansi : Text

pub record Buffer : Type 0 where
  pub target_key : Text
  pub lines : List Line
  pub page : ℕ
  pub oldest : Bool
  pub newest_len : ℕ

pub record Page : Type 0 where
  pub lines : List Line
  pub current : ℕ
  pub total : ℕ

-- `lines[len(lines)-n:]`, where Go tests that there are more than `n`.
abbrev pub last {ℓ} : {A : Type ℓ} → ℕ → List A → List A
last n xs = if ltb n (length xs) then drop (length xs - n) xs else xs

-- `RefreshTerminal`
unfoldable pub refresh_terminal : Buffer → Text → List Line → Buffer
refresh_terminal b target_key ls =
    let kept = last page_size ls in
    record {
      target_key = target_key;
      lines = kept;
      page = 0;
      oldest = false;
      newest_len = length kept;
    }

-- `textLines`
unfoldable pub text_lines : List Text → List Line
text_lines = map (λ t. record { text = t; ansi = t })

-- `Refresh`
unfoldable pub refresh : Buffer → Text → List Text → Buffer
unfolding refresh_terminal text_lines
refresh b target_key ls = refresh_terminal b target_key (text_lines ls)

-- `latestPageLen`
unfoldable pub latest_page_len : Buffer → ℕ
latest_page_len b =
    if b.newest_len == 0 || ltb (length b.lines) b.newest_len
    then min page_size (length b.lines)
    else b.newest_len

-- `hasCachedOlderPage`
unfoldable pub has_cached_older_page : Buffer → Bool
unfolding latest_page_len
has_cached_older_page b = ltb (b.page * page_size) (length b.lines - latest_page_len b)

-- `NextReadSize`
unfoldable pub next_read_size : Buffer → Result Error ℕ
unfolding has_cached_older_page
next_read_size b =
    if has_cached_older_page b
    then ok (max (min ((b.page + 2) * page_size) max_lines) (length b.lines))
    else if b.oldest || ltb max_lines ((b.page + 2) * page_size)
    then err oldest_page
    else ok (min ((b.page + 2) * page_size) max_lines)

-- Whether the texts of `anchor` are those at the start of the lines.
unfoldable pub starts_with : List Line → List Line → Bool
starts_with [] ls = true
starts_with (a ∷ anchor) [] = false
starts_with (a ∷ anchor) (l ∷ ls) = l.text == a.text && starts_with anchor ls

-- The loop of `lastContiguousIndex`, from an index down to 0.
unfoldable pub search_down : List Line → List Line → ℕ → Option ℕ
unfolding starts_with
search_down snapshot anchor zero = if starts_with anchor snapshot then some 0 else none
search_down snapshot anchor (suc i) =
    let below = search_down snapshot anchor i in
    if starts_with anchor (drop (suc i) snapshot) then some (suc i) else below

-- `lastContiguousIndex`; `none` is -1.
unfoldable pub last_contiguous_index : List Line → List Line → Option ℕ
unfolding search_down
last_contiguous_index snapshot anchor =
    if length anchor == 0 || ltb (length snapshot) (length anchor)
    then none
    else search_down snapshot anchor (length snapshot - length anchor)

-- The loop of `isRolledForward`, with `n + 99` for the overlap.
unfoldable pub overlap_down : List Line → List Line → ℕ → Bool
unfolding starts_with
overlap_down snapshot previous zero = false
overlap_down snapshot previous (suc n) =
    let below = overlap_down snapshot previous n in
    starts_with (drop (length previous - (n + page_size)) previous) snapshot || below

-- `isRolledForward`
unfoldable pub is_rolled_forward : List Line → List Line → Bool
unfolding overlap_down
is_rolled_forward snapshot previous =
    if not (length snapshot == max_lines) || not (length previous == max_lines)
    then false
    else overlap_down snapshot previous (max_lines - page_size)

-- `Reset`
unfoldable pub reset : Buffer → Buffer
reset b = record { target_key = []; lines = []; page = 0; oldest = false; newest_len = 0 }

-- The end of `ExpandTerminal`, with the part of the snapshot before the anchor.
unfoldable pub prepend_older : Buffer → List Line → Buffer × Option Error
unfolding has_cached_older_page
prepend_older b before =
    let prefix = last (max_lines - length b.lines) before in
    if length prefix == 0
    then (if has_cached_older_page b
        then (record b { page = b.page + 1 }, none)
        else (record b { oldest = true }, some oldest_page))
    else (
      record b {
        lines = prefix ++ b.lines;
        page = b.page + 1;
        oldest = leb max_lines (length (prefix ++ b.lines));
      },
      none,
    )

-- `ExpandTerminal`
unfoldable pub expand_terminal : Buffer → Text → List Line → Buffer × Option Error
unfolding last_contiguous_index is_rolled_forward reset prepend_older
expand_terminal b target_key snapshot =
    let read = last max_lines snapshot in
    if not (target_key == b.target_key) || length b.lines == 0
    then (reset b, some panel_changed)
    else elim (last_contiguous_index read b.lines) [
      | none ↦
          if has_cached_older_page b && is_rolled_forward read b.lines
          then (record b { page = b.page + 1 }, none)
          else (reset b, some panel_changed)
      | some anchor ↦ prepend_older b (take anchor read)
    ]

-- `PageDown`
unfoldable pub page_down : Buffer → Buffer × Option Error
page_down b = if b.page == 0 then (b, some newest_page) else (record b { page = b.page - 1 }, none)

-- `PagePosition`
unfoldable pub page_position : Buffer → ℕ × ℕ
unfolding latest_page_len
page_position b =
    if length b.lines == 0
    then (0, 0)
    else (b.page + 1, 1 + (length b.lines - latest_page_len b + page_size - 1) / page_size)

-- The bounds that `RenderTerminal` cuts at: where the page ends, and its greatest length.
unfoldable pub page_end : Buffer → ℕ
unfolding latest_page_len
page_end b =
    if ltb 0 b.page
    then length b.lines - (latest_page_len b + (b.page - 1) * page_size)
    else length b.lines

unfoldable pub page_room : Buffer → ℕ
unfolding latest_page_len
page_room b = if b.page == 0 then latest_page_len b else page_size

abbrev empty_page : Page
empty_page = record { lines = []; current = 0; total = 0 }

-- `RenderTerminal`
unfoldable pub render_terminal : Buffer → Page
unfolding page_end page_room page_position
render_terminal b =
    if length b.lines == 0 then empty_page else if page_end b == 0 then empty_page else record {
      lines = drop (page_end b - page_room b) (take (page_end b) b.lines);
      current = (page_position b).0;
      total = (page_position b).1;
    }
