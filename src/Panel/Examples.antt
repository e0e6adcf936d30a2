-- ===== src/Panel/Examples.antt =====
-- Tests of the terminal buffer, and its theorems on a small cache.
use herdr_pal.Prelude.{
  ℕ, ◌≡◌, ◌<◌, ◌≤◌, ◌+◌, ◌-◌, ◌*◌, refl, List, [], ◌∷◌, false, none, ok, arith, length, ℕ_discrete,
}
use herdr_pal.Prelude.Text.{Text, Text-discrete, codes}
use herdr_pal.Panel.Anchor.{IsLastIndex, last_contiguous_index-IsLastIndex}
use herdr_pal.Panel.Buffer.{
  Buffer, Line, page_size, refresh_terminal, latest_page_len, next_read_size, expand_terminal,
  has_cached_older_page, page_position, last_contiguous_index, search_down, starts_with,
  prepend_older,
}
use herdr_pal.Panel.Pages.{pages_down, pages_down-total}
use herdr_pal.Panel.Reading.{IsPaged, refresh_terminal-IsPaged, pages_down-expand_terminal}

abbrev line : ℕ → Line
line c = record { text = c ∷ []; ansi = c ∷ [] }

abbrev pane : Text
pane = codes "pane"

abbrev newest : List Line
newest = line 1 ∷ line 2 ∷ []

abbrev longer : List Line
longer = line 0 ∷ line 1 ∷ line 2 ∷ []

abbrev blank : Buffer
blank = record { target_key = []; lines = []; page = 0; oldest = false; newest_len = 0 }

abbrev cache : Buffer
cache = refresh_terminal blank pane newest

cache-IsPaged : IsPaged cache
cache-IsPaged = refresh_terminal-IsPaged blank pane newest

cache_lines : 0 < length cache.lines
unfolding refresh_terminal
cache_lines = omega arith

expanded : (expand_terminal cache pane longer).1 ≡ none
unfolding expand_terminal refresh_terminal last_contiguous_index search_down starts_with
    prepend_older Text-discrete ℕ_discrete
expanded = refl

newest_full : latest_page_len cache + 0 * page_size ≤ length cache.lines
unfolding latest_page_len refresh_terminal
newest_full = ground arith

read_size : next_read_size cache ≡ ok 200
unfolding next_read_size refresh_terminal has_cached_older_page ℕ_discrete
read_size = refl

pages_down-total_example : pages_down cache ((page_position cache).1 - 1) ≡ cache.lines
pages_down-total_example = pages_down-total cache

pages_down-expand_terminal_example :
    ((expand_terminal cache pane longer).0.page ≡ cache.page + 1)
    × (pages_down (expand_terminal cache pane longer).0 0 ≡ pages_down cache 0)
pages_down-expand_terminal_example =
    pages_down-expand_terminal cache pane longer 0 cache-IsPaged cache_lines expanded newest_full

last_contiguous_index-IsLastIndex_example :
    IsLastIndex longer newest (last_contiguous_index longer newest)
last_contiguous_index-IsLastIndex_example =
    last_contiguous_index-IsLastIndex longer newest (omega arith)
