-- ===== src/Panel/Reading.antt =====
-- internal/panel/buffer.go: reading older lines keeps the cache within its bounds, and keeps the
-- pages that were full.
use herdr_pal.Prelude.{
  ℕ, zero, suc, ◌+◌, ◌-◌, ◌*◌, ◌≡◌, ◌<◌, ◌≤◌, refl, ap, sym, List, [], ◌∷◌, ◌++◌, Option, none,
  some, arith, length, drop, take, ok, length-drop, length-append, Bool-cases, Option-cases, inl,
  inr, ◌==◌, nat_eq, not, ◌||◌, ◌&&◌, ◌∙◌,
}
use herdr_pal.Prelude.Text.{Text, text_eq}
use herdr_pal.Panel.Buffer.{
  Error, panel_changed, Buffer, Line, page_size, max_lines, last, refresh_terminal, latest_page_len,
  has_cached_older_page, next_read_size, prepend_older, expand_terminal, page_down,
  last_contiguous_index, is_rolled_forward, reset,
}
use herdr_pal.Panel.Pages.{pages_down, pages_down-eq-drop}

-- What holds of a cache between two calls.
pub record IsPaged (b : Buffer) : Type 0 where
  pub bounded : length b.lines ≤ max_lines
  pub newest : b.newest_len ≤ length b.lines
  pub newest_page : b.newest_len ≤ page_size
  pub some_newest : 0 < length b.lines → 0 < b.newest_len

module _ {ℓ} {A : Type ℓ} where
  length-last : (n : ℕ) (xs : List A) → length (last n xs) ≤ n
  length-last n xs = ground (arith, length-drop (length xs - n) xs)

  last_nonempty : (n : ℕ) (xs : List A) → 0 < length (last n xs) → 0 < length xs
  last_nonempty n xs h = ground (arith, length-drop (length xs - n) xs)

  drop-append_past : (xs ys : List A) (k n : ℕ) → n ≡ length xs + k → drop n (xs ++ ys) ≡ drop k ys
  drop-append_past [] ys k n e = ap (λ i. drop i ys) (omega arith)
  drop-append_past (x ∷ xs) ys k zero e = absurd (omega arith)
  drop-append_past (x ∷ xs) ys k (suc n) e = drop-append_past xs ys k n (omega arith)

pub refresh_terminal-IsPaged :
    (b : Buffer) (key : Text) (ls : List Line) → IsPaged (refresh_terminal b key ls)
unfolding refresh_terminal
refresh_terminal-IsPaged b key ls = omega (arith, length-last {0} page_size ls)

pub page_down-IsPaged : (b : Buffer) → IsPaged b → IsPaged (page_down b).0
unfolding page_down
page_down-IsPaged b h = ground arith

reset-IsPaged : (b : Buffer) → IsPaged (reset b)
unfolding reset
reset-IsPaged b = omega arith

prepend_older-IsPaged :
    (b : Buffer) (before : List Line)
    → 0 < length b.lines
    → IsPaged b
    → IsPaged (prepend_older b before).0
unfolding prepend_older
prepend_older-IsPaged b before pos h =
    let prefix = last (max_lines - length b.lines) before in
    ground
      (arith, length-last {0} (max_lines - length b.lines) before, length-append {0} prefix b.lines)

-- `ExpandTerminal` starts over, turns to a page that it has, or joins older lines to the cache.
pub expand_terminal_cases {ℓ} :
    (P : Buffer × Option Error → Type ℓ) (b : Buffer) (key : Text) (snapshot : List Line)
    → P (reset b, some panel_changed)
    → P (record b { page = b.page + 1 }, none)
    → (0 < length b.lines
        → (i : ℕ) → last_contiguous_index (last max_lines snapshot) b.lines ≡ some i
        → P (prepend_older b (take i (last max_lines snapshot))))
    → P (expand_terminal b key snapshot)
unfolding expand_terminal
expand_terminal_cases P b key snapshot over turned joined =
    elim (Bool-cases (not (key == b.target_key) || length b.lines == 0)) [
      | inl bad ↦ rw (bad, expand_terminal) over
      | inr good ↦ elim (Option-cases (last_contiguous_index (last max_lines snapshot) b.lines)) [
        | inr (i, e) ↦ rw (good, e, expand_terminal) (joined (ground (arith, good)) i e)
        | inl e ↦
            elim (Bool-cases
              (has_cached_older_page b && is_rolled_forward (last max_lines snapshot) b.lines)) [
                | inl t ↦ rw (good, e, t, expand_terminal) turned
                | inr t ↦ rw (good, e, t, expand_terminal) over
              ]
      ]
    ]

-- `ExpandTerminal` keeps the bounds of the cache, whether it succeeds or not: at most 1000 lines,
-- and a newest page of at most 100 that is empty only if the cache is.
pub expand_terminal-IsPaged :
    (b : Buffer) (key : Text) (snapshot : List Line)
    → IsPaged b
    → IsPaged (expand_terminal b key snapshot).0
expand_terminal-IsPaged b key snapshot h =
    expand_terminal_cases (λ r. IsPaged r.0) b key snapshot (reset-IsPaged b)
      (record {
        bounded = h.bounded;
        newest = h.newest;
        newest_page = h.newest_page;
        some_newest = h.some_newest;
      })
      λ pos i e. prepend_older-IsPaged b _ pos h

-- An expansion that succeeds turns one page up, in the cache or in a cache with older lines before it.
abbrev pub TurnsUp : Buffer → Buffer → Type 0
TurnsUp b d =
    (prefix : List Line) × (d.lines ≡ prefix ++ b.lines)
    × (d.page ≡ b.page + 1)
    × (d.newest_len ≡ b.newest_len)
    × (d.target_key ≡ b.target_key)

prepend_older-TurnsUp :
    (b : Buffer) (before : List Line)
    → (prepend_older b before).1 ≡ none
    → TurnsUp b (prepend_older b before).0
unfolding prepend_older
prepend_older-TurnsUp b before h =
    elim (Bool-cases (length (last (max_lines - length b.lines) before) == 0)) [
      | inl e ↦ ([], ground (arith, e), ground (arith, e), ground (arith, e), ground (arith, e))
      | inr e ↦ (
        last (max_lines - length b.lines) before,
        ground (arith, e),
        ground (arith, e),
        ground (arith, e),
        ground (arith, e),
      )
    ]

pub expand_terminal-TurnsUp :
    (b : Buffer) (key : Text) (snapshot : List Line)
    → (expand_terminal b key snapshot).1 ≡ none
    → TurnsUp b (expand_terminal b key snapshot).0
expand_terminal-TurnsUp b key snapshot =
    expand_terminal_cases (λ r. r.1 ≡ none → TurnsUp b r.0) b key snapshot (λ e. cc)
      (λ e. ([], refl, refl, refl, refl)) λ pos i e. prepend_older-TurnsUp b _

latest_page_len-TurnsUp :
    (b d : Buffer)
    → IsPaged b
    → 0 < length b.lines
    → TurnsUp b d
    → latest_page_len d ≡ latest_page_len b
unfolding latest_page_len
latest_page_len-TurnsUp b d h pos (prefix, l, _, n, _) =
    ground (arith, h, ap length l, length-append prefix b.lines)

-- An `ExpandTerminal` that succeeds on a cache with a line and within its bounds turns one page
-- up, and each page whose lines were all in the cache, with the newer ones, shows the same lines
-- as before.
pub pages_down-expand_terminal :
    (b : Buffer) (key : Text) (snapshot : List Line) (p : ℕ)
    → IsPaged b
    → 0 < length b.lines
    → (expand_terminal b key snapshot).1 ≡ none
    → latest_page_len b + p * page_size ≤ length b.lines
    → ((expand_terminal b key snapshot).0.page ≡ b.page + 1)
      × (pages_down (expand_terminal b key snapshot).0 p ≡ pages_down b p)
pages_down-expand_terminal b key snapshot p h pos done full =
    let d = (expand_terminal b key snapshot).0 in
    let up = expand_terminal-TurnsUp b key snapshot done in
    let (prefix, l, page, n, k) = up in
    (
      page,
      pages_down-eq-drop d p
          ∙ ap (λ xs. drop (length d.lines - (latest_page_len d + p * page_size)) xs) l
          ∙ drop-append_past prefix b.lines (length b.lines - (latest_page_len b + p * page_size)) _
              (omega (
                arith,
                ap length l,
                length-append {0} prefix b.lines,
                latest_page_len-TurnsUp b d h pos up,
              ))
          ∙ sym (pages_down-eq-drop b p),
    )

-- For a cache within its bounds, a number of lines that `NextReadSize` gives is positive and at
-- most 1000.
pub next_read_size_bounds :
    (b : Buffer) {n : ℕ} → IsPaged b → next_read_size b ≡ ok n → (0 < n) × (n ≤ max_lines)
unfolding next_read_size
next_read_size_bounds b h e = ground arith
