-- ===== src/Panel/Pages.antt =====
-- internal/panel/buffer.go: the pages that `RenderTerminal` cuts, and what reading more keeps.
use herdr_pal.Prelude.{
  ℕ, zero, suc, ◌+◌, ◌-◌, ◌*◌, ◌≡◌, ◌≤◌, refl, ap, List, [], ◌∷◌, ◌++◌, arith, length, drop, take,
  ℕ_discrete, length-take, ==_cases, nat_eq, inl, inr, ◌∙◌, sym,
}
use herdr_pal.Panel.Buffer.{
  Buffer, Line, page_size, latest_page_len, page_end, page_room, page_position, render_terminal,
}

module _ {ℓ} {A : Type ℓ} where
  drop_all : (n : ℕ) (xs : List A) → length xs ≤ n → drop n xs ≡ []
  drop_all zero [] h = refl
  drop_all zero (x ∷ xs) h = absurd (omega arith)
  drop_all (suc n) [] h = refl
  drop_all (suc n) (x ∷ xs) h = drop_all n xs (omega arith)

  take_all : (n : ℕ) (xs : List A) → length xs ≤ n → take n xs ≡ xs
  take_all zero [] h = refl
  take_all zero (x ∷ xs) h = absurd (omega arith)
  take_all (suc n) [] h = refl
  take_all (suc n) (x ∷ xs) h = ap (◌∷◌ x) (take_all n xs (omega arith))

  -- A slice and what follows it.
  drop-take-append : (k e : ℕ) (xs : List A) → k ≤ e → drop k (take e xs) ++ drop e xs ≡ drop k xs
  drop-take-append zero zero xs h = refl
  drop-take-append zero (suc e) [] h = refl
  drop-take-append zero (suc e) (x ∷ xs) h = ap (◌∷◌ x) (drop-take-append zero e xs (omega arith))
  drop-take-append (suc k) zero xs h = absurd (omega arith)
  drop-take-append (suc k) (suc e) [] h = refl
  drop-take-append (suc k) (suc e) (x ∷ xs) h = drop-take-append k e xs (omega arith)

-- The cache with another page in view, and the pages down to the newest, oldest first.
abbrev pub at_page : Buffer → ℕ → Buffer
at_page b p = record b { page = p }

abbrev pub page_lines : Buffer → ℕ → List Line
page_lines b p = (render_terminal (at_page b p)).lines

unfoldable pub pages_down : Buffer → ℕ → List Line
pages_down b zero = page_lines b zero
pages_down b (suc p) = page_lines b (suc p) ++ pages_down b p

latest_page_len-at_page : (b : Buffer) (p : ℕ) → latest_page_len (at_page b p) ≡ latest_page_len b
unfolding latest_page_len
latest_page_len-at_page b p = refl

latest_page_len-le : (b : Buffer) → latest_page_len b ≤ length b.lines
unfolding latest_page_len
latest_page_len-le b = ground arith

page_end-older :
    (b : Buffer) (p : ℕ)
    → page_end (at_page b (suc p)) ≡ length b.lines - (latest_page_len b + p * page_size)
unfolding page_end latest_page_len
page_end-older b p = ground arith

page_room-older : (b : Buffer) (p : ℕ) → page_room (at_page b (suc p)) ≡ page_size
unfolding page_room
page_room-older b p = ground arith

-- A cut at or past the end.
cut_nothing {ℓ} : {A : Type ℓ} (k e : ℕ) (xs : List A) → e ≤ k → drop k (take e xs) ≡ []
cut_nothing k e xs h = drop_all k (take e xs) (omega (arith, length-take e xs))

page_lines-newest :
    (b : Buffer) → page_lines b 0 ≡ drop (length b.lines - latest_page_len b) b.lines
unfolding render_terminal page_end page_room ℕ_discrete
page_lines-newest b = elim (==_cases (length b.lines) 0) [
  | inl (empty, z) ↦
      rw (z, page_lines) (sym (drop_all (length b.lines - latest_page_len b) b.lines (omega arith)))
  | inr (full, z) ↦ rw (z, page_lines) (rw (take_all (length b.lines) b.lines (omega arith)) refl)
]

module _ (b : Buffer) (p : ℕ) where
  abbrev older_end : ℕ
  older_end = length b.lines - (latest_page_len b + p * page_size)

  page_lines-older : page_lines b (suc p) ≡ drop (older_end - page_size) (take older_end b.lines)
  unfolding render_terminal
  page_lines-older = elim (==_cases (length b.lines) 0) [
    | inl (empty, z) ↦
        rw (z, page_lines)
          (sym (cut_nothing (older_end - page_size) older_end b.lines (omega arith)))
    | inr (full, z) ↦ elim (==_cases (page_end (at_page b (suc p))) 0) [
      | inl (past, y) ↦
          rw (z, page_lines, y)
            (sym (
              cut_nothing (older_end - page_size) older_end b.lines
                (omega (arith, page_end-older b p))))
      | inr (within, y) ↦ rw (z, page_lines, y) (rw (page_end-older b p, page_room-older b p) refl)
    ]
  ]

-- The pages from one of them down to the newest are the end of the cache, each line once.
pub pages_down-eq-drop :
    (b : Buffer) (p : ℕ)
    → pages_down b p ≡ drop (length b.lines - (latest_page_len b + p * page_size)) b.lines
unfolding pages_down
pages_down-eq-drop b zero = page_lines-newest b ∙ ap (λ k. drop k b.lines) (omega arith)
pages_down-eq-drop b (suc p) =
    let e : ℕ = length b.lines - (latest_page_len b + p * page_size) in
    ap (λ x. x ++ pages_down b p) (page_lines-older b p)
    ∙ ap (λ x. drop (e - page_size) (take e b.lines) ++ x) (pages_down-eq-drop b p)
    ∙ drop-take-append (e - page_size) e b.lines (omega arith)
    ∙ ap (λ k. drop k b.lines) (omega arith)

page_position-covers :
    (b : Buffer) → length b.lines ≤ latest_page_len b + ((page_position b).1 - 1) * page_size
unfolding page_position
page_position-covers b = ground arith

-- The pages from the last that `PagePosition` counts down to the newest are the whole cache: every
-- cached line is on exactly one page, and the pages keep the order.
pub pages_down-total : (b : Buffer) → pages_down b ((page_position b).1 - 1) ≡ b.lines
pages_down-total b =
    pages_down-eq-drop b ((page_position b).1 - 1)
    ∙ ap (λ k. drop k b.lines) {y = 0} (omega (arith, page_position-covers b))
