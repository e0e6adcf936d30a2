-- ===== src/Split/Rendered.antt =====
-- internal/panel/split.go: what renderedPageParts reads back from renderPageParts.
use herdr_pal.Prelude.{
  ℕ, zero, suc, ◌+◌, [], ◌∷◌, ◌++◌, true, false, not, none, some, ◌≡◌, refl, sym, ap, ◌∙◌, subst,
  ◌≢◌, inl, inr, arith, ℕ_discrete, ◌==◌, ==_cases, nat_eq, Bool-cases, Option-cases, length-append,
  ◌||◌, length, take, drop, take-append,
}
use native.Mathlib.Numerals.{unary_clauses}
use herdr_pal.Prelude.Strings.{cut_prefix, has_prefix, index_of, last_index_of}
use herdr_pal.Prelude.Text.{Text, Text-discrete, text_eq, codes}
use herdr_pal.Split.Labels.{newline, IsLine}
use herdr_pal.Split.Page.{
  code_fence_open, is_index, code_fence_close, footer_prefix, numbered_start, numbered_prefix,
  terminal_footer_prefix, rendered_page_header, render_page_parts, page_parts, trim_last_space,
  rendered_page_parts,
}

-- A pattern that starts with a newline is nowhere in a line.
last_index_of-line : (p s : Text) → IsLine s → last_index_of (newline ∷ p) s ≡ none
unfolding last_index_of has_prefix cut_prefix
last_index_of-line p [] l = refl
last_index_of-line p (c ∷ s) l = ground (arith, l.0, last_index_of-line p s l.1)

-- The last place of such a pattern, before a line.
last_index_of-append :
    (p x y : Text)
    → IsLine y
    → has_prefix (newline ∷ p) (newline ∷ y) ≡ true
    → last_index_of (newline ∷ p) (x ++ (newline ∷ y)) ≡ some (length x)
unfolding last_index_of
last_index_of-append p [] y l h = rw (last_index_of-line p y l) (ground (arith, h))
last_index_of-append p (c ∷ x) y l h = ground (arith, last_index_of-append p x y l h)

index_of-line :
    (x y : Text) → IsLine x → index_of (newline ∷ []) (x ++ (newline ∷ y)) ≡ some (length x)
unfolding index_of has_prefix cut_prefix ℕ_discrete
index_of-line [] y l = refl
index_of-line (c ∷ x) y l = ground (arith, l.0, index_of-line x y l.1)

drop-append_next : (c : ℕ) (x y : Text) → drop (length x + 1) (x ++ (c ∷ y)) ≡ y
drop-append_next c [] y = refl
drop-append_next c (d ∷ x) y = simp unary_clauses (simp unary_clauses at (drop-append_next c x y))

pub append_assoc : (x y z : Text) → x ++ (y ++ z) ≡ (x ++ y) ++ z
append_assoc [] y z = refl
append_assoc (c ∷ x) y z = ap (λ s. c ∷ s) (append_assoc x y z)

has_prefix-append : (p q s : Text) → has_prefix (p ++ q) s ≡ true → has_prefix p s ≡ true
unfolding has_prefix cut_prefix
has_prefix-append [] q s h = refl
has_prefix-append (c ∷ p) q [] h = ground (arith, h)
has_prefix-append (c ∷ p) q (d ∷ s) h = ground (arith, h, has_prefix-append p q s)

cut_prefix-append : (p s rest : Text) → cut_prefix p s ≡ some rest → s ≡ p ++ rest
unfolding cut_prefix
cut_prefix-append [] s rest h = ground (arith, h)
cut_prefix-append (c ∷ p) [] rest h = ground (arith, h)
cut_prefix-append (c ∷ p) (d ∷ s) rest h = ground (arith, h, cut_prefix-append p s rest)

IsLine-take : (n : ℕ) (s : Text) → IsLine s → IsLine (take n s)
IsLine-take zero s l = tt
IsLine-take (suc n) [] l = tt
IsLine-take (suc n) (c ∷ s) l = (l.0, IsLine-take n s l.1)

IsLine-trim_last_space : (s : Text) → IsLine s → IsLine (trim_last_space s)
unfolding trim_last_space
IsLine-trim_last_space [] l = tt
IsLine-trim_last_space (c ∷ []) l = elim (Bool-cases (c == b' ')) [
  | inl t ↦ rw t tt
  | inr t ↦ rw t l
]
IsLine-trim_last_space (c ∷ d ∷ s) l = (l.0, IsLine-trim_last_space (d ∷ s) l.1)

IsLine-tail : (p s : Text) → IsLine (p ++ s) → IsLine s
IsLine-tail [] s l = l
IsLine-tail (c ∷ p) s l = IsLine-tail p s l.1

-- The start of every footer.
abbrev footer_start : Text
footer_start = codes "[终端输出"

footer_starts :
    (footer prefix : Text)
    → terminal_footer_prefix footer ≡ some prefix
    → has_prefix footer_start footer ≡ true
unfolding terminal_footer_prefix has_prefix
footer_starts footer prefix t = elim (Bool-cases (has_prefix footer_prefix footer)) [
  | inl h ↦ has_prefix-append footer_start (codes "] ") footer h
  | inr h ↦ elim (Option-cases (cut_prefix numbered_start footer)) [
    | inl n ↦ ground (arith, h, n, t)
    | inr (rest, q) ↦ has_prefix-append footer_start (codes "#") footer (ground (arith, q))
  ]
]

page_parts-found :
    (page footer prefix : Text) (i j : ℕ)
    → has_prefix code_fence_open page ≡ true
    → last_index_of (newline ∷ footer_start) page ≡ some i
    → last_index_of code_fence_close (take i page) ≡ some (4 + j)
    → drop (i + 1) page ≡ footer
    → terminal_footer_prefix footer ≡ some prefix
    → page_parts (rendered_page_header footer) page ≡ some (footer, take j (drop 4 page))
unfolding page_parts
page_parts-found page footer prefix i j o s e d t = rw (o, s, e, d, t) (ground arith)

page_parts-render :
    (body footer prefix : Text)
    → IsLine footer
    → terminal_footer_prefix footer ≡ some prefix
    → page_parts
        (rendered_page_header footer)
        (code_fence_open ++ (body ++ (code_fence_close ++ (newline ∷ footer))))
      ≡ some (footer, body)
unfolding has_prefix cut_prefix ℕ_discrete
page_parts-render body footer prefix l t =
    let front = (code_fence_open ++ body) ++ code_fence_close in
    let q : code_fence_open ++ (body ++ (code_fence_close ++ (newline ∷ footer)))
        ≡ front ++ (newline ∷ footer) =
      append_assoc code_fence_open body (code_fence_close ++ (newline ∷ footer))
      ∙ append_assoc (code_fence_open ++ body) code_fence_close (newline ∷ footer) in
    let place : last_index_of (newline ∷ footer_start) (front ++ (newline ∷ footer))
        ≡ some (length front) =
      last_index_of-append footer_start front footer l (footer_starts footer prefix t) in
    let close : last_index_of code_fence_close front ≡ some (length (code_fence_open ++ body)) =
      last_index_of-append (codes "```") (code_fence_open ++ body) (codes "```") (ground arith)
        refl in
    let size : length (code_fence_open ++ body) ≡ 4 + length body =
      length-append code_fence_open body in
    page_parts-found (code_fence_open ++ (body ++ (code_fence_close ++ (newline ∷ footer)))) footer
      prefix (length front) (length body) refl
      (ap (λ page. last_index_of (newline ∷ footer_start) page) q ∙ place)
      (ap (λ page. last_index_of code_fence_close (take (length front) page)) q
        ∙ (ap (λ x. last_index_of code_fence_close x) (take-append front (newline ∷ footer))
            ∙ (close ∙ ap some size)))
      (ap (λ page. drop (length front + 1) page) q ∙ drop-append_next newline front footer) t
    ∙ ap (λ b. some (footer, b)) (take-append body (code_fence_close ++ (newline ∷ footer)))

trim_last_space-numbered :
    (t : Text) → trim_last_space (numbered_start ++ t) ≡ numbered_start ++ trim_last_space t
unfolding trim_last_space ℕ_discrete
trim_last_space-numbered [] = refl
trim_last_space-numbered (c ∷ t) = refl

-- The header of a page with a number stands in the footer, whose first characters it has.
numbered_header :
    (footer : Text)
    → IsLine footer
    → rendered_page_header footer ≢ []
    → (rest : Text) × ((rendered_page_header footer ≡ numbered_start ++ rest) × IsLine rest)
unfolding rendered_page_header terminal_footer_prefix numbered_prefix Text-discrete ℕ_discrete
numbered_header footer l n = elim (Bool-cases (has_prefix footer_prefix footer)) [
  | inl h ↦ absurd (ground (arith, h, n))
  | inr h ↦ elim (Option-cases (cut_prefix numbered_start footer)) [
    | inl c ↦ absurd (ground (arith, h, c, n))
    | inr (rest, c) ↦ elim (Option-cases (index_of (codes "] ") rest)) [
      | inl o ↦ absurd (ground (arith, h, c, o, n))
      | inr (i, o) ↦ elim (Bool-cases (i == 0 || not (is_index (take i rest)))) [
        | inl b ↦ absurd (ground (arith, h, c, o, b, n))
        | inr b ↦
            let found : rendered_page_header footer
                ≡ trim_last_space (numbered_start ++ take (i + 2) rest) =
              ground (arith, h, c, o, b) in
            let line : IsLine rest =
              IsLine-tail numbered_start rest
                (subst IsLine (cut_prefix-append numbered_start footer rest c) l) in
            (
              trim_last_space (take (i + 2) rest),
              (
                found ∙ trim_last_space-numbered (take (i + 2) rest),
                IsLine-trim_last_space (take (i + 2) rest) (IsLine-take (i + 2) rest line),
              ),
            )
      ]
    ]
  ]
]

module _ (body footer : Text) where
  abbrev pub content : Text
  content = code_fence_open ++ (body ++ (code_fence_close ++ (newline ∷ footer)))

  pub render_plain :
      (rendered_page_header footer == []) ≡ true → render_page_parts body footer ≡ content
  unfolding render_page_parts
  render_plain b = rw b refl

  pub render_numbered :
      (rendered_page_header footer == []) ≡ false
      → render_page_parts body footer ≡ rendered_page_header footer ++ (newline ∷ content)
  unfolding render_page_parts
  render_numbered b = rw b refl

parts_plain :
    (s : Text) → has_prefix numbered_start s ≡ false → rendered_page_parts s ≡ page_parts [] s
unfolding rendered_page_parts
parts_plain s h = rw h refl

parts_numbered :
    (header page : Text)
    → IsLine header
    → has_prefix numbered_start (header ++ (newline ∷ page)) ≡ true
    → rendered_page_parts (header ++ (newline ∷ page)) ≡ page_parts header page
unfolding rendered_page_parts
parts_numbered header page l h =
    rw (h, index_of-line header page l)
      (ap (λ top. page_parts top (drop (length header + 1) (header ++ (newline ∷ page))))
          (take-append header (newline ∷ page))
        ∙ ap (λ s. page_parts header s) (drop-append_next newline header page))

-- `renderedPageParts` reads the footer and the body back from a page that `renderPageParts` wrote,
-- whatever the body, if the footer is one line and has a prefix that `terminalFooterPrefix` knows.
pub rendered_page_parts-render_page_parts :
    (body footer prefix : Text)
    → IsLine footer
    → terminal_footer_prefix footer ≡ some prefix
    → rendered_page_parts (render_page_parts body footer) ≡ some (footer, body)
unfolding has_prefix cut_prefix ℕ_discrete
rendered_page_parts-render_page_parts body footer prefix l t =
    elim (==_cases (rendered_page_header footer) []) [
      | inl (q, b) ↦
          ap rendered_page_parts (render_plain body footer b)
          ∙ (parts_plain (content body footer) refl
              ∙ (ap (λ h. page_parts h (content body footer)) (sym q)
                  ∙ page_parts-render body footer prefix l t))
      | inr (q, b) ↦
          let (rest, (r, m)) = numbered_header footer l q in
          ap rendered_page_parts (render_numbered body footer b)
          ∙ (parts_numbered (rendered_page_header footer) (content body footer)
                (subst IsLine (sym r) (ground (arith, m)))
                (ap (λ h. has_prefix numbered_start (h ++ (newline ∷ content body footer))) r
                  ∙ refl)
              ∙ page_parts-render body footer prefix l t)
    ]
