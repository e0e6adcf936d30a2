-- ===== src/Split/Limits.antt =====
-- internal/panel/split.go: the bytes of every part of a message.
use herdr_pal.Prelude.{
  ℕ, zero, suc, ◌+◌, ◌≤◌, max, List, [], ◌∷◌, true, false, ◌||◌, none, some, ◌≡◌, refl, sym, ◌∙◌,
  subst, ◌≢◌, inl, inr, arith, ◌==◌, nat_eq, ltb, leb, leb→le, Bool-cases, Option-cases, All,
  All-weaken, length,
}
use herdr_pal.Prelude.Decimal.{format_uint}
use herdr_pal.Prelude.Digits.{format_uint_le}
use herdr_pal.Prelude.Text.{Text, text_eq, byte_len}
use herdr_pal.Split.Page.{render_page_parts, rendered_page_parts}
use herdr_pal.Split.Plain.{split_plain}
use herdr_pal.Split.Pieces.{IsPart}
use herdr_pal.Split.Bytes.{byte_len-ge, byte_len-payload, byte_len-wrapped}
use herdr_pal.Split.Whole.{IsSplit, split_plain-IsSplit}
use herdr_pal.Split.Markdown.{
  wrapped, wrap_from, wrap_rendered_parts, payload_limit, pages_from, split_rendered_page,
  split_markdown,
}

abbrev pub Fits : ℕ → Text → Type 0
Fits limit s = byte_len s ≤ limit

-- A part within the payload, with numbers of no more digits than were set aside.
wrapped-Fits :
    (footer part : Text) (limit digits number count : ℕ)
    → 1 ≤ byte_len part
    → byte_len part ≤ payload_limit footer limit digits
    → length (format_uint number) ≤ digits
    → length (format_uint count) ≤ digits
    → Fits limit (wrapped footer number count part)
wrapped-Fits footer part limit digits number count p l a b =
    let payload = byte_len-payload footer limit digits in
    rw (byte_len-wrapped footer part number count) (omega (arith, payload))

wrap_from-Fits :
    (footer : Text) (limit digits number count : ℕ) (parts : List Text)
    → All (λ part. (1 ≤ byte_len part) × (byte_len part ≤ payload_limit footer limit digits)) parts
    → number + length parts ≤ count + 1
    → length (format_uint count) ≤ digits
    → All (Fits limit) (wrap_from footer number count parts)
unfolding wrap_from
wrap_from-Fits footer limit digits number count [] a n d = tt
wrap_from-Fits footer limit digits number count (part ∷ parts) a n d =
    let small : length (format_uint number) ≤ length (format_uint count) =
      format_uint_le number count (omega arith) in
    (
      wrapped-Fits footer part limit digits number count a.0.0 a.0.1 (omega arith) d,
      wrap_from-Fits footer limit digits (number + 1) count parts a.1 (omega arith) d,
    )

-- The parts of a text, by their bytes.
IsSplit-All :
    (limit : ℕ) (parts : List Text)
    → IsSplit limit parts
    → All (λ part. (1 ≤ byte_len part) × (byte_len part ≤ limit)) parts
unfolding IsSplit IsPart
IsSplit-All limit [] s = tt
IsSplit-All limit (part ∷ parts) s =
    ((omega (arith, s.0.0.0, byte_len-ge part), s.0.0.1), IsSplit-All limit parts s.1)

none_apart : (pages : List Text) → none ≢ some pages
none_apart pages q = ground (arith, q)

some_same : {a b : List Text} → some a ≡ some b → a ≡ b
some_same q = ground (arith, q)

not_ltb : (a b : ℕ) → ltb a b ≡ false → b ≤ a
not_ltb a b q = ground (arith, q)

module _ (fuel digits : ℕ) (footer body : Text) (limit : ℕ) where
  abbrev pub most : ℕ
  most = length (format_uint (max 1 (byte_len body)))

  module _ (parts : List Text)
      (n : split_plain body (payload_limit footer limit digits) ≡ some parts) where
    pub pages_over : ltb most digits ≡ true → pages_from (suc fuel) digits footer body limit ≡ none
    unfolding pages_from
    pages_over t = rw (n, t, pages_from) refl

    pub pages_again :
        ltb most digits ≡ false
        → ltb digits (length (format_uint (length parts))) ≡ true
        → pages_from (suc fuel) digits footer body limit
          ≡ pages_from fuel (length (format_uint (length parts))) footer body limit
    unfolding pages_from
    pages_again t r = rw (n, t, r, pages_from) refl

    pub pages_done :
        ltb most digits ≡ false
        → ltb digits (length (format_uint (length parts))) ≡ false
        → pages_from (suc fuel) digits footer body limit ≡ some (wrap_rendered_parts footer parts)
    unfolding pages_from
    pages_done t r = rw (n, t, r, pages_from) refl

  pages_none :
      split_plain body (payload_limit footer limit digits) ≡ none
      → pages_from (suc fuel) digits footer body limit ≡ none
  unfolding pages_from
  pages_none n = rw (n, pages_from) refl

wrap_rendered_parts-Fits :
    (footer body : Text) (limit digits : ℕ) (parts : List Text)
    → split_plain body (payload_limit footer limit digits) ≡ some parts
    → ltb digits (length (format_uint (length parts))) ≡ false
    → All (Fits limit) (wrap_rendered_parts footer parts)
unfolding wrap_rendered_parts
wrap_rendered_parts-Fits footer body limit digits parts n r =
    let split = split_plain-IsSplit body (payload_limit footer limit digits) parts n in
    wrap_from-Fits footer limit digits 1 (length parts) parts
      (IsSplit-All (payload_limit footer limit digits) parts split.1) (omega arith)
      (not_ltb digits (length (format_uint (length parts))) r)

pages_from-Fits :
    (fuel digits : ℕ) (footer body : Text) (limit : ℕ) (pages : List Text)
    → pages_from fuel digits footer body limit ≡ some pages
    → All (Fits limit) pages
unfolding pages_from
pages_from-Fits zero digits footer body limit pages q = absurd (ground (arith, q))
pages_from-Fits (suc fuel) digits footer body limit pages q =
    elim (Option-cases (split_plain body (payload_limit footer limit digits))) [
      | inl n ↦ absurd (none_apart pages (sym (pages_none fuel digits footer body limit n) ∙ q))
      | inr (parts, n) ↦
          let required : ℕ = length (format_uint (length parts)) in
          elim (Bool-cases (ltb (most fuel digits footer body limit) digits)) [
            | inl t ↦
                absurd
                  (none_apart pages (sym (pages_over fuel digits footer body limit parts n t) ∙ q))
            | inr t ↦ elim (Bool-cases (ltb digits required)) [
              | inl r ↦
                  pages_from-Fits fuel required footer body limit pages
                    (sym (pages_again fuel digits footer body limit parts n t r) ∙ q)
              | inr r ↦
                  subst (All (Fits limit))
                    (some_same (sym (pages_done fuel digits footer body limit parts n t r) ∙ q))
                    (wrap_rendered_parts-Fits footer body limit digits parts n r)
            ]
          ]
    ]

split_rendered_page-Fits :
    (footer body : Text) (limit : ℕ) (pages : List Text)
    → split_rendered_page footer body limit ≡ some pages
    → All (Fits limit) pages
unfolding split_rendered_page
split_rendered_page-Fits footer body limit pages q =
    let complete = render_page_parts body footer in
    elim (Bool-cases (leb (byte_len complete) limit)) [
      | inl t ↦
          let one : split_rendered_page footer body limit ≡ some (complete ∷ []) = rw t refl in
          subst (All (Fits limit)) (some_same (sym one ∙ q))
            (leb→le (byte_len complete) limit t, tt)
      | inr t ↦ elim (Bool-cases (body == [])) [
        | inl e ↦
            let no : split_rendered_page footer body limit ≡ none = rw (t, e) refl in
            absurd (none_apart pages (sym no ∙ q))
        | inr e ↦
            let many : split_rendered_page footer body limit
                ≡ pages_from (length (format_uint (max 1 (byte_len body)))) 1 footer body limit =
              rw (t, e) refl in
            pages_from-Fits (length (format_uint (max 1 (byte_len body)))) 1 footer body limit pages
              (sym many ∙ q)
      ]
    ]

-- Every part that `SplitMarkdown` gives has at most as many bytes as the limit, the header, the
-- code fence, the numbers of the part and the footer of a page included.
pub split_markdown-Fits :
    (content : Text) (limit : ℕ) (pages : List Text)
    → split_markdown content limit ≡ some pages
    → All (Fits limit) pages
unfolding split_markdown
split_markdown-Fits content limit pages q = elim (Bool-cases (content == [] || limit == 0)) [
  | inl b ↦
      let no : split_markdown content limit ≡ none = rw b refl in
      absurd (none_apart pages (sym no ∙ q))
  | inr b ↦ elim (Option-cases (rendered_page_parts content)) [
    | inl n ↦
        let plain : split_markdown content limit ≡ split_plain content limit = rw (b, n) refl in
        All-weaken (λ part. (1 ≤ byte_len part) × (byte_len part ≤ limit)) (Fits limit)
          (λ part f. f.1) pages
          (IsSplit-All limit pages (split_plain-IsSplit content limit pages (sym plain ∙ q)).1)
    | inr ((footer, body), n) ↦
        let page : split_markdown content limit ≡ split_rendered_page footer body limit =
          rw (b, n) refl in
        split_rendered_page-Fits footer body limit pages (sym page ∙ q)
  ]
]
