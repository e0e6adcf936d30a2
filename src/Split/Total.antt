-- ===== src/Split/Total.antt =====
-- internal/panel/split.go: when a message is split.
use herdr_pal.Prelude.{
  ℕ, zero, suc, ◌+◌, ◌≤◌, ◌<◌, max, List, [], ◌∷◌, false, ◌||◌, none, some, ◌≡◌, refl, ap, ◌∙◌, ◌≢◌,
  inl, inr, arith, ◌==◌, ==_cases, nat_eq, ltb, leb, ltb→lt, Bool-cases, Option-cases, length,
  length-append,
}
use herdr_pal.Prelude.Decimal.{format_uint}
use herdr_pal.Prelude.Digits.{format_uint_le, format_uint_some}
use herdr_pal.Prelude.Text.{Text, text_eq, byte_len}
use herdr_pal.Split.Page.{render_page_parts, rendered_page_parts}
use herdr_pal.Split.Plain.{split_plain}
use herdr_pal.Split.Pieces.{IsPart}
use herdr_pal.Split.Bytes.{byte_len-ge, byte_len-payload, byte_len-render_page_parts}
use herdr_pal.Split.Whole.{joined, IsSplit, split_plain-IsSplit, split_plain_total}
use herdr_pal.Split.Limits.{pages_again, pages_done}
use herdr_pal.Split.Markdown.{
  wrap_rendered_parts, payload_limit, pages_from, split_rendered_page, split_markdown,
}

-- Every part has a character, so the parts are no more than the bytes.
length-joined :
    (limit : ℕ) (parts : List Text) → IsSplit limit parts → length parts ≤ length (joined parts)
unfolding IsSplit IsPart joined
length-joined limit [] s = omega arith
length-joined limit (part ∷ parts) s =
    rw (length-append part (joined parts)) (omega (arith, s.0.0.0, length-joined limit parts s.1))

payload_less :
    (footer : Text) (limit a b : ℕ)
    → a ≤ b
    → payload_limit footer limit b ≤ payload_limit footer limit a
payload_less footer limit a b l =
    omega (arith, l, byte_len-payload footer limit a, byte_len-payload footer limit b)

required_le :
    (footer body : Text) (limit digits : ℕ) (parts : List Text)
    → split_plain body (payload_limit footer limit digits) ≡ some parts
    → length (format_uint (length parts)) ≤ length (format_uint (max 1 (byte_len body)))
required_le footer body limit digits parts n =
    let split = split_plain-IsSplit body (payload_limit footer limit digits) parts n in
    format_uint_le (length parts) (max 1 (byte_len body)) (
      omega (
        arith,
        length-joined (payload_limit footer limit digits) parts split.1,
        ap length split.0,
        byte_len-ge body,
      ))

ltb_no : (a b : ℕ) → b ≤ a → ltb a b ≡ false
ltb_no a b l = ground (arith, l)

leb_no : (a b : ℕ) → leb a b ≡ false → ¬ (a ≤ b)
leb_no a b t l = ground (arith, t, l)

payload_le : (footer : Text) (limit digits : ℕ) → payload_limit footer limit digits ≤ limit
payload_le footer limit digits = omega (arith, byte_len-payload footer limit digits)

split_open :
    (content : Text) (limit : ℕ) → content ≢ [] → 4 ≤ limit → (content == [] || limit == 0) ≡ false
split_open content limit n l = ground (arith, n, l)

-- The rounds that splitRenderedPage has are enough.
pages_from_total :
    (fuel digits : ℕ) (footer body : Text) (limit : ℕ)
    → body ≢ []
    → digits ≤ length (format_uint (max 1 (byte_len body)))
    → length (format_uint (max 1 (byte_len body))) < digits + fuel
    → 4 ≤ payload_limit footer limit (length (format_uint (max 1 (byte_len body))))
    → (pages : List Text) × (pages_from fuel digits footer body limit ≡ some pages)
pages_from_total zero digits footer body limit n d f p = absurd (omega arith)
pages_from_total (suc fuel) digits footer body limit n d f p =
    let top : ℕ = length (format_uint (max 1 (byte_len body))) in
    let room : 4 ≤ payload_limit footer limit digits =
      omega (arith, p, payload_less footer limit digits top d) in
    let (parts, q) = split_plain_total body (payload_limit footer limit digits) n room in
    let required : ℕ = length (format_uint (length parts)) in
    let under : ltb top digits ≡ false = ltb_no top digits d in
    elim (Bool-cases (ltb digits required)) [
      | inl r ↦
          let (pages, e) =
            pages_from_total fuel required footer body limit n
              (required_le footer body limit digits parts q)
              (omega (arith, f, ltb→lt digits required r)) p in
          (pages, pages_again fuel digits footer body limit parts q under r ∙ e)
      | inr r ↦ (
        wrap_rendered_parts footer parts,
        pages_done fuel digits footer body limit parts q under r,
      )
    ]

-- A page without a body that leaves room for a part fits as a whole.
too_small :
    (footer body : Text) (limit digits : ℕ)
    → body ≡ []
    → 4 ≤ payload_limit footer limit digits
    → leb (byte_len (render_page_parts body footer)) limit ≢ false
unfolding byte_len
too_small footer body limit digits q p t =
    let none_left : byte_len body ≡ 0 = ap byte_len q in
    let size = byte_len-render_page_parts body footer in
    let payload = byte_len-payload footer limit digits in
    leb_no (byte_len (render_page_parts body footer)) limit t
      (omega (arith, none_left, size, payload, p))

split_rendered_page_total :
    (footer body : Text) (limit : ℕ)
    → 4 ≤ payload_limit footer limit (length (format_uint (max 1 (byte_len body))))
    → (pages : List Text) × (split_rendered_page footer body limit ≡ some pages)
unfolding split_rendered_page
split_rendered_page_total footer body limit p =
    let complete = render_page_parts body footer in
    elim (Bool-cases (leb (byte_len complete) limit)) [
      | inl t ↦ (complete ∷ [], rw t refl)
      | inr t ↦ elim (==_cases body []) [
        | inl (q, e) ↦
            absurd
              (too_small footer body limit (length (format_uint (max 1 (byte_len body)))) q p t)
        | inr (q, e) ↦
            let (pages, r) =
              pages_from_total (length (format_uint (max 1 (byte_len body)))) 1 footer body limit q
                (format_uint_some (max 1 (byte_len body))) (omega arith) p in
            (pages, rw (t, e) r)
      ]
    ]

-- The bytes that a part of the message has for its text.
unfoldable pub room : Text → ℕ → ℕ
room content limit = elim (rendered_page_parts content) [
  | none ↦ limit
  | some (footer, body) ↦ payload_limit footer limit (length (format_uint (max 1 (byte_len body))))
]

-- `SplitMarkdown` gives parts for every content that is not empty, if the limit leaves 4 bytes for
-- the text of a part; of a page this is what is left beside the marks, with numbers of as many
-- digits as the bytes of its body have.
pub split_markdown_total :
    (content : Text) (limit : ℕ)
    → content ≢ []
    → 4 ≤ room content limit
    → (pages : List Text) × (split_markdown content limit ≡ some pages)
unfolding split_markdown room
split_markdown_total content limit n p = elim (Option-cases (rendered_page_parts content)) [
  | inl o ↦
      let whole : 4 ≤ limit = ground (arith, o, p) in
      let (pages, r) = split_plain_total content limit n whole in
      (pages, rw (split_open content limit n whole, o) r)
  | inr ((footer, body), o) ↦
      let top : ℕ = length (format_uint (max 1 (byte_len body))) in
      let left : 4 ≤ payload_limit footer limit top = ground (arith, o, p) in
      let (pages, r) = split_rendered_page_total footer body limit left in
      (
        pages,
        rw (split_open content limit n (omega (arith, left, payload_le footer limit top)), o) r,
      )
]
