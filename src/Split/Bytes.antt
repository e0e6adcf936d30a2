-- ===== src/Split/Bytes.antt =====
-- internal/panel/split.go: the bytes of the marks of a page.
use herdr_pal.Prelude.{
  ℕ, zero, suc, ◌+◌, ◌-◌, ◌≤◌, [], ◌∷◌, ◌++◌, ◌≡◌, refl, ap, ◌∙◌, inl, inr, arith, ==_cases, nat_eq,
  length,
}
use herdr_pal.Prelude.Decimal.{format_uint}
use herdr_pal.Prelude.Digits.{byte_len-format_uint, byte_len-append}
use herdr_pal.Prelude.Text.{Text, text_eq, codes, rune_len, byte_len}
use herdr_pal.Split.Pieces.{rune_len_pos}
use herdr_pal.Split.Labels.{newline}
use herdr_pal.Split.Page.{
  rendered_page_header, code_fence_open, code_fence_close, render_page_parts,
}
use herdr_pal.Split.Rendered.{append_assoc, content, render_plain, render_numbered}
use herdr_pal.Split.Markdown.{nines, marker, header_line, wrapped, payload_limit}

byte_len-nines : (n : ℕ) → byte_len (nines n) ≡ n
unfolding byte_len nines rune_len
byte_len-nines zero = refl
byte_len-nines (suc n) = ground (arith, byte_len-nines n)

byte_len-marker : (a b : Text) → byte_len (marker a b) ≡ 13 + byte_len a + byte_len b
unfolding byte_len rune_len
byte_len-marker a b =
    byte_len-append (newline ∷ codes "[分段] [") (a ++ (codes "/" ++ (b ++ codes "]")))
    ∙ rw (byte_len-append a (codes "/" ++ (b ++ codes "]")), byte_len-append b (codes "]"))
        (omega arith)

byte_len-pieces :
    (a b c d e f : Text)
    → byte_len (a ++ (b ++ (c ++ (d ++ (e ++ f)))))
      ≡ byte_len a + (byte_len b + (byte_len c + (byte_len d + (byte_len e + byte_len f))))
byte_len-pieces a b c d e f =
    byte_len-append a (b ++ (c ++ (d ++ (e ++ f))))
    ∙ ap (λ n. byte_len a + n)
        (byte_len-append b (c ++ (d ++ (e ++ f)))
          ∙ ap (λ n. byte_len b + n)
              (byte_len-append c (d ++ (e ++ f))
                ∙ ap (λ n. byte_len c + n)
                    (byte_len-append d (e ++ f) ∙ ap (λ n. byte_len d + n) (byte_len-append e f))))

pub open_bytes : byte_len code_fence_open ≡ 4
unfolding byte_len
open_bytes = refl

pub close_bytes : byte_len code_fence_close ≡ 4
unfolding byte_len
close_bytes = refl

pub byte_len-next : (s : Text) → byte_len (newline ∷ s) ≡ 1 + byte_len s
unfolding byte_len
byte_len-next s = refl

wrapped_text :
    (footer part : Text) (number count : ℕ)
    → wrapped footer number count part
      ≡ header_line footer
        ++ (code_fence_open
            ++ (part
                ++ (code_fence_close
                    ++ (marker (format_uint number) (format_uint count) ++ (newline ∷ footer)))))
unfolding wrapped
wrapped_text footer part number count = refl

pub byte_len-wrapped :
    (footer part : Text) (number count : ℕ)
    → byte_len (wrapped footer number count part)
      ≡ byte_len (header_line footer)
        + (22
            + byte_len part
            + length (format_uint number)
            + length (format_uint count)
            + byte_len footer)
byte_len-wrapped footer part number count =
    ap byte_len (wrapped_text footer part number count)
    ∙ byte_len-pieces (header_line footer) code_fence_open part code_fence_close
        (marker (format_uint number) (format_uint count)) (newline ∷ footer)
    ∙ rw
        (
          open_bytes,
          close_bytes,
          byte_len-marker (format_uint number) (format_uint count),
          byte_len-format_uint number,
          byte_len-format_uint count,
          byte_len-next footer,
        )
        (omega arith)

payload_text :
    (footer : Text) (limit digits : ℕ)
    → payload_limit footer limit digits
      ≡ limit
        - byte_len (header_line footer)
        - byte_len code_fence_open
        - byte_len code_fence_close
        - byte_len (marker (nines digits) (nines digits))
        - 1
        - byte_len footer
unfolding payload_limit
payload_text footer limit digits = refl

pub byte_len-payload :
    (footer : Text) (limit digits : ℕ)
    → payload_limit footer limit digits
      ≡ limit - (byte_len (header_line footer) + 22 + digits + digits + byte_len footer)
byte_len-payload footer limit digits =
    payload_text footer limit digits
    ∙ rw
        (
          open_bytes,
          close_bytes,
          byte_len-marker (nines digits) (nines digits),
          byte_len-nines digits,
        )
        (omega arith)

pub byte_len-ge : (s : Text) → length s ≤ byte_len s
unfolding byte_len
byte_len-ge [] = omega arith
byte_len-ge (c ∷ s) = omega (arith, rune_len_pos c, byte_len-ge s)

empty_bytes : byte_len [] ≡ 0
unfolding byte_len
empty_bytes = refl

render_text :
    (body footer : Text)
    → render_page_parts body footer
      ≡ header_line footer
        ++ (code_fence_open ++ (body ++ (code_fence_close ++ (newline ∷ footer))))
unfolding header_line
render_text body footer = elim (==_cases (rendered_page_header footer) []) [
  | inl (q, b) ↦ render_plain body footer b ∙ rw b refl
  | inr (q, b) ↦
      render_numbered body footer b
      ∙ (append_assoc (rendered_page_header footer) (newline ∷ []) (content body footer)
          ∙ rw b refl)
]

pub byte_len-render_page_parts :
    (body footer : Text)
    → byte_len (render_page_parts body footer)
      ≡ byte_len (header_line footer) + (9 + byte_len body + byte_len footer)
byte_len-render_page_parts body footer =
    ap byte_len (render_text body footer)
    ∙ byte_len-pieces (header_line footer) code_fence_open body code_fence_close (newline ∷ [])
        footer
    ∙ rw (open_bytes, close_bytes, byte_len-next []) (omega (arith, empty_bytes))
