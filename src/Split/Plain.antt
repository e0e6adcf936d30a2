-- ===== src/Split/Plain.antt =====
-- internal/panel/split.go: a text without a page's marks, cut at ends of lines.
use herdr_pal.Prelude.{
  ℕ, zero, suc, ◌+◌, ◌-◌, List, [], ◌∷◌, ◌||◌, Option, none, some, ◌==◌, nat_eq, leb, ltb,
  if◌then◌else◌, length, take, drop,
}
use herdr_pal.Prelude.Strings.{last_index_of}
use herdr_pal.Prelude.Text.{Text, text_eq, rune_len}
use herdr_pal.Split.Labels.{newline}

-- The longest start of a text that the limit holds: `end` moved back to the start of a character.
unfoldable pub fitting : ℕ → Text → Text
unfolding rune_len
fitting limit [] = []
fitting limit (c ∷ s) =
    let rest = fitting (limit - rune_len c) s in if leb (rune_len c) limit then c ∷ rest else []

-- The characters of the next part, 0 where the next character does not fit.
unfoldable pub part_length : ℕ → Text → ℕ
unfolding fitting last_index_of
part_length limit s =
    let fits = fitting limit s in
    if ltb (length fits) (length s)
    then elim (last_index_of (newline ∷ []) fits) [ none ↦ length fits | some at ↦ at + 1 ]
    else length fits

abbrev pub cons_part : Text → Option (List Text) → Option (List Text)
cons_part part none = none
cons_part part (some parts) = some (part ∷ parts)

-- The loop of `splitPlain`. Each round takes a character at least.
unfoldable pub parts_from : ℕ → ℕ → Text → Option (List Text)
unfolding part_length
parts_from fuel limit [] = some []
parts_from zero limit (c ∷ s) = none
parts_from (suc fuel) limit (c ∷ s) =
    let size = part_length limit (c ∷ s) in
    let rest = parts_from fuel limit (drop size (c ∷ s)) in
    if size == 0 then none else cons_part (take size (c ∷ s)) rest

-- `splitPlain`
unfoldable pub split_plain : Text → ℕ → Option (List Text)
unfolding parts_from
split_plain content limit =
    if content == [] || limit == 0 then none else parts_from (length content) limit content
