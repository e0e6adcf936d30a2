-- ===== src/Split/Whole.antt =====
-- internal/panel/split.go: splitPlain and the text it cuts.
use herdr_pal.Prelude.{
  ℕ, zero, suc, ◌≤◌, List, [], ◌∷◌, ◌++◌, ◌||◌, some, ◌≡◌, refl, sym, ap, ◌∙◌, subst, ◌≢◌, inl, inr,
  arith, ◌==◌, ==_cases, nat_eq, Bool-cases, Option-cases, length, take, drop, take-append-drop,
  length-drop,
}
use herdr_pal.Prelude.Text.{Text, text_eq}
use herdr_pal.Split.Plain.{part_length, parts_from, split_plain}
use herdr_pal.Split.Pieces.{IsPart, take-IsPart, part_length_pos}

-- The text of the parts.
unfoldable pub joined : List Text → Text
joined [] = []
joined (part ∷ parts) = part ++ joined parts

-- Parts that are right one by one, each before the text of those after it.
unfoldable pub IsSplit : ℕ → List Text → Type 0
unfolding joined
IsSplit limit [] = Unit
IsSplit limit (part ∷ parts) = IsPart limit part (joined parts) × IsSplit limit parts

step_some :
    (fuel limit c : ℕ) (s : Text) (parts : List Text)
    → parts_from (suc fuel) limit (c ∷ s) ≡ some parts
    → (part_length limit (c ∷ s) ≢ 0)
      × ((rest : List Text) × ((parts_from fuel limit (drop (part_length limit (c ∷ s)) (c ∷ s))
              ≡ some rest)
            × (parts ≡ take (part_length limit (c ∷ s)) (c ∷ s) ∷ rest)))
unfolding parts_from
step_some fuel limit c s parts q = elim (==_cases (part_length limit (c ∷ s)) 0) [
  | inl (z, b) ↦ absurd (ground (arith, b, q))
  | inr (z, b) ↦
      elim (Option-cases (parts_from fuel limit (drop (part_length limit (c ∷ s)) (c ∷ s)))) [
        | inl n ↦ absurd (ground (arith, b, n, q))
        | inr (rest, r) ↦ (z, (rest, (r, ground (arith, b, r, q))))
      ]
]

parts_from-IsSplit :
    (fuel limit : ℕ) (s : Text) (parts : List Text)
    → parts_from fuel limit s ≡ some parts
    → (joined parts ≡ s) × IsSplit limit parts
unfolding parts_from joined IsSplit
parts_from-IsSplit fuel limit [] parts q =
    let nil : [] ≡ parts = ground (arith, q) in
    subst (λ x. (joined x ≡ []) × IsSplit limit x) nil (refl, tt)
parts_from-IsSplit zero limit (c ∷ s) parts q = absurd (ground (arith, q))
parts_from-IsSplit (suc fuel) limit (c ∷ s) parts q =
    let (p, (rest, (r, e))) = step_some fuel limit c s parts q in
    let size = part_length limit (c ∷ s) in
    let (text, right) = parts_from-IsSplit fuel limit (drop size (c ∷ s)) rest r in
    subst (λ x. (joined x ≡ c ∷ s) × IsSplit limit x) (sym e)
      (
        ap (λ t. take size (c ∷ s) ++ t) text ∙ take-append-drop size (c ∷ s),
        (
          subst (λ t. IsPart limit (take size (c ∷ s)) t) (sym text) (take-IsPart limit (c ∷ s) p),
          right,
        ),
      )

parts_from_total :
    (fuel limit : ℕ) (s : Text)
    → 4 ≤ limit
    → length s ≤ fuel
    → (parts : List Text) × (parts_from fuel limit s ≡ some parts)
unfolding parts_from
parts_from_total fuel limit [] l f = ([], refl)
parts_from_total zero limit (c ∷ s) l f = absurd (omega arith)
parts_from_total (suc fuel) limit (c ∷ s) l f =
    let size = part_length limit (c ∷ s) in
    let p : size ≢ 0 = part_length_pos limit (c ∷ s) (λ e. cc) l in
    let (rest, r) =
      parts_from_total fuel limit (drop size (c ∷ s)) l
        (rw (length-drop size (c ∷ s)) (ground (arith, p, f))) in
    (take size (c ∷ s) ∷ rest, ground (arith, p, r))

-- The parts that `splitPlain` gives join to the content, and each has a character, is within the
-- limit, and ends with the content, with a line, or, where it has no end of line, at the last
-- place that the limit allows.
pub split_plain-IsSplit :
    (content : Text) (limit : ℕ) (parts : List Text)
    → split_plain content limit ≡ some parts
    → (joined parts ≡ content) × IsSplit limit parts
unfolding split_plain
split_plain-IsSplit content limit parts q = elim (Bool-cases (content == [] || limit == 0)) [
  | inl b ↦ absurd (ground (arith, b, q))
  | inr b ↦ parts_from-IsSplit (length content) limit content parts (ground (arith, b, q))
]

pub split_plain_total :
    (content : Text) (limit : ℕ)
    → content ≢ []
    → 4 ≤ limit
    → (parts : List Text) × (split_plain content limit ≡ some parts)
unfolding split_plain
split_plain_total content limit n l =
    let (parts, r) = parts_from_total (length content) limit content l (omega arith) in
    (parts, ground (arith, n, l, r))
