-- ===== src/Panel/Anchor.antt =====
-- internal/panel/buffer.go: `lastContiguousIndex` finds the last place where the cache occurs.
use herdr_pal.Prelude.{
  ℕ, zero, suc, ◌+◌, ◌-◌, ◌≡◌, ◌<◌, ◌≤◌, List, [], ◌∷◌, true, false, Option, none, some, arith,
  length, drop, length-drop, ==_cases, ltb, ◌||◌, subst, sym, nat_eq, Bool-cases, inl, inr, ◌==◌,
}
use herdr_pal.Panel.Buffer.{Line, starts_with, search_down, last_contiguous_index}

-- The texts of `anchor` stand in the snapshot from this index on.
abbrev pub OccursAt : List Line → List Line → ℕ → Type 0
OccursAt snapshot anchor i = starts_with anchor (drop i snapshot) ≡ true

starts_with-length :
    (anchor ls : List Line) → starts_with anchor ls ≡ true → length anchor ≤ length ls
unfolding starts_with
starts_with-length [] ls h = omega arith
starts_with-length (a ∷ anchor) [] h = cc
starts_with-length (a ∷ anchor) (l ∷ ls) h = ground (arith, starts_with-length anchor ls)

OccursAt-bound :
    (snapshot anchor : List Line) (i : ℕ)
    → 0 < length anchor
    → OccursAt snapshot anchor i
    → i + length anchor ≤ length snapshot
OccursAt-bound snapshot anchor i pos h =
    omega (arith, starts_with-length anchor (drop i snapshot) h, length-drop i snapshot)

-- The last index up to `n`, or none.
abbrev pub LastUpTo : List Line → List Line → ℕ → Option ℕ → Type 0
LastUpTo snapshot anchor n none = (j : ℕ) → j ≤ n → ¬ OccursAt snapshot anchor j
LastUpTo snapshot anchor n (some i) =
    (i ≤ n) × OccursAt snapshot anchor i × ((j : ℕ) → i < j → j ≤ n → ¬ OccursAt snapshot anchor j)

below_top :
    (snapshot anchor : List Line) (k j : ℕ)
    → starts_with anchor (drop k snapshot) ≡ false
    → j ≤ k
    → OccursAt snapshot anchor j
    → j < k
below_top snapshot anchor k j f le o = elim (==_cases j k) [
  | inl (same, _) ↦ absurd (subst (λ i. ¬ OccursAt snapshot anchor i) (sym same) (λ t. cc) o)
  | inr (other, _) ↦ omega arith
]

LastUpTo-suc :
    (snapshot anchor : List Line) (n : ℕ) (r : Option ℕ)
    → starts_with anchor (drop (suc n) snapshot) ≡ false
    → LastUpTo snapshot anchor n r
    → LastUpTo snapshot anchor (suc n) r
LastUpTo-suc snapshot anchor n none f h =
    λ j le o. h j (omega (arith, below_top snapshot anchor (suc n) j f le o)) o
LastUpTo-suc snapshot anchor n (some i) f h = (
  omega (arith, h.0),
  h.1,
  λ j lt le o. h.2 j lt (omega (arith, below_top snapshot anchor (suc n) j f le o)) o,
)

search_down-LastUpTo :
    (snapshot anchor : List Line) (n : ℕ)
    → LastUpTo snapshot anchor n (search_down snapshot anchor n)
unfolding search_down
search_down-LastUpTo snapshot anchor zero = elim (Bool-cases (starts_with anchor snapshot)) [
  | inl e ↦ rw e (omega arith, e, λ j lt le. absurd (omega arith))
  | inr e ↦ rw e (λ j le o. elim (below_top snapshot anchor 0 j e le o) [ ])
]
search_down-LastUpTo snapshot anchor (suc n) =
    elim (Bool-cases (starts_with anchor (drop (suc n) snapshot))) [
      | inl e ↦ rw e (omega arith, e, λ j lt le. absurd (omega arith))
      | inr e ↦ rw e (LastUpTo-suc snapshot anchor n _ e (search_down-LastUpTo snapshot anchor n))
    ]

-- The last index, or none where there is no index.
abbrev pub IsLastIndex : List Line → List Line → Option ℕ → Type 0
IsLastIndex snapshot anchor none = (j : ℕ) → ¬ OccursAt snapshot anchor j
IsLastIndex snapshot anchor (some i) =
    OccursAt snapshot anchor i × ((j : ℕ) → i < j → ¬ OccursAt snapshot anchor j)

IsLastIndex-of :
    (snapshot anchor : List Line) (r : Option ℕ)
    → 0 < length anchor
    → length anchor ≤ length snapshot
    → LastUpTo snapshot anchor (length snapshot - length anchor) r
    → IsLastIndex snapshot anchor r
IsLastIndex-of snapshot anchor none pos fits h =
    λ j o. h j (omega (arith, OccursAt-bound snapshot anchor j pos o)) o
IsLastIndex-of snapshot anchor (some i) pos fits h =
    (h.1, λ j lt o. h.2 j lt (omega (arith, OccursAt-bound snapshot anchor j pos o)) o)

-- For an anchor that is not empty: `lastContiguousIndex` gives an index exactly when the texts of
-- the anchor occur in the snapshot, and then the last index at which they do.
pub last_contiguous_index-IsLastIndex :
    (snapshot anchor : List Line)
    → 0 < length anchor
    → IsLastIndex snapshot anchor (last_contiguous_index snapshot anchor)
unfolding last_contiguous_index
last_contiguous_index-IsLastIndex snapshot anchor pos =
    elim (Bool-cases (length anchor == 0 || ltb (length snapshot) (length anchor))) [
      | inl short ↦ rw short (λ j o. ground (arith, OccursAt-bound snapshot anchor j pos o))
      | inr fits ↦ rw fits (
          IsLastIndex-of snapshot anchor _ pos (ground arith)
            (search_down-LastUpTo snapshot anchor _))
    ]
