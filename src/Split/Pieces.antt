-- ===== src/Split/Pieces.antt =====
-- internal/panel/split.go: the parts that splitPlain cuts a text into.
use herdr_pal.Prelude.{
  ℕ, zero, suc, ◌+◌, ◌-◌, ◌≤◌, ◌<◌, [], ◌∷◌, Bool, true, false, none, some, ◌≡◌, refl, sym, ap, ◌∙◌,
  subst, ◌≢◌, ◌⊎◌, inl, inr, arith, ◌==◌, nat_eq, ltb, Bool-cases, Option-cases, length, take, drop,
  length-take, ltb→lt,
}
use herdr_pal.Prelude.Strings.{cut_prefix, has_prefix, last_index_of}
use herdr_pal.Prelude.Text.{Text, text_eq, rune_len, byte_len}
use herdr_pal.Split.Labels.{newline, IsLine}
use herdr_pal.Split.Plain.{fitting, part_length}

pub rune_len_pos : (c : ℕ) → 1 ≤ rune_len c
unfolding rune_len
rune_len_pos c = ground arith

pub rune_len_le : (c : ℕ) → rune_len c ≤ 4
unfolding rune_len
rune_len_le c = ground arith

length-fitting : (limit : ℕ) (s : Text) → length (fitting limit s) ≤ length s
unfolding fitting
length-fitting limit [] = ground arith
length-fitting limit (c ∷ s) = ground (arith, length-fitting (limit - rune_len c) s)

take-fitting : (limit : ℕ) (s : Text) → take (length (fitting limit s)) s ≡ fitting limit s
unfolding fitting
take-fitting limit [] = refl
take-fitting limit (c ∷ s) = ground (arith, take-fitting (limit - rune_len c) s)

byte_len-take :
    (limit n : ℕ) (s : Text) → n ≤ length (fitting limit s) → byte_len (take n s) ≤ limit
unfolding fitting byte_len
byte_len-take limit zero s l = ground arith
byte_len-take limit (suc n) [] l = ground arith
byte_len-take limit (suc n) (c ∷ s) l = ground (arith, l, byte_len-take (limit - rune_len c) n s)

fitting_pos : (limit : ℕ) (s : Text) → s ≢ [] → 4 ≤ limit → 1 ≤ length (fitting limit s)
unfolding fitting
fitting_pos limit [] n l = absurd (n refl)
fitting_pos limit (c ∷ s) n l = ground (arith, l, rune_len_le c)

-- The next character goes past the limit.
fitting_full :
    (limit : ℕ) (s : Text)
    → length (fitting limit s) < length s
    → limit < byte_len (fitting limit s) + byte_len (take 1 (drop (length (fitting limit s)) s))
unfolding fitting byte_len
fitting_full limit [] l = ground (arith, l)
fitting_full limit (c ∷ s) l = ground (arith, l, fitting_full (limit - rune_len c) s)

last_newline-lt : (s : Text) (i : ℕ) → last_index_of (newline ∷ []) s ≡ some i → i < length s
unfolding last_index_of
last_newline-lt [] i q = ground (arith, q)
last_newline-lt (c ∷ s) i q = elim (Option-cases (last_index_of (newline ∷ []) s)) [
  | inl n ↦ ground (arith, n, q)
  | inr (j, n) ↦ ground (arith, n, q, last_newline-lt s j n)
]

last_newline-none : (s : Text) → last_index_of (newline ∷ []) s ≡ none → IsLine s
unfolding last_index_of has_prefix cut_prefix
last_newline-none [] q = tt
last_newline-none (c ∷ s) q = elim (Option-cases (last_index_of (newline ∷ []) s)) [
  | inl n ↦ (λ e. ground (arith, n, q, e), last_newline-none s n)
  | inr (j, n) ↦ absurd (ground (arith, n, q))
]

-- The last character ends a line.
unfoldable pub ends_line : Text → Bool
ends_line [] = false
ends_line (c ∷ []) = c == newline
ends_line (c ∷ d ∷ s) = ends_line (d ∷ s)

ends_line-cons : (c : ℕ) (s : Text) → ends_line s ≡ true → ends_line (c ∷ s) ≡ true
unfolding ends_line
ends_line-cons c [] e = ground (arith, e)
ends_line-cons c (d ∷ s) e = e

last_newline-ends :
    (s : Text) (i : ℕ) → last_index_of (newline ∷ []) s ≡ some i → ends_line (take (suc i) s) ≡ true
unfolding last_index_of has_prefix cut_prefix ends_line
last_newline-ends [] i q = ground (arith, q)
last_newline-ends (c ∷ s) i q = elim (Option-cases (last_index_of (newline ∷ []) s)) [
  | inl n ↦ ground (arith, n, q)
  | inr (j, n) ↦
      let later : i ≡ suc j = ground (arith, n, q) in
      ap (λ k. ends_line (take (suc k) (c ∷ s))) later
      ∙ ends_line-cons c (take (suc j) s) (last_newline-ends s j n)
]

-- What the end of a part is, by the text after it: the content's own, a line's, or the last place
-- in a long line that the limit allows.
unfoldable pub Ends : ℕ → Text → Text → Type 0
Ends limit part rest =
    (rest ≡ [])
    ⊎ ((ends_line part ≡ true) ⊎ (IsLine part × (limit < byte_len part + byte_len (take 1 rest))))

unfoldable pub IsPart : ℕ → Text → Text → Type 0
IsPart limit part rest = ((1 ≤ length part) × (byte_len part ≤ limit)) × Ends limit part rest

take-take : (n m : ℕ) (s : Text) → n ≤ m → take n (take m s) ≡ take n s
take-take zero m s l = refl
take-take (suc n) zero s l = ground (arith, l)
take-take (suc n) (suc m) [] l = refl
take-take (suc n) (suc m) (c ∷ s) l = ap (λ t. c ∷ t) (take-take n m s (omega arith))

drop-all : (n : ℕ) (s : Text) → length s ≤ n → drop n s ≡ []
drop-all zero [] l = refl
drop-all zero (c ∷ s) l = ground (arith, l)
drop-all (suc n) [] l = refl
drop-all (suc n) (c ∷ s) l = drop-all n s (omega arith)

module _ (limit : ℕ) (s : Text) where
  abbrev fits : Text
  fits = fitting limit s

  IsPart-of :
      (n : ℕ)
      → part_length limit s ≡ n
      → 1 ≤ n
      → n ≤ length fits
      → Ends limit (take n s) (drop n s)
      → IsPart limit (take (part_length limit s) s) (drop (part_length limit s) s)
  unfolding IsPart
  IsPart-of n q p l e =
      subst (λ k. IsPart limit (take k s) (drop k s)) (sym q)
        (
          (
            (rw (length-take n s) (ground (arith, p, l, length-fitting limit s))),
            byte_len-take limit n s l,
          ),
          e,
        )

  size_line :
      (at : ℕ)
      → ltb (length fits) (length s) ≡ true
      → last_index_of (newline ∷ []) fits ≡ some at
      → part_length limit s ≡ suc at
  unfolding part_length
  size_line at l n = rw (l, n) (omega arith)

  size_long :
      ltb (length fits) (length s) ≡ true
      → last_index_of (newline ∷ []) fits ≡ none
      → part_length limit s ≡ length fits
  unfolding part_length
  size_long l n = rw (l, n) refl

  size_whole : ltb (length fits) (length s) ≡ false → part_length limit s ≡ length fits
  unfolding part_length
  size_whole l = rw l refl

  -- The next part of a text.
  pub take-IsPart :
      part_length limit s ≢ 0
      → IsPart limit (take (part_length limit s) s) (drop (part_length limit s) s)
  unfolding Ends
  take-IsPart p = elim (Bool-cases (ltb (length fits) (length s))) [
    | inl l ↦ elim (Option-cases (last_index_of (newline ∷ []) fits)) [
      | inl n ↦
          let q = size_long l n in
          IsPart-of (length fits) q (ground (arith, p, q)) (omega arith) (
            inr (
              inr (
                subst IsLine (sym (take-fitting limit s)) (last_newline-none fits n),
                subst (λ t. limit < byte_len t + byte_len (take 1 (drop (length fits) s)))
                    (sym (take-fitting limit s))
                    (fitting_full limit s (ltb→lt (length fits) (length s) l)),
              )))
      | inr (at, n) ↦
          let below = last_newline-lt fits at n in
          IsPart-of (suc at) (size_line at l n) (omega arith) (omega arith) (
            inr (
              inl (
                ap ends_line (
                  sym (take-take (suc at) (length fits) s (omega arith))
                  ∙ ap (take (suc at)) (take-fitting limit s))
                ∙ last_newline-ends fits at n)))
    ]
    | inr l ↦
        let q = size_whole l in
        IsPart-of (length fits) q (ground (arith, p, q)) (omega arith)
          (inl (drop-all (length fits) s (ground (arith, l))))
  ]

  -- Where the limit holds any character, the next part has one.
  pub part_length_pos : s ≢ [] → 4 ≤ limit → part_length limit s ≢ 0
  part_length_pos n l z = elim (Bool-cases (ltb (length fits) (length s))) [
    | inl b ↦ elim (Option-cases (last_index_of (newline ∷ []) fits)) [
      | inl o ↦ ground (arith, size_long b o, z, fitting_pos limit s n l)
      | inr (at, o) ↦ ground (arith, size_line at b o, z)
    ]
    | inr b ↦ ground (arith, size_whole b, z, fitting_pos limit s n l)
  ]
