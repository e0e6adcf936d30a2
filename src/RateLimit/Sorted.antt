-- ===== src/RateLimit/Sorted.antt =====
-- internal/server/rate_limiter.go: the sorted times in `windowRetry`.
use herdr_pal.Prelude.{
  ℕ, zero, suc, ◌+◌, ◌≡◌, ◌<◌, ◌≤◌, refl, List, [], ◌∷◌, Bool, some, ltb, length, length-keep-le,
  keep, All, All-weaken, get_elem?, arith, Bool-cases, inl, inr,
}
use herdr_pal.Prelude.Sort.{sort, insert_sorted}

abbrev pub Ascending : List ℕ → Type 0
Ascending [] = Unit
Ascending (x ∷ xs) = All (λ y. x ≤ y) xs × Ascending xs

All-insert_sorted :
    (k x : ℕ) (ys : List ℕ)
    → k ≤ x
    → All (λ y. k ≤ y) ys
    → All (λ y. k ≤ y) (insert_sorted ltb x ys)
unfolding insert_sorted
All-insert_sorted k x [] h a = (h, tt)
All-insert_sorted k x (y ∷ ys) h a = elim (Bool-cases (ltb y x)) [
  | inl e ↦ rw e (a.0, All-insert_sorted k x ys h a.1)
  | inr e ↦ rw e (h, a)
]

Ascending-insert_sorted : (x : ℕ) (ys : List ℕ) → Ascending ys → Ascending (insert_sorted ltb x ys)
unfolding insert_sorted
Ascending-insert_sorted x [] a = (tt, tt)
Ascending-insert_sorted x (y ∷ ys) a = elim (Bool-cases (ltb y x)) [
  | inl e ↦
      rw e (All-insert_sorted y x ys (ground (arith, e)) a.0, Ascending-insert_sorted x ys a.1)
  | inr e ↦ rw e (
    (
      ground (arith, e),
      All-weaken (λ z. y ≤ z) (λ z. x ≤ z) (λ z le. ground (arith, e, le)) ys a.0,
    ),
    a,
  )
]

pub Ascending-sort : (xs : List ℕ) → Ascending (sort ltb xs)
unfolding sort
Ascending-sort [] = tt
Ascending-sort (x ∷ xs) = Ascending-insert_sorted x (sort ltb xs) (Ascending-sort xs)

length-keep-insert_sorted :
    (p : ℕ → Bool) (x : ℕ) (ys : List ℕ)
    → length (keep p (insert_sorted ltb x ys)) ≡ length (keep p (x ∷ ys))
unfolding insert_sorted
length-keep-insert_sorted p x [] = refl
length-keep-insert_sorted p x (y ∷ ys) = ground (arith, length-keep-insert_sorted p x ys)

pub length-keep-sort :
    (p : ℕ → Bool) (xs : List ℕ) → length (keep p (sort ltb xs)) ≡ length (keep p xs)
unfolding sort
length-keep-sort p [] = refl
length-keep-sort p (x ∷ xs) =
    ground (arith, length-keep-insert_sorted p x (sort ltb xs), length-keep-sort p xs)

-- At most the elements after a place exceed the element at that place.
pub length-keep-after :
    (xs : List ℕ) (i x : ℕ)
    → Ascending xs
    → get_elem? xs i ≡ some x
    → i + length (keep (ltb x) xs) < length xs
length-keep-after [] i x a e = cc
length-keep-after (y ∷ ys) zero x a e = ground (arith, e, length-keep-le {0} (ltb x) ys)
length-keep-after (y ∷ ys) (suc i) x a e =
    let le : y ≤ x = at ys i a.0 e in ground (arith, le, length-keep-after ys i x a.1 e)
  where
    at : (zs : List ℕ) (j : ℕ) → All (λ z. y ≤ z) zs → get_elem? zs j ≡ some x → y ≤ x
    at [] j b f = cc
    at (z ∷ zs) zero b f = ground (arith, b.0, f)
    at (z ∷ zs) (suc j) b f = at zs j b.1 f
