-- ===== src/Prelude/Sort.antt =====
-- `sort.Slice`: the list sorted by a strict order. Insertion keeps equal elements in their order.
use mathlib.Core.Bool.{Bool, ◌||◌}
use mathlib.Core.List.{List, [], ◌∷◌}
use mathlib.Core.List.{Perm}
use mathlib.Core.List.Perm
use herdr_pal.Prelude.Tests.{if◌then◌else◌, Bool-cases}
use herdr_pal.Prelude.Lists.{All, any, length}
use Prim.Native.Nat.{suc}
use mathlib.Core.Path.{◌≡◌, refl}
use native.Mathlib.Omega.{arith}
use mathlib.Core.Logic.{inl, inr}

module _ {ℓ} {A : Type ℓ} (less : A → A → Bool) where
  unfoldable pub insert_sorted : A → List A → List A
  insert_sorted x [] = x ∷ []
  insert_sorted x (y ∷ ys) = if less y x then y ∷ insert_sorted x ys else x ∷ y ∷ ys

  unfoldable pub sort : List A → List A
  unfolding insert_sorted
  sort [] = []
  sort (x ∷ xs) = insert_sorted x (sort xs)

  insert_sorted-perm : (x : A) (ys : List A) → Perm (insert_sorted x ys) (x ∷ ys)
  unfolding insert_sorted
  insert_sorted-perm x [] = Perm.rfl
  insert_sorted-perm x (y ∷ ys) = elim (Bool-cases (less y x)) [
    | inl e ↦
        rw (e, insert_sorted)
          (Perm.trans (Perm.cons y (insert_sorted-perm x ys)) (Perm.swap x y ys))
    | inr e ↦ rw (e, insert_sorted) Perm.rfl
  ]

  pub sort-perm : (xs : List A) → Perm (sort xs) xs
  unfolding sort
  sort-perm [] = Perm.rfl
  sort-perm (x ∷ xs) = Perm.trans (insert_sorted-perm x (sort xs)) (Perm.cons x (sort-perm xs))

  insert_sorted-All {κ} :
      (P : A → Type κ) (x : A) (ys : List A) → P x → All P ys → All P (insert_sorted x ys)
  unfolding insert_sorted
  insert_sorted-All P x [] h a = (h, tt)
  insert_sorted-All P x (y ∷ ys) h a = elim (Bool-cases (less y x)) [
    | inl e ↦ rw e (a.0, insert_sorted-All P x ys h a.1)
    | inr e ↦ rw e (h, a)
  ]

  pub sort-All {κ} : (P : A → Type κ) (xs : List A) → All P xs → All P (sort xs)
  unfolding sort
  sort-All P [] a = tt
  sort-All P (x ∷ xs) a = insert_sorted-All P x (sort xs) a.0 (sort-All P xs a.1)

  insert_sorted-any :
      (p : A → Bool) (x : A) (ys : List A) → any p (insert_sorted x ys) ≡ (p x || any p ys)
  unfolding insert_sorted
  insert_sorted-any p x [] = refl
  insert_sorted-any p x (y ∷ ys) = ground (arith, insert_sorted-any p x ys)

  pub sort-any : (p : A → Bool) (xs : List A) → any p (sort xs) ≡ any p xs
  unfolding sort
  sort-any p [] = refl
  sort-any p (x ∷ xs) = ground (arith, insert_sorted-any p x (sort xs), sort-any p xs)

  length-insert_sorted : (x : A) (ys : List A) → length (insert_sorted x ys) ≡ suc (length ys)
  unfolding insert_sorted
  length-insert_sorted x [] = refl
  length-insert_sorted x (y ∷ ys) = ground (arith, length-insert_sorted x ys)

  pub length-sort : (xs : List A) → length (sort xs) ≡ length xs
  unfolding sort
  length-sort [] = refl
  length-sort (x ∷ xs) = ground (arith, length-insert_sorted x (sort xs), length-sort xs)
