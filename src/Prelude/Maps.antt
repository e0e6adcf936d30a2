-- ===== src/Prelude/Maps.antt =====
-- Go maps as association lists. The order of the list is one order in which `range` may run.
use mathlib.Core.Path.{◌≡◌, refl, subst}
use mathlib.Core.Logic.{◌≢◌, inl, inr}
use mathlib.Core.Bool.{Bool}
use mathlib.Core.List.{List, [], ◌∷◌}
use mathlib.Core.Option.{Option, none, some}
use native.Mathlib.Omega.{arith}
use herdr_pal.Prelude.Tests.{Eq, ◌==◌, ==_cases, Bool-cases, if◌then◌else◌}
use herdr_pal.Prelude.Lists.{All, All-weaken_both, Distinct, keep}

abbrev pub Map {ℓ κ} : Type ℓ → Type κ → Type (ℓ ⊔ κ)
Map K V = List (K × V)

module _ {ℓ κ} {K : Type ℓ} {V : Type κ} ⦃e : Eq K⦄ where
  -- `v, ok := m[k]`
  unfoldable pub lookup : K → Map K V → Option V
  lookup key [] = none
  lookup key ((own, found) ∷ rest) = if own == key then some found else lookup key rest

  -- `m[k] = v`
  unfoldable pub insert : K → V → Map K V → Map K V
  insert key value [] = (key, value) ∷ []
  insert key value ((own, old) ∷ rest) =
      if own == key then (key, value) ∷ rest else (own, old) ∷ insert key value rest

  -- `delete(m, k)`
  unfoldable pub delete : K → Map K V → Map K V
  delete k [] = []
  delete k ((j, w) ∷ m) = let rest = delete k m in if j == k then rest else (j, w) ∷ rest

  pub lookup-insert :
      (written read : K) (value : V) (m : Map K V)
      → lookup read (insert written value m)
        ≡ (if written == read then some value else lookup read m)
  unfolding lookup insert
  lookup-insert written read value [] = refl
  lookup-insert written read value ((own, old) ∷ m) =
      ground (arith, lookup-insert written read value m)

  pub lookup-insert_self : (k : K) (v : V) (m : Map K V) → lookup k (insert k v m) ≡ some v
  lookup-insert_self k v m = ground (arith, lookup-insert k k v m)

  pub lookup-delete :
      (k j : K) (m : Map K V) → lookup j (delete k m) ≡ (if k == j then none else lookup j m)
  unfolding lookup delete
  lookup-delete k j [] = ground arith
  lookup-delete k j ((i, w) ∷ m) = ground (arith, lookup-delete k j m)

  pub lookup-delete_self : (k : K) (m : Map K V) → lookup k (delete k m) ≡ none
  lookup-delete_self k m = ground (arith, lookup-delete k k m)

  -- Entries dropped by a test of the key alone.
  pub lookup-keep :
      (p : K → Bool) (j : K) (m : Map K V)
      → lookup j (keep (λ e. p e.0) m) ≡ (if p j then lookup j m else none)
  unfolding lookup
  lookup-keep p j [] = ground arith
  lookup-keep p j ((i, w) ∷ m) = ground (arith, lookup-keep p j m)

-- A Go map holds a key once.
abbrev pub IsMap {ℓ κ} : {K : Type ℓ} {V : Type κ} → Map K V → Type (ℓ ⊔ κ)
IsMap m = Distinct (λ e. e.0) m

module _ {ℓ κ} {K : Type ℓ} {V : Type κ} ⦃e : Eq K⦄ where
  module _ {μ} (P : K × V → Type μ) where
    pub All-insert : (k : K) (v : V) (m : Map K V) → P (k, v) → All P m → All P (insert k v m)
    unfolding insert
    All-insert k v [] h a = (h, tt)
    All-insert k v ((j, w) ∷ m) h a = elim (Bool-cases (j == k)) [
      | inl t ↦ rw t (h, a.1)
      | inr t ↦ rw t (a.0, All-insert k v m h a.1)
    ]

    pub All-delete : (k : K) (m : Map K V) → All P m → All P (delete k m)
    unfolding delete
    All-delete k [] a = tt
    All-delete k ((j, w) ∷ m) a = elim (Bool-cases (j == k)) [
      | inl t ↦ rw t (All-delete k m a.1)
      | inr t ↦ rw t (a.0, All-delete k m a.1)
    ]

  -- What holds of each entry holds of one that a read finds.
  pub lookup-All {μ} :
      (P : K × V → Type μ) (k : K) (v : V) (m : Map K V) → lookup k m ≡ some v → All P m → P (k, v)
  unfolding lookup
  lookup-All P k v [] f a = cc
  lookup-All P k v ((j, w) ∷ m) f a = elim (==_cases j k) [
    | inl (q, t) ↦ subst P (ground (arith, f, q, t)) a.0
    | inr (q, t) ↦ lookup-All P k v m (ground (arith, f, t)) a.1
  ]

  pub insert-IsMap : (k : K) (v : V) (m : Map K V) → IsMap m → IsMap (insert k v m)
  unfolding insert
  insert-IsMap k v [] a = (tt, tt)
  insert-IsMap k v ((j, w) ∷ m) a = elim (==_cases j k) [
    | inl (p, t) ↦ rw t (rw (← p) a.0, a.1)
    | inr (p, t) ↦ rw t (All-insert (λ y. j ≢ y.0) k v m p a.0, insert-IsMap k v m a.1)
  ]

  pub delete-IsMap : (k : K) (m : Map K V) → IsMap m → IsMap (delete k m)
  unfolding delete
  delete-IsMap k [] a = tt
  delete-IsMap k ((j, w) ∷ m) a = elim (Bool-cases (j == k)) [
    | inl t ↦ rw t (delete-IsMap k m a.1)
    | inr t ↦ rw t (All-delete (λ y. j ≢ y.0) k m a.0, delete-IsMap k m a.1)
  ]

  lookup-past :
      (j : K) (w : V) (m : Map K V) (y : K × V)
      → j ≢ y.0
      → lookup y.0 m ≡ some y.1
      → lookup y.0 ((j, w) ∷ m) ≡ some y.1
  unfolding lookup
  lookup-past j w m y n h = ground arith

  lookup-first : (j : K) (w : V) (m : Map K V) → lookup j ((j, w) ∷ m) ≡ some w
  unfolding lookup
  lookup-first j w m = ground arith

  -- Each entry that `range` yields is the one that a read of its key finds.
  pub lookup-own : (m : Map K V) → IsMap m → All (λ y. lookup y.0 m ≡ some y.1) m
  lookup-own [] a = tt
  lookup-own ((j, w) ∷ m) a =
      (lookup-first j w m, All-weaken_both _ _ _ (lookup-past j w m) m a.0 (lookup-own m a.1))
