-- ===== src/Prelude/Unique.antt =====
-- Maps in which a test of the values holds once at most.
use mathlib.Core.Path.{◌≡◌, refl, sym, ap, ◌∙◌, subst}
use mathlib.Core.Logic.{◌≢◌, inl, inr}
use mathlib.Core.Bool.{Bool, true, false, ◌&&◌, ◌||◌, not}
use mathlib.Core.List.{[], ◌∷◌}
use mathlib.Core.Option.{none, some}
use native.Mathlib.Omega.{arith}
use herdr_pal.Prelude.Tests.{Eq, ◌==◌, ==_cases, Bool-cases}
use herdr_pal.Prelude.Lists.{All, any}
use herdr_pal.Prelude.Maps.{Map, IsMap, lookup, insert, delete}

module _ {ℓ κ} {K : Type ℓ} {V : Type κ} where
  -- Some value passes.
  abbrev pub has : (V → Bool) → Map K V → Bool
  has p m = any (λ e. p e.1) m

  abbrev pub AtMostOnce : (V → Bool) → Map K V → Type 0
  AtMostOnce p [] = Unit
  AtMostOnce p (e ∷ m) = (p e.1 ≡ true → has p m ≡ false) × AtMostOnce p m

module _ {ℓ κ} {K : Type ℓ} {V : Type κ} ⦃e : Eq K⦄ where
  pub delete-absent : (k : K) (m : Map K V) → All (λ y. k ≢ y.0) m → delete k m ≡ m
  unfolding delete
  delete-absent k [] a = refl
  delete-absent k ((j, w) ∷ m) a = ground (arith, a.0, delete-absent k m a.1)

  -- What an insertion of a new key and its deletion leave.
  pub delete-insert_new :
      (k : K) (v : V) (m : Map K V) → lookup k m ≡ none → delete k (insert k v m) ≡ m
  unfolding lookup insert delete
  delete-insert_new k v [] n = ground arith
  delete-insert_new k v ((j, w) ∷ m) n = ground (arith, n, delete-insert_new k v m)

  absent_head : (k j : K) (w : V) (m : Map K V) → (j == k) ≡ true → lookup k ((j, w) ∷ m) ≢ none
  unfolding lookup
  absent_head k j w m t n = ground (arith, t, n)

  absent_tail :
      (k j : K) (w : V) (m : Map K V)
      → (j == k) ≡ false
      → lookup k ((j, w) ∷ m) ≡ none
      → lookup k m ≡ none
  unfolding lookup
  absent_tail k j w m t n = ground (arith, t, n)

  found_head :
      (k j : K) (w v : V) (m : Map K V) → (j == k) ≡ true → lookup k ((j, w) ∷ m) ≡ some v → w ≡ v
  unfolding lookup
  found_head k j w v m t f = ground (arith, t, f)

  found_tail :
      (k j : K) (w v : V) (m : Map K V)
      → (j == k) ≡ false
      → lookup k ((j, w) ∷ m) ≡ some v
      → lookup k m ≡ some v
  unfolding lookup
  found_tail k j w v m t f = ground (arith, t, f)

  module _ (p : V → Bool) where
    pub lookup-has :
        (k : K) (v : V) (m : Map K V) → lookup k m ≡ some v → has p m ≡ false → p v ≡ false
    unfolding lookup
    lookup-has k v [] f h = cc
    lookup-has k v ((j, w) ∷ m) f h = ground (arith, f, h, lookup-has k v m)

    pub has-insert_new :
        (k : K) (v : V) (m : Map K V) → lookup k m ≡ none → has p (insert k v m) ≡ (has p m || p v)
    unfolding lookup insert
    has-insert_new k v [] n = ground arith
    has-insert_new k v ((j, w) ∷ m) n = ground (arith, n, has-insert_new k v m)

    pub has-insert_old :
        (k : K) (v old : V) (m : Map K V)
        → lookup k m ≡ some old
        → p v ≡ p old
        → has p (insert k v m) ≡ has p m
    unfolding lookup insert
    has-insert_old k v old [] f h = cc
    has-insert_old k v old ((j, w) ∷ m) f h = ground (arith, f, h, has-insert_old k v old m)

    pub AtMostOnce-insert_new :
        (k : K) (v : V) (m : Map K V)
        → lookup k m ≡ none
        → (p v ≡ true → has p m ≡ false)
        → AtMostOnce p m
        → AtMostOnce p (insert k v m)
    unfolding lookup insert
    AtMostOnce-insert_new k v [] n h a = (λ t. refl, tt)
    AtMostOnce-insert_new k v ((j, w) ∷ m) n h a = elim (==_cases j k) [
      | inl (q, t) ↦ absurd (absent_head k j w m t n)
      | inr (q, t) ↦ rw t (
        λ pw. rw (has-insert_new k v m (absent_tail k j w m t n)) (ground (arith, a.0 pw, h, pw)),
        AtMostOnce-insert_new k v m (absent_tail k j w m t n) (λ pv. ground (arith, h pv)) a.1,
      )
    ]

    pub AtMostOnce-insert_old :
        (k : K) (v old : V) (m : Map K V)
        → lookup k m ≡ some old
        → p v ≡ p old
        → AtMostOnce p m
        → AtMostOnce p (insert k v m)
    unfolding insert
    AtMostOnce-insert_old k v old [] f h a = (λ t. refl, tt)
    AtMostOnce-insert_old k v old ((j, w) ∷ m) f h a = elim (==_cases j k) [
      | inl (q, t) ↦ rw t (λ pv. a.0 (ap p (found_head k j w old m t f) ∙ sym h ∙ pv), a.1)
      | inr (q, t) ↦ rw t (
        λ pw. has-insert_old k v old m (found_tail k j w old m t f) h ∙ a.0 pw,
        AtMostOnce-insert_old k v old m (found_tail k j w old m t f) h a.1,
      )
    ]

    -- A value that is deleted takes its part in the test with it.
    pub has-delete :
        (k : K) (v : V) (m : Map K V)
        → lookup k m ≡ some v
        → IsMap m
        → AtMostOnce p m
        → has p (delete k m) ≡ (has p m && not (p v))
    unfolding delete
    has-delete k v [] f d a = cc
    has-delete k v ((j, w) ∷ m) f d a = elim (==_cases j k) [
      | inl (q, t) ↦
          let same = found_head k j w v m t f in
          rw (t, delete-absent k m (subst (λ x. All (λ y. x ≢ y.0) m) q d.0))
            (ground (arith, same, ap p same, a.0))
      | inr (q, t) ↦
          let f' = found_tail k j w v m t f in
          rw t (ground (arith, has-delete k v m f' d.1 a.1, a.0, lookup-has k v m f'))
    ]

    has-delete_le : (k : K) (m : Map K V) → has p m ≡ false → has p (delete k m) ≡ false
    unfolding delete
    has-delete_le k [] h = refl
    has-delete_le k ((j, w) ∷ m) h = ground (arith, h, has-delete_le k m)

    pub AtMostOnce-delete : (k : K) (m : Map K V) → AtMostOnce p m → AtMostOnce p (delete k m)
    unfolding delete
    AtMostOnce-delete k [] a = tt
    AtMostOnce-delete k ((j, w) ∷ m) a = elim (Bool-cases (j == k)) [
      | inl t ↦ rw t (AtMostOnce-delete k m a.1)
      | inr t ↦ rw t (λ pw. has-delete_le k m (a.0 pw), AtMostOnce-delete k m a.1)
    ]
