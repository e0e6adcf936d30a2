-- ===== src/RateLimit/Sweeping.antt =====
-- internal/server/rate_limiter.go: what a sweep does to the times on record.
use herdr_pal.Prelude.{
  ℕ, ◌≡◌, ◌≢◌, ◌≤◌, refl, List, [], ◌∷◌, ◌++◌, Bool, true, none, nat_eq, keep, All, arith,
  Bool-cases, inl, inr,
}
use herdr_pal.Prelude.Maps.{Map, IsMap, lookup}
use herdr_pal.Prelude.Text.{Text, text_eq}
use herdr_pal.RateLimit.{UserRateLimiter, within, prune, sweep_users, stamps_of, is_empty}

-- A later or a narrower test sees through an earlier or a wider one.
pub keep-keep {ℓ} :
    {A : Type ℓ} (p q : A → Bool) (xs : List A)
    → ((x : A) → p x ≡ true → q x ≡ true)
    → keep p (keep q xs) ≡ keep p xs
keep-keep p q [] h = refl
keep-keep p q (x ∷ xs) h = ground (arith, h x, keep-keep p q xs h)

pub keep-append {ℓ} :
    {A : Type ℓ} (p : A → Bool) (xs ys : List A) → keep p (xs ++ ys) ≡ keep p xs ++ keep p ys
keep-append p [] ys = refl
keep-append p (x ∷ xs) ys = ground (arith, keep-append p xs ys)

pub keep-within :
    (now later small wide : ℕ) (ts : List ℕ)
    → now ≤ later
    → small ≤ wide
    → keep (within later small) (keep (within now wide) ts) ≡ keep (within later small) ts
keep-within now later small wide ts le fits =
    keep-keep (within later small) (within now wide) ts λ t e. ground arith

pub sweep_users-All {κ} :
    (l : UserRateLimiter) (now : ℕ) (P : Text → Type κ) (m : Map Text (List ℕ))
    → All (λ e. P e.0) m
    → All (λ e. P e.0) (sweep_users l now m)
unfolding sweep_users
sweep_users-All l now P [] a = tt
sweep_users-All l now P ((u, ts) ∷ m) a = elim (Bool-cases (is_empty (prune l ts now))) [
  | inl e ↦ rw e (sweep_users-All l now P m a.1)
  | inr e ↦ rw e (a.0, sweep_users-All l now P m a.1)
]

pub sweep_users-IsMap :
    (l : UserRateLimiter) (now : ℕ) (m : Map Text (List ℕ)) → IsMap m → IsMap (sweep_users l now m)
unfolding sweep_users
sweep_users-IsMap l now [] d = tt
sweep_users-IsMap l now ((u, ts) ∷ m) d = elim (Bool-cases (is_empty (prune l ts now))) [
  | inl e ↦ rw e (sweep_users-IsMap l now m d.1)
  | inr e ↦ rw e (sweep_users-All l now (λ v. u ≢ v) m d.0, sweep_users-IsMap l now m d.1)
]

lookup_absent {ℓ} :
    {V : Type ℓ} (k : Text) (m : Map Text V) → All (λ e. k ≢ e.0) m → lookup k m ≡ none
unfolding lookup
lookup_absent k [] a = refl
lookup_absent k ((j, t) ∷ m) a = ground (arith, a.0, lookup_absent k m a.1)

is_empty-nil {ℓ} : {A : Type ℓ} (xs : List A) → is_empty xs ≡ true → xs ≡ []
is_empty-nil [] h = refl
is_empty-nil (x ∷ xs) h = cc

pub lookup-sweep_users :
    (l : UserRateLimiter) (now : ℕ) (u : Text) (m : Map Text (List ℕ))
    → IsMap m
    → stamps_of (lookup u (sweep_users l now m)) ≡ prune l (stamps_of (lookup u m)) now
unfolding lookup sweep_users prune
lookup-sweep_users l now u [] d = refl
lookup-sweep_users l now u ((v, ts) ∷ m) d = ground (
  arith,
  lookup-sweep_users l now u m d.1,
  lookup_absent v (sweep_users l now m) (sweep_users-All l now (λ w. v ≢ w) m d.0),
  is_empty-nil (prune l ts now),
)
