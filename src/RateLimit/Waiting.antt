-- ===== src/RateLimit/Waiting.antt =====
-- internal/server/rate_limiter.go: an input that was refused is accepted after the wait that was named.
use herdr_pal.Prelude.{
  ℕ, ◌+◌, ◌-◌, ◌≡◌, ◌≤◌, refl, sym, ap, ◌∙◌, subst, List, [], ◌∷◌, ◌++◌, Bool, true, false, ◌&&◌,
  Option, none, some, ◌==◌, nat_eq, ltb, if◌then◌else◌, length, length-keep-le, keep, get_elem?,
  arith, Bool-cases, Option-cases, inl, inr,
}
use mathlib.Core.List.{append-nil}
use herdr_pal.Prelude.Maps.{IsMap}
use herdr_pal.Prelude.Sort.{sort, length-sort}
use herdr_pal.Prelude.Text.{Text, text_eq}
use herdr_pal.RateLimit.{
  UserRateLimiter, RateLimitDecision, within, prune, stamps, window_retry, decide, allow,
  sweep_expired, second_window, minute_window,
}
use herdr_pal.RateLimit.Sweeping.{keep-keep, keep-within}
use herdr_pal.RateLimit.Sorted.{Ascending-sort, length-keep-sort, length-keep-after}
use herdr_pal.RateLimit.Laws.{
  IsBelow, allow-IsCalled, counted, sweep_expired-limits, window_retry-IsBelow,
}

-- From `wait` after `now` on, the window has room.
abbrev Clears : List ℕ → ℕ → ℕ → ℕ → ℕ → Type 0
Clears ts now window limit wait = (later : ℕ) → now + wait ≤ later → IsBelow ts later window limit

abbrev or_zero : Option ℕ → ℕ
or_zero none = 0
or_zero (some a) = a

length-keep-later :
    (ts : List ℕ) (now later window : ℕ)
    → now ≤ later
    → length (keep (within later window) ts) ≤ length (keep (within now window) ts)
length-keep-later ts now later window le = omega (
  arith,
  ap length (keep-within now later window window ts le (omega arith)),
  length-keep-le {0} (within later window) (keep (within now window) ts),
)

-- The elements that a later window still holds came after the one whose expiry was waited for.
kept_after :
    (ts : List ℕ) (now later window x : ℕ)
    → now ≤ later
    → x + window ≤ later
    → length (keep (within later window) ts) ≤ length (keep (ltb x) (keep (within now window) ts))
kept_after ts now later window x le over = omega (
  arith,
  ap length (keep-within now later window window ts le (omega arith)),
  length-keep-le {0} (within later window) (keep (ltb x) (keep (within now window) ts)),
  ap length (
      keep-keep (within later window) (ltb x) (keep (within now window) ts)
        (λ t e. ground (arith, e, over))),
)

window_retry-some :
    (ts : List ℕ) (now window limit a : ℕ)
    → window_retry ts now window limit ≡ some a
    → (x : ℕ) × (limit ≤ length (keep (within now window) ts))
      × (get_elem?
            (sort ltb (keep (within now window) ts))
            (length (keep (within now window) ts) - limit)
          ≡ some x)
      × (x + window ≤ now + a)
unfolding window_retry
window_retry-some ts now window limit a e =
    let eligible = keep (within now window) ts in
    elim (Option-cases (get_elem? (sort ltb eligible) (length eligible - limit))) [
      | inl n ↦ absurd (ground (arith, n, e))
      | inr (x, at) ↦ (x, ground (arith, e), at, ground (arith, at, e))
    ]

window_retry-Clears :
    (ts : List ℕ) (now window limit wait : ℕ) (r : Option ℕ)
    → window_retry ts now window limit ≡ r
    → or_zero r ≤ wait
    → Clears ts now window limit wait
window_retry-Clears ts now window limit wait none e le later after pos = omega (
  arith,
  window_retry-IsBelow ts now window limit e pos,
  length-keep-later ts now later window (omega (arith, after)),
)
window_retry-Clears ts now window limit wait (some a) e le later after pos =
    let (x, long, at, over) = window_retry-some ts now window limit a e in
    let eligible = keep (within now window) ts in
    omega (
      arith,
      long,
      kept_after ts now later window x (omega (arith, after)) (omega (arith, over, after, le)),
      length-keep-after (sort ltb eligible) (length eligible - limit) x (Ascending-sort eligible)
          at,
      length-keep-sort (ltb x) eligible,
      length-sort {0} ltb eligible,
    )

module _ (l : UserRateLimiter) (u : Text) (now : ℕ) where
  -- A refusal: both windows clear after the wait, and the caller's swept times are kept.
  decide_refused :
      (l : UserRateLimiter) (ts : List ℕ) (a b : Option ℕ)
      → (decide l u now ts a b).1.allowed ≡ false
      → (or_zero a ≤ (decide l u now ts a b).1.retry_after)
        × (or_zero b ≤ (decide l u now ts a b).1.retry_after)
  unfolding decide
  decide_refused l ts none none e = absurd (ground (arith, e))
  decide_refused l ts (some a) none e = (ground arith, ground arith)
  decide_refused l ts none (some b) e = (ground arith, ground arith)
  decide_refused l ts (some a) (some b) e = (ground arith, ground arith)

  decide_allowed :
      (l : UserRateLimiter) (ts : List ℕ) (a b : Option ℕ)
      → a ≡ none
      → b ≡ none
      → (decide l u now ts a b).1.allowed ≡ true
  unfolding decide
  decide_allowed l ts none none p q = refl
  decide_allowed l ts (some a) b p q = cc
  decide_allowed l ts none (some b) p q = cc

IsBelow-window_retry :
    (ts : List ℕ) (now window limit : ℕ)
    → IsBelow ts now window limit
    → window_retry ts now window limit ≡ none
unfolding window_retry
IsBelow-window_retry ts now window limit b = ground (arith, b)

length-keep-keep {ℓ} :
    {A : Type ℓ} (p q : A → Bool) (xs : List A) → length (keep p (keep q xs)) ≤ length (keep p xs)
length-keep-keep p q [] = omega arith
length-keep-keep p q (x ∷ xs) = ground (arith, length-keep-keep p q xs)

IsBelow-prune :
    (l : UserRateLimiter) (ts : List ℕ) (now window limit : ℕ)
    → IsBelow ts now window limit
    → IsBelow (prune l ts now) now window limit
unfolding prune
IsBelow-prune l ts now window limit b pos = omega (
  arith,
  b pos,
  length-keep-keep {0} (within now window)
      (within now (if l.per_minute == 0 then second_window else minute_window)) ts,
)

module _ (l : UserRateLimiter) (u : Text) (now : ℕ) (h : IsMap l.users) where
  abbrev ours : List ℕ
  ours = prune l (stamps l u) now

  retry_same :
      (window limit other : ℕ)
      → limit ≡ other
      → window_retry
          (prune (sweep_expired l now) (stamps (sweep_expired l now) u) now)
          now
          window
          limit
        ≡ window_retry ours now window other
  retry_same window limit other e =
      ap (λ ts. window_retry ts now window limit) (counted l now h u)
      ∙ ap (window_retry ours now window) e

  allow_room :
      IsBelow ours now second_window l.per_second
      → IsBelow ours now minute_window l.per_minute
      → (allow l u now).1.allowed ≡ true
  unfolding allow
  allow_room a b = elim (Bool-cases (l.per_second == 0 && l.per_minute == 0)) [
    | inl off ↦ ground (arith, off)
    | inr limited ↦
        rw (limited, allow)
          (decide_allowed l u now _ _ _ _
            (retry_same second_window _ _ (sweep_expired-limits l now h).0
              ∙ IsBelow-window_retry ours now second_window l.per_second a)
            (retry_same minute_window _ _ (sweep_expired-limits l now h).1
              ∙ IsBelow-window_retry ours now minute_window l.per_minute b))
  ]

  limited_of : (allow l u now).1.allowed ≡ false → (l.per_second == 0 && l.per_minute == 0) ≡ false
  unfolding allow
  limited_of refused = elim (Bool-cases (l.per_second == 0 && l.per_minute == 0)) [
    | inl off ↦ absurd (ground (arith, off, refused))
    | inr limited ↦ limited
  ]

  abbrev ClearsAfter : RateLimitDecision → Type 0
  ClearsAfter d =
      d.allowed ≡ false
      → Clears ours now second_window l.per_second d.retry_after
        × Clears ours now minute_window l.per_minute d.retry_after

  allow-ClearsAfter :
      (l.per_second == 0 && l.per_minute == 0) ≡ false → ClearsAfter (allow l u now).1
  unfolding allow
  allow-ClearsAfter limited =
      let ts = prune (sweep_expired l now) (stamps (sweep_expired l now) u) now in
      let a = window_retry ts now second_window (sweep_expired l now).per_second in
      let b = window_retry ts now minute_window (sweep_expired l now).per_minute in
      rw (limited, allow)
        λ refused.
          let (p, q) = decide_refused l u now _ ts a b refused in
          (
            window_retry-Clears ours now second_window l.per_second _ a
                (sym (retry_same second_window _ _ (sweep_expired-limits l now h).0)) p,
            window_retry-Clears ours now minute_window l.per_minute _ b
                (sym (retry_same minute_window _ _ (sweep_expired-limits l now h).1)) q,
          )

IsBelow-same :
    {ts us : List ℕ} {limit other : ℕ} (now window : ℕ)
    → us ≡ ts
    → other ≡ limit
    → IsBelow ts now window limit
    → IsBelow us now window other
IsBelow-same {us = us} {limit = limit} now window p q b =
    subst (λ n. IsBelow us now window n) (sym q)
      (subst (λ xs. IsBelow xs now window limit) (sym p) b)

-- Where each user has one list of times: an input that was refused is accepted if it comes again,
-- with no other call in between, not before the wait that the refusal named is over.
pub allow_after_wait :
    (l : UserRateLimiter) (u : Text) (now later : ℕ)
    → IsMap l.users
    → (allow l u now).1.allowed ≡ false
    → now + (allow l u now).1.retry_after ≤ later
    → (allow (allow l u now).0 u later).1.allowed ≡ true
allow_after_wait l u now later h refused after =
    let limited = limited_of l u now h refused in
    let c = allow-IsCalled l u now h limited in
    let (a, b) = allow-ClearsAfter l u now h limited refused in
    let l1 = (allow l u now).0 in
    let ts = prune l (stamps l u) now in
    let same : stamps l1 u ≡ ts =
      c.own ∙ ap (λ b. ts ++ (if b then now ∷ [] else [])) refused ∙ append-nil ts in
    allow_room l1 u later c.map
      (IsBelow-prune l1 (stamps l1 u) later second_window l1.per_second
        (IsBelow-same later second_window same c.second (a later after)))
      (IsBelow-prune l1 (stamps l1 u) later minute_window l1.per_minute
        (IsBelow-same later minute_window same c.minute (b later after)))
