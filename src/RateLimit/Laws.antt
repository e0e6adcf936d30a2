-- ===== src/RateLimit/Laws.antt =====
-- internal/server/rate_limiter.go: what a call of `Allow` does to the times on record.
use herdr_pal.Prelude.{
  ℕ, ◌-◌, ◌≡◌, ◌≢◌, ◌<◌, ◌≤◌, ◌⊎◌, refl, sym, ap, ◌∙◌, List, [], ◌∷◌, ◌++◌, Bool, true, false, ◌&&◌,
  Option, none, some, ◌==◌, nat_eq, ltb, if◌then◌else◌, length, keep, arith, Bool-cases, inl, inr,
  get_elem?, zero, suc, subst,
}
use mathlib.Core.List.{append-nil}
use herdr_pal.Prelude.Maps.{Map, IsMap, lookup, insert, lookup-insert, insert-IsMap}
use herdr_pal.Prelude.Sort.{sort, length-sort}
use herdr_pal.Prelude.Text.{Text, text_eq}
use herdr_pal.RateLimit.{
  UserRateLimiter, RateLimitDecision, within, prune_window, prune, sweep_expired, swept_recently,
  window_retry, stamps, stamps_of, decide, allow, second_window, minute_window,
}
use herdr_pal.RateLimit.Sweeping.{keep-within, sweep_users-IsMap, lookup-sweep_users}

module _ (l : UserRateLimiter) (now : ℕ) (h : IsMap l.users) where
  pub sweep_expired-limits :
      ((sweep_expired l now).per_second ≡ l.per_second)
      × ((sweep_expired l now).per_minute ≡ l.per_minute)
  unfolding sweep_expired
  sweep_expired-limits = ground arith

  sweep_expired-IsMap : IsMap (sweep_expired l now).users
  unfolding sweep_expired
  sweep_expired-IsMap = elim (Bool-cases (swept_recently l.last_sweep now)) [
    | inl e ↦ rw (e, sweep_expired) h
    | inr e ↦ rw (e, sweep_expired) (sweep_users-IsMap l now l.users h)
  ]

  stamps-sweep_expired :
      (v : Text)
      → (stamps (sweep_expired l now) v ≡ stamps l v)
        ⊎ (stamps (sweep_expired l now) v ≡ prune l (stamps l v) now)
  unfolding sweep_expired
  stamps-sweep_expired v = elim (Bool-cases (swept_recently l.last_sweep now)) [
    | inl e ↦ inl (ground (arith, e))
    | inr e ↦ inr (ground (arith, e, lookup-sweep_users l now v l.users h))
  ]

  prune-prune : (ts : List ℕ) → prune l (prune l ts now) now ≡ prune l ts now
  unfolding prune
  prune-prune ts =
      keep-within now now (prune_window l) (prune_window l) ts (omega arith) (omega arith)

  -- The times of the caller that `Allow` counts.
  pub counted :
      (u : Text)
      → prune (sweep_expired l now) (stamps (sweep_expired l now) u) now ≡ prune l (stamps l u) now
  unfolding prune
  counted u = elim (stamps-sweep_expired u) [
    | inl e ↦ ground (arith, e, sweep_expired-limits)
    | inr e ↦ ground (arith, e, sweep_expired-limits, prune-prune (stamps l u))
  ]

-- Whether fewer of these times than the limit are in the window; a limit of 0 is none.
abbrev pub IsBelow : List ℕ → ℕ → ℕ → ℕ → Type 0
IsBelow ts now window limit = 0 < limit → length (keep (within now window) ts) < limit

get_elem?-some {ℓ} :
    {A : Type ℓ} (xs : List A) (i : ℕ) → i < length xs → (x : A) × (get_elem? xs i ≡ some x)
get_elem?-some [] i h = absurd (omega arith)
get_elem?-some (x ∷ xs) zero h = (x, refl)
get_elem?-some (x ∷ xs) (suc i) h = get_elem?-some xs i (omega arith)

pub window_retry-IsBelow :
    (ts : List ℕ) (now window limit : ℕ)
    → window_retry ts now window limit ≡ none
    → IsBelow ts now window limit
unfolding window_retry
window_retry-IsBelow ts now window limit e pos =
    elim (Bool-cases (ltb (length (keep (within now window) ts)) limit)) [
      | inl few ↦ ground (arith, few)
      | inr many ↦
          let eligible = keep (within now window) ts in
          let long : limit ≤ length eligible = ground (arith, many) in
          let (t, at) =
            get_elem?-some (sort ltb eligible) (length eligible - limit)
              (omega (arith, length-sort {0} ltb eligible, long, pos)) in
          absurd (ground (arith, many, at, pos, e))
    ]

-- What `Allow` does to the times on record: the caller's are swept and a time that was accepted is
-- added, others' are swept or left alone, and a time is accepted only where both windows have room.
pub record IsCalled (l : UserRateLimiter) (u : Text) (now : ℕ)
    (r : UserRateLimiter × RateLimitDecision) : Type 0 where
  pub second : r.0.per_second ≡ l.per_second
  pub minute : r.0.per_minute ≡ l.per_minute
  pub map : IsMap r.0.users
  pub own : stamps r.0 u ≡ prune l (stamps l u) now ++ (if r.1.allowed then now ∷ [] else [])
  pub others :
      (v : Text) → u ≢ v → (stamps r.0 v ≡ stamps l v) ⊎ (stamps r.0 v ≡ prune l (stamps l v) now)
  pub room :
      r.1.allowed ≡ true
      → IsBelow (prune l (stamps l u) now) now second_window l.per_second
        × IsBelow (prune l (stamps l u) now) now minute_window l.per_minute

module _ (l : UserRateLimiter) (u : Text) (now : ℕ) (h : IsMap l.users) where
  abbrev swept : UserRateLimiter
  swept = sweep_expired l now

  abbrev recorded : List ℕ → UserRateLimiter
  recorded ts = record swept { users = insert u ts swept.users }

  others-insert :
      (m : Map Text (List ℕ)) (ts : List ℕ) (v : Text)
      → u ≢ v
      → stamps_of (lookup v (insert u ts m)) ≡ stamps_of (lookup v m)
  others-insert m ts v n = ground (arith, lookup-insert u v ts m)

  stamps-recorded :
      (m : Map Text (List ℕ)) (ts : List ℕ) → stamps_of (lookup u (insert u ts m)) ≡ ts
  stamps-recorded m ts = ground (arith, lookup-insert u u ts m)

  nothing_more : (ts : List ℕ) (b : Bool) → b ≡ false → ts ≡ ts ++ (if b then now ∷ [] else [])
  nothing_more ts b e = rw e (sym (append-nil ts))

  IsCalled-refused :
      (d : RateLimitDecision) (ts : List ℕ)
      → ts ≡ prune l (stamps l u) now
      → d.allowed ≡ false
      → IsCalled l u now (recorded ts, d)
  IsCalled-refused d ts e refused = record {
    second = (sweep_expired-limits l now h).0;
    minute = (sweep_expired-limits l now h).1;
    map = insert-IsMap u ts swept.users (sweep_expired-IsMap l now h);
    own = stamps-recorded swept.users ts ∙ e ∙ nothing_more _ d.allowed refused;
    others = λ v n. rw (others-insert swept.users ts v n) (stamps-sweep_expired l now h v);
    room = λ y. absurd (ground (arith, refused, y));
  }

  IsCalled-allowed :
      (d : RateLimitDecision) (ts : List ℕ)
      → ts ≡ prune l (stamps l u) now
      → d.allowed ≡ true
      → IsBelow ts now second_window l.per_second × IsBelow ts now minute_window l.per_minute
      → IsCalled l u now
          (record (recorded ts) { users = insert u (ts ++ now ∷ []) (recorded ts).users }, d)
  IsCalled-allowed d ts e taken below = record {
    second = (sweep_expired-limits l now h).0;
    minute = (sweep_expired-limits l now h).1;
    map =
        insert-IsMap u (ts ++ now ∷ []) (recorded ts).users
          (insert-IsMap u ts swept.users (sweep_expired-IsMap l now h));
    own =
        stamps-recorded (recorded ts).users (ts ++ now ∷ [])
        ∙ ap (λ xs. xs ++ now ∷ []) e
        ∙ ap (λ b. prune l (stamps l u) now ++ (if b then now ∷ [] else [])) (sym taken);
    others = λ v n.
        rw
          (others-insert (recorded ts).users (ts ++ now ∷ []) v n, others-insert swept.users ts v n)
          (stamps-sweep_expired l now h v);
    room = λ y.
        subst
          (λ xs.
            IsBelow xs now second_window l.per_second × IsBelow xs now minute_window l.per_minute)
          e below;
  }

  decide-IsCalled :
      (ts : List ℕ) (a b : Option ℕ)
      → ts ≡ prune l (stamps l u) now
      → (a ≡ none → IsBelow ts now second_window l.per_second)
      → (b ≡ none → IsBelow ts now minute_window l.per_minute)
      → IsCalled l u now (decide (recorded ts) u now ts a b)
  unfolding decide
  decide-IsCalled ts none none e p q = IsCalled-allowed _ ts e refl (p refl, q refl)
  decide-IsCalled ts (some a) none e p q = IsCalled-refused _ ts e refl
  decide-IsCalled ts none (some b) e p q = IsCalled-refused _ ts e refl
  decide-IsCalled ts (some a) (some b) e p q = IsCalled-refused _ ts e refl

  pub allow-IsCalled :
      (l.per_second == 0 && l.per_minute == 0) ≡ false → IsCalled l u now (allow l u now)
  unfolding allow
  allow-IsCalled limited =
      let ts = prune swept (stamps swept u) now in
      let (s, m) = sweep_expired-limits l now h in
      rw (limited, allow)
        (decide-IsCalled ts (window_retry ts now second_window swept.per_second)
          (window_retry ts now minute_window swept.per_minute) (counted l now h u)
          (λ e.
            subst (λ n. IsBelow ts now second_window n) s
              (window_retry-IsBelow ts now second_window swept.per_second e))
          (λ e.
            subst (λ n. IsBelow ts now minute_window n) m
              (window_retry-IsBelow ts now minute_window swept.per_minute e)))
