-- ===== src/RateLimit/Windows.antt =====
-- internal/server/rate_limiter.go: over any history of calls, no window holds more accepted inputs
-- than its limit.
use herdr_pal.Prelude.{
  ℕ, ◌≡◌, ◌≢◌, ◌≤◌, refl, sym, ap, ◌∙◌, subst, List, [], ◌∷◌, ◌++◌, true, false, ◌&&◌, ◌==◌, nat_eq,
  if◌then◌else◌, length, keep, arith, inl, inr, ==_cases,
}
use mathlib.Core.List.{append_assoc, append-nil}
use herdr_pal.Prelude.Maps.{IsMap, lookup}
use herdr_pal.Prelude.Text.{Text, text_eq}
use herdr_pal.RateLimit.{
  UserRateLimiter, RateLimitDecision, new_user_rate_limiter, within, prune_window, prune, stamps,
  allow, second_window, minute_window,
}
use herdr_pal.RateLimit.Sweeping.{keep-within, keep-append}
use herdr_pal.RateLimit.Laws.{IsBelow, IsCalled, allow-IsCalled}

-- The limiter after a history of calls, and the times at which it accepted a user's inputs.
unfoldable pub run : UserRateLimiter → List (Text × ℕ) → UserRateLimiter
run l [] = l
run l ((u, now) ∷ calls) = run (allow l u now).0 calls

abbrev pub taken : Text → Text → ℕ → RateLimitDecision → List ℕ
taken v u now d = if u == v && d.allowed then now ∷ [] else []

unfoldable pub accepted : Text → UserRateLimiter → List (Text × ℕ) → List ℕ
accepted v l [] = []
accepted v l ((u, now) ∷ calls) =
    taken v u now (allow l u now).1 ++ accepted v (allow l u now).0 calls

-- The clock does not go back.
abbrev pub Rising : ℕ → List (Text × ℕ) → Type 0
Rising start [] = Unit
Rising start ((u, now) ∷ calls) = (start ≤ now) × Rising now calls

abbrev pub last_time : ℕ → List (Text × ℕ) → ℕ
last_time start [] = start
last_time start ((u, now) ∷ calls) = last_time now calls

-- The times on record agree with all the times that were accepted, in every window from now on.
abbrev Tracks : UserRateLimiter → Text → ℕ → List ℕ → Type 0
Tracks l v now ts =
    (later : ℕ)
    → now ≤ later
    → keep (within later (prune_window l)) (stamps l v) ≡ keep (within later (prune_window l)) ts

record Holds (l : UserRateLimiter) (v : Text) (second minute now : ℕ) (ts : List ℕ) : Type 0 where
  pub per_second : l.per_second ≡ second
  pub per_minute : l.per_minute ≡ minute
  pub map : IsMap l.users
  pub tracks : Tracks l v now ts

module _ (l : UserRateLimiter) (u v : Text) (start now : ℕ) (ts : List ℕ) (le : start ≤ now)
    (t : Tracks l v start ts) where
  Tracks-prune :
      (later : ℕ)
      → now ≤ later
      → keep (within later (prune_window l)) (prune l (stamps l v) now)
        ≡ keep (within later (prune_window l)) ts
  unfolding prune
  Tracks-prune later after =
      keep-within now later (prune_window l) (prune_window l) (stamps l v) after (omega arith)
      ∙ t later (omega (arith, le, after))

  module _ (c : IsCalled l u now (allow l u now)) where
    own_stamps :
        u ≡ v
        → stamps (allow l u now).0 v ≡ prune l (stamps l v) now ++ taken v u now (allow l u now).1
    own_stamps same = ground (arith, same, c.own)

    other_stamps :
        u ≢ v
        → (later : ℕ) → now ≤ later
        → keep (within later (prune_window l)) (stamps (allow l u now).0 v)
          ≡ keep (within later (prune_window l)) ts
    other_stamps n later after = elim (c.others v n) [
      | inl e ↦ ap (keep (within later (prune_window l))) e ∙ t later (omega (arith, le, after))
      | inr e ↦ ap (keep (within later (prune_window l))) e ∙ Tracks-prune later after
    ]

    none_taken : u ≢ v → ts ++ taken v u now (allow l u now).1 ≡ ts
    none_taken n = ground (arith, n, append-nil ts)

    Tracks-window :
        (later : ℕ)
        → now ≤ later
        → keep (within later (prune_window l)) (stamps (allow l u now).0 v)
          ≡ keep (within later (prune_window l)) (ts ++ taken v u now (allow l u now).1)
    Tracks-window later after = elim (==_cases u v) [
      | inl (same, _) ↦
          let new = taken v u now (allow l u now).1 in
          let seen = within later (prune_window l) in
          ap (keep seen) (own_stamps same)
          ∙ keep-append seen (prune l (stamps l v) now) new
          ∙ ap (λ xs. xs ++ keep seen new) (Tracks-prune later after)
          ∙ sym (keep-append seen ts new)
      | inr (n, _) ↦
          other_stamps n later after
          ∙ ap (keep (within later (prune_window l))) (sym (none_taken n))
    ]

    Tracks-allow : Tracks (allow l u now).0 v now (ts ++ taken v u now (allow l u now).1)
    Tracks-allow later after =
        subst
          (λ k.
            keep (within later (if k == 0 then second_window else minute_window))
              (stamps (allow l u now).0 v)
            ≡ keep (within later (if k == 0 then second_window else minute_window))
                (ts ++ taken v u now (allow l u now).1))
          (sym c.minute) (Tracks-window later after)

module _ (v : Text) (second minute : ℕ) (limited : (second == 0 && minute == 0) ≡ false) where
  called :
      (l : UserRateLimiter) (u : Text) (start now : ℕ) (ts : List ℕ)
      → Holds l v second minute start ts
      → IsCalled l u now (allow l u now)
  called l u start now ts h = allow-IsCalled l u now h.map (rw (h.per_second, h.per_minute) limited)

  allow-Holds :
      (l : UserRateLimiter) (u : Text) (start now : ℕ) (ts : List ℕ)
      → start ≤ now
      → Holds l v second minute start ts
      → Holds (allow l u now).0 v second minute now (ts ++ taken v u now (allow l u now).1)
  allow-Holds l u start now ts le h =
      let c = called l u start now ts h in
      record {
        per_second = c.second ∙ h.per_second;
        per_minute = c.minute ∙ h.per_minute;
        map = c.map;
        tracks = Tracks-allow l u v start now ts le h.tracks c;
      }

  run-Holds :
      (l : UserRateLimiter) (start : ℕ) (ts : List ℕ) (calls : List (Text × ℕ))
      → Rising start calls
      → Holds l v second minute start ts
      → Holds (run l calls) v second minute (last_time start calls) (ts ++ accepted v l calls)
  unfolding run accepted
  run-Holds l start ts [] r h = subst (Holds l v second minute start) (sym (append-nil ts)) h
  run-Holds l start ts ((u, now) ∷ calls) r h =
      subst (Holds (run (allow l u now).0 calls) v second minute (last_time now calls))
        (append_assoc ts (taken v u now (allow l u now).1) (accepted v (allow l u now).0 calls))
        (run-Holds (allow l u now).0 now (ts ++ taken v u now (allow l u now).1) calls r.1
          (allow-Holds l u start now ts r.0 h))

  new-Holds : Holds (new_user_rate_limiter second minute) v second minute 0 []
  unfolding new_user_rate_limiter lookup
  new-Holds = record {
    per_second = refl;
    per_minute = refl;
    map = tt;
    tracks = λ later after. refl;
  }

  IsBelow-Tracks :
      (l : UserRateLimiter) (now small limit : ℕ) (ts : List ℕ)
      → small ≤ prune_window l
      → Tracks l v now ts
      → IsBelow (prune l (stamps l v) now) now small limit
      → IsBelow ts now small limit
  unfolding prune
  IsBelow-Tracks l now small limit ts fits t b pos =
      let wide = prune_window l in
      omega (
        arith,
        b pos,
        ap length (
            keep-within now now small wide (keep (within now wide) (stamps l v)) (omega arith)
              fits),
        ap length (keep-within now now small wide (stamps l v) (omega arith) fits),
        ap length (keep-within now now small wide ts (omega arith) fits),
        ap (λ xs. length (keep (within now small) xs)) (t now (omega arith)),
      )

-- With a limit set and a clock that does not go back: when `Allow` accepts an input, fewer inputs of
-- that user than each limit that is set had been accepted in the window that ends now.
pub allow_bounded :
    (second minute : ℕ) (calls : List (Text × ℕ)) (v : Text) (now : ℕ)
    → (second == 0 && minute == 0) ≡ false
    → Rising 0 calls
    → last_time 0 calls ≤ now
    → (allow (run (new_user_rate_limiter second minute) calls) v now).1.allowed ≡ true
    → IsBelow (accepted v (new_user_rate_limiter second minute) calls) now second_window second
      × IsBelow (accepted v (new_user_rate_limiter second minute) calls) now minute_window minute
allow_bounded second minute calls v now limited rising le ok =
    let l = run (new_user_rate_limiter second minute) calls in
    let ts = accepted v (new_user_rate_limiter second minute) calls in
    let h =
      run-Holds v second minute limited (new_user_rate_limiter second minute) 0 [] calls rising
        (new-Holds v second minute limited) in
    let c = called v second minute limited l v (last_time 0 calls) now ts h in
    let t : Tracks l v now ts = λ later after. h.tracks later (omega (arith, le, after)) in
    let (a, b) = c.room ok in
    (
      λ pos.
          IsBelow-Tracks v second minute limited l now second_window second ts (ground arith) t
            (subst (IsBelow (prune l (stamps l v) now) now second_window) h.per_second a) pos,
      λ pos.
          IsBelow-Tracks v second minute limited l now minute_window minute ts
            (ground (arith, pos, h.per_minute)) t
            (subst (IsBelow (prune l (stamps l v) now) now minute_window) h.per_minute b) pos,
    )
