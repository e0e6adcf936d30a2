-- ===== src/RateLimit.antt =====
-- internal/server/rate_limiter.go: rolling windows of the inputs of each chat user. Times are
-- nanoseconds, and the clock's reading is an argument of the call that reads it. A limit that is not
-- positive is 0.
pub mod Sweeping
pub mod Laws
pub mod Windows
pub mod Sorted
pub mod Waiting
mod Examples
use herdr_pal.Prelude.{
  ℕ, ◌+◌, ◌-◌, max, List, [], ◌∷◌, ◌++◌, Bool, true, false, ◌&&◌, ◌||◌, not, Option, none, some,
  ◌==◌, nat_eq, ltb, leb, if◌then◌else◌, length, keep, get_elem?,
}
use herdr_pal.Prelude.Maps.{Map, lookup, insert}
use herdr_pal.Prelude.Sort.{sort}
use herdr_pal.Prelude.Text.{Text, text_eq, codes}

abbrev pub second_window : ℕ
second_window = 1000000000

abbrev pub minute_window : ℕ
minute_window = 60000000000

abbrev pub sweep_interval : ℕ
sweep_interval = 60000000000

-- `RateLimitDecision`
pub record RateLimitDecision : Type 0 where
  pub allowed : Bool
  pub retry_after : ℕ
  pub window : Text

-- `last_sweep` is `none` before the first sweep.
pub record UserRateLimiter : Type 0 where
  pub per_second : ℕ
  pub per_minute : ℕ
  pub users : Map Text (List ℕ)
  pub last_sweep : Option ℕ

-- `NewUserRateLimiter`
unfoldable pub new_user_rate_limiter : ℕ → ℕ → UserRateLimiter
new_user_rate_limiter per_second per_minute = record {
  per_second = per_second;
  per_minute = per_minute;
  users = [];
  last_sweep = none;
}

-- `Limits`
unfoldable pub limits : UserRateLimiter → ℕ × ℕ
limits l = (l.per_second, l.per_minute)

-- `age < 0 || age < window`
abbrev pub within : ℕ → ℕ → ℕ → Bool
within now window t = ltb now t || ltb (now - t) window

abbrev pub prune_window : UserRateLimiter → ℕ
prune_window l = if l.per_minute == 0 then second_window else minute_window

-- `prune`
unfoldable pub prune : UserRateLimiter → List ℕ → ℕ → List ℕ
prune l ts now = keep (within now (prune_window l)) ts

abbrev pub is_empty {ℓ} : {A : Type ℓ} → List A → Bool
is_empty [] = true
is_empty (x ∷ xs) = false

-- The loop of `sweepExpired`.
unfoldable pub sweep_users : UserRateLimiter → ℕ → Map Text (List ℕ) → Map Text (List ℕ)
sweep_users l now [] = []
sweep_users l now ((u, ts) ∷ rest) =
    let later = sweep_users l now rest in
    if is_empty (prune l ts now) then later else (u, prune l ts now) ∷ later

abbrev pub swept_recently : Option ℕ → ℕ → Bool
swept_recently none now = false
swept_recently (some t) now = ltb now t || ltb (now - t) sweep_interval

-- `sweepExpired`
unfoldable pub sweep_expired : UserRateLimiter → ℕ → UserRateLimiter
unfolding sweep_users
sweep_expired l now =
    if swept_recently l.last_sweep now
    then l
    else record l { users = sweep_users l now l.users; last_sweep = some now }

abbrev wait_until : ℕ → ℕ → Option ℕ → Option ℕ
wait_until now window none = none
wait_until now window (some t) = some (if leb (t + window) now then 1 else (t + window) - now)

-- `windowRetry`: `none` where the limit is not exceeded.
unfoldable pub window_retry : List ℕ → ℕ → ℕ → ℕ → Option ℕ
window_retry ts now window limit =
    let eligible = keep (within now window) ts in
    if limit == 0
    then none
    else if ltb (length eligible) limit
    then none
    else wait_until now window (get_elem? (sort ltb eligible) (length eligible - limit))

abbrev pub stamps_of : Option (List ℕ) → List ℕ
stamps_of none = []
stamps_of (some ts) = ts

-- `limiter.users[userID]`
abbrev pub stamps : UserRateLimiter → Text → List ℕ
stamps l u = stamps_of (lookup u l.users)

abbrev pub allows : RateLimitDecision
allows = record { allowed = true; retry_after = 0; window = [] }

abbrev pub refuses : ℕ → Text → RateLimitDecision
refuses wait window = record { allowed = false; retry_after = wait; window = window }

-- The end of `Allow`, with what the two windows say.
unfoldable pub decide :
    UserRateLimiter → Text → ℕ → List ℕ → Option ℕ → Option ℕ → UserRateLimiter × RateLimitDecision
decide l u now ts none none = (record l { users = insert u (ts ++ now ∷ []) l.users }, allows)
decide l u now ts (some a) none = (l, refuses (max a 1) (codes "second"))
decide l u now ts none (some b) = (l, refuses (max b 1) (codes "minute"))
decide l u now ts (some a) (some b) = (l, refuses (max (max a b) 1) (codes "second,minute"))

-- `Allow`
unfoldable pub allow : UserRateLimiter → Text → ℕ → UserRateLimiter × RateLimitDecision
unfolding sweep_expired prune decide
allow l u now =
    if l.per_second == 0 && l.per_minute == 0
    then (l, allows)
    else let l1 = sweep_expired l now in
      let ts = prune l1 (stamps l1 u) now in
      let l2 = record l1 { users = insert u ts l1.users } in
      decide l2 u now ts (window_retry ts now second_window l1.per_second)
        (window_retry ts now minute_window l1.per_minute)
