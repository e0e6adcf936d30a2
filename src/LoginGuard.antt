-- ===== src/LoginGuard.antt =====
-- internal/adminauth/login_guard.go: the buckets that limit failed and concurrent logins. Times are
-- nanoseconds, and the clock's reading is an argument. A user is its key, which loginUsernameKey
-- computes; a source is the text of an unmapped address, or `none` for one that is not valid.
pub mod Buckets
pub mod Held
pub mod Logins
mod Examples
use herdr_pal.Prelude.{
  ℕ, ◌+◌, ◌-◌, List, [], ◌∷◌, Bool, true, false, ◌&&◌, ◌||◌, not, Option, none, some, ◌==◌, nat_eq,
  ltb, leb, if◌then◌else◌, length, keep,
}
use herdr_pal.Prelude.Maps.{Map, lookup, insert, delete}
use herdr_pal.Prelude.Text.{Text, text_eq}

abbrev pub failure_limit : ℕ
failure_limit = 5

abbrev pub lock_duration : ℕ
lock_duration = 900000000000

abbrev pub guard_sweep_interval : ℕ
guard_sweep_interval = 60000000000

abbrev pub bucket_capacity : ℕ
bucket_capacity = 4096

-- `loginBucket`; `none` is the zero time.
pub record Bucket : Type 0 where
  pub failures : ℕ
  pub in_flight : Bool
  pub locked_until : Option ℕ
  pub last_seen : Option ℕ

abbrev pub empty_bucket : Bucket
empty_bucket = record { failures = 0; in_flight = false; locked_until = none; last_seen = none }

-- `LoginGuard`
pub record LoginGuard : Type 0 where
  pub usernames : Map Text Bucket
  pub sources : Map Text Bucket
  pub last_sweep : Option ℕ

-- `NewLoginGuard`
unfoldable pub new_login_guard : LoginGuard
new_login_guard = record { usernames = []; sources = []; last_sweep = none }

abbrev pub seen_long_ago : Option ℕ → ℕ → Bool
seen_long_ago none now = false
seen_long_ago (some t) now = leb (t + lock_duration) now

abbrev pub expired_from : Option ℕ → Option ℕ → ℕ → Bool
expired_from none seen now = seen_long_ago seen now
expired_from (some until) seen now = leb until now

-- `loginBucketExpired`
unfoldable pub bucket_expired : Bucket → ℕ → Bool
bucket_expired b now = expired_from b.locked_until b.last_seen now

-- `activeLoginBucket`: the map without the bucket if it has expired, and the bucket if it has not.
unfoldable pub active_bucket : Map Text Bucket → Text → ℕ → Map Text Bucket × Option Bucket
unfolding bucket_expired
active_bucket m key now = elim (lookup key m) [
  | none ↦ (m, none)
  | some b ↦ if bucket_expired b now then (delete key m, none) else (m, some b)
]

abbrev pub lock_over : Option ℕ → ℕ → Bool
lock_over none now = true
lock_over (some until) now = leb until now

-- `loginBucketAllows`
unfoldable pub bucket_allows : Option Bucket → ℕ → Bool
bucket_allows none now = true
bucket_allows (some b) now = if b.in_flight then false else lock_over b.locked_until now

-- `sweepLoginBuckets`
unfoldable pub sweep_buckets : Map Text Bucket → ℕ → Map Text Bucket
sweep_buckets m now = keep (λ e. not (bucket_expired e.1 now)) m

abbrev pub sweep_due : Option ℕ → ℕ → Bool
sweep_due none now = true
sweep_due (some t) now = leb guard_sweep_interval (now - t)

-- `sweepIfDue`
unfoldable pub sweep_if_due : LoginGuard → ℕ → LoginGuard
unfolding sweep_buckets
sweep_if_due g now = if not (sweep_due g.last_sweep now) then g else record {
  usernames = sweep_buckets g.usernames now;
  sources = sweep_buckets g.sources now;
  last_sweep = some now;
}

abbrev pub or_empty_bucket : Option Bucket → Bucket
or_empty_bucket none = empty_bucket
or_empty_bucket (some b) = b

-- The bucket that `Begin` writes.
abbrev pub begun : Option Bucket → ℕ → Bucket
begun o now = record (or_empty_bucket o) { in_flight = true; last_seen = some now }

abbrev pub is_full : Map Text Bucket → Option Bucket → Bool
is_full m none = leb bucket_capacity (length m)
is_full m (some b) = false

-- `Begin` with a valid source, after the sweep and with the two active buckets.
unfoldable pub begin_with :
    LoginGuard
    → ℕ
    → Text
    → Text
    → Map Text Bucket × Option Bucket
    → Map Text Bucket × Option Bucket
    → LoginGuard × Bool
unfolding bucket_allows
begin_with g now user source us ss =
    let g1 = record g { usernames = us.0; sources = ss.0 } in
    if not (bucket_allows us.1 now) || not (bucket_allows ss.1 now)
    then (g1, false)
    else if is_full us.0 us.1 || is_full ss.0 ss.1
    then (g1, false)
    else (
      record g1 {
        usernames = insert user (begun us.1 now) us.0;
        sources = insert source (begun ss.1 now) ss.0;
      },
      true,
    )

-- `Begin`
unfoldable pub begin : LoginGuard → ℕ → Text → Option Text → LoginGuard × Bool
unfolding sweep_if_due active_bucket begin_with
begin g now user none = (g, false)
begin g now user (some source) =
    let swept = sweep_if_due g now in
    begin_with swept now user source (active_bucket swept.usernames user now)
      (active_bucket swept.sources source now)

-- The bucket that a failure leaves.
abbrev pub failed : Bucket → ℕ → Bucket
failed b now = record {
  failures = b.failures + 1;
  in_flight = false;
  locked_until =
      if leb failure_limit (b.failures + 1) then some (now + lock_duration) else b.locked_until;
  last_seen = some now;
}

abbrev pub is_locked : Option ℕ → ℕ → Bool
is_locked none now = false
is_locked (some until) now = ltb now until

-- `finishLoginFailure`
unfoldable pub finish_login_failure : Map Text Bucket → Text → ℕ → Map Text Bucket × Bool
finish_login_failure m key now = elim (lookup key m) [
  | none ↦ (m, true)
  | some b ↦ (insert key (failed b now) m, is_locked (failed b now).locked_until now)
]

-- `Finish`
unfoldable pub finish : LoginGuard → ℕ → Text → Option Text → Bool → LoginGuard × Bool
unfolding finish_login_failure
finish g now user none succeeded = (g, true)
finish g now user (some source) true =
    (record g { usernames = delete user g.usernames; sources = delete source g.sources }, false)
finish g now user (some source) false =
    let us = finish_login_failure g.usernames user now in
    let ss = finish_login_failure g.sources source now in
    (record g { usernames = us.0; sources = ss.0 }, us.1 || ss.1)
