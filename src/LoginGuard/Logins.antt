-- ===== src/LoginGuard/Logins.antt =====
-- internal/adminauth/login_guard.go: histories of logins.
use herdr_pal.Prelude.{
  ℕ, ◌+◌, ◌≡◌, ◌≢◌, ◌<◌, ◌≤◌, refl, List, [], ◌∷◌, Bool, true, false, not, Option, none, some,
  nat_eq, All, arith, ap, Bool-cases, inl, inr,
}
use herdr_pal.Prelude.Maps.{Map, lookup, lookup-insert}
use herdr_pal.Prelude.Text.{Text, text_eq}
use herdr_pal.LoginGuard.{
  LoginGuard, Bucket, new_login_guard, lock_duration, failure_limit, bucket_expired, active_bucket,
  bucket_allows, sweep_buckets, sweep_due, sweep_if_due, begin_with, begin, begun,
  finish_login_failure, failed, finish,
}
use herdr_pal.LoginGuard.Buckets.{IsBounded, begin-IsBounded, finish-IsBounded}
use herdr_pal.LoginGuard.Held.{IsHeld, lookup-keep_value, begin_again, begin-IsHeld, finish-IsHeld}

pub data LoginCall : Type 0 where
  begins : ℕ → Text → Option Text → LoginCall
  finishes : ℕ → Text → Option Text → Bool → LoginCall

unfoldable pub login_step : LoginGuard → LoginCall → LoginGuard
login_step g (begins now user source) = (begin g now user source).0
login_step g (finishes now user source succeeded) = (finish g now user source succeeded).0

unfoldable pub login_run : LoginGuard → List LoginCall → LoginGuard
login_run g [] = g
login_run g (call ∷ calls) = login_run (login_step g call) calls

IsBounded-from :
    (g : LoginGuard) (calls : List LoginCall) → IsBounded g → IsBounded (login_run g calls)
unfolding login_run login_step
IsBounded-from g [] h = h
IsBounded-from g (begins now user source ∷ calls) h =
    IsBounded-from (begin g now user source).0 calls (begin-IsBounded g now user source h)
IsBounded-from g (finishes now user source succeeded ∷ calls) h =
    IsBounded-from (finish g now user source succeeded).0 calls
      (finish-IsBounded g now user source succeeded h)

-- After any calls from a new guard there are at most 4096 buckets for users and at most 4096 for
-- sources.
pub login_run-IsBounded : (calls : List LoginCall) → IsBounded (login_run new_login_guard calls)
unfolding new_login_guard
login_run-IsBounded calls =
    IsBounded-from new_login_guard calls (record { users = omega arith; sources = omega arith })

-- A call that comes before the lock duration is over and does not finish this user's check.
abbrev pub IsQuiet : Text → ℕ → LoginCall → Type 0
IsQuiet key t (begins now user source) = now < t + lock_duration
IsQuiet key t (finishes now user source succeeded) = user ≢ key

IsHeld-through :
    (key : Text) (t : ℕ) (g : LoginGuard) (calls : List LoginCall)
    → All (IsQuiet key t) calls
    → IsHeld g.usernames key t
    → IsHeld (login_run g calls).usernames key t
unfolding login_run login_step
IsHeld-through key t g [] q h = h
IsHeld-through key t g (begins now user source ∷ calls) q h =
    IsHeld-through key t (begin g now user source).0 calls q.1
      (begin-IsHeld key t now q.0 g user source h)
IsHeld-through key t g (finishes now user source succeeded ∷ calls) q h =
    IsHeld-through key t (finish g now user source succeeded).0 calls q.1
      (finish-IsHeld key t now g user source succeeded q.0 h)

active_bucket-live :
    (m : Map Text Bucket) (key : Text) (now : ℕ) (b : Bucket)
    → (active_bucket m key now).1 ≡ some b
    → bucket_expired b now ≡ false
unfolding active_bucket
active_bucket-live m key now b e = ground (arith, e)

unlocked_bucket :
    (now : ℕ) (o : Option Bucket)
    → bucket_allows o now ≡ true
    → ((b : Bucket) → o ≡ some b → bucket_expired b now ≡ false)
    → (begun o now).locked_until ≡ none
unfolding bucket_allows bucket_expired
unlocked_bucket now none a l = refl
unlocked_bucket now (some b) a l = ground (arith, a, l b refl)

begun-IsHeld :
    (g : LoginGuard) (now : ℕ) (user source : Text) (us ss : Map Text Bucket × Option Bucket)
    → ((b : Bucket) → us.1 ≡ some b → bucket_expired b now ≡ false)
    → (begin_with g now user source us ss).1 ≡ true
    → IsHeld (begin_with g now user source us ss).0.usernames user now
unfolding begin_with
begun-IsHeld g now user source us ss l e = record {
  bucket = begun us.1 now;
  at = ground (arith, e, lookup-insert user user (begun us.1 now) us.0);
  busy = refl;
  unlocked = unlocked_bucket now us.1 (ground (arith, e)) l;
  seen = refl;
}

began-IsHeld :
    (g : LoginGuard) (now : ℕ) (user : Text) (source : Option Text)
    → (begin g now user source).1 ≡ true
    → IsHeld (begin g now user source).0.usernames user now
unfolding begin
began-IsHeld g now user none e = cc
began-IsHeld g now user (some source) e =
    begun-IsHeld (sweep_if_due g now) now user source _ _
      (active_bucket-live (sweep_if_due g now).usernames user now) e

-- While a password check of a user is in flight, another check of the same user is refused from
-- any source, within 15 minutes of the first, whatever checks of any user began in these 15
-- minutes and whatever checks of other users were finished in between.
pub begin_exclusive :
    (g : LoginGuard) (t now : ℕ) (user : Text) (source other : Option Text) (calls : List LoginCall)
    → (begin g t user source).1 ≡ true
    → All (IsQuiet user t) calls
    → now < t + lock_duration
    → (begin (login_run (begin g t user source).0 calls) now user other).1 ≡ false
begin_exclusive g t now user source other calls began quiet lt =
    (begin_again user t now lt (login_run (begin g t user source).0 calls) other (
      IsHeld-through user t (begin g t user source).0 calls quiet
        (began-IsHeld g t user source began))).0

-- The bucket is locked and its lock is not over.
record IsLocked (m : Map Text Bucket) (key : Text) (until : ℕ) : Type 0 where
  pub bucket : Bucket
  pub at : lookup key m ≡ some bucket
  pub locked : bucket.locked_until ≡ some until

module _ (key : Text) (until now : ℕ) (lt : now < until) where
  not_expired : (b : Bucket) → b.locked_until ≡ some until → bucket_expired b now ≡ false
  unfolding bucket_expired
  not_expired b e = ground (arith, e, lt)

  sweep-IsLocked :
      (g : LoginGuard)
      → IsLocked g.usernames key until
      → IsLocked (sweep_if_due g now).usernames key until
  unfolding sweep_if_due sweep_buckets
  sweep-IsLocked g h = elim (Bool-cases (not (sweep_due g.last_sweep now))) [
    | inl e ↦ rw (e, sweep_if_due) h
    | inr e ↦
        rw (e, sweep_if_due)
          (record {
            bucket = h.bucket;
            at =
                lookup-keep_value (λ b. not (bucket_expired b now)) key h.bucket g.usernames h.at
                  (ground (arith, not_expired h.bucket h.locked));
            locked = h.locked;
          })
  ]

  active_locked :
      (m : Map Text Bucket) (h : IsLocked m key until)
      → active_bucket m key now ≡ (m, some h.bucket)
  unfolding active_bucket
  active_locked m h = ground (arith, h.at, not_expired h.bucket h.locked)

  refused_with :
      (g : LoginGuard) (source : Text) (us ss : Map Text Bucket × Option Bucket) (b : Bucket)
      → us.1 ≡ some b
      → b.locked_until ≡ some until
      → (begin_with g now key source us ss).1 ≡ false
  unfolding begin_with bucket_allows
  refused_with g source us ss b e l = ground (arith, e, l, lt)

  begin_locked :
      (g : LoginGuard) (source : Option Text)
      → IsLocked g.usernames key until
      → (begin g now key source).1 ≡ false
  unfolding begin
  begin_locked g none h = refl
  begin_locked g (some source) h =
      let swept = sweep_if_due g now in
      let s = sweep-IsLocked g h in
      refused_with swept source _ _ s.bucket (ap (λ r. r.1) (active_locked swept.usernames s))
        s.locked

-- A failed check of a user whose bucket has at least four failures reports a lock, and a check of
-- the user that begins next, within 15 minutes, is refused from any source.
pub begin-finish_locked :
    (g : LoginGuard) (now later : ℕ) (user source : Text) (other : Option Text) (b : Bucket)
    → lookup user g.usernames ≡ some b
    → failure_limit ≤ b.failures + 1
    → later < now + lock_duration
    → ((finish g now user (some source) false).1 ≡ true)
      × ((begin (finish g now user (some source) false).0 later user other).1 ≡ false)
unfolding finish finish_login_failure
begin-finish_locked g now later user source other b e many lt = (
  ground (arith, e, many),
  begin_locked user (now + lock_duration) later lt _ other (record {
    bucket = failed b now;
    at = ground (arith, e, lookup-insert user user (failed b now) g.usernames);
    locked = ground (arith, many);
  }),
)
