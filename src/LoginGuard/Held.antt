-- ===== src/LoginGuard/Held.antt =====
-- internal/adminauth/login_guard.go: one password check at a time for each user.
use herdr_pal.Prelude.{
  ℕ, ◌+◌, ◌≡◌, ◌≢◌, ◌<◌, refl, [], ◌∷◌, Bool, true, false, not, Option, none, some, nat_eq, keep,
  arith, subst, sym, ◌∙◌, Bool-cases, Option-cases, ==_cases, inl, inr,
}
use herdr_pal.Prelude.Maps.{Map, lookup, lookup-insert, lookup-delete}
use herdr_pal.Prelude.Text.{Text, text_eq}
use herdr_pal.LoginGuard.{
  LoginGuard, Bucket, lock_duration, bucket_expired, active_bucket, bucket_allows, sweep_buckets,
  sweep_due, sweep_if_due, begin_with, begin, begun, finish_login_failure, failed, finish,
}

-- The bucket of a password check that began at `t` and has not been finished.
pub record IsHeld (m : Map Text Bucket) (key : Text) (t : ℕ) : Type 0 where
  pub bucket : Bucket
  pub at : lookup key m ≡ some bucket
  pub busy : bucket.in_flight ≡ true
  pub unlocked : bucket.locked_until ≡ none
  pub seen : bucket.last_seen ≡ some t

IsHeld-at :
    (m n : Map Text Bucket) (key : Text) (t : ℕ) (h : IsHeld m key t)
    → lookup key n ≡ some h.bucket
    → IsHeld n key t
IsHeld-at m n key t h e = record {
  bucket = h.bucket;
  at = e;
  busy = h.busy;
  unlocked = h.unlocked;
  seen = h.seen;
}

-- It does not expire before the lock duration is over.
fresh_enough :
    (m : Map Text Bucket) (key : Text) (t now : ℕ) (h : IsHeld m key t)
    → now < t + lock_duration
    → bucket_expired h.bucket now ≡ false
unfolding bucket_expired
fresh_enough m key t now h lt = ground (arith, h.unlocked, h.seen, lt)

pub lookup-keep_value :
    (p : Bucket → Bool) (key : Text) (b : Bucket) (m : Map Text Bucket)
    → lookup key m ≡ some b
    → p b ≡ true
    → lookup key (keep (λ e. p e.1) m) ≡ some b
unfolding lookup
lookup-keep_value p key b [] e y = cc
lookup-keep_value p key b ((k, c) ∷ m) e y = ground (arith, e, y, lookup-keep_value p key b m)

module _ (key : Text) (t now : ℕ) (lt : now < t + lock_duration) where
  sweep-IsHeld :
      (g : LoginGuard) → IsHeld g.usernames key t → IsHeld (sweep_if_due g now).usernames key t
  unfolding sweep_if_due sweep_buckets
  sweep-IsHeld g h = elim (Bool-cases (not (sweep_due g.last_sweep now))) [
    | inl e ↦ rw (e, sweep_if_due) h
    | inr e ↦
        rw (e, sweep_if_due)
          (IsHeld-at g.usernames _ key t h (
            lookup-keep_value (λ b. not (bucket_expired b now)) key h.bucket g.usernames h.at
              (ground (arith, fresh_enough g.usernames key t now h lt))))
  ]

  active_held :
      (m : Map Text Bucket) (h : IsHeld m key t) → active_bucket m key now ≡ (m, some h.bucket)
  unfolding active_bucket
  active_held m h = ground (arith, h.at, fresh_enough m key t now h lt)

  active_other :
      (m : Map Text Bucket) (other : Text)
      → other ≢ key
      → lookup key (active_bucket m other now).0 ≡ lookup key m
  unfolding active_bucket
  active_other m other n = ground (arith, n, lookup-delete other key m)

  -- A second check of the same user is refused, and the first stays.
  begin_held :
      (g : LoginGuard) (source : Text) (ss : Map Text Bucket × Option Bucket)
      (h : IsHeld g.usernames key t)
      → begin_with g now key source (g.usernames, some h.bucket) ss
        ≡ (record g { sources = ss.0 }, false)
  unfolding begin_with bucket_allows
  begin_held g source ss h = ground (arith, h.busy)

  begin-other :
      (g : LoginGuard) (other source : Text) (us ss : Map Text Bucket × Option Bucket)
      → other ≢ key
      → lookup key (begin_with g now other source us ss).0.usernames ≡ lookup key us.0
  unfolding begin_with
  begin-other g other source us ss n =
      ground (arith, n, lookup-insert other key (begun us.1 now) us.0)

  pub begin_again :
      (g : LoginGuard) (source : Option Text)
      → IsHeld g.usernames key t
      → ((begin g now key source).1 ≡ false) × IsHeld (begin g now key source).0.usernames key t
  unfolding begin
  begin_again g none h = (refl, h)
  begin_again g (some source) h =
      let swept = sweep_if_due g now in
      let s = sweep-IsHeld g h in
      rw (active_held swept.usernames s)
        (rw (begin_held swept source (active_bucket swept.sources source now) s) (refl, s))

  pub begin-IsHeld :
      (g : LoginGuard) (user : Text) (source : Option Text)
      → IsHeld g.usernames key t
      → IsHeld (begin g now user source).0.usernames key t
  unfolding begin
  begin-IsHeld g user none h = h
  begin-IsHeld g user (some source) h = elim (==_cases user key) [
    | inl (same, _) ↦
        subst (λ u. IsHeld (begin g now u (some source)).0.usernames key t) (sym same)
          (begin_again g (some source) h).1
    | inr (other, _) ↦
        let swept = sweep_if_due g now in
        let s = sweep-IsHeld g h in
        IsHeld-at swept.usernames _ key t s (
          begin-other swept user source (active_bucket swept.usernames user now)
            (active_bucket swept.sources source now) other
          ∙ active_other swept.usernames user other
          ∙ s.at)
  ]

failure-other :
    (m : Map Text Bucket) (other key : Text) (now : ℕ)
    → other ≢ key
    → lookup key (finish_login_failure m other now).0 ≡ lookup key m
unfolding finish_login_failure
failure-other m other key now n = elim (Option-cases (lookup other m)) [
  | inl e ↦ ground (arith, e)
  | inr (b, e) ↦ ground (arith, e, n, lookup-insert other key (failed b now) m)
]

pub finish-IsHeld :
    (key : Text) (t now : ℕ) (g : LoginGuard) (user : Text) (source : Option Text)
    (succeeded : Bool)
    → user ≢ key
    → IsHeld g.usernames key t
    → IsHeld (finish g now user source succeeded).0.usernames key t
unfolding finish
finish-IsHeld key t now g user none succeeded n h = h
finish-IsHeld key t now g user (some source) true n h =
    IsHeld-at g.usernames _ key t h (ground (arith, n, h.at, lookup-delete user key g.usernames))
finish-IsHeld key t now g user (some source) false n h =
    IsHeld-at g.usernames _ key t h (failure-other g.usernames user key now n ∙ h.at)
