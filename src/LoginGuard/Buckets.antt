-- ===== src/LoginGuard/Buckets.antt =====
-- internal/adminauth/login_guard.go: the number of buckets is bounded.
use herdr_pal.Prelude.{
  ℕ, suc, ◌≡◌, ◌≤◌, refl, [], ◌∷◌, Bool, true, false, ◌||◌, not, Option, none, some, nat_eq, length,
  length-keep-le, arith, Bool-cases, Option-cases, inl, inr,
}
use herdr_pal.Prelude.Maps.{Map, lookup, insert, delete}
use herdr_pal.Prelude.Text.{Text, text_eq}
use herdr_pal.LoginGuard.{
  LoginGuard, Bucket, bucket_capacity, bucket_expired, active_bucket, bucket_allows, sweep_buckets,
  sweep_due, sweep_if_due, begin_with, begin, begun, is_full, finish_login_failure, finish,
}

length-delete : (key : Text) (m : Map Text Bucket) → length (delete key m) ≤ length m
unfolding delete
length-delete key [] = omega arith
length-delete key ((k, b) ∷ m) = ground (arith, length-delete key m)

length-insert :
    (key : Text) (b : Bucket) (m : Map Text Bucket) → length (insert key b m) ≤ suc (length m)
unfolding insert
length-insert key b [] = omega arith
length-insert key b ((k, c) ∷ m) = ground (arith, length-insert key b m)

length-insert_old :
    (key : Text) (b old : Bucket) (m : Map Text Bucket)
    → lookup key m ≡ some old
    → length (insert key b m) ≡ length m
unfolding insert lookup
length-insert_old key b old [] e = cc
length-insert_old key b old ((k, c) ∷ m) e = ground (arith, e, length-insert_old key b old m)

abbrev IsSmall : Map Text Bucket → Type 0
IsSmall m = length m ≤ bucket_capacity

-- There are at most 4096 buckets for users and as many for sources.
pub record IsBounded (g : LoginGuard) : Type 0 where
  pub users : length g.usernames ≤ bucket_capacity
  pub sources : length g.sources ≤ bucket_capacity

active_bucket-IsSmall :
    (m : Map Text Bucket) (key : Text) (now : ℕ) → IsSmall m → IsSmall (active_bucket m key now).0
unfolding active_bucket
active_bucket-IsSmall m key now h = ground (arith, h, length-delete key m)

active_bucket-lookup :
    (m : Map Text Bucket) (key : Text) (now : ℕ) (b : Bucket)
    → (active_bucket m key now).1 ≡ some b
    → lookup key (active_bucket m key now).0 ≡ some b
unfolding active_bucket
active_bucket-lookup m key now b e = ground (arith, e)

begun-IsSmall :
    (m : Map Text Bucket) (key : Text) (now : ℕ) (o : Option Bucket)
    → IsSmall m
    → is_full m o ≡ false
    → ((b : Bucket) → o ≡ some b → lookup key m ≡ some b)
    → IsSmall (insert key (begun o now) m)
begun-IsSmall m key now none h f l = ground (arith, f, length-insert key (begun none now) m)
begun-IsSmall m key now (some b) h f l =
    omega (arith, h, length-insert_old key (begun (some b) now) b m (l b refl))

begin_with-IsBounded :
    (g : LoginGuard) (now : ℕ) (user source : Text) (us ss : Map Text Bucket × Option Bucket)
    → IsSmall us.0
    → IsSmall ss.0
    → ((b : Bucket) → us.1 ≡ some b → lookup user us.0 ≡ some b)
    → ((b : Bucket) → ss.1 ≡ some b → lookup source ss.0 ≡ some b)
    → IsBounded (begin_with g now user source us ss).0
unfolding begin_with
begin_with-IsBounded g now user source us ss hu hs lu ls =
    elim (Bool-cases (not (bucket_allows us.1 now) || not (bucket_allows ss.1 now))) [
      | inl no_way ↦ rw (no_way, begin_with) (record { users = hu; sources = hs })
      | inr free ↦ elim (Bool-cases (is_full us.0 us.1 || is_full ss.0 ss.1)) [
        | inl full ↦ rw (free, full, begin_with) (record { users = hu; sources = hs })
        | inr room ↦
            rw (free, room, begin_with)
              (record {
                users = begun-IsSmall us.0 user now us.1 hu (ground (arith, room)) lu;
                sources = begun-IsSmall ss.0 source now ss.1 hs (ground (arith, room)) ls;
              })
      ]
    ]

sweep_if_due-IsBounded : (g : LoginGuard) (now : ℕ) → IsBounded g → IsBounded (sweep_if_due g now)
unfolding sweep_if_due sweep_buckets
sweep_if_due-IsBounded g now h = elim (Bool-cases (not (sweep_due g.last_sweep now))) [
  | inl e ↦ rw (e, sweep_if_due) h
  | inr e ↦
      rw (e, sweep_if_due)
        (record {
          users =
              omega (
                arith,
                h.users,
                length-keep-le {0} (λ e. not (bucket_expired e.1 now)) g.usernames,
              );
          sources =
              omega (
                arith,
                h.sources,
                length-keep-le {0} (λ e. not (bucket_expired e.1 now)) g.sources,
              );
        })
]

pub begin-IsBounded :
    (g : LoginGuard) (now : ℕ) (user : Text) (source : Option Text)
    → IsBounded g
    → IsBounded (begin g now user source).0
unfolding begin
begin-IsBounded g now user none h = h
begin-IsBounded g now user (some source) h =
    let s = sweep_if_due-IsBounded g now h in
    let swept = sweep_if_due g now in
    begin_with-IsBounded swept now user source _ _
      (active_bucket-IsSmall swept.usernames user now s.users)
      (active_bucket-IsSmall swept.sources source now s.sources)
      (active_bucket-lookup swept.usernames user now)
      (active_bucket-lookup swept.sources source now)

finish_login_failure-IsSmall :
    (m : Map Text Bucket) (key : Text) (now : ℕ)
    → IsSmall m
    → IsSmall (finish_login_failure m key now).0
unfolding finish_login_failure
finish_login_failure-IsSmall m key now h = elim (Option-cases (lookup key m)) [
  | inl e ↦ rw (e, finish_login_failure) h
  | inr (b, e) ↦ rw (e, finish_login_failure) (omega (arith, h, length-insert_old key _ b m e))
]

pub finish-IsBounded :
    (g : LoginGuard) (now : ℕ) (user : Text) (source : Option Text) (succeeded : Bool)
    → IsBounded g
    → IsBounded (finish g now user source succeeded).0
unfolding finish
finish-IsBounded g now user none succeeded h = h
finish-IsBounded g now user (some source) true h = record {
  users = omega (arith, h.users, length-delete user g.usernames);
  sources = omega (arith, h.sources, length-delete source g.sources);
}
finish-IsBounded g now user (some source) false h = record {
  users = finish_login_failure-IsSmall g.usernames user now h.users;
  sources = finish_login_failure-IsSmall g.sources source now h.sources;
}
