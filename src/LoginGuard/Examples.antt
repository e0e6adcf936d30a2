-- ===== src/LoginGuard/Examples.antt =====
-- Tests of the login guard, and its theorems on concrete calls.
use herdr_pal.Prelude.{
  ◌≡◌, ◌≢◌, refl, List, [], ◌∷◌, true, false, none, some, ==_apart, arith, ℕ_discrete,
}
use herdr_pal.Prelude.Maps.{lookup, insert}
use herdr_pal.Prelude.Text.{Text, text_eq, Text-discrete, codes}
use herdr_pal.LoginGuard.{
  LoginGuard, Bucket, new_login_guard, active_bucket, bucket_allows, sweep_buckets, sweep_if_due,
  begin_with, begin, finish,
}
use herdr_pal.LoginGuard.Buckets.{IsBounded}
use herdr_pal.LoginGuard.Logins.{
  LoginCall, begins, finishes, login_run, login_run-IsBounded, begin_exclusive, begin-finish_locked,
}

abbrev ann : Text
ann = codes "ann"

abbrev bob : Text
bob = codes "bob"

abbrev home : Text
home = codes "10.0.0.1"

abbrev away : Text
away = codes "10.0.0.2"

abbrev between : List LoginCall
between = begins 2000 bob (some away) ∷ finishes 3000 bob (some away) false ∷ []

login_run-IsBounded_example : IsBounded (login_run new_login_guard between)
login_run-IsBounded_example = login_run-IsBounded between

began : (begin new_login_guard 1000 ann (some home)).1 ≡ true
unfolding begin begin_with active_bucket bucket_allows sweep_if_due sweep_buckets new_login_guard
    lookup insert Text-discrete ℕ_discrete
began = refl

bob_not_ann : bob ≢ ann
unfolding Text-discrete ℕ_discrete
bob_not_ann = ==_apart bob ann refl

begin_exclusive_example :
    (begin
      (login_run (begin new_login_guard 1000 ann (some home)).0 between)
      4000
      ann
      (some away)).1
    ≡ false
begin_exclusive_example =
    begin_exclusive new_login_guard 1000 4000 ann (some home) (some away) between began
      (omega arith, (bob_not_ann, tt)) (omega arith)

abbrev failing : Bucket
failing = record { failures = 4; in_flight = true; locked_until = none; last_seen = some 1000 }

abbrev nearly_locked : LoginGuard
nearly_locked = record { usernames = (ann, failing) ∷ []; sources = []; last_sweep = none }

failing_at : lookup ann nearly_locked.usernames ≡ some failing
unfolding lookup Text-discrete ℕ_discrete
failing_at = refl

begin-finish_locked_example :
    ((finish nearly_locked 2000 ann (some home) false).1 ≡ true)
    × ((begin (finish nearly_locked 2000 ann (some home) false).0 5000 ann (some away)).1 ≡ false)
begin-finish_locked_example =
    begin-finish_locked nearly_locked 2000 5000 ann home (some away) failing failing_at
      (omega arith) (omega arith)
