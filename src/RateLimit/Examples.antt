-- ===== src/RateLimit/Examples.antt =====
-- Tests of the rate limiter, and its theorems on concrete calls.
use herdr_pal.Prelude.{
  ℕ, ◌≡◌, ◌==◌, ◌&&◌, nat_eq, refl, List, [], ◌∷◌, true, false, arith, ℕ_discrete,
}
use herdr_pal.Prelude.Maps.{IsMap, lookup, insert}
use herdr_pal.Prelude.Sort.{sort}
use herdr_pal.Prelude.Text.{Text, text_eq, Text-discrete, codes}
use herdr_pal.RateLimit.{
  UserRateLimiter, new_user_rate_limiter, allow, prune, sweep_expired, sweep_users, window_retry,
  decide, second_window, minute_window,
}
use herdr_pal.RateLimit.Laws.{IsBelow}
use herdr_pal.RateLimit.Waiting.{allow_after_wait}
use herdr_pal.RateLimit.Windows.{run, accepted, allow_bounded}

abbrev ann : Text
ann = codes "ann"

abbrev fresh_limiter : UserRateLimiter
fresh_limiter = new_user_rate_limiter 2 3

abbrev inputs : List (Text × ℕ)
inputs = (ann, 1000) ∷ (ann, 2000) ∷ []

third_refused : (allow (run fresh_limiter inputs) ann 3000).1.allowed ≡ false
unfolding run allow prune sweep_expired sweep_users window_retry decide new_user_rate_limiter sort
    lookup insert Text-discrete ℕ_discrete
third_refused = refl

third_waits : (allow (run fresh_limiter inputs) ann 3000).1.retry_after ≡ 999998000
unfolding run allow prune sweep_expired sweep_users window_retry decide new_user_rate_limiter sort
    lookup insert Text-discrete ℕ_discrete
third_waits = refl

inputs-IsMap : IsMap (run fresh_limiter inputs).users
unfolding run allow prune sweep_expired sweep_users window_retry decide new_user_rate_limiter sort
    lookup insert Text-discrete ℕ_discrete
inputs-IsMap = (tt, tt)

second_allowed :
    (allow (run (new_user_rate_limiter 2 3) ((ann, 1000) ∷ [])) ann 2000).1.allowed ≡ true
unfolding run allow prune sweep_expired sweep_users window_retry decide new_user_rate_limiter sort
    lookup insert Text-discrete ℕ_discrete
second_allowed = refl

both_set : (◌==◌ {A = ℕ} 2 0 && ◌==◌ {A = ℕ} 3 0) ≡ false
unfolding ℕ_discrete
both_set = refl

allow_bounded_example :
    IsBelow (accepted ann (new_user_rate_limiter 2 3) ((ann, 1000) ∷ [])) 2000 second_window 2
    × IsBelow (accepted ann (new_user_rate_limiter 2 3) ((ann, 1000) ∷ [])) 2000 minute_window 3
allow_bounded_example =
    allow_bounded 2 3 ((ann, 1000) ∷ []) ann 2000 both_set (omega arith, tt) (omega arith)
      second_allowed

allow_after_wait_example :
    (allow (allow (run fresh_limiter inputs) ann 3000).0 ann 1000001000).1.allowed ≡ true
allow_after_wait_example =
    allow_after_wait (run fresh_limiter inputs) ann 3000 1000001000 inputs-IsMap third_refused
      (omega (arith, third_waits))
