-- ===== src/AdminSession/Examples.antt =====
-- internal/adminauth/session.go at concrete inputs: names and digests stand for themselves.
use herdr_pal.Prelude.{ℕ, zero, suc, ◌+◌, ◌<◌, List, [], ◌∷◌, none, some, ◌≡◌, refl, ℕ_discrete}
use herdr_pal.Prelude.Text.{Text, Text-discrete, codes}
use herdr_pal.AdminSession.{Primitives, Session, SessionManager, new_session_manager}
use herdr_pal.AdminSession.Operations.{get, revoke_user_except, session_digest, normalize_username}
use herdr_pal.AdminSession.Runs.{
  WasCreated, Call, create_call, rotate_call, session_run, get-session_run,
}
use herdr_pal.AdminSession.Revoked.{get-revoke_user_except}

abbrev plain : Primitives
plain = record { encode = λ b. b; decode = λ s. some s; sum = λ s. s; to_lower = λ s. s }

abbrev repeat : ℕ → ℕ → Text
repeat c zero = []
repeat c (suc n) = c ∷ repeat c n

abbrev manager : SessionManager
manager = record { sessions = []; idle_timeout = 100; absolute_timeout = 1000 }

abbrev anna : Text
anna = codes "anna"

-- A session of anna that is rotated from one identifier to another.
abbrev history : List Call
history =
    create_call anna 10 (some (repeat 1 32) ∷ some (repeat 2 32) ∷ [])
    ∷ rotate_call (repeat 1 32) 50 (some (repeat 3 32) ∷ some (repeat 4 32) ∷ [])
    ∷ []

abbrev seen : Session
seen = record { username = anna; created_at = 10; last_active_at = 60; absolute_expires_at = 1010 }

get_rotated : (get plain (session_run plain manager history) (repeat 3 32) 60).1 ≡ some seen
unfolding get session_run ℕ_discrete Text-discrete
get_rotated = refl

get_replaced : (get plain (session_run plain manager history) (repeat 1 32) 60).1 ≡ none
unfolding get session_run ℕ_discrete Text-discrete
get_replaced = refl

manager_new : new_session_manager 100 1000 ≡ some manager
unfolding new_session_manager ℕ_discrete
manager_new = refl

get-session_run_example : WasCreated plain history anna 10 × (1010 ≡ 10 + 1000) × (60 < 10 + 1000)
get-session_run_example =
    get-session_run plain 100 1000 manager history (repeat 3 32) 60 seen manager_new get_rotated

name_read : normalize_username plain anna ≡ some anna
unfolding normalize_username ℕ_discrete
name_read = refl

get_kept :
    (get plain
      (revoke_user_except plain (session_run plain manager history) anna (repeat 3 32))
      (repeat 3 32)
      60).1
    ≡ some seen
unfolding get session_run revoke_user_except ℕ_discrete Text-discrete
get_kept = refl

get-revoke_user_except_example :
    session_digest plain (repeat 3 32) ≡ session_digest plain (repeat 3 32)
get-revoke_user_except_example =
    get-revoke_user_except plain (session_run plain manager history) anna (repeat 3 32)
      (repeat 3 32) 60 anna seen name_read get_kept refl
