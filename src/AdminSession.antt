-- ===== src/AdminSession.antt =====
-- internal/adminauth/session.go: the browser sessions of administrators. Times are natural numbers of
-- nanoseconds; a negative duration, which NewSessionManager rejects, has no counterpart. What comes
-- from base64, SHA-256 and Unicode case is a record of functions, and the bytes that the random source
-- gives are an argument of each call, `none` where it fails.
pub mod Operations
mod Handled
mod Revoked
mod Runs
mod Examples
use herdr_pal.Prelude.{
  ℕ, zero, suc, ◌+◌, List, [], ◌∷◌, Bool, true, false, ◌&&◌, ◌||◌, not, Option, none, some, ◌==◌,
  nat_eq, leb, ltb, if◌then◌else◌, all, length, keep, Result, ok, err, ◌++◌,
}
use herdr_pal.Prelude.Maps.{Map, lookup, insert, delete}
use herdr_pal.Prelude.Text.{Text, text_eq, trim_space}

pub record Primitives : Type 0 where
  -- `base64.RawURLEncoding`
  pub encode : List ℕ → Text
  pub decode : Text → Option (List ℕ)
  -- `sha256.Sum256`
  pub sum : Text → Text
  -- `strings.ToLower`
  pub to_lower : Text → Text

pub record Session : Type 0 where
  pub username : Text
  pub created_at : ℕ
  pub last_active_at : ℕ
  pub absolute_expires_at : ℕ

pub record SessionCredentials : Type 0 where
  pub id : Text
  pub csrf_token : Text
  pub session : Session

pub record SessionRecord : Type 0 where
  pub session : Session
  pub csrf_digest : Text

pub record SessionManager : Type 0 where
  pub sessions : Map Text SessionRecord
  pub idle_timeout : ℕ
  pub absolute_timeout : ℕ

abbrev pub or_default : ℕ → ℕ → ℕ
or_default n default = if n == 0 then default else n

-- `NewSessionManager`
unfoldable pub new_session_manager : ℕ → ℕ → Option SessionManager
new_session_manager idle absolute =
    let idle_timeout = or_default idle 1800000000000 in
    let absolute_timeout = or_default absolute 43200000000000 in
    if ltb absolute_timeout idle_timeout
    then none
    else some
        (record { sessions = []; idle_timeout = idle_timeout; absolute_timeout = absolute_timeout })

-- `SessionManager.expired`
unfoldable pub expired : SessionManager → SessionRecord → ℕ → Bool
expired m r now =
    leb r.session.absolute_expires_at now || leb (r.session.last_active_at + m.idle_timeout) now

-- The loop of `purgeExpiredLocked`.
unfoldable pub keep_fresh : SessionManager → ℕ → Map Text SessionRecord → Map Text SessionRecord
unfolding expired
keep_fresh m now [] = []
keep_fresh m now (e ∷ rest) =
    let fresh = keep_fresh m now rest in if expired m e.1 now then fresh else e ∷ fresh

-- `purgeExpiredLocked`
unfoldable pub purge_expired : SessionManager → ℕ → SessionManager
unfolding keep_fresh
purge_expired m now = record m { sessions = keep_fresh m now m.sessions }

-- A session under a digest, whose record is deleted where it has expired.
unfoldable pub find_fresh : SessionManager → Text → ℕ → SessionManager × Option SessionRecord
unfolding lookup delete expired
find_fresh m digest now = elim (lookup digest m.sessions) [
  | none ↦ (m, none)
  | some r ↦
      if expired m r now
      then (record m { sessions = delete digest m.sessions }, none)
      else (m, some r)
]

abbrev pub touched : SessionRecord → ℕ → SessionRecord
touched r now = record r { session = record r.session { last_active_at = now } }

-- The test of a session that `RevokeUserExcept` deletes.
abbrev pub revoked : Text → Option Text → Text × SessionRecord → Bool
revoked name keep_digest e =
    e.1.session.username == name
    && elim keep_digest as (λ x. Bool) [ none ↦ true | some digest ↦ not (e.0 == digest) ]

abbrev is_letter : ℕ → Bool
is_letter c = leb b'a' c && leb c b'z'

abbrev is_name_character : ℕ → Bool
is_name_character c =
    is_letter c || (leb b'0' c && leb c b'9') || c == b'.' || c == b'_' || c == b'-'

-- `usernamePattern`
unfoldable pub is_username : Text → Bool
is_username [] = false
is_username (c ∷ s) =
    is_letter c && all is_name_character s && leb 2 (length s) && leb (length s) 31

pub data SessionError : Type 0 where
  invalid_username invalid_session_config session_not_found : SessionError

-- What `generateCredentialsLocked` gives.
pub record Generated : Type 0 where
  pub id : Text
  pub id_digest : Text
  pub csrf : Text
  pub csrf_digest : Text
