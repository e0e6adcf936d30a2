-- ===== src/AdminSession/Operations.antt =====
-- internal/adminauth/session.go: the calls of a session manager. Every method holds the lock, so a
-- call is one step.
use herdr_pal.Prelude.{
  ℕ, zero, suc, ◌+◌, List, [], ◌∷◌, Bool, false, ◌&&◌, not, Option, none, some, ◌==◌, nat_eq,
  if◌then◌else◌, length, keep, Result, ok, err,
}
use herdr_pal.Prelude.Maps.{lookup, insert, delete}
use herdr_pal.Prelude.Text.{Text, text_eq, trim_space}
use herdr_pal.AdminSession.{
  Primitives, Session, SessionCredentials, SessionManager, purge_expired, is_username, find_fresh,
  touched, revoked, SessionError, invalid_username, invalid_session_config, session_not_found,
  Generated,
}

module _ (p : Primitives) where
  -- `normalizeUsername`
  unfoldable pub normalize_username : Text → Option Text
  unfolding trim_space is_username
  normalize_username s =
      let username = p.to_lower (trim_space s) in
      if is_username username then some username else none

  -- `sessionDigest`
  unfoldable pub session_digest : Text → Option Text
  session_digest value = elim (p.decode value) [
    | none ↦ none
    | some decoded ↦
        if length decoded == 32 && p.encode decoded == value then some (p.sum value) else none
  ]

  -- The end of a round of `generateCredentialsLocked`.
  unfoldable pub generate_csrf : Text → List (Option (List ℕ)) → Option Generated
  generate_csrf id [] = none
  generate_csrf id (none ∷ reads) = none
  generate_csrf id (some value ∷ reads) = some (record {
    id = id;
    id_digest = p.sum id;
    csrf = p.encode value;
    csrf_digest = p.sum (p.encode value);
  })

  -- The loop of `generateCredentialsLocked`.
  unfoldable pub generate_from : ℕ → SessionManager → List (Option (List ℕ)) → Option Generated
  unfolding lookup generate_csrf
  generate_from zero m reads = none
  generate_from (suc tries) m [] = none
  generate_from (suc tries) m (none ∷ reads) = none
  generate_from (suc tries) m (some value ∷ reads) =
      let again = generate_from tries m reads in
      elim (lookup (p.sum (p.encode value)) m.sessions) [
        | some taken ↦ again
        | none ↦ generate_csrf (p.encode value) reads
      ]

  -- `generateCredentialsLocked`
  unfoldable pub generate_credentials : SessionManager → List (Option (List ℕ)) → Option Generated
  unfolding generate_from
  generate_credentials m reads = generate_from 32 m reads

  abbrev credentials_of : Generated → Session → SessionCredentials
  credentials_of g s = record { id = g.id; csrf_token = g.csrf; session = s }

  -- `SessionManager.Create`
  unfoldable pub create :
      SessionManager
      → Text
      → ℕ
      → List (Option (List ℕ))
      → SessionManager × Result SessionError SessionCredentials
  unfolding normalize_username purge_expired generate_credentials insert
  create m username now reads = elim (normalize_username username) [
    | none ↦ (m, err invalid_username)
    | some name ↦
        let fresh = purge_expired m now in
        elim (generate_credentials fresh reads) [
          | none ↦ (fresh, err invalid_session_config)
          | some g ↦
              let session : Session = record {
                username = name;
                created_at = now;
                last_active_at = now;
                absolute_expires_at = now + m.absolute_timeout;
              } in
              (
                record fresh {
                  sessions =
                      insert g.id_digest (record { session = session; csrf_digest = g.csrf_digest })
                        fresh.sessions;
                },
                ok (credentials_of g session),
              )
        ]
  ]

  -- `SessionManager.Get`
  unfoldable pub get : SessionManager → Text → ℕ → SessionManager × Option Session
  unfolding session_digest find_fresh insert
  get m id now = elim (session_digest id) [
    | none ↦ (m, none)
    | some digest ↦
        let found = find_fresh m digest now in
        elim found.1 [
          | none ↦ (found.0, none)
          | some r ↦ (
            record m { sessions = insert digest (touched r now) m.sessions },
            some (touched r now).session,
          )
        ]
  ]

  -- `SessionManager.VerifyCSRF`
  unfoldable pub verify_csrf : SessionManager → Text → Text → ℕ → SessionManager × Bool
  unfolding session_digest find_fresh
  verify_csrf m id token now = elim (session_digest id) [
    | none ↦ (m, false)
    | some digest ↦ elim (session_digest token) [
      | none ↦ (m, false)
      | some csrf ↦
          let found = find_fresh m digest now in
          elim found.1 [ none ↦ (found.0, false) | some r ↦ (m, r.csrf_digest == csrf) ]
    ]
  ]

  -- `SessionManager.Rotate`
  unfoldable pub rotate :
      SessionManager
      → Text
      → ℕ
      → List (Option (List ℕ))
      → SessionManager × Result SessionError SessionCredentials
  unfolding session_digest find_fresh generate_credentials insert delete
  rotate m id now reads = elim (session_digest id) [
    | none ↦ (m, err session_not_found)
    | some digest ↦
        let found = find_fresh m digest now in
        elim found.1 [
          | none ↦ (found.0, err session_not_found)
          | some r ↦ elim (generate_credentials m reads) [
            | none ↦ (m, err invalid_session_config)
            | some g ↦
                let moved = record (touched r now) { csrf_digest = g.csrf_digest } in
                (
                  record m { sessions = insert g.id_digest moved (delete digest m.sessions) },
                  ok (credentials_of g moved.session),
                )
          ]
        ]
  ]

  -- `SessionManager.Delete`
  unfoldable pub delete_session : SessionManager → Text → SessionManager
  unfolding session_digest delete
  delete_session m id = elim (session_digest id) [
    | none ↦ m
    | some digest ↦ record m { sessions = delete digest m.sessions }
  ]

  -- `SessionManager.RevokeUserExcept`
  unfoldable pub revoke_user_except : SessionManager → Text → Text → SessionManager
  unfolding normalize_username session_digest
  revoke_user_except m username keep_id = elim (normalize_username username) [
    | none ↦ m
    | some name ↦ record m {
      sessions = keep (λ e. not (revoked name (session_digest keep_id) e)) m.sessions;
    }
  ]

  -- `SessionManager.RevokeUser`
  unfoldable pub revoke_user : SessionManager → Text → SessionManager
  unfolding revoke_user_except
  revoke_user m username = revoke_user_except m username []
