-- ===== src/AdminSession/Revoked.antt =====
-- internal/adminauth/session.go: a revoked session is gone.
use herdr_pal.Prelude.{
  ℕ, [], ◌∷◌, Bool, true, not, Option, none, some, ◌≡◌, refl, sym, ap, ◌∙◌, inl, inr, arith, All,
  keep, Bool-cases,
}
use herdr_pal.Prelude.Maps.{Map, lookup, lookup-All}
use herdr_pal.Prelude.Text.{Text, text_eq}
use herdr_pal.AdminSession.{Primitives, Session, SessionRecord, SessionManager, revoked}
use herdr_pal.AdminSession.Operations.{normalize_username, session_digest, get, revoke_user_except}
use herdr_pal.AdminSession.Handled.{Found, get-Found}

kept_pass :
    (q : Text × SessionRecord → Bool) (m : Map Text SessionRecord)
    → All (λ e. q e ≡ true) (keep q m)
kept_pass q [] = tt
kept_pass q (e ∷ m) = elim (Bool-cases (q e)) [
  | inl t ↦ rw t (t, kept_pass q m)
  | inr t ↦ rw t (kept_pass q m)
]

spared :
    (name digest : Text) (r : SessionRecord) (keep_digest : Option Text)
    → r.session.username ≡ name
    → not (revoked name keep_digest (digest, r)) ≡ true
    → keep_digest ≡ some digest
spared name digest r none u t = ground (arith, u, t)
spared name digest r (some d) u t = ground (arith, u, t)

module _ (p : Primitives) (m : SessionManager) (username keep_id : Text) (id : Text) (now : ℕ) where
  -- Right after `RevokeUserExcept`, a session that `Get` finds for the user has the digest of the one
  -- that was to be kept.
  pub get-revoke_user_except :
      (name : Text) (s : Session)
      → normalize_username p username ≡ some name
      → (get p (revoke_user_except p m username keep_id) id now).1 ≡ some s
      → s.username ≡ name
      → session_digest p id ≡ session_digest p keep_id
  unfolding revoke_user_except
  get-revoke_user_except name s n g u =
      let f : Found p (revoke_user_except p m username keep_id) id now s =
        get-Found p (revoke_user_except p m username keep_id) id now s g in
      let test = λ (e : Text × SessionRecord). not (revoked name (session_digest p keep_id) e) in
      let left : (revoke_user_except p m username keep_id).sessions ≡ keep test m.sessions =
        rw (n, revoke_user_except) refl in
      let stored : lookup f.digest (keep test m.sessions) ≡ some f.found =
        ap (λ x. lookup f.digest x) (sym left) ∙ f.stored in
      let passed : test (f.digest, f.found) ≡ true =
        lookup-All (λ e. test e ≡ true) f.digest f.found (keep test m.sessions) stored
          (kept_pass test m.sessions) in
      f.digested
      ∙ sym (
          spared name f.digest f.found (session_digest p keep_id)
            (ap (λ x. x.username) (sym f.same) ∙ u) passed)
