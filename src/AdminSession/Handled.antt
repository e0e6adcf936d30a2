-- ===== src/AdminSession/Handled.antt =====
-- internal/adminauth/session.go: what a session that Get finds was before.
use herdr_pal.Prelude.{ℕ, false, some, ◌≡◌, inl, inr, arith, nat_eq, Bool-cases, Option-cases}
use herdr_pal.Prelude.Maps.{lookup}
use herdr_pal.Prelude.Text.{Text, text_eq}
use herdr_pal.AdminSession.{
  Primitives, Session, SessionRecord, SessionManager, expired, find_fresh, touched,
}
use herdr_pal.AdminSession.Operations.{session_digest, get}

-- The record that a session was read from.
pub record Found (p : Primitives) (m : SessionManager) (id : Text) (now : ℕ) (s : Session)
    : Type 0 where
  pub digest : Text
  pub found : SessionRecord
  pub digested : session_digest p id ≡ some digest
  pub stored : lookup digest m.sessions ≡ some found
  pub fresh : expired m found now ≡ false
  pub same : s ≡ (touched found now).session

pub get-Found :
    (p : Primitives) (m : SessionManager) (id : Text) (now : ℕ) (s : Session)
    → (get p m id now).1 ≡ some s
    → Found p m id now s
unfolding get find_fresh
get-Found p m id now s q = elim (Option-cases (session_digest p id)) [
  | inl n ↦ absurd (ground (arith, n, q))
  | inr (d, n) ↦ elim (Option-cases (lookup d m.sessions)) [
    | inl o ↦ absurd (ground (arith, n, o, q))
    | inr (r, o) ↦ elim (Bool-cases (expired m r now)) [
      | inl x ↦ absurd (ground (arith, n, o, x, q))
      | inr x ↦ record {
        digest = d;
        found = r;
        digested = n;
        stored = o;
        fresh = x;
        same = ground (arith, n, o, x, q);
      }
    ]
  ]
]
