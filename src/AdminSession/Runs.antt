-- ===== src/AdminSession/Runs.antt =====
-- internal/adminauth/session.go: any history of calls.
use herdr_pal.Prelude.{
  ℕ, zero, suc, ◌+◌, ◌<◌, ◌∙◌, sym, get_elem?, List, [], ◌∷◌, not, Option, some, ◌≡◌, refl, ap,
  subst, inl, inr, arith, All, All-keep, ltb, Bool-cases, Option-cases,
}
use herdr_pal.Prelude.Maps.{Map, lookup, delete, All-insert, All-delete, lookup-All}
use herdr_pal.Prelude.Text.{Text, text_eq}
use herdr_pal.AdminSession.{
  Primitives, Session, SessionRecord, SessionManager, or_default, new_session_manager, expired,
  keep_fresh, purge_expired, find_fresh, touched, revoked,
}
use herdr_pal.AdminSession.Operations.{
  normalize_username, session_digest, generate_credentials, create, get, verify_csrf, rotate,
  delete_session, revoke_user_except,
}
use herdr_pal.AdminSession.Handled.{Found, get-Found}

-- The calls, with the readings of the clock and of the random source.
pub data Call : Type 0 where
  create_call : Text → ℕ → List (Option (List ℕ)) → Call
  get_call : Text → ℕ → Call
  verify_call : Text → Text → ℕ → Call
  rotate_call : Text → ℕ → List (Option (List ℕ)) → Call
  delete_call : Text → Call
  revoke_call : Text → Text → Call

unfoldable pub session_step : Primitives → SessionManager → Call → SessionManager
unfolding create get verify_csrf rotate delete_session revoke_user_except
session_step p m (create_call username now reads) = (create p m username now reads).0
session_step p m (get_call id now) = (get p m id now).0
session_step p m (verify_call id token now) = (verify_csrf p m id token now).0
session_step p m (rotate_call id now reads) = (rotate p m id now reads).0
session_step p m (delete_call id) = delete_session p m id
session_step p m (revoke_call username keep_id) = revoke_user_except p m username keep_id

unfoldable pub session_run : Primitives → SessionManager → List Call → SessionManager
unfolding session_step
session_run p m [] = m
session_run p m (c ∷ calls) = session_run p (session_step p m c) calls

find_fresh-stored :
    (m : SessionManager) (digest : Text) (now : ℕ) (r : SessionRecord)
    → (find_fresh m digest now).1 ≡ some r
    → lookup digest m.sessions ≡ some r
unfolding find_fresh
find_fresh-stored m digest now r f = elim (Option-cases (lookup digest m.sessions)) [
  | inl n ↦ ground (arith, n, f)
  | inr (old, n) ↦ ground (arith, n, f)
]

-- `Made` tells the users and the times of the calls of Create.
module _ (limit : ℕ) (Made : Text → ℕ → Type 0) where
  -- The session was made by Create for its user, and ends a fixed time after that.
  abbrev IsTimed : Text × SessionRecord → Type 0
  IsTimed e =
      (e.1.session.absolute_expires_at ≡ e.1.session.created_at + limit)
      × Made e.1.session.username e.1.session.created_at

  abbrev AreTimed : SessionManager → Type 0
  AreTimed m = (m.absolute_timeout ≡ limit) × All IsTimed m.sessions

  keep_fresh-All :
      (m : SessionManager) (now : ℕ) (s : Map Text SessionRecord)
      → All IsTimed s
      → All IsTimed (keep_fresh m now s)
  unfolding keep_fresh
  keep_fresh-All m now [] a = tt
  keep_fresh-All m now (e ∷ s) a = elim (Bool-cases (expired m e.1 now)) [
    | inl t ↦ rw t (keep_fresh-All m now s a.1)
    | inr t ↦ rw t (a.0, keep_fresh-All m now s a.1)
  ]

  find_fresh-AreTimed :
      (m : SessionManager) (digest : Text) (now : ℕ)
      → AreTimed m
      → AreTimed (find_fresh m digest now).0
  unfolding find_fresh
  find_fresh-AreTimed m digest now a = elim (Option-cases (lookup digest m.sessions)) [
    | inl n ↦ rw (n, find_fresh) a
    | inr (r, n) ↦ elim (Bool-cases (expired m r now)) [
      | inl x ↦ rw (n, x, find_fresh) (a.0, All-delete IsTimed digest m.sessions a.1)
      | inr x ↦ rw (n, x, find_fresh) a
    ]
  ]

  find_fresh-IsTimed :
      (m : SessionManager) (digest : Text) (now : ℕ) (r : SessionRecord)
      → AreTimed m
      → (find_fresh m digest now).1 ≡ some r
      → IsTimed (digest, r)
  find_fresh-IsTimed m digest now r a f =
      lookup-All IsTimed digest r m.sessions (find_fresh-stored m digest now r f) a.1

  module _ (p : Primitives) where
    create-AreTimed :
        (m : SessionManager) (username : Text) (now : ℕ) (reads : List (Option (List ℕ)))
        → ((name : Text) → normalize_username p username ≡ some name → Made name now)
        → AreTimed m
        → AreTimed (create p m username now reads).0
    unfolding create purge_expired
    create-AreTimed m username now reads made_by a =
        elim (Option-cases (normalize_username p username)) [
          | inl n ↦ rw (n, create) a
          | inr (name, n) ↦
              let fresh = purge_expired m now in
              let kept = keep_fresh-All m now m.sessions a.1 in
              elim (Option-cases (generate_credentials p fresh reads)) [
                | inl g ↦ rw (n, g, create) (a.0, kept)
                | inr (made, g) ↦
                    rw (n, g, create)
                      (
                        a.0,
                        All-insert IsTimed made.id_digest
                            (record {
                              session = record {
                                username = name;
                                created_at = now;
                                last_active_at = now;
                                absolute_expires_at = now + m.absolute_timeout;
                              };
                              csrf_digest = made.csrf_digest;
                            })
                            (keep_fresh m now m.sessions) (ap (λ t. now + t) a.0, made_by name n)
                            kept,
                      )
              ]
        ]

    get-AreTimed :
        (m : SessionManager) (id : Text) (now : ℕ) → AreTimed m → AreTimed (get p m id now).0
    unfolding get
    get-AreTimed m id now a = elim (Option-cases (session_digest p id)) [
      | inl n ↦ rw (n, get) a
      | inr (d, n) ↦ elim (Option-cases (find_fresh m d now).1) [
        | inl o ↦ rw (n, o, get) (find_fresh-AreTimed m d now a)
        | inr (r, o) ↦
            rw (n, o, get)
              (
                a.0,
                All-insert IsTimed d (touched r now) m.sessions (find_fresh-IsTimed m d now r a o)
                    a.1,
              )
      ]
    ]

    verify_csrf-AreTimed :
        (m : SessionManager) (id token : Text) (now : ℕ)
        → AreTimed m
        → AreTimed (verify_csrf p m id token now).0
    unfolding verify_csrf
    verify_csrf-AreTimed m id token now a = elim (Option-cases (session_digest p id)) [
      | inl n ↦ rw (n, verify_csrf) a
      | inr (d, n) ↦ elim (Option-cases (session_digest p token)) [
        | inl t ↦ rw (n, t, verify_csrf) a
        | inr (c, t) ↦ elim (Option-cases (find_fresh m d now).1) [
          | inl o ↦ rw (n, t, o, verify_csrf) (find_fresh-AreTimed m d now a)
          | inr (r, o) ↦ rw (n, t, o, verify_csrf) a
        ]
      ]
    ]

    rotate-AreTimed :
        (m : SessionManager) (id : Text) (now : ℕ) (reads : List (Option (List ℕ)))
        → AreTimed m
        → AreTimed (rotate p m id now reads).0
    unfolding rotate
    rotate-AreTimed m id now reads a = elim (Option-cases (session_digest p id)) [
      | inl n ↦ rw (n, rotate) a
      | inr (d, n) ↦ elim (Option-cases (find_fresh m d now).1) [
        | inl o ↦ rw (n, o, rotate) (find_fresh-AreTimed m d now a)
        | inr (r, o) ↦ elim (Option-cases (generate_credentials p m reads)) [
          | inl g ↦ rw (n, o, g, rotate) a
          | inr (made, g) ↦
              rw (n, o, g, rotate)
                (
                  a.0,
                  All-insert IsTimed made.id_digest
                      (record (touched r now) { csrf_digest = made.csrf_digest })
                      (delete d m.sessions) (find_fresh-IsTimed m d now r a o)
                      (All-delete IsTimed d m.sessions a.1),
                )
        ]
      ]
    ]

    -- A call of Create is one of those that `Made` tells.
    abbrev IsTold : Call → Type 0
    IsTold (create_call username now reads) =
        (name : Text) → normalize_username p username ≡ some name → Made name now
    IsTold (get_call id now) = Unit
    IsTold (verify_call id token now) = Unit
    IsTold (rotate_call id now reads) = Unit
    IsTold (delete_call id) = Unit
    IsTold (revoke_call username keep_id) = Unit

    step-AreTimed :
        (m : SessionManager) (c : Call) → IsTold c → AreTimed m → AreTimed (session_step p m c)
    unfolding session_step delete_session revoke_user_except
    step-AreTimed m (create_call username now reads) h a = create-AreTimed m username now reads h a
    step-AreTimed m (get_call id now) h a = get-AreTimed m id now a
    step-AreTimed m (verify_call id token now) h a = verify_csrf-AreTimed m id token now a
    step-AreTimed m (rotate_call id now reads) h a = rotate-AreTimed m id now reads a
    step-AreTimed m (delete_call id) h a = elim (Option-cases (session_digest p id)) [
      | inl n ↦ rw (n, session_step, delete_session) a
      | inr (d, n) ↦ rw (n, session_step, delete_session) (a.0, All-delete IsTimed d m.sessions a.1)
    ]
    step-AreTimed m (revoke_call username keep_id) h a =
        elim (Option-cases (normalize_username p username)) [
          | inl n ↦ rw (n, session_step, revoke_user_except) a
          | inr (name, n) ↦
              rw (n, session_step, revoke_user_except)
                (
                  a.0,
                  All-keep IsTimed (λ e. not (revoked name (session_digest p keep_id) e)) m.sessions
                      a.1,
                )
        ]

    run-AreTimed :
        (m : SessionManager) (calls : List Call)
        → All IsTold calls
        → AreTimed m
        → AreTimed (session_run p m calls)
    unfolding session_run
    run-AreTimed m [] h a = a
    run-AreTimed m (c ∷ calls) h a =
        run-AreTimed (session_step p m c) calls h.1 (step-AreTimed m c h.0 a)

new-AreTimed :
    (idle absolute : ℕ) (m : SessionManager) (Made : Text → ℕ → Type 0)
    → new_session_manager idle absolute ≡ some m
    → AreTimed m.absolute_timeout Made m
unfolding new_session_manager
new-AreTimed idle absolute m Made n =
    elim (Bool-cases (ltb (or_default absolute 43200000000000) (or_default idle 1800000000000))) [
      | inl b ↦ absurd (ground (arith, b, n))
      | inr b ↦
          let nothing : [] ≡ m.sessions = ground (arith, b, n) in
          (refl, subst (λ x. All (IsTimed m.absolute_timeout Made) x) nothing tt)
    ]

-- One of the calls is a Create for this user at this time.
abbrev pub WasCreated : Primitives → List Call → Text → ℕ → Type 0
WasCreated p calls name at =
    (j : ℕ) × (username : Text) × (reads : List (Option (List ℕ))) × (get_elem? calls j
      ≡ some (create_call username at reads))
    × (normalize_username p username ≡ some name)

told :
    (p : Primitives) (limit : ℕ) (Made : Text → ℕ → Type 0) (calls : List Call)
    → ((name : Text) (at : ℕ) → WasCreated p calls name at → Made name at)
    → All (IsTold limit Made p) calls
told p limit Made [] w = tt
told p limit Made (c ∷ calls) w = (
  first c w,
  told p limit Made calls
      (λ name at (j, username, reads, e, n). w name at (suc j, username, reads, e, n)),
)
  where
    first :
        (c : Call)
        → ((name : Text) (at : ℕ) → WasCreated p (c ∷ calls) name at → Made name at)
        → IsTold limit Made p c
    first (create_call username now reads) w = λ name n. w name now (zero, username, reads, refl, n)
    first (get_call id now) w = tt
    first (verify_call id token now) w = tt
    first (rotate_call id now reads) w = tt
    first (delete_call id) w = tt
    first (revoke_call username keep_id) w = tt

-- After any calls of a new manager, whatever the clock reads, a session that `Get` finds has the
-- user and the time of a call of `Create`, and ends the absolute timeout after that time, which is
-- not over: neither its use nor a rotation makes it last longer.
pub get-session_run :
    (p : Primitives) (idle absolute : ℕ) (m : SessionManager) (calls : List Call) (id : Text)
    (now : ℕ) (s : Session)
    → new_session_manager idle absolute ≡ some m
    → (get p (session_run p m calls) id now).1 ≡ some s
    → WasCreated p calls s.username s.created_at
      × (s.absolute_expires_at ≡ s.created_at + m.absolute_timeout)
      × (now < s.created_at + m.absolute_timeout)
unfolding expired
get-session_run p idle absolute m calls id now s n g =
    let f : Found p (session_run p m calls) id now s =
      get-Found p (session_run p m calls) id now s g in
    let Made : Text → ℕ → Type 0 = WasCreated p calls in
    let timed =
      run-AreTimed m.absolute_timeout Made p m calls
        (told p m.absolute_timeout Made calls (λ name at w. w))
        (new-AreTimed idle absolute m Made n) in
    let limit =
      lookup-All (IsTimed m.absolute_timeout Made) f.digest f.found (session_run p m calls).sessions
        f.stored timed.1 in
    let made : s.created_at ≡ f.found.session.created_at = ap (λ x. x.created_at) f.same in
    (
      subst (λ x. Made x.username x.created_at) (sym f.same) limit.1,
      ap (λ x. x.absolute_expires_at) f.same
          ∙ (limit.0 ∙ ap (λ t. t + m.absolute_timeout) (sym made)),
      ground (arith, made, limit.0, f.fresh),
    )
