-- ===== src/Registration/Calls/Single.antt =====
-- internal/machinereg/service.go: a call reaches one machine.
use herdr_pal.Prelude.{◌≡◌, refl, [], Bool, false, ◌&&◌, some, ◌==◌, nat_eq, arith, ap}
use herdr_pal.Prelude.Maps.{lookup, insert, delete}
use herdr_pal.Prelude.Text.{Text, text_eq}
use herdr_pal.Prelude.Unique.{has, has-insert_new, has-insert_old, has-delete}
use herdr_pal.Credential.{Record, Primitives}
use herdr_pal.Credential.Store.{is_of}
use herdr_pal.Registration.{Request}
use herdr_pal.Registration.Requests.{is_for}
use herdr_pal.Registration.Service.{Service}
use herdr_pal.Registration.Calls.{Call, step}
use herdr_pal.Registration.Calls.Changed.{Keeps-is_of}
use herdr_pal.Registration.Calls.Handled.{step-Step}
use herdr_pal.Registration.Calls.Keeping.{IsSound, undone_records}
use herdr_pal.Registration.Calls.Phases.{Move, Step-Moves, phase, phase_of}
use herdr_pal.Registration.Calls.Steps.{
  Kind, kind, known, IsNew, with_new, without_request, with_records, Step, idle, undone, first_key,
  asking, approved, approved_only, rejected, by_hand, revoked, changed,
}
use herdr_pal.Registration.Calls.Stores.{next_is_new}

phases : {a b a' b' : Bool} → a ≡ a' → b ≡ b' → phase_of a b ≡ phase_of a' b'
phases p q = rw (p, q) refl

-- All machines but one of one user keep their phase.
abbrev pub MovesOnly : Service → Service → Text → Text → Type 0
MovesOnly s t own_user own_machine =
    (user machine : Text)
    → ((own_user == user) && (own_machine == machine)) ≡ false
    → phase t user machine ≡ phase s user machine

module _ (s : Service) (h : IsSound s) where
  pub new-MovesOnly :
      (r : Record) → IsNew s r → MovesOnly s (with_new s r) r.principal_id r.machine_id
  new-MovesOnly r n user machine t =
      phases
        (ground (
          arith,
          t,
          has-insert_new (is_of user machine) s.credentials.next_id r s.credentials.records
              (next_is_new s.credentials.next_id s.credentials.records h.keys.fresh n.0),
        ))
        refl

  request_dropped :
      (id : Text) (q : Request) (user machine : Text)
      → lookup id s.requests ≡ some q
      → ((q.principal_id == user) && (q.machine_id == machine)) ≡ false
      → has (is_for user machine) (delete id s.requests) ≡ has (is_for user machine) s.requests
  request_dropped id q user machine f t = ground (
    arith,
    t,
    has-delete (is_for user machine) id q s.requests f h.asked.map (h.asked.once user machine),
  )

  pub approved-MovesOnly :
      (id : Text) (q : Request) (r : Record)
      → lookup id s.requests ≡ some q
      → r.principal_id ≡ q.principal_id
      → r.machine_id ≡ q.machine_id
      → IsNew s r
      → MovesOnly s (without_request (with_new s r) id) q.principal_id q.machine_id
  approved-MovesOnly id q r f u m n user machine t =
      phases
        (ground (
          arith,
          t,
          u,
          m,
          has-insert_new (is_of user machine) s.credentials.next_id r s.credentials.records
              (next_is_new s.credentials.next_id s.credentials.records h.keys.fresh n.0),
        ))
        (request_dropped id q user machine f t)

  pub approved_only-MovesOnly :
      (q : Request) (r : Record)
      → r.principal_id ≡ q.principal_id
      → r.machine_id ≡ q.machine_id
      → IsNew s r
      → MovesOnly s (with_new s r) q.principal_id q.machine_id
  approved_only-MovesOnly q r u m n user machine t =
      new-MovesOnly r n user machine (ground (arith, t, u, m))

  pub rejected-MovesOnly :
      (id : Text) (q : Request)
      → lookup id s.requests ≡ some q
      → MovesOnly s (without_request s id) q.principal_id q.machine_id
  rejected-MovesOnly id q f user machine t = phases refl (request_dropped id q user machine f t)

  pub undone_phase :
      (r : Record) (user machine : Text)
      → IsNew s r
      → phase
          (with_records
            (with_new s r)
            (delete r.credential_id (insert s.credentials.next_id r s.credentials.records)))
          user
          machine
        ≡ phase s user machine
  undone_phase r user machine n =
      phases (ap (has (is_of user machine)) (undone_records s r h n)) refl

  Step-MovesOnly :
      {k : Kind} {t : Service} → Step s k t → (user machine : Text) × MovesOnly s t user machine
  Step-MovesOnly (idle k) = ([], [], λ user machine n. refl)
  Step-MovesOnly (undone k r n) = ([], [], λ user machine t. undone_phase r user machine n)
  Step-MovesOnly (first_key r n k) = (r.principal_id, r.machine_id, new-MovesOnly r n)
  Step-MovesOnly (asking q new k free quiet) = (
    q.principal_id,
    q.machine_id,
    λ user machine t. phases refl (
        ground (arith, t, has-insert_new (is_for user machine) q.registration_id q s.requests new)),
  )
  Step-MovesOnly (approved id q r f u m n) =
      (q.principal_id, q.machine_id, approved-MovesOnly id q r f u m n)
  Step-MovesOnly (approved_only id q r f u m n) =
      (q.principal_id, q.machine_id, approved_only-MovesOnly q r u m n)
  Step-MovesOnly (rejected id q f) = (q.principal_id, q.machine_id, rejected-MovesOnly id q f)
  Step-MovesOnly (by_hand r n quiet) = (r.principal_id, r.machine_id, new-MovesOnly r n)
  Step-MovesOnly (revoked id r f) = (
    r.principal_id,
    r.machine_id,
    λ user machine t.
        phases
          (ground (
            arith,
            t,
            has-delete (is_of user machine) id r s.credentials.records f h.keys.map
                (h.keys.once user machine),
          ))
          refl,
  )
  Step-MovesOnly (changed id old new f k) = (
    [],
    [],
    λ user machine t.
        phases
          (has-insert_old (is_of user machine) id new old s.credentials.records f
            (Keeps-is_of old new user machine k))
          refl,
  )

-- Every call of a sound service is allowed by the contract of registration: it moves the phase of
-- one machine of one user at most, and the phase of each machine as the moves of the contract say.
pub step-Refines :
    (p : Primitives) (is_id : Text → Bool) (s : Service) (c : Call)
    → IsSound s
    → (own_user own_machine : Text) × ((user machine : Text)
        → Move
            (known s user)
            (kind c)
            (phase s user machine)
            (phase (step p is_id s c) user machine)
          × (((own_user == user) && (own_machine == machine)) ≡ false
              → phase (step p is_id s c) user machine ≡ phase s user machine))
step-Refines p is_id s c h =
    let taken = step-Step p is_id s c in
    let (own_user, own_machine, only) = Step-MovesOnly s h taken in
    (own_user, own_machine, λ user machine. (Step-Moves s h user machine taken, only user machine))
