-- ===== src/Registration/Calls/Decided.antt =====
-- internal/machinereg/service.go: `Approve` and `Reject` reach the machine of the request they name.
use herdr_pal.Prelude.{◌≡◌, ◌≢◌, refl, ◌&&◌, some, ◌==◌, nat_eq, arith, Bool-cases, inl, inr}
use herdr_pal.Prelude.Maps.{lookup, lookup-delete}
use herdr_pal.Prelude.Text.{Text, text_eq}
use herdr_pal.Registration.{Request}
use herdr_pal.Registration.Service.{Service}
use herdr_pal.Registration.Calls.Keeping.{IsSound}
use herdr_pal.Registration.Calls.Phases.{phase}
use herdr_pal.Registration.Calls.Single.{
  MovesOnly, approved-MovesOnly, approved_only-MovesOnly, rejected-MovesOnly, undone_phase,
}
use herdr_pal.Registration.Calls.Steps.{
  approving, rejecting, Step, idle, undone, approved, approved_only, rejected,
}

-- The request that a decision names is for this machine.
abbrev pub Names : Service → Text → Text → Text → Type 0
Names s id user machine =
    (q : Request) × (lookup id s.requests ≡ some q)
    × (q.principal_id ≡ user)
    × (q.machine_id ≡ machine)

named :
    (s t : Service) (id : Text) (q : Request) (user machine : Text)
    → lookup id s.requests ≡ some q
    → MovesOnly s t q.principal_id q.machine_id
    → phase t user machine ≢ phase s user machine
    → Names s id user machine
named s t id q user machine f only n =
    elim (Bool-cases ((q.principal_id == user) && (q.machine_id == machine))) [
      | inl e ↦ (q, f, ground (arith, e), ground (arith, e))
      | inr e ↦ absurd (n (only user machine e))
    ]

pub approving_named :
    {s : Service} {id : Text} {t : Service} (user machine : Text)
    → Step s (approving id) t
    → IsSound s
    → phase t user machine ≢ phase s user machine
    → Names s id user machine
approving_named user machine (idle k) h n = absurd (n refl)
approving_named {s} user machine (undone k r fresh) h n =
    absurd (n (undone_phase s h r user machine fresh))
approving_named {s} {t} user machine (approved id q r f u m fresh) h n =
    named s t id q user machine f (approved-MovesOnly s h id q r f u m fresh) n
approving_named {s} {t} user machine (approved_only id q r f u m fresh) h n =
    named s t id q user machine f (approved_only-MovesOnly s h q r u m fresh) n

pub rejecting_named :
    {s : Service} {id : Text} {t : Service} (user machine : Text)
    → Step s (rejecting id) t
    → IsSound s
    → phase t user machine ≢ phase s user machine
    → Names s id user machine
rejecting_named user machine (idle k) h n = absurd (n refl)
rejecting_named {s} user machine (undone k r fresh) h n =
    absurd (n (undone_phase s h r user machine fresh))
rejecting_named {s} {t} user machine (rejected id q f) h n =
    named s t id q user machine f (rejected-MovesOnly s h id q f) n

-- A decision adds no request.
pub approving_pending :
    {s : Service} {id : Text} {t : Service} (j : Text) (q : Request)
    → Step s (approving id) t
    → lookup j t.requests ≡ some q
    → lookup j s.requests ≡ some q
approving_pending j q (idle k) e = e
approving_pending j q (undone k r fresh) e = e
approving_pending {s} j q (approved id q' r f u m fresh) e =
    ground (arith, e, lookup-delete id j s.requests)
approving_pending j q (approved_only id q' r f u m fresh) e = e

pub rejecting_pending :
    {s : Service} {id : Text} {t : Service} (j : Text) (q : Request)
    → Step s (rejecting id) t
    → lookup j t.requests ≡ some q
    → lookup j s.requests ≡ some q
rejecting_pending j q (idle k) e = e
rejecting_pending j q (undone k r fresh) e = e
rejecting_pending {s} j q (rejected id q' f) e = ground (arith, e, lookup-delete id j s.requests)
