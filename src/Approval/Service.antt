-- ===== src/Approval/Service.antt =====
-- internal/server/registration_approval.go with internal/machinereg: the registrations fill the
-- interface, so that a chat message of an administrator decides only on what it names.
use herdr_pal.Prelude.{
  ℕ, ◌-◌, ◌≡◌, ◌≢◌, ◌≤◌, List, [], some, get_elem?, nat_eq, Bool, true, false, Result, ok, err,
}
use herdr_pal.Prelude.Maps.{lookup}
use herdr_pal.Prelude.Text.{Text, text_eq}
use herdr_pal.Credential.{Primitives}
use herdr_pal.Registration.{Request, RegistrationError}
use herdr_pal.Registration.Requests.{list_requests}
use herdr_pal.Registration.Service.{Service, Outside, approve, reject}
use herdr_pal.Registration.Calls.Decided.{
  approving_named, approving_pending, rejecting_named, rejecting_pending,
}
use herdr_pal.Registration.Calls.Handled.{approve-Step, reject-Step}
use herdr_pal.Registration.Calls.Keeping.{IsSound, Step-IsSound}
use herdr_pal.Registration.Calls.Phases.{Phase, phase}
use herdr_pal.Approval.{Coordinator, new_coordinator}
use herdr_pal.Approval.Lists.{ListCall, coordinator_run, Stands, list-Stands}
use herdr_pal.Approval.Chosen.{WasListed, decide_chosen_moved}
use herdr_pal.Approval.Manager.{ApprovalManager, approve_chosen, reject_chosen}

abbrev is_ok {ℓ} : {A : Type ℓ} → Result RegistrationError A → Bool
is_ok (ok a) = true
is_ok (err e) = false

pub Phase-discrete : Discrete Phase
Phase-discrete = hlevel

-- The service as the coordinator uses it: keys can be delivered, and `can_notify` is
-- `rejectionDelivery != nil`.
abbrev pub service_manager : Primitives → Bool → ApprovalManager
service_manager p can_notify = record {
  State = Service;
  Ambient = Outside;
  Phase = Phase;
  IsSound = IsSound;
  list_pending = λ s. list_requests s.requests;
  approve =
      λ s id actor o. ((approve p s id actor true o).0, is_ok (approve p s id actor true o).1);
  reject = λ s id actor o.
      ((reject s id actor [] can_notify o).0, is_ok (reject s id actor [] can_notify o).1);
  pending = λ s id. lookup id s.requests;
  phase = phase;
  phase_discrete = Phase-discrete;
  approve-IsSound = λ s id actor o h. Step-IsSound (approve-Step p s id actor true o) h;
  reject-IsSound = λ s id actor o h. Step-IsSound (reject-Step s id actor [] can_notify o) h;
  approve-pending =
      λ s id actor o j q e. approving_pending j q (approve-Step p s id actor true o) e;
  reject-pending =
      λ s id actor o j q e. rejecting_pending j q (reject-Step s id actor [] can_notify o) e;
  approve-phase = λ s id actor o user machine h n.
      approving_named user machine (approve-Step p s id actor true o) h n;
  reject-phase = λ s id actor o user machine h n.
      rejecting_named user machine (reject-Step s id actor [] can_notify o) h n;
}

-- What a machine that has moved shows: a list that stands, and a number that is the place in it,
-- counted from 1, of a request that is pending for the machine.
abbrev pub WasSent :
    (m : ApprovalManager) → List (ListCall m) → m.State → Text → List ℕ → Text → Text → Type 0
WasSent m calls s admin is user machine =
    (snapshot : List Text) × (k i : ℕ) × (id : Text) × (q : Request) × Stands m admin snapshot calls
    × (get_elem? is k ≡ some i)
    × (1 ≤ i)
    × (get_elem? snapshot (i - 1) ≡ some id)
    × (m.pending s id ≡ some q)
    × (q.principal_id ≡ user)
    × (q.machine_id ≡ machine)

sent_of :
    (m : ApprovalManager) (ids : List Text) (c : Coordinator) (calls : List (ListCall m))
    (s : m.State) (admin : Text) (is : List ℕ) (user machine : Text)
    → new_coordinator ids ≡ ok c
    → WasListed m (coordinator_run m c calls) s admin is user machine
    → WasSent m calls s admin is user machine
sent_of m ids c calls s admin is user machine new
      (snapshot, k, i, id, q, known, held, asked, place, listed, f, u, v) =
    (
      snapshot,
      k,
      i,
      id,
      q,
      list-Stands m ids c calls admin snapshot new known held,
      asked,
      place,
      listed,
      f,
      u,
      v,
    )

-- Take a coordinator after any calls, and registrations that are sound. When `Approve` of an
-- administrator changes the keys or requests of a machine, a list was committed for the
-- administrator and no later call has replaced it or used it up, by an invalidation, an approval or
-- a rejection; one of the numbers given is the place in it, counted from 1, of a request that is
-- still pending; and that request is for that machine of that user.
pub approve_chosen_moved :
    (p : Primitives) (can_notify : Bool) (ids : List Text) (c : Coordinator)
    (calls : List (ListCall (service_manager p can_notify))) (s : Service) (admin : Text)
    (is : List ℕ) (o : ℕ → Outside) (user machine : Text)
    → new_coordinator ids ≡ ok c
    → IsSound s
    → let m = service_manager p can_notify in
      phase (approve_chosen m (coordinator_run m c calls) s admin is o).1 user machine
        ≢ phase s user machine
      → WasSent (service_manager p can_notify) calls s admin is user machine
unfolding approve_chosen
approve_chosen_moved p can_notify ids c calls s admin is o user machine new h n =
    let m = service_manager p can_notify in
    sent_of m ids c calls s admin is user machine new (
      decide_chosen_moved m m.approve m.approve-IsSound m.approve-pending m.approve-phase
        (coordinator_run m c calls) s admin is o user machine h n)

-- The same for an administrator's `Reject`.
pub reject_chosen_moved :
    (p : Primitives) (can_notify : Bool) (ids : List Text) (c : Coordinator)
    (calls : List (ListCall (service_manager p can_notify))) (s : Service) (admin : Text)
    (is : List ℕ) (o : ℕ → Outside) (user machine : Text)
    → new_coordinator ids ≡ ok c
    → IsSound s
    → let m = service_manager p can_notify in
      phase (reject_chosen m (coordinator_run m c calls) s admin is o).1 user machine
        ≢ phase s user machine
      → WasSent (service_manager p can_notify) calls s admin is user machine
unfolding reject_chosen
reject_chosen_moved p can_notify ids c calls s admin is o user machine new h n =
    let m = service_manager p can_notify in
    sent_of m ids c calls s admin is user machine new (
      decide_chosen_moved m m.reject m.reject-IsSound m.reject-pending m.reject-phase
        (coordinator_run m c calls) s admin is o user machine h n)
