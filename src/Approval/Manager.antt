-- ===== src/Approval/Manager.antt =====
-- internal/server/registration_approval.go: what the coordinator asks of the registrations, as an
-- interface with its laws, and the two calls that decide.
use herdr_pal.Prelude.{ℕ, ◌≡◌, ◌≢◌, List, [], ◌∷◌, Bool, Option, some, Result, ok, err}
use herdr_pal.Prelude.Text.{Text}
use herdr_pal.Registration.{Request}
use herdr_pal.Approval.{Error, Coordinator, Selection, resolve_selection, actor_of}

-- `RegistrationApprovalManager`. `Ambient` is what a call meets outside, such as whether a message
-- arrives. `pending` is the request of a number, and `phase` the state of a machine of a user.
-- A decision moves no machine but that of the request that it names, and adds no request.
pub record ApprovalManager : Type 1 where
  pub State : Type 0
  pub Ambient : Type 0
  pub Phase : Type 0
  pub IsSound : State → Type 0
  pub list_pending : State → List Request
  pub approve : State → Text → Text → Ambient → State × Bool
  pub reject : State → Text → Text → Ambient → State × Bool
  pub pending : State → Text → Option Request
  pub phase : State → Text → Text → Phase
  pub phase_discrete : Discrete Phase
  pub approve-IsSound :
      (s : State) (id actor : Text) (o : Ambient) → IsSound s → IsSound (approve s id actor o).0
  pub reject-IsSound :
      (s : State) (id actor : Text) (o : Ambient) → IsSound s → IsSound (reject s id actor o).0
  pub approve-pending :
      (s : State) (id actor : Text) (o : Ambient) (j : Text) (q : Request)
      → pending (approve s id actor o).0 j ≡ some q
      → pending s j ≡ some q
  pub reject-pending :
      (s : State) (id actor : Text) (o : Ambient) (j : Text) (q : Request)
      → pending (reject s id actor o).0 j ≡ some q
      → pending s j ≡ some q
  pub approve-phase :
      (s : State) (id actor : Text) (o : Ambient) (user machine : Text)
      → IsSound s
      → phase (approve s id actor o).0 user machine ≢ phase s user machine
      → (q : Request) × (pending s id ≡ some q) × (q.principal_id ≡ user) × (q.machine_id ≡ machine)
  pub reject-phase :
      (s : State) (id actor : Text) (o : Ambient) (user machine : Text)
      → IsSound s
      → phase (reject s id actor o).0 user machine ≢ phase s user machine
      → (q : Request) × (pending s id ≡ some q) × (q.principal_id ≡ user) × (q.machine_id ≡ machine)

module _ (m : ApprovalManager) where
  open m use {State, Ambient, list_pending, approve, reject}

  abbrev pub Decide : Type 0
  Decide = State → Text → Text → Ambient → State × Bool

  -- The loop of `Approve` and of `Reject` over the numbers chosen.
  unfoldable pub decide_all :
      Decide → Text → (ℕ → Ambient) → State → List Selection → State × List (ℕ × Bool)
  decide_all decide actor o s [] = (s, [])
  decide_all decide actor o s (x ∷ xs) =
      let (t, done) = decide s x.registration_id actor (o x.index) in
      let (u, lines) = decide_all decide actor o t xs in (u, (x.index, done) ∷ lines)

  unfoldable pub decide_chosen :
      Decide
      → Coordinator
      → State
      → Text
      → List ℕ
      → (ℕ → Ambient)
      → Coordinator × State × Result Error (List (ℕ × Bool))
  unfolding decide_all
  decide_chosen decide c s admin is o =
      let found = resolve_selection c (list_pending s) admin is in
      elim found.1 [
        | err e ↦ (found.0, s, err e)
        | ok xs ↦
            let done = decide_all decide (actor_of admin) o s xs in (found.0, done.0, ok done.1)
      ]

  -- `RegistrationApprovalCoordinator.Approve`
  unfoldable pub approve_chosen :
      Coordinator
      → State
      → Text
      → List ℕ
      → (ℕ → Ambient)
      → Coordinator × State × Result Error (List (ℕ × Bool))
  unfolding decide_chosen
  approve_chosen = decide_chosen approve

  -- `RegistrationApprovalCoordinator.Reject`
  unfoldable pub reject_chosen :
      Coordinator
      → State
      → Text
      → List ℕ
      → (ℕ → Ambient)
      → Coordinator × State × Result Error (List (ℕ × Bool))
  unfolding decide_chosen
  reject_chosen = decide_chosen reject
