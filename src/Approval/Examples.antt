-- ===== src/Approval/Examples.antt =====
-- Tests of approvals, and the theorems on one administrator.
use herdr_pal.Prelude.{◌≡◌, ◌≢◌, refl, List, [], ◌∷◌, ok, err, true, ℕ_discrete, arith}
use herdr_pal.Prelude.Sort.{sort}
use herdr_pal.Hprp.Validate.{validate_machine_id}
use herdr_pal.Prelude.Maps.{lookup, insert, delete}
use herdr_pal.Prelude.Text.{text_eq, Text-discrete, codes, trim_space, byte_len, is_control}
use herdr_pal.Credential.Key.{issue_key}
use herdr_pal.Credential.Sources.{normalize_source_rules, validate_source_rules}
use herdr_pal.Credential.Store.{issue}
use herdr_pal.Registration.Requests.{show_request, delete_request, list_requests}
use herdr_pal.Registration.Sample.{plain, alice, sample, sample-IsSound, fine}
use herdr_pal.Registration.Service.{approve}
use herdr_pal.Registration.Calls.Phases.{phase, granted}
use herdr_pal.Approval.{Coordinator, new_coordinator, resolve_selection, snapshot_missing}
use herdr_pal.Approval.Lists.{ListCall, commit_call, notify_call, coordinator_run}
use herdr_pal.Approval.Manager.{ApprovalManager, approve_chosen}
use herdr_pal.Approval.Notices.{notified, somes, notified_round}
use herdr_pal.Approval.Service.{service_manager, WasSent, approve_chosen_moved}

abbrev manager : ApprovalManager
manager = service_manager plain true

abbrev fresh : Coordinator
fresh = record { admin_ids = codes "root" ∷ []; next_admin = 0; snapshots = [] }

fresh_new : new_coordinator (codes "root" ∷ []) ≡ ok fresh
unfolding new_coordinator trim_space byte_len Text-discrete ℕ_discrete is_control
fresh_new = refl

-- A list is committed for root, and a notice goes out.
abbrev calls : List (ListCall manager)
calls =
    commit_call (codes "root")
      (record { admin_id = codes "root"; registration_ids = codes "reg_1" ∷ [] })
    ∷ notify_call
    ∷ []

abbrev held : Coordinator
held = coordinator_run manager fresh calls

chosen_phase :
    phase
      (approve_chosen manager held sample (codes "root") (1 ∷ []) (λ i. fine)).1
      alice
      (codes "desktop")
    ≡ granted
unfolding approve_chosen resolve_selection list_requests approve show_request issue
    normalize_source_rules issue_key validate_source_rules delete_request lookup insert delete
    trim_space byte_len Text-discrete ℕ_discrete is_control validate_machine_id sort coordinator_run
chosen_phase = refl

moved :
    phase
      (approve_chosen manager held sample (codes "root") (1 ∷ []) (λ i. fine)).1
      alice
      (codes "desktop")
    ≢ phase sample alice (codes "desktop")
unfolding Text-discrete ℕ_discrete
moved e = cc (chosen_phase, e)

-- The second use of the list finds none.
used_up :
    (approve_chosen manager
      (approve_chosen manager held sample (codes "root") (1 ∷ []) (λ i. fine)).0
      sample
      (codes "root")
      (1 ∷ [])
      (λ i. fine)).2
    ≡ err snapshot_missing
unfolding approve_chosen resolve_selection list_requests approve show_request issue
    normalize_source_rules issue_key validate_source_rules delete_request lookup insert delete
    trim_space byte_len Text-discrete ℕ_discrete is_control validate_machine_id sort coordinator_run
used_up = refl

approve_chosen_moved_example :
    WasSent manager calls sample (codes "root") (1 ∷ []) alice (codes "desktop")
approve_chosen_moved_example =
    approve_chosen_moved plain true (codes "root" ∷ []) fresh calls sample (codes "root") (1 ∷ [])
      (λ i. fine) alice (codes "desktop") fresh_new sample-IsSound moved

abbrev two_admins : Coordinator
two_admins = record { admin_ids = codes "root" ∷ codes "boss" ∷ []; next_admin = 1; snapshots = [] }

notified_round_example : notified 2 two_admins ≡ somes (codes "boss" ∷ codes "root" ∷ [])
notified_round_example = notified_round two_admins (omega arith)
