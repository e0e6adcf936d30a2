-- ===== src/Approval.antt =====
-- internal/server/registration_approval.go: administrators approve and reject requests from a chat,
-- by the numbers of a list that they were sent. The texts of the answers are left out: an answer is
-- a list of what was done for each number.
pub mod Manager
pub mod Notices
pub mod Lists
pub mod Chosen
pub mod Service
mod Examples
use herdr_pal.Prelude.{
  ℕ, zero, suc, ◌+◌, ◌-◌, ◌%◌, List, [], ◌∷◌, ◌++◌, map, Bool, true, false, ◌||◌, ◌&&◌, not, Option,
  none, some, ◌==◌, nat_eq, ltb, leb, if◌then◌else◌, any, all, length, get_elem?, Result, ok, err,
}
use herdr_pal.Prelude.Maps.{Map, lookup, insert, delete}
use herdr_pal.Prelude.Text.{Text, text_eq, trim_space, codes}
use herdr_pal.Credential.Key.{valid_principal_id}
use herdr_pal.Registration.{Request}

pub data Error : Type 0 where
  invalid_dependency unauthorized snapshot_missing snapshot_changed invalid_indexes : Error

abbrev pub max_registration_approval_batch : ℕ
max_registration_approval_batch = 10

-- `RegistrationApprovalCoordinator`: the administrators, whose turn it is, and the list that each
-- was sent last.
pub record Coordinator : Type 0 where
  pub admin_ids : List Text
  pub next_admin : ℕ
  pub snapshots : Map Text (List Text)

abbrev is_plain : Text → Bool
is_plain id = trim_space id == id && valid_principal_id id

-- The loop of `NewRegistrationApprovalCoordinator`, with the names before.
unfoldable pub are_admins : List Text → List Text → Bool
unfolding valid_principal_id
are_admins seen [] = true
are_admins seen (id ∷ ids) =
    is_plain id && not (any (λ x. x == id) seen) && are_admins (id ∷ seen) ids

-- `NewRegistrationApprovalCoordinator`
unfoldable pub new_coordinator : List Text → Result Error Coordinator
unfolding are_admins
new_coordinator ids =
    if are_admins [] ids
    then ok (record { admin_ids = ids; next_admin = 0; snapshots = [] })
    else err invalid_dependency

-- `IsAdmin`
unfoldable pub is_admin : Coordinator → Text → Bool
is_admin c user = any (λ id. id == user) c.admin_ids

abbrev turn_after : Coordinator → Coordinator
turn_after c = record c { next_admin = (c.next_admin + 1) % length c.admin_ids }

-- `NotifyPending`: the administrator who is sent the notice, if there is one.
unfoldable pub notify_pending : Coordinator → Coordinator × Option Text
notify_pending c =
    if length c.admin_ids == 0
    then (c, none)
    else (turn_after c, get_elem? c.admin_ids c.next_admin)

-- `RegistrationApprovalList`
pub record ApprovalList : Type 0 where
  pub admin_id : Text
  pub registration_ids : List Text

-- `PrepareList`
unfoldable pub prepare_list : Coordinator → List Request → Text → Result Error ApprovalList
unfolding is_admin
prepare_list c current admin =
    if is_admin c admin
    then ok (record { admin_id = admin; registration_ids = map (λ q. q.registration_id) current })
    else err unauthorized

-- `CommitList`
unfoldable pub commit_list : Coordinator → Text → ApprovalList → Coordinator × Option Error
unfolding is_admin
commit_list c admin l =
    if not (is_admin c admin) || not (l.admin_id == admin)
    then (c, some unauthorized)
    else (record c { snapshots = insert admin l.registration_ids c.snapshots }, none)

-- `Invalidate`
unfoldable pub invalidate : Coordinator → Text → Coordinator × Option Error
unfolding is_admin
invalidate c admin =
    if is_admin c admin
    then (record c { snapshots = delete admin c.snapshots }, none)
    else (c, some unauthorized)

-- The loop of `validRegistrationApprovalIndexes`; an index is not negative in the model.
unfoldable pub are_indexes : List ℕ → List ℕ → Bool
are_indexes seen [] = true
are_indexes seen (i ∷ is) = leb 1 i && not (any (λ x. x == i) seen) && are_indexes (i ∷ seen) is

-- `validRegistrationApprovalIndexes`
unfoldable pub valid_indexes : List ℕ → Bool
unfolding are_indexes
valid_indexes is =
    ltb 0 (length is) && leb (length is) max_registration_approval_batch && are_indexes [] is

-- `registrationApprovalSelection`
pub record Selection : Type 0 where
  pub index : ℕ
  pub registration_id : Text
  pub machine_id : Text

-- One round of the last loop of `resolveSelection`.
unfoldable pub pick : List Text → List Request → ℕ → Option Selection
pick snapshot current i = elim (get_elem? current (i - 1)) [
  | none ↦ none
  | some q ↦ elim (get_elem? snapshot (i - 1)) [
    | none ↦ none
    | some id ↦
        if q.registration_id == id
        then some (record { index = i; registration_id = id; machine_id = q.machine_id })
        else none
  ]
]

unfoldable pub pick_all : List Text → List Request → List ℕ → Option (List Selection)
unfolding pick
pick_all snapshot current [] = some []
pick_all snapshot current (i ∷ is) = elim (pick snapshot current i) [
  | none ↦ none
  | some x ↦ elim (pick_all snapshot current is) [ none ↦ none | some xs ↦ some (x ∷ xs) ]
]

-- `resolveSelection` after the list was taken.
unfoldable pub resolve_from :
    Option (List Text) → List Request → List ℕ → Result Error (List Selection)
unfolding pick_all valid_indexes
resolve_from none current is = err snapshot_missing
resolve_from (some snapshot) current is =
    if not (valid_indexes is)
    then err invalid_indexes
    else if not (all (λ i. leb i (length snapshot)) is)
    then err snapshot_changed
    else elim (pick_all snapshot current is) [ none ↦ err snapshot_changed | some xs ↦ ok xs ]

-- `resolveSelection`: the list of the administrator is used up by every call.
unfoldable pub resolve_selection :
    Coordinator → List Request → Text → List ℕ → Coordinator × Result Error (List Selection)
unfolding resolve_from is_admin
resolve_selection c current admin is =
    if is_admin c admin
    then (
      record c { snapshots = delete admin c.snapshots },
      resolve_from (lookup admin c.snapshots) current is,
    )
    else (c, err unauthorized)

abbrev pub actor_of : Text → Text
actor_of admin = codes "wecom:" ++ admin
