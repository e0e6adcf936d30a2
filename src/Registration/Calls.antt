-- ===== src/Registration/Calls.antt =====
-- internal/machinereg/service.go: the calls of the service that write, as one type.
pub mod Stores
pub mod Changed
pub mod Asked
pub mod Steps
pub mod Handled
pub mod Keeping
pub mod Phases
pub mod Approving
pub mod Single
pub mod Decided
use herdr_pal.Prelude.{ℕ, List, [], ◌∷◌, Bool, Option, Result, ok, err}
use herdr_pal.Prelude.Text.{Text}
use herdr_pal.Credential.{Error, Record, Primitives}
use herdr_pal.Credential.Store.{
  CredentialStore, enable, disable, delete_record, add_sources, remove_sources, set_sources,
}
use herdr_pal.Registration.{RegisterInput}
use herdr_pal.Registration.Service.{
  Service, Outside, register, approve, reject, issue_by_hand, with_credential_lock,
}

-- What the other methods do to a credential under the lock of its user.
pub data Change : Type 0 where
  enabling disabling : Change
  adding removing setting : List Text → Change

pub data Call : Type 0 where
  register_call : RegisterInput → Bool → Outside → Call
  approve_call : Text → Text → Bool → Outside → Call
  reject_call : Text → Text → Text → Bool → Outside → Call
  issue_call : Text → Text → List Text → Option ℕ → Outside → Call
  delete_call : ℕ → Bool → Call
  change_call : ℕ → Change → ℕ → Bool → Call

-- `Enable`, `Disable`, `AddSources`, `RemoveSources` and `SetSources` of the store.
unfoldable pub change_record :
    Primitives → ℕ → Change → ℕ → Bool → CredentialStore → CredentialStore × Result Error Record
change_record p credential_id enabling now saved c = enable p c credential_id now saved
change_record p credential_id disabling now saved c = disable p c credential_id now saved
change_record p credential_id (adding values) now saved c =
    add_sources p c credential_id values now saved
change_record p credential_id (removing values) now saved c =
    remove_sources p c credential_id values now saved
change_record p credential_id (setting values) now saved c =
    set_sources p c credential_id values now saved

-- The service after a call.
unfoldable pub step : Primitives → (Text → Bool) → Service → Call → Service
unfolding change_record
step p is_id s (register_call input can_deliver o) = (register p is_id s input can_deliver o).0
step p is_id s (approve_call id admin can_deliver o) = (approve p s id admin can_deliver o).0
step p is_id s (reject_call id admin reason can_deliver o) =
    (reject s id admin reason can_deliver o).0
step p is_id s (issue_call user machine sources expires_at o) =
    (issue_by_hand p s user machine sources expires_at o).0
step p is_id s (delete_call id saved) =
    (with_credential_lock s id (λ c. delete_record c id saved)).0
step p is_id s (change_call id change now saved) =
    (with_credential_lock s id (change_record p id change now saved)).0

abbrev pub run : Primitives → (Text → Bool) → Service → List Call → Service
run p is_id s [] = s
run p is_id s (c ∷ calls) = run p is_id (step p is_id s c) calls
