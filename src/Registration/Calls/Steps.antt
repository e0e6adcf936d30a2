-- ===== src/Registration/Calls/Steps.antt =====
-- internal/machinereg/service.go: what a call can do, as a step relation on the service.
use herdr_pal.Prelude.{ℕ, ◌≡◌, ◌≢◌, Bool, true, false, ◌||◌, none, some, nat_eq}
use herdr_pal.Prelude.Maps.{Map, lookup, insert, delete}
use herdr_pal.Prelude.Text.{Text, text_eq}
use herdr_pal.Prelude.Unique.{has}
use herdr_pal.Credential.{Record}
use herdr_pal.Credential.Store.{is_of}
use herdr_pal.Registration.{Request}
use herdr_pal.Registration.Requests.{is_for, requests_of}
use herdr_pal.Registration.Service.{Service, has_principal}
use herdr_pal.Registration.Calls.{
  Call, register_call, approve_call, reject_call, issue_call, delete_call, change_call,
}
use herdr_pal.Registration.Calls.Changed.{Keeps}
use herdr_pal.Registration.Calls.Stores.{with_key}

pub data Kind : Type 0 where
  registering issuing deleting changing : Kind
  approving rejecting : Text → Kind

abbrev pub kind : Call → Kind
kind (register_call input can_deliver o) = registering
kind (approve_call id admin can_deliver o) = approving id
kind (reject_call id admin reason can_deliver o) = rejecting id
kind (issue_call user machine sources expires_at o) = issuing
kind (delete_call id saved) = deleting
kind (change_call id change now saved) = changing

-- The user has a key or a request.
abbrev pub known : Service → Text → Bool
known s user = has_principal s.credentials user || requests_of s.requests user

-- A record that can be added for a machine without a key.
abbrev pub IsNew : Service → Record → Type 0
IsNew s r =
    (s.credentials.next_id ≢ 0)
    × (r.credential_id ≡ s.credentials.next_id)
    × (has (is_of r.principal_id r.machine_id) s.credentials.records ≡ false)

abbrev pub with_new : Service → Record → Service
with_new s r = record s { credentials = with_key s.credentials r }

abbrev pub without_request : Service → Text → Service
without_request s id = record s { requests = delete id s.requests }

abbrev pub with_request : Service → Request → Service
with_request s q = record s { requests = insert q.registration_id q s.requests }

abbrev pub with_records : Service → Map ℕ Record → Service
with_records s m = record s { credentials = record s.credentials { records = m } }

pub data Step (s : Service) : Kind → Service → Type 0 where
  idle : (k : Kind) → Step s k s
  undone :
      (k : Kind) (r : Record)
      → IsNew s r
      → Step s k (
          with_records
            (with_new s r)
            (delete r.credential_id (insert s.credentials.next_id r s.credentials.records)))
  first_key :
      (r : Record) → IsNew s r → known s r.principal_id ≡ false → Step s registering (with_new s r)
  asking :
      (q : Request)
      → lookup q.registration_id s.requests ≡ none
      → known s q.principal_id ≡ true
      → has (is_of q.principal_id q.machine_id) s.credentials.records ≡ false
      → has (is_for q.principal_id q.machine_id) s.requests ≡ false
      → Step s registering (with_request s q)
  approved :
      (id : Text) (q : Request) (r : Record)
      → lookup id s.requests ≡ some q
      → r.principal_id ≡ q.principal_id
      → r.machine_id ≡ q.machine_id
      → IsNew s r
      → Step s (approving id) (without_request (with_new s r) id)
  approved_only :
      (id : Text) (q : Request) (r : Record)
      → lookup id s.requests ≡ some q
      → r.principal_id ≡ q.principal_id
      → r.machine_id ≡ q.machine_id
      → IsNew s r
      → Step s (approving id) (with_new s r)
  rejected :
      (id : Text) (q : Request)
      → lookup id s.requests ≡ some q
      → Step s (rejecting id) (without_request s id)
  by_hand :
      (r : Record)
      → IsNew s r
      → has (is_for r.principal_id r.machine_id) s.requests ≡ false
      → Step s issuing (with_new s r)
  revoked :
      (id : ℕ) (r : Record)
      → lookup id s.credentials.records ≡ some r
      → Step s deleting (with_records s (delete id s.credentials.records))
  changed :
      (id : ℕ) (old new : Record)
      → lookup id s.credentials.records ≡ some old
      → Keeps old new
      → Step s changing (with_records s (insert id new s.credentials.records))
