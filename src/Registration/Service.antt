-- ===== src/Registration/Service.antt =====
-- internal/machinereg/service.go: `Register`, `Approve`, `Reject` and `Issue`. The lock of a user is
-- held from the first read that matters to the last write, so each call is one step; a number of a
-- request that `Approve` and `Reject` read twice is read once. What lies outside (the clock, random
-- secrets, writes to disk, whether a message arrives) is an argument, and the keys that a call hands
-- over are part of its result.
use herdr_pal.Prelude.{
  ℕ, List, [], ◌∷◌, Bool, ◌||◌, ◌&&◌, not, Option, none, some, ◌==◌, nat_eq, leb, if◌then◌else◌,
  any, Result, ok, err,
}
use herdr_pal.Prelude.Text.{Text, text_eq, trim_space, byte_len, is_control}
use herdr_pal.Credential.{Error, invalid_record, credential_conflict, Record, Primitives}
use herdr_pal.Credential.Sources.{normalize_source_rules}
use herdr_pal.Credential.Key.{valid_principal_id, valid_machine_id}
use herdr_pal.Credential.Store.{CredentialStore, is_of, issue, show_record, delete_record}
use herdr_pal.Registration.{
  Request, RegistrationError, invalid_request, machine_exists, delivery_failed, rollback_failed,
  cleanup_failed, credential_error, RegisterInput, RegisterResult, auto_issued, pending,
  already_pending, KeyDelivery, RejectionDelivery, ApprovalResult, RejectionResult,
}
use herdr_pal.Registration.Requests.{
  Requests, find_request, requests_of, show_request, create_request, delete_request,
}

abbrev pub max_rejection_reason_bytes : ℕ
max_rejection_reason_bytes = 512

-- `Service`, with the two stores that it writes.
pub record Service : Type 0 where
  pub credentials : CredentialStore
  pub requests : Requests

-- What a call meets outside: the time, the random secret and numbers, whether the writes of a new
-- key, of its removal and of the requests succeed, and whether the message to the user arrives.
pub record Outside : Type 0 where
  pub now : ℕ
  pub secret : Option Text
  pub candidates : List (Option Text)
  pub key_saved : Bool
  pub removal_saved : Bool
  pub requests_saved : Bool
  pub delivered : Bool

abbrev pub contains_machine : CredentialStore → Text → Text → Bool
contains_machine c principal_id machine_id = any (λ e. is_of principal_id machine_id e.1) c.records

abbrev pub has_principal : CredentialStore → Text → Bool
has_principal c principal_id = any (λ e. e.1.principal_id == principal_id) c.records

abbrev pub delivery_of : Text → Record → KeyDelivery
delivery_of token r = record {
  principal_id = r.principal_id;
  machine_id = r.machine_id;
  credential_id = r.credential_id;
  token = token;
}

-- The removal of a key that could not be delivered.
unfoldable pub roll_back : CredentialStore → ℕ → Bool → CredentialStore × RegistrationError
roll_back c credential_id saved =
    let removed = delete_record c credential_id saved in
    elim removed.1 [
      | ok r ↦ (removed.0, delivery_failed)
      | err e ↦ (removed.0, rollback_failed credential_id)
    ]

-- The end of `Register` for the first machine of a user, on the key that was issued.
unfoldable pub hand_over_first :
    Service
    → CredentialStore × Result Error (Text × Record)
    → Outside
    → Service × Result RegistrationError RegisterResult × List KeyDelivery
unfolding roll_back
hand_over_first s (c, err e) o = (s, err (credential_error e), [])
hand_over_first s (c, ok (token, r)) o =
    if o.delivered
    then (record s { credentials = c }, ok (auto_issued r.credential_id), delivery_of token r ∷ [])
    else (
      record s { credentials = (roll_back c r.credential_id o.removal_saved).0 },
      err (roll_back c r.credential_id o.removal_saved).1,
      delivery_of token r ∷ [],
    )

-- The branch of `Register` that leaves a request.
unfoldable pub leave_request :
    Primitives
    → (Text → Bool)
    → Service
    → RegisterInput
    → List Text
    → Outside
    → Service × Result RegistrationError RegisterResult × List KeyDelivery
leave_request p is_registration_id s input rules o =
    let made =
      create_request p is_registration_id s.requests input.principal_id input.machine_id rules
        o.candidates o.now o.requests_saved in
    elim made.1 [
      | err e ↦ (record s { requests = made.0 }, err invalid_request, [])
      | ok (r, is_new) ↦ (record s { requests = made.0 }, ok (pending r), [])
    ]

-- `Register`; `can_deliver` is `deliver != nil`.
unfoldable pub register :
    Primitives
    → (Text → Bool)
    → Service
    → RegisterInput
    → Bool
    → Outside
    → Service × Result RegistrationError RegisterResult × List KeyDelivery
unfolding hand_over_first leave_request
register p is_registration_id s input can_deliver o =
    if not (valid_principal_id input.principal_id) || not (valid_machine_id input.machine_id)
    then (s, err invalid_request, [])
    else elim (normalize_source_rules p input.sources) [
      | err e ↦ (s, err invalid_request, [])
      | ok rules ↦
          if contains_machine s.credentials input.principal_id input.machine_id
          then (s, err machine_exists, [])
          else elim (find_request s.requests input.principal_id input.machine_id) [
            | some r ↦ (s, ok (already_pending r), [])
            | none ↦
                if has_principal s.credentials input.principal_id
                  || requests_of s.requests input.principal_id
                then leave_request p is_registration_id s input rules o
                else if not can_deliver
                then (s, err invalid_request, [])
                else hand_over_first s
                    (issue p s.credentials input.principal_id input.machine_id input.sources none
                      o.now o.secret o.key_saved)
                    o
          ]
    ]

-- The end of `Approve` when the key was delivered.
unfoldable pub clean_up :
    Service
    → Text
    → Request
    → CredentialStore
    → KeyDelivery
    → Bool
    → Service × Result RegistrationError ApprovalResult × List KeyDelivery
clean_up s registration_id request c sent saved =
    let removed = delete_request s.requests registration_id saved in
    let after = record s { credentials = c; requests = removed.0 } in
    elim removed.1 [
      | err e ↦ (after, err (cleanup_failed sent.credential_id), sent ∷ [])
      | ok gone ↦
          (after, ok (record { request = request; credential_id = sent.credential_id }), sent ∷ [])
    ]

-- The end of `Approve`, on the key that was issued.
unfoldable pub hand_over_approved :
    Service
    → Text
    → Request
    → CredentialStore × Result Error (Text × Record)
    → Outside
    → Service × Result RegistrationError ApprovalResult × List KeyDelivery
unfolding roll_back clean_up
hand_over_approved s registration_id request (c, err e) o = (s, err (credential_error e), [])
hand_over_approved s registration_id request (c, ok (token, r)) o =
    if o.delivered
    then clean_up s registration_id request c (delivery_of token r) o.requests_saved
    else (
      record s { credentials = (roll_back c r.credential_id o.removal_saved).0 },
      err (roll_back c r.credential_id o.removal_saved).1,
      delivery_of token r ∷ [],
    )

-- `Approve`
unfoldable pub approve :
    Primitives
    → Service
    → Text
    → Text
    → Bool
    → Outside
    → Service × Result RegistrationError ApprovalResult × List KeyDelivery
unfolding hand_over_approved
approve p s registration_id admin_username can_deliver o =
    if not can_deliver || trim_space admin_username == []
    then (s, err invalid_request, [])
    else elim (show_request s.requests registration_id) [
      | err e ↦ (s, err e, [])
      | ok request ↦
          if contains_machine s.credentials request.principal_id request.machine_id
          then (s, err machine_exists, [])
          else hand_over_approved s registration_id request
              (issue p s.credentials request.principal_id request.machine_id request.allowed_sources
                none o.now o.secret o.key_saved)
              o
    ]

-- `normalizeRejectionReason`
unfoldable pub normalize_rejection_reason : Text → Result RegistrationError Text
normalize_rejection_reason value =
    let reason = trim_space value in
    if not (leb (byte_len reason) max_rejection_reason_bytes) || any is_control reason
    then err invalid_request
    else ok reason

-- `Reject`
unfoldable pub reject :
    Service
    → Text
    → Text
    → Text
    → Bool
    → Outside
    → Service × Result RegistrationError RejectionResult × List RejectionDelivery
unfolding normalize_rejection_reason
reject s registration_id admin_username reason can_deliver o =
    if trim_space admin_username == []
    then (s, err invalid_request, [])
    else elim (normalize_rejection_reason reason) [
      | err e ↦ (s, err e, [])
      | ok normalized ↦
          let removed = delete_request s.requests registration_id o.requests_saved in
          elim removed.1 [
            | err e ↦ (record s { requests = removed.0 }, err e, [])
            | ok r ↦ (
              record s { requests = removed.0 },
              ok (record { request = r; notification_sent = can_deliver && o.delivered }),
              if can_deliver
                  then record {
                    principal_id = r.principal_id;
                    machine_id = r.machine_id;
                    registration_id = r.registration_id;
                    reason = normalized;
                  }
                    ∷ []
                  else [],
            )
          ]
    ]

-- `Service.Issue`
unfoldable pub issue_by_hand :
    Primitives
    → Service
    → Text
    → Text
    → List Text
    → Option ℕ
    → Outside
    → Service × Result Error (Text × Record)
issue_by_hand p s principal_id machine_id sources expires_at o =
    if not (valid_principal_id principal_id)
    then (s, err invalid_record)
    else elim (find_request s.requests principal_id machine_id) [
      | some r ↦ (s, err credential_conflict)
      | none ↦
          let issued =
            issue p s.credentials principal_id machine_id sources expires_at o.now o.secret
              o.key_saved in
          (record s { credentials = issued.0 }, issued.1)
    ]

-- `withCredentialLock`, where the two reads of the credential are one.
unfoldable pub with_credential_lock :
    Service
    → ℕ
    → (CredentialStore → CredentialStore × Result Error Record)
    → Service × Result Error Record
with_credential_lock s credential_id operation = elim (show_record s.credentials credential_id) [
  | err e ↦ (s, err e)
  | ok r ↦ let done = operation s.credentials in (record s { credentials = done.0 }, done.1)
]
