-- ===== src/Registration.antt =====
-- internal/machinereg: users ask for keys of their machines, and administrators approve or reject.
-- The records that the service writes to the audit log and the texts of its errors are left out.
pub mod Requests
pub mod Service
pub mod Calls
pub mod Sample
mod Examples
use herdr_pal.Prelude.{ℕ, List, Bool}
use herdr_pal.Prelude.Text.{Text}
use herdr_pal.Credential.{Error}

-- `Request`
pub record Request : Type 0 where
  pub registration_id : Text
  pub principal_id : Text
  pub machine_id : Text
  pub allowed_sources : List Text
  pub requested_at : ℕ

-- The errors, with those of the credentials. `OperationError` keeps the credential of a failure.
pub data RegistrationError : Type 0 where
  invalid_request request_not_found machine_exists delivery_failed persist_failed :
      RegistrationError
  rollback_failed cleanup_failed : ℕ → RegistrationError
  credential_error : Error → RegistrationError

-- `RegisterInput`
pub record RegisterInput : Type 0 where
  pub principal_id : Text
  pub machine_id : Text
  pub sources : List Text

-- `RegisterResult`, a constructor for each `Disposition`.
pub data RegisterResult : Type 0 where
  auto_issued : ℕ → RegisterResult
  pending already_pending : Request → RegisterResult

-- `KeyDelivery`
pub record KeyDelivery : Type 0 where
  pub principal_id : Text
  pub machine_id : Text
  pub credential_id : ℕ
  pub token : Text

-- `RejectionDelivery`
pub record RejectionDelivery : Type 0 where
  pub principal_id : Text
  pub machine_id : Text
  pub registration_id : Text
  pub reason : Text

-- `ApprovalResult`
pub record ApprovalResult : Type 0 where
  pub request : Request
  pub credential_id : ℕ

-- `RejectionResult`
pub record RejectionResult : Type 0 where
  pub request : Request
  pub notification_sent : Bool
