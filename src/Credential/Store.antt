-- ===== src/Credential/Store.antt =====
-- internal/credential/store.go: the store of credentials. `saved` says whether the file was written.
use herdr_pal.Prelude.{
  ℕ, ◌+◌, List, [], ◌∷◌, ◌++◌, map, Bool, true, false, ◌&&◌, not, Option, none, some, ◌==◌, nat_eq,
  ltb, if◌then◌else◌, any, keep, Result, ok, err,
}
use herdr_pal.Prelude.Maps.{Map, lookup, insert, delete}
use herdr_pal.Prelude.Sort.{sort}
use herdr_pal.Prelude.Text.{Text, text_eq}
use herdr_pal.Credential.{
  Error, invalid_record, unauthenticated, credential_conflict, credential_not_found,
  source_required, credential_id_exhausted, persist_failed, Status, enabled, disabled, Record,
  Identity, Primitives, max_uint64,
}
use herdr_pal.Credential.Sources.{normalize_source_rules}
use herdr_pal.Credential.Token.{parse_token}
use herdr_pal.Credential.Key.{issue_key, validate_record, verify_record, is_enabled}

-- `Store`, without the path and the sources of time and chance.
pub record CredentialStore : Type 0 where
  pub records : Map ℕ Record
  pub next_id : ℕ

abbrev pub new_credential_store : CredentialStore
new_credential_store = record { records = []; next_id = 1 }

abbrev pub is_of : Text → Text → Record → Bool
is_of principal_id machine_id r = r.principal_id == principal_id && r.machine_id == machine_id

abbrev pub next_after : ℕ → ℕ
next_after credential_id = if credential_id == max_uint64 then 0 else credential_id + 1

-- The end of `Issue`, after the tests of the store.
unfoldable pub save_issued :
    CredentialStore
    → Result Error (Text × Record)
    → Bool
    → CredentialStore × Result Error (Text × Record)
save_issued s (err e) saved = (s, err e)
save_issued s (ok (token, r)) saved =
    if saved
    then (
      record { records = insert s.next_id r s.records; next_id = next_after s.next_id },
      ok (token, r),
    )
    else (s, err persist_failed)

-- `Store.Issue`
unfoldable pub issue :
    Primitives
    → CredentialStore
    → Text
    → Text
    → List Text
    → Option ℕ
    → ℕ
    → Option Text
    → Bool
    → CredentialStore × Result Error (Text × Record)
unfolding save_issued
issue p s principal_id machine_id sources expires_at now secret saved =
    elim (normalize_source_rules p sources) [
      | err e ↦ (s, err e)
      | ok rules ↦
          if any (λ e. is_of principal_id machine_id e.1) s.records
          then (s, err credential_conflict)
          else if s.next_id == 0
          then (s, err credential_id_exhausted)
          else save_issued s
              (issue_key p s.next_id principal_id machine_id rules expires_at now secret) saved
    ]

-- `List`
unfoldable pub list_records : CredentialStore → List Record
list_records s = sort (λ a b. ltb a.credential_id b.credential_id) (map (λ e. e.1) s.records)

-- `Show`
unfoldable pub show_record : CredentialStore → ℕ → Result Error Record
show_record s credential_id =
    if credential_id == 0
    then err credential_not_found
    else elim (lookup credential_id s.records) [ none ↦ err credential_not_found | some r ↦ ok r ]

-- `Store.Delete`
unfoldable pub delete_record : CredentialStore → ℕ → Bool → CredentialStore × Result Error Record
delete_record s credential_id saved =
    if credential_id == 0
    then (s, err credential_not_found)
    else elim (lookup credential_id s.records) [
      | none ↦ (s, err credential_not_found)
      | some r ↦
          if saved
          then (record s { records = delete credential_id s.records }, ok r)
          else (s, err persist_failed)
    ]

unfoldable pub status_eq : Status → Status → Bool
status_eq a b = if is_enabled a then is_enabled b else not (is_enabled b)

unfoldable pub expiry_eq : Option ℕ → Option ℕ → Bool
expiry_eq none none = true
expiry_eq (some a) (some b) = a == b
expiry_eq none (some b) = false
expiry_eq (some a) none = false

unfoldable pub rules_equal : List Text → List Text → Bool
rules_equal [] [] = true
rules_equal (x ∷ xs) (y ∷ ys) = x == y && rules_equal xs ys
rules_equal [] (y ∷ ys) = false
rules_equal (x ∷ xs) [] = false

-- `reflectRecordsEqual`
unfoldable pub records_equal : Record → Record → Bool
unfolding status_eq expiry_eq rules_equal
records_equal a b =
    a.credential_id == b.credential_id
    && a.principal_id == b.principal_id
    && a.machine_id == b.machine_id
    && a.secret_sha256 == b.secret_sha256
    && status_eq a.status b.status
    && a.created_at == b.created_at
    && a.updated_at == b.updated_at
    && expiry_eq a.expires_at b.expires_at
    && rules_equal a.allowed_sources b.allowed_sources

-- The end of `updateRecord`, on the record that was transformed.
unfoldable pub save_updated :
    Primitives
    → CredentialStore
    → ℕ
    → Record
    → Result Error Record
    → Bool
    → CredentialStore × Result Error Record
unfolding records_equal
save_updated p s credential_id current (err e) saved = (s, err e)
save_updated p s credential_id current (ok updated) saved =
    if not (validate_record p updated)
    then (s, err invalid_record)
    else if records_equal current updated
    then (s, ok current)
    else if saved
    then (record s { records = insert credential_id updated s.records }, ok updated)
    else (s, err persist_failed)

-- `updateRecord`
unfoldable pub update_record :
    Primitives
    → CredentialStore
    → ℕ
    → (Record → Result Error Record)
    → Bool
    → CredentialStore × Result Error Record
unfolding save_updated
update_record p s credential_id transform saved =
    if credential_id == 0
    then (s, err credential_not_found)
    else elim (lookup credential_id s.records) [
      | none ↦ (s, err credential_not_found)
      | some current ↦ save_updated p s credential_id current (transform current) saved
    ]

abbrev with_status : Status → ℕ → Record → Result Error Record
with_status status now r =
    if status_eq r.status status then ok r else ok (record r { status = status; updated_at = now })

-- `Enable`
unfoldable pub enable :
    Primitives → CredentialStore → ℕ → ℕ → Bool → CredentialStore × Result Error Record
unfolding update_record status_eq
enable p s credential_id now saved = update_record p s credential_id (with_status enabled now) saved

-- `Disable`
unfoldable pub disable :
    Primitives → CredentialStore → ℕ → ℕ → Bool → CredentialStore × Result Error Record
unfolding update_record status_eq
disable p s credential_id now saved =
    update_record p s credential_id (with_status disabled now) saved

abbrev with_rules : ℕ → Record → Result Error (List Text) → Result Error Record
with_rules now r (err e) = err e
with_rules now r (ok rules) = ok (record r { allowed_sources = rules; updated_at = now })

-- `AddSources`
unfoldable pub add_sources :
    Primitives → CredentialStore → ℕ → List Text → ℕ → Bool → CredentialStore × Result Error Record
unfolding update_record
add_sources p s credential_id values now saved =
    update_record p s credential_id
      (λ r. with_rules now r (normalize_source_rules p (r.allowed_sources ++ values))) saved

abbrev remaining : List Text → List Text → Result Error (List Text)
remaining rules removed =
    let rest = keep (λ rule. not (any (λ r. r == rule) removed)) rules in
    elim rest [ [] ↦ err source_required | rule ∷ more ↦ ok (rule ∷ more) ]

-- `RemoveSources`
unfoldable pub remove_sources :
    Primitives → CredentialStore → ℕ → List Text → ℕ → Bool → CredentialStore × Result Error Record
unfolding update_record
remove_sources p s credential_id values now saved = elim (normalize_source_rules p values) [
  | err e ↦ (s, err e)
  | ok removed ↦
      update_record p s credential_id (λ r. with_rules now r (remaining r.allowed_sources removed))
        saved
]

-- `SetSources`
unfoldable pub set_sources :
    Primitives → CredentialStore → ℕ → List Text → ℕ → Bool → CredentialStore × Result Error Record
unfolding update_record
set_sources p s credential_id values now saved = elim (normalize_source_rules p values) [
  | err e ↦ (s, err e)
  | ok rules ↦ update_record p s credential_id (λ r. with_rules now r (ok rules)) saved
]

-- `VerifyBearer`
unfoldable pub verify_bearer :
    Primitives → CredentialStore → Text → ℕ → Text → Result Error Identity
verify_bearer p s token now source = elim (parse_token p token) [
  | none ↦ err unauthenticated
  | some (credential_id, secret) ↦ elim (lookup credential_id s.records) [
    | none ↦ err unauthenticated
    | some r ↦ verify_record p r token now source
  ]
]
