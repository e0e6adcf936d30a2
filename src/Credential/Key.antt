-- ===== src/Credential/Key.antt =====
-- internal/credential/key.go: keys are issued and verified.
use herdr_pal.Prelude.{
  ℕ, List, [], Bool, true, false, ◌||◌, ◌&&◌, not, Option, none, some, ◌==◌, nat_eq, ltb, leb,
  if◌then◌else◌, length, any, Result, ok, err,
}
use herdr_pal.Prelude.Text.{Text, text_eq, trim_space, byte_len, is_control}
use herdr_pal.Hprp.Validate.{validate_machine_id, max_label_bytes}
use herdr_pal.Credential.{
  Error, invalid_record, unauthenticated, Status, enabled, disabled, Record, Identity, Primitives,
}
use herdr_pal.Credential.Sources.{validate_source_rules}
use herdr_pal.Credential.Token.{token_text, parse_token}

-- `validPrincipalID`
unfoldable pub valid_principal_id : Text → Bool
valid_principal_id value =
    not (value == [])
    && trim_space value == value
    && leb (byte_len value) max_label_bytes
    && not (any is_control value)

abbrev pub valid_machine_id : Text → Bool
valid_machine_id value = elim (validate_machine_id value) [ none ↦ true | some e ↦ false ]

-- An expiry that is set is later than a time.
abbrev pub expires_after : Option ℕ → ℕ → Bool
expires_after none now = true
expires_after (some t) now = ltb now t

abbrev new_record : Primitives → ℕ → Text → Text → List Text → Option ℕ → ℕ → Text → Record
new_record p credential_id principal_id machine_id rules expires_at now secret = record {
  credential_id = credential_id;
  principal_id = principal_id;
  machine_id = machine_id;
  secret_sha256 = p.hex_encode (p.sha256 secret);
  status = enabled;
  allowed_sources = rules;
  expires_at = expires_at;
  created_at = now;
  updated_at = now;
}

-- `Issue`; `secret` is the base64 text of the random bytes, or `none` if they could not be read.
unfoldable pub issue_key :
    Primitives
    → ℕ
    → Text
    → Text
    → List Text
    → Option ℕ
    → ℕ
    → Option Text
    → Result Error (Text × Record)
unfolding valid_principal_id
issue_key p credential_id principal_id machine_id rules expires_at now secret =
    if credential_id == 0
      || not (valid_principal_id principal_id)
      || not (valid_machine_id machine_id)
      || now == 0
      || not (validate_source_rules p rules)
      || not (expires_after expires_at now)
    then err invalid_record
    else elim secret [
      | none ↦ err invalid_record
      | some random ↦ ok (
        token_text credential_id random,
        new_record p credential_id principal_id machine_id rules expires_at now random,
      )
    ]

abbrev pub is_digest : Primitives → Text → Bool
is_digest p digest = elim (p.hex_decode digest) [ none ↦ false | some bytes ↦ length bytes == 32 ]

-- `validateRecord`
unfoldable pub validate_record : Primitives → Record → Bool
unfolding valid_principal_id
validate_record p r =
    not (r.credential_id == 0)
    && valid_principal_id r.principal_id
    && valid_machine_id r.machine_id
    && not (r.created_at == 0)
    && not (r.updated_at == 0)
    && leb r.created_at r.updated_at
    && expires_after r.expires_at r.created_at
    && validate_source_rules p r.allowed_sources
    && is_digest p r.secret_sha256

abbrev pub identity_of : Record → Identity
identity_of r = record {
  credential_id = r.credential_id;
  principal_id = r.principal_id;
  machine_id = r.machine_id;
}

abbrev pub is_enabled : Status → Bool
is_enabled enabled = true
is_enabled disabled = false

abbrev secret_matches : Primitives → Text → Text → Bool
secret_matches p digest secret = elim (p.hex_decode digest) [
  | none ↦ false
  | some bytes ↦ bytes == p.sha256 secret
]

-- `VerifyRecord`
unfoldable pub verify_record : Primitives → Record → Text → ℕ → Text → Result Error Identity
verify_record p r token now source = elim (parse_token p token) [
  | none ↦ err unauthenticated
  | some (credential_id, secret) ↦
      if not (credential_id == r.credential_id)
      then err unauthenticated
      else if not (validate_record p r)
      then err invalid_record
      else if secret_matches p r.secret_sha256 secret
          && is_enabled r.status
          && expires_after r.expires_at now
          && p.match_source r.allowed_sources source
      then ok (identity_of r)
      else err unauthenticated
]
