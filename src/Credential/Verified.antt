-- ===== src/Credential/Verified.antt =====
-- internal/credential: a key that is issued is the one that verifies.
use herdr_pal.Prelude.{
  ℕ, ◌≡◌, ◌≢◌, ◌≤◌, List, [], Bool, true, false, Option, some, nat_eq, arith, Result, ok, err,
  Result-cases, inl, inr, sym, ap, ◌∙◌,
}
use herdr_pal.Prelude.Maps.{lookup, insert, lookup-insert_self}
use herdr_pal.Prelude.Text.{Text, text_eq}
use herdr_pal.Credential.{Error, Record, Identity, Status, Primitives, IsLawful, max_uint64}
use herdr_pal.Credential.Key.{issue_key, validate_record, verify_record, identity_of, expires_after}
use herdr_pal.Credential.Roundtrip.{parse_token-token_text}
use herdr_pal.Credential.Sources.{normalize_source_rules}
use herdr_pal.Credential.Store.{CredentialStore, save_issued, issue, verify_bearer}
use herdr_pal.Credential.Token.{token_text, parse_token}

issue_key_fields :
    (p : Primitives) (id : ℕ) (user machine : Text) (rules : List Text) (expires : Option ℕ)
    (now : ℕ) (secret token : Text) (r : Record)
    → IsLawful p
    → issue_key p id user machine rules expires now (some secret) ≡ ok (token, r)
    → (token ≡ token_text id secret)
      × (r.credential_id ≡ id)
      × (id ≢ 0)
      × (r.expires_at ≡ expires)
      × (r.allowed_sources ≡ rules)
      × (r.status ≡ Status.enabled)
      × (r.secret_sha256 ≡ p.hex_encode (p.sha256 secret))
      × (validate_record p r ≡ true)
unfolding issue_key validate_record
issue_key_fields p id user machine rules expires now secret token r l e =
    ground (arith, e, l.read_back secret, l.sized secret)

verify_record_issued :
    (p : Primitives) (r : Record) (secret : Text) (now : ℕ) (source : Text)
    → IsLawful p
    → parse_token p (token_text r.credential_id secret) ≡ some (r.credential_id, secret)
    → validate_record p r ≡ true
    → r.secret_sha256 ≡ p.hex_encode (p.sha256 secret)
    → r.status ≡ Status.enabled
    → expires_after r.expires_at now ≡ true
    → p.match_source r.allowed_sources source ≡ true
    → verify_record p r (token_text r.credential_id secret) now source ≡ ok (identity_of r)
unfolding verify_record
verify_record_issued p r secret now source l parsed valid digest on alive allowed =
    ground (arith, parsed, valid, digest, on, alive, allowed, l.read_back secret)

saved_ok :
    (c : CredentialStore) (res : Result Error (Text × Record)) (saved : Bool) (token : Text)
    (r : Record)
    → (save_issued c res saved).1 ≡ ok (token, r)
    → (res ≡ ok (token, r)) × ((save_issued c res saved).0.records ≡ insert c.next_id r c.records)
unfolding save_issued
saved_ok c (err e) saved token r eq = cc
saved_ok c (ok (t, q)) true token r eq = ground (arith, eq)
saved_ok c (ok (t, q)) false token r eq = cc

pub issue_ok :
    (p : Primitives) (c : CredentialStore) (user machine : Text) (sources : List Text)
    (expires : Option ℕ) (now : ℕ) (secret : Option Text) (saved : Bool) (token : Text) (r : Record)
    → (issue p c user machine sources expires now secret saved).1 ≡ ok (token, r)
    → (rules : List Text) × (issue_key p c.next_id user machine rules expires now secret
        ≡ ok (token, r))
      × ((issue p c user machine sources expires now secret saved).0.records
          ≡ insert c.next_id r c.records)
unfolding issue
issue_ok p c user machine sources expires now secret saved token r eq =
    elim (Result-cases (normalize_source_rules p sources)) [
      | inr (e, n) ↦ ground (arith, n, eq)
      | inl (rules, n) ↦
          let key = issue_key p c.next_id user machine rules expires now secret in
          let k : (save_issued c key saved).1 ≡ ok (token, r) = ground (arith, n, eq) in
          let done = saved_ok c key saved token r k in
          (rules, done.0, ground (arith, n, eq, done.1))
    ]

fields_of :
    (p : Primitives) (id : ℕ) (user machine : Text) (rules : List Text) (expires : Option ℕ)
    (now : ℕ) (secret : Option Text) (token : Text) (r : Record)
    → issue_key p id user machine rules expires now secret ≡ ok (token, r)
    → (r.principal_id ≡ user) × (r.machine_id ≡ machine)
unfolding issue_key
fields_of p id user machine rules expires now secret token r e = ground (arith, e)

verify_found :
    (p : Primitives) (c : CredentialStore) (token : Text) (now : ℕ) (source secret : Text)
    (r : Record)
    → parse_token p token ≡ some (r.credential_id, secret)
    → lookup r.credential_id c.records ≡ some r
    → verify_bearer p c token now source ≡ verify_record p r token now source
unfolding verify_bearer
verify_found p c token now source secret r parsed f = ground (arith, parsed, f)

-- A token that `Issue` returned verifies in the store that it left, from any source that the rules
-- of its record match and at any time before its expiry, as the user and the machine that it was
-- issued for, if the secret is a text of 32 bytes and the number fits in 64 bits.
pub verify_bearer-issue :
    (p : Primitives) (c : CredentialStore) (user machine : Text) (sources : List Text)
    (expires : Option ℕ) (now : ℕ) (secret : Text) (saved : Bool) (token : Text) (r : Record)
    (later : ℕ) (source : Text)
    → IsLawful p
    → c.next_id ≤ max_uint64
    → p.is_secret secret ≡ true
    → secret ≢ []
    → (issue p c user machine sources expires now (some secret) saved).1 ≡ ok (token, r)
    → expires_after expires later ≡ true
    → p.match_source r.allowed_sources source ≡ true
    → verify_bearer p
        (issue p c user machine sources expires now (some secret) saved).0
        token
        later
        source
      ≡ ok (record { credential_id = c.next_id; principal_id = user; machine_id = machine })
verify_bearer-issue p c user machine sources expires now secret saved token r later source l fits
      good some_text eq alive allowed =
    let (rules, made, records) =
      issue_ok p c user machine sources expires now (some secret) saved token r eq in
    let (text, own, room, until, _, on, digest, valid) =
      issue_key_fields p c.next_id user machine rules expires now secret token r l made in
    let whose = fields_of p c.next_id user machine rules expires now (some secret) token r made in
    let text' : token ≡ token_text r.credential_id secret =
      text ∙ ap (λ id. token_text id secret) (sym own) in
    let parsed : parse_token p (token_text r.credential_id secret)
        ≡ some (r.credential_id, secret) =
      parse_token-token_text p r.credential_id secret (λ z. room (sym own ∙ z))
        (omega (arith, own, fits)) good some_text in
    let there : lookup r.credential_id
          (issue p c user machine sources expires now (some secret) saved).0.records
        ≡ some r =
      ap (lookup r.credential_id) records
      ∙ ap (λ id. lookup id (insert c.next_id r c.records)) own
      ∙ lookup-insert_self c.next_id r c.records in
    ap
      (λ t.
        verify_bearer p (issue p c user machine sources expires now (some secret) saved).0 t later
          source)
      text'
    ∙ verify_found p (issue p c user machine sources expires now (some secret) saved).0
        (token_text r.credential_id secret) later source secret r parsed there
    ∙ verify_record_issued p r secret later source l parsed valid digest on
        (ap (λ x. expires_after x later) until ∙ alive) allowed
    ∙ identity r own whose
  where
    identity :
        (r : Record)
        → r.credential_id ≡ c.next_id
        → (r.principal_id ≡ user) × (r.machine_id ≡ machine)
        → ◌≡◌ {A = Result Error Identity}
            (ok (identity_of r))
            (ok (record { credential_id = c.next_id; principal_id = user; machine_id = machine }))
    identity r own whose = ground (arith, own, whose)
