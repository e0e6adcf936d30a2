-- ===== src/Credential/Examples.antt =====
-- Tests of keys, and the theorem on one key.
use herdr_pal.Prelude.{
  ◌≡◌, refl, List, [], ◌∷◌, true, none, some, ◌==◌, nat_eq, ==_apart, any, length, arith,
  ℕ_discrete, ok,
}
use herdr_pal.Prelude.Sort.{sort}
use herdr_pal.Hprp.Validate.{validate_machine_id}
use herdr_pal.Prelude.Decimal.{format_uint}
use herdr_pal.Prelude.Text.{Text, text_eq, Text-discrete, codes, trim_space, byte_len, is_control}
use herdr_pal.Credential.{Primitives, IsLawful, Record, Status}
use herdr_pal.Credential.Key.{issue_key}
use herdr_pal.Credential.Sources.{normalize_source_rules, validate_source_rules}
use herdr_pal.Credential.Store.{new_credential_store, issue, verify_bearer}
use herdr_pal.Credential.Token.{token_text, parse_uint}
use herdr_pal.Credential.Verified.{verify_bearer-issue}

abbrev zeros : Text
zeros = codes "0000000000000000000000000000000"

-- Rules are texts that match themselves, a secret has 43 characters, and a hash is the length of its
-- text and 31 zeros.
abbrev plain : Primitives
plain = record {
  parse_rule = λ s. some s;
  match_source = λ rules s. any (λ r. r == s) rules;
  is_secret = λ s. length s == 43;
  sha256 = λ s. length s ∷ zeros;
  hex_encode = λ s. s;
  hex_decode = λ s. some s;
}

plain-IsLawful : IsLawful plain
plain-IsLawful = record { sized = λ s. refl; read_back = λ s. refl }

abbrev secret : Text
secret = codes "abcdefghijklmnopqrstuvwxyz_ABCDEFGHIJKLMNOP"

abbrev home : List Text
home = codes "10.0.0.1" ∷ []

abbrev record_made : Record
record_made = record {
  credential_id = 1;
  principal_id = codes "alice";
  machine_id = codes "laptop";
  secret_sha256 = 43 ∷ zeros;
  status = Status.enabled;
  allowed_sources = home;
  expires_at = some 100;
  created_at = 5;
  updated_at = 5;
}

number_text : format_uint 1203 ≡ codes "1203"
unfolding format_uint
number_text = refl

read_number : parse_uint (codes "18446744073709551616") ≡ none
unfolding parse_uint Text-discrete ℕ_discrete
read_number = refl

issued :
    (issue plain new_credential_store
      (codes "alice")
      (codes "laptop")
      home
      (some 100)
      5
      (some secret)
      true).1
    ≡ ok (token_text 1 secret, record_made)
unfolding issue normalize_source_rules issue_key validate_source_rules Text-discrete ℕ_discrete
    trim_space byte_len is_control validate_machine_id sort
issued = refl

verify_bearer-issue_example :
    verify_bearer plain
      (issue plain new_credential_store
        (codes "alice")
        (codes "laptop")
        home
        (some 100)
        5
        (some secret)
        true).0
      (token_text 1 secret)
      60
      (codes "10.0.0.1")
    ≡ ok (record { credential_id = 1; principal_id = codes "alice"; machine_id = codes "laptop" })
unfolding Text-discrete ℕ_discrete
verify_bearer-issue_example =
    verify_bearer-issue plain new_credential_store (codes "alice") (codes "laptop") home (some 100)
      5 secret true (token_text 1 secret) record_made 60 (codes "10.0.0.1") plain-IsLawful
      (omega arith) refl (==_apart secret [] refl) issued refl refl
