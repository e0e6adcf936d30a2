-- ===== src/Credential.antt =====
-- internal/credential: the machine keys that the server issues, and the store that keeps their
-- digests. Times are nanoseconds since Go's zero time, which is 0; the readings of the clock, the
-- random secrets and whether a write to disk succeeds are arguments of the calls.
pub mod Sources
pub mod Token
pub mod Key
pub mod Store
pub mod Roundtrip
pub mod Verified
mod Examples
use herdr_pal.Prelude.{ℕ, ◌≡◌, List, Option, some, Bool, length}
use herdr_pal.Prelude.Text.{Text}

-- The errors of the package, with the failure to write the file.
pub data Error : Type 0 where
  invalid_record invalid_token unauthenticated : Error
  source_required source_invalid : Error
  credential_conflict credential_not_found credential_id_exhausted persist_failed : Error

pub data Status : Type 0 where
  enabled disabled : Status

-- `Record`
pub record Record : Type 0 where
  pub credential_id : ℕ
  pub principal_id : Text
  pub machine_id : Text
  pub secret_sha256 : Text
  pub status : Status
  pub allowed_sources : List Text
  pub expires_at : Option ℕ
  pub created_at : ℕ
  pub updated_at : ℕ

-- `Identity`
pub record Identity : Type 0 where
  pub credential_id : ℕ
  pub principal_id : Text
  pub machine_id : Text

-- What rests on net/netip, base64, hex and SHA-256: `ParseSourceRule` and `MatchSource`, whether a
-- text is the base64 form of 32 bytes, the hash of a text, and hex digits.
pub record Primitives : Type 0 where
  pub parse_rule : Text → Option Text
  pub match_source : List Text → Text → Bool
  pub is_secret : Text → Bool
  pub sha256 : Text → Text
  pub hex_encode : Text → Text
  pub hex_decode : Text → Option Text

-- A hash has 32 bytes, and its hex form is read back.
pub record IsLawful (p : Primitives) : Type 0 where
  pub sized : (s : Text) → length (p.sha256 s) ≡ 32
  pub read_back : (s : Text) → p.hex_decode (p.hex_encode (p.sha256 s)) ≡ some (p.sha256 s)

abbrev pub max_uint64 : ℕ
max_uint64 = 18446744073709551615
