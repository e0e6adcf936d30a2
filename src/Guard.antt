-- ===== src/Guard.antt =====
-- internal/policy/guard.go: who may send input, which keys may be sent, and the audit records of keys.
pub mod Laws
mod Examples
use herdr_pal.Prelude.{
  ℕ, List, [], ◌∷◌, Bool, true, false, ◌&&◌, ◌||◌, not, Option, none, some, ◌==◌, nat_eq, leb,
  if◌then◌else◌, all, Result, ok, err,
}
use herdr_pal.Prelude.Text.{Text, text_eq, codes, trim_space, byte_len}

pub data Error : Type 0 where
  invalid_allowed_user_id unauthorized invalid_key invalid_audit : Error

-- `Identity`
pub record Identity : Type 0 where
  pub user_id : Text
  pub chat_type : Text

-- `Guard`
pub record Guard : Type 0 where
  pub allowed_user_id : Text

-- `NewGuard`
unfoldable pub new_guard : Text → Result Error Guard
new_guard id =
    if trim_space id == []
    then err invalid_allowed_user_id
    else ok (record { allowed_user_id = id })

-- `Authorize`: `none` is success.
unfoldable pub authorize : Guard → Identity → Option Error
authorize g i =
    if not (i.chat_type == codes "single")
      || i.user_id == []
      || not (i.user_id == g.allowed_user_id)
    then some unauthorized
    else none

abbrev pub named_keys : List Text
named_keys = codes "up" ∷ codes "down" ∷ codes "enter" ∷ codes "esc" ∷ codes "space" ∷ []

abbrev pub is_named : Text → List Text → Bool
is_named key [] = false
is_named key (k ∷ ks) = key == k || is_named key ks

-- An ASCII letter or digit.
unfoldable pub key_char : ℕ → Bool
key_char c = (leb b'A' c && leb c b'Z') || (leb b'a' c && leb c b'z') || (leb b'0' c && leb c b'9')

abbrev pub one_char : Text → Bool
one_char (c ∷ []) = key_char c
one_char _ = false

-- `allowedKey`
unfoldable pub allowed_key : Text → Bool
unfolding key_char
allowed_key key = is_named key named_keys || (byte_len key == 1 && one_char key)

-- `ValidateKey`
unfoldable pub validate_key : Text → Option Error
validate_key key = if allowed_key key then none else some invalid_key

-- `AuditResult` is a string in Go: the three valid results, and any other text.
pub data AuditResult : Type 0 where
  sent rejected failed : AuditResult
  other : Text → AuditResult

-- `KeyAudit`; `at` is `none` for the zero time.
pub record KeyAudit : Type 0 where
  pub user_id : Text
  pub pane_id : Text
  pub occupant_hash : Text
  pub key : Text
  pub at : Option ℕ
  pub result : AuditResult

-- `isAuditResult`
unfoldable pub is_audit_result : AuditResult → Bool
is_audit_result (other t) = false
is_audit_result _ = true

abbrev hex_char : ℕ → Bool
hex_char c = (leb b'0' c && leb c b'9') || (leb b'a' c && leb c b'f')

-- `isSHA256Hex`
unfoldable pub is_sha256_hex : Text → Bool
is_sha256_hex s = byte_len s == 64 && all hex_char s

abbrev is_zero : Option ℕ → Bool
is_zero none = true
is_zero (some t) = false

-- `invalidAuditKeyError`; the list is empty for nil.
unfoldable pub invalid_audit_key_error : Text → List Error
invalid_audit_key_error key = if allowed_key key then [] else invalid_key ∷ []

-- `validate` of `KeyAudit`; `errors.Join` is a list of errors, and the empty list is success.
unfoldable pub validate_audit : KeyAudit → List Error
validate_audit a =
    if trim_space a.user_id == []
      || trim_space a.pane_id == []
      || not (is_sha256_hex a.occupant_hash)
      || not (allowed_key a.key)
      || is_zero a.at
      || not (is_audit_result a.result)
    then invalid_audit ∷ invalid_audit_key_error a.key
    else []

abbrev or_audit : KeyAudit → List Error → Result (List Error) KeyAudit
or_audit a [] = ok a
or_audit a (e ∷ es) = err (e ∷ es)

-- `NewKeyAudit`
unfoldable pub new_key_audit :
    Text → Text → Text → Text → Option ℕ → AuditResult → Result (List Error) KeyAudit
new_key_audit user_id pane_id occupant_hash key at result =
    let a : KeyAudit = record {
      user_id = user_id;
      pane_id = pane_id;
      occupant_hash = occupant_hash;
      key = key;
      at = at;
      result = result;
    } in
    or_audit a (validate_audit a)
