-- ===== src/Guard/Examples.antt =====
-- Tests of the guard, and its theorems at one user.
use herdr_pal.Prelude.{◌≡◌, refl, some, ok, ℕ_discrete}
use herdr_pal.Prelude.Text.{
  Text, text_eq, Text-discrete, codes, trim_space, trim_left, byte_len, rune_len,
}
use herdr_pal.Guard.{
  Guard, Identity, KeyAudit, new_guard, authorize, allowed_key, validate_audit, new_key_audit,
  is_sha256_hex, is_audit_result, sent, unauthorized,
}

abbrev ann : Text
ann = codes "ann"

abbrev guard_of_ann : Guard
guard_of_ann = record { allowed_user_id = ann }

abbrev ann_alone : Identity
ann_alone = record { user_id = ann; chat_type = codes "single" }

made : new_guard ann ≡ ok guard_of_ann
unfolding new_guard trim_space trim_left Text-discrete ℕ_discrete
made = refl

group_refused :
    authorize guard_of_ann (record { user_id = ann; chat_type = codes "group" }) ≡ some unauthorized
unfolding authorize Text-discrete ℕ_discrete
group_refused = refl

abbrev hash : Text
hash = codes "0123456789abcdef0123456789abcdef0123456789abcdef0123456789abcdef"

abbrev kept_audit : KeyAudit
kept_audit = record {
  user_id = ann;
  pane_id = codes "p1";
  occupant_hash = hash;
  key = codes "up";
  at = some 1;
  result = sent;
}

audit_made : new_key_audit ann (codes "p1") hash (codes "up") (some 1) sent ≡ ok kept_audit
unfolding new_key_audit validate_audit allowed_key is_sha256_hex is_audit_result trim_space
    trim_left byte_len rune_len Text-discrete ℕ_discrete
audit_made = refl
