-- ===== src/Guard/Laws.antt =====
-- internal/policy/guard.go: the one identity that a guard lets in, and the records that are kept.
use herdr_pal.Prelude.{ℕ, ◌≡◌, ◌≢◌, ◌↔◌, ap, [], Option, none, ok, arith}
use herdr_pal.Prelude.Text.{Text, text_eq, codes, trim_space, nonblank, byte_len}
use herdr_pal.Guard.{
  Guard, Identity, KeyAudit, AuditResult, new_guard, authorize, validate_key, validate_audit,
  new_key_audit, is_sha256_hex,
}

-- A guard that was made lets in exactly the user that it was made for, in a single chat.
pub authorize_iff :
    (id : Text) (g : Guard) (i : Identity)
    → new_guard id ≡ ok g
    → (authorize g i ≡ none) ↔ (i ≡ record { user_id = id; chat_type = codes "single" })
unfolding new_guard authorize
authorize_iff id g i made =
    let allowed : g.allowed_user_id ≡ id = ground (arith, made) in
    let filled : id ≢ [] = nonblank id (ground (arith, made)) in
    (
      λ e. ground (arith, made, e),
      λ e. lets_in (ap (λ j. j.user_id) e) (ap (λ j. j.chat_type) e) allowed filled,
    )
  where
    lets_in :
        i.user_id ≡ id
        → i.chat_type ≡ codes "single"
        → g.allowed_user_id ≡ id
        → id ≢ []
        → authorize g i ≡ none
    lets_in u c a n = ground (arith, u, c, a, n)

-- A record of a key that `NewKeyAudit` makes names the user, the pane and the key that were given;
-- the user and the pane are not blank, the guard lets the key through, and the hash has 64 bytes.
pub new_key_audit_ok :
    (user_id pane_id hash key : Text) (at : Option ℕ) (result : AuditResult) (a : KeyAudit)
    → new_key_audit user_id pane_id hash key at result ≡ ok a
    → (a.user_id ≡ user_id)
      × (a.pane_id ≡ pane_id)
      × (a.key ≡ key)
      × (trim_space user_id ≢ [])
      × (trim_space pane_id ≢ [])
      × (validate_key key ≡ none)
      × (byte_len hash ≡ 64)
unfolding new_key_audit validate_audit validate_key is_sha256_hex
new_key_audit_ok user_id pane_id hash key at result a made = (
  ground (arith, made),
  ground (arith, made),
  ground (arith, made),
  ground (arith, made),
  ground (arith, made),
  ground (arith, made),
  ground (arith, made),
)
