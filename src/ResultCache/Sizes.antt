-- ===== src/ResultCache/Sizes.antt =====
-- internal/relayclient/idempotency.go: the entries and the bytes that the cache uses are bounded.
use herdr_pal.Prelude.{
  ℕ, suc, ◌+◌, ◌-◌, ◌≡◌, ◌≢◌, ◌<◌, ◌≤◌, List, [], ◌∷◌, Bool, none, some, nat_eq, leb, length,
  length-keep-le, keep, All-keep, arith, Bool-cases, Option-cases, inl, inr,
}
use herdr_pal.Prelude.Maps.{Map, IsMap, lookup, insert, insert-IsMap}
use herdr_pal.Prelude.Text.{Text, text_eq}
use herdr_pal.ResultCache.{
  ResultCache, Command, CommandResult, Cached, Payload, is_live, released, new_entry, prune_cache,
  fit_payload, write_result, store,
}

abbrev pub total : Map Text Cached → ℕ
total [] = 0
total ((key, e) ∷ m) = e.payload_bytes + total m

-- The count of bytes is that of the entries, and both bounds are kept.
pub record IsAccounted (c : ResultCache) : Type 0 where
  pub map : IsMap c.entries
  pub exact : c.used_bytes ≡ total c.entries
  pub small : c.used_bytes ≤ c.max_bytes
  pub few : length c.entries ≤ c.capacity

pub keep-IsMap : (p : Text × Cached → Bool) (m : Map Text Cached) → IsMap m → IsMap (keep p m)
keep-IsMap p [] d = tt
keep-IsMap p ((k, e) ∷ m) d = elim (Bool-cases (p (k, e))) [
  | inl y ↦ rw y (All-keep (λ f. k ≢ f.0) p m d.0, keep-IsMap p m d.1)
  | inr y ↦ rw y (keep-IsMap p m d.1)
]

-- `extra` is what the entries before these use.
released-total :
    (now : ℕ) (m : Map Text Cached) (extra used : ℕ)
    → used ≡ extra + total m
    → (released now used m ≡ extra + total (keep (is_live now) m)) × (released now used m ≤ used)
unfolding released
released-total now [] extra used e = omega (arith, e)
released-total now ((k, x) ∷ m) extra used e = elim (Bool-cases (leb x.expires_at now)) [
  | inl y ↦
      rw y
        (omega (arith, e, released-total now m extra (used - x.payload_bytes) (omega (arith, e))))
  | inr y ↦
      rw y
        (omega (arith, e, released-total now m (extra + x.payload_bytes) used (omega (arith, e))))
]

pub prune_cache-IsAccounted :
    (c : ResultCache) (now : ℕ) → IsAccounted c → IsAccounted (prune_cache c now)
unfolding prune_cache
prune_cache-IsAccounted c now h =
    let t = released-total now c.entries 0 c.used_bytes (omega (arith, h.exact)) in
    record {
      map = keep-IsMap (is_live now) c.entries h.map;
      exact = omega (arith, t);
      small = omega (arith, t, h.small);
      few = omega (arith, length-keep-le {0} (is_live now) c.entries, h.few);
    }

total-insert_new :
    (key : Text) (e : Cached) (m : Map Text Cached)
    → lookup key m ≡ none
    → (total (insert key e m) ≡ total m + e.payload_bytes)
      × (length (insert key e m) ≡ suc (length m))
unfolding lookup insert
total-insert_new key e [] n = omega arith
total-insert_new key e ((k, x) ∷ m) n = ground (arith, n, total-insert_new key e m)

total-insert_old :
    (key : Text) (e old : Cached) (m : Map Text Cached)
    → lookup key m ≡ some old
    → (total (insert key e m) + old.payload_bytes ≡ total m + e.payload_bytes)
      × (length (insert key e m) ≡ length m)
      × (old.payload_bytes ≤ total m)
unfolding lookup insert
total-insert_old key e old [] n = cc
total-insert_old key e old ((k, x) ∷ m) n = ground (arith, n, total-insert_old key e old m)

fit_payload-le :
    (size : Payload → ℕ) (remaining : ℕ) (e : Cached)
    → (fit_payload size remaining e).payload_bytes ≤ remaining
unfolding fit_payload
fit_payload-le size remaining e = ground arith

module _ (fingerprint : Command → Text) (size : Payload → ℕ) where
  pub write_result-IsAccounted :
      (c : ResultCache) (now : ℕ) (command : Command) (result : CommandResult) (outputs : List Text)
      → IsAccounted c
      → (lookup command.idempotency_key c.entries ≡ none)
      → length c.entries < c.capacity
      → IsAccounted (write_result fingerprint size c now command result outputs c.used_bytes)
  unfolding write_result
  write_result-IsAccounted c now command result outputs h n room =
      let e =
        fit_payload size (c.max_bytes - c.used_bytes)
          (new_entry fingerprint c now command result outputs) in
      let t = total-insert_new command.idempotency_key e c.entries n in
      let le =
        fit_payload-le size (c.max_bytes - c.used_bytes)
          (new_entry fingerprint c now command result outputs) in
      record {
        map = insert-IsMap command.idempotency_key e c.entries h.map;
        exact = omega (arith, t, h.exact);
        small = omega (arith, le, h.small);
        few = omega (arith, t, room);
      }

  rewrite_result-IsAccounted :
      (c : ResultCache) (now : ℕ) (command : Command) (result : CommandResult) (outputs : List Text)
      (old : Cached)
      → IsAccounted c
      → lookup command.idempotency_key c.entries ≡ some old
      → IsAccounted (
          write_result fingerprint size c now command result outputs
            (c.used_bytes - old.payload_bytes))
  unfolding write_result
  rewrite_result-IsAccounted c now command result outputs old h f =
      let used = c.used_bytes - old.payload_bytes in
      let e =
        fit_payload size (c.max_bytes - used)
          (new_entry fingerprint c now command result outputs) in
      let t = total-insert_old command.idempotency_key e old c.entries f in
      let le =
        fit_payload-le size (c.max_bytes - used)
          (new_entry fingerprint c now command result outputs) in
      record {
        map = insert-IsMap command.idempotency_key e c.entries h.map;
        exact = omega (arith, t, h.exact);
        small = omega (arith, le, h.small);
        few = omega (arith, t, h.few);
      }

  -- `Store` keeps the cache accounted: the bytes in use are those of its entries and at most the
  -- limit, and there are at most as many entries as the capacity.
  pub store-IsAccounted :
      (c : ResultCache) (pruned_at now : ℕ) (command : Command) (result : CommandResult)
      (outputs : List Text)
      → IsAccounted c
      → IsAccounted (store fingerprint size c pruned_at now command result outputs)
  unfolding store
  store-IsAccounted c pruned_at now command result outputs h =
      let pruned = prune_cache c pruned_at in
      let k = prune_cache-IsAccounted c pruned_at h in
      elim (Option-cases (lookup command.idempotency_key pruned.entries)) [
        | inr (old, f) ↦
            rw (f, store) (rewrite_result-IsAccounted pruned now command result outputs old k f)
        | inl n ↦ elim (Bool-cases (leb pruned.capacity (length pruned.entries))) [
          | inl no_room ↦ rw (n, no_room, store) k
          | inr room ↦
              rw (n, room, store)
                (write_result-IsAccounted pruned now command result outputs k n
                  (ground (arith, room)))
        ]
      ]
