-- ===== src/ResultCache/Runs.antt =====
-- internal/relayclient/idempotency.go: any history of lookups and stores.
use herdr_pal.Prelude.{
  ℕ, refl, List, [], ◌∷◌, ◌==◌, nat_eq, leb, length, arith, Bool-cases, Option-cases, inl, inr,
}
use herdr_pal.Prelude.Maps.{lookup}
use herdr_pal.Prelude.Text.{Text, text_eq}
use herdr_pal.ResultCache.{
  ResultCache, Command, CommandResult, Payload, new_result_cache, prune_cache, store, lookup_result,
}
use herdr_pal.ResultCache.Sizes.{IsAccounted, prune_cache-IsAccounted, store-IsAccounted}

-- A call on the cache, with the readings of the clock.
pub data CacheCall : Type 0 where
  look_up : ℕ → Command → CacheCall
  put : ℕ → ℕ → Command → CommandResult → List Text → CacheCall

abbrev pub cache_run : (Command → Text) → (Payload → ℕ) → ResultCache → List CacheCall → ResultCache
cache_run fingerprint size c [] = c
cache_run fingerprint size c (look_up now command ∷ rest) =
    cache_run fingerprint size (lookup_result fingerprint c now command).0 rest
cache_run fingerprint size c (put pruned_at now command result outputs ∷ rest) =
    cache_run fingerprint size (store fingerprint size c pruned_at now command result outputs) rest

module _ (fingerprint : Command → Text) (size : Payload → ℕ) where
  lookup_result-IsAccounted :
      (c : ResultCache) (now : ℕ) (command : Command)
      → IsAccounted c
      → IsAccounted (lookup_result fingerprint c now command).0
  unfolding lookup_result
  lookup_result-IsAccounted c now command h =
      let pruned = prune_cache c now in
      let k = prune_cache-IsAccounted c now h in
      elim (Option-cases (lookup command.idempotency_key pruned.entries)) [
        | inl n ↦ elim (Bool-cases (leb pruned.capacity (length pruned.entries))) [
          | inl y ↦ rw (n, y, lookup_result) k
          | inr y ↦ rw (n, y, lookup_result) k
        ]
        | inr (old, f) ↦ elim (Bool-cases (old.fingerprint == fingerprint command)) [
          | inl y ↦ rw (f, y, lookup_result) k
          | inr y ↦ rw (f, y, lookup_result) k
        ]
      ]

  -- After any lookups and stores from a new cache, at whatever times, the bytes in use are those of
  -- the entries and at most the limit, and there are at most as many entries as the capacity.
  pub cache_run-IsAccounted :
      (capacity max_bytes ttl : ℕ) (calls : List CacheCall)
      → IsAccounted (cache_run fingerprint size (new_result_cache capacity max_bytes ttl) calls)
  unfolding new_result_cache
  cache_run-IsAccounted capacity max_bytes ttl calls =
      from (new_result_cache capacity max_bytes ttl) calls
        (record { map = tt; exact = refl; small = omega arith; few = omega arith })
    where
      from :
          (c : ResultCache) (rest : List CacheCall)
          → IsAccounted c
          → IsAccounted (cache_run fingerprint size c rest)
      from c [] h = h
      from c (look_up now command ∷ rest) h =
          from (lookup_result fingerprint c now command).0 rest
            (lookup_result-IsAccounted c now command h)
      from c (put pruned_at now command result outputs ∷ rest) h =
          from (store fingerprint size c pruned_at now command result outputs) rest
            (store-IsAccounted fingerprint size c pruned_at now command result outputs h)
