-- ===== src/ResultCache/Stored.antt =====
-- internal/relayclient/idempotency.go: a command that is sent again gets the result that was stored.
use herdr_pal.Prelude.{
  ℕ, ◌+◌, ◌-◌, ◌≡◌, ◌≢◌, ◌<◌, refl, sym, List, [], ◌∷◌, false, none, some, ◌==◌, nat_eq, leb,
  length, keep, length-keep-le, All, arith, ap, ◌∙◌, subst, Bool-cases, Option-cases, inl, inr,
}
use herdr_pal.Prelude.Maps.{Map, lookup, lookup-insert}
use herdr_pal.Prelude.Text.{Text, text_eq}
use herdr_pal.ResultCache.{
  ResultCache, Command, CommandResult, Cached, Payload, miss, conflict, hit, is_live, new_entry,
  prune_cache, fit_payload, write_result, store, lookup_result,
}
use herdr_pal.ResultCache.Runs.{CacheCall, look_up, put, cache_run}

lookup-live :
    (now : ℕ) (key : Text) (e : Cached) (m : Map Text Cached)
    → lookup key m ≡ some e
    → now < e.expires_at
    → lookup key (keep (is_live now) m) ≡ some e
unfolding lookup
lookup-live now key e [] f lt = cc
lookup-live now key e ((k, x) ∷ m) f lt = ground (arith, f, lt, lookup-live now key e m)

lookup-gone :
    (now : ℕ) (key : Text) (m : Map Text Cached)
    → lookup key m ≡ none
    → lookup key (keep (is_live now) m) ≡ none
unfolding lookup
lookup-gone now key [] f = refl
lookup-gone now key ((k, x) ∷ m) f = ground (arith, f, lookup-gone now key m)

-- What `fitPayloadLocked` never drops.
abbrev Keeps : Cached → Cached → Type 0
Keeps new e =
    (e.target ≡ new.target)
    × (e.fingerprint ≡ new.fingerprint)
    × (e.expires_at ≡ new.expires_at)
    × (e.result.outcome ≡ new.result.outcome)
    × (e.result.replacement_target ≡ new.result.replacement_target)

fit_payload-Keeps :
    (size : Payload → ℕ) (remaining : ℕ) (e : Cached) → Keeps e (fit_payload size remaining e)
unfolding fit_payload
fit_payload-Keeps size remaining e = ground arith

-- What a call in between may be: its clock reads a time before the deadline, and it stores nothing
-- under the key.
abbrev pub IsBefore : ℕ → Text → CacheCall → Type 0
IsBefore deadline key (look_up at command) = at < deadline
IsBefore deadline key (put pruned_at at command result outputs) =
    (pruned_at < deadline) × (command.idempotency_key ≢ key)

module _ (fingerprint : Command → Text) (size : Payload → ℕ) where
  -- Every lookup leaves the entries that are live.
  lookup_result-prune_cache :
      (c : ResultCache) (now : ℕ) (command : Command)
      → (lookup_result fingerprint c now command).0 ≡ prune_cache c now
  unfolding lookup_result
  lookup_result-prune_cache c now command =
      let pruned = prune_cache c now in
      elim (Option-cases (lookup command.idempotency_key pruned.entries)) [
        | inl n ↦ elim (Bool-cases (leb pruned.capacity (length pruned.entries))) [
          | inl y ↦ rw (n, y, lookup_result) refl
          | inr y ↦ rw (n, y, lookup_result) refl
        ]
        | inr (old, f) ↦ elim (Bool-cases (old.fingerprint == fingerprint command)) [
          | inl y ↦ rw (f, y, lookup_result) refl
          | inr y ↦ rw (f, y, lookup_result) refl
        ]
      ]

  missed :
      (c : ResultCache) (now : ℕ) (command : Command)
      → (lookup_result fingerprint c now command).1 ≡ miss
      → (lookup command.idempotency_key (prune_cache c now).entries ≡ none)
        × (leb (prune_cache c now).capacity (length (prune_cache c now).entries) ≡ false)
  unfolding lookup_result
  missed c now command e = ground (arith, e)

  kept :
      (c : ResultCache) (at : ℕ) (key : Text) (e : Cached)
      → lookup key c.entries ≡ some e
      → at < e.expires_at
      → lookup key (prune_cache c at).entries ≡ some e
  unfolding prune_cache
  kept c at key e f lt = lookup-live at key e c.entries f lt

  write_other :
      (c : ResultCache) (at : ℕ) (command : Command) (result : CommandResult) (outputs : List Text)
      (used : ℕ) (key : Text)
      → command.idempotency_key ≢ key
      → lookup key (write_result fingerprint size c at command result outputs used).entries
        ≡ lookup key c.entries
  unfolding write_result
  write_other c at command result outputs used key n =
      let e =
        fit_payload size (c.max_bytes - used) (new_entry fingerprint c at command result outputs) in
      ground (arith, n, lookup-insert command.idempotency_key key e c.entries)

  store_other :
      (c : ResultCache) (pruned_at at : ℕ) (command : Command) (result : CommandResult)
      (outputs : List Text) (key : Text) (e : Cached)
      → command.idempotency_key ≢ key
      → lookup key (prune_cache c pruned_at).entries ≡ some e
      → lookup key (store fingerprint size c pruned_at at command result outputs).entries ≡ some e
  unfolding store
  store_other c pruned_at at command result outputs key e n f =
      let pruned = prune_cache c pruned_at in
      elim (Option-cases (lookup command.idempotency_key pruned.entries)) [
        | inr (old, o) ↦
            rw (o, store)
              (write_other pruned at command result outputs (pruned.used_bytes - old.payload_bytes)
                  key n
                ∙ f)
        | inl o ↦ elim (Bool-cases (leb pruned.capacity (length pruned.entries))) [
          | inl y ↦ rw (o, y, store) f
          | inr y ↦
              rw (o, y, store)
                (write_other pruned at command result outputs pruned.used_bytes key n ∙ f)
        ]
      ]

  -- An entry stays through any calls before its end that store nothing under its key.
  cache_run-kept :
      (c : ResultCache) (calls : List CacheCall) (key : Text) (e : Cached)
      → All (IsBefore e.expires_at key) calls
      → lookup key c.entries ≡ some e
      → lookup key (cache_run fingerprint size c calls).entries ≡ some e
  cache_run-kept c [] key e b f = f
  cache_run-kept c (look_up at command ∷ calls) key e b f =
      cache_run-kept (lookup_result fingerprint c at command).0 calls key e b.1 (
        ap (λ d. lookup key d.entries) (lookup_result-prune_cache c at command)
        ∙ kept c at key e f b.0)
  cache_run-kept c (put pruned_at at command result outputs ∷ calls) key e b f =
      cache_run-kept (store fingerprint size c pruned_at at command result outputs) calls key e b.1
        (store_other c pruned_at at command result outputs key e b.0.1
          (kept c pruned_at key e f b.0.0))

  module _ (c : ResultCache) (looked_at pruned_at now : ℕ) (command : Command)
      (result : CommandResult) (outputs : List Text) where
    abbrev looked : ResultCache
    looked = (lookup_result fingerprint c looked_at command).0

    abbrev pruned : ResultCache
    pruned = prune_cache looked pruned_at

    abbrev stored : ResultCache
    stored = store fingerprint size looked pruned_at now command result outputs

    abbrev wanted : Cached
    wanted = new_entry fingerprint pruned now command result outputs

    abbrev written : Cached
    written = fit_payload size (pruned.max_bytes - pruned.used_bytes) wanted

    looked_same : looked ≡ prune_cache c looked_at
    looked_same = lookup_result-prune_cache c looked_at command

    -- The store finds the room that the lookup found.
    still_missed :
        (lookup_result fingerprint c looked_at command).1 ≡ miss
        → (lookup command.idempotency_key pruned.entries ≡ none)
          × (leb pruned.capacity (length pruned.entries) ≡ false)
    unfolding prune_cache
    still_missed e =
        subst
          (λ d.
            (lookup command.idempotency_key (prune_cache d pruned_at).entries ≡ none)
            × (leb (prune_cache d pruned_at).capacity (length (prune_cache d pruned_at).entries)
                ≡ false))
          (sym looked_same)
          (
            lookup-gone pruned_at command.idempotency_key (prune_cache c looked_at).entries
                (missed c looked_at command e).0,
            ground (
              arith,
              (missed c looked_at command e).1,
              length-keep-le (is_live pruned_at) (prune_cache c looked_at).entries,
            ),
          )

    stored_entry :
        (lookup_result fingerprint c looked_at command).1 ≡ miss
        → lookup command.idempotency_key stored.entries ≡ some written
    unfolding store write_result
    stored_entry e =
        let m = still_missed e in
        rw (m.0, m.1, store)
          (ground (
            arith,
            lookup-insert command.idempotency_key command.idempotency_key written pruned.entries,
          ))

    ends : written.expires_at ≡ now + c.ttl
    unfolding prune_cache
    ends =
        (fit_payload-Keeps size (pruned.max_bytes - pruned.used_bytes) wanted).2
        ∙ ap (λ d. now + d.ttl) looked_same

    module _ (calls : List CacheCall) where
      abbrev afterwards : ResultCache
      afterwards = cache_run fingerprint size stored calls

      seen :
          (later : ℕ)
          → (lookup_result fingerprint c looked_at command).1 ≡ miss
          → All (IsBefore (now + c.ttl) command.idempotency_key) calls
          → later < now + c.ttl
          → lookup command.idempotency_key (prune_cache afterwards later).entries ≡ some written
      seen later e b lt =
          kept afterwards later command.idempotency_key written
            (cache_run-kept stored calls command.idempotency_key written
              (subst (λ d. All (IsBefore d command.idempotency_key) calls) (sym ends) b)
              (stored_entry e))
            (omega (arith, lt, ends))

      -- A lookup misses, the result of the command is stored in the cache that the lookup left, and
      -- then come any lookups and stores whose clocks read times before the end of the time to live
      -- and which store nothing under the same key. Until that end the same command is a hit, with
      -- the target, the outcome and the replacement target that were stored.
      pub lookup_result-store :
          (later : ℕ)
          → (lookup_result fingerprint c looked_at command).1 ≡ miss
          → All (IsBefore (now + c.ttl) command.idempotency_key) calls
          → later < now + c.ttl
          → (e : Cached) × ((lookup_result fingerprint afterwards later command).1 ≡ hit e)
            × (e.target ≡ command.target)
            × (e.result.outcome ≡ result.outcome)
            × (e.result.replacement_target ≡ result.replacement_target)
      unfolding lookup_result
      lookup_result-store later e b lt =
          let k = fit_payload-Keeps size (pruned.max_bytes - pruned.used_bytes) wanted in
          let s = seen later e b lt in (written, ground (arith, s, k), k.0, k.3, k.4)

      -- Another command under the same key is a conflict in its place, if its fingerprint is another.
      pub lookup_result-store_conflict :
          (later : ℕ) (other : Command)
          → (lookup_result fingerprint c looked_at command).1 ≡ miss
          → All (IsBefore (now + c.ttl) command.idempotency_key) calls
          → later < now + c.ttl
          → other.idempotency_key ≡ command.idempotency_key
          → fingerprint other ≢ fingerprint command
          → (lookup_result fingerprint afterwards later other).1 ≡ conflict
      unfolding lookup_result
      lookup_result-store_conflict later other e b lt same n =
          let k = fit_payload-Keeps size (pruned.max_bytes - pruned.used_bytes) wanted in
          let s : lookup other.idempotency_key (prune_cache afterwards later).entries
              ≡ some written =
            ap (λ x. lookup x (prune_cache afterwards later).entries) same ∙ seen later e b lt in
          ground (arith, s, k, n)
