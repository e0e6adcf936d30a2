-- ===== src/ResultCache.antt =====
-- internal/relayclient/idempotency.go: the results of commands that a client keeps, so that a command
-- that is sent again is not run again. Times are nanoseconds, and the clock's reading is an argument.
-- The fingerprint of a command (SHA-256 over JSON) and the size of a payload as JSON are arguments.
pub mod Sizes
pub mod Runs
pub mod Stored
mod Examples
use herdr_pal.Prelude.{
  ℕ, ◌+◌, ◌-◌, List, [], ◌∷◌, Bool, true, false, not, keep, Option, none, some, ◌==◌, nat_eq, ltb,
  leb, if◌then◌else◌, length,
}
use herdr_pal.Prelude.Maps.{Map, lookup, insert}
use herdr_pal.Prelude.Text.{Text, text_eq}
use herdr_pal.Hprp.{Target, OutputMode}

-- The parts of `CommandExecute` that are read.
pub record Command : Type 0 where
  pub idempotency_key : Text
  pub target : Target
  pub content : Text
  pub output_mode : OutputMode

-- `Error` of internal/hprp/error.go, with its details as a text.
pub record ResultError : Type 0 where
  pub code : Text
  pub message : Text
  pub details : Text

-- `CommandResult`, with a content as a text.
pub record CommandResult : Type 0 where
  pub outcome : Text
  pub content : Option Text
  pub error : Option ResultError
  pub replacement_target : Option Target

-- What `cachedPayloadSize` encodes.
pub record Payload : Type 0 where
  pub content : Option Text
  pub error : Option ResultError
  pub outputs : List Text

-- `cachedCommandResult`
pub record Cached : Type 0 where
  pub target : Target
  pub fingerprint : Text
  pub result : CommandResult
  pub outputs : List Text
  pub expires_at : ℕ
  pub payload_bytes : ℕ

-- `commandResultCache`
pub record ResultCache : Type 0 where
  pub entries : Map Text Cached
  pub capacity : ℕ
  pub max_bytes : ℕ
  pub used_bytes : ℕ
  pub ttl : ℕ

abbrev or_default : ℕ → ℕ → ℕ
or_default n d = if n == 0 then d else n

-- `newCommandResultCache`
unfoldable pub new_result_cache : ℕ → ℕ → ℕ → ResultCache
new_result_cache capacity max_bytes ttl = record {
  entries = [];
  capacity = or_default capacity 1;
  max_bytes = or_default max_bytes 1;
  used_bytes = 0;
  ttl = or_default ttl 60000000000;
}

abbrev pub is_live : ℕ → Text × Cached → Bool
is_live now e = not (leb e.1.expires_at now)

-- The loop of `pruneLocked` on the bytes in use.
unfoldable pub released : ℕ → ℕ → Map Text Cached → ℕ
released now used [] = used
released now used ((key, entry) ∷ rest) =
    released now (if leb entry.expires_at now then used - entry.payload_bytes else used) rest

-- `pruneLocked`
unfoldable pub prune_cache : ResultCache → ℕ → ResultCache
unfolding released
prune_cache c now = record c {
  entries = keep (is_live now) c.entries;
  used_bytes = released now c.used_bytes c.entries;
}

-- `commandCacheState`, with the result that a hit gives.
pub data CacheState : Type 0 where
  miss full conflict : CacheState
  hit : Cached → CacheState

-- `Lookup`
unfoldable pub lookup_result :
    (Command → Text) → ResultCache → ℕ → Command → ResultCache × CacheState
unfolding prune_cache
lookup_result fingerprint c now command =
    let pruned = prune_cache c now in
    elim (lookup command.idempotency_key pruned.entries) [
      | none ↦
          if leb pruned.capacity (length pruned.entries) then (pruned, full) else (pruned, miss)
      | some entry ↦
          if entry.fingerprint == fingerprint command
          then (pruned, hit entry)
          else (pruned, conflict)
    ]

abbrev payload_of : Cached → Payload
payload_of e = record { content = e.result.content; error = e.result.error; outputs = e.outputs }

abbrev stripped_error : Option ResultError → Option ResultError
stripped_error none = none
stripped_error (some e) = some (record e { message = []; details = [] })

abbrev pub without_outputs : Cached → Cached
without_outputs e = record e { outputs = [] }

abbrev pub without_content : Cached → Cached
without_content e = record e {
  outputs = [];
  result = record e.result { content = none; error = stripped_error e.result.error };
  payload_bytes = 0;
}

-- `fitPayloadLocked`, with the bytes that are left.
unfoldable pub fit_payload : (Payload → ℕ) → ℕ → Cached → Cached
fit_payload size remaining e =
    if leb (size (payload_of e)) remaining
    then record e { payload_bytes = size (payload_of e) }
    else if leb (size (payload_of (without_outputs e))) remaining
    then record (without_outputs e) { payload_bytes = size (payload_of (without_outputs e)) }
    else without_content e

-- The entry of `Store` before it is fitted.
abbrev pub new_entry :
    (Command → Text) → ResultCache → ℕ → Command → CommandResult → List Text → Cached
new_entry fingerprint c now command result outputs = record {
  target = command.target;
  fingerprint = fingerprint command;
  result = result;
  outputs = outputs;
  expires_at = now + c.ttl;
  payload_bytes = 0;
}

-- The end of `Store`, with the bytes that the other entries use.
unfoldable pub write_result :
    (Command → Text)
    → (Payload → ℕ)
    → ResultCache
    → ℕ
    → Command
    → CommandResult
    → List Text
    → ℕ
    → ResultCache
unfolding fit_payload
write_result fingerprint size c now command result outputs used =
    let e =
      fit_payload size (c.max_bytes - used) (new_entry fingerprint c now command result outputs) in
    record c {
      entries = insert command.idempotency_key e c.entries;
      used_bytes = used + e.payload_bytes;
    }

-- `Store`; `pruned_at` and `now` are its two readings of the clock.
unfoldable pub store :
    (Command → Text)
    → (Payload → ℕ)
    → ResultCache
    → ℕ
    → ℕ
    → Command
    → CommandResult
    → List Text
    → ResultCache
unfolding prune_cache write_result
store fingerprint size c pruned_at now command result outputs =
    let pruned = prune_cache c pruned_at in
    elim (lookup command.idempotency_key pruned.entries) [
      | some old ↦
          write_result fingerprint size pruned now command result outputs
            (pruned.used_bytes - old.payload_bytes)
      | none ↦
          if leb pruned.capacity (length pruned.entries)
          then pruned
          else write_result fingerprint size pruned now command result outputs pruned.used_bytes
    ]
