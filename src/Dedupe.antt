-- ===== src/Dedupe.antt =====
-- internal/policy/dedupe.go: the deduper of chat messages. Times are nanoseconds, and the clock's
-- reading is an argument of the call that reads it.
pub mod Laws
pub mod WellFormed
pub mod Repeats
mod Examples
use herdr_pal.Prelude.{
  ℕ, ◌+◌, List, [], ◌∷◌, ◌++◌, Bool, true, false, ◌||◌, not, Option, none, some, ◌==◌, nat_eq, ltb,
  leb, if◌then◌else◌, length,
}
use herdr_pal.Prelude.Maps.{Map, lookup, insert, delete}
use herdr_pal.Prelude.Text.{Text, text_eq, trim_space}

-- `entries` holds the expiry of each key; the list element that Go keeps there is the key's place
-- in `order`.
pub record Deduper : Type 0 where
  pub ttl : ℕ
  pub capacity : ℕ
  pub entries : Map Text ℕ
  pub order : List Text
  pub last_now : ℕ
  pub has_now : Bool

-- `NewDeduper`, with a clock; `none` is its error.
unfoldable pub new_deduper : ℕ → ℕ → Option Deduper
new_deduper ttl capacity =
    if ttl == 0 || capacity == 0
    then none
    else some (record {
      ttl = ttl;
      capacity = capacity;
      entries = [];
      order = [];
      last_now = 0;
      has_now = false;
    })

-- `logicalNow`
unfoldable pub logical_now : Deduper → ℕ → Deduper
logical_now d raw =
    if not d.has_now || ltb d.last_now raw then record d { last_now = raw; has_now = true } else d

abbrev pub expiry : Option ℕ → ℕ
expiry none = 0
expiry (some t) = t

-- The loop of `removeExpired`, on the list of keys that it takes from the front.
unfoldable pub remove_expired : ℕ → Map Text ℕ → List Text → Map Text ℕ × List Text
remove_expired now entries [] = (entries, [])
remove_expired now entries (key ∷ order) =
    let rest = remove_expired now (delete key entries) order in
    if ltb now (expiry (lookup key entries)) then (entries, key ∷ order) else rest

-- `removeOldest`; Go faults where the list is empty.
unfoldable pub remove_oldest : Map Text ℕ → List Text → Map Text ℕ × List Text
remove_oldest entries [] = (entries, [])
remove_oldest entries (key ∷ order) = (delete key entries, order)

-- The end of `AddIfNew`: the key is new.
unfoldable pub register_key : Deduper → Text → Map Text ℕ × List Text → Deduper
register_key d key kept = record d {
  entries = insert key (d.last_now + d.ttl) kept.0;
  order = kept.1 ++ key ∷ [];
}

-- `AddIfNew`
unfoldable pub add_if_new : Deduper → ℕ → Text → Deduper × Bool
add_if_new d raw key =
    if trim_space key == []
    then (d, false)
    else let d1 = logical_now d raw in
      let kept = remove_expired d1.last_now d1.entries d1.order in
      elim (lookup key kept.0) [
        | some t ↦ (record d1 { entries = kept.0; order = kept.1 }, false)
        | none ↦
            if length kept.0 == d1.capacity
            then (register_key d1 key (remove_oldest kept.0 kept.1), true)
            else (register_key d1 key kept, true)
      ]
