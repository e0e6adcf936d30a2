-- ===== src/Dedupe/WellFormed.antt =====
-- internal/policy/dedupe.go: every call keeps the state well formed.
use herdr_pal.Prelude.{
  ℕ, ◌+◌, ◌≡◌, ◌<◌, ◌≤◌, refl, subst, [], ◌∷◌, ◌++◌, false, none, some, arith, length,
  length-append, length-keep-le, All, All-weaken, All-keep, All-append, Option-cases, inl, inr,
  ==_cases, nat_eq, ltb,
}
use herdr_pal.Prelude.Maps.{Map, IsMap, lookup, insert-IsMap}
use herdr_pal.Prelude.Text.{Text, text_eq, trim_space}
use herdr_pal.Dedupe.{Deduper, new_deduper, logical_now, add_if_new}
use herdr_pal.Dedupe.Laws.{
  IsWell, Rising, keys, fresh, make_room, clock, IsMap-fresh, Rising-fresh, Rising-append,
  insert-new, lookup-make_room, logical_now-same, add_if_new_old, add_if_new_new,
}

abbrev pub empty_deduper : ℕ → ℕ → Deduper
empty_deduper ttl capacity = record {
  ttl = ttl;
  capacity = capacity;
  entries = [];
  order = [];
  last_now = 0;
  has_now = false;
}

pub new_deduper-IsWell :
    (ttl capacity : ℕ) (d : Deduper) → new_deduper ttl capacity ≡ some d → IsWell d
unfolding new_deduper
new_deduper-IsWell ttl capacity d e =
    let same : empty_deduper ttl capacity ≡ d = ground (arith, e) in
    let pos : 0 < capacity = ground (arith, e) in
    subst IsWell same (record {
      ordered = refl;
      distinct = tt;
      rising = tt;
      ahead = tt;
      bounded = omega arith;
      room = pos;
      started = λ _. refl;
    })

module _ (n : ℕ) where
  make_room-IsMap : (m : Map Text ℕ) → IsMap m → IsMap (make_room n m)
  make_room-IsMap [] d = ground arith
  make_room-IsMap (e ∷ m) d = ground (arith, d)

  make_room-Rising : (m : Map Text ℕ) → Rising m → Rising (make_room n m)
  make_room-Rising [] r = ground arith
  make_room-Rising (e ∷ m) r = ground (arith, r)

  make_room-All :
      (t : ℕ) (m : Map Text ℕ) → All (λ e. e.1 ≤ t) m → All (λ e. e.1 ≤ t) (make_room n m)
  make_room-All t [] a = ground arith
  make_room-All t (e ∷ m) a = ground (arith, a)

  length-make_room : (m : Map Text ℕ) → 0 < n → length m ≤ n → length (make_room n m) < n
  length-make_room [] pos h = ground arith
  length-make_room (e ∷ m) pos h = ground arith

module _ (d : Deduper) (raw : ℕ) (key : Text) (h : IsWell d) where
  pub clock-le : d.last_now ≤ clock d raw
  clock-le = ground (arith, logical_now-same d raw key h, h.started)

  logical_now-started : (logical_now d raw).has_now ≡ false → (logical_now d raw).last_now ≡ 0
  unfolding logical_now
  logical_now-started = λ e. ground (arith, h.started)

  live_ahead : All (λ e. e.1 ≤ clock d raw + d.ttl) (fresh (clock d raw) d.entries)
  live_ahead = All-keep _ _ d.entries (
      All-weaken (λ e. e.1 ≤ d.last_now + d.ttl) (λ e. e.1 ≤ clock d raw + d.ttl)
        (λ e le. omega (arith, clock-le, le)) d.entries h.ahead)

  old_IsWell : IsWell (record (logical_now d raw) {
    entries = fresh (clock d raw) d.entries;
    order = keys (fresh (clock d raw) d.entries);
  })
  old_IsWell =
      let (e, o, c, t, _) = logical_now-same d raw key h in
      record {
        ordered = refl;
        distinct = IsMap-fresh (clock d raw) d.entries h.distinct;
        rising = Rising-fresh (clock d raw) d.entries h.rising;
        ahead = rw t live_ahead;
        bounded =
            rw c
              (omega (arith, length-keep-le {0} (λ f. ltb (clock d raw) f.1) d.entries, h.bounded));
        room = rw c h.room;
        started = logical_now-started;
      }

  abbrev kept : Map Text ℕ
  kept = make_room d.capacity (fresh (clock d raw) d.entries)

  new_IsWell :
      lookup key (fresh (clock d raw) d.entries) ≡ none
      → IsWell (record (logical_now d raw) {
        entries = kept ++ (key, clock d raw + d.ttl) ∷ [];
        order = keys (kept ++ (key, clock d raw + d.ttl) ∷ []);
      })
  new_IsWell free =
      let (e, o, c, t, _) = logical_now-same d raw key h in
      let live = fresh (clock d raw) d.entries in
      let last_entry =
        insert-new key (clock d raw + d.ttl) kept (lookup-make_room d.capacity key live free) in
      let ahead = make_room-All d.capacity (clock d raw + d.ttl) live live_ahead in
      record {
        ordered = refl;
        distinct = rw (← last_entry) (
            insert-IsMap key (clock d raw + d.ttl) kept
              (make_room-IsMap d.capacity live (IsMap-fresh (clock d raw) d.entries h.distinct)));
        rising =
            Rising-append key (clock d raw + d.ttl) kept
              (make_room-Rising d.capacity live (Rising-fresh (clock d raw) d.entries h.rising))
              ahead;
        ahead = rw t (All-append _ kept _ ahead (omega arith, tt));
        bounded = rw c (
            omega (
              arith,
              length-append {0} kept ((key, clock d raw + d.ttl) ∷ []),
              length-make_room d.capacity live h.room (
                  omega
                    (arith, length-keep-le {0} (λ f. ltb (clock d raw) f.1) d.entries, h.bounded)),
            ));
        room = rw c h.room;
        started = logical_now-started;
      }

pub blank_same :
    (d : Deduper) (raw : ℕ) (key : Text) → trim_space key ≡ [] → add_if_new d raw key ≡ (d, false)
unfolding add_if_new
blank_same d raw key e = ground (arith, e)

-- The call keeps the invariant: the keys of `entries` are those of `order`, once each, their
-- expiries rise, none is later than the last reading plus the TTL, and there are at most `capacity`.
pub add_if_new-IsWell :
    (d : Deduper) (raw : ℕ) (key : Text) → IsWell d → IsWell (add_if_new d raw key).0
add_if_new-IsWell d raw key h = elim (==_cases (trim_space key) []) [
  | inl (b, _) ↦ rw (blank_same d raw key b) h
  | inr (b, _) ↦ elim (Option-cases (lookup key (fresh (clock d raw) d.entries))) [
    | inl free ↦ rw (add_if_new_new d raw key h b free) (new_IsWell d raw key h free)
    | inr (t, old) ↦ rw (add_if_new_old d raw key h t b old) (old_IsWell d raw key h)
  ]
]
