-- ===== src/Catalog/Listing.antt =====
-- `entriesLocked` lists what `findEntryLocked` finds, where the directory is well indexed.
use herdr_pal.Prelude.{
  ◌≡◌, ◌≢◌, List, [], ◌∷◌, true, false, some, ◌==◌, nat_eq, arith, inl, inr, All, All-append,
  All-map_of, All-weaken_both, Distinct, Bool-cases,
}
use herdr_pal.Prelude.Maps.{Map, IsMap, lookup, lookup-own}
use herdr_pal.Prelude.Sort.{sort-All}
use herdr_pal.Prelude.Text.{Text, text_eq}
use herdr_pal.Hprp.{Session}
use herdr_pal.Catalog.{
  ClientKey, MachineState, SessionCatalog, CatalogEntry, client_key_eq, find_entry, find_session,
  entries, collect_entries, entry_of, entry_less,
}

-- One entry for a machine, and one session for a slot.
pub record IsIndexed (c : SessionCatalog) : Type 0 where
  pub keys : IsMap c.machines
  pub slots : All (λ e. Distinct (λ (s : Session). s.slot_id) e.1.sessions) c.machines

find_session-skip :
    (machine_id : Text) (x : Session) (ss : List Session) (s : Session)
    → x.slot_id ≢ s.slot_id
    → find_session machine_id s.slot_id s.session_id ss ≡ some (entry_of machine_id s)
    → find_session machine_id s.slot_id s.session_id (x ∷ ss) ≡ some (entry_of machine_id s)
unfolding find_session
find_session-skip machine_id x ss s n h = ground arith

find_session-first :
    (machine_id : Text) (s : Session) (ss : List Session)
    → find_session machine_id s.slot_id s.session_id (s ∷ ss) ≡ some (entry_of machine_id s)
unfolding find_session
find_session-first machine_id s ss = ground arith

find_session-own :
    (machine_id : Text) (ss : List Session)
    → Distinct (λ (s : Session). s.slot_id) ss
    → All (λ s. find_session machine_id s.slot_id s.session_id ss ≡ some (entry_of machine_id s)) ss
find_session-own machine_id [] d = tt
find_session-own machine_id (x ∷ ss) d = (
  find_session-first machine_id x ss,
  All-weaken_both _ _ _ (find_session-skip machine_id x ss) ss d.0
      (find_session-own machine_id ss d.1),
)

module _ (c : SessionCatalog) (u : Text) where
  abbrev Findable : CatalogEntry → Type 0
  Findable e = find_entry c u e.ref ≡ some e

  entry_of-Findable :
      (k : ClientKey) (m : MachineState) (s : Session)
      → lookup k c.machines ≡ some m
      → (k.user_id == u) ≡ true
      → (m.sequence == 0) ≡ false
      → find_session k.machine_id s.slot_id s.session_id m.sessions ≡ some (entry_of k.machine_id s)
      → Findable (entry_of k.machine_id s)
  unfolding find_entry
  entry_of-Findable k m s own user live found = ground arith

  collect_entries-Findable :
      (ms : Map ClientKey MachineState)
      → All (λ e. lookup e.0 c.machines ≡ some e.1) ms
      → All (λ e. Distinct (λ (s : Session). s.slot_id) e.1.sessions) ms
      → All Findable (collect_entries u ms)
  unfolding collect_entries
  collect_entries-Findable [] own d = tt
  collect_entries-Findable ((k, m) ∷ rest) own d =
      let later = collect_entries-Findable rest own.1 d.1 in
      elim (Bool-cases (k.user_id == u)) [
        | inr user ↦ rw user later
        | inl user ↦ elim (Bool-cases (m.sequence == 0)) [
          | inl live ↦ rw (user, live) later
          | inr live ↦
              rw (user, live)
                (All-append Findable _ _
                  (All-map_of _ Findable (entry_of k.machine_id)
                    (λ s. entry_of-Findable k m s own.0 user live) m.sessions
                    (find_session-own k.machine_id m.sessions d.0))
                  later)
        ]
      ]

  -- Each listed entry is the one that its own reference finds.
  pub entries-Findable : IsIndexed c → All (λ e. find_entry c u e.ref ≡ some e) (entries c u)
  unfolding entries
  entries-Findable h =
      sort-All entry_less Findable _
        (collect_entries-Findable c.machines (lookup-own c.machines h.keys) h.slots)
