-- ===== src/Catalog/Covering.antt =====
-- `entriesLocked` misses nothing that `findEntryLocked` finds.
use herdr_pal.Prelude.{
  ◌≡◌, ◌∙◌, refl, List, [], ◌∷◌, ◌++◌, map, Bool, true, ◌||◌, some, arith, nat_eq, any,
}
use herdr_pal.Prelude.Maps.{Map, lookup}
use herdr_pal.Prelude.Sort.{sort-any}
use herdr_pal.Prelude.Text.{Text, text_eq}
use herdr_pal.Hprp.{Target, Session}
use herdr_pal.Catalog.{
  ClientKey, MachineState, SessionCatalog, CatalogEntry, client_key, client_key_eq, find_entry,
  find_in, find_session, entries, collect_entries, entry_of, entry_less,
}
use herdr_pal.Catalog.Routing.{same_target}

module _ {ℓ} {A : Type ℓ} (p : A → Bool) where
  any-append : (xs ys : List A) → any p (xs ++ ys) ≡ (any p xs || any p ys)
  any-append [] ys = refl
  any-append (x ∷ xs) ys = ground (arith, any-append xs ys)

abbrev pub refers : Target → CatalogEntry → Bool
refers t e = same_target e.ref t

find_session-any :
    (t : Target) (ss : List Session) (e : CatalogEntry)
    → find_session t.machine_id t.slot_id t.session_id ss ≡ some e
    → any (refers t) (map (entry_of t.machine_id) ss) ≡ true
unfolding find_session same_target
find_session-any t [] e h = cc
find_session-any t (s ∷ ss) e h = ground (arith, find_session-any t ss e)

collect_entries-any :
    (u : Text) (t : Target) (ms : Map ClientKey MachineState) (e : CatalogEntry)
    → find_in t (lookup (client_key u t.machine_id) ms) ≡ some e
    → any (refers t) (collect_entries u ms) ≡ true
unfolding collect_entries lookup
collect_entries-any u t [] e h = cc
collect_entries-any u t ((k, m) ∷ ms) e h = ground (
  arith,
  collect_entries-any u t ms e,
  find_session-any t m.sessions e,
  any-append (refers t) (map (entry_of k.machine_id) m.sessions) (collect_entries u ms),
)

pub entries-any :
    (c : SessionCatalog) (u : Text) (t : Target) (e : CatalogEntry)
    → find_entry c u t ≡ some e
    → any (refers t) (entries c u) ≡ true
unfolding entries find_entry
entries-any c u t e h = sort-any entry_less (refers t) _ ∙ collect_entries-any u t c.machines e h
