-- ===== src/Catalog/Directory.antt =====
-- What the calls on connections do to `findEntryLocked`.
use herdr_pal.Prelude.{
  ◌≡◌, ◌<◌, List, [], ◌∷◌, Option, none, some, ◌==◌, nat_eq, if◌then◌else◌, arith,
}
use herdr_pal.Prelude.Maps.{lookup, lookup-insert, lookup-delete}
use herdr_pal.Prelude.Text.{Text, text_eq}
use herdr_pal.Hprp.{Target, Session, SessionSnapshot}
use herdr_pal.Catalog.{
  ClientKey, MachineState, SessionCatalog, CatalogEntry, client_key_eq, client_key, find_entry,
  find_session, find_in,
}
use herdr_pal.Catalog.Connections.{attach, detach, replace_snapshot}
use herdr_pal.Catalog.Consistent.{IsConnected, machines-replace_snapshot}

-- A found entry is the one that was asked for.
find_session-ref :
    (t : Target) (ss : List Session) (e : CatalogEntry)
    → find_session t.machine_id t.slot_id t.session_id ss ≡ some e
    → e.ref ≡ t
unfolding find_session
find_session-ref t [] e h = cc
find_session-ref t (s ∷ ss) e h = ground (arith, find_session-ref t ss e)

find_in-ref :
    (t : Target) (m : Option MachineState) (e : CatalogEntry) → find_in t m ≡ some e → e.ref ≡ t
find_in-ref t none e h = cc
find_in-ref t (some m) e h = ground (arith, find_session-ref t m.sessions e)

pub find_entry-ref :
    (c : SessionCatalog) (u : Text) (t : Target) (e : CatalogEntry)
    → find_entry c u t ≡ some e
    → e.ref ≡ t
unfolding find_entry
find_entry-ref c u t e h = find_in-ref t _ e h

module _ (c : SessionCatalog) (id : Text) (u : Text) (t : Target) (h : IsConnected c) where
  -- A new connection shows no entry before its first snapshot.
  pub find_entry-attach : (key : ClientKey) → find_entry (attach c id key).0 u t ≡ find_entry c u t
  unfolding attach find_entry
  find_entry-attach key = ground (
    arith,
    h.machine key,
    lookup-insert key (client_key u t.machine_id)
        (record { connection_id = id; sequence = 0; sessions = [] }) c.machines,
  )

  pub find_entry-detach :
      (key : ClientKey)
      → lookup id c.connections ≡ some key
      → find_entry (detach c id).0 u t
        ≡ (if key == client_key u t.machine_id then none else find_entry c u t)
  unfolding detach find_entry
  find_entry-detach key e = ground (
    arith,
    h.machine key,
    h.to_key id key e,
    lookup-delete key (client_key u t.machine_id) c.machines,
  )

module _ (c : SessionCatalog) (key : ClientKey) (current : MachineState) (s : SessionSnapshot) where
  pub find_entry-replace_snapshot :
      (u : Text) (t : Target)
      → 0 < s.sequence
      → find_entry (replace_snapshot c key current s) u t ≡ (
          if key == client_key u t.machine_id
          then find_session t.machine_id t.slot_id t.session_id s.sessions
          else find_entry c u t)
  unfolding find_entry
  find_entry-replace_snapshot u t pos = ground (
    arith,
    machines-replace_snapshot c key current s,
    lookup-insert key (client_key u t.machine_id)
        (record {
          connection_id = current.connection_id;
          sequence = s.sequence;
          sessions = s.sessions;
        })
        c.machines,
  )
