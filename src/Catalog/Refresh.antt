-- ===== src/Catalog/Refresh.antt =====
-- `ApplySnapshot` keeps the selection and the output modes of its user on entries that are shown.
use herdr_pal.Prelude.{
  ◌≡◌, ◌<◌, inl, inr, List, [], true, none, some, ◌==◌, if◌then◌else◌, arith, Option-cases,
  ==_cases,
}
use herdr_pal.Prelude.Maps.{lookup, insert, lookup-insert}
use herdr_pal.Prelude.Text.{Text, text_eq}
use herdr_pal.Hprp.{Target, Session, SessionSnapshot, target_eq}
use herdr_pal.Catalog.{
  ClientKey, MachineState, RoutingState, SessionCatalog, client_key_eq, find_entry, routing_of,
}
use herdr_pal.Catalog.Connections.{
  by_slot, migrate_modes, migrate_output_modes, invalidate_changed_selection, replace_snapshot,
}
use herdr_pal.Catalog.Directory.{find_entry-replace_snapshot}
use herdr_pal.Catalog.Migration.{
  is_some, by_slot-find_session, migrated-MayStay, migrate_modes-other,
}
use herdr_pal.Catalog.Live.{IsLive, Shows}

-- The two calls in `ApplySnapshot` that change routing.
module _ (c : SessionCatalog) (key : ClientKey) (previous next : List Session) where
  abbrev migrated : RoutingState → RoutingState
  migrated r = record r {
    output_modes =
        migrate_modes key (by_slot [] previous) (by_slot [] next) r.output_modes r.output_modes;
  }

  routing_of-migrate_output_modes :
      (u : Text)
      → routing_of (migrate_output_modes c key previous next) u
        ≡ (if key.user_id == u then migrated (routing_of c u) else routing_of c u)
  unfolding migrate_output_modes migrate_modes
  routing_of-migrate_output_modes u =
      ground (arith, lookup-insert key.user_id u (migrated (routing_of c key.user_id)) c.routing)

module _ (c : SessionCatalog) (user u : Text) where
  routing_of-invalidate :
      (t : Target)
      → (routing_of (invalidate_changed_selection c user) u).selected ≡ some t
      → ((routing_of c u).selected ≡ some t) × (user ≡ u → Shows c u t)
  unfolding invalidate_changed_selection
  routing_of-invalidate t h = elim (Option-cases (routing_of c user).selected) [
    | inl e ↦ ground (arith, e)
    | inr (s, e) ↦ ground (
      arith,
      e,
      lookup-insert user u (record (routing_of c user) { selected = none; invalidated = some s })
          c.routing,
    )
  ]

  output_modes-invalidate :
      (routing_of (invalidate_changed_selection c user) u).output_modes
      ≡ (routing_of c u).output_modes
  unfolding invalidate_changed_selection
  output_modes-invalidate = elim (Option-cases (routing_of c user).selected) [
    | inl e ↦ ground (arith, e)
    | inr (s, e) ↦ ground (
      arith,
      e,
      lookup-insert user u (record (routing_of c user) { selected = none; invalidated = some s })
          c.routing,
    )
  ]

module _ (c : SessionCatalog) (key : ClientKey) (current : MachineState) (s : SessionSnapshot) where
  -- `ApplySnapshot` just before it looks at the selection.
  abbrev pub staged : SessionCatalog
  staged = record (migrate_output_modes c key current.sessions s.sessions) {
    machines =
        insert key (record current { sequence = s.sequence; sessions = s.sessions })
          (migrate_output_modes c key current.sessions s.sessions).machines;
  }

  find_entry-staged :
      (u : Text) (t : Target)
      → find_entry (replace_snapshot c key current s) u t ≡ find_entry staged u t
  unfolding find_entry replace_snapshot
  find_entry-staged u t = ground arith

  module _ (l : IsLive c) (pos : 0 < s.sequence) (u : Text) (t : Target) where
    replace_snapshot-selection :
        (routing_of (replace_snapshot c key current s) u).selected ≡ some t
        → Shows (replace_snapshot c key current s) u t
    unfolding replace_snapshot
    replace_snapshot-selection e =
        let (old, now) = routing_of-invalidate staged key.user_id u t e in
        ground (
          arith,
          old,
          now,
          l.selection u t,
          routing_of-migrate_output_modes c key current.sessions s.sessions u,
          find_entry-staged u t,
          find_entry-replace_snapshot c key current s u t pos,
        )

    -- The modes of the user whose machine is refreshed.
    migrated-Shows :
        key.user_id ≡ u
        → is_some (
            lookup t (
              migrate_modes key
                (by_slot [] current.sessions)
                (by_slot [] s.sessions)
                (routing_of c u).output_modes
                (routing_of c u).output_modes))
          ≡ true
        → Shows (replace_snapshot c key current s) u t
    unfolding lookup
    migrated-Shows same f = elim (==_cases t.machine_id key.machine_id) [
      | inr (n, b) ↦ ground (
        arith,
        l.modes u t,
        migrate_modes-other key (by_slot [] current.sessions) (by_slot [] s.sessions)
            (routing_of c u).output_modes (routing_of c u).output_modes t n,
        find_entry-replace_snapshot c key current s u t pos,
      )
      | inl (m, b) ↦ ground (
        arith,
        migrated-MayStay key (by_slot [] current.sessions) (by_slot [] s.sessions)
            (routing_of c u).output_modes t f,
        by_slot-find_session t.machine_id [] s.sessions t.slot_id t.session_id,
        find_entry-replace_snapshot c key current s u t pos,
      )
    ]

    replace_snapshot-modes :
        is_some (lookup t (routing_of (replace_snapshot c key current s) u).output_modes) ≡ true
        → Shows (replace_snapshot c key current s) u t
    unfolding replace_snapshot
    replace_snapshot-modes f = ground (
      arith,
      l.modes u t,
      migrated-Shows,
      output_modes-invalidate staged key.user_id u,
      routing_of-migrate_output_modes c key current.sessions s.sessions u,
      find_entry-replace_snapshot c key current s u t pos,
    )

  pub replace_snapshot-IsLive :
      IsLive c → 0 < s.sequence → IsLive (replace_snapshot c key current s)
  replace_snapshot-IsLive l pos = record {
    selection = replace_snapshot-selection l pos;
    modes = replace_snapshot-modes l pos;
  }
