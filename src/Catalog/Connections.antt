-- ===== src/Catalog/Connections.antt =====
-- internal/server/catalog.go: `Attach`, `ApplySnapshot` and `Detach`.
use herdr_pal.Prelude.{
  List, [], ◌∷◌, Bool, true, false, not, Option, none, some, ◌==◌, nat_eq, ltb, if◌then◌else◌, keep,
}
use herdr_pal.Prelude.Maps.{Map, lookup, insert, delete}
use herdr_pal.Prelude.Text.{Text, text_eq, trim_space}
use herdr_pal.Hprp.Validate.{validate_machine_id, validate_session_snapshot, invalid_target}
use herdr_pal.Hprp.{Target, Session, SessionSnapshot, OutputMode, target_eq}
use herdr_pal.Catalog.{
  Error, ClientKey, MachineState, RoutingState, SessionCatalog, duplicate_client,
  unknown_connection, snapshot_stale, hprp_error, client_key_eq, routing_of, set_routing,
  signal_update, find_entry,
}

-- The end of `Attach`.
unfoldable pub register_connection : SessionCatalog → Text → ClientKey → SessionCatalog
register_connection c connection_id key = signal_update (record c {
  connections = insert connection_id key c.connections;
  by_key = insert key connection_id c.by_key;
  machines =
      insert key (record { connection_id = connection_id; sequence = 0; sessions = [] }) c.machines;
})

-- `Attach`: `none` is success, where Go returns `true, nil`.
unfoldable pub attach : SessionCatalog → Text → ClientKey → SessionCatalog × Option Error
unfolding register_connection
attach c connection_id key =
    if trim_space connection_id == []
    then (c, some unknown_connection)
    else if trim_space key.user_id == []
    then (c, some (hprp_error invalid_target))
    else elim (validate_machine_id key.machine_id) [
      | some e ↦ (c, some (hprp_error invalid_target))
      | none ↦ elim (lookup connection_id c.connections) [
        | some other ↦ (c, some duplicate_client)
        | none ↦ elim (lookup key c.by_key) [
          | some other ↦ (c, some duplicate_client)
          | none ↦ (register_connection c connection_id key, none)
        ]
      ]
    ]

-- `previousBySlot` and `nextBySlot`
unfoldable pub by_slot : Map Text Text → List Session → Map Text Text
by_slot m [] = m
by_slot m (s ∷ rest) = by_slot (insert s.slot_id s.session_id m) rest

abbrev or_empty : Option Text → Text
or_empty none = []
or_empty (some s) = s

abbrev retarget : Target → Text → Target
retarget t session_id = record {
  machine_id = t.machine_id;
  slot_id = t.slot_id;
  session_id = session_id;
}

-- One round of the loop of `migrateOutputModesLocked`.
unfoldable pub migrate_mode :
    ClientKey
    → Map Text Text
    → Map Text Text
    → Target
    → OutputMode
    → Map Target OutputMode
    → Map Target OutputMode
migrate_mode key previous next t mode modes =
    if not (t.machine_id == key.machine_id) then modes else elim (lookup t.slot_id next) [
      | none ↦ delete t modes
      | some session_id ↦
          if session_id == t.session_id
          then modes
          else if not (or_empty (lookup t.slot_id previous) == t.session_id)
          then delete t modes
          else insert
              (record { machine_id = key.machine_id; slot_id = t.slot_id; session_id = session_id })
              mode (delete t modes)
    ]

unfoldable pub migrate_modes :
    ClientKey
    → Map Text Text
    → Map Text Text
    → Map Target OutputMode
    → Map Target OutputMode
    → Map Target OutputMode
unfolding migrate_mode
migrate_modes key previous next [] modes = modes
migrate_modes key previous next ((t, mode) ∷ rest) modes =
    migrate_modes key previous next rest (migrate_mode key previous next t mode modes)

-- `migrateOutputModesLocked`
unfoldable pub migrate_output_modes :
    SessionCatalog → ClientKey → List Session → List Session → SessionCatalog
unfolding migrate_modes by_slot
migrate_output_modes c key previous next =
    let r = routing_of c key.user_id in
    elim r.output_modes [
      | [] ↦ c
      | _ ∷ _ ↦ set_routing c key.user_id (record r {
        output_modes =
            migrate_modes key (by_slot [] previous) (by_slot [] next) r.output_modes r.output_modes;
      })
    ]

-- `invalidateChangedSelectionLocked`
unfoldable pub invalidate_changed_selection : SessionCatalog → Text → SessionCatalog
invalidate_changed_selection c user_id = elim (routing_of c user_id).selected [
  | none ↦ c
  | some t ↦ elim (find_entry c user_id t) [
    | some e ↦ c
    | none ↦
        set_routing c user_id
          (record (routing_of c user_id) { selected = none; invalidated = some t })
  ]
]

-- `ApplySnapshot` after its checks of the connection.
unfoldable pub replace_snapshot :
    SessionCatalog → ClientKey → MachineState → SessionSnapshot → SessionCatalog
unfolding migrate_output_modes invalidate_changed_selection
replace_snapshot c key current snapshot =
    let c1 = migrate_output_modes c key current.sessions snapshot.sessions in
    let c2 = record c1 {
      machines =
          insert key (record current { sequence = snapshot.sequence; sessions = snapshot.sessions })
            c1.machines;
    } in
    signal_update (invalidate_changed_selection c2 key.user_id)

-- `ApplySnapshot`
unfoldable pub apply_snapshot :
    SessionCatalog → Text → SessionSnapshot → SessionCatalog × Option Error
unfolding replace_snapshot
apply_snapshot c connection_id snapshot = elim (validate_session_snapshot snapshot) [
  | some e ↦ (c, some (hprp_error e))
  | none ↦ elim (lookup connection_id c.connections) [
    | none ↦ (c, some unknown_connection)
    | some key ↦ elim (lookup key c.machines) [
      | none ↦ (c, some unknown_connection)
      | some current ↦
          if not (current.connection_id == connection_id)
          then (c, some unknown_connection)
          else if snapshot.sequence == current.sequence
          then (c, none)
          else if ltb snapshot.sequence current.sequence
          then (c, some snapshot_stale)
          else (replace_snapshot c key current snapshot, none)
    ]
  ]
]

abbrev on_machine : Text → Option Target → Bool
on_machine machine_id none = false
on_machine machine_id (some t) = t.machine_id == machine_id

-- The part of `Detach` that clears a user's routing.
unfoldable pub clear_routing : RoutingState → Text → RoutingState
clear_routing r machine_id = record {
  numbered = [];
  numbered_valid = false;
  selected = if on_machine machine_id r.selected then none else r.selected;
  invalidated = if on_machine machine_id r.invalidated then none else r.invalidated;
  output_modes = keep (λ e. not (e.0.machine_id == machine_id)) r.output_modes;
}

-- `Detach`
unfoldable pub detach : SessionCatalog → Text → SessionCatalog × Bool
unfolding clear_routing
detach c connection_id = elim (lookup connection_id c.connections) [
  | none ↦ (c, false)
  | some key ↦
      let c1 = record c {
        connections = delete connection_id c.connections;
        by_key = elim (lookup key c.by_key) [
          | none ↦ c.by_key
          | some id ↦ if id == connection_id then delete key c.by_key else c.by_key
        ];
        machines = elim (lookup key c.machines) [
          | none ↦ c.machines
          | some m ↦ if m.connection_id == connection_id then delete key c.machines else c.machines
        ];
      } in
      (
        signal_update
            (set_routing c1 key.user_id (clear_routing (routing_of c1 key.user_id) key.machine_id)),
        true,
      )
]
