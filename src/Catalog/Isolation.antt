-- ===== src/Catalog/Isolation.antt =====
-- What a call for one user's machine or chat does to other users: nothing.
use herdr_pal.Prelude.{
  ◌≡◌, ◌≢◌, refl, List, [], Bool, Option, none, some, ◌∙◌, ap, arith, true, false, ◌∷◌,
  Option-cases, inl, inr,
}
use herdr_pal.Prelude.Maps.{lookup, insert, lookup-insert, lookup-delete}
use herdr_pal.Prelude.Text.{Text, text_eq}
use herdr_pal.Hprp.{target_eq, Target, Session, SessionSnapshot, OutputMode}
use herdr_pal.Catalog.{
  ClientKey, MachineState, SessionCatalog, CatalogEntry, RoutingState, client_key, client_key_eq,
  find_entry, entries, routing_of,
}
use herdr_pal.Catalog.Calls.{
  Call, attaches, applies, detaches, numbers, ensures, selects, reads_selection, sets_mode,
  tries_selection, tries_rebind, after_attempt, step,
}
use herdr_pal.Catalog.Connections.{
  clear_routing, invalidate_changed_selection, migrate_output_modes, migrate_modes, by_slot, attach,
  detach, replace_snapshot,
}
use herdr_pal.Catalog.Consistent.{apply_snapshot_cases, machines-replace_snapshot}
use herdr_pal.Catalog.Refresh.{staged}
use herdr_pal.Catalog.Reach.{
  SameDirectory, ensure_numbered_index-SameDirectory, selected-SameDirectory,
  set_selection-SameDirectory, set_output_mode-SameDirectory, select_attempt-SameDirectory,
  rebind_attempt-SameDirectory,
}
use herdr_pal.Catalog.Routing.{
  refs, write_selection, create_numbered_snapshot, ensure_numbered_index, set_selection, selected,
  select_only, set_output_mode, select_attempt, rebind_attempt,
}

-- The user whose machine or chat a call speaks of; `none` for a connection that is not known.
abbrev pub user_of_key : Option ClientKey → Option Text
user_of_key none = none
user_of_key (some key) = some key.user_id

abbrev pub user_of : SessionCatalog → Call → Option Text
user_of c (attaches id key) = some key.user_id
user_of c (applies id s) = user_of_key (lookup id c.connections)
user_of c (detaches id) = user_of_key (lookup id c.connections)
user_of c (numbers u) = some u
user_of c (ensures u t) = some u
user_of c (selects u t) = some u
user_of c (reads_selection u) = some u
user_of c (sets_mode u t mode) = some u
user_of c (tries_selection u t) = some u
user_of c (tries_rebind u expected replacement) = some u

-- What another user sees.
abbrev pub Sees : Text → SessionCatalog → SessionCatalog → Type 0
Sees w c d =
    (lookup w d.routing ≡ lookup w c.routing)
    × ((machine_id : Text)
        → lookup (client_key w machine_id) d.machines ≡ lookup (client_key w machine_id) c.machines)

-- The two calls in `ApplySnapshot` that change routing.
module _ (c : SessionCatalog) (user w : Text) (n : user ≢ w) where
  lookup-invalidate : lookup w (invalidate_changed_selection c user).routing ≡ lookup w c.routing
  unfolding invalidate_changed_selection
  lookup-invalidate = elim (Option-cases (routing_of c user).selected) [
    | inl e ↦ ground (arith, e)
    | inr (t, e) ↦ ground (
      arith,
      e,
      lookup-insert user w (record (routing_of c user) { selected = none; invalidated = some t })
          c.routing,
    )
  ]

  lookup-migrate :
      (machine_id : Text) (previous next : List Session)
      → lookup w (migrate_output_modes c (client_key user machine_id) previous next).routing
        ≡ lookup w c.routing
  unfolding migrate_output_modes
  lookup-migrate machine_id previous next = ground (
    arith,
    lookup-insert user w
        (record (routing_of c user) {
          output_modes =
              migrate_modes (client_key user machine_id) (by_slot [] previous) (by_slot [] next)
                (routing_of c user).output_modes (routing_of c user).output_modes;
        })
        c.routing,
  )

module _ (c : SessionCatalog) (id : Text) (w : Text) where
  attach-Sees : (key : ClientKey) → key.user_id ≢ w → Sees w c (attach c id key).0
  unfolding attach
  attach-Sees key n = (
    ground arith,
    λ machine_id. ground (
      arith,
      lookup-insert key (client_key w machine_id)
          (record { connection_id = id; sequence = 0; sessions = [] }) c.machines,
    ),
  )

  detach-Sees : user_of c (detaches id) ≢ some w → Sees w c (detach c id).0
  unfolding detach
  detach-Sees n = elim (Option-cases (lookup id c.connections)) [
    | inl e ↦ rw (e, detach) (refl, λ machine_id. refl)
    | inr (key, e) ↦ (
      ground (
        arith,
        e,
        lookup-insert key.user_id w (clear_routing (routing_of c key.user_id) key.machine_id)
            c.routing,
      ),
      λ machine_id. ground (arith, e, lookup-delete key (client_key w machine_id) c.machines),
    )
  ]

  replace_snapshot-Sees :
      (key : ClientKey) (current : MachineState) (s : SessionSnapshot)
      → key.user_id ≢ w
      → Sees w c (replace_snapshot c key current s)
  unfolding replace_snapshot
  replace_snapshot-Sees key current s n = (
    lookup-invalidate (staged c key current s) key.user_id w n
        ∙ lookup-migrate c key.user_id w n key.machine_id current.sessions s.sessions,
    λ machine_id. ground (
      arith,
      machines-replace_snapshot c key current s,
      lookup-insert key (client_key w machine_id)
          (record {
            connection_id = current.connection_id;
            sequence = s.sequence;
            sessions = s.sessions;
          })
          c.machines,
    ),
  )

module _ (c : SessionCatalog) (u w : Text) (n : u ≢ w) where
  set_routing-Sees : (r : RoutingState) → lookup w (insert u r c.routing) ≡ lookup w c.routing
  set_routing-Sees r = ground (arith, lookup-insert u w r c.routing)

  select_only-Sees :
      (r : RoutingState) (stale : Bool) (es : List CatalogEntry)
      → lookup w (select_only c u r stale es).0.routing ≡ lookup w c.routing
  unfolding select_only
  select_only-Sees r stale (e ∷ []) = set_routing-Sees _
  select_only-Sees r true _ = set_routing-Sees _
  select_only-Sees r false _ = refl

  selected-Sees : lookup w (selected c u).0.routing ≡ lookup w c.routing
  unfolding selected
  selected-Sees = elim (Option-cases (routing_of c u).selected) [
    | inl s ↦ rw (s, selected) (select_only-Sees (routing_of c u) false (entries c u))
    | inr (t, s) ↦ elim (Option-cases (find_entry c u t)) [
      | inr (e, f) ↦ rw (s, f, selected)
      | inl f ↦ rw (s, f, selected) (select_only-Sees _ true (entries c u))
    ]
  ]

  ensure_numbered_index-Sees :
      (t : Target) → lookup w (ensure_numbered_index c u t).0.routing ≡ lookup w c.routing
  unfolding ensure_numbered_index
  ensure_numbered_index-Sees t = ground (
    arith,
    set_routing-Sees
        (record (routing_of c u) { numbered = refs (entries c u); numbered_valid = true }),
  )

  Sees-of :
      (d : SessionCatalog)
      → lookup w d.routing ≡ lookup w c.routing
      → SameDirectory c d
      → Sees w c d
  Sees-of d r (p, q, m) = (r, λ machine_id. rw m)

  written_selection : (t : Target) → lookup w (write_selection c u t).routing ≡ lookup w c.routing
  written_selection t = set_routing-Sees _

  set_selection-Sees : (t : Target) → lookup w (set_selection c u t).0.routing ≡ lookup w c.routing
  unfolding set_selection
  set_selection-Sees t = elim (Option-cases (find_entry c u t)) [
    | inl f ↦ ground (arith, f)
    | inr (e, f) ↦ ground (arith, f, written_selection e.ref)
  ]

  select_attempt-Sees :
      (t : Target) → lookup w (after_attempt c (select_attempt c u t)).routing ≡ lookup w c.routing
  unfolding select_attempt
  select_attempt-Sees t = elim (Option-cases (find_entry c u t)) [
    | inl f ↦ ground (arith, f)
    | inr (e, f) ↦ ground (arith, f, written_selection e.ref)
  ]

  rebind_attempt-Sees :
      (expected replacement : Target)
      → lookup w (after_attempt c (rebind_attempt c u expected replacement)).routing
        ≡ lookup w c.routing
  unfolding rebind_attempt
  rebind_attempt-Sees expected replacement = elim (Option-cases (find_entry c u replacement)) [
    | inl f ↦ ground (arith, f)
    | inr (e, f) ↦ ground (arith, f, written_selection e.ref)
  ]

  set_output_mode-Sees :
      (t : Target) (mode : OutputMode)
      → lookup w (set_output_mode c u t mode).0.routing ≡ lookup w c.routing
  unfolding set_output_mode
  set_output_mode-Sees t mode = ground (
    arith,
    set_routing-Sees
        (record (routing_of c u) { output_modes = insert t mode (routing_of c u).output_modes }),
  )

other : {u w : Text} → ◌≢◌ {A = Option Text} (some u) (some w) → u ≢ w
other n e = n (ap some e)

-- No call changes the routing or the machines of a user whom it does not speak of.
pub step-Sees :
    (c : SessionCatalog) (call : Call) (w : Text) → user_of c call ≢ some w → Sees w c (step c call)
unfolding step create_numbered_snapshot
step-Sees c (attaches id key) w n = attach-Sees c id w key (λ e. n (ap some e))
step-Sees c (applies id s) w n =
    apply_snapshot_cases (Sees w c) c id s (refl, λ machine_id. refl)
      λ key current k m o v lt.
        replace_snapshot-Sees c id w key current s (λ e. n (rw k (ap some e)))
step-Sees c (detaches id) w n = detach-Sees c id w n
step-Sees c (numbers u) w n =
    Sees-of c u w (other n) (step c (numbers u)) (set_routing-Sees c u w (other n) _)
      (refl, refl, refl)
step-Sees c (ensures u t) w n =
    Sees-of c u w (other n) (step c (ensures u t)) (ensure_numbered_index-Sees c u w (other n) t)
      (ensure_numbered_index-SameDirectory c u t)
step-Sees c (selects u t) w n =
    Sees-of c u w (other n) (step c (selects u t)) (set_selection-Sees c u w (other n) t)
      (set_selection-SameDirectory c u t)
step-Sees c (reads_selection u) w n =
    Sees-of c u w (other n) (step c (reads_selection u)) (selected-Sees c u w (other n))
      (selected-SameDirectory c u)
step-Sees c (sets_mode u t mode) w n =
    Sees-of c u w (other n) (step c (sets_mode u t mode))
      (set_output_mode-Sees c u w (other n) t mode) (set_output_mode-SameDirectory c u t mode)
step-Sees c (tries_selection u t) w n =
    Sees-of c u w (other n) (step c (tries_selection u t)) (select_attempt-Sees c u w (other n) t)
      (select_attempt-SameDirectory c u t)
step-Sees c (tries_rebind u expected replacement) w n =
    Sees-of c u w (other n) (step c (tries_rebind u expected replacement))
      (rebind_attempt-Sees c u w (other n) expected replacement)
      (rebind_attempt-SameDirectory c u expected replacement)
