-- ===== src/Catalog/Promises.antt =====
-- What callers of `SessionCatalog` rely on: snapshots only advance, a selection that was made stays,
-- and a closed connection leaves nothing behind.
use herdr_pal.Prelude.{
  ◌≡◌, ◌≢◌, ◌<◌, ◌⊎◌, refl, List, [], ◌∷◌, Bool, true, false, none, some, ok, arith, Option-cases,
  inl, inr, All,
}
use herdr_pal.Prelude.Maps.{lookup, lookup-insert, lookup-delete}
use herdr_pal.Prelude.Text.{Text, text_eq, trim_space}
use herdr_pal.Hprp.Validate.{validate_machine_id}
use herdr_pal.Hprp.{Target, SessionSnapshot}
use herdr_pal.Catalog.{
  ClientKey, MachineState, SessionCatalog, CatalogEntry, RoutingState, client_key_eq, find_entry,
  entries, routing_of,
}
use herdr_pal.Catalog.Calls.{
  Call, attaches, applies, detaches, numbers, ensures, selects, reads_selection, sets_mode,
  tries_selection, tries_rebind, step,
}
use herdr_pal.Catalog.Connections.{attach, detach, register_connection, replace_snapshot}
use herdr_pal.Catalog.Consistent.{apply_snapshot_cases, machines-replace_snapshot}
use herdr_pal.Catalog.Directory.{find_entry-ref, find_entry-detach}
use herdr_pal.Catalog.Indexed.{attach_cases}
use herdr_pal.Catalog.Listing.{entries-Findable}
use herdr_pal.Catalog.Reach.{
  IsSound, ensure_numbered_index-SameDirectory, selected-SameDirectory, set_selection-SameDirectory,
  set_output_mode-SameDirectory, select_attempt-SameDirectory, rebind_attempt-SameDirectory,
}
use herdr_pal.Catalog.Routing.{selected, select_only, create_numbered_snapshot}

-- A machine that is there before and after a call is the same, or its own connection has replaced
-- its sessions under a higher sequence.
abbrev pub Advances : MachineState → MachineState → Type 0
Advances m n = (n ≡ m) ⊎ ((n.connection_id ≡ m.connection_id) × (m.sequence < n.sequence))

abbrev AdvancesTo : SessionCatalog → ClientKey → SessionCatalog → Type 0
AdvancesTo c key d =
    (m n : MachineState)
    → lookup key c.machines ≡ some m
    → lookup key d.machines ≡ some n
    → Advances m n

AdvancesTo-same :
    (c d : SessionCatalog) (key : ClientKey) → d.machines ≡ c.machines → AdvancesTo c key d
AdvancesTo-same c d key e m n p q = inl (ground (arith, e, p, q))

register_connection-AdvancesTo :
    (c : SessionCatalog) (id : Text) (new key : ClientKey)
    → IsSound c
    → lookup new c.by_key ≡ none
    → AdvancesTo c key (register_connection c id new)
unfolding register_connection
register_connection-AdvancesTo c id new key h free m n p q = ground (
  arith,
  p,
  h.connected.machine new,
  lookup-insert new key (record { connection_id = id; sequence = 0; sessions = [] }) c.machines,
)

replace_snapshot-AdvancesTo :
    (c : SessionCatalog) (owner key : ClientKey) (current : MachineState) (s : SessionSnapshot)
    → lookup owner c.machines ≡ some current
    → current.sequence < s.sequence
    → AdvancesTo c key (replace_snapshot c owner current s)
replace_snapshot-AdvancesTo c owner key current s at lt m n p q = ground (
  arith,
  p,
  q,
  machines-replace_snapshot c owner current s,
  lookup-insert owner key
      (record {
        connection_id = current.connection_id;
        sequence = s.sequence;
        sessions = s.sessions;
      })
      c.machines,
)

detach-AdvancesTo :
    (c : SessionCatalog) (id : Text) (key : ClientKey) → AdvancesTo c key (detach c id).0
unfolding detach
detach-AdvancesTo c id key m n p q = elim (Option-cases (lookup id c.connections)) [
  | inl e ↦ ground (arith, e)
  | inr (own, e) ↦ ground (arith, e, lookup-delete own key c.machines)
]

-- In a sound catalog, a machine that is there before and after a call is unchanged, or keeps its
-- connection and has a higher sequence.
pub step-Advances :
    (c : SessionCatalog) (call : Call) (key : ClientKey)
    → IsSound c
    → (m n : MachineState) → lookup key c.machines ≡ some m
    → lookup key (step c call).machines ≡ some n
    → Advances m n
unfolding step create_numbered_snapshot
step-Advances c (attaches id new) key h =
    attach_cases (AdvancesTo c key) c id new (AdvancesTo-same c c key refl)
      λ _ free. register_connection-AdvancesTo c id new key h free
step-Advances c (applies id s) key h =
    apply_snapshot_cases (AdvancesTo c key) c id s (AdvancesTo-same c c key refl)
      λ owner current k m o v lt. replace_snapshot-AdvancesTo c owner key current s m lt
step-Advances c (detaches id) key h = detach-AdvancesTo c id key
step-Advances c (numbers u) key h = AdvancesTo-same c (step c (numbers u)) key refl
step-Advances c (ensures u t) key h =
    AdvancesTo-same c (step c (ensures u t)) key (ensure_numbered_index-SameDirectory c u t).2
step-Advances c (selects u t) key h =
    AdvancesTo-same c (step c (selects u t)) key (set_selection-SameDirectory c u t).2
step-Advances c (reads_selection u) key h =
    AdvancesTo-same c (step c (reads_selection u)) key (selected-SameDirectory c u).2
step-Advances c (sets_mode u t mode) key h =
    AdvancesTo-same c (step c (sets_mode u t mode)) key (set_output_mode-SameDirectory c u t mode).2
step-Advances c (tries_selection u t) key h =
    AdvancesTo-same c (step c (tries_selection u t)) key (select_attempt-SameDirectory c u t).2
step-Advances c (tries_rebind u expected replacement) key h =
    AdvancesTo-same c (step c (tries_rebind u expected replacement)) key
      (rebind_attempt-SameDirectory c u expected replacement).2

select_only_ok :
    (c : SessionCatalog) (u : Text) (r : RoutingState) (stale : Bool) (es : List CatalogEntry)
    → All (λ e. find_entry c u e.ref ≡ some e) es
    → (e : CatalogEntry) → (select_only c u r stale es).1 ≡ ok e
    → ((routing_of (select_only c u r stale es).0 u).selected ≡ some e.ref)
      × (find_entry (select_only c u r stale es).0 u e.ref ≡ some e)
unfolding select_only find_entry
select_only_ok c u r stale (x ∷ []) a e h = ground (
  arith,
  a.0,
  lookup-insert u u (record r { selected = some x.ref; invalidated = none }) c.routing,
)
select_only_ok c u r true _ a e h = cc
select_only_ok c u r false _ a e h = cc

-- In a sound catalog, an entry that `Selected` returns is now the user's selection, and the
-- directory shows it.
pub selected_ok :
    (c : SessionCatalog) (u : Text)
    → IsSound c
    → (e : CatalogEntry) → (selected c u).1 ≡ ok e
    → ((routing_of (selected c u).0 u).selected ≡ some e.ref)
      × (find_entry (selected c u).0 u e.ref ≡ some e)
unfolding selected
selected_ok c u h e k = elim (Option-cases (routing_of c u).selected) [
  | inl s ↦ ground (
    arith,
    s,
    select_only_ok c u (routing_of c u) false (entries c u) (entries-Findable c u h.indexed) e,
  )
  | inr (t, s) ↦ ground (arith, s, h.live.selection u t s, find_entry-ref c u t e)
]

-- In a sound catalog, when a user has a selection, `Selected` gives the entry that the directory
-- shows for it and changes nothing.
pub selected_keeps :
    (c : SessionCatalog) (u : Text) (t : Target)
    → IsSound c
    → (routing_of c u).selected ≡ some t
    → (e : CatalogEntry) × (find_entry c u t ≡ some e) × (selected c u ≡ (c, ok e))
unfolding selected
selected_keeps c u t h s = elim (Option-cases (find_entry c u t)) [
  | inl f ↦ absurd (ground (arith, f, h.live.selection u t s))
  | inr (e, f) ↦ (e, f, ground (arith, s, f))
]

by_key-detach :
    (c : SessionCatalog) (id : Text) (key : ClientKey)
    → IsSound c
    → lookup id c.connections ≡ some key
    → lookup key (detach c id).0.by_key ≡ none
unfolding detach
by_key-detach c id key h at =
    ground (arith, h.connected.to_key id key at, lookup-delete key key c.by_key)

-- In a sound catalog `Detach` of a connection that is attached hides every entry of its machine from
-- its user, and its key, if valid, can then be attached under an id that is free and not blank.
pub attach-detach :
    (c : SessionCatalog) (id again : Text) (key : ClientKey) (t : Target)
    → IsSound c
    → lookup id c.connections ≡ some key
    → lookup again (detach c id).0.connections ≡ none
    → trim_space again ≢ []
    → trim_space key.user_id ≢ []
    → validate_machine_id key.machine_id ≡ none
    → t.machine_id ≡ key.machine_id
    → (find_entry (detach c id).0 key.user_id t ≡ none)
      × ((attach (detach c id).0 again key).1 ≡ none)
unfolding attach
attach-detach c id again key t h at free b1 b2 v e = (
  ground (arith, e, find_entry-detach c id key.user_id t h.connected key at),
  ground (arith, v, by_key-detach c id key h at),
)
