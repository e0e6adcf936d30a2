-- ===== src/Catalog/Reach.antt =====
-- What holds of the catalog after any history of calls.
use herdr_pal.Prelude.{◌≡◌, refl, List, [], ◌∷◌, Bool, true, false, none, some, arith}
use herdr_pal.Prelude.Text.{Text, text_eq}
use herdr_pal.Hprp.{Target, OutputMode, target_eq}
use herdr_pal.Catalog.{
  SessionCatalog, CatalogEntry, RoutingState, new_session_catalog, entries, routing_of,
}
use herdr_pal.Catalog.Routing.{
  create_numbered_snapshot, ensure_numbered_index, set_selection, selected, set_output_mode,
  select_attempt, rebind_attempt, select_only,
}
use herdr_pal.Catalog.Consistent.{
  IsConnected, new-IsConnected, attach-IsConnected, detach-IsConnected, apply_snapshot-IsConnected,
  apply_snapshot_cases,
}
use herdr_pal.Catalog.Indexed.{
  new-IsIndexed, attach-IsIndexed, detach-IsIndexed, replace_snapshot-IsIndexed,
}
use herdr_pal.Catalog.Listing.{IsIndexed}
use herdr_pal.Catalog.Live.{IsLive, new-IsLive, attach-IsLive, detach-IsLive}
use herdr_pal.Catalog.Refresh.{replace_snapshot-IsLive}
use herdr_pal.Catalog.Calls.{
  Call, attaches, applies, detaches, numbers, ensures, selects, reads_selection, sets_mode,
  tries_selection, tries_rebind, after_attempt, step, run,
}
use herdr_pal.Catalog.Selecting.{
  renumber-IsLive, ensure_numbered_index-IsLive, select_attempt-IsLive, rebind_attempt-IsLive,
  selected-IsLive, set_output_mode-IsLive, set_selection-IsLive,
}

pub record IsSound (c : SessionCatalog) : Type 0 where
  pub connected : IsConnected c
  pub indexed : IsIndexed c
  pub live : IsLive c

-- Calls that write routing alone keep the connections and the machines.
abbrev pub SameDirectory : SessionCatalog → SessionCatalog → Type 0
SameDirectory c d =
    (d.connections ≡ c.connections) × (d.by_key ≡ c.by_key) × (d.machines ≡ c.machines)

IsSound-of : (c d : SessionCatalog) → SameDirectory c d → IsLive d → IsSound c → IsSound d
IsSound-of c d (p, q, r) l h = record {
  connected = record {
    to_key = λ id k e. ground (arith, p, q, h.connected.to_key id k);
    to_connection = λ k id e. ground (arith, p, q, h.connected.to_connection k id);
    machine = λ k. ground (arith, q, r, h.connected.machine k);
  };
  indexed = record { keys = rw r h.indexed.keys; slots = rw r h.indexed.slots };
  live = l;
}

-- The calls of `Routing` write the routing of one user.
module _ (c : SessionCatalog) (u : Text) where
  pub ensure_numbered_index-SameDirectory :
      (t : Target) → SameDirectory c (ensure_numbered_index c u t).0
  unfolding ensure_numbered_index
  ensure_numbered_index-SameDirectory t = ground arith

  pub set_selection-SameDirectory : (t : Target) → SameDirectory c (set_selection c u t).0
  unfolding set_selection
  set_selection-SameDirectory t = ground arith

  pub select_only-SameDirectory :
      (r : RoutingState) (stale : Bool) (es : List CatalogEntry)
      → SameDirectory c (select_only c u r stale es).0
  unfolding select_only
  select_only-SameDirectory r stale (e ∷ []) = (refl, refl, refl)
  select_only-SameDirectory r true _ = (refl, refl, refl)
  select_only-SameDirectory r false _ = (refl, refl, refl)

  pub selected-SameDirectory : SameDirectory c (selected c u).0
  unfolding selected
  selected-SameDirectory = ground (
    arith,
    select_only-SameDirectory (routing_of c u) false (entries c u),
    λ (t : Target).
        select_only-SameDirectory
          (record (routing_of c u) { selected = none; invalidated = some t }) true (entries c u),
  )

  pub set_output_mode-SameDirectory :
      (t : Target) (mode : OutputMode) → SameDirectory c (set_output_mode c u t mode).0
  unfolding set_output_mode
  set_output_mode-SameDirectory t mode = ground arith

  pub select_attempt-SameDirectory :
      (t : Target) → SameDirectory c (after_attempt c (select_attempt c u t))
  unfolding select_attempt
  select_attempt-SameDirectory t = ground arith

  pub rebind_attempt-SameDirectory :
      (expected replacement : Target)
      → SameDirectory c (after_attempt c (rebind_attempt c u expected replacement))
  unfolding rebind_attempt
  rebind_attempt-SameDirectory expected replacement = ground arith

new-IsSound : IsSound new_session_catalog
new-IsSound = record { connected = new-IsConnected; indexed = new-IsIndexed; live = new-IsLive }

pub step-IsSound : (c : SessionCatalog) (call : Call) → IsSound c → IsSound (step c call)
unfolding step create_numbered_snapshot
step-IsSound c (attaches id key) h = record {
  connected = attach-IsConnected c id key h.connected;
  indexed = attach-IsIndexed c id key h.indexed;
  live = attach-IsLive c id h.connected h.live key;
}
step-IsSound c (applies id s) h = record {
  connected = apply_snapshot-IsConnected c id s h.connected;
  indexed =
      apply_snapshot_cases IsIndexed c id s h.indexed
        λ key current k m o v lt. replace_snapshot-IsIndexed c key current s v h.indexed;
  live =
      apply_snapshot_cases IsLive c id s h.live
        λ key current k m o v lt. replace_snapshot-IsLive c key current s h.live (omega arith);
}
step-IsSound c (detaches id) h = record {
  connected = detach-IsConnected c id h.connected;
  indexed = detach-IsIndexed c id h.indexed;
  live = detach-IsLive c id h.connected h.live;
}
step-IsSound c (numbers u) h = IsSound-of c _ (refl, refl, refl) (renumber-IsLive c u h.live) h
step-IsSound c (ensures u t) h =
    IsSound-of c _ (ensure_numbered_index-SameDirectory c u t)
      (ensure_numbered_index-IsLive c u h.live t) h
step-IsSound c (selects u t) h =
    IsSound-of c _ (set_selection-SameDirectory c u t) (set_selection-IsLive c u h.live t) h
step-IsSound c (reads_selection u) h =
    IsSound-of c _ (selected-SameDirectory c u) (selected-IsLive c u h.live h.indexed) h
step-IsSound c (sets_mode u t mode) h =
    IsSound-of c _ (set_output_mode-SameDirectory c u t mode)
      (set_output_mode-IsLive c u h.live t mode) h
step-IsSound c (tries_selection u t) h =
    IsSound-of c _ (select_attempt-SameDirectory c u t) (select_attempt-IsLive c u h.live t) h
step-IsSound c (tries_rebind u expected replacement) h =
    IsSound-of c _ (rebind_attempt-SameDirectory c u expected replacement)
      (rebind_attempt-IsLive c u h.live expected replacement) h

run-IsSound_from : (c : SessionCatalog) (calls : List Call) → IsSound c → IsSound (run c calls)
unfolding run
run-IsSound_from c [] h = h
run-IsSound_from c (call ∷ calls) h = run-IsSound_from (step c call) calls (step-IsSound c call h)

-- After any calls from an empty catalog, connections and keys correspond one to one and each owns
-- its machine, a machine has one state and a slot one session, and every user's selection and output
-- modes name entries that the directory shows.
pub run-IsSound : (calls : List Call) → IsSound (run new_session_catalog calls)
run-IsSound calls = run-IsSound_from new_session_catalog calls new-IsSound
