-- ===== src/Catalog/Live.antt =====
-- A user's selection and output modes always name entries that the directory shows.
use herdr_pal.Prelude.{◌≡◌, inl, inr, true, some, ◌==◌, if◌then◌else◌, arith, not, Option-cases}
use herdr_pal.Prelude.Maps.{lookup, lookup-insert, lookup-keep}
use herdr_pal.Prelude.Text.{Text, text_eq}
use herdr_pal.Hprp.{Target, target_eq}
use herdr_pal.Catalog.{
  ClientKey, RoutingState, SessionCatalog, client_key_eq, find_entry, routing_of, set_routing,
  signal_update, new_session_catalog,
}
use herdr_pal.Catalog.Connections.{attach, detach, clear_routing}
use herdr_pal.Catalog.Consistent.{IsConnected}
use herdr_pal.Catalog.Directory.{find_entry-attach, find_entry-detach}
use herdr_pal.Catalog.Migration.{is_some}

abbrev pub Shows : SessionCatalog → Text → Target → Type 0
Shows c u t = is_some (find_entry c u t) ≡ true

pub record IsLive (c : SessionCatalog) : Type 0 where
  pub selection : (u : Text) (t : Target) → (routing_of c u).selected ≡ some t → Shows c u t
  pub modes :
      (u : Text) (t : Target)
      → is_some (lookup t (routing_of c u).output_modes) ≡ true
      → Shows c u t

pub new-IsLive : IsLive new_session_catalog
unfolding new_session_catalog lookup
new-IsLive = record { selection = λ u t h. cc; modes = λ u t h. cc }

-- The calls that change one user's routing alone.
pub set_routing-IsLive :
    (c : SessionCatalog) (u : Text) (r : RoutingState)
    → IsLive c
    → ((t : Target) → r.selected ≡ some t → Shows c u t)
    → ((t : Target) → is_some (lookup t r.output_modes) ≡ true → Shows c u t)
    → IsLive (set_routing c u r)
unfolding find_entry
set_routing-IsLive c u r h s m = record {
  selection = λ w t e. ground (arith, h.selection w t, s t, lookup-insert u w r c.routing);
  modes = λ w t e. ground (arith, h.modes w t, m t, lookup-insert u w r c.routing);
}

pub signal_update-IsLive : (c : SessionCatalog) → IsLive c → IsLive (signal_update c)
unfolding find_entry
signal_update-IsLive c h = record { selection = h.selection; modes = h.modes }

module _ (c : SessionCatalog) (id : Text) (h : IsConnected c) (l : IsLive c) where
  routing-attach : (key : ClientKey) → (attach c id key).0.routing ≡ c.routing
  unfolding attach
  routing-attach key = ground arith

  pub attach-IsLive : (key : ClientKey) → IsLive (attach c id key).0
  attach-IsLive key = record {
    selection = λ u t e.
        rw (find_entry-attach c id u t h key) (l.selection u t (rw (routing-attach key) at e));
    modes =
        λ u t e. rw (find_entry-attach c id u t h key) (l.modes u t (rw (routing-attach key) at e));
  }

  routing_of-detach :
      (key : ClientKey) (u : Text)
      → lookup id c.connections ≡ some key
      → routing_of (detach c id).0 u ≡ (
          if key.user_id == u
          then clear_routing (routing_of c u) key.machine_id
          else routing_of c u)
  unfolding detach
  routing_of-detach key u e = ground (
    arith,
    lookup-insert key.user_id u (clear_routing (routing_of c key.user_id) key.machine_id) c.routing,
  )

  detach_some-IsLive :
      (key : ClientKey) → lookup id c.connections ≡ some key → IsLive (detach c id).0
  unfolding clear_routing
  detach_some-IsLive key e = record {
    selection = λ u t f.
        ground
          (arith, l.selection u t, routing_of-detach key u e, find_entry-detach c id u t h key e);
    modes = λ u t f. ground (
      arith,
      l.modes u t,
      routing_of-detach key u e,
      find_entry-detach c id u t h key e,
      lookup-keep (λ v. not (v.machine_id == key.machine_id)) t (routing_of c u).output_modes,
    );
  }

  pub detach-IsLive : IsLive (detach c id).0
  unfolding detach
  detach-IsLive = elim (Option-cases (lookup id c.connections)) [
    | inl e ↦ rw (e, detach) l
    | inr (key, e) ↦ detach_some-IsLive key e
  ]
