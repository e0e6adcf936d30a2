-- ===== src/Catalog/Selecting.antt =====
-- The calls that write a user's routing keep it on entries that the directory shows.
use herdr_pal.Prelude.{
  ◌≡◌, List, [], ◌∷◌, Bool, true, false, some, arith, Option-cases, All, inl, inr,
}
use herdr_pal.Prelude.Maps.{lookup, insert, lookup-insert}
use herdr_pal.Prelude.Text.{Text, text_eq}
use herdr_pal.Hprp.{Target, OutputMode, target_eq}
use herdr_pal.Catalog.{SessionCatalog, CatalogEntry, RoutingState, find_entry, entries, routing_of}
use herdr_pal.Catalog.Routing.{
  ensure_numbered_index, set_selection, selected, set_output_mode, select_attempt, rebind_attempt,
  write_selection, renumber, select_only,
}
use herdr_pal.Catalog.Directory.{find_entry-ref}
use herdr_pal.Catalog.Listing.{IsIndexed, entries-Findable}
use herdr_pal.Catalog.Live.{IsLive, Shows, set_routing-IsLive, signal_update-IsLive}
use herdr_pal.Catalog.Migration.{is_some}
use herdr_pal.Catalog.Calls.{after_attempt}

module _ (c : SessionCatalog) (u : Text) (h : IsLive c) where
  pub renumber-IsLive : IsLive (renumber c u)
  renumber-IsLive = set_routing-IsLive c u _ h (h.selection u) (h.modes u)

  shown : (t : Target) (e : CatalogEntry) → find_entry c u t ≡ some e → Shows c u e.ref
  shown t e f = ground (arith, f, find_entry-ref c u t e)

  -- A selection of an entry that the directory shows.
  pub write_selection-IsLive :
      (t : Target) (e : CatalogEntry)
      → find_entry c u t ≡ some e
      → IsLive (write_selection c u e.ref)
  write_selection-IsLive t e f =
      signal_update-IsLive _
        (set_routing-IsLive c u _ h (λ v same. ground (arith, same, shown t e f)) (h.modes u))

  pub set_selection-IsLive : (t : Target) → IsLive (set_selection c u t).0
  unfolding set_selection
  set_selection-IsLive t = elim (Option-cases (find_entry c u t)) [
    | inl f ↦ rw (f, set_selection) h
    | inr (e, f) ↦ rw (f, set_selection) (write_selection-IsLive t e f)
  ]

  pub set_output_mode-IsLive :
      (t : Target) (mode : OutputMode) → IsLive (set_output_mode c u t mode).0
  unfolding set_output_mode
  set_output_mode-IsLive t mode = elim (Option-cases (find_entry c u t)) [
    | inl f ↦ ground (arith, f)
    | inr (e, f) ↦ ground (
      arith,
      f,
      signal_update-IsLive _ (
          set_routing-IsLive c u
            (record (routing_of c u) { output_modes = insert t mode (routing_of c u).output_modes })
            h (h.selection u)
            λ v m.
              ground (arith, h.modes u v, f, lookup-insert t v mode (routing_of c u).output_modes)),
    )
  ]

  pub ensure_numbered_index-IsLive : (t : Target) → IsLive (ensure_numbered_index c u t).0
  unfolding ensure_numbered_index
  ensure_numbered_index-IsLive t = ground (arith, renumber-IsLive)

  pub select_attempt-IsLive : (t : Target) → IsLive (after_attempt c (select_attempt c u t))
  unfolding select_attempt
  select_attempt-IsLive t = elim (Option-cases (find_entry c u t)) [
    | inl f ↦ ground (arith, f)
    | inr (e, f) ↦ ground (arith, f, write_selection-IsLive t e f)
  ]

  pub rebind_attempt-IsLive :
      (expected replacement : Target)
      → IsLive (after_attempt c (rebind_attempt c u expected replacement))
  unfolding rebind_attempt
  rebind_attempt-IsLive expected replacement = elim (Option-cases (find_entry c u replacement)) [
    | inl f ↦ ground (arith, f)
    | inr (e, f) ↦ ground (arith, f, write_selection-IsLive replacement e f)
  ]

  select_only-IsLive :
      (r : RoutingState) (stale : Bool) (es : List CatalogEntry)
      → ((t : Target) → r.selected ≡ some t → Shows c u t)
      → ((t : Target) → is_some (lookup t r.output_modes) ≡ true → Shows c u t)
      → All (λ e. find_entry c u e.ref ≡ some e) es
      → IsLive (select_only c u r stale es).0
  unfolding select_only
  select_only-IsLive r stale (e ∷ []) s m a =
      signal_update-IsLive _ (set_routing-IsLive c u _ h (λ v same. ground (arith, same, a.0)) m)
  select_only-IsLive r true _ s m a = signal_update-IsLive _ (set_routing-IsLive c u r h s m)
  select_only-IsLive r false _ s m a = h

  pub selected-IsLive : IsIndexed c → IsLive (selected c u).0
  unfolding selected
  selected-IsLive i = elim (Option-cases (routing_of c u).selected) [
    | inl s ↦
        rw (s, selected)
          (select_only-IsLive (routing_of c u) false (entries c u) (h.selection u) (h.modes u)
            (entries-Findable c u i))
    | inr (t, s) ↦ elim (Option-cases (find_entry c u t)) [
      | inr (e, f) ↦ rw (s, f, selected) h
      | inl f ↦ ground (arith, h.selection u t s, f)
    ]
  ]
