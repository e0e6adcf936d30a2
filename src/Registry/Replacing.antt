-- ===== src/Registry/Replacing.antt =====
-- internal/session/registry.go: what a new snapshot of the panes does to the selection and the statuses.
use herdr_pal.Prelude.{
  ◌≡◌, ◌≢◌, ◌⊎◌, refl, [], Bool, true, false, some, if◌then◌else◌, arith, subst, sym, ap, ◌∙◌, ok,
  err, Option-cases, ==_cases, inl, inr,
}
use herdr_pal.Prelude.Maps.{lookup}
use herdr_pal.Prelude.Text.{Text, text_eq}
use herdr_pal.Registry.{Target, Snapshot, Identity, targets_from_snapshot}
use herdr_pal.Registry.Keyed.{
  AreKeyed, pane-lookup, targets_from_snapshot-AreKeyed, preserve_statuses-AreKeyed,
  lookup-preserve_statuses,
}
use herdr_pal.Registry.Operations.{
  Registry, selection_invalid, is_occupant, invalidate_selection, check_selection,
  preserve_statuses, replace, validate_selected,
}
use herdr_pal.Registry.Sound.{IsSound}

-- What became of a selection: it is still the same occupant of the same pane, or it is gone.
abbrev pub Settles : Text → Text → Registry × Bool → Type 0
Settles pane key (r, dropped) =
    ((is_occupant key (lookup pane r.targets) ≡ true)
      × (dropped ≡ false)
      × (t : Target) × (t.pane_id ≡ pane)
      × (t.occupant_key ≡ key)
      × (validate_selected r ≡ (r, ok t)))
    ⊎ ((is_occupant key (lookup pane r.targets) ≡ false)
        × (dropped ≡ true)
        × ((validate_selected r).1 ≡ err selection_invalid))

validated :
    (r : Registry) (t : Target)
    → r.selected_key ≢ []
    → r.selection_invalid ≡ false
    → lookup r.selected_pane r.targets ≡ some t
    → t.occupant_key ≡ r.selected_key
    → validate_selected r ≡ (r, ok t)
unfolding validate_selected
validated r t n v e k = ground (arith, n, v, e, k)

abbrev dropped_selection : Registry → Registry
dropped_selection r = record r { selected_key = []; selected_pane = []; selection_invalid = true }

module _ (r : Registry) (n : r.selected_key ≢ []) where
  check_live :
      is_occupant r.selected_key (lookup r.selected_pane r.targets) ≡ true
      → check_selection r false ≡ (r, false)
  unfolding check_selection
  check_live live = ground (arith, n, live)

  check_gone :
      is_occupant r.selected_key (lookup r.selected_pane r.targets) ≡ false
      → check_selection r false ≡ (dropped_selection r, true)
  unfolding check_selection invalidate_selection
  check_gone gone = ground (arith, n, gone)

  dropped_invalid : (validate_selected (dropped_selection r)).1 ≡ err selection_invalid
  unfolding validate_selected
  dropped_invalid = refl

  gone-Settles :
      is_occupant r.selected_key (lookup r.selected_pane r.targets) ≡ false
      → Settles r.selected_pane r.selected_key (check_selection r false)
  gone-Settles gone =
      subst (Settles r.selected_pane r.selected_key) (sym (check_gone gone))
        (inr (gone, refl, dropped_invalid))

  live-Settles :
      (t : Target)
      → AreKeyed r.targets
      → r.selection_invalid ≡ false
      → lookup r.selected_pane r.targets ≡ some t
      → t.occupant_key ≡ r.selected_key
      → Settles r.selected_pane r.selected_key (check_selection r false)
  live-Settles t k v e same =
      let live : is_occupant r.selected_key (lookup r.selected_pane r.targets) ≡ true =
        ground (arith, e, same) in
      subst (Settles r.selected_pane r.selected_key) (sym (check_live live)) (
        inl (
          live,
          refl,
          t,
          pane-lookup r.targets r.selected_pane t k.own e,
          same,
          validated r t n v e same,
        ))

check_selection-Settles :
    (r : Registry)
    → AreKeyed r.targets
    → r.selected_key ≢ []
    → r.selection_invalid ≡ false
    → Settles r.selected_pane r.selected_key (check_selection r false)
check_selection-Settles r k n v = elim (Option-cases (lookup r.selected_pane r.targets)) [
  | inl e ↦ gone-Settles r n (ground (arith, e))
  | inr (t, e) ↦ elim (==_cases t.occupant_key r.selected_key) [
    | inl (same, _) ↦ live-Settles r n t k v e same
    | inr (other, _) ↦ gone-Settles r n (ground (arith, e, other))
  ]
]

check_selection-targets :
    (r : Registry) (reconnect : Bool) → (check_selection r reconnect).0.targets ≡ r.targets
unfolding check_selection invalidate_selection
check_selection-targets r reconnect = ground arith

module _ (digest : Identity → Text) (r : Registry) (s : Snapshot) where
  read-AreKeyed :
      (preserve : Bool)
      → AreKeyed (
          if preserve
          then preserve_statuses r.targets (targets_from_snapshot digest s).0
          else (targets_from_snapshot digest s).0)
  read-AreKeyed true =
      preserve_statuses-AreKeyed r.targets _ (targets_from_snapshot-AreKeyed digest s)
  read-AreKeyed false = targets_from_snapshot-AreKeyed digest s

  -- In a sound registry with a selection, a snapshot that is not a reconnection never moves the
  -- selection: either the selected pane still has the selected occupant, and `ValidateSelected`
  -- gives its target and changes nothing, or the change set says that the selection was dropped
  -- and `ValidateSelected` fails.
  pub replace-Settles :
      (preserve : Bool)
      → IsSound r
      → r.selected_key ≢ []
      → Settles r.selected_pane r.selected_key (
        (replace digest r s false preserve).0,
        (replace digest r s false preserve).1.selection_invalidated,
      )
  unfolding replace
  replace-Settles preserve h n =
      check_selection-Settles _ (read-AreKeyed preserve) n
        (still_valid r.selection_invalid h.invalid)
    where
      still_valid : (b : Bool) → (b ≡ true → r.selected_key ≡ []) → b ≡ false
      still_valid true i = absurd (n (i refl))
      still_valid false i = refl

  -- `ReplacePreservingStatus` keeps the status of an occupant that is in its pane before and
  -- after, whatever the snapshot says.
  pub replace_preserves :
      (pane : Text) (old new : Target)
      → lookup pane r.targets ≡ some old
      → lookup pane (replace digest r s false true).0.targets ≡ some new
      → new.occupant_key ≡ old.occupant_key
      → new.status ≡ old.status
  unfolding replace
  replace_preserves pane old new e f k =
      let read = targets_from_snapshot digest s in
      let seen : lookup pane (preserve_statuses r.targets read.0) ≡ some new =
        ap (lookup pane) (
          sym (
            check_selection-targets
              (record r { targets = preserve_statuses r.targets read.0; orders = read.1 }) false))
        ∙ f in
      ground (arith, e, k, seen, lookup-preserve_statuses r.targets read.0 pane)
