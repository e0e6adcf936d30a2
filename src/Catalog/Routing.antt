-- ===== src/Catalog/Routing.antt =====
-- internal/server/catalog.go: the numbered list, the selection and the output modes of a user.
use herdr_pal.Prelude.{
  ℕ, suc, ◌+◌, List, [], ◌∷◌, Bool, true, false, ◌&&◌, ◌||◌, not, Option, none, some, map, ◌==◌,
  nat_eq, ltb, if◌then◌else◌, length, get_elem?,
}
use herdr_pal.Prelude.{Result, ok, err}
use herdr_pal.Prelude.Int.{ℤ, pos, int_lt}
use herdr_pal.Prelude.Maps.{lookup, insert}
use herdr_pal.Prelude.Text.{Text, text_eq}
use herdr_pal.Hprp.Validate.{validate_target}
use herdr_pal.Hprp.{Target, OutputMode, text, image, other, target_eq}
use herdr_pal.Catalog.{
  Error, CatalogEntry, RoutingState, SessionCatalog, no_list_snapshot, target_changed, no_selection,
  selection_index_out_of_range, routing_of, set_routing, signal_update, find_entry, entries,
  has_machine,
}

abbrev pub refs : List CatalogEntry → List Target
refs = map (λ e. e.ref)

-- The write of `routing.numbered` that two methods share.
abbrev pub renumber : SessionCatalog → Text → SessionCatalog
renumber c user_id =
    set_routing c user_id
      (record (routing_of c user_id) { numbered = refs (entries c user_id); numbered_valid = true })

-- `CreateNumberedSnapshot`
unfoldable pub create_numbered_snapshot : SessionCatalog → Text → SessionCatalog × List CatalogEntry
create_numbered_snapshot c user_id = (renumber c user_id, entries c user_id)

abbrev pub entry_or {ℓ} : {A : Type ℓ} → Option A → Error → Result Error A
entry_or none e = err e
entry_or (some x) e = ok x

-- `routing.numbered[index-1]`, for an index within the bounds that the caller tested.
unfoldable pub numbered_at : List Target → ℤ → Option Target
numbered_at ts (pos (suc i)) = get_elem? ts i
numbered_at ts _ = none

-- `ResolveNumbered`
unfoldable pub resolve_numbered : SessionCatalog → Text → ℤ → Result Error CatalogEntry
unfolding numbered_at
resolve_numbered c user_id index =
    let ts = (routing_of c user_id).numbered in
    if not (routing_of c user_id).numbered_valid
    then err no_list_snapshot
    else if int_lt index (pos 1) || int_lt (pos (length ts)) index
    then err (selection_index_out_of_range (length ts))
    else elim (numbered_at ts index) [
      | none ↦ err target_changed
      | some t ↦ entry_or (find_entry c user_id t) target_changed
    ]

-- `sameCatalogTarget`
unfoldable pub same_target : Target → Target → Bool
same_target a b =
    a.machine_id == b.machine_id && a.slot_id == b.slot_id && a.session_id == b.session_id

-- `numberedTargetIndex`: from 1, or 0 if the target is not in the list.
unfoldable pub numbered_target_index : List Target → Target → ℕ
unfolding same_target
numbered_target_index [] t = 0
numbered_target_index (u ∷ rest) t =
    let later = numbered_target_index rest t in
    if same_target u t then 1 else if later == 0 then 0 else later + 1

-- `EnsureNumberedIndex`
unfoldable pub ensure_numbered_index :
    SessionCatalog → Text → Target → SessionCatalog × Result Error ℕ
unfolding numbered_target_index
ensure_numbered_index c user_id t = elim (find_entry c user_id t) [
  | none ↦ (c, err target_changed)
  | some e ↦
      let r = routing_of c user_id in
      let index = numbered_target_index r.numbered t in
      let fresh = numbered_target_index (refs (entries c user_id)) t in
      if r.numbered_valid && ltb 0 index
      then (c, ok index)
      else if fresh == 0
      then (renumber c user_id, err target_changed)
      else (renumber c user_id, ok fresh)
]

-- The write of a selection that four methods share.
abbrev pub write_selection : SessionCatalog → Text → Target → SessionCatalog
write_selection c user_id t = signal_update (
    set_routing c user_id (record (routing_of c user_id) { selected = some t; invalidated = none }))

-- `SetSelection`
unfoldable pub set_selection : SessionCatalog → Text → Target → SessionCatalog × Option Error
set_selection c user_id t = elim (find_entry c user_id t) [
  | none ↦ (c, some target_changed)
  | some e ↦ (write_selection c user_id e.ref, none)
]

-- The end of `Selected`: no usable selection, `r` the routing with a stale one moved aside.
unfoldable pub select_only :
    SessionCatalog
    → Text
    → RoutingState
    → Bool
    → List CatalogEntry
    → SessionCatalog × Result Error CatalogEntry
select_only c user_id r stale (e ∷ []) = (
  signal_update (set_routing c user_id (record r { selected = some e.ref; invalidated = none })),
  ok e,
)
select_only c user_id r stale _ =
    (if stale then signal_update (set_routing c user_id r) else c, err no_selection)

-- `Selected`
unfoldable pub selected : SessionCatalog → Text → SessionCatalog × Result Error CatalogEntry
unfolding select_only
selected c user_id =
    let r = routing_of c user_id in
    elim r.selected [
      | none ↦ select_only c user_id r false (entries c user_id)
      | some t ↦ elim (find_entry c user_id t) [
        | some e ↦ (c, ok e)
        | none ↦
            select_only c user_id (record r { selected = none; invalidated = some t }) true
              (entries c user_id)
      ]
    ]

abbrev valid_mode : OutputMode → Bool
valid_mode text = true
valid_mode image = true
valid_mode (other s) = false

-- `SetOutputMode`
unfoldable pub set_output_mode :
    SessionCatalog → Text → Target → OutputMode → SessionCatalog × Option Error
set_output_mode c user_id t mode =
    let r = routing_of c user_id in
    if not (valid_mode mode) then (c, some target_changed) else elim (find_entry c user_id t) [
      | none ↦ (c, some target_changed)
      | some e ↦ (
        signal_update
            (set_routing c user_id (record r { output_modes = insert t mode r.output_modes })),
        none,
      )
    ]

-- `OutputMode`: `ok none` is the agent's default mode.
unfoldable pub output_mode : SessionCatalog → Text → Target → Result Error (Option OutputMode)
output_mode c user_id t = elim (find_entry c user_id t) [
  | none ↦ err target_changed
  | some e ↦ ok (lookup t (routing_of c user_id).output_modes)
]

-- What one pass of a waiting loop does under the lock: it returns, or waits for `updates`.
pub data Attempt {ℓ} (A : Type ℓ) : Type ℓ where
  done : A → Attempt A
  waits : Attempt A

-- One pass of `SetSelectionWhenAvailable`.
unfoldable pub select_attempt :
    SessionCatalog → Text → Target → Attempt (SessionCatalog × Option Error)
select_attempt c user_id t =
    if not (has_machine c user_id t.machine_id)
    then done (c, some target_changed)
    else elim (find_entry c user_id t) [
      | some e ↦ done (write_selection c user_id e.ref, none)
      | none ↦ waits
    ]

abbrev pub is_target : Option Target → Target → Bool
is_target none t = false
is_target (some u) t = same_target u t

abbrev pub is_none {ℓ} : {A : Type ℓ} → Option A → Bool
is_none none = true
is_none (some x) = false

-- `selectionMatches || selectionAlreadyRebound || selectionWasInvalidated`
unfoldable pub may_rebind : RoutingState → Target → Target → Bool
unfolding same_target
may_rebind r expected replacement =
    is_target r.selected expected
    || is_target r.selected replacement
    || (is_none r.selected && is_target r.invalidated expected)

-- One pass of `RebindSelection`.
unfoldable pub rebind_attempt :
    SessionCatalog → Text → Target → Target → Attempt (SessionCatalog × Option Error)
unfolding may_rebind
rebind_attempt c user_id expected replacement =
    if not (has_machine c user_id expected.machine_id)
    then done (c, some target_changed)
    else if not (may_rebind (routing_of c user_id) expected replacement)
    then done (c, some target_changed)
    else elim (find_entry c user_id replacement) [
      | some e ↦ done (write_selection c user_id e.ref, none)
      | none ↦ waits
    ]

abbrev is_valid_target : Target → Bool
is_valid_target t = is_none (validate_target t)

-- The checks before the loop of `RebindSelection`.
unfoldable pub rebind_allowed : Target → Target → Bool
rebind_allowed expected replacement =
    is_valid_target expected
    && is_valid_target replacement
    && expected.machine_id == replacement.machine_id
    && expected.slot_id == replacement.slot_id
