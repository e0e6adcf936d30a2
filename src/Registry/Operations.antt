-- ===== src/Registry/Operations.antt =====
-- internal/session/registry.go: the registry and its methods.
use herdr_pal.Prelude.{
  ℕ, suc, List, [], ◌∷◌, map, Bool, true, false, ◌&&◌, ◌||◌, not, Option, none, some, ◌==◌, nat_eq,
  if◌then◌else◌, Result, ok, err, get_elem?, length, any, keep,
}
use herdr_pal.Prelude.Int.{ℤ, pos, int_lt}
use herdr_pal.Prelude.Maps.{lookup, insert}
use herdr_pal.Prelude.Text.{Text, text_eq}
use herdr_pal.Registry.{
  Target, Targets, Orders, Snapshot, Identity, AgentInfo, AgentStatusEvent, AgentSession,
  occupant_key, string_value, targets_from_snapshot, sort_targets_by_order, sorted_targets, values,
}

pub data Error : Type 0 where
  no_list_snapshot list_snapshot_expired no_selection selection_invalid stale_agent_event : Error
  selection_index_out_of_range : ℕ → Error
  unknown_pane : Text → Error

-- `listEntry`
pub record ListEntry : Type 0 where
  pub pane_id : Text
  pub occupant_key : Text

-- `Registry`; a blank `selected_key` is no selection.
pub record Registry : Type 0 where
  pub targets : Targets
  pub orders : Orders
  pub list_snapshot : List ListEntry
  pub selected_key : Text
  pub selected_pane : Text
  pub selection_invalid : Bool

-- The zero value of `Registry`.
abbrev pub empty_registry : Registry
empty_registry = record {
  targets = [];
  orders = [];
  list_snapshot = [];
  selected_key = [];
  selected_pane = [];
  selection_invalid = false;
}

-- `ChangeSet`
pub record ChangeSet : Type 0 where
  pub agent_set_changed : Bool
  pub selection_invalidated : Bool
  pub removed_targets : List Target
  pub replaced_targets : List Target

-- `Transition`
pub record Transition : Type 0 where
  pub target : Target
  pub previous : Text
  pub current : Text

-- Whether a target is there and has this occupant.
abbrev pub is_occupant : Text → Option Target → Bool
is_occupant key none = false
is_occupant key (some t) = t.occupant_key == key

-- `invalidateSelection`
unfoldable pub invalidate_selection : Registry → Registry × Bool
invalidate_selection r =
    if r.selected_key == []
    then (r, false)
    else (record r { selected_key = []; selected_pane = []; selection_invalid = true }, true)

-- The first loop of `replace`.
abbrev pub kept_status : Target → Option Target → Target
kept_status next none = next
kept_status next (some current) =
    if current.occupant_key == next.occupant_key
    then record next { status = current.status }
    else next

unfoldable pub preserve_statuses : Targets → Targets → Targets
preserve_statuses current [] = []
preserve_statuses current ((pane, next) ∷ rest) =
    (pane, kept_status next (lookup pane current)) ∷ preserve_statuses current rest

abbrev is_removed : Targets → Text × Target → Bool
is_removed next e = elim (lookup e.0 next) [ none ↦ true | some t ↦ false ]

abbrev is_replaced : Targets → Text × Target → Bool
is_replaced next e = elim (lookup e.0 next) [
  | none ↦ false
  | some t ↦ not (e.1.occupant_key == t.occupant_key)
]

-- What `replace` says of the two sets of targets.
unfoldable pub compare_targets : Orders → Targets → Targets → ChangeSet
compare_targets orders current next = record {
  agent_set_changed =
      any (is_removed next) current
      || any (is_replaced next) current
      || any (is_removed current) next;
  selection_invalidated = false;
  removed_targets = sort_targets_by_order orders (values (keep (is_removed next) current));
  replaced_targets = sort_targets_by_order orders (values (keep (is_replaced next) current));
}

-- What `replace` does with the selection, once the targets are replaced.
unfoldable pub check_selection : Registry → Bool → Registry × Bool
unfolding invalidate_selection
check_selection r reconnect =
    if reconnect
    then (
      record r {
        selected_key = [];
        selected_pane = [];
        selection_invalid = false;
        list_snapshot = [];
      },
      not (r.selected_key == []),
    )
    else if not (r.selected_key == [])
    then (if is_occupant r.selected_key (lookup r.selected_pane r.targets)
        then (r, false)
        else invalidate_selection r)
    else (r, false)

-- `replace`
unfoldable pub replace :
    (Identity → Text) → Registry → Snapshot → Bool → Bool → Registry × ChangeSet
unfolding check_selection compare_targets
replace digest r snapshot reconnect preserve_status =
    let read = targets_from_snapshot digest snapshot in
    let next = if preserve_status then preserve_statuses r.targets read.0 else read.0 in
    let checked = check_selection (record r { targets = next; orders = read.1 }) reconnect in
    (
      checked.0,
      record (compare_targets r.orders r.targets next) { selection_invalidated = checked.1 },
    )

-- `CreateListSnapshot`
abbrev pub entry_of : Target → ListEntry
entry_of t = record { pane_id = t.pane_id; occupant_key = t.occupant_key }

unfoldable pub create_list_snapshot : Registry → Registry × List Target
create_list_snapshot r =
    let targets = sorted_targets r.targets r.orders in
    (record r { list_snapshot = map entry_of targets }, targets)

-- `CurrentTargets`
unfoldable pub current_targets : Registry → List Target
current_targets r = sorted_targets r.targets r.orders

-- `AgentPaneIDs`
unfoldable pub agent_pane_ids : Registry → List Text
agent_pane_ids r = map (λ t. t.pane_id) (sorted_targets r.targets r.orders)

-- A target with this occupant.
abbrev pub found : Text → Option Target → Option Target
found key none = none
found key (some t) = if t.occupant_key == key then some t else none

-- `ResolveTarget`
unfoldable pub resolve_target : Registry → Text → Text → Result Error Target
resolve_target r pane key = elim (found key (lookup pane r.targets)) [
  | none ↦ err list_snapshot_expired
  | some t ↦ ok t
]

abbrev pub choose : Registry → Target → Registry
choose r t = record r {
  selected_key = t.occupant_key;
  selected_pane = t.pane_id;
  selection_invalid = false;
}

-- `SelectTarget`
unfoldable pub select_target : Registry → Text → Text → Registry × Result Error Target
select_target r pane key = elim (found key (lookup pane r.targets)) [
  | none ↦ (r, err list_snapshot_expired)
  | some t ↦ (choose r t, ok t)
]

-- `r.listSnapshot[index-1]`, for an index within the bounds that the caller tested.
abbrev pub entry_at : List ListEntry → ℤ → Option ListEntry
entry_at es (pos (suc i)) = get_elem? es i
entry_at es _ = none

-- `Select`
unfoldable pub select : Registry → ℤ → Registry × Result Error Target
unfolding select_target
select r index =
    let es = r.list_snapshot in
    if length es == 0
    then (r, err no_list_snapshot)
    else if int_lt index (pos 1) || int_lt (pos (length es)) index
    then (r, err (selection_index_out_of_range (length es)))
    else elim (entry_at es index) [
      | none ↦ (r, err list_snapshot_expired)
      | some e ↦ select_target r e.pane_id e.occupant_key
    ]

-- `ValidateSelected`
unfoldable pub validate_selected : Registry → Registry × Result Error Target
unfolding invalidate_selection
validate_selected r =
    if r.selection_invalid
    then (record r { selection_invalid = false }, err selection_invalid)
    else if r.selected_key == []
    then (r, err no_selection)
    else elim (found r.selected_key (lookup r.selected_pane r.targets)) [
      | none ↦ ((invalidate_selection r).0, err selection_invalid)
      | some t ↦ (r, ok t)
    ]

abbrev or_text : Text → Option Text → Text
or_text s none = s
or_text s (some t) = t

-- The target of `expected` with its new session.
abbrev pub rebound : (Identity → Text) → Target → AgentInfo → Text → Target
rebound digest t current agent = record t {
  occupant_key =
      occupant_key digest current.terminal_id agent (string_value current.display_agent)
        current.agent_session;
  display_agent = or_text t.display_agent current.display_agent;
  title = or_text t.title current.title;
  status = current.agent_status;
}

abbrev pub renamed : Text → Text → Text → ListEntry → ListEntry
renamed pane old new e =
    if e.pane_id == pane && e.occupant_key == old then record e { occupant_key = new } else e

-- The writes of `RebindSelected`.
unfoldable pub write_rebound : Registry → Target → Target → Registry
write_rebound r old t = record r {
  targets = insert t.pane_id t r.targets;
  selected_key = t.occupant_key;
  list_snapshot = map (renamed t.pane_id old.occupant_key t.occupant_key) r.list_snapshot;
}

abbrev pub has_session : Option AgentSession → Bool
has_session none = false
has_session (some s) = true

-- `RebindSelected`
unfoldable pub rebind_selected :
    (Identity → Text) → Registry → Target → AgentInfo → Registry × Result Error Target
unfolding write_rebound
rebind_selected digest r expected current = elim current.agent [
  | none ↦ (r, err selection_invalid)
  | some agent ↦
      if not (has_session current.agent_session)
        || not (expected.pane_id == current.pane_id)
        || not (expected.terminal_id == current.terminal_id)
        || not (expected.agent == agent)
      then (r, err selection_invalid)
      else if r.selection_invalid
          || not (r.selected_pane == expected.pane_id)
          || not (r.selected_key == expected.occupant_key)
      then (r, err selection_invalid)
      else elim (found expected.occupant_key (lookup expected.pane_id r.targets)) [
        | none ↦ (r, err selection_invalid)
        | some t ↦ (
          write_rebound r t (rebound digest t current agent),
          ok (rebound digest t current agent),
        )
      ]
]

abbrev pub is_agent : Text → Option Text → Bool
is_agent agent none = false
is_agent agent (some a) = a == agent

-- `ApplyStatus`
unfoldable pub apply_status : Registry → AgentStatusEvent → Registry × Result Error Transition
apply_status r event = elim (lookup event.pane_id r.targets) [
  | none ↦ (r, err (unknown_pane event.pane_id))
  | some t ↦ if not (is_agent t.agent event.agent) then (r, err stale_agent_event) else (
    record r {
      targets = insert event.pane_id (record t { status = event.agent_status }) r.targets;
    },
    ok (record {
      target = record t { status = event.agent_status };
      previous = t.status;
      current = event.agent_status;
    }),
  )
]

-- `MatchesAgent`
unfoldable pub matches_agent : (Identity → Text) → Target → AgentInfo → Bool
matches_agent digest t current = elim current.agent [
  | none ↦ false
  | some agent ↦
      t.pane_id == current.pane_id
      && t.terminal_id == current.terminal_id
      && t.agent == agent
      && t.occupant_key
        == occupant_key digest current.terminal_id agent (string_value current.display_agent)
            current.agent_session
]

-- `ClearSelection`
unfoldable pub clear_selection : Registry → Registry
clear_selection r = record r {
  selected_key = [];
  selected_pane = [];
  selection_invalid = false;
  list_snapshot = [];
}
