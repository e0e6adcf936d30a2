-- ===== src/Registry/Examples.antt =====
-- Tests of the registry, and its theorems on a snapshot with one agent.
use herdr_pal.Prelude.{
  ◌≡◌, ◌≢◌, ◌++◌, refl, List, [], ◌∷◌, true, false, Option, none, some, ok, get_elem?, ==_apart,
  ℕ_discrete,
}
use herdr_pal.Prelude.Int.{pos, ℤ-discrete}
use herdr_pal.Prelude.Maps.{lookup, insert}
use herdr_pal.Prelude.Sort.{sort}
use herdr_pal.Prelude.Text.{Text, text_eq, Text-discrete, text_lt, codes}
use herdr_pal.Registry.{
  Target, Snapshot, Pane, Identity, AgentInfo, AgentSession, targets_from_snapshot, add_panes,
  add_pane, occupant_key, string_value, label_or_id, target_less,
}
use herdr_pal.Registry.Operations.{
  Registry, empty_registry, entry_of, replace, check_selection, compare_targets,
  invalidate_selection, preserve_statuses, create_list_snapshot, select, select_target,
  validate_selected, rebind_selected, write_rebound, apply_status,
}
use herdr_pal.Registry.Sound.{
  IsSound, Call, replaces, lists, chooses_number, run, step, registry-IsSound,
}
use herdr_pal.Registry.Listing.{select-create_list_snapshot}
use herdr_pal.Registry.Replacing.{Settles, replace-Settles, replace_preserves}

abbrev session_text : Option AgentSession → Text
session_text none = []
session_text (some s) = s.value

-- A digest that keeps what it reads.
abbrev plain : Identity → Text
plain i = i.terminal_id ++ b'/' ∷ i.agent ++ b'/' ∷ i.display_agent ++ b'/' ∷ session_text i.session

abbrev session_at : Text → AgentSession
session_at v = record { source = codes "cli"; kind = codes "id"; value = v }

abbrev pane_with : Text → Text → Pane
pane_with session status = record {
  pane_id = codes "p1";
  terminal_id = codes "t1";
  workspace_id = codes "w";
  tab_id = codes "b";
  agent = some (codes "claude");
  title = none;
  display_agent = none;
  agent_status = status;
  agent_session = some (session_at session);
  columns = pos 80;
  rows = pos 24;
}

abbrev snapshot_with : Text → Text → Snapshot
snapshot_with session status = record {
  workspaces = [];
  tabs = [];
  panes = pane_with session status ∷ [];
}

abbrev target_with : Text → Text → Target
target_with session status = record {
  pane_id = codes "p1";
  terminal_id = codes "t1";
  occupant_key = codes "t1/claude//" ++ session;
  agent = codes "claude";
  display_agent = [];
  title = [];
  status = status;
  workspace = codes "w";
  tab = codes "b";
  columns = pos 80;
  rows = pos 24;
}

abbrev idle : Text
idle = codes "idle"

abbrev busy : Text
busy = codes "busy"

abbrev one : Text
one = codes "one"

abbrev two : Text
two = codes "two"

abbrev reading : List Call
reading = replaces (snapshot_with one idle) false false ∷ []

abbrev choosing : List Call
choosing = replaces (snapshot_with one idle) false false ∷ lists ∷ chooses_number (pos 1) ∷ []

abbrev read : Registry
read = run plain empty_registry reading

abbrev chosen : Registry
chosen = run plain empty_registry choosing

registry-IsSound_example : IsSound (run plain empty_registry choosing)
registry-IsSound_example = registry-IsSound plain choosing

listed : get_elem? (create_list_snapshot read).1 0 ≡ some (target_with one idle)
unfolding run step replace check_selection compare_targets invalidate_selection
    targets_from_snapshot add_panes add_pane occupant_key string_value label_or_id preserve_statuses
    create_list_snapshot select select_target validate_selected rebind_selected write_rebound
    apply_status lookup insert sort target_less text_lt Text-discrete ℤ-discrete ℕ_discrete
listed = refl

key_filled : (target_with one idle).occupant_key ≢ []
unfolding run step replace check_selection compare_targets invalidate_selection
    targets_from_snapshot add_panes add_pane occupant_key string_value label_or_id preserve_statuses
    create_list_snapshot select select_target validate_selected rebind_selected write_rebound
    apply_status lookup insert sort target_less text_lt Text-discrete ℤ-discrete ℕ_discrete
key_filled = ==_apart (target_with one idle).occupant_key [] refl

select-create_list_snapshot_example :
    ((select (create_list_snapshot read).0 (pos 1)).1 ≡ ok (target_with one idle))
    × (validate_selected (select (create_list_snapshot read).0 (pos 1)).0
        ≡ ((select (create_list_snapshot read).0 (pos 1)).0, ok (target_with one idle)))
select-create_list_snapshot_example =
    select-create_list_snapshot read 0 (target_with one idle) (registry-IsSound plain reading)
      listed key_filled

chosen_key : chosen.selected_key ≢ []
unfolding run step replace check_selection compare_targets invalidate_selection
    targets_from_snapshot add_panes add_pane occupant_key string_value label_or_id preserve_statuses
    create_list_snapshot select select_target validate_selected rebind_selected write_rebound
    apply_status lookup insert sort target_less text_lt Text-discrete ℤ-discrete ℕ_discrete
chosen_key = ==_apart chosen.selected_key [] refl

replaced_pane :
    (replace plain chosen (snapshot_with two busy) false false).1.selection_invalidated ≡ true
unfolding run step replace check_selection compare_targets invalidate_selection
    targets_from_snapshot add_panes add_pane occupant_key string_value label_or_id preserve_statuses
    create_list_snapshot select select_target validate_selected rebind_selected write_rebound
    apply_status lookup insert sort target_less text_lt Text-discrete ℤ-discrete ℕ_discrete
replaced_pane = refl

replace-Settles_example : Settles chosen.selected_pane chosen.selected_key (
  (replace plain chosen (snapshot_with two busy) false false).0,
  (replace plain chosen (snapshot_with two busy) false false).1.selection_invalidated,
)
replace-Settles_example =
    replace-Settles plain chosen (snapshot_with two busy) false (registry-IsSound plain choosing)
      chosen_key

there : lookup (codes "p1") chosen.targets ≡ some (target_with one idle)
unfolding run step replace check_selection compare_targets invalidate_selection
    targets_from_snapshot add_panes add_pane occupant_key string_value label_or_id preserve_statuses
    create_list_snapshot select select_target validate_selected rebind_selected write_rebound
    apply_status lookup insert sort target_less text_lt Text-discrete ℤ-discrete ℕ_discrete
there = refl

still_there :
    lookup (codes "p1") (replace plain chosen (snapshot_with one busy) false true).0.targets
    ≡ some (target_with one idle)
unfolding run step replace check_selection compare_targets invalidate_selection
    targets_from_snapshot add_panes add_pane occupant_key string_value label_or_id preserve_statuses
    create_list_snapshot select select_target validate_selected rebind_selected write_rebound
    apply_status lookup insert sort target_less text_lt Text-discrete ℤ-discrete ℕ_discrete
still_there = refl

replace_preserves_example : (target_with one idle).status ≡ (target_with one idle).status
replace_preserves_example =
    replace_preserves plain chosen (snapshot_with one busy) (codes "p1") (target_with one idle)
      (target_with one idle) there still_there refl

abbrev next_session : AgentInfo
next_session = record {
  pane_id = codes "p1";
  terminal_id = codes "t1";
  agent = some (codes "claude");
  title = none;
  display_agent = none;
  agent_status = busy;
  agent_session = some (session_at two);
}

rebinds_to :
    (rebind_selected plain chosen (target_with one idle) next_session).1 ≡ ok (target_with two busy)
unfolding run step replace check_selection compare_targets invalidate_selection
    targets_from_snapshot add_panes add_pane occupant_key string_value label_or_id preserve_statuses
    create_list_snapshot select select_target validate_selected rebind_selected write_rebound
    apply_status lookup insert sort target_less text_lt Text-discrete ℤ-discrete ℕ_discrete
rebinds_to = refl

new_key_filled : (target_with two busy).occupant_key ≢ []
unfolding run step replace check_selection compare_targets invalidate_selection
    targets_from_snapshot add_panes add_pane occupant_key string_value label_or_id preserve_statuses
    create_list_snapshot select select_target validate_selected rebind_selected write_rebound
    apply_status lookup insert sort target_less text_lt Text-discrete ℤ-discrete ℕ_discrete
new_key_filled = ==_apart (target_with two busy).occupant_key [] refl

numbered : get_elem? chosen.list_snapshot 0 ≡ some (entry_of (target_with one idle))
unfolding run step replace check_selection compare_targets invalidate_selection
    targets_from_snapshot add_panes add_pane occupant_key string_value label_or_id preserve_statuses
    create_list_snapshot select select_target validate_selected rebind_selected write_rebound
    apply_status lookup insert sort target_less text_lt Text-discrete ℤ-discrete ℕ_discrete
numbered = refl
