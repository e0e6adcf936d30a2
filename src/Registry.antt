-- ===== src/Registry.antt =====
-- internal/session/registry.go, with the fields that it reads of the types in internal/herdr/types.go:
-- the agents of a client, read from a snapshot of its panes. SHA-256 over JSON is an argument `digest`.
pub mod Operations
pub mod Keyed
pub mod Rebinding
pub mod Sound
pub mod Listing
pub mod Replacing
mod Examples
use herdr_pal.Prelude.{
  ℕ, List, [], ◌∷◌, map, Bool, true, false, not, Option, none, some, ◌==◌, if◌then◌else◌, Eq,
}
use herdr_pal.Prelude.Int.{ℤ, pos, int_eq, int_lt}
use herdr_pal.Prelude.Maps.{Map, lookup, insert}
use herdr_pal.Prelude.Sort.{sort}
use herdr_pal.Prelude.Text.{Text, text_eq, text_lt}

pub record AgentSession : Type 0 where
  pub source : Text
  pub kind : Text
  pub value : Text

pub record AgentInfo : Type 0 where
  pub pane_id : Text
  pub terminal_id : Text
  pub agent : Option Text
  pub title : Option Text
  pub display_agent : Option Text
  pub agent_status : Text
  pub agent_session : Option AgentSession

pub record AgentStatusEvent : Type 0 where
  pub pane_id : Text
  pub agent : Option Text
  pub agent_status : Text

pub record Workspace : Type 0 where
  pub workspace_id : Text
  pub number : ℤ
  pub label : Text

pub record Tab : Type 0 where
  pub tab_id : Text
  pub number : ℤ
  pub label : Text

pub record Pane : Type 0 where
  pub pane_id : Text
  pub terminal_id : Text
  pub workspace_id : Text
  pub tab_id : Text
  pub agent : Option Text
  pub title : Option Text
  pub display_agent : Option Text
  pub agent_status : Text
  pub agent_session : Option AgentSession
  pub columns : ℤ
  pub rows : ℤ

pub record Snapshot : Type 0 where
  pub workspaces : List Workspace
  pub tabs : List Tab
  pub panes : List Pane

-- `Target`
pub record Target : Type 0 where
  pub pane_id : Text
  pub terminal_id : Text
  pub occupant_key : Text
  pub agent : Text
  pub display_agent : Text
  pub title : Text
  pub status : Text
  pub workspace : Text
  pub tab : Text
  pub columns : ℤ
  pub rows : ℤ

-- `targetOrder`
pub record TargetOrder : Type 0 where
  pub workspace_number : ℤ
  pub tab_number : ℤ

-- The struct that `occupantKey` encodes.
pub record Identity : Type 0 where
  pub terminal_id : Text
  pub agent : Text
  pub display_agent : Text
  pub session : Option AgentSession

-- `occupantKey`: the display name counts only where there is no session.
unfoldable pub occupant_key : (Identity → Text) → Text → Text → Text → Option AgentSession → Text
occupant_key digest terminal_id agent display_agent none = digest (record {
  terminal_id = terminal_id;
  agent = agent;
  display_agent = display_agent;
  session = none;
})
occupant_key digest terminal_id agent display_agent (some s) =
    digest
      (record { terminal_id = terminal_id; agent = agent; display_agent = []; session = some s })

-- `labelOrID`
unfoldable pub label_or_id : Text → Text → Text
label_or_id label id = if not (label == []) then label else id

-- `stringValue`
unfoldable pub string_value : Option Text → Text
string_value none = []
string_value (some s) = s

-- `workspaces` and `tabs` of `targetsFromSnapshot`
abbrev workspaces_by_id : Map Text Workspace → List Workspace → Map Text Workspace
workspaces_by_id m [] = m
workspaces_by_id m (w ∷ ws) = workspaces_by_id (insert w.workspace_id w m) ws

abbrev tabs_by_id : Map Text Tab → List Tab → Map Text Tab
tabs_by_id m [] = m
tabs_by_id m (t ∷ ts) = tabs_by_id (insert t.tab_id t m) ts

abbrev or_workspace : Option Workspace → Workspace
or_workspace none = record { workspace_id = []; number = pos 0; label = [] }
or_workspace (some w) = w

abbrev or_tab : Option Tab → Tab
or_tab none = record { tab_id = []; number = pos 0; label = [] }
or_tab (some t) = t

-- The target of a pane with an agent.
abbrev pub target_of : (Identity → Text) → Workspace → Tab → Pane → Text → Target
target_of digest w t p agent = record {
  pane_id = p.pane_id;
  terminal_id = p.terminal_id;
  occupant_key =
      occupant_key digest p.terminal_id agent (string_value p.display_agent) p.agent_session;
  agent = agent;
  display_agent = string_value p.display_agent;
  title = string_value p.title;
  status = p.agent_status;
  workspace = label_or_id w.label p.workspace_id;
  tab = label_or_id t.label p.tab_id;
  columns = p.columns;
  rows = p.rows;
}

abbrev pub Targets : Type 0
Targets = Map Text Target

abbrev pub Orders : Type 0
Orders = Map Text TargetOrder

-- One round of the loop of `targetsFromSnapshot`.
unfoldable pub add_pane :
    (Identity → Text)
    → Map Text Workspace
    → Map Text Tab
    → Pane
    → Option Text
    → Targets × Orders
    → Targets × Orders
add_pane digest workspaces tabs p none r = r
add_pane digest workspaces tabs p (some agent) r =
    let w = or_workspace (lookup p.workspace_id workspaces) in
    let t = or_tab (lookup p.tab_id tabs) in
    (
      insert p.pane_id (target_of digest w t p agent) r.0,
      insert p.pane_id (record { workspace_number = w.number; tab_number = t.number }) r.1,
    )

unfoldable pub add_panes :
    (Identity → Text)
    → Map Text Workspace
    → Map Text Tab
    → List Pane
    → Targets × Orders
    → Targets × Orders
unfolding add_pane
add_panes digest workspaces tabs [] r = r
add_panes digest workspaces tabs (p ∷ ps) r =
    add_panes digest workspaces tabs ps (add_pane digest workspaces tabs p p.agent r)

-- `targetsFromSnapshot`
unfoldable pub targets_from_snapshot : (Identity → Text) → Snapshot → Targets × Orders
unfolding add_panes
targets_from_snapshot digest s =
    add_panes digest (workspaces_by_id [] s.workspaces) (tabs_by_id [] s.tabs) s.panes ([], [])

abbrev or_order : Option TargetOrder → TargetOrder
or_order none = record { workspace_number = pos 0; tab_number = pos 0 }
or_order (some o) = o

abbrev order_of : Orders → Target → TargetOrder
order_of orders t = or_order (lookup t.pane_id orders)

-- The comparison of `sortTargetsByOrder`.
unfoldable pub target_less : Orders → Target → Target → Bool
target_less orders a b =
    if not ((order_of orders a).workspace_number == (order_of orders b).workspace_number)
    then int_lt (order_of orders a).workspace_number (order_of orders b).workspace_number
    else if not ((order_of orders a).tab_number == (order_of orders b).tab_number)
    then int_lt (order_of orders a).tab_number (order_of orders b).tab_number
    else text_lt a.pane_id b.pane_id

-- `sortTargetsByOrder`
abbrev pub sort_targets_by_order : Orders → List Target → List Target
sort_targets_by_order orders = sort (target_less orders)

abbrev pub values : Targets → List Target
values = map (λ e. e.1)

-- `sortedTargets`
abbrev pub sorted_targets : Targets → Orders → List Target
sorted_targets targets orders = sort_targets_by_order orders (values targets)
