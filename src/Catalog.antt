-- ===== src/Catalog.antt =====
-- internal/server/catalog.go: the state of `SessionCatalog`, and the directory that it shows.
-- The operations that change it are in the children.
pub mod Connections
pub mod Routing
pub mod Consistent
pub mod Directory
pub mod Listing
pub mod Covering
pub mod Migration
pub mod Live
pub mod Refresh
pub mod Indexed
pub mod Calls
pub mod Selecting
pub mod Reach
pub mod Isolation
pub mod Numbering
pub mod Promises
mod Examples
use herdr_pal.Prelude.{
  ℕ, ◌+◌, List, [], ◌∷◌, ◌++◌, map, Bool, true, false, ◌&&◌, ◌||◌, not, Option, none, some, Eq,
  ◌==◌, nat_eq, if◌then◌else◌,
}
use herdr_pal.Prelude.Int.{ℤ, int_eq, int_lt}
use herdr_pal.Prelude.Maps.{Map, lookup, insert}
use herdr_pal.Prelude.Sort.{sort}
use herdr_pal.Prelude.Text.{Text, Text-discrete, text_eq, text_lt}
use herdr_pal.Hprp.Validate
use herdr_pal.Hprp.{Target, Session, OutputMode, target_eq}

pub data Error : Type 0 where
  duplicate_client unknown_connection snapshot_stale no_list_snapshot : Error
  target_changed no_selection : Error
  -- `ErrSelectionIndexOutOfRange` with the length that its message names.
  selection_index_out_of_range : ℕ → Error
  hprp_error : Validate.Error → Error

pub record ClientKey : Type 0 where
  pub user_id : Text
  pub machine_id : Text

unfoldable pub ClientKey-discrete : Discrete ClientKey
unfolding Text-discrete
ClientKey-discrete = hlevel Text-discrete

instance abbrev pub client_key_eq : Eq ClientKey
client_key_eq = record { dec = ClientKey-discrete }

pub record CatalogEntry : Type 0 where
  pub ref : Target
  pub session : Session

pub record MachineState : Type 0 where
  pub connection_id : Text
  pub sequence : ℕ
  pub sessions : List Session

pub record RoutingState : Type 0 where
  pub numbered : List Target
  pub numbered_valid : Bool
  pub selected : Option Target
  pub invalidated : Option Target
  pub output_modes : Map Target OutputMode

-- `updates` counts the calls of `signalUpdateLocked`: a waiter wakes when it grows.
pub record SessionCatalog : Type 0 where
  pub connections : Map Text ClientKey
  pub by_key : Map ClientKey Text
  pub machines : Map ClientKey MachineState
  pub routing : Map Text RoutingState
  pub updates : ℕ

-- `NewSessionCatalog`
unfoldable pub new_session_catalog : SessionCatalog
new_session_catalog = record {
  connections = [];
  by_key = [];
  machines = [];
  routing = [];
  updates = 0;
}

-- The zero value that a read of a missing key gives.
abbrev pub no_routing : RoutingState
no_routing = record {
  numbered = [];
  numbered_valid = false;
  selected = none;
  invalidated = none;
  output_modes = [];
}

abbrev pub or_no_routing : Option RoutingState → RoutingState
or_no_routing none = no_routing
or_no_routing (some r) = r

-- `catalog.routing[userID]`
abbrev pub routing_of : SessionCatalog → Text → RoutingState
routing_of c user_id = or_no_routing (lookup user_id c.routing)

abbrev pub set_routing : SessionCatalog → Text → RoutingState → SessionCatalog
set_routing c user_id r = record c { routing = insert user_id r c.routing }

-- `signalUpdateLocked`
abbrev pub signal_update : SessionCatalog → SessionCatalog
signal_update c = record c { updates = c.updates + 1 }

-- The loop of `findEntryLocked` over the sessions of one machine.
unfoldable pub find_session : Text → Text → Text → List Session → Option CatalogEntry
find_session machine_id slot_id session_id [] = none
find_session machine_id slot_id session_id (s ∷ rest) =
    if s.slot_id == slot_id && s.session_id == session_id
    then some (record {
      ref = record { machine_id = machine_id; slot_id = s.slot_id; session_id = s.session_id };
      session = s;
    })
    else find_session machine_id slot_id session_id rest

abbrev pub find_in : Target → Option MachineState → Option CatalogEntry
find_in t none = none
find_in t (some m) =
    if m.sequence == 0 then none else find_session t.machine_id t.slot_id t.session_id m.sessions

abbrev pub client_key : Text → Text → ClientKey
client_key user_id machine_id = record { user_id = user_id; machine_id = machine_id }

-- `findEntryLocked`
unfoldable pub find_entry : SessionCatalog → Text → Target → Option CatalogEntry
find_entry c user_id t = find_in t (lookup (client_key user_id t.machine_id) c.machines)

-- The comparison that `entriesLocked` sorts by.
unfoldable pub entry_less : CatalogEntry → CatalogEntry → Bool
entry_less a b =
    if not (a.ref.machine_id == b.ref.machine_id)
    then text_lt a.ref.machine_id b.ref.machine_id
    else if not (a.session.display.index == b.session.display.index)
    then int_lt a.session.display.index b.session.display.index
    else if not (a.ref.slot_id == b.ref.slot_id)
    then text_lt a.ref.slot_id b.ref.slot_id
    else text_lt a.ref.session_id b.ref.session_id

abbrev pub entry_of : Text → Session → CatalogEntry
entry_of machine_id s = record {
  ref = record { machine_id = machine_id; slot_id = s.slot_id; session_id = s.session_id };
  session = s;
}

-- The loop of `entriesLocked`.
unfoldable pub collect_entries : Text → Map ClientKey MachineState → List CatalogEntry
collect_entries user_id [] = []
collect_entries user_id ((k, m) ∷ rest) =
    let later = collect_entries user_id rest in
    if not (k.user_id == user_id) || m.sequence == 0
    then later
    else map (entry_of k.machine_id) m.sessions ++ later

-- `entriesLocked`
unfoldable pub entries : SessionCatalog → Text → List CatalogEntry
unfolding collect_entries
entries c user_id = sort entry_less (collect_entries user_id c.machines)

-- `HasMachine`
unfoldable pub has_machine : SessionCatalog → Text → Text → Bool
has_machine c user_id machine_id = elim (lookup (client_key user_id machine_id) c.machines) [
  | none ↦ false
  | some m ↦ true
]

-- The loop of `HasSessions`.
unfoldable pub any_sessions : Text → Map ClientKey MachineState → Bool
any_sessions user_id [] = false
any_sessions user_id ((k, m) ∷ rest) =
    (k.user_id == user_id && not (m.sequence == 0) && elim m.sessions [ [] ↦ false | _ ∷ _ ↦ true ])
    || any_sessions user_id rest

-- `HasSessions`
unfoldable pub has_sessions : SessionCatalog → Text → Bool
unfolding any_sessions
has_sessions c user_id = any_sessions user_id c.machines

-- `ResolveTarget`
unfoldable pub resolve_target : SessionCatalog → Text → Target → Option CatalogEntry
resolve_target c user_id t = find_entry c user_id t
