-- ===== src/Catalog/Examples.antt =====
-- Tests of the catalog, and its theorems on a concrete history.
use herdr_pal.Prelude.{
  ℕ, ◌≡◌, ◌≢◌, refl, List, [], ◌∷◌, none, some, ok, ==_apart, some_apart, get_elem?, ℕ_discrete,
}
use herdr_pal.Prelude.Int.{pos}
use herdr_pal.Prelude.Maps.{lookup, insert, delete}
use herdr_pal.Prelude.Sort.{sort}
use herdr_pal.Prelude.Text.{
  Text, Text-discrete, text_eq, codes, trim_space, trim_left, byte_len, rune_len,
}
use herdr_pal.Hprp.{Target, Session, SessionSnapshot, Target-discrete}
use herdr_pal.Hprp.Validate.{
  validate_machine_id, validate_session_snapshot, validate_sessions, valid_session,
}
use herdr_pal.Catalog.{
  ClientKey, client_key_eq, ClientKey-discrete, MachineState, SessionCatalog, CatalogEntry,
  find_entry, find_session, entries, collect_entries, routing_of, new_session_catalog, client_key,
}
use herdr_pal.Catalog.Connections.{
  attach, apply_snapshot, detach, register_connection, replace_snapshot,
}
use herdr_pal.Catalog.Calls.{Call, attaches, applies, detaches, selects, step, run}
use herdr_pal.Catalog.Isolation.{Sees, user_of, step-Sees}
use herdr_pal.Catalog.Numbering.{resolve_numbered-create_numbered_snapshot}
use herdr_pal.Catalog.Promises.{Advances, step-Advances, attach-detach}
use herdr_pal.Catalog.Reach.{IsSound, run-IsSound}
use herdr_pal.Catalog.Routing.{
  create_numbered_snapshot, resolve_numbered, selected, set_selection, select_only,
}

abbrev ann : Text
ann = codes "ann"

abbrev bob : Text
bob = codes "bob"

abbrev laptop : Text
laptop = codes "laptop"

abbrev first_id : Text
first_id = codes "c1"

abbrev ann_laptop : ClientKey
ann_laptop = client_key ann laptop

abbrev first_session : Session
first_session = record {
  slot_id = codes "s1";
  session_id = codes "a";
  display = record {
    index = pos 1;
    agent = [];
    display_agent = [];
    workspace = [];
    tab = [];
    title = [];
  };
  status = codes "idle";
}

abbrev first_target : Target
first_target = record { machine_id = laptop; slot_id = codes "s1"; session_id = codes "a" }

abbrev first_entry : CatalogEntry
first_entry = record { ref = first_target; session = first_session }

abbrev snapshot_at : ℕ → SessionSnapshot
snapshot_at n = record { sequence = n; sessions = first_session ∷ [] }

abbrev history : List Call
history =
    attaches first_id ann_laptop ∷ applies first_id (snapshot_at 1) ∷ selects ann first_target ∷ []

abbrev shown : SessionCatalog
shown = run new_session_catalog history

run-IsSound_example : IsSound (run new_session_catalog history)
run-IsSound_example = run-IsSound history

shown_entry : find_entry shown ann first_target ≡ some first_entry
unfolding run step attach apply_snapshot detach register_connection replace_snapshot set_selection
    selected select_only find_entry find_session lookup insert delete validate_machine_id
    validate_session_snapshot validate_sessions valid_session new_session_catalog
    create_numbered_snapshot resolve_numbered entries collect_entries sort ℕ_discrete
    ClientKey-discrete Target-discrete Text-discrete trim_space trim_left byte_len rune_len
shown_entry = refl

shown_selection : (routing_of shown ann).selected ≡ some first_target
unfolding run step attach apply_snapshot detach register_connection replace_snapshot set_selection
    selected select_only find_entry find_session lookup insert delete validate_machine_id
    validate_session_snapshot validate_sessions valid_session new_session_catalog
    create_numbered_snapshot resolve_numbered entries collect_entries sort ℕ_discrete
    ClientKey-discrete Target-discrete Text-discrete trim_space trim_left byte_len rune_len
shown_selection = refl

ann_not_bob : ann ≢ bob
unfolding run step attach apply_snapshot detach register_connection replace_snapshot set_selection
    selected select_only find_entry find_session lookup insert delete validate_machine_id
    validate_session_snapshot validate_sessions valid_session new_session_catalog
    create_numbered_snapshot resolve_numbered entries collect_entries sort ℕ_discrete
    ClientKey-discrete Target-discrete Text-discrete trim_space trim_left byte_len rune_len
ann_not_bob = ==_apart ann bob refl

detach_user : user_of shown (detaches first_id) ≡ some ann
unfolding run step attach apply_snapshot detach register_connection replace_snapshot set_selection
    selected select_only find_entry find_session lookup insert delete validate_machine_id
    validate_session_snapshot validate_sessions valid_session new_session_catalog
    create_numbered_snapshot resolve_numbered entries collect_entries sort ℕ_discrete
    ClientKey-discrete Target-discrete Text-discrete trim_space trim_left byte_len rune_len
detach_user = refl

step-Sees_example : Sees bob shown (step shown (detaches first_id))
step-Sees_example =
    step-Sees shown (detaches first_id) bob (some_apart ann bob _ detach_user ann_not_bob)

abbrev machine_at : ℕ → MachineState
machine_at n = record { connection_id = first_id; sequence = n; sessions = first_session ∷ [] }

before : lookup ann_laptop shown.machines ≡ some (machine_at 1)
unfolding run step attach apply_snapshot detach register_connection replace_snapshot set_selection
    selected select_only find_entry find_session lookup insert delete validate_machine_id
    validate_session_snapshot validate_sessions valid_session new_session_catalog
    create_numbered_snapshot resolve_numbered entries collect_entries sort ℕ_discrete
    ClientKey-discrete Target-discrete Text-discrete trim_space trim_left byte_len rune_len
before = refl

after :
    lookup ann_laptop (step shown (applies first_id (snapshot_at 2))).machines ≡ some (machine_at 2)
unfolding run step attach apply_snapshot detach register_connection replace_snapshot set_selection
    selected select_only find_entry find_session lookup insert delete validate_machine_id
    validate_session_snapshot validate_sessions valid_session new_session_catalog
    create_numbered_snapshot resolve_numbered entries collect_entries sort ℕ_discrete
    ClientKey-discrete Target-discrete Text-discrete trim_space trim_left byte_len rune_len
after = refl

step-Advances_example : Advances (machine_at 1) (machine_at 2)
step-Advances_example =
    step-Advances shown (applies first_id (snapshot_at 2)) ann_laptop (run-IsSound history)
      (machine_at 1) (machine_at 2) before after

listed : get_elem? (create_numbered_snapshot shown ann).1 0 ≡ some first_entry
unfolding run step attach apply_snapshot detach register_connection replace_snapshot set_selection
    selected select_only find_entry find_session lookup insert delete validate_machine_id
    validate_session_snapshot validate_sessions valid_session new_session_catalog
    create_numbered_snapshot resolve_numbered entries collect_entries sort ℕ_discrete
    ClientKey-discrete Target-discrete Text-discrete trim_space trim_left byte_len rune_len
listed = refl

resolve_numbered-create_numbered_snapshot_example :
    resolve_numbered (create_numbered_snapshot shown ann).0 ann (pos 1) ≡ ok first_entry
resolve_numbered-create_numbered_snapshot_example =
    resolve_numbered-create_numbered_snapshot shown ann (run-IsSound history) 0 first_entry listed

abbrev numbered : SessionCatalog
numbered = (create_numbered_snapshot shown ann).0

selected_first : (selected shown ann).1 ≡ ok first_entry
unfolding run step attach apply_snapshot detach register_connection replace_snapshot set_selection
    selected select_only find_entry find_session lookup insert delete validate_machine_id
    validate_session_snapshot validate_sessions valid_session new_session_catalog
    create_numbered_snapshot resolve_numbered entries collect_entries sort ℕ_discrete
    ClientKey-discrete Target-discrete Text-discrete trim_space trim_left byte_len rune_len
selected_first = refl

abbrev next_id : Text
next_id = codes "c2"

attached : lookup first_id shown.connections ≡ some ann_laptop
unfolding run step attach apply_snapshot detach register_connection replace_snapshot set_selection
    selected select_only find_entry find_session lookup insert delete validate_machine_id
    validate_session_snapshot validate_sessions valid_session new_session_catalog
    create_numbered_snapshot resolve_numbered entries collect_entries sort ℕ_discrete
    ClientKey-discrete Target-discrete Text-discrete trim_space trim_left byte_len rune_len
attached = refl

next_free : lookup next_id (detach shown first_id).0.connections ≡ none
unfolding run step attach apply_snapshot detach register_connection replace_snapshot set_selection
    selected select_only find_entry find_session lookup insert delete validate_machine_id
    validate_session_snapshot validate_sessions valid_session new_session_catalog
    create_numbered_snapshot resolve_numbered entries collect_entries sort ℕ_discrete
    ClientKey-discrete Target-discrete Text-discrete trim_space trim_left byte_len rune_len
next_free = refl

next_not_blank : trim_space next_id ≢ []
unfolding run step attach apply_snapshot detach register_connection replace_snapshot set_selection
    selected select_only find_entry find_session lookup insert delete validate_machine_id
    validate_session_snapshot validate_sessions valid_session new_session_catalog
    create_numbered_snapshot resolve_numbered entries collect_entries sort ℕ_discrete
    ClientKey-discrete Target-discrete Text-discrete trim_space trim_left byte_len rune_len
next_not_blank = ==_apart (trim_space next_id) [] refl

ann_not_blank : trim_space ann ≢ []
unfolding run step attach apply_snapshot detach register_connection replace_snapshot set_selection
    selected select_only find_entry find_session lookup insert delete validate_machine_id
    validate_session_snapshot validate_sessions valid_session new_session_catalog
    create_numbered_snapshot resolve_numbered entries collect_entries sort ℕ_discrete
    ClientKey-discrete Target-discrete Text-discrete trim_space trim_left byte_len rune_len
ann_not_blank = ==_apart (trim_space ann) [] refl

laptop_valid : validate_machine_id laptop ≡ none
unfolding run step attach apply_snapshot detach register_connection replace_snapshot set_selection
    selected select_only find_entry find_session lookup insert delete validate_machine_id
    validate_session_snapshot validate_sessions valid_session new_session_catalog
    create_numbered_snapshot resolve_numbered entries collect_entries sort ℕ_discrete
    ClientKey-discrete Target-discrete Text-discrete trim_space trim_left byte_len rune_len
laptop_valid = refl

attach-detach_example :
    (find_entry (detach shown first_id).0 ann first_target ≡ none)
    × ((attach (detach shown first_id).0 next_id ann_laptop).1 ≡ none)
attach-detach_example =
    attach-detach shown first_id next_id ann_laptop first_target (run-IsSound history) attached
      next_free next_not_blank ann_not_blank laptop_valid refl
