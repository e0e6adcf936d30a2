-- ===== src/Catalog/Indexed.antt =====
-- The directory holds one machine for a key and one session for a slot, whatever is called.
use herdr_pal.Prelude.{
  ◌≡◌, refl, inl, inr, ◌⊎◌, none, Distinct, arith, Option-cases, Bool-cases, ◌==◌,
}
use herdr_pal.Prelude.Maps.{
  lookup, insert, delete, All-insert, All-delete, insert-IsMap, delete-IsMap,
}
use herdr_pal.Prelude.Text.{Text, text_eq}
use herdr_pal.Hprp.Snapshots.{validate_session_snapshot_iff}
use herdr_pal.Hprp.Validate.{validate_session_snapshot}
use herdr_pal.Hprp.{Session, SessionSnapshot}
use herdr_pal.Catalog.{ClientKey, MachineState, SessionCatalog, client_key_eq, new_session_catalog}
use herdr_pal.Catalog.Connections.{attach, detach, register_connection, replace_snapshot}
use herdr_pal.Catalog.Consistent.{machines-replace_snapshot}
use herdr_pal.Catalog.Listing.{IsIndexed}

pub new-IsIndexed : IsIndexed new_session_catalog
unfolding new_session_catalog
new-IsIndexed = record { keys = tt; slots = tt }

abbrev HasSlots : ClientKey × MachineState → Type 0
HasSlots e = Distinct (λ (s : Session). s.slot_id) e.1.sessions

-- Whatever writes one machine, or removes one.
module _ (c d : SessionCatalog) (h : IsIndexed c) (key : ClientKey) where
  insert-IsIndexed :
      (m : MachineState) → d.machines ≡ insert key m c.machines → HasSlots (key, m) → IsIndexed d
  insert-IsIndexed m e slots = record {
    keys = rw e (insert-IsMap key m c.machines h.keys);
    slots = rw e (All-insert HasSlots key m c.machines slots h.slots);
  }

  delete-IsIndexed : d.machines ≡ delete key c.machines → IsIndexed d
  delete-IsIndexed e = record {
    keys = rw e (delete-IsMap key c.machines h.keys);
    slots = rw e (All-delete HasSlots key c.machines h.slots);
  }

-- `Attach` refuses, or registers a connection and a key that are both new.
pub attach_cases {ℓ} :
    (P : SessionCatalog → Type ℓ) (c : SessionCatalog) (id : Text) (key : ClientKey)
    → P c
    → (lookup id c.connections ≡ none
        → lookup key c.by_key ≡ none
        → P (register_connection c id key))
    → P (attach c id key).0
unfolding attach
attach_cases P c id key same new = ground arith

pub attach-IsIndexed :
    (c : SessionCatalog) (id : Text) (key : ClientKey) → IsIndexed c → IsIndexed (attach c id key).0
unfolding register_connection
attach-IsIndexed c id key h =
    attach_cases IsIndexed c id key h λ _ _. insert-IsIndexed c _ h key _ refl tt

machines-detach :
    (c : SessionCatalog) (id : Text)
    → ((detach c id).0.machines ≡ c.machines)
      ⊎ ((key : ClientKey) × ((detach c id).0.machines ≡ delete key c.machines))
unfolding detach
machines-detach c id = elim (Option-cases (lookup id c.connections)) [
  | inl e ↦ inl (ground (arith, e))
  | inr (key, e) ↦ elim (Option-cases (lookup key c.machines)) [
    | inl m ↦ inl (ground (arith, e, m))
    | inr (m, f) ↦ elim (Bool-cases (m.connection_id == id)) [
      | inl own ↦ inr (key, ground (arith, e, f, own))
      | inr other ↦ inl (ground (arith, e, f, other))
    ]
  ]
]

pub detach-IsIndexed : (c : SessionCatalog) (id : Text) → IsIndexed c → IsIndexed (detach c id).0
detach-IsIndexed c id h = elim (machines-detach c id) [
  | inl e ↦ record { keys = rw e h.keys; slots = rw e h.slots }
  | inr (key, e) ↦ delete-IsIndexed c _ h key e
]

pub replace_snapshot-IsIndexed :
    (c : SessionCatalog) (key : ClientKey) (current : MachineState) (s : SessionSnapshot)
    → validate_session_snapshot s ≡ none
    → IsIndexed c
    → IsIndexed (replace_snapshot c key current s)
replace_snapshot-IsIndexed c key current s v h =
    insert-IsIndexed c _ h key _ (machines-replace_snapshot c key current s)
      ((validate_session_snapshot_iff s).0 v).sessions.slots
