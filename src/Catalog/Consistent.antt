-- ===== src/Catalog/Consistent.antt =====
-- The three maps of `SessionCatalog` that speak of connections agree, whatever is called.
use herdr_pal.Prelude.{◌≡◌, ◌<◌, refl, [], Option, none, some, arith, inl, inr, Option-cases}
use herdr_pal.Prelude.Maps.{lookup, insert, lookup-insert, lookup-delete}
use herdr_pal.Prelude.Text.{Text, text_eq}
use herdr_pal.Hprp.Validate.{validate_session_snapshot}
use herdr_pal.Hprp.{SessionSnapshot}
use herdr_pal.Catalog.{ClientKey, MachineState, SessionCatalog, client_key_eq, new_session_catalog}
use herdr_pal.Catalog.Connections.{attach, detach, apply_snapshot, replace_snapshot}

-- The connection that a machine belongs to.
abbrev pub owner : Option MachineState → Option Text
owner none = none
owner (some m) = some m.connection_id

-- `connections` and `by_key` are inverse to one another, and each connection has one machine.
pub record IsConnected (c : SessionCatalog) : Type 0 where
  pub to_key :
      (id : Text) (k : ClientKey) → lookup id c.connections ≡ some k → lookup k c.by_key ≡ some id
  pub to_connection :
      (k : ClientKey) (id : Text) → lookup k c.by_key ≡ some id → lookup id c.connections ≡ some k
  pub machine : (k : ClientKey) → owner (lookup k c.machines) ≡ lookup k c.by_key

pub new-IsConnected : IsConnected new_session_catalog
unfolding new_session_catalog lookup
new-IsConnected = record {
  to_key = λ id k h. cc;
  to_connection = λ k id h. cc;
  machine = λ k. refl;
}

module _ (c : SessionCatalog) (id : Text) (key : ClientKey) (h : IsConnected c) where
  pub attach-IsConnected : IsConnected (attach c id key).0
  unfolding attach
  attach-IsConnected = record {
    to_key = λ i k e. ground (
      arith,
      h.to_key i k,
      lookup-insert id i key c.connections,
      lookup-insert key k id c.by_key,
    );
    to_connection = λ k i e. ground (
      arith,
      h.to_connection k i,
      lookup-insert id i key c.connections,
      lookup-insert key k id c.by_key,
    );
    machine = λ k. ground (
      arith,
      h.machine k,
      lookup-insert key k id c.by_key,
      lookup-insert key k (record { connection_id = id; sequence = 0; sessions = [] }) c.machines,
    );
  }

module _ (c : SessionCatalog) (id : Text) (h : IsConnected c) where
  module _ (key : ClientKey) (e : lookup id c.connections ≡ some key) where
    detach_some-IsConnected : IsConnected (detach c id).0
    unfolding detach
    detach_some-IsConnected = record {
      to_key = λ i k f. ground (
        arith,
        h.to_key i k,
        h.to_key id key e,
        lookup-delete id i c.connections,
        lookup-delete key k c.by_key,
      );
      to_connection = λ k i f. ground (
        arith,
        h.to_connection k i,
        h.to_key id key e,
        lookup-delete id i c.connections,
        lookup-delete key k c.by_key,
      );
      machine = λ k. ground (
        arith,
        h.machine k,
        h.machine key,
        h.to_key id key e,
        lookup-delete key k c.by_key,
        lookup-delete key k c.machines,
      );
    }

  pub detach-IsConnected : IsConnected (detach c id).0
  unfolding detach
  detach-IsConnected = elim (Option-cases (lookup id c.connections)) [
    | inl e ↦ rw (e, detach) h
    | inr (key, e) ↦ detach_some-IsConnected key e
  ]

-- What `replace_snapshot` leaves alone, and what it writes.
module _ (c : SessionCatalog) (key : ClientKey) (current : MachineState) (s : SessionSnapshot) where
  pub connections-replace_snapshot : (replace_snapshot c key current s).connections ≡ c.connections
  unfolding replace_snapshot
  connections-replace_snapshot = ground arith

  pub by_key-replace_snapshot : (replace_snapshot c key current s).by_key ≡ c.by_key
  unfolding replace_snapshot
  by_key-replace_snapshot = ground arith

  pub machines-replace_snapshot :
      (replace_snapshot c key current s).machines
      ≡ insert key
          (record {
            connection_id = current.connection_id;
            sequence = s.sequence;
            sessions = s.sessions;
          })
          c.machines
  unfolding replace_snapshot
  machines-replace_snapshot = ground arith

-- A snapshot is refused, is the current one, or replaces one with a lower sequence.
pub apply_snapshot_cases {ℓ} :
    (P : SessionCatalog → Type ℓ) (c : SessionCatalog) (id : Text) (s : SessionSnapshot)
    → P c
    → ((key : ClientKey) (current : MachineState)
        → lookup id c.connections ≡ some key
        → lookup key c.machines ≡ some current
        → current.connection_id ≡ id
        → validate_session_snapshot s ≡ none
        → current.sequence < s.sequence
        → P (replace_snapshot c key current s))
    → P (apply_snapshot c id s).0
unfolding apply_snapshot
apply_snapshot_cases P c id s same replaced = elim (Option-cases (validate_session_snapshot s)) [
  | inr (x, v) ↦ rw (v, apply_snapshot) same
  | inl v ↦ elim (Option-cases (lookup id c.connections)) [
    | inl k ↦ rw (v, k, apply_snapshot) same
    | inr (key, k) ↦ elim (Option-cases (lookup key c.machines)) [
      | inl m ↦ rw (v, k, m, apply_snapshot) same
      | inr (current, m) ↦ ground (arith, v, k, m, replaced key current k m)
    ]
  ]
]

module _ (c : SessionCatalog) (id : Text) (s : SessionSnapshot) (h : IsConnected c) where
  replace_snapshot-IsConnected :
      (key : ClientKey) (current : MachineState)
      → lookup key c.machines ≡ some current
      → IsConnected (replace_snapshot c key current s)
  replace_snapshot-IsConnected key current m = record {
    to_key = λ i k e. ground (
      arith,
      h.to_key i k,
      connections-replace_snapshot c key current s,
      by_key-replace_snapshot c key current s,
    );
    to_connection = λ k i e. ground (
      arith,
      h.to_connection k i,
      connections-replace_snapshot c key current s,
      by_key-replace_snapshot c key current s,
    );
    machine = λ k. ground (
      arith,
      h.machine k,
      by_key-replace_snapshot c key current s,
      machines-replace_snapshot c key current s,
      lookup-insert key k
          (record {
            connection_id = current.connection_id;
            sequence = s.sequence;
            sessions = s.sessions;
          })
          c.machines,
    );
  }

  pub apply_snapshot-IsConnected : IsConnected (apply_snapshot c id s).0
  apply_snapshot-IsConnected =
      apply_snapshot_cases IsConnected c id s h
        λ key current k m o v lt. replace_snapshot-IsConnected key current m
