-- ===== src/Catalog/Migration.antt =====
-- internal/server/catalog.go: what `migrateOutputModesLocked` keeps of a user's output modes.
use herdr_pal.Prelude.{
  ◌≡◌, ◌≢◌, refl, inl, inr, ◌⊎◌, ◌∙◌, List, [], ◌∷◌, Bool, true, false, Option, none, some, arith,
  All, Option-cases,
}
use herdr_pal.Prelude.Maps.{Map, lookup, insert, delete, lookup-insert, lookup-delete}
use herdr_pal.Prelude.Text.{Text, text_eq}
use herdr_pal.Hprp.{Target, Session, OutputMode, target_eq}
use herdr_pal.Catalog.{ClientKey, find_session}
use herdr_pal.Catalog.Connections.{by_slot, migrate_mode, migrate_modes}

abbrev pub is_some {ℓ} : {A : Type ℓ} → Option A → Bool
is_some none = false
is_some (some x) = true

-- A session that `by_slot` reports is one that the directory finds.
pub by_slot-find_session :
    (machine_id : Text) (m : Map Text Text) (ss : List Session) (slot session_id : Text)
    → lookup slot (by_slot m ss) ≡ some session_id
    → (lookup slot m ≡ some session_id)
      ⊎ (is_some (find_session machine_id slot session_id ss) ≡ true)
unfolding by_slot find_session
by_slot-find_session machine_id m [] slot session_id h = inl h
by_slot-find_session machine_id m (s ∷ rest) slot session_id h = ground (
  arith,
  by_slot-find_session machine_id (insert s.slot_id s.session_id m) rest slot session_id h,
  lookup-insert s.slot_id slot s.session_id m,
)

lookup-absent : (t : Target) (m : Map Target OutputMode) → All (λ e. e.0 ≢ t) m → lookup t m ≡ none
unfolding lookup
lookup-absent t [] a = refl
lookup-absent t ((u, mode) ∷ m) a = ground (arith, a.0, lookup-absent t m a.1)

module _ (key : ClientKey) (previous next : Map Text Text) where
  -- The targets that a migrated map may hold.
  abbrev pub MayStay : Target → Type 0
  MayStay t = (t.machine_id ≢ key.machine_id) ⊎ (lookup t.slot_id next ≡ some t.session_id)

  abbrev moved_to : Target → Text → Target
  moved_to t session_id = record {
    machine_id = key.machine_id;
    slot_id = t.slot_id;
    session_id = session_id;
  }

  migrate_mode-MayStay :
      (t : Target) (mode : OutputMode) (modes : Map Target OutputMode) (u : Target)
      → is_some (lookup u (migrate_mode key previous next t mode modes)) ≡ true
      → MayStay u ⊎ ((is_some (lookup u modes) ≡ true) × (t ≢ u))
  unfolding migrate_mode
  migrate_mode-MayStay t mode modes u h = elim (Option-cases (lookup t.slot_id next)) [
    | inl gone ↦ ground (arith, gone, lookup-delete t u modes)
    | inr (session_id, kept) ↦ ground (
      arith,
      kept,
      lookup-delete t u modes,
      lookup-insert (moved_to t session_id) u mode (delete t modes),
    )
  ]

  migrate_modes-MayStay :
      (rest modes : Map Target OutputMode) (u : Target)
      → is_some (lookup u (migrate_modes key previous next rest modes)) ≡ true
      → MayStay u ⊎ ((is_some (lookup u modes) ≡ true) × All (λ e. e.0 ≢ u) rest)
  unfolding migrate_modes
  migrate_modes-MayStay [] modes u h = inr (h, tt)
  migrate_modes-MayStay ((t, mode) ∷ rest) modes u h =
      elim (migrate_modes-MayStay rest (migrate_mode key previous next t mode modes) u h) [
        | inl stay ↦ inl stay
        | inr (found, apart) ↦ elim (migrate_mode-MayStay t mode modes u found) [
          | inl stay ↦ inl stay
          | inr (old, other) ↦ inr (old, (other, apart))
        ]
      ]

  -- After the loop over the whole map nothing else is left.
  pub migrated-MayStay :
      (modes : Map Target OutputMode) (u : Target)
      → is_some (lookup u (migrate_modes key previous next modes modes)) ≡ true
      → MayStay u
  migrated-MayStay modes u h = elim (migrate_modes-MayStay modes modes u h) [
    | inl stay ↦ stay
    | inr (old, apart) ↦ ground (arith, lookup-absent u modes apart)
  ]

  migrate_mode-other :
      (t : Target) (mode : OutputMode) (modes : Map Target OutputMode) (u : Target)
      → u.machine_id ≢ key.machine_id
      → lookup u (migrate_mode key previous next t mode modes) ≡ lookup u modes
  unfolding migrate_mode
  migrate_mode-other t mode modes u h = elim (Option-cases (lookup t.slot_id next)) [
    | inl gone ↦ ground (arith, gone, lookup-delete t u modes)
    | inr (session_id, kept) ↦ ground (
      arith,
      kept,
      lookup-delete t u modes,
      lookup-insert (moved_to t session_id) u mode (delete t modes),
    )
  ]

  -- The modes of other machines stay as they are.
  pub migrate_modes-other :
      (rest modes : Map Target OutputMode) (u : Target)
      → u.machine_id ≢ key.machine_id
      → lookup u (migrate_modes key previous next rest modes) ≡ lookup u modes
  unfolding migrate_modes
  migrate_modes-other [] modes u h = refl
  migrate_modes-other ((t, mode) ∷ rest) modes u h =
      migrate_modes-other rest (migrate_mode key previous next t mode modes) u h
      ∙ migrate_mode-other t mode modes u h
