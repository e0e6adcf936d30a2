-- ===== src/Hprp/Snapshots.antt =====
-- internal/hprp/validate.go: what `ValidateSessionSnapshot` accepts, stated without its maps.
use herdr_pal.Prelude.{
  ◌≡◌, ◌≢◌, ◌≤◌, ◌<◌, ◌↔◌, refl, List, [], ◌∷◌, true, none, length, All, All-weaken,
  All-weaken_both, Distinct, arith,
}
use herdr_pal.Prelude.Int.{ℤ, int_eq}
use herdr_pal.Prelude.Maps.{Map, lookup, insert, lookup-insert}
use herdr_pal.Prelude.Text.{Text, text_eq}
use herdr_pal.Hprp.{Session, SessionSnapshot}
use herdr_pal.Hprp.Validate.{
  max_sessions, valid_session, validate_sessions, validate_session_snapshot,
}

-- Every session is well formed, and no two share a slot or a display index.
pub record AreValid (ss : List Session) : Type 0 where
  pub each : All (λ s. valid_session s ≡ true) ss
  pub slots : Distinct (λ (s : Session). s.slot_id) ss
  pub indexes : Distinct (λ (s : Session). s.display.index) ss

abbrev Fresh : Map Text (Unit {0}) → Map ℤ (Unit {0}) → Session → Type 0
Fresh slots indexes s = (lookup s.slot_id slots ≡ none) × (lookup s.display.index indexes ≡ none)

All-Fresh :
    (slots : Map Text (Unit {0})) (indexes : Map ℤ (Unit {0})) (x : Session) (ss : List Session)
    → All
        (λ s. (x.slot_id ≢ s.slot_id) × (x.display.index ≢ s.display.index) × Fresh slots indexes s)
        ss
      ↔ All (Fresh (insert x.slot_id tt slots) (insert x.display.index tt indexes)) ss
All-Fresh slots indexes x [] = (λ h. tt, λ h. tt)
All-Fresh slots indexes x (s ∷ ss) =
    let rest = All-Fresh slots indexes x ss in
    (
      λ h. (
        ground (
          arith,
          h.0,
          lookup-insert x.slot_id s.slot_id tt slots,
          lookup-insert x.display.index s.display.index tt indexes,
        ),
        rest.0 h.1,
      ),
      λ h. (
        ground (
          arith,
          h.0,
          lookup-insert x.slot_id s.slot_id tt slots,
          lookup-insert x.display.index s.display.index tt indexes,
        ),
        rest.1 h.1,
      ),
    )

module _ (slots : Map Text (Unit {0})) (indexes : Map ℤ (Unit {0})) (s : Session)
    (ss : List Session) where
  validate_sessions-head :
      validate_sessions slots indexes (s ∷ ss) ≡ none
      → (valid_session s ≡ true)
        × Fresh slots indexes s
        × (validate_sessions (insert s.slot_id tt slots) (insert s.display.index tt indexes) ss
            ≡ none)
  unfolding validate_sessions
  validate_sessions-head e = ground arith

  validate_sessions-cons :
      valid_session s ≡ true
      → Fresh slots indexes s
      → validate_sessions (insert s.slot_id tt slots) (insert s.display.index tt indexes) ss ≡ none
      → validate_sessions slots indexes (s ∷ ss) ≡ none
  unfolding validate_sessions
  validate_sessions-cons v f e = ground arith

abbrev Apart : Session → Session → Type 0
Apart x s = (x.slot_id ≢ s.slot_id) × (x.display.index ≢ s.display.index)

abbrev Kept : Map Text (Unit {0}) → Map ℤ (Unit {0}) → List Session → Type 0
Kept slots indexes ss = AreValid ss × All (Fresh slots indexes) ss

validate_sessions-Kept :
    (slots : Map Text (Unit {0})) (indexes : Map ℤ (Unit {0})) (ss : List Session)
    → validate_sessions slots indexes ss ≡ none
    → Kept slots indexes ss
validate_sessions-Kept slots indexes [] e = (record { each = tt; slots = tt; indexes = tt }, tt)
validate_sessions-Kept slots indexes (s ∷ ss) e =
    let (v, f, later) = validate_sessions-head slots indexes s ss e in
    let (rest, fresh) =
      validate_sessions-Kept (insert s.slot_id tt slots) (insert s.display.index tt indexes) ss
        later in
    let apart = (All-Fresh slots indexes s ss).1 fresh in
    (
      record {
        each = (v, rest.each);
        slots = (All-weaken _ (λ y. s.slot_id ≢ y.slot_id) (λ y p. p.0) ss apart, rest.slots);
        indexes = (
          All-weaken _ (λ y. s.display.index ≢ y.display.index) (λ y p. p.1) ss apart,
          rest.indexes,
        );
      },
      (f, All-weaken _ (Fresh slots indexes) (λ y p. p.2) ss apart),
    )

Kept-validate_sessions :
    (slots : Map Text (Unit {0})) (indexes : Map ℤ (Unit {0})) (ss : List Session)
    → AreValid ss
    → All (Fresh slots indexes) ss
    → validate_sessions slots indexes ss ≡ none
unfolding validate_sessions
Kept-validate_sessions slots indexes [] v f = refl
Kept-validate_sessions slots indexes (s ∷ ss) v f =
    validate_sessions-cons slots indexes s ss v.each.0 f.0 (
      Kept-validate_sessions (insert s.slot_id tt slots) (insert s.display.index tt indexes) ss
        (record { each = v.each.1; slots = v.slots.1; indexes = v.indexes.1 })
        ((All-Fresh slots indexes s ss).0 (
          All-weaken_both _ _ _ (λ y p q. (p.0, p.1, q)) ss
            (All-weaken_both _ _ (Apart s) (λ y p q. (p, q)) ss v.slots.0 v.indexes.0) f.1)))

All-Fresh_empty : (ss : List Session) → All (Fresh [] []) ss
unfolding lookup
All-Fresh_empty [] = tt
All-Fresh_empty (s ∷ ss) = ((refl, refl), All-Fresh_empty ss)

pub record IsValidSnapshot (s : SessionSnapshot) : Type 0 where
  pub numbered : 0 < s.sequence
  pub bounded : length s.sessions ≤ max_sessions
  pub sessions : AreValid s.sessions

-- A snapshot is accepted exactly when its sequence is positive, it has at most 256 sessions, each
-- session is well formed, and no two sessions share a slot or a display index.
pub validate_session_snapshot_iff :
    (s : SessionSnapshot) → (validate_session_snapshot s ≡ none) ↔ IsValidSnapshot s
unfolding validate_session_snapshot
validate_session_snapshot_iff s = (
  λ e. record {
    numbered = ground arith;
    bounded = ground arith;
    sessions = (validate_sessions-Kept [] [] s.sessions (ground arith)).0;
  },
  λ v. ground (
    arith,
    v.numbered,
    v.bounded,
    Kept-validate_sessions [] [] s.sessions v.sessions (All-Fresh_empty s.sessions),
  ),
)
