-- ===== src/Hprp/Negotiated.antt =====
-- internal/hprp/negotiate.go: the names selected are the highest common version of each family.
use herdr_pal.Prelude.{
  ℕ, ◌≡◌, ◌≤◌, refl, List, [], ◌∷◌, true, some, nat_eq, All, arith, ap, ◌∙◌, Option-cases, ==_cases,
  inl, inr,
}
use herdr_pal.Prelude.Maps.{Map, lookup, insert, lookup-insert, All-insert}
use herdr_pal.Prelude.Text.{Text, text_eq}
use herdr_pal.Hprp.Negotiate.{
  VersionedName, versioned, add_versioned, split_versioned_name, versioned_names, contains,
}

-- A name that both sides offer, with its family and version.
abbrev pub Offered : List Text → List Text → Text → Text → ℕ → Type 0
Offered client server name family version =
    (split_versioned_name name ≡ some (family, version))
    × (contains client name ≡ true)
    × (contains server name ≡ true)

-- The result of a negotiation: the names are offered by both sides and have the highest version of
-- their family that is, each family that both sides offer has a name, and only one.
pub record IsNegotiated (client server result : List Text) : Type 0 where
  pub highest :
      (name : Text)
      → contains result name ≡ true
      → (family : Text) × (version : ℕ) × Offered client server name family version
        × ((other : Text) (lower : ℕ) → Offered client server other family lower → lower ≤ version)
  pub complete :
      (other family : Text) (lower : ℕ)
      → Offered client server other family lower
      → (name : Text) × (version : ℕ) × (contains result name ≡ true)
        × (split_versioned_name name ≡ some (family, version))
  pub single :
      (name other family : Text) (version lower : ℕ)
      → contains result name ≡ true
      → contains result other ≡ true
      → split_versioned_name name ≡ some (family, version)
      → split_versioned_name other ≡ some (family, lower)
      → name ≡ other

abbrev pub IsEntry : List Text → Text × VersionedName → Type 0
IsEntry client (key, c) =
    (c.name ≡ key)
    × (split_versioned_name key ≡ some (c.family, c.version))
    × (contains client key ≡ true)

pub versioned_names-IsEntry :
    (client : List Text) (m : Map Text VersionedName) (names : List Text)
    → All (λ n. contains client n ≡ true) names
    → All (IsEntry client) m
    → All (IsEntry client) (versioned_names m names)
unfolding versioned_names
versioned_names-IsEntry client m [] h a = a
versioned_names-IsEntry client m (name ∷ names) h a =
    elim (Option-cases (split_versioned_name name)) [
      | inl n ↦ rw (n, versioned_names) (versioned_names-IsEntry client m names h.1 a)
      | inr ((family, version), s) ↦
          rw (s, versioned_names)
            (versioned_names-IsEntry client (insert name (versioned name family version) m) names
              h.1
              (All-insert (IsEntry client) name (versioned name family version) m (refl, s, h.0) a))
    ]

versioned_names-keeps :
    (m : Map Text VersionedName) (names : List Text) (c : VersionedName)
    → split_versioned_name c.name ≡ some (c.family, c.version)
    → lookup c.name m ≡ some c
    → lookup c.name (versioned_names m names) ≡ some c
unfolding versioned_names
versioned_names-keeps m [] c s f = f
versioned_names-keeps m (name ∷ names) c s f = elim (Option-cases (split_versioned_name name)) [
  | inl n ↦ rw (n, versioned_names) (versioned_names-keeps m names c s f)
  | inr ((family, version), t) ↦
      rw (t, versioned_names)
        (versioned_names-keeps (insert name (versioned name family version) m) names c s (
          ground (
            arith,
            f,
            s,
            t,
            ap split_versioned_name,
            lookup-insert name c.name (versioned name family version) m,
          )))
]

pub versioned_names-has :
    (m : Map Text VersionedName) (names : List Text) (c : VersionedName)
    → split_versioned_name c.name ≡ some (c.family, c.version)
    → contains names c.name ≡ true
    → lookup c.name (versioned_names m names) ≡ some c
unfolding versioned_names
versioned_names-has m [] c s h = cc
versioned_names-has m (name ∷ names) c s h = elim (==_cases name c.name) [
  | inl (e, t) ↦
      let split : split_versioned_name name ≡ some (c.family, c.version) =
        ap split_versioned_name e ∙ s in
      rw (split, versioned_names)
        (versioned_names-keeps (insert name (versioned name c.family c.version) m) names c s
          (ground (arith, e, lookup-insert name c.name (versioned name c.family c.version) m)))
  | inr (e, t) ↦
      versioned_names-has (add_versioned m name (split_versioned_name name)) names c s
        (ground (arith, h, t))
]
