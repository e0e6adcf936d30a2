-- ===== src/Hprp/Best.antt =====
-- internal/hprp/negotiate.go: the loop that selects keeps the best name of each family.
use herdr_pal.Prelude.{
  ℕ, ◌≡◌, ◌≤◌, refl, List, [], ◌∷◌, map, true, false, some, ◌==◌, nat_eq, ltb, any, All, All-weaken,
  arith, sym, ap, ◌∙◌, subst, Bool-cases, Option-cases, ==_cases, inl, inr,
}
use herdr_pal.Prelude.Maps.{
  Map, IsMap, lookup, insert, lookup-insert, insert-IsMap, All-insert, lookup-All, lookup-own,
}
use herdr_pal.Prelude.Sort.{sort-any}
use herdr_pal.Prelude.Text.{Text, text_eq, text_lt}
use herdr_pal.Hprp.Negotiate.{
  VersionedName, versioned, split_versioned_name, versioned_names, contains, in_server, keep_best,
  select_best, best_of, select_highest_common_versions,
}
use herdr_pal.Hprp.Negotiated.{
  Offered, IsNegotiated, IsEntry, versioned_names-IsEntry, versioned_names-has,
}

-- A name of the family is kept, of this version or a higher one.
abbrev Covers : Map Text VersionedName → VersionedName → Type 0
Covers best c = (d : VersionedName) × (lookup c.family best ≡ some d) × (c.version ≤ d.version)

keep_best_new : (best : Map Text VersionedName) (c : VersionedName) → Covers (keep_best best c) c
unfolding keep_best
keep_best_new best c = elim (Option-cases (lookup c.family best)) [
  | inl n ↦ (c, ground (arith, n, lookup-insert c.family c.family c best), omega arith)
  | inr (d, f) ↦ elim (Bool-cases (ltb d.version c.version)) [
    | inl y ↦ (c, ground (arith, f, y, lookup-insert c.family c.family c best), omega arith)
    | inr y ↦ (d, ground (arith, f, y), ground (arith, y))
  ]
]

keep_best_old :
    (best : Map Text VersionedName) (c x : VersionedName)
    → Covers best x
    → Covers (keep_best best c) x
unfolding keep_best
keep_best_old best c x (e, f, le) = elim (==_cases c.family x.family) [
  | inr (n, t) ↦ (e, ground (arith, f, t, lookup-insert c.family x.family c best), le)
  | inl (same, t) ↦
      let g : lookup c.family best ≡ some e = ap (λ k. lookup k best) same ∙ f in
      elim (Bool-cases (ltb e.version c.version)) [
        | inl y ↦ (
          c,
          ground (arith, g, t, y, lookup-insert c.family x.family c best),
          ground (arith, y, le),
        )
        | inr y ↦ (e, ground (arith, g, f, y), le)
      ]
]

select_best_old :
    (server : List Text) (best entries : Map Text VersionedName) (x : VersionedName)
    → Covers best x
    → Covers (select_best server best entries) x
unfolding select_best
select_best_old server best [] x h = h
select_best_old server best ((name, c) ∷ rest) x h = elim (Bool-cases (in_server server name)) [
  | inl y ↦ rw y (select_best_old server (keep_best best c) rest x (keep_best_old best c x h))
  | inr y ↦ rw y (select_best_old server best rest x h)
]

select_best_taken :
    (server : List Text) (best rest : Map Text VersionedName) (name : Text) (c : VersionedName)
    → in_server server name ≡ true
    → select_best server best ((name, c) ∷ rest) ≡ select_best server (keep_best best c) rest
unfolding select_best
select_best_taken server best rest name c y = rw y refl

select_best_left :
    (server : List Text) (best rest : Map Text VersionedName) (name : Text) (c : VersionedName)
    → in_server server name ≡ false
    → select_best server best ((name, c) ∷ rest) ≡ select_best server best rest
unfolding select_best
select_best_left server best rest name c y = rw y refl

abbrev AllCovered : List Text → Map Text VersionedName → Map Text VersionedName → Type 0
AllCovered server best entries = All (λ e. in_server server e.0 ≡ true → Covers best e.1) entries

select_best_all :
    (server : List Text) (best entries : Map Text VersionedName)
    → AllCovered server (select_best server best entries) entries
select_best_all server best [] = tt
select_best_all server best ((name, c) ∷ rest) = elim (Bool-cases (in_server server name)) [
  | inl y ↦
      subst (λ b. AllCovered server b ((name, c) ∷ rest))
        (sym (select_best_taken server best rest name c y))
        (
          λ t. select_best_old server (keep_best best c) rest c (keep_best_new best c),
          select_best_all server (keep_best best c) rest,
        )
  | inr y ↦
      subst (λ b. AllCovered server b ((name, c) ∷ rest))
        (sym (select_best_left server best rest name c y))
        (λ t. absurd_test (sym y ∙ t), select_best_all server best rest)
]
  where
    absurd_test : {A : Type 0} → false ≡ true → A
    absurd_test e = cc

-- An entry of the best names: it stands under its family, and both sides offer it.
abbrev IsBest : List Text → List Text → Text × VersionedName → Type 0
IsBest client server (family, c) =
    (c.family ≡ family) × Offered client server c.name c.family c.version

keep_best-IsBest :
    (client server : List Text) (best : Map Text VersionedName) (c : VersionedName)
    → Offered client server c.name c.family c.version
    → All (IsBest client server) best × IsMap best
    → All (IsBest client server) (keep_best best c) × IsMap (keep_best best c)
unfolding keep_best
keep_best-IsBest client server best c h a =
    let added : All (IsBest client server) (insert c.family c best)
        × IsMap (insert c.family c best) =
      (
        All-insert (IsBest client server) c.family c best (refl, h) a.0,
        insert-IsMap c.family c best a.1,
      ) in
    elim (Option-cases (lookup c.family best)) [
      | inl n ↦ rw (n, keep_best) added
      | inr (d, f) ↦ elim (Bool-cases (ltb d.version c.version)) [
        | inl y ↦ rw (f, y, keep_best) added
        | inr y ↦ rw (f, y, keep_best) a
      ]
    ]

offered :
    (client server : List Text) (name : Text) (c : VersionedName)
    → IsEntry client (name, c)
    → in_server server name ≡ true
    → Offered client server c.name c.family c.version
unfolding in_server
offered client server name c (same, split, there) y = (
  ap split_versioned_name same ∙ split,
  ap (contains client) same ∙ there,
  ap (contains server) same ∙ ground (arith, y),
)

select_best-IsBest :
    (client server : List Text) (best entries : Map Text VersionedName)
    → All (IsEntry client) entries
    → All (IsBest client server) best × IsMap best
    → All (IsBest client server) (select_best server best entries)
      × IsMap (select_best server best entries)
unfolding select_best
select_best-IsBest client server best [] h a = a
select_best-IsBest client server best ((name, c) ∷ rest) h a =
    elim (Bool-cases (in_server server name)) [
      | inl y ↦ rw y (
          select_best-IsBest client server (keep_best best c) rest h.1
            (keep_best-IsBest client server best c (offered client server name c h.0 y) a))
      | inr y ↦ rw y (select_best-IsBest client server best rest h.1 a)
    ]

contains-All : (names : List Text) → All (λ n. contains names n ≡ true) names
contains-All [] = tt
contains-All (x ∷ xs) = (
  ground (arith),
  All-weaken (λ n. contains xs n ≡ true) (λ n. contains (x ∷ xs) n ≡ true)
      (λ n h. ground (arith, h)) xs (contains-All xs),
)

-- A name of the result stands in the map of the best names.
result_entry :
    (P : Text × VersionedName → Type 0) (best : Map Text VersionedName) (name : Text)
    → any (λ x. x == name) (map (λ e. e.1.name) best) ≡ true
    → All P best
    → (e : Text × VersionedName) × (e.1.name ≡ name) × P e
result_entry P [] name h a = cc
result_entry P (e ∷ best) name h a = elim (==_cases e.1.name name) [
  | inl (q, t) ↦ (e, q, a.0)
  | inr (q, t) ↦ result_entry P best name (ground (arith, h, t)) a.1
]

entry_result :
    (best : Map Text VersionedName) (family : Text) (c : VersionedName)
    → lookup family best ≡ some c
    → any (λ x. x == c.name) (map (λ e. e.1.name) best) ≡ true
unfolding lookup
entry_result [] family c f = cc
entry_result ((k, d) ∷ best) family c f = ground (arith, f, entry_result best family c)

module _ (client server : List Text) where
  abbrev best : Map Text VersionedName
  best = best_of client server

  entries-IsEntry : All (IsEntry client) (versioned_names [] client)
  entries-IsEntry = versioned_names-IsEntry client [] client (contains-All client) tt

  best-IsBest : All (IsBest client server) best × IsMap best
  best-IsBest =
      select_best-IsBest client server [] (versioned_names [] client) entries-IsEntry (tt, tt)

  covered :
      (name family : Text) (version : ℕ)
      → Offered client server name family version
      → Covers best (versioned name family version)
  unfolding in_server
  covered name family version (split, here, there) =
      let c = versioned name family version in
      lookup-All (λ e. in_server server e.0 ≡ true → Covers best e.1) name c
        (versioned_names [] client) (versioned_names-has [] client c split here)
        (select_best_all server [] (versioned_names [] client)) (ground (arith, there, split))

  in_result :
      (name : Text)
      → contains (select_highest_common_versions client server) name
        ≡ any (λ x. x == name) (map (λ e. e.1.name) best)
  unfolding select_highest_common_versions
  in_result name = sort-any text_lt (λ x. x == name) (map (λ e. e.1.name) best)

  found :
      (name : Text)
      → contains (select_highest_common_versions client server) name ≡ true
      → (c : VersionedName) × (c.name ≡ name)
        × (lookup c.family best ≡ some c)
        × Offered client server c.name c.family c.version
  found name h =
      let (e, same, (own, is)) =
        result_entry (λ e. (lookup e.0 best ≡ some e.1) × IsBest client server e) best name
          (sym (in_result name) ∙ h)
          (both best best (lookup-own best best-IsBest.1) best-IsBest.0) in
      (e.1, same, ap (λ k. lookup k best) is.0 ∙ own, is.1)
    where
      both :
          (m n : Map Text VersionedName)
          → All (λ e. lookup e.0 n ≡ some e.1) m
          → All (IsBest client server) m
          → All (λ e. (lookup e.0 n ≡ some e.1) × IsBest client server e) m
      both [] n x y = tt
      both (e ∷ m) n x y = ((x.0, y.0), both m n x.1 y.1)

  highest_of :
      (c d : VersionedName) (family : Text) (lower : ℕ)
      → lookup family best ≡ some c
      → lookup family best ≡ some d
      → lower ≤ d.version
      → lower ≤ c.version
  highest_of c d family lower f g le = ground (arith, f, g, le)

  -- `SelectHighestCommonVersions` gives names that both sides offer, each of the highest version of
  -- its family that both offer, and exactly one for each family that both offer.
  pub select_highest_common_versions-IsNegotiated :
      IsNegotiated client server (select_highest_common_versions client server)
  select_highest_common_versions-IsNegotiated = record {
    highest = λ name h.
        let (c, same, f, o) = found name h in
        (
          c.family,
          c.version,
          subst (λ n. Offered client server n c.family c.version) same o,
          λ other lower p.
              let (d, g, le) = covered other c.family lower p in
              highest_of c d c.family lower f g le,
        );
    complete = λ other family lower p.
        let (d, g, le) = covered other family lower p in
        let is = lookup-All (IsBest client server) family d best g best-IsBest.0 in
        (
          d.name,
          d.version,
          in_result d.name ∙ entry_result best family d g,
          is.1.0 ∙ ap (λ k. some (k, d.version)) is.0,
        );
    single = λ name other family version lower h k p q.
        let (c, same, f, o) = found name h in
        let (d, same', g, o') = found other k in
        ground (
          arith,
          same,
          same',
          f,
          g,
          p,
          q,
          o,
          o',
          ap split_versioned_name same,
          ap split_versioned_name same',
          ap (λ x. lookup x best),
        );
  }
