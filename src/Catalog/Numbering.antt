-- ===== src/Catalog/Numbering.antt =====
-- The numbers that a user is shown stand for the targets that were listed.
use herdr_pal.Prelude.{
  ℕ, zero, suc, ◌≡◌, ◌<◌, refl, List, [], ◌∷◌, true, false, some, ◌⊎◌, ◌&&◌, ltb, arith,
  Option-cases, inl, inr, length, get_elem?, All-get_elem?, ok, Result, Bool-cases, any,
}
use herdr_pal.Prelude.Int.{ℤ, pos}
use herdr_pal.Prelude.Maps.{lookup-insert}
use herdr_pal.Prelude.Text.{Text, text_eq}
use herdr_pal.Hprp.{Target}
use herdr_pal.Catalog.{SessionCatalog, CatalogEntry, find_entry, entries, routing_of, Error}
use herdr_pal.Catalog.Covering.{refers, entries-any}
use herdr_pal.Catalog.Directory.{find_entry-ref}
use herdr_pal.Catalog.Listing.{entries-Findable}
use herdr_pal.Catalog.Reach.{IsSound}
use herdr_pal.Catalog.Routing.{
  refs, renumber, create_numbered_snapshot, resolve_numbered, numbered_at, ensure_numbered_index,
  numbered_target_index, same_target,
}

get_elem?-refs :
    (es : List CatalogEntry) (i : ℕ) (e : CatalogEntry)
    → get_elem? es i ≡ some e
    → (get_elem? (refs es) i ≡ some e.ref) × (i < length (refs es))
get_elem?-refs [] i e h = cc
get_elem?-refs (x ∷ es) zero e h = (ground arith, omega arith)
get_elem?-refs (x ∷ es) (suc i) e h =
    let (found, bound) = get_elem?-refs es i e h in (found, omega arith)

resolve_numbered_at :
    (c : SessionCatalog) (u : Text) (i : ℕ) (t : Target)
    → (routing_of c u).numbered_valid ≡ true
    → get_elem? (routing_of c u).numbered i ≡ some t
    → i < length (routing_of c u).numbered
    → (e : CatalogEntry) → find_entry c u t ≡ some e
    → resolve_numbered c u (pos (suc i)) ≡ ok e
unfolding resolve_numbered
resolve_numbered_at c u i t valid at bound e found = ground arith

routing_of-renumber :
    (c : SessionCatalog) (u : Text)
    → routing_of (renumber c u) u
      ≡ record (routing_of c u) { numbered = refs (entries c u); numbered_valid = true }
routing_of-renumber c u = ground (
  arith,
  lookup-insert u u
      (record (routing_of c u) { numbered = refs (entries c u); numbered_valid = true }) c.routing,
)

-- In a sound catalog, right after `CreateNumberedSnapshot`, `ResolveNumbered` of the place of an
-- entry in the list that was returned, counted from 1, gives that entry.
pub resolve_numbered-create_numbered_snapshot :
    (c : SessionCatalog) (u : Text)
    → IsSound c
    → (i : ℕ) (e : CatalogEntry) → get_elem? (create_numbered_snapshot c u).1 i ≡ some e
    → resolve_numbered (create_numbered_snapshot c u).0 u (pos (suc i)) ≡ ok e
unfolding create_numbered_snapshot find_entry
resolve_numbered-create_numbered_snapshot c u h i e at =
    let (shown, bound) = get_elem?-refs (entries c u) i e at in
    let found = All-get_elem? _ (entries c u) i e (entries-Findable c u h.indexed) at in
    resolve_numbered_at (renumber c u) u i e.ref (rw routing_of-renumber)
      (rw routing_of-renumber shown) (rw routing_of-renumber bound) e found

-- A number that resolves gives the target that it was listed for, as the directory now shows it.
pub resolve_numbered-ref :
    (c : SessionCatalog) (u : Text) (index : ℤ) (e : CatalogEntry)
    → resolve_numbered c u index ≡ ok e
    → ((routing_of c u).numbered_valid ≡ true)
      × (numbered_at (routing_of c u).numbered index ≡ some e.ref)
      × (find_entry c u e.ref ≡ some e)
unfolding resolve_numbered
resolve_numbered-ref c u index e h =
    elim (Option-cases (numbered_at (routing_of c u).numbered index)) [
      | inl at ↦ ground (arith, at)
      | inr (t, at) ↦ ground (arith, at, find_entry-ref c u t e)
    ]

numbered_target_index-get_elem? :
    (ts : List Target) (t : Target) (i : ℕ)
    → numbered_target_index ts t ≡ suc i
    → (get_elem? ts i ≡ some t) × (i < length ts)
unfolding numbered_target_index same_target
numbered_target_index-get_elem? [] t i h = absurd (omega arith)
numbered_target_index-get_elem? (u ∷ ts) t zero h = ground arith
numbered_target_index-get_elem? (u ∷ ts) t (suc i) h =
    ground (arith, numbered_target_index-get_elem? ts t i)

numbered_target_index-pos :
    (t : Target) (es : List CatalogEntry)
    → any (refers t) es ≡ true
    → 0 < numbered_target_index (refs es) t
unfolding numbered_target_index
numbered_target_index-pos t [] h = cc
numbered_target_index-pos t (e ∷ es) h = ground (arith, numbered_target_index-pos t es)

zero_or_suc : (n : ℕ) → (n ≡ 0) ⊎ ((i : ℕ) × (n ≡ suc i))
zero_or_suc zero = inl refl
zero_or_suc (suc i) = inr (i, refl)

module _ (c : SessionCatalog) (u : Text) (t : Target) (e : CatalogEntry)
    (found : find_entry c u t ≡ some e) where
  abbrev kept_index : ℕ
  kept_index = numbered_target_index (routing_of c u).numbered t

  abbrev fresh_index : ℕ
  fresh_index = numbered_target_index (refs (entries c u)) t

  abbrev Numbers : SessionCatalog × Result Error ℕ → Type 0
  Numbers r = (n : ℕ) × (r.1 ≡ ok n) × (resolve_numbered r.0 u (pos n) ≡ ok e)

  ensure_kept :
      (routing_of c u).numbered_valid ≡ true
      → (i : ℕ) → kept_index ≡ suc i
      → ensure_numbered_index c u t ≡ (c, ok (suc i))
  unfolding ensure_numbered_index
  ensure_kept valid i k = ground arith

  ensure_fresh :
      ((routing_of c u).numbered_valid && ltb 0 kept_index) ≡ false
      → (i : ℕ) → fresh_index ≡ suc i
      → ensure_numbered_index c u t ≡ (renumber c u, ok (suc i))
  unfolding ensure_numbered_index
  ensure_fresh stale i k = ground arith

  kept-Numbers :
      (routing_of c u).numbered_valid ≡ true
      → (i : ℕ) → kept_index ≡ suc i
      → Numbers (ensure_numbered_index c u t)
  kept-Numbers valid i k =
      let (at, bound) = numbered_target_index-get_elem? (routing_of c u).numbered t i k in
      rw (ensure_kept valid i k) (suc i, refl, resolve_numbered_at c u i t valid at bound e found)

  fresh-Numbers :
      ((routing_of c u).numbered_valid && ltb 0 kept_index) ≡ false
      → Numbers (ensure_numbered_index c u t)
  unfolding find_entry
  fresh-Numbers stale = elim (zero_or_suc fresh_index) [
    | inl z ↦
        absurd
          (omega (arith, z, numbered_target_index-pos t (entries c u) (entries-any c u t e found)))
    | inr (i, k) ↦
        let (at, bound) = numbered_target_index-get_elem? (refs (entries c u)) t i k in
        rw (ensure_fresh stale i k) (
          suc i,
          refl,
          resolve_numbered_at (renumber c u) u i t (rw routing_of-renumber)
              (rw routing_of-renumber at) (rw routing_of-renumber bound) e found,
        )
  ]

  -- For a target that the directory shows, `EnsureNumberedIndex` gives a number, and that number
  -- resolves to the entry of the target.
  pub resolve_numbered-ensure_numbered_index :
      (n : ℕ) × ((ensure_numbered_index c u t).1 ≡ ok n)
      × (resolve_numbered (ensure_numbered_index c u t).0 u (pos n) ≡ ok e)
  resolve_numbered-ensure_numbered_index = elim (Bool-cases (routing_of c u).numbered_valid) [
    | inr stale ↦ fresh-Numbers (rw stale)
    | inl valid ↦ elim (zero_or_suc kept_index) [
      | inl z ↦ fresh-Numbers (ground (arith, z))
      | inr (i, k) ↦ kept-Numbers valid i k
    ]
  ]
