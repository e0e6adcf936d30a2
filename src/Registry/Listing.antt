-- ===== src/Registry/Listing.antt =====
-- internal/session/registry.go: numbers, selections and rebinding work together.
use herdr_pal.Prelude.{
  ℕ, zero, suc, ◌≡◌, ◌≢◌, ◌<◌, List, [], ◌∷◌, map, false, some, nat_eq, All, All-get_elem?, length,
  get_elem?, arith, subst, sym, ap, ◌∙◌, ok, inl, inr,
}
use herdr_pal.Prelude.Int.{pos}
use herdr_pal.Prelude.Maps.{lookup, lookup-insert, lookup-own}
use herdr_pal.Prelude.Sort.{sort-All}
use herdr_pal.Prelude.Text.{Text, text_eq}
use herdr_pal.Registry.{Target, Targets, Identity, AgentInfo, values, sorted_targets, target_less}
use herdr_pal.Registry.Keyed.{AreKeyed, IsOwn, pane-lookup}
use herdr_pal.Registry.Operations.{
  Registry, ListEntry, entry_of, renamed, rebound, choose, select_target, select,
  create_list_snapshot, validate_selected, write_rebound, rebind_selected,
}
use herdr_pal.Registry.Rebinding.{rebind_selected_cases}
use herdr_pal.Registry.Sound.{IsSound}

-- A target that its own pane finds.
abbrev Findable : Targets → Target → Type 0
Findable m t = lookup t.pane_id m ≡ some t

values-Findable :
    (m n : Targets)
    → All (λ e. lookup e.0 n ≡ some e.1) m
    → All IsOwn m
    → All (Findable n) (values m)
values-Findable [] n f o = tt
values-Findable (e ∷ m) n f o = (ground (arith, f.0, o.0), values-Findable m n f.1 o.1)

sorted_targets-Findable :
    (r : Registry)
    → AreKeyed r.targets
    → All (Findable r.targets) (sorted_targets r.targets r.orders)
sorted_targets-Findable r k =
    sort-All (target_less r.orders) (Findable r.targets) (values r.targets)
      (values-Findable r.targets r.targets (lookup-own r.targets k.map) k.own)

get_elem?-map :
    (ts : List Target) (i : ℕ) (t : Target)
    → get_elem? ts i ≡ some t
    → (get_elem? (map entry_of ts) i ≡ some (entry_of t)) × (i < length (map entry_of ts))
get_elem?-map [] i t e = cc
get_elem?-map (x ∷ ts) zero t e = (ground (arith, e), omega arith)
get_elem?-map (x ∷ ts) (suc i) t e =
    let (at, bound) = get_elem?-map ts i t e in (at, omega (arith, bound))

select_entry :
    (r : Registry) (i : ℕ) (t : Target)
    → get_elem? r.list_snapshot i ≡ some (entry_of t)
    → i < length r.list_snapshot
    → lookup t.pane_id r.targets ≡ some t
    → select r (pos (suc i)) ≡ (choose r t, ok t)
unfolding select select_target
select_entry r i t at bound f = ground (arith, at, bound, f)

validate-choose :
    (r : Registry) (t : Target)
    → lookup t.pane_id r.targets ≡ some t
    → t.occupant_key ≢ []
    → validate_selected (choose r t) ≡ (choose r t, ok t)
unfolding validate_selected
validate-choose r t f n = ground (arith, f, n)

-- In a sound registry, take a target with an occupant key that is not blank from the list that
-- `CreateListSnapshot` returns: right after, `Select` of its place, counted from 1, gives that
-- target, and `ValidateSelected` then gives it too and changes nothing.
pub select-create_list_snapshot :
    (r : Registry) (i : ℕ) (t : Target)
    → IsSound r
    → get_elem? (create_list_snapshot r).1 i ≡ some t
    → t.occupant_key ≢ []
    → ((select (create_list_snapshot r).0 (pos (suc i))).1 ≡ ok t)
      × (validate_selected (select (create_list_snapshot r).0 (pos (suc i))).0
          ≡ ((select (create_list_snapshot r).0 (pos (suc i))).0, ok t))
unfolding create_list_snapshot
select-create_list_snapshot r i t h at n =
    let listed = (create_list_snapshot r).0 in
    let (entry, bound) = get_elem?-map (sorted_targets r.targets r.orders) i t at in
    let f = All-get_elem? (Findable r.targets) _ i t (sorted_targets-Findable r h.keyed) at in
    let chosen = select_entry listed i t entry bound f in
    (
      ap (λ x. x.1) chosen,
      subst (λ x. validate_selected x ≡ (x, ok t)) (sym (ap (λ x. x.0) chosen))
          (validate-choose listed t f n),
    )

write_rebound-list :
    (r : Registry) (old t : Target) (i : ℕ)
    → get_elem? r.list_snapshot i ≡ some (entry_of old)
    → t.pane_id ≡ old.pane_id
    → (get_elem? (write_rebound r old t).list_snapshot i ≡ some (entry_of t))
      × (i < length (write_rebound r old t).list_snapshot)
unfolding write_rebound
write_rebound-list r old t i at same = renamed_at r.list_snapshot i at
  where
    renamed_at :
        (es : List ListEntry) (j : ℕ)
        → get_elem? es j ≡ some (entry_of old)
        → (get_elem? (map (renamed t.pane_id old.occupant_key t.occupant_key) es) j
            ≡ some (entry_of t))
          × (j < length (map (renamed t.pane_id old.occupant_key t.occupant_key) es))
    renamed_at [] j e = cc
    renamed_at (x ∷ es) zero e = (ground (arith, e, same), omega arith)
    renamed_at (x ∷ es) (suc j) e = let (f, b) = renamed_at es j e in (f, omega (arith, b))

rebound_selection :
    (r : Registry) (old t : Target)
    → r.selection_invalid ≡ false
    → r.selected_pane ≡ t.pane_id
    → t.occupant_key ≢ []
    → validate_selected (write_rebound r old t) ≡ (write_rebound r old t, ok t)
unfolding write_rebound validate_selected
rebound_selection r old t v p n =
    ground (arith, v, p, n, lookup-insert t.pane_id t.pane_id t r.targets)

write_rebound-Findable :
    (r : Registry) (old t : Target) → Findable (write_rebound r old t).targets t
unfolding write_rebound
write_rebound-Findable r old t = ground (arith, lookup-insert t.pane_id t.pane_id t r.targets)

-- When `RebindSelected` gives a target of a sound registry with an occupant key that is not blank,
-- it is in the pane that was selected, `ValidateSelected` gives it and changes nothing, and a
-- number that was listed for the expected target now selects it.
pub rebind_selected_ok :
    (digest : Identity → Text) (r : Registry) (expected t : Target) (current : AgentInfo) (i : ℕ)
    → IsSound r
    → (rebind_selected digest r expected current).1 ≡ ok t
    → t.occupant_key ≢ []
    → get_elem? r.list_snapshot i ≡ some (entry_of expected)
    → (t.pane_id ≡ r.selected_pane)
      × (validate_selected (rebind_selected digest r expected current).0
          ≡ ((rebind_selected digest r expected current).0, ok t))
      × ((select (rebind_selected digest r expected current).0 (pos (suc i))).1 ≡ ok t)
rebind_selected_ok digest r expected t current i h done n at =
    elim (rebind_selected_cases digest r expected current) [
      | inl e ↦ absurd (ground (arith, done, ap (λ x. x.1) e))
      | inr b ↦
          let new = rebound digest b.old current b.agent in
          let own = pane-lookup r.targets expected.pane_id b.old h.keyed.own b.at in
          let same : new ≡ t = ground (arith, done, ap (λ x. x.1) b.result) in
          let result : rebind_selected digest r expected current ≡ (write_rebound r b.old t, ok t) =
            subst (λ x. rebind_selected digest r expected current ≡ (write_rebound r b.old x, ok x))
              same b.result in
          let pane : t.pane_id ≡ b.old.pane_id = ap (λ x. x.pane_id) (sym same) in
          let listed : get_elem? r.list_snapshot i ≡ some (entry_of b.old) =
            ground (arith, at, own, b.same) in
          let (entry, bound) = write_rebound-list r b.old t i listed pane in
          let selected : r.selected_pane ≡ t.pane_id = b.pane ∙ sym own ∙ sym pane in
          (
            sym selected,
            subst (λ x. validate_selected x.0 ≡ (x.0, ok t)) (sym result)
                (rebound_selection r b.old t b.valid selected n),
            subst (λ x. (select x.0 (pos (suc i))).1 ≡ ok t) (sym result)
                (ap (λ x. x.1)
                  (select_entry (write_rebound r b.old t) i t entry bound
                    (write_rebound-Findable r b.old t))),
          )
    ]
