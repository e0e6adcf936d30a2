-- ===== src/Approval/Chosen.antt =====
-- internal/server/registration_approval.go: a decision by numbers reaches only what was listed.
use herdr_pal.Prelude.{
  ℕ, zero, suc, ◌-◌, ◌≡◌, ◌≢◌, ◌≤◌, refl, List, [], ◌∷◌, true, Option, none, some, nat_eq,
  get_elem?, arith, sym, ap, ◌∙◌, Bool-cases, Option-cases, ok, Result-cases, inl, inr,
}
use herdr_pal.Prelude.Maps.{lookup}
use herdr_pal.Prelude.Text.{Text, text_eq}
use herdr_pal.Registration.{Request}
use herdr_pal.Approval.{
  Coordinator, Selection, is_admin, are_indexes, valid_indexes, pick, pick_all, resolve_from,
  resolve_selection, actor_of,
}
use herdr_pal.Approval.Manager.{ApprovalManager, Decide, decide_all, decide_chosen}

-- What a selection says: its number was asked for, and the list has its request at that place.
abbrev Listed : List Text → List ℕ → Selection → Type 0
Listed snapshot is x =
    (j : ℕ) × (get_elem? is j ≡ some x.index)
    × (get_elem? snapshot (x.index - 1) ≡ some x.registration_id)

pick_listed :
    (snapshot : List Text) (current : List Request) (i : ℕ) (x : Selection)
    → pick snapshot current i ≡ some x
    → (x.index ≡ i) × (get_elem? snapshot (i - 1) ≡ some x.registration_id)
unfolding pick
pick_listed snapshot current i x e = ground (arith, e)

pick_all_head :
    (snapshot : List Text) (current : List Request) (i : ℕ) (is : List ℕ) (xs : List Selection)
    → pick_all snapshot current (i ∷ is) ≡ some xs
    → (y : Selection) × (ys : List Selection) × (xs ≡ y ∷ ys)
      × (pick snapshot current i ≡ some y)
      × (pick_all snapshot current is ≡ some ys)
unfolding pick_all
pick_all_head snapshot current i is xs e = elim (Option-cases (pick snapshot current i)) [
  | inl n ↦ ground (arith, n, e)
  | inr (y, p) ↦ elim (Option-cases (pick_all snapshot current is)) [
    | inl n ↦ ground (arith, p, n, e)
    | inr (ys, q) ↦ (y, ys, ground (arith, p, q, e), p, q)
  ]
]

pick_all-Listed :
    (snapshot : List Text) (current : List Request) (is : List ℕ) (xs : List Selection)
    → pick_all snapshot current is ≡ some xs
    → (k : ℕ) (x : Selection) → get_elem? xs k ≡ some x
    → (get_elem? is k ≡ some x.index) × (get_elem? snapshot (x.index - 1) ≡ some x.registration_id)
unfolding pick_all
pick_all-Listed snapshot current [] xs e k x at = ground (arith, e, at)
pick_all-Listed snapshot current (i ∷ is) xs e zero x at =
    let (y, ys, eq, p, q) = pick_all_head snapshot current i is xs e in
    let l = pick_listed snapshot current i y p in ground (arith, eq, at, l)
pick_all-Listed snapshot current (i ∷ is) xs e (suc k) x at =
    let (y, ys, eq, p, q) = pick_all_head snapshot current i is xs e in
    pick_all-Listed snapshot current is ys q k x (ap (λ l. get_elem? l (suc k)) (sym eq) ∙ at)

-- An index that is asked for is a place, counted from 1.
are_indexes_pos :
    (seen is : List ℕ) (k i : ℕ) → are_indexes seen is ≡ true → get_elem? is k ≡ some i → 1 ≤ i
unfolding are_indexes
are_indexes_pos seen [] k i v at = ground (arith, at)
are_indexes_pos seen (j ∷ is) zero i v at = ground (arith, v, at)
are_indexes_pos seen (j ∷ is) (suc k) i v at =
    are_indexes_pos (j ∷ seen) is k i (ground (arith, v)) at

resolved :
    (snapshot : Option (List Text)) (current : List Request) (is : List ℕ) (xs : List Selection)
    → resolve_from snapshot current is ≡ ok xs
    → (l : List Text) × (snapshot ≡ some l)
      × (pick_all l current is ≡ some xs)
      × (are_indexes [] is ≡ true)
unfolding resolve_from valid_indexes
resolved none current is xs e = cc
resolved (some l) current is xs e = elim (Option-cases (pick_all l current is)) [
  | inl n ↦ absurd (ground (arith, n, e))
  | inr (ys, p) ↦ (l, refl, ground (arith, p, e), ground (arith, p, e))
]

resolved_from :
    (c : Coordinator) (current : List Request) (admin : Text) (is : List ℕ) (xs : List Selection)
    → (resolve_selection c current admin is).1 ≡ ok xs
    → (is_admin c admin ≡ true) × (resolve_from (lookup admin c.snapshots) current is ≡ ok xs)
unfolding resolve_selection
resolved_from c current admin is xs e = elim (Bool-cases (is_admin c admin)) [
  | inl y ↦ (y, ground (arith, y, e))
  | inr y ↦ absurd (ground (arith, y, e))
]

module _ (m : ApprovalManager) where
  -- What a machine that has moved shows.
  abbrev pub WasListed : Coordinator → m.State → Text → List ℕ → Text → Text → Type 0
  WasListed c s admin is user machine =
      (snapshot : List Text) × (k i : ℕ) × (id : Text) × (q : Request) × (is_admin c admin ≡ true)
      × (lookup admin c.snapshots ≡ some snapshot)
      × (get_elem? is k ≡ some i)
      × (1 ≤ i)
      × (get_elem? snapshot (i - 1) ≡ some id)
      × (m.pending s id ≡ some q)
      × (q.principal_id ≡ user)
      × (q.machine_id ≡ machine)

module _ (m : ApprovalManager) (decide : Decide m)
    (keeps : (s : m.State) (id actor : Text) (o : m.Ambient)
      → m.IsSound s
      → m.IsSound (decide s id actor o).0)
    (adds_none : (s : m.State) (id actor : Text) (o : m.Ambient) (j : Text) (q : Request)
      → m.pending (decide s id actor o).0 j ≡ some q
      → m.pending s j ≡ some q)
    (reaches : (s : m.State) (id actor : Text) (o : m.Ambient) (user machine : Text)
      → m.IsSound s
      → m.phase (decide s id actor o).0 user machine ≢ m.phase s user machine
      → (q : Request) × (m.pending s id ≡ some q)
        × (q.principal_id ≡ user)
        × (q.machine_id ≡ machine)) where
  -- The selection whose request is for a machine that has moved.
  decide_all_moved :
      (actor : Text) (o : ℕ → m.Ambient) (s : m.State) (xs : List Selection) (user machine : Text)
      → m.IsSound s
      → m.phase (decide_all m decide actor o s xs).0 user machine ≢ m.phase s user machine
      → (k : ℕ) × (x : Selection) × (q : Request) × (get_elem? xs k ≡ some x)
        × (m.pending s x.registration_id ≡ some q)
        × (q.principal_id ≡ user)
        × (q.machine_id ≡ machine)
  unfolding decide_all
  decide_all_moved actor o s [] user machine h n = absurd (n refl)
  decide_all_moved actor o s (x ∷ xs) user machine h n =
      let t = (decide s x.registration_id actor (o x.index)).0 in
      elim (m.phase_discrete (m.phase t user machine) (m.phase s user machine)) [
        | no moved ↦
            let (q, f, u, k) = reaches s x.registration_id actor (o x.index) user machine h moved in
            (0, x, q, refl, f, u, k)
        | yes same ↦
            let (k, y, q, at, f, u, v) =
              decide_all_moved actor o t xs user machine
                (keeps s x.registration_id actor (o x.index) h) (λ e. n (e ∙ same)) in
            (
              suc k,
              y,
              q,
              at,
              adds_none s x.registration_id actor (o x.index) y.registration_id q f,
              u,
              v,
            )
      ]

  pub decide_chosen_moved :
      (c : Coordinator) (s : m.State) (admin : Text) (is : List ℕ) (o : ℕ → m.Ambient)
      (user machine : Text)
      → m.IsSound s
      → m.phase (decide_chosen m decide c s admin is o).1 user machine ≢ m.phase s user machine
      → WasListed m c s admin is user machine
  unfolding decide_chosen
  decide_chosen_moved c s admin is o user machine h n =
      elim (Result-cases (resolve_selection c (m.list_pending s) admin is).1) [
        | inr (e, r) ↦ absurd (n (rw (r, decide_chosen) refl))
        | inl (xs, r) ↦
            let (known, from) = resolved_from c (m.list_pending s) admin is xs r in
            let (l, at_list, picked, places) =
              resolved (lookup admin c.snapshots) (m.list_pending s) is xs from in
            let (k, x, q, at, f, u, v) =
              decide_all_moved (actor_of admin) o s xs user machine h
                (λ e. n (rw (r, decide_chosen) e)) in
            let (asked, listed) = pick_all-Listed l (m.list_pending s) is xs picked k x at in
            (
              l,
              k,
              x.index,
              x.registration_id,
              q,
              known,
              at_list,
              asked,
              are_indexes_pos [] is k x.index places asked,
              listed,
              f,
              u,
              v,
            )
      ]
