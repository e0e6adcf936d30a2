-- ===== src/Approval/Lists.antt =====
-- internal/server/registration_approval.go: the list of an administrator stands from CommitList to its
-- first use.
use herdr_pal.Prelude.{
  ℕ, ◌≡◌, ◌≢◌, ◌⊎◌, refl, List, [], ◌∷◌, ◌++◌, ◌||◌, true, false, any, if◌then◌else◌, not, none,
  some, ◌==◌, All, arith, sym, ap, ◌∙◌, Bool-cases, ==_cases, inl, inr, Result-cases, ok,
}
use herdr_pal.Prelude.Maps.{lookup, insert, delete, lookup-insert, lookup-delete}
use herdr_pal.Prelude.Text.{Text, text_eq}
use herdr_pal.Registration.{Request}
use herdr_pal.Approval.{
  Coordinator, ApprovalList, new_coordinator, is_admin, notify_pending, commit_list, invalidate,
  resolve_selection,
}
use herdr_pal.Approval.Manager.{
  ApprovalManager, Decide, decide_chosen, approve_chosen, reject_chosen,
}

-- The calls that a coordinator gets. Approve and Reject come with the registrations as they are then.
pub data ListCall (m : ApprovalManager) : Type 0 where
  notify_call : ListCall m
  commit_call : Text → ApprovalList → ListCall m
  invalidate_call : Text → ListCall m
  approve_call reject_call : m.State → Text → List ℕ → (ℕ → m.Ambient) → ListCall m

unfoldable pub coordinator_step : (m : ApprovalManager) → Coordinator → ListCall m → Coordinator
unfolding notify_pending commit_list invalidate approve_chosen reject_chosen
coordinator_step m c notify_call = (notify_pending c).0
coordinator_step m c (commit_call admin l) = (commit_list c admin l).0
coordinator_step m c (invalidate_call admin) = (invalidate c admin).0
coordinator_step m c (approve_call s admin is o) = (approve_chosen m c s admin is o).0
coordinator_step m c (reject_call s admin is o) = (reject_chosen m c s admin is o).0

unfoldable pub coordinator_run :
    (m : ApprovalManager) → Coordinator → List (ListCall m) → Coordinator
unfolding coordinator_step
coordinator_run m c [] = c
coordinator_run m c (call ∷ calls) = coordinator_run m (coordinator_step m c call) calls

-- The call neither replaces the list of an administrator nor uses it up.
abbrev pub Spares : (m : ApprovalManager) → Text → ListCall m → Type 0
Spares m admin notify_call = Unit
Spares m admin (commit_call a l) = (a ≢ admin) ⊎ (l.admin_id ≢ a)
Spares m admin (invalidate_call a) = a ≢ admin
Spares m admin (approve_call s a is o) = a ≢ admin
Spares m admin (reject_call s a is o) = a ≢ admin

-- The list was committed for the administrator, and no later call replaces it or uses it up.
abbrev pub Stands : (m : ApprovalManager) → Text → List Text → List (ListCall m) → Type 0
Stands m admin snapshot calls =
    (before : List (ListCall m)) × (l : ApprovalList) × (after : List (ListCall m)) × (calls
      ≡ before ++ (commit_call admin l ∷ after))
    × (l.admin_id ≡ admin)
    × (l.registration_ids ≡ snapshot)
    × All (Spares m admin) after

-- What a call does to the list of an administrator: it commits it, or spares it.
abbrev Does : (m : ApprovalManager) → Text → List Text → Coordinator → ListCall m → Type 0
Does m admin snapshot c call =
    ((l : ApprovalList) × (call ≡ commit_call admin l)
      × (l.admin_id ≡ admin)
      × (l.registration_ids ≡ snapshot))
    ⊎ (Spares m admin call × (lookup admin c.snapshots ≡ some snapshot))

deleted :
    (c : Coordinator) (a admin : Text) (snapshot : List Text)
    → lookup admin (delete a c.snapshots) ≡ some snapshot
    → (a ≢ admin) × (lookup admin c.snapshots ≡ some snapshot)
deleted c a admin snapshot f = ground (arith, f, lookup-delete a admin c.snapshots)

committed :
    (c : Coordinator) (a : Text) (l : ApprovalList)
    → (not (is_admin c a) || not (l.admin_id == a)) ≡ false
    → (commit_list c a l).0.snapshots ≡ insert a l.registration_ids c.snapshots
unfolding commit_list
committed c a l t = rw (t, commit_list) refl

refused :
    (c : Coordinator) (a : Text) (l : ApprovalList)
    → (not (is_admin c a) || not (l.admin_id == a)) ≡ true
    → (commit_list c a l).0 ≡ c
unfolding commit_list
refused c a l t = rw (t, commit_list) refl

commit-Does :
    (m : ApprovalManager) (c : Coordinator) (a : Text) (l : ApprovalList) (admin : Text)
    (snapshot : List Text)
    → is_admin c admin ≡ true
    → lookup admin (commit_list c a l).0.snapshots ≡ some snapshot
    → Does m admin snapshot c (commit_call a l)
commit-Does m c a l admin snapshot y f =
    elim (Bool-cases (not (is_admin c a) || not (l.admin_id == a))) [
      | inl t ↦
          let kept : lookup admin c.snapshots ≡ some snapshot =
            ap (λ d. lookup admin d.snapshots) (sym (refused c a l t)) ∙ f in
          elim (==_cases a admin) [
            | inr (q, b) ↦ inr (inl q, kept)
            | inl (q, b) ↦
                let known : is_admin c a ≡ true = ap (is_admin c) q ∙ y in
                inr (inr (λ own. ground (arith, known, own, t)), kept)
          ]
      | inr t ↦
          let found : lookup admin (insert a l.registration_ids c.snapshots) ≡ some snapshot =
            ap (lookup admin) (sym (committed c a l t)) ∙ f in
          let read = lookup-insert a admin l.registration_ids c.snapshots in
          elim (==_cases a admin) [
            | inr (q, b) ↦ inr (inl q, ground (arith, b, found, read))
            | inl (q, b) ↦
                let own : l.admin_id ≡ a = ground (arith, t) in
                inl (l, ap (λ x. commit_call x l) q, own ∙ q, ground (arith, b, found, read))
          ]
    ]

-- A call that deletes the list of `a`, if `a` is an administrator.
dropped :
    (c d : Coordinator) (a admin : Text) (snapshot : List Text)
    → is_admin c admin ≡ true
    → d.snapshots ≡ (if is_admin c a then delete a c.snapshots else c.snapshots)
    → lookup admin d.snapshots ≡ some snapshot
    → (a ≢ admin) × (lookup admin c.snapshots ≡ some snapshot)
dropped c d a admin snapshot y e f = elim (Bool-cases (is_admin c a)) [
  | inl t ↦
      let left : d.snapshots ≡ delete a c.snapshots = ground (arith, e, t) in
      deleted c a admin snapshot (ap (lookup admin) (sym left) ∙ f)
  | inr t ↦
      let left : d.snapshots ≡ c.snapshots = ground (arith, e, t) in
      (λ q. ground (arith, ap (is_admin c) q, y, t), ap (lookup admin) (sym left) ∙ f)
]

invalidate_snapshots :
    (c : Coordinator) (a : Text)
    → (invalidate c a).0.snapshots ≡ (if is_admin c a then delete a c.snapshots else c.snapshots)
unfolding invalidate
invalidate_snapshots c a = elim (Bool-cases (is_admin c a)) [
  | inl t ↦ rw (t, invalidate) refl
  | inr t ↦ rw (t, invalidate) refl
]

resolve_snapshots :
    (c : Coordinator) (current : List Request) (a : Text) (is : List ℕ)
    → (resolve_selection c current a is).0.snapshots
      ≡ (if is_admin c a then delete a c.snapshots else c.snapshots)
unfolding resolve_selection
resolve_snapshots c current a is = elim (Bool-cases (is_admin c a)) [
  | inl t ↦ rw (t, resolve_selection) refl
  | inr t ↦ rw (t, resolve_selection) refl
]

decide_snapshots :
    (m : ApprovalManager) (decide : Decide m) (c : Coordinator) (s : m.State) (a : Text)
    (is : List ℕ) (o : ℕ → m.Ambient)
    → (decide_chosen m decide c s a is o).0 ≡ (resolve_selection c (m.list_pending s) a is).0
unfolding decide_chosen
decide_snapshots m decide c s a is o =
    elim (Result-cases (resolve_selection c (m.list_pending s) a is).1) [
      | inl (xs, r) ↦ rw (r, decide_chosen) refl
      | inr (e, r) ↦ rw (r, decide_chosen) refl
    ]

notify_snapshots : (c : Coordinator) → (notify_pending c).0.snapshots ≡ c.snapshots
unfolding notify_pending
notify_snapshots c = ground arith

admin_ids-resolve :
    (c : Coordinator) (current : List Request) (a : Text) (is : List ℕ)
    → (resolve_selection c current a is).0.admin_ids ≡ c.admin_ids
unfolding resolve_selection
admin_ids-resolve c current a is = ground arith

module _ (m : ApprovalManager) where
  decided :
      (decide : Decide m) (c : Coordinator) (s : m.State) (a : Text) (is : List ℕ)
      (o : ℕ → m.Ambient) (admin : Text) (snapshot : List Text)
      → is_admin c admin ≡ true
      → lookup admin (decide_chosen m decide c s a is o).0.snapshots ≡ some snapshot
      → (a ≢ admin) × (lookup admin c.snapshots ≡ some snapshot)
  decided decide c s a is o admin snapshot y f =
      dropped c (decide_chosen m decide c s a is o).0 a admin snapshot y
        (ap (λ d. d.snapshots) (decide_snapshots m decide c s a is o)
          ∙ resolve_snapshots c (m.list_pending s) a is)
        f

  step-Does :
      (c : Coordinator) (call : ListCall m) (admin : Text) (snapshot : List Text)
      → is_admin c admin ≡ true
      → lookup admin (coordinator_step m c call).snapshots ≡ some snapshot
      → Does m admin snapshot c call
  unfolding coordinator_step approve_chosen reject_chosen
  step-Does c notify_call admin snapshot y f =
      inr (tt, ap (lookup admin) (sym (notify_snapshots c)) ∙ f)
  step-Does c (commit_call a l) admin snapshot y f = commit-Does m c a l admin snapshot y f
  step-Does c (invalidate_call a) admin snapshot y f =
      inr (dropped c (invalidate c a).0 a admin snapshot y (invalidate_snapshots c a) f)
  step-Does c (approve_call s a is o) admin snapshot y f =
      inr (decided m.approve c s a is o admin snapshot y f)
  step-Does c (reject_call s a is o) admin snapshot y f =
      inr (decided m.reject c s a is o admin snapshot y f)

  admin_ids-step :
      (c : Coordinator) (call : ListCall m) → (coordinator_step m c call).admin_ids ≡ c.admin_ids
  unfolding coordinator_step approve_chosen reject_chosen notify_pending commit_list invalidate
  admin_ids-step c notify_call = ground arith
  admin_ids-step c (commit_call a l) = ground arith
  admin_ids-step c (invalidate_call a) = ground arith
  admin_ids-step c (approve_call s a is o) =
      ap (λ d. d.admin_ids) (decide_snapshots m m.approve c s a is o)
      ∙ admin_ids-resolve c (m.list_pending s) a is
  admin_ids-step c (reject_call s a is o) =
      ap (λ d. d.admin_ids) (decide_snapshots m m.reject c s a is o)
      ∙ admin_ids-resolve c (m.list_pending s) a is

  is_admin-step :
      (c : Coordinator) (call : ListCall m) (admin : Text)
      → is_admin (coordinator_step m c call) admin ≡ is_admin c admin
  unfolding is_admin
  is_admin-step c call admin = ap (any (λ id. id == admin)) (admin_ids-step c call)

  is_admin-run :
      (c : Coordinator) (calls : List (ListCall m)) (admin : Text)
      → is_admin (coordinator_run m c calls) admin ≡ is_admin c admin
  unfolding coordinator_run
  is_admin-run c [] admin = refl
  is_admin-run c (call ∷ calls) admin =
      is_admin-run (coordinator_step m c call) calls admin ∙ is_admin-step c call admin

  run-Stands :
      (c : Coordinator) (calls : List (ListCall m)) (admin : Text) (snapshot : List Text)
      → is_admin c admin ≡ true
      → lookup admin (coordinator_run m c calls).snapshots ≡ some snapshot
      → Stands m admin snapshot calls
        ⊎ ((lookup admin c.snapshots ≡ some snapshot) × All (Spares m admin) calls)
  unfolding coordinator_run
  run-Stands c [] admin snapshot y f = inr (f, tt)
  run-Stands c (call ∷ calls) admin snapshot y f =
      elim (run-Stands (coordinator_step m c call) calls admin snapshot
        (is_admin-step c call admin ∙ y) f) [
          | inl (before, l, after, e, own, listed, spared) ↦
              inl (call ∷ before, l, after, ap (λ x. call ∷ x) e, own, listed, spared)
          | inr (found, spared) ↦ elim (step-Does c call admin snapshot y found) [
            | inl (l, e, own, listed) ↦
                inl ([], l, calls, ap (λ x. x ∷ calls) e, own, listed, spared)
            | inr (spares, kept) ↦ inr (kept, (spares, spared))
          ]
        ]

no_lists :
    (ids : List Text) (c : Coordinator) (admin : Text)
    → new_coordinator ids ≡ ok c
    → lookup admin c.snapshots ≡ none
unfolding new_coordinator lookup
no_lists ids c admin n = ground (arith, n)

-- A list that a coordinator holds was committed and still stands.
pub list-Stands :
    (m : ApprovalManager) (ids : List Text) (c : Coordinator) (calls : List (ListCall m))
    (admin : Text) (snapshot : List Text)
    → new_coordinator ids ≡ ok c
    → is_admin (coordinator_run m c calls) admin ≡ true
    → lookup admin (coordinator_run m c calls).snapshots ≡ some snapshot
    → Stands m admin snapshot calls
list-Stands m ids c calls admin snapshot n y f =
    elim (run-Stands m c calls admin snapshot (sym (is_admin-run m c calls admin) ∙ y) f) [
      | inl s ↦ s
      | inr (found, spared) ↦ absurd (ground (arith, found, no_lists ids c admin n))
    ]
