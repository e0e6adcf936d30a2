-- ===== src/Registry/Sound.antt =====
-- internal/session/registry.go: every method keeps the registry consistent, and any history of calls.
use herdr_pal.Prelude.{
  ◌≡◌, ◌≢◌, refl, List, [], ◌∷◌, Bool, true, false, some, ◌==◌, arith, subst, sym, ◌∙◌, Bool-cases,
  Option-cases, inl, inr, not, ◌||◌, length, nat_eq,
}
use herdr_pal.Prelude.Int.{ℤ, pos, int_lt}
use herdr_pal.Prelude.Maps.{lookup, insert, lookup-insert}
use herdr_pal.Prelude.Text.{Text, text_eq}
use herdr_pal.Registry.{Target, Snapshot, Identity, AgentInfo, AgentStatusEvent}
use herdr_pal.Registry.Keyed.{
  AreKeyed, pane-lookup, insert-AreKeyed, targets_from_snapshot-AreKeyed,
  preserve_statuses-AreKeyed,
}
use herdr_pal.Registry.Rebinding.{found-some, rebind_selected_cases}
use herdr_pal.Registry.Operations.{
  Registry, empty_registry, is_occupant, is_agent, found, entry_at, invalidate_selection,
  check_selection, replace, create_list_snapshot, choose, select_target, select, validate_selected,
  write_rebound, rebind_selected, apply_status, clear_selection,
}

-- The targets stand under their panes, and a selection names the occupant that its pane has now.
pub record IsSound (r : Registry) : Type 0 where
  pub keyed : AreKeyed r.targets
  pub selected :
      r.selected_key ≢ [] → is_occupant r.selected_key (lookup r.selected_pane r.targets) ≡ true
  pub invalid : r.selection_invalid ≡ true → r.selected_key ≡ []

-- A call that changes the registry.
pub data Call : Type 0 where
  replaces : Snapshot → Bool → Bool → Call
  lists : Call
  chooses : Text → Text → Call
  chooses_number : ℤ → Call
  validates : Call
  rebinds : Target → AgentInfo → Call
  applies : AgentStatusEvent → Call
  clears : Call

unfoldable pub step : (Identity → Text) → Registry → Call → Registry
step digest r (replaces s reconnect preserve) = (replace digest r s reconnect preserve).0
step digest r lists = (create_list_snapshot r).0
step digest r (chooses pane key) = (select_target r pane key).0
step digest r (chooses_number index) = (select r index).0
step digest r validates = (validate_selected r).0
step digest r (rebinds expected current) = (rebind_selected digest r expected current).0
step digest r (applies event) = (apply_status r event).0
step digest r clears = clear_selection r

unfoldable pub run : (Identity → Text) → Registry → List Call → Registry
run digest r [] = r
run digest r (call ∷ calls) = run digest (step digest r call) calls

invalidate_selection-IsSound :
    (r : Registry) → AreKeyed r.targets → IsSound r → IsSound (invalidate_selection r).0
unfolding invalidate_selection
invalidate_selection-IsSound r k h = elim (Bool-cases (r.selected_key == [])) [
  | inl e ↦ rw (e, invalidate_selection) h
  | inr e ↦
      rw (e, invalidate_selection)
        (record { keyed = k; selected = λ n. absurd (n refl); invalid = λ y. refl })
]

check_selection-IsSound :
    (r : Registry) (reconnect : Bool)
    → AreKeyed r.targets
    → (r.selection_invalid ≡ true → r.selected_key ≡ [])
    → IsSound (check_selection r reconnect).0
unfolding check_selection invalidate_selection
check_selection-IsSound r true k i = record {
  keyed = k;
  selected = λ n. absurd (n refl);
  invalid = λ y. cc;
}
check_selection-IsSound r false k i = elim (Bool-cases (r.selected_key == [])) [
  | inl e ↦
      rw (e, check_selection)
        (record { keyed = k; selected = λ n. absurd (ground (arith, e, n)); invalid = i })
  | inr e ↦ elim (Bool-cases (is_occupant r.selected_key (lookup r.selected_pane r.targets))) [
    | inl live ↦
        rw (e, live, check_selection) (record { keyed = k; selected = λ n. live; invalid = i })
    | inr gone ↦
        rw (e, gone, check_selection)
          (record { keyed = k; selected = λ n. absurd (n refl); invalid = λ y. refl })
  ]
]

replace-IsSound :
    (digest : Identity → Text) (r : Registry) (s : Snapshot) (reconnect preserve : Bool)
    → IsSound r
    → IsSound (replace digest r s reconnect preserve).0
unfolding replace
replace-IsSound digest r s reconnect true h =
    check_selection-IsSound _ reconnect
      (preserve_statuses-AreKeyed r.targets _ (targets_from_snapshot-AreKeyed digest s)) h.invalid
replace-IsSound digest r s reconnect false h =
    check_selection-IsSound _ reconnect (targets_from_snapshot-AreKeyed digest s) h.invalid

choose-IsSound :
    (r : Registry) (pane : Text) (t : Target)
    → AreKeyed r.targets
    → lookup pane r.targets ≡ some t
    → IsSound (choose r t)
choose-IsSound r pane t k e =
    let own = pane-lookup r.targets pane t k.own e in
    record { keyed = k; selected = λ n. ground (arith, own, e); invalid = λ y. cc }

select_target-IsSound :
    (r : Registry) (pane key : Text) → IsSound r → IsSound (select_target r pane key).0
unfolding select_target
select_target-IsSound r pane key h = elim (Option-cases (found key (lookup pane r.targets))) [
  | inl e ↦ rw (e, select_target) h
  | inr (t, e) ↦ rw (e, select_target) (choose-IsSound r pane t h.keyed (found-some key _ t e).0)
]

select-IsSound : (r : Registry) (index : ℤ) → IsSound r → IsSound (select r index).0
unfolding select
select-IsSound r index h = elim (Bool-cases (length r.list_snapshot == 0)) [
  | inl e ↦ rw (e, select) h
  | inr e ↦
      elim (Bool-cases (int_lt index (pos 1) || int_lt (pos (length r.list_snapshot)) index)) [
        | inl out ↦ rw (e, out, select) h
        | inr within ↦ elim (Option-cases (entry_at r.list_snapshot index)) [
          | inl n ↦ rw (e, within, n, select) h
          | inr (x, at) ↦
              rw (e, within, at, select) (select_target-IsSound r x.pane_id x.occupant_key h)
        ]
      ]
]

validate_selected-IsSound : (r : Registry) → IsSound r → IsSound (validate_selected r).0
unfolding validate_selected
validate_selected-IsSound r h = elim (Bool-cases r.selection_invalid) [
  | inl e ↦
      rw (e, validate_selected)
        (record { keyed = h.keyed; selected = h.selected; invalid = λ y. cc })
  | inr e ↦ elim (Bool-cases (r.selected_key == [])) [
    | inl b ↦ subst IsSound (sym (unselected e b)) h
    | inr b ↦ elim (Option-cases (found r.selected_key (lookup r.selected_pane r.targets))) [
      | inl n ↦ rw (e, b, n, validate_selected) (invalidate_selection-IsSound r h.keyed h)
      | inr (t, f) ↦ subst IsSound (sym (validated t e b f)) h
    ]
  ]
]
  where
    unselected :
        r.selection_invalid ≡ false → (r.selected_key == []) ≡ true → (validate_selected r).0 ≡ r
    unselected e b = ground (arith, e, b)

    validated :
        (t : Target)
        → r.selection_invalid ≡ false
        → (r.selected_key == []) ≡ false
        → found r.selected_key (lookup r.selected_pane r.targets) ≡ some t
        → (validate_selected r).0 ≡ r
    validated t e b f = ground (arith, e, b, f)

write_rebound-IsSound :
    (r : Registry) (old t : Target)
    → IsSound r
    → r.selection_invalid ≡ false
    → r.selected_pane ≡ t.pane_id
    → IsSound (write_rebound r old t)
unfolding write_rebound
write_rebound-IsSound r old t h valid pane = record {
  keyed = insert-AreKeyed t r.targets h.keyed;
  selected = λ n. ground (arith, pane, lookup-insert t.pane_id r.selected_pane t r.targets);
  invalid = λ y. absurd (ground (arith, valid, y));
}

rebind_selected-IsSound :
    (digest : Identity → Text) (r : Registry) (expected : Target) (current : AgentInfo)
    → IsSound r
    → IsSound (rebind_selected digest r expected current).0
rebind_selected-IsSound digest r expected current h =
    elim (rebind_selected_cases digest r expected current) [
      | inl e ↦ subst (λ x. IsSound x.0) (sym e) h
      | inr b ↦
          subst (λ x. IsSound x.0) (sym b.result)
            (write_rebound-IsSound r b.old _ h b.valid
              (b.pane ∙ sym (pane-lookup r.targets expected.pane_id b.old h.keyed.own b.at)))
    ]

apply_status-IsSound :
    (r : Registry) (event : AgentStatusEvent) → IsSound r → IsSound (apply_status r event).0
unfolding apply_status
apply_status-IsSound r event h = elim (Option-cases (lookup event.pane_id r.targets)) [
  | inl n ↦ rw (n, apply_status) h
  | inr (t, e) ↦ elim (Bool-cases (not (is_agent t.agent event.agent))) [
    | inl stale ↦ rw (e, stale, apply_status) h
    | inr same ↦ rw (e, same, apply_status) (with_status t e)
  ]
]
  where
    with_status :
        (t : Target)
        → lookup event.pane_id r.targets ≡ some t
        → IsSound (record r {
          targets = insert event.pane_id (record t { status = event.agent_status }) r.targets;
        })
    with_status t e =
        let own = pane-lookup r.targets event.pane_id t h.keyed.own e in
        let new : Target = record t { status = event.agent_status } in
        record {
          keyed =
              subst (λ p. AreKeyed (insert p new r.targets)) own
                (insert-AreKeyed new r.targets h.keyed);
          selected = λ n.
              ground
                (arith, h.selected n, e, lookup-insert event.pane_id r.selected_pane new r.targets);
          invalid = h.invalid;
        }

step-IsSound :
    (digest : Identity → Text) (r : Registry) (call : Call)
    → IsSound r
    → IsSound (step digest r call)
unfolding step create_list_snapshot clear_selection
step-IsSound digest r (replaces s reconnect preserve) h =
    replace-IsSound digest r s reconnect preserve h
step-IsSound digest r lists h = record {
  keyed = h.keyed;
  selected = h.selected;
  invalid = h.invalid;
}
step-IsSound digest r (chooses pane key) h = select_target-IsSound r pane key h
step-IsSound digest r (chooses_number index) h = select-IsSound r index h
step-IsSound digest r validates h = validate_selected-IsSound r h
step-IsSound digest r (rebinds expected current) h =
    rebind_selected-IsSound digest r expected current h
step-IsSound digest r (applies event) h = apply_status-IsSound r event h
step-IsSound digest r clears h = record {
  keyed = h.keyed;
  selected = λ n. absurd (n refl);
  invalid = λ y. refl;
}

run-from :
    (digest : Identity → Text) (r : Registry) (calls : List Call)
    → IsSound r
    → IsSound (run digest r calls)
unfolding run
run-from digest r [] h = h
run-from digest r (call ∷ calls) h =
    run-from digest (step digest r call) calls (step-IsSound digest r call h)

-- After any calls from an empty registry, each pane has one target that stands under its own pane,
-- and a selection names a pane and the occupant that the pane has now.
pub registry-IsSound :
    (digest : Identity → Text) (calls : List Call) → IsSound (run digest empty_registry calls)
registry-IsSound digest calls = run-from digest empty_registry calls (record {
  keyed = record { map = tt; own = tt };
  selected = λ n. absurd (n refl);
  invalid = λ y. refl;
})
