-- ===== src/Registry/Rebinding.antt =====
-- internal/session/registry.go: the ways that a lookup of an occupant and `RebindSelected` end.
use herdr_pal.Prelude.{
  ◌≡◌, false, Option, none, some, ◌==◌, arith, ok, err, ◌⊎◌, Bool-cases, Option-cases, inl, inr,
  not, ◌||◌, nat_eq,
}
use herdr_pal.Prelude.Maps.{lookup}
use herdr_pal.Prelude.Text.{Text, text_eq}
use herdr_pal.Registry.{Target, Identity, AgentInfo}
use herdr_pal.Registry.Operations.{
  Registry, selection_invalid, has_session, found, write_rebound, rebound, rebind_selected,
}

pub found-some :
    (key : Text) (o : Option Target) (t : Target)
    → found key o ≡ some t
    → (o ≡ some t) × (t.occupant_key ≡ key)
found-some key none t e = cc
found-some key (some u) t e = ground arith

-- The two ways that `RebindSelected` ends.
pub record Rebinds (digest : Identity → Text) (r : Registry) (expected : Target)
    (current : AgentInfo) : Type 0 where
  pub agent : Text
  pub old : Target
  pub known : current.agent ≡ some agent
  pub at : lookup expected.pane_id r.targets ≡ some old
  pub same : old.occupant_key ≡ expected.occupant_key
  pub valid : r.selection_invalid ≡ false
  pub pane : r.selected_pane ≡ expected.pane_id
  pub key : r.selected_key ≡ expected.occupant_key
  pub result : rebind_selected digest r expected current ≡ (
    write_rebound r old (rebound digest old current agent),
    ok (rebound digest old current agent),
  )

pub rebind_selected_cases :
    (digest : Identity → Text) (r : Registry) (expected : Target) (current : AgentInfo)
    → (rebind_selected digest r expected current ≡ (r, err selection_invalid))
      ⊎ Rebinds digest r expected current
unfolding rebind_selected
rebind_selected_cases digest r expected current = elim (Option-cases current.agent) [
  | inl n ↦ inl (ground (arith, n))
  | inr (agent, a) ↦
      elim (Option-cases (found expected.occupant_key (lookup expected.pane_id r.targets))) [
        | inl n ↦ inl (ground (arith, a, n))
        | inr (old, f) ↦
            elim (Bool-cases (
              not (has_session current.agent_session)
              || not (expected.pane_id == current.pane_id)
              || not (expected.terminal_id == current.terminal_id)
              || not (expected.agent == agent))) [
                | inl moved ↦ inl (ground (arith, a, moved))
                | inr there ↦
                    elim (Bool-cases (
                      r.selection_invalid
                      || not (r.selected_pane == expected.pane_id)
                      || not (r.selected_key == expected.occupant_key))) [
                        | inl other ↦ inl (ground (arith, a, there, other))
                        | inr ours ↦ inr (record {
                          agent = agent;
                          old = old;
                          known = a;
                          at = (found-some expected.occupant_key _ old f).0;
                          same = (found-some expected.occupant_key _ old f).1;
                          valid = ground (arith, ours);
                          pane = ground (arith, ours);
                          key = ground (arith, ours);
                          result = ground (arith, a, f, there, ours);
                        })
                      ]
              ]
      ]
]
