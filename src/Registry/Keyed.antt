-- ===== src/Registry/Keyed.antt =====
-- internal/session/registry.go: the targets stand under their own panes.
use herdr_pal.Prelude.{◌≡◌, ◌≢◌, ◌∙◌, refl, List, [], ◌∷◌, Option, none, some, All, arith}
use herdr_pal.Prelude.Maps.{Map, IsMap, lookup, insert, insert-IsMap, All-insert}
use herdr_pal.Prelude.Text.{Text, text_eq}
use herdr_pal.Registry.{
  Target, Targets, Orders, Snapshot, Identity, Workspace, Tab, Pane, add_pane, add_panes,
  targets_from_snapshot,
}
use herdr_pal.Registry.Operations.{kept_status, preserve_statuses}

abbrev pub IsOwn : Text × Target → Type 0
IsOwn e = e.1.pane_id ≡ e.0

-- Each pane has one target, and each target stands under its own pane.
pub record AreKeyed (m : Targets) : Type 0 where
  pub map : IsMap m
  pub own : All IsOwn m

pub insert-AreKeyed : (t : Target) (m : Targets) → AreKeyed m → AreKeyed (insert t.pane_id t m)
insert-AreKeyed t m k = record {
  map = insert-IsMap t.pane_id t m k.map;
  own = All-insert IsOwn t.pane_id t m refl k.own;
}

pub pane-lookup :
    (m : Targets) (pane : Text) (t : Target)
    → All IsOwn m
    → lookup pane m ≡ some t
    → t.pane_id ≡ pane
unfolding lookup
pane-lookup [] pane t a e = cc
pane-lookup ((p, u) ∷ m) pane t a e = ground (arith, a.0, e, pane-lookup m pane t a.1)

module _ (digest : Identity → Text) (workspaces : Map Text Workspace) (tabs : Map Text Tab) where
  add_pane-AreKeyed :
      (p : Pane) (agent : Option Text) (r : Targets × Orders)
      → AreKeyed r.0
      → AreKeyed (add_pane digest workspaces tabs p agent r).0
  unfolding add_pane
  add_pane-AreKeyed p none r k = k
  add_pane-AreKeyed p (some agent) r k = insert-AreKeyed _ r.0 k

  add_panes-AreKeyed :
      (ps : List Pane) (r : Targets × Orders)
      → AreKeyed r.0
      → AreKeyed (add_panes digest workspaces tabs ps r).0
  unfolding add_panes
  add_panes-AreKeyed [] r k = k
  add_panes-AreKeyed (p ∷ ps) r k =
      add_panes-AreKeyed ps (add_pane digest workspaces tabs p p.agent r)
        (add_pane-AreKeyed p p.agent r k)

pub targets_from_snapshot-AreKeyed :
    (digest : Identity → Text) (s : Snapshot) → AreKeyed (targets_from_snapshot digest s).0
unfolding targets_from_snapshot
targets_from_snapshot-AreKeyed digest s =
    add_panes-AreKeyed digest _ _ s.panes ([], []) (record { map = tt; own = tt })

preserve_statuses-All {κ} :
    (P : Text → Type κ) (current m : Targets)
    → All (λ e. P e.0) m
    → All (λ e. P e.0) (preserve_statuses current m)
unfolding preserve_statuses
preserve_statuses-All P current [] a = tt
preserve_statuses-All P current ((p, t) ∷ m) a = (a.0, preserve_statuses-All P current m a.1)

preserve_statuses-IsMap : (current m : Targets) → IsMap m → IsMap (preserve_statuses current m)
unfolding preserve_statuses
preserve_statuses-IsMap current [] d = tt
preserve_statuses-IsMap current ((p, t) ∷ m) d =
    (preserve_statuses-All (λ q. p ≢ q) current m d.0, preserve_statuses-IsMap current m d.1)

kept_pane : (t : Target) (o : Option Target) → (kept_status t o).pane_id ≡ t.pane_id
kept_pane t none = refl
kept_pane t (some u) = ground arith

preserve_statuses-IsOwn :
    (current m : Targets) → All IsOwn m → All IsOwn (preserve_statuses current m)
unfolding preserve_statuses
preserve_statuses-IsOwn current [] a = tt
preserve_statuses-IsOwn current ((p, t) ∷ m) a =
    (kept_pane t (lookup p current) ∙ a.0, preserve_statuses-IsOwn current m a.1)

pub preserve_statuses-AreKeyed :
    (current m : Targets) → AreKeyed m → AreKeyed (preserve_statuses current m)
preserve_statuses-AreKeyed current m k = record {
  map = preserve_statuses-IsMap current m k.map;
  own = preserve_statuses-IsOwn current m k.own;
}

pub lookup-preserve_statuses :
    (current m : Targets) (pane : Text)
    → lookup pane (preserve_statuses current m)
      ≡ elim (lookup pane m) [ none ↦ none | some t ↦ some (kept_status t (lookup pane current)) ]
unfolding preserve_statuses lookup
lookup-preserve_statuses current [] pane = refl
lookup-preserve_statuses current ((p, t) ∷ m) pane =
    ground (arith, lookup-preserve_statuses current m pane)
