-- ===== src/Catalog/Calls.antt =====
-- internal/server/catalog.go: every call that writes the catalog, and any history of such calls.
-- Each holds the lock, so calls of several goroutines are some sequence of steps.
use herdr_pal.Prelude.{List, [], ◌∷◌, Option}
use herdr_pal.Prelude.Text.{Text, text_eq}
use herdr_pal.Hprp.{Target, SessionSnapshot, OutputMode, target_eq}
use herdr_pal.Catalog.{Error, ClientKey, SessionCatalog}
use herdr_pal.Catalog.Connections.{attach, apply_snapshot, detach}
use herdr_pal.Catalog.Routing.{
  Attempt, done, waits, create_numbered_snapshot, ensure_numbered_index, set_selection, selected,
  set_output_mode, select_attempt, rebind_attempt,
}

pub data Call : Type 0 where
  attaches : Text → ClientKey → Call
  applies : Text → SessionSnapshot → Call
  detaches : Text → Call
  numbers : Text → Call
  ensures : Text → Target → Call
  selects : Text → Target → Call
  reads_selection : Text → Call
  sets_mode : Text → Target → OutputMode → Call
  tries_selection : Text → Target → Call
  tries_rebind : Text → Target → Target → Call

abbrev pub after_attempt : SessionCatalog → Attempt (SessionCatalog × Option Error) → SessionCatalog
after_attempt c waits = c
after_attempt c (done r) = r.0

unfoldable pub step : SessionCatalog → Call → SessionCatalog
step c (attaches id key) = (attach c id key).0
step c (applies id s) = (apply_snapshot c id s).0
step c (detaches id) = (detach c id).0
step c (numbers u) = (create_numbered_snapshot c u).0
step c (ensures u t) = (ensure_numbered_index c u t).0
step c (selects u t) = (set_selection c u t).0
step c (reads_selection u) = (selected c u).0
step c (sets_mode u t mode) = (set_output_mode c u t mode).0
step c (tries_selection u t) = after_attempt c (select_attempt c u t)
step c (tries_rebind u expected replacement) =
    after_attempt c (rebind_attempt c u expected replacement)

unfoldable pub run : SessionCatalog → List Call → SessionCatalog
run c [] = c
run c (call ∷ calls) = run (step c call) calls
