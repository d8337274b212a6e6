-- ===== src/Tests/Panel.antt =====
-- The panel: the theorems at small registries and short histories.
use dsh_full_remote.Prelude.{◌≡◌, refl, true, false, none, some, List, [], ◌∷◌}
use dsh_full_remote.Prelude.Text.{Text, codes, text_eq}
use dsh_full_remote.Prelude.StrMap.{get, set}
use dsh_full_remote.Pending.View.{approval, project_interaction}
use dsh_full_remote.Pending.Source.{
  Registry, Snapshot, SourceOp, subscribed, collected, arriving, run_source, on_source, subscribe,
  create_pending_source, collect, answer_approval, wait_for, waits_of, items_of, views_of,
}
use dsh_full_remote.Pending.Fence.{IsLatest, answer_approval_fenced}
use dsh_full_remote.Cockpit.Connection.{
  Cockpit, created, connected, unknown, link_changed, microtask, occurs, react, Reachable, start,
  step, observe_connection, request_recovery_refresh, request_refresh, publish,
}
use dsh_full_remote.Cockpit.Flights.{IsTidy, Reachable-IsTidy}

-- A registry with one approval that waits.
abbrev waiting : Registry
waiting = record {
  ids = [];
  by_id = [];
  phase = arriving;
  status =
      (
        codes "s",
        record {
          running = none;
          completion_unread = false;
          pending_interaction = some (approval (codes "k") (codes "s") (codes "tool") none);
        },
      )
      ∷ [];
}

abbrev fingerprint : Snapshot → Text
fingerprint s = []

abbrev source_ops : List SourceOp
source_ops = subscribed 1 ∷ collected waiting ∷ []

answer_approval_fenced_example :
    ((run_source fingerprint (create_pending_source fingerprint waiting) source_ops).disposed
      ≡ false)
    × (true ≡ true)
    × IsLatest waiting (codes "k") (approval (codes "k") (codes "s") (codes "tool") none)
unfolding answer_approval run_source on_source subscribe create_pending_source collect wait_for
    waits_of items_of views_of project_interaction get set text_eq
answer_approval_fenced_example =
    answer_approval_fenced fingerprint waiting waiting source_ops (codes "k")
      (approval (codes "k") (codes "s") (codes "tool") none) refl

-- A connection that recovers, and begins a refresh.
abbrev recovered : Cockpit
recovered = react (react (created unknown none) (link_changed connected) 7000) microtask 7001

recovered-Reachable : Reachable unknown none recovered
unfolding occurs react created observe_connection request_recovery_refresh request_refresh publish
recovered-Reachable =
    step (react (created unknown none) (link_changed connected) 7000) microtask 7001
      (step (created unknown none) (link_changed connected) 7000 start refl) refl

Reachable-IsTidy_example : IsTidy recovered
Reachable-IsTidy_example = Reachable-IsTidy unknown none recovered recovered-Reachable
