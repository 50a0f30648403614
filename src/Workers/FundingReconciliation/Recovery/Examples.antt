-- ===== src/Workers/FundingReconciliation/Recovery/Examples.antt =====
-- A mission that is funded, and whose escrow was never written.
use waylo_app.Base.{◌≡◌, refl, true, false, none, some, [], ◌∷◌}
use waylo_app.Base.Table.{find_many, find_first}
use waylo_app.Schema.Status.{MissionStatus, is_status}
use waylo_app.App.{World, ok}
use waylo_app.Samples.{sample_world, empty_table}
use waylo_app.Workers.FundingReconciliation.{FundingRun, canceled, requires_capture}
use waylo_app.Workers.FundingReconciliation.Orphans.{
  orphans_among, find_live, recreate_escrow, settle_orphan, reconcile_orphan, reconcile_orphans,
  run_orphan_funding_reconciliation_once,
}
use waylo_app.Workers.FundingReconciliation.Recovery.{Outcome, reconcile_orphan_outcome}

abbrev orphan_world : World
orphan_world =
    let w = sample_world MissionStatus.funded in
    record w { db = record w.db { escrows = empty_table } }

abbrev paid : FundingRun
paid = record {
  is_stale = λ k. true;
  retrieve = λ i. none;
  cancels = λ i. false;
  search = λ k. some ((70, canceled) ∷ (71, requires_capture) ∷ []);
  meanwhile = λ k db. db;
}

reconcile_orphan_outcome_example :
    Outcome paid 7 orphan_world (reconcile_orphan paid 7 orphan_world)
reconcile_orphan_outcome_example = reconcile_orphan_outcome paid 7 orphan_world

one_recreated :
    (run_orphan_funding_reconciliation_once paid 100 orphan_world).0
    ≡ ok (record { escrow_recreated = 1; rolled_back = 0; skipped = 0 })
unfolding run_orphan_funding_reconciliation_once orphans_among find_live recreate_escrow
    settle_orphan reconcile_orphan reconcile_orphans find_many find_first is_status
one_recreated = refl
