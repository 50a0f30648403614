-- ===== src/Workers/FundingReconciliation/Rollback/Examples.antt =====
-- A mission that is funded, and whose payment was never made.
use waylo_app.Base.{◌≡◌, refl, true, false, none, some}
use waylo_app.Base.Table.{find_many}
use waylo_app.Schema.Status.{MissionStatus, is_status, is_escrow_status}
use waylo_app.App.{World, ok}
use waylo_app.Samples.{sample_world}
use waylo_app.Workers.FundingReconciliation.{
  FundingRun, requires_confirmation, requires_capture, candidates, stale_among, roll_back,
  release_intent, reconcile_funding, reconcile_all, run_funding_reconciliation_once,
}
use waylo_app.Workers.FundingReconciliation.Rollback.{Outcome, reconcile_funding_outcome}

abbrev funded_world : World
funded_world = sample_world MissionStatus.funded

abbrev unpaid : FundingRun
unpaid = record {
  is_stale = λ k. true;
  retrieve = λ i. some requires_confirmation;
  cancels = λ i. false;
  search = λ k. none;
  meanwhile = λ k db. db;
}

reconcile_funding_outcome_example :
    Outcome unpaid 7 77 funded_world (reconcile_funding unpaid 7 77 funded_world)
reconcile_funding_outcome_example = reconcile_funding_outcome unpaid 7 77 funded_world

one_abandoned :
    (run_funding_reconciliation_once unpaid 100 funded_world).0
    ≡ ok (record { rolled_back = 1; cancel_failed = 1; skipped = 0 })
unfolding run_funding_reconciliation_once candidates stale_among roll_back release_intent
    reconcile_funding reconcile_all find_many is_status is_escrow_status
one_abandoned = refl

-- money that waits for its capture is left alone
one_paid :
    (run_funding_reconciliation_once
      (record unpaid { retrieve = λ i. some requires_capture })
      100
      funded_world).0
    ≡ ok (record { rolled_back = 0; cancel_failed = 0; skipped = 1 })
unfolding run_funding_reconciliation_once candidates stale_among roll_back release_intent
    reconcile_funding reconcile_all find_many is_status is_escrow_status
one_paid = refl
