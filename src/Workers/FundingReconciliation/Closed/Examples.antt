-- ===== src/Workers/FundingReconciliation/Closed/Examples.antt =====
-- A mission that is funded, and whose payment was never made.
use waylo_app.Base.{◌≡◌, refl, true, some, []}
use waylo_app.Schema.Status.{MissionStatus, is_status, is_escrow_status}
use waylo_app.App.{World}
use waylo_app.Samples.{sample_world, sample_mission, sample_escrow}
use waylo_app.Workers.FundingReconciliation.{
  FundingRun, requires_confirmation, to_created, is_untouched, is_funded, reconcile_funding,
}
use waylo_app.Workers.FundingReconciliation.Closed.{IsClosed, reconcile_funding-IsClosed}

abbrev funded_world : World
funded_world = sample_world MissionStatus.funded

abbrev unpaid : FundingRun
unpaid = record {
  is_stale = λ k. true;
  retrieve = λ i. some requires_confirmation;
  cancels = λ i. true;
  search = λ k. some [];
  meanwhile = λ k db. db;
}

held : is_untouched sample_escrow ≡ true
unfolding is_escrow_status
held = refl

funded : is_funded (sample_mission MissionStatus.funded) ≡ true
unfolding is_status
funded = refl

reconcile_funding-IsClosed_example :
    let after = (reconcile_funding unpaid 7 77 funded_world).1 in
    (after.db.missions.row 7 ≡ some (to_created (sample_mission MissionStatus.funded)))
    × IsClosed 7 after
reconcile_funding-IsClosed_example =
    reconcile_funding-IsClosed unpaid 7 77 sample_escrow (sample_mission MissionStatus.funded)
      funded_world refl refl held refl funded
