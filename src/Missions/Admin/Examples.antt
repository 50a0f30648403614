-- ===== src/Missions/Admin/Examples.antt =====
-- Tests of src/missions/routes/admin.route.ts: the approval of a mission that awaits validation.
use waylo_app.Base.{ℕ, ◌≡◌, ◌⊎◌, ◌∷◌, ◌++◌, [], true, false, some, none, refl}
use waylo_app.Schema.Status.{MissionStatus, is_status}
use waylo_app.Watchdog.{Attempt, resolves}
use waylo_app.App.{World, AlertCode, CaptureContext, Fault, ok, err, Done}
use waylo_app.Escrow.Capture.{after_calls}
use waylo_app.Missions.Transition.{interrupted}
use waylo_app.Missions.Admin.{is_request_admin, awaits_review, customs_approve}
use waylo_app.Missions.Admin.Early.{customs_approve_early}
use waylo_app.Missions.Admin.Disputing.{dispute_mission, IsDisputed, dispute_mission_outcome}
use waylo_app.Samples.{
  sample_mission, sample_escrow, sample_user, sample_db, sample_world, undisturbed,
}

abbrev stripe_up : ℕ → Attempt Done
stripe_up n = resolves 10 tt

abbrev start : World
start = record (sample_world MissionStatus.awaiting_validation) {
  db = record (sample_db MissionStatus.awaiting_validation) {
    users = λ u. some (record sample_user { is_admin = true });
  };
}

start_admin : is_request_admin 9 start.db ≡ true
unfolding is_request_admin
start_admin = refl

start_early : awaits_review (sample_mission MissionStatus.awaiting_validation) ≡ false
unfolding is_status
start_early = refl

customs_approve_early_example :
    let out = customs_approve stripe_up undisturbed 9 7 start in
    (f : Fault) × (out.0 ≡ err f)
    × (out.1.db ≡ start.db)
    × (out.1.calls
        ≡ (after_calls stripe_up undisturbed 7 CaptureContext.customs start sample_escrow
            (sample_mission MissionStatus.awaiting_validation)).calls)
customs_approve_early_example =
    customs_approve_early stripe_up undisturbed 9 7 start start_admin sample_escrow
      (sample_mission MissionStatus.awaiting_validation)
      (sample_mission MissionStatus.awaiting_validation)
      (record { escrow_row = refl; mission_row = refl; is_held = refl }) refl start_early

-- the buyer disputes a deposited mission
dispute_mission_outcome_example :
    let w = sample_world MissionStatus.deposited in
    ((f : Fault) × ((dispute_mission undisturbed 600 1 7 none w ≡ (err f, w))
        ⊎ (dispute_mission undisturbed 600 1 7 none w ≡ (err f, interrupted undisturbed w))))
    ⊎ ((w' : World) × (dispute_mission undisturbed 600 1 7 none w ≡ (ok tt, w'))
        × (w'.alerts ≡ w.alerts ++ (AlertCode.mission_disputed_by_buyer ∷ []))
        × IsDisputed 600 7 none (undisturbed w.db) w'.db)
dispute_mission_outcome_example =
    dispute_mission_outcome undisturbed 600 1 7 none (sample_world MissionStatus.deposited)
