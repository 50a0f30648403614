-- ===== src/Escrow/Examples.antt =====
-- Tests of the capture of src/services/escrow.service.ts.
use waylo_app.Base.{ℕ, ◌≡◌, ◌≤◌, ◌⊎◌, refl, arith}
use waylo_app.Schema.Status.{MissionStatus}
use waylo_app.Schema.Rows.{Mission, Escrow}
use waylo_app.Watchdog.{Attempt, resolves}
use waylo_app.App.{World, CaptureContext, Code, app_error, ok, err, Done}
use waylo_app.Escrow.{capture_amount_cents, capture_for_route}
use waylo_app.Escrow.Capture.{IsCapturable, capture_calls, after_calls, after_failure, capture_runs}
use waylo_app.Samples.{sample_mission, sample_escrow, sample_world, undisturbed}

abbrev stripe_up : ℕ → Attempt Done
stripe_up n = resolves 10 tt

abbrev start : World
start = sample_world MissionStatus.awaiting_validation

start_IsCapturable :
    IsCapturable start.db 7 sample_escrow (sample_mission MissionStatus.awaiting_validation)
start_IsCapturable = record { escrow_row = refl; mission_row = refl; is_held = refl }

capture_runs_example :
    let m = sample_mission MissionStatus.awaiting_validation in
    let c = CaptureContext.validate in
    (capture_calls stripe_up undisturbed 7 c start ≤ 4)
    × ((capture_for_route stripe_up undisturbed 7 c start ≡ (
      err (app_error Code.escrow_capture_failed 502),
      after_failure stripe_up undisturbed 7 c start sample_escrow m,
    ))
        ⊎ (capture_for_route stripe_up undisturbed 7 c start ≡ (
          ok (capture_amount_cents m),
          after_calls stripe_up undisturbed 7 c start sample_escrow m,
        )))
capture_runs_example =
    capture_runs stripe_up undisturbed 7 CaptureContext.validate start sample_escrow
      (sample_mission MissionStatus.awaiting_validation) start_IsCapturable

-- mission 8 has no escrow
nothing_IsCapturable : (e : Escrow) (m : Mission) → ¬ IsCapturable start.db 8 e m
nothing_IsCapturable e m h = ground (arith, h.escrow_row)
