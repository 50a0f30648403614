-- ===== src/Missions/Validation/Examples.antt =====
-- Tests of src/missions/routes/validation.route.ts.
use waylo_app.Base.{ℕ, ◌≡◌, ◌⊎◌, some}
use waylo_app.Schema.Status.{MissionStatus}
use waylo_app.Schema.Rows.{Mission, Escrow}
use waylo_app.Watchdog.{Attempt, resolves}
use waylo_app.App.{World, CaptureContext, Fault, err, Done}
use waylo_app.Escrow.Capture.{IsCapturable}
use waylo_app.Missions.Validation.Defs.{validate_with}
use waylo_app.Missions.Validation.Laws.{MayValidate, CapturedOutcome, validate_outcome}
use waylo_app.Samples.{sample_world, undisturbed}

abbrev stripe_up : ℕ → Attempt Done
stripe_up n = resolves 10 tt

abbrev start : World
start = sample_world MissionStatus.awaiting_validation

validate_outcome_example :
    let c = CaptureContext.validate in
    ((f : Fault) × (validate_with c stripe_up undisturbed 1 7 (some 3) start ≡ (err f, start)))
    ⊎ ((m : Mission) × (e : Escrow) × MayValidate start.db 1 7 (some 3) m
        × IsCapturable start.db 7 e m
        × CapturedOutcome c stripe_up undisturbed 1 7 (some 3) start e m)
validate_outcome_example =
    validate_outcome CaptureContext.validate stripe_up undisturbed 1 7 (some 3) start
