-- ===== src/Missions/Logistics/Examples.antt =====
-- Tests of src/missions/routes/logistics.route.ts.
use waylo_app.Base.{ℕ, ◌≡◌, ◌⊎◌, true, false, none, some, [], ◌∷◌, refl, Text}
use waylo_app.Schema.Status.{MissionStatus, is_status}
use waylo_app.Schema.Rows.{Mission, Escrow}
use waylo_app.Watchdog.{Attempt, resolves}
use waylo_app.App.{World, CaptureContext, Code, Fault, app_error, ok, err, Done}
use waylo_app.Escrow.Capture.{IsCapturable}
use waylo_app.Missions.Transition.{Outcome}
use waylo_app.Missions.Capturing.{AfterCapture}
use waylo_app.Missions.Logistics.Matching.{match_mission, is_open, to_matched}
use waylo_app.Missions.Logistics.Depositing.{is_in_progress}
use waylo_app.Missions.Logistics.Receiving.{Crypto, needs_customs, receive, to_locked, to_received}
use waylo_app.Missions.Logistics.Outcomes.{MayMatch, later, match_outcome}
use waylo_app.Missions.Logistics.Reception.{HoldsSeal, receive_outcome}
use waylo_app.Missions.Logistics.Steps.{TransportRequest, handle, Stepped, handle-Stepped}
use waylo_app.Missions.Access.{find_mission_for_participant, find_mission_for_traveler}
use waylo_app.Missions.Logistics.Receipts.{submit_receipt}
use waylo_app.Missions.Logistics.Sealing.{IsAllowedPrice, IsSealed, submit_receipt_outcome}
use waylo_app.Missions.Logistics.Reviews.{create_review, review}
use waylo_app.Samples.{sample_mission, sample_db, sample_world, single, undisturbed}

abbrev stripe_up : ℕ → Attempt Done
stripe_up n = resolves 10 tt

-- no hash at all: the code is its own seal
abbrev plain : Crypto
plain = record { sha256_hex = λ t. t; from_hex = λ t. t }

abbrev code : Text
code = 7 ∷ []

abbrev sealed_world : MissionStatus → World
sealed_world s = record (sample_world s) {
  db = record (sample_db s) {
    missions = single 7 (record (sample_mission s) { inner_qr_code_hash = some code });
  };
}

-- funded, and without a traveler
abbrev open_world : World
open_world = record (sample_world MissionStatus.funded) {
  db = record (sample_db MissionStatus.funded) {
    missions = single 7 (record (sample_mission MissionStatus.funded) { traveler_id = none });
  };
}

matches : (match_mission undisturbed 2 7 open_world).0 ≡ ok tt
unfolding match_mission is_status
matches = refl

match_outcome_example :
    ((f : Fault) × (match_mission undisturbed 2 7 open_world ≡ (err f, open_world)))
    ⊎ ((m : Mission) × MayMatch open_world.db 2 7 m
        × Outcome 7 is_open
            (to_matched 2)
            open_world
            (later undisturbed 2 7 open_world)
            (match_mission undisturbed 2 7 open_world))
match_outcome_example = match_outcome undisturbed 2 7 open_world

handle-Stepped_example :
    let w = sample_world MissionStatus.matched in
    Stepped 7 w w (handle undisturbed 5 2 7 TransportRequest.start w)
handle-Stepped_example =
    handle-Stepped undisturbed 5 2 7 TransportRequest.start (sample_world MissionStatus.matched)

receive_outcome_example :
    let w = sealed_world MissionStatus.in_progress in
    let out = receive stripe_up undisturbed plain 1 7 code (λ m. []) w in
    ((f : Fault) × (out ≡ (err f, w)))
    ⊎ ((m : Mission) × HoldsSeal plain w.db 1 7 code MissionStatus.in_progress m
        × (((needs_customs m ≡ true) × Outcome 7 is_in_progress to_locked w w out)
            ⊎ ((needs_customs m ≡ false)
                × ((e : Escrow) × (m' : Mission) × IsCapturable w.db 7 e m'
                    × AfterCapture stripe_up undisturbed 7 CaptureContext.receive is_in_progress
                        (to_received [])
                        (app_error Code.mission_not_in_progress 400)
                        w
                        e
                        m'
                        out))))
receive_outcome_example =
    receive_outcome stripe_up undisturbed plain 1 7 code (λ m. [])
      (sealed_world MissionStatus.in_progress)

submit_receipt_outcome_example :
    let w = sample_world MissionStatus.in_progress in
    let out = submit_receipt undisturbed 5 2 7 1 11_000 code code w in
    ((f : Fault) × (out ≡ (err f, w)))
    ⊎ ((m : Mission) × (find_mission_for_traveler 7 2 w.db ≡ some m)
        × (is_in_progress m ≡ true)
        × IsAllowedPrice m 11_000
        × (((x : Fault) × (out.0 ≡ err x) × (out.1.db ≡ w.db))
            ⊎ ((out.0 ≡ ok tt) × IsSealed 5 7 11_000 code code w.db (out.1.db))))
submit_receipt_outcome_example =
    submit_receipt_outcome undisturbed 5 7 1 11_000 code code
      (sample_world MissionStatus.in_progress) 2

reviews : (review 1 7 5 none (sample_world MissionStatus.released)).0 ≡ ok tt
unfolding review create_review find_mission_for_participant is_status
reviews = refl
